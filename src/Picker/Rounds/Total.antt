-- ===== src/Picker/Rounds/Total.antt =====
-- The whole of `PickPiecesWithAvailability`: it ends, and what it takes and leaves.
use goed2k.Common.{
  ℕ, zero, suc, ◌+◌, ◌-◌, ◌≤◌, ◌<◌, ◌≡◌, refl, ap, ◌∙◌, List, ◌++◌, Bool, true, false, ◌&&◌, not,
  Option, some, length, length-append, ◌==◌, ltb, arith, All, Bool-cases, inl, inr, Option-cases,
  get_elem?,
}
use goed2k.BitField.{BitField}
use goed2k.Geometry.{BlocksEnumerator, PieceBlock}
use goed2k.Picker.Block.{Peer, PeerSpeed, peer_speed_slow}
use goed2k.Picker.Piece.{DownloadingPiece}
use goed2k.Picker.State.{PieceState, PiecePicker, piece_none, start_piece}
use goed2k.Picker.State.Pieces.{occurrences, IsShaped}
use goed2k.Picker.State.Invariant.{IsConsistent}
use goed2k.Picker.State.Invariant.Status.{start_piece-IsConsistent}
use goed2k.Picker.Rounds.{
  add_downloading_blocks, piece_allowed, pick_downloading, pick_pieces_fuel,
  pick_pieces_with_availability, num_none, is_end_game, find_next,
}
use goed2k.Picker.Rounds.Bounds.{IsTaken, occurrences-add, add-IsShaped, add-greedy}
use goed2k.Picker.Rounds.Choice.{
  find_next-some, find_next-none, choose_none, choose_some, num_none-set,
}

zero_left : (j : ℕ) → 0 + j ≡ j
zero_left j = omega arith

at_zero :
    (ss : List PieceState) (k j : ℕ)
    → k ≡ 0 + j
    → get_elem? ss j ≡ some piece_none
    → get_elem? ss k ≡ some piece_none
at_zero ss k j z g = ap (get_elem? ss) (z ∙ zero_left j) ∙ g

module _ (peer : Option Peer) (speed : PeerSpeed) (available : Option BitField) where
  -- What a pass keeps of the pieces.
  abbrev Passed : List DownloadingPiece → List DownloadingPiece → Type 0
  Passed ds es =
      ((i : ℕ) → occurrences i es ≡ occurrences i ds)
      × ((e : BlocksEnumerator) → All (IsShaped e) ds → All (IsShaped e) es)

  passed :
      (eg : Bool) (ds : List DownloadingPiece) (n : ℕ)
      → Passed ds (add_downloading_blocks ds n peer speed eg available).0
  passed eg ds n = (
    (λ i. occurrences-add peer speed eg available i ds n),
    (λ e s. add-IsShaped peer speed eg available e ds n s),
  )

  -- One pass, or two.
  pick_downloading_lem :
      (p : PiecePicker) (n : ℕ)
      → let r = pick_downloading p n peer speed available in
        (length r.1 ≤ n)
        × (length r.1 < n → All (IsTaken available) r.0.downloading_pieces)
        × (r.0.piece_status ≡ p.piece_status)
        × (IsConsistent p → IsConsistent r.0)
  unfolding pick_downloading
  pick_downloading_lem p n =
      let a = add_downloading_blocks p.downloading_pieces n peer speed false available in
      let g = add-greedy peer speed false available p.downloading_pieces n in
      let m : ℕ = n - length a.1 in
      let b = add_downloading_blocks a.0 m peer speed true available in
      let g' = add-greedy peer speed true available a.0 m in
      let keep : (x : List DownloadingPiece)
          → Passed p.downloading_pieces x
          → IsConsistent p
          → IsConsistent (record p { downloading_pieces = x }) =
        λ x k c. record {
          total = c.total;
          counted = λ i. k.0 i ∙ c.counted i;
          shaped = k.1 p.enumerator c.shaped;
        } in
      let q : PiecePicker = record p { downloading_pieces = a.0 } in
      let first = passed false p.downloading_pieces n in
      let second = passed true a.0 m in
      elim (Bool-cases (not (speed == peer_speed_slow) && (ltb (length a.1) n && is_end_game q))) [
        | inr once ↦ rw once (g.0, g.1, refl, keep a.0 first)
        | inl twice ↦ rw twice (
          ground (arith, g.0, g'.0, length-append a.1 b.1),
          λ h. g'.1 (ground (arith, g.0, length-append a.1 b.1)),
          refl,
          keep b.0 ((λ i. second.0 i ∙ first.0 i), (λ e s. second.1 e (first.1 e s))),
        )
      ]

  -- What a pick of at most `n` blocks from `p` gives: no more than `n` blocks; if fewer, no allowed
  -- piece is left that was not begun, or that has a free block; and a consistent state.
  pub record Outcome (p : PiecePicker) (n : ℕ) (r : PiecePicker × List PieceBlock) : Type 0 where
    pub bounded : length r.1 ≤ n
    pub taken : length r.1 < n → All (IsTaken available) r.0.downloading_pieces
    pub begun :
        length r.1 < n
        → (j : ℕ) → get_elem? r.0.piece_status j ≡ some piece_none
        → piece_allowed available j ≡ false
    pub consistent : IsConsistent p → IsConsistent r.0

  pick_pieces_fuel-Outcome :
      (fuel : ℕ) (p : PiecePicker) (n : ℕ)
      → num_none p.piece_status < fuel
      → (r : PiecePicker × List PieceBlock) × (pick_pieces_fuel fuel p n peer speed available
          ≡ some r)
        × Outcome p n r
  unfolding pick_pieces_fuel
  pick_pieces_fuel-Outcome zero p n h = elim h [ ]
  pick_pieces_fuel-Outcome (suc fuel) p n h =
      let d = pick_downloading p n peer speed available in
      let (bound, taken, same, keep) = pick_downloading_lem p n in
      elim (Bool-cases (ltb (length d.1) n)) [
        | inr full ↦ (
          d,
          rw full,
          record {
            bounded = bound;
            taken = λ l. absurd (ground arith);
            begun = λ l. absurd (ground arith);
            consistent = keep;
          },
        )
        | inl more ↦ elim (Option-cases (find_next available 0 d.0.piece_status)) [
          | inl e ↦ (
            d,
            rw (more, choose_none available d.0 e),
            record {
              bounded = bound;
              taken = taken;
              begun = λ l j g. ground (
                arith,
                find_next-none available 0 j d.0.piece_status e g,
                ap (piece_allowed available) (zero_left j),
              );
              consistent = keep;
            },
          )
          | inr (k, e) ↦
              let (j, z, g, _) = find_next-some available 0 k d.0.piece_status e in
              let g' = at_zero d.0.piece_status k j z g in
              let (r, e', o) =
                pick_pieces_fuel-Outcome fuel (start_piece d.0 k) (n - length d.1)
                  (omega (arith, num_none-set d.0.piece_status k g', ap num_none same)) in
              (
                (r.0, d.1 ++ r.1),
                rw (more, choose_some available d.0 k e, e'),
                record {
                  bounded = ground (arith, length-append d.1 r.1, o.bounded);
                  taken = λ l. o.taken (ground (arith, length-append d.1 r.1));
                  begun = λ l. o.begun (ground (arith, length-append d.1 r.1));
                  consistent = λ c. o.consistent (start_piece-IsConsistent d.0 k (keep c) g');
                },
              )
        ]
      ]

  -- PickPiecesWithAvailability ends on every state, order length, peer, speed and availability:
  -- its recursion takes at most one call more than there are pieces that were not begun. It
  -- appends at most the ordered number of blocks. If it appends fewer, no allowed piece is left
  -- that was not begun, and no allowed piece being downloaded has a free block. It keeps a
  -- consistent picker consistent.
  pub pick_pieces_total :
      (p : PiecePicker) (n : ℕ)
      → (r : PiecePicker × List PieceBlock) × (pick_pieces_with_availability p n peer speed
            available
          ≡ some r)
        × Outcome p n r
  unfolding pick_pieces_with_availability
  pick_pieces_total p n = pick_pieces_fuel-Outcome (num_none p.piece_status + 1) p n (omega arith)
