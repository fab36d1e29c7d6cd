-- ===== src/Picker/Rounds/Bounds.antt =====
-- One pass over the pieces that are being downloaded: what it takes, and what it keeps.
use goed2k.Common.{
  ℕ, ◌-◌, ◌≤◌, ◌<◌, ◌≡◌, refl, List, [], ◌∷◌, Bool, false, Option, length, length-append, ◌⊎◌, ◌==◌,
  arith, All, Bool-cases, inl, inr,
}
use goed2k.BitField.{BitField}
use goed2k.Geometry.{BlocksEnumerator}
use goed2k.Picker.Block.{state_none, Peer, PeerSpeed}
use goed2k.Picker.Piece.{DownloadingPiece, count_state, pick_blocks}
use goed2k.Picker.Piece.Shape.{pick_blocks-SameShape}
use goed2k.Picker.Piece.Greedy.{pick_blocks-greedy}
use goed2k.Picker.State.Pieces.{occurrences, IsShaped, SameShape-IsShaped}
use goed2k.Picker.Rounds.{add_downloading_blocks, piece_allowed}

-- The piece is not allowed, or has no free block.
abbrev pub IsTaken : Option BitField → DownloadingPiece → Type 0
IsTaken available d =
    (piece_allowed available d.piece_index ≡ false) ⊎ (count_state state_none d.blocks ≡ 0)

module _ (peer : Option Peer) (speed : PeerSpeed) (eg : Bool) (available : Option BitField) where
  pub occurrences-add :
      (i : ℕ) (ds : List DownloadingPiece) (n : ℕ)
      → occurrences i (add_downloading_blocks ds n peer speed eg available).0 ≡ occurrences i ds
  unfolding add_downloading_blocks occurrences
  occurrences-add i [] n = refl
  occurrences-add i (d ∷ ds) n =
      let rest : ℕ = n - length (pick_blocks d n peer speed eg).1 in
      ground (
        arith,
        pick_blocks-SameShape d n peer speed eg,
        occurrences-add i ds n,
        occurrences-add i ds rest,
      )

  pub add-IsShaped :
      (e : BlocksEnumerator) (ds : List DownloadingPiece) (n : ℕ)
      → All (IsShaped e) ds
      → All (IsShaped e) (add_downloading_blocks ds n peer speed eg available).0
  unfolding add_downloading_blocks
  add-IsShaped e [] n a = tt
  add-IsShaped e (d ∷ ds) n a =
      let p = pick_blocks d n peer speed eg in
      ground (
        arith,
        a.0,
        a.1,
        SameShape-IsShaped e d p.0 (pick_blocks-SameShape d n peer speed eg) a.0,
        add-IsShaped e ds n a.1,
        add-IsShaped e ds (n - length p.1) a.1,
      )

  -- A pass takes no more than is asked for. If it takes less, it leaves no allowed block free.
  pub add-greedy :
      (ds : List DownloadingPiece) (n : ℕ)
      → let r = add_downloading_blocks ds n peer speed eg available in
        (length r.1 ≤ n) × (length r.1 < n → All (IsTaken available) r.0)
  unfolding add_downloading_blocks
  add-greedy [] n = ground arith
  add-greedy (d ∷ ds) n =
      let p = pick_blocks d n peer speed eg in
      let g = pick_blocks-greedy d n peer speed eg in
      let later = add-greedy ds n in
      let later' = add-greedy ds (n - length p.1) in
      elim (Bool-cases (piece_allowed available d.piece_index)) [
        | inr skip ↦ rw skip (later.0, λ h. (inl skip, later.1 h))
        | inl fits ↦ elim (Bool-cases (length p.1 == n)) [
          | inl full ↦ rw (fits, full) (g.0, λ h. absurd (ground arith))
          | inr more ↦
              rw (fits, more)
                (
                  ground (
                    arith,
                    g.0,
                    later'.0,
                    length-append p.1
                        (add_downloading_blocks ds (n - length p.1) peer speed eg available).1,
                  ),
                  λ h. (
                    inr (g.2 (ground (arith, g.0))),
                    later'.1 (
                        ground (
                          arith,
                          g.0,
                          length-append p.1
                              (add_downloading_blocks ds (n - length p.1) peer speed eg
                                available).1,
                        )),
                  ),
                )
        ]
      ]

  pick_blocks-IsTaken :
      (d : DownloadingPiece) (n : ℕ)
      → IsTaken available d
      → IsTaken available (pick_blocks d n peer speed eg).0
  pick_blocks-IsTaken d n h =
      let s = pick_blocks-SameShape d n peer speed eg in
      let g = pick_blocks-greedy d n peer speed eg in ground (arith, h, s, g.1)

  -- A pass frees no block.
  pub add-IsTaken :
      (ds : List DownloadingPiece) (n : ℕ)
      → All (IsTaken available) ds
      → All (IsTaken available) (add_downloading_blocks ds n peer speed eg available).0
  unfolding add_downloading_blocks
  add-IsTaken [] n a = tt
  add-IsTaken (d ∷ ds) n a =
      let p = pick_blocks d n peer speed eg in
      let t = pick_blocks-IsTaken d n a.0 in
      ground (arith, a.0, a.1, t, add-IsTaken ds n a.1, add-IsTaken ds (n - length p.1) a.1)
