-- ===== src/Picker/Rounds/Choice.antt =====
-- The piece that `ChooseNextPieceWithAvailability` begins.
use goed2k.Common.{
  ℕ, zero, suc, ◌+◌, ◌≡◌, refl, ap, ◌∙◌, List, [], ◌∷◌, true, false, ◌&&◌, Option, none, some,
  get_elem?, set, arith, Bool-cases, Option-cases, inl, inr,
}
use goed2k.BitField.{BitField}
use goed2k.Picker.State.{
  PieceState, piece_none, piece_downloading, piece_have, is_none, PiecePicker, start_piece,
}
use goed2k.Picker.State.Invariant.{IsConsistent}
use goed2k.Picker.State.Invariant.Status.{start_piece-IsConsistent}
use goed2k.Picker.Rounds.{find_next, piece_allowed, num_none, choose_next_piece_with_availability}

is_none_lem : (s : PieceState) → is_none s ≡ true → s ≡ piece_none
is_none_lem piece_none h = refl
is_none_lem piece_downloading h = cc
is_none_lem piece_have h = cc

zero_right : (i : ℕ) → i + 0 ≡ i
zero_right i = omega arith

suc_right : (i j : ℕ) → i + suc j ≡ i + 1 + j
suc_right i j = omega arith

module _ (available : Option BitField) where
  -- It was not begun and is allowed.
  pub find_next-some :
      (i k : ℕ) (ss : List PieceState)
      → find_next available i ss ≡ some k
      → (j : ℕ) × (k ≡ i + j)
        × (get_elem? ss j ≡ some piece_none)
        × (piece_allowed available k ≡ true)
  unfolding find_next
  find_next-some i k [] h = cc
  find_next-some i k (s ∷ ss) h = elim (Bool-cases (is_none s && piece_allowed available i)) [
    | inl yes' ↦ (0, ground arith, ground (arith, is_none_lem s), ground arith)
    | inr no' ↦
        let (j, e, g, a) = find_next-some (i + 1) k ss (ground arith) in (suc j, omega arith, g, a)
  ]

  -- If none is chosen, each piece is begun or not allowed.
  pub find_next-none :
      (i j : ℕ) (ss : List PieceState)
      → find_next available i ss ≡ none
      → get_elem? ss j ≡ some piece_none
      → piece_allowed available (i + j) ≡ false
  unfolding find_next
  find_next-none i j [] h g = cc
  find_next-none i zero (s ∷ ss) h g = ground (arith, ap (piece_allowed available) (zero_right i))
  find_next-none i (suc j) (s ∷ ss) h g =
      ground (arith, find_next-none (i + 1) j ss, g, ap (piece_allowed available) (suc_right i j))

  -- The result in the two cases.
  pub choose_none :
      (p : PiecePicker)
      → find_next available 0 p.piece_status ≡ none
      → choose_next_piece_with_availability p available ≡ (p, false)
  unfolding choose_next_piece_with_availability
  choose_none p e = rw (e, choose_next_piece_with_availability)

  pub choose_some :
      (p : PiecePicker) (k : ℕ)
      → find_next available 0 p.piece_status ≡ some k
      → choose_next_piece_with_availability p available ≡ (start_piece p k, true)
  unfolding choose_next_piece_with_availability
  choose_some p k e = rw (e, choose_next_piece_with_availability)

  pub choose-IsConsistent :
      (p : PiecePicker)
      → IsConsistent p
      → IsConsistent (choose_next_piece_with_availability p available).0
  choose-IsConsistent p c = elim (Option-cases (find_next available 0 p.piece_status)) [
    | inl e ↦ rw (choose_none p e) c
    | inr (k, e) ↦
        let (j, z, g, _) = find_next-some 0 k p.piece_status e in
        rw (choose_some p k e)
          (start_piece-IsConsistent p k c (ap (get_elem? p.piece_status) (ground (arith, z)) ∙ g))
  ]

-- To begin a piece leaves one piece less to begin.
pub num_none-set :
    (ss : List PieceState) (i : ℕ)
    → get_elem? ss i ≡ some piece_none
    → num_none (set ss i piece_downloading) + 1 ≡ num_none ss
unfolding num_none
num_none-set [] i e = cc
num_none-set (s ∷ ss) zero e = ground arith
num_none-set (s ∷ ss) (suc i) e = ground (arith, num_none-set ss i)
