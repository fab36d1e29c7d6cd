-- ===== src/Picker/State/Invariant/Status.antt =====
-- The operations on the status of a piece keep the invariant of the picker.
use goed2k.Common.{
  ℕ, ◌<◌, ◌≡◌, ◌≢◌, refl, ◌∙◌, some, ltb, length, length-set, get_elem?, get_elem?-set, set, arith,
  Option-cases, inl, inr, lt-length_of_get, Bool-cases, ltb→lt,
}
use goed2k.Picker.Piece.{new_downloading_piece}
use goed2k.Picker.State.{
  PieceState, piece_none, piece_downloading, piece_have, PiecePicker, find_piece, start_piece,
  download_piece, drop_piece, restore_piece, we_have, restore_have,
}
use goed2k.Picker.State.Pieces.{occurrences, occurrences-drop, find_piece-none, All-drop}
use goed2k.Picker.State.Invariant.{IsConsistent, entries, Keeps, started, new_piece-IsShaped}

module _ (p : PiecePicker) (i : ℕ) (c : IsConsistent p) where
  -- A piece that was not begun begins to be downloaded.
  pub start_piece-IsConsistent :
      get_elem? p.piece_status i ≡ some piece_none → IsConsistent (start_piece p i)
  start_piece-IsConsistent e =
      started p i _ c (lt-length_of_get p.piece_status i e) (ground (arith, c.counted i))
        (unfold new_downloading_piece in refl) (new_piece-IsShaped p.enumerator i)

  pub download_piece-IsConsistent : Keeps (download_piece p i)
  unfolding download_piece
  download_piece-IsConsistent = elim (Option-cases (get_elem? p.piece_status i)) [
    | inl e ↦ rw (e, Keeps) tt
    | inr (piece_none, e) ↦ rw (e, Keeps) (start_piece-IsConsistent e)
    | inr (piece_downloading, e) ↦ rw (e, Keeps) c
    | inr (piece_have, e) ↦ rw (e, Keeps) c
  ]

  dropped :
      (s : PieceState)
      → entries (some s) ≡ 0
      → i < length p.piece_status
      → IsConsistent (record p {
        downloading_pieces = drop_piece i p.downloading_pieces;
        piece_status = set p.piece_status i s;
      })
  dropped s z h = record {
    total = length-set p.piece_status i s ∙ c.total;
    counted = λ j. ground (
      arith,
      z,
      c.counted j,
      occurrences-drop j i p.downloading_pieces,
      get_elem?-set p.piece_status i j s,
    );
    shaped = All-drop p.enumerator i p.downloading_pieces c.shaped;
  }

  unchanged_status :
      (s : PieceState)
      → entries (some s) ≡ 0
      → occurrences i p.downloading_pieces ≡ 0
      → IsConsistent (record p { piece_status = set p.piece_status i s })
  unchanged_status s z e = record {
    total = length-set p.piece_status i s ∙ c.total;
    counted = λ j. ground (arith, z, e, c.counted j, get_elem?-set p.piece_status i j s);
    shaped = c.shaped;
  }

  pub we_have-IsConsistent : Keeps (we_have p i)
  unfolding we_have
  we_have-IsConsistent = elim (Bool-cases (ltb i (length p.piece_status))) [
    | inl h ↦ rw (h, Keeps) (dropped piece_have refl (ltb→lt _ _ h))
    | inr h ↦ rw (h, Keeps) tt
  ]

  pub restore_piece-IsConsistent : Keeps (restore_piece p i)
  unfolding restore_piece
  restore_piece-IsConsistent = elim (Bool-cases (ltb i (length p.piece_status))) [
    | inl h ↦ elim (Option-cases (find_piece p.downloading_pieces i)) [
      | inl e ↦
          rw (e, h, Keeps)
            (unchanged_status piece_none refl (find_piece-none i p.downloading_pieces e))
      | inr (d, e) ↦ rw (e, h, Keeps) (dropped piece_none refl (ltb→lt _ _ h))
    ]
    | inr h ↦ elim (Option-cases (find_piece p.downloading_pieces i)) [
      | inl e ↦ rw (e, h, Keeps) tt
      | inr (d, e) ↦ rw (e, h, Keeps) tt
    ]
  ]

  -- `RestoreHave` drops no entry, so it must not meet a piece that has one.
  pub restore_have-IsConsistent :
      get_elem? p.piece_status i ≢ some piece_downloading → Keeps (restore_have p i)
  unfolding restore_have
  restore_have-IsConsistent ne = elim (Bool-cases (ltb i (length p.piece_status))) [
    | inl h ↦ rw (h, Keeps) (unchanged_status piece_have refl (ground (arith, c.counted i)))
    | inr h ↦ rw (h, Keeps) tt
  ]
