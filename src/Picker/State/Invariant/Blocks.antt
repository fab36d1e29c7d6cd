-- ===== src/Picker/State/Invariant/Blocks.antt =====
-- The operations on one block keep the invariant of the picker.
use goed2k.Common.{
  ℕ, ◌<◌, ◌≡◌, refl, ◌∙◌, [], ◌∷◌, ◌++◌, Bool, true, Option, none, some, ltb, length, set,
  Option-cases, inl, inr, Bool-cases, ltb→lt,
}
use goed2k.Geometry.{BlocksEnumerator, blocks_in_piece, PieceBlock}
use goed2k.Picker.Block.{Peer}
use goed2k.Picker.Piece.{DownloadingPiece, new_downloading_piece, finish_block}
use goed2k.Picker.Piece.Shape.{
  SameShape, finish_block-SameShape, request_block-SameShape, write_block-SameShape,
  abort_downloading-SameShape,
}
use goed2k.Picker.State.{
  piece_downloading, PiecePicker, find_piece, update_piece, mark_as_finished, mark_as_downloading,
  mark_as_writing, abort_download, we_have_block, ◌>>=◌,
}
use goed2k.Picker.State.Pieces.{occurrences, IsShaped, SameShape-IsShaped, find_piece-none}
use goed2k.Picker.State.Invariant.{
  IsConsistent, Keeps, KeepsFst, started, update_piece-IsConsistent, new_piece-IsShaped,
}

-- An assignment to a block through the pointer that `GetDownloadingPiece` returned.
module _ (p : PiecePicker) (i : ℕ) (d : DownloadingPiece) (c : IsConsistent p)
    (e : find_piece p.downloading_pieces i ≡ some d) where
  updated :
      (o : Option DownloadingPiece)
      → ((d' : DownloadingPiece) → o ≡ some d' → SameShape d d')
      → Keeps (o >>= λ d'. some (update_piece p d'))
  updated none s = tt
  updated (some d') s = update_piece-IsConsistent p i d d' c e (s d' refl)

  updated_true :
      (o : Option DownloadingPiece)
      → ((d' : DownloadingPiece) → o ≡ some d' → SameShape d d')
      → KeepsFst (o >>= λ d'. some (update_piece p d', true))
  updated_true none s = tt
  updated_true (some d') s = update_piece-IsConsistent p i d d' c e (s d' refl)

  updated_with :
      (o : Option (DownloadingPiece × Bool))
      → ((d' : DownloadingPiece) (done : Bool) → o ≡ some (d', done) → SameShape d d')
      → KeepsFst (o >>= λ (d', done). some (update_piece p d', done))
  updated_with none s = tt
  updated_with (some (d', done)) s = update_piece-IsConsistent p i d d' c e (s d' done refl)

appended :
    (p : PiecePicker) (i : ℕ)
    → IsConsistent p
    → i < length p.piece_status
    → occurrences i p.downloading_pieces ≡ 0
    → (o : Option DownloadingPiece)
    → ((d : DownloadingPiece) → o ≡ some d → (d.piece_index ≡ i) × IsShaped p.enumerator d)
    → Keeps (
        o >>= λ d. some (record p {
          downloading_pieces = p.downloading_pieces ++ (d ∷ []);
          piece_status = set p.piece_status i piece_downloading;
        }))
appended p i c h z none s = tt
appended p i c h z (some d) s = started p i d c h z (s d refl).0 (s d refl).1

finished_shape :
    (n : BlocksEnumerator) (b : PieceBlock) (d : DownloadingPiece)
    → finish_block
        (new_downloading_piece b.piece_index (blocks_in_piece n b.piece_index))
        b.piece_block
      ≡ some d
    → (d.piece_index ≡ b.piece_index) × IsShaped n d
finished_shape n b d h =
    let s = finish_block-SameShape _ b.piece_block h in
    (
      s.index ∙ unfold new_downloading_piece in refl,
      SameShape-IsShaped n _ d s (new_piece-IsShaped n b.piece_index),
    )

module _ (p : PiecePicker) (b : PieceBlock) (c : IsConsistent p) where
  pub abort_download-IsConsistent : (peer : Option Peer) → Keeps (abort_download p b peer)
  unfolding abort_download
  abort_download-IsConsistent peer =
      elim (Option-cases (find_piece p.downloading_pieces b.piece_index)) [
        | inl e ↦ rw (e, Keeps) c
        | inr (d, e) ↦
            rw (e, Keeps)
              (updated p b.piece_index d c e _
                (λ d' h. abort_downloading-SameShape d b.piece_block peer h))
      ]

  pub mark_as_finished-IsConsistent : KeepsFst (mark_as_finished p b)
  unfolding mark_as_finished
  mark_as_finished-IsConsistent =
      elim (Option-cases (find_piece p.downloading_pieces b.piece_index)) [
        | inl e ↦ rw (e, KeepsFst) c
        | inr (d, e) ↦
            rw (e, KeepsFst)
              (updated_true p b.piece_index d c e _
                (λ d' h. finish_block-SameShape d b.piece_block h))
      ]

  pub mark_as_downloading-IsConsistent :
      (peer : Option Peer) → KeepsFst (mark_as_downloading p b peer)
  unfolding mark_as_downloading
  mark_as_downloading-IsConsistent peer =
      elim (Option-cases (find_piece p.downloading_pieces b.piece_index)) [
        | inl e ↦ rw (e, KeepsFst) c
        | inr (d, e) ↦
            rw (e, KeepsFst)
              (updated_true p b.piece_index d c e _
                (λ d' h. request_block-SameShape d b.piece_block peer _ h))
      ]

  pub mark_as_writing-IsConsistent : KeepsFst (mark_as_writing p b)
  unfolding mark_as_writing
  mark_as_writing-IsConsistent =
      elim (Option-cases (find_piece p.downloading_pieces b.piece_index)) [
        | inl e ↦ rw (e, KeepsFst) c
        | inr (d, e) ↦
            rw (e, KeepsFst)
              (updated_with p b.piece_index d c e _
                (λ d' done h. write_block-SameShape d b.piece_block done h))
      ]

  pub we_have_block-IsConsistent : Keeps (we_have_block p b)
  unfolding we_have_block
  we_have_block-IsConsistent = elim (Option-cases (find_piece p.downloading_pieces b.piece_index)) [
    | inl e ↦ elim (Bool-cases (ltb b.piece_index (length p.piece_status))) [
      | inl h ↦
          rw (e, h, Keeps)
            (appended p b.piece_index c (ltb→lt _ _ h)
              (find_piece-none b.piece_index p.downloading_pieces e) _
              (λ d' k. finished_shape p.enumerator b d' k))
      | inr h ↦ rw (e, h, Keeps) tt
    ]
    | inr (d, e) ↦
        rw (e, Keeps)
          (updated p b.piece_index d c e _ (λ d' h. finish_block-SameShape d b.piece_block h))
  ]
