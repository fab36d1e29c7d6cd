-- ===== src/Picker/State/Pieces.antt =====
-- Lists of pieces: how often an index occurs in them, and what holds of all of them.
use goed2k.Common.{
  ℕ, ◌+◌, ◌<◌, ◌≡◌, refl, ap, List, [], ◌∷◌, ◌++◌, none, some, ◌==◌, length, All, arith,
  if◌then◌else◌,
}
use goed2k.Geometry.{BlocksEnumerator, blocks_in_piece}
use goed2k.Picker.Piece.{DownloadingPiece}
use goed2k.Picker.Piece.Shape.{SameShape}
use goed2k.Picker.State.{find_piece, put_piece, drop_piece}

unfoldable pub occurrences : ℕ → List DownloadingPiece → ℕ
occurrences i [] = 0
occurrences i (d ∷ ds) = if d.piece_index == i then occurrences i ds + 1 else occurrences i ds

-- A piece has the number of blocks that its index gives it, in both of its fields.
pub record IsShaped (e : BlocksEnumerator) (d : DownloadingPiece) : Type 0 where
  pub count : d.blocks_count ≡ blocks_in_piece e d.piece_index
  pub blocks : length d.blocks ≡ d.blocks_count

pub SameShape-IsShaped :
    (e : BlocksEnumerator) (d d' : DownloadingPiece) → SameShape d d' → IsShaped e d → IsShaped e d'
SameShape-IsShaped e d d' s h = ground (arith, ap (blocks_in_piece e) s.index)

pub occurrences-append :
    (i : ℕ) (xs ys : List DownloadingPiece)
    → occurrences i (xs ++ ys) ≡ occurrences i xs + occurrences i ys
unfolding occurrences
occurrences-append i [] ys = omega arith
occurrences-append i (x ∷ xs) ys = ground (arith, occurrences-append i xs ys)

pub occurrences-put :
    (i : ℕ) (d : DownloadingPiece) (ds : List DownloadingPiece)
    → occurrences i (put_piece d ds) ≡ occurrences i ds
unfolding occurrences put_piece
occurrences-put i d [] = refl
occurrences-put i d (e ∷ es) = ground (arith, occurrences-put i d es)

pub occurrences-drop :
    (i k : ℕ) (ds : List DownloadingPiece)
    → occurrences i (drop_piece k ds) ≡ (if i == k then 0 else occurrences i ds)
unfolding occurrences drop_piece
occurrences-drop i k [] = ground arith
occurrences-drop i k (e ∷ es) = ground (arith, occurrences-drop i k es)

pub find_piece-none :
    (i : ℕ) (ds : List DownloadingPiece) → find_piece ds i ≡ none → occurrences i ds ≡ 0
unfolding occurrences find_piece
find_piece-none i [] h = refl
find_piece-none i (d ∷ ds) h = ground (arith, find_piece-none i ds)

pub find_piece-some :
    (n : BlocksEnumerator) (i : ℕ) (ds : List DownloadingPiece) (d : DownloadingPiece)
    → find_piece ds i ≡ some d
    → All (IsShaped n) ds
    → (d.piece_index ≡ i) × IsShaped n d × (0 < occurrences i ds)
unfolding occurrences find_piece
find_piece-some n i [] d h a = cc
find_piece-some n i (e ∷ es) d h a = ground (arith, find_piece-some n i es d, a.0, a.1)

pub All-put :
    (n : BlocksEnumerator) (d : DownloadingPiece) (ds : List DownloadingPiece)
    → IsShaped n d
    → All (IsShaped n) ds
    → All (IsShaped n) (put_piece d ds)
unfolding put_piece
All-put n d [] h a = tt
All-put n d (e ∷ es) h a = ground (arith, All-put n d es h a.1, h, a.0, a.1)

pub All-drop :
    (n : BlocksEnumerator) (k : ℕ) (ds : List DownloadingPiece)
    → All (IsShaped n) ds
    → All (IsShaped n) (drop_piece k ds)
unfolding drop_piece
All-drop n k [] a = tt
All-drop n k (e ∷ es) a = ground (arith, All-drop n k es a.1, a.0)
