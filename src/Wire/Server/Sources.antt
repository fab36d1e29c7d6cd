-- ===== src/Wire/Server/Sources.antt =====
-- The request for the sources of a file, whose size takes one number or two: GetFileSources.
use goed2k.Common.{
  ℕ, ◌+◌, ◌^◌, ◌<◌, ◌≡◌, ◌≢◌, ◌⊎◌, refl, List, [], ◌++◌, append_assoc, length, length-append, arith,
}
use goed2k.Wire.{ok, err, eof}
use goed2k.Wire.Basic.{read_le, write_le}
use goed2k.Wire.RoundTrip.{read_uint32-write, read_hash-write, length-write_le}
use goed2k.Wire.Server.{
  GetFileSources, get_file_sources, put_file_sources, file_sources_bytes_count,
}

pub record IsFileSources (g : GetFileSources) : Type 0 where
  pub hash : length g.hash ≡ 16
  pub low : g.low_part < 2 ^ 32
  pub high : g.hi_part < 2 ^ 32

-- A GetFileSources with fields in range whose two parts of the size are not both 0 is read back
-- by Get as Put wrote it, and what follows is left.
pub get_file_sources-put :
    (g : GetFileSources) (rest : List ℕ)
    → IsFileSources g
    → (g.low_part ≢ 0) ⊎ (g.hi_part ≢ 0)
    → get_file_sources (put_file_sources g ++ rest) ≡ ok (g, rest)
unfolding get_file_sources put_file_sources
get_file_sources-put g rest v h =
    let z = write_le 4 0 in
    let a = write_le 4 g.low_part in
    let b = write_le 4 g.hi_part in
    ground (
      arith,
      append_assoc g.hash (z ++ (a ++ b)) rest,
      append_assoc z (a ++ b) rest,
      append_assoc a b rest,
      append_assoc g.hash ([] ++ (a ++ [])) rest,
      append_assoc a [] rest,
      read_hash-write g.hash ((z ++ (a ++ b)) ++ rest) v.hash,
      read_hash-write g.hash ((a ++ []) ++ rest) v.hash,
      read_uint32-write 0 ((a ++ b) ++ rest),
      read_uint32-write g.low_part (b ++ rest) v.low,
      read_uint32-write g.low_part rest v.low,
      read_uint32-write g.hi_part rest v.high,
    )

ends : read_le 4 [] ≡ err eof
unfolding read_le
ends = refl

-- For a file size of 0, Get of what Put wrote for a GetFileSources ends with an error at the end
-- of the input.
pub get_file_sources-put_zero :
    (g : GetFileSources)
    → IsFileSources g
    → g.low_part ≡ 0
    → g.hi_part ≡ 0
    → get_file_sources (put_file_sources g) ≡ err eof
unfolding get_file_sources put_file_sources
get_file_sources-put_zero g v e f =
    let only : put_file_sources g ≡ g.hash ++ (write_le 4 0 ++ []) = ground (arith, e, f) in
    rw (
      only,
      read_hash-write g.hash (write_le 4 0 ++ []) v.hash,
      read_uint32-write 0 [] (omega arith),
      ends,
    )

-- BytesCount of GetFileSources is the number of bytes that Put writes if the high part is 0, and
-- 4 less if it is not.
pub length-put_file_sources :
    (g : GetFileSources)
    → IsFileSources g
    → (g.hi_part ≡ 0 → length (put_file_sources g) ≡ file_sources_bytes_count g)
      × (g.hi_part ≢ 0 → length (put_file_sources g) ≡ file_sources_bytes_count g + 4)
unfolding put_file_sources file_sources_bytes_count
length-put_file_sources g v =
    let z = write_le 4 0 in
    let a = write_le 4 g.low_part in
    let b = write_le 4 g.hi_part in
    ground (
      arith,
      v.hash,
      length-append g.hash ([] ++ (a ++ [])),
      length-append a [],
      length-append g.hash (z ++ (a ++ b)),
      length-append z (a ++ b),
      length-append a b,
      length-write_le 4 0,
      length-write_le 4 g.low_part,
      length-write_le 4 g.hi_part,
    )
