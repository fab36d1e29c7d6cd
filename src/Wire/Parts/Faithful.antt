-- ===== src/Wire/Parts/Faithful.antt =====
-- The part packets keep the promises of their format, and what ranges a request carries.
use goed2k.Common.{
  ℕ, zero, suc, ◌*◌, ◌^◌, ◌<◌, ◌≡◌, refl, ap, List, [], ◌∷◌, ◌++◌, append_assoc, length,
  length-append, All, arith,
}
use goed2k.Wire.{ok, IsFaithful}
use goed2k.Wire.Basic.{write_le}
use goed2k.Wire.RoundTrip.{read_le-write, read_uint32-write, read_hash-write, length-write_le}
use goed2k.Wire.Parts.{
  SendingPart, get_sending_part, put_sending_part, sending_part_format, CompressedPart,
  get_compressed_part, put_compressed_part, compressed_part_format, RequestParts, get_offsets,
  put_offsets, get_request_parts, put_request_parts, request_parts_format, parts_in_request,
}

-- A hash of 16 bytes, and offsets that fit the width.
pub record IsSendingPart (width : ℕ) (s : SendingPart) : Type 0 where
  pub hash : length s.hash ≡ 16
  pub begin : s.begin_offset < 256 ^ width
  pub end : s.end_offset < 256 ^ width

pub record IsCompressedPart (width : ℕ) (c : CompressedPart) : Type 0 where
  pub hash : length c.hash ≡ 16
  pub begin : c.begin_offset < 256 ^ width
  pub size : c.compressed_length < 2 ^ 32

-- A request as it is read: all three ranges are taken.
pub record IsRequestParts (width : ℕ) (r : RequestParts) : Type 0 where
  pub hash : length r.hash ≡ 16
  pub full : r.current_free ≡ parts_in_request
  pub begins : length r.begin_offset ≡ parts_in_request
  pub ends : length r.end_offset ≡ parts_in_request
  pub begins_fit : All (λ v. v < 256 ^ width) r.begin_offset
  pub ends_fit : All (λ v. v < 256 ^ width) r.end_offset

pub sending_part_format-IsFaithful :
    (k : ℕ) → IsFaithful (sending_part_format (suc k)) (IsSendingPart (suc k))
unfolding get_sending_part put_sending_part
sending_part_format-IsFaithful k = record {
  round_trip = λ s rest h.
      let b = write_le (suc k) s.begin_offset in
      let e = write_le (suc k) s.end_offset in
      ground (
        arith,
        append_assoc s.hash (b ++ e) rest,
        append_assoc b e rest,
        read_hash-write s.hash ((b ++ e) ++ rest) h.hash,
        read_le-write k s.begin_offset (e ++ rest) h.begin,
        read_le-write k s.end_offset rest h.end,
      );
  sized = λ s h.
      let b = write_le (suc k) s.begin_offset in
      let e = write_le (suc k) s.end_offset in
      omega (
        arith,
        h.hash,
        length-append s.hash (b ++ e),
        length-append b e,
        length-write_le (suc k) s.begin_offset,
        length-write_le (suc k) s.end_offset,
      );
}

pub compressed_part_format-IsFaithful :
    (k : ℕ) → IsFaithful (compressed_part_format (suc k)) (IsCompressedPart (suc k))
unfolding get_compressed_part put_compressed_part
compressed_part_format-IsFaithful k = record {
  round_trip = λ s rest h.
      let b = write_le (suc k) s.begin_offset in
      let e = write_le 4 s.compressed_length in
      ground (
        arith,
        append_assoc s.hash (b ++ e) rest,
        append_assoc b e rest,
        read_hash-write s.hash ((b ++ e) ++ rest) h.hash,
        read_le-write k s.begin_offset (e ++ rest) h.begin,
        read_uint32-write s.compressed_length rest h.size,
      );
  sized = λ s h.
      let b = write_le (suc k) s.begin_offset in
      let e = write_le 4 s.compressed_length in
      omega (
        arith,
        h.hash,
        length-append s.hash (b ++ e),
        length-append b e,
        length-write_le (suc k) s.begin_offset,
        length-write_le 4 s.compressed_length,
      );
}

get_offsets-put :
    (k n : ℕ) (vs rest : List ℕ)
    → length vs ≡ n
    → All (λ v. v < 256 ^ suc k) vs
    → get_offsets (suc k) n (put_offsets (suc k) vs ++ rest) ≡ ok (vs, rest)
unfolding get_offsets put_offsets
get_offsets-put k zero [] rest e h = refl
get_offsets-put k zero (v ∷ vs) rest e h = absurd (omega arith)
get_offsets-put k (suc n) [] rest e h = absurd (omega arith)
get_offsets-put k (suc n) (v ∷ vs) rest e h = ground (
  arith,
  append_assoc (write_le (suc k) v) (put_offsets (suc k) vs) rest,
  read_le-write k v (put_offsets (suc k) vs ++ rest) h.0,
  get_offsets-put k n vs rest (omega arith) h.1,
)

length-put_offsets : (width : ℕ) (vs : List ℕ) → length (put_offsets width vs) ≡ length vs * width
unfolding put_offsets
length-put_offsets width [] = omega arith
length-put_offsets width (v ∷ vs) = grind (
  arith,
  length-append (write_le width v) (put_offsets width vs),
  length-write_le width v,
  length-put_offsets width vs,
)

pub request_parts_format-IsFaithful :
    (k : ℕ) → IsFaithful (request_parts_format (suc k)) (IsRequestParts (suc k))
unfolding get_request_parts put_request_parts
request_parts_format-IsFaithful k = record {
  round_trip = λ r rest h.
      let b = put_offsets (suc k) r.begin_offset in
      let e = put_offsets (suc k) r.end_offset in
      ground (
        arith,
        h.full,
        append_assoc r.hash (b ++ e) rest,
        append_assoc b e rest,
        read_hash-write r.hash ((b ++ e) ++ rest) h.hash,
        get_offsets-put k 3 r.begin_offset (e ++ rest) h.begins h.begins_fit,
        get_offsets-put k 3 r.end_offset rest h.ends h.ends_fit,
      );
  sized = λ r h.
      let b = put_offsets (suc k) r.begin_offset in
      let e = put_offsets (suc k) r.end_offset in
      omega (
        arith,
        h.hash,
        length-append r.hash (b ++ e),
        length-append b e,
        ap (λ (n : ℕ). n * suc k) h.begins,
        ap (λ (n : ℕ). n * suc k) h.ends,
        length-put_offsets (suc k) r.begin_offset,
        length-put_offsets (suc k) r.end_offset,
      );
}
