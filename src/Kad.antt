-- ===== src/Kad.antt =====
-- Identifiers of the KAD network and their distances: protocol/kad/types.go, and the
-- bucket index of kad_routing.go. An identifier is its 16 bytes.
pub mod Distance
pub mod Target
pub mod Table
pub mod Refresh
pub mod Run
pub mod Closest
pub mod Rpc
pub mod Format
pub mod Packets
pub mod Publish
pub mod NodesDat
mod Examples
mod PacketExamples
use Prim.Native.Nat.{bit_and, bit_or, bit_xor}
use goed2k.Common.{
  ℕ, zero, suc, ◌+◌, ◌-◌, ◌*◌, ◌/◌, ◌%◌, ◌^◌, List, [], ◌∷◌, Bool, true, false, ◌&&◌, Option, none,
  some, ltb, ◌==◌, if◌then◌else◌, replicate,
}
use goed2k.Common.Int.{ℤ, pos, negsuc}

abbrev pub KadId : Type 0
KadId = List ℕ

abbrev pub invalid : KadId
invalid = replicate 16 0

-- `bytes.Equal`.
unfoldable pub equal : KadId → KadId → Bool
equal [] [] = true
equal [] (y ∷ ys) = false
equal (x ∷ xs) [] = false
equal (x ∷ xs) (y ∷ ys) = (x == y) && equal xs ys

-- -1, 0 or 1.
unfoldable pub distance_compare : KadId → KadId → KadId → ℤ
distance_compare (a ∷ xs) (b ∷ ys) (t ∷ ts) =
    let da = bit_xor a t in
    let db = bit_xor b t in
    let rest = distance_compare xs ys ts in
    if ltb da db then negsuc 0 else (if ltb db da then pos 1 else rest)
distance_compare _ _ _ = pos 0

-- The first bit of a byte that is set, from the `bit`-th on.
unfoldable pub first_bit : ℕ → ℕ → ℕ → Option ℕ
first_bit x bit zero = none
first_bit x bit (suc n) =
    let rest = first_bit x (bit + 1) n in if bit_and x (0x80 / 2 ^ bit) == 0 then rest else some bit

unfoldable pub index_from : ℕ → KadId → KadId → ℕ
unfolding first_bit
index_from i (a ∷ xs) (b ∷ ys) =
    let x = bit_xor a b in
    let rest = index_from (i + 1) xs ys in
    if x == 0 then rest else elim (first_bit x 0 8) [ none ↦ rest | some bit ↦ i * 8 + bit ]
index_from i _ _ = 127

unfoldable pub bucket_index : KadId → KadId → ℕ
unfolding index_from
bucket_index self other = index_from 0 self other

-- The bytes of `self` before the byte, that byte with one bit turned, and the random bytes after it.
unfoldable pub within : ℕ → ℕ → KadId → KadId → KadId
within zero bit (s ∷ ss) (h ∷ hs) =
    let mask = 0x80 / 2 ^ bit in bit_or (bit_and s (255 - mask)) (bit_and (255 - s) mask) ∷ hs
within (suc n) bit (s ∷ ss) (h ∷ hs) = s ∷ within n bit ss hs
within n bit _ hs = hs

-- `random` is what `RandomHash` gives, or `none` for an error.
unfoldable pub random_id_within_bucket : Option KadId → ℕ → KadId → KadId
unfolding within
random_id_within_bucket none index self = self
random_id_within_bucket (some random) index self = within (index / 8) (index % 8) self random
