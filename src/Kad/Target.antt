-- ===== src/Kad/Target.antt =====
-- The random identifier for the refresh of a bucket lies in that bucket.
use Prim.Native.Nat.{bit_and, bit_or, bit_xor}
use goed2k.Common.{
  all_below, all_below_lem, ℕ, zero, suc, ◌+◌, ◌-◌, ◌*◌, ◌/◌, ◌%◌, ◌^◌, ◌<◌, ◌≡◌, ◌≢◌, refl, [],
  ◌∷◌, Bool, true, false, ◌&&◌, not, none, some, ◌==◌, length, All, arith, Option-cases, inl, inr,
}
use goed2k.Kad.{KadId, first_bit, index_from, bucket_index, within, random_id_within_bucket}
use goed2k.Kad.Distance.{IsId, xor_self, index_from-same, index_from-first}

abbrev turned : ℕ → ℕ → ℕ
turned s bit = let mask = 0x80 / 2 ^ bit in bit_or (bit_and s (255 - mask)) (bit_and (255 - s) mask)

abbrev is_turned : ℕ → ℕ → Bool
is_turned s bit =
    not (bit_xor s (turned s bit) == 0)
    && elim (first_bit (bit_xor s (turned s bit)) 0 8) [ none ↦ false | some k ↦ k == bit ]

turned_table : all_below 256 (λ s. all_below 8 (is_turned s)) ≡ true
unfolding all_below first_bit
turned_table = refl

turned_lem :
    (s bit : ℕ)
    → s < 256
    → bit < 8
    → (bit_xor s (turned s bit) ≢ 0) × (first_bit (bit_xor s (turned s bit)) 0 8 ≡ some bit)
turned_lem s bit h k =
    let t =
      all_below_lem 8 (is_turned s) bit
        (all_below_lem 256 (λ s. all_below 8 (is_turned s)) s turned_table h) k in
    (
      ground (arith, t),
      elim (Option-cases (first_bit (bit_xor s (turned s bit)) 0 8)) [
        | inl nothing ↦ absurd (ground (arith, t, nothing))
        | inr (m, e) ↦ ground (arith, t, e)
      ],
    )

index_from-within :
    (i n bit : ℕ) (s r : KadId)
    → length s ≡ length r
    → All (λ b. b < 256) s
    → n < length s
    → bit < 8
    → index_from i s (within n bit s r) ≡ (i + n) * 8 + bit
unfolding within
index_from-within i n bit [] r e p h k = absurd (omega arith)
index_from-within i n bit (s ∷ ss) [] e p h k = absurd (omega arith)
index_from-within i zero bit (s ∷ ss) (r ∷ rs) e p h k =
    let (ne, f) = turned_lem s bit p.0 k in
    omega (arith, index_from-first i s (turned s bit) bit ss rs ne f)
index_from-within i (suc n) bit (s ∷ ss) (r ∷ rs) e p h k = omega (
  arith,
  index_from-same i s s ss (within n bit ss rs) (xor_self s p.0),
  index_from-within (i + 1) n bit ss rs (omega arith) p.1 (omega arith) k,
)

-- For each of the 128 buckets and all 16 random bytes, the identifier of randomKadIDWithinBucket
-- lies in that bucket of the table.
pub bucket_index-random_id :
    (self random : KadId) (index : ℕ)
    → IsId self
    → length random ≡ 16
    → index < 128
    → bucket_index self (random_id_within_bucket (some random) index self) ≡ index
unfolding bucket_index random_id_within_bucket
bucket_index-random_id self random index p h k = omega (
  arith,
  index_from-within 0 (index / 8) (index % 8) self random (omega (arith, p.0)) p.1
      (omega (arith, p.0)) (omega arith),
)
