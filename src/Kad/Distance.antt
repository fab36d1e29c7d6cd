-- ===== src/Kad/Distance.antt =====
-- How the bucket of an identifier and its distance agree.
use Prim.Native.Nat.{bit_xor}
use goed2k.Common.{
  all_below, all_below_lem, ℕ, ◌+◌, ◌-◌, ◌*◌, ◌^◌, ◌≤◌, ◌<◌, ◌≡◌, ◌≢◌, refl, sym, ◌∙◌, [], ◌∷◌,
  Bool, true, ◌&&◌, ◌||◌, none, some, ltb, leb, ◌==◌, length, All, arith, Option-cases, Bool-cases,
  inl, inr,
}
use goed2k.Common.Int.{negsuc}
use goed2k.Kad.{KadId, first_bit, index_from, bucket_index, distance_compare}

abbrev pub IsId : KadId → Type 0
IsId x = (length x ≡ 16) × All (λ b. b < 256) x

-- The bit lies where the number does.
abbrev is_first : ℕ → Bool
is_first x = elim (first_bit x 0 8) [
  | none ↦ x == 0
  | some k ↦ ltb k 8 && (leb (2 ^ (7 - k)) x && ltb x (2 ^ (8 - k)))
]

first_table : all_below 256 is_first ≡ true
unfolding all_below first_bit
first_table = refl

xor_table : all_below 256 (λ x. all_below 256 (λ y. ltb (bit_xor x y) 256)) ≡ true
unfolding all_below
xor_table = refl

xor_zero_table : all_below 256 (λ x. bit_xor x x == 0) ≡ true
unfolding all_below
xor_zero_table = refl

xor_byte : (x y : ℕ) → x < 256 → y < 256 → bit_xor x y < 256
xor_byte x y h k = ground (
  arith,
  all_below_lem 256 (λ y. ltb (bit_xor x y) 256) y
      (all_below_lem 256 (λ x. all_below 256 (λ y. ltb (bit_xor x y) 256)) x xor_table h) k,
)

pub xor_self : (x : ℕ) → x < 256 → bit_xor x x ≡ 0
xor_self x h = ground (arith, all_below_lem 256 (λ x. bit_xor x x == 0) x xor_zero_table h)

-- Where the first bit of a byte that is not 0 lies.
first_bit-range :
    (x : ℕ)
    → x < 256
    → x ≢ 0
    → (k : ℕ) × (first_bit x 0 8 ≡ some k) × (k < 8) × (2 ^ (7 - k) ≤ x) × (x < 2 ^ (8 - k))
first_bit-range x h n = elim (Option-cases (first_bit x 0 8)) [
  | inl nothing ↦ absurd (ground (arith, all_below_lem 256 is_first x first_table h, nothing, n))
  | inr (k, e) ↦
      let t : (ltb k 8 && (leb (2 ^ (7 - k)) x && ltb x (2 ^ (8 - k)))) ≡ true =
        rw (is_first, e) at (all_below_lem 256 is_first x first_table h) in
      (k, e, ground (arith, t), ground (arith, t), ground (arith, t))
]

powers : all_below 8 (λ k. all_below 8 (λ l. leb l k || leb (2 ^ (8 - l)) (2 ^ (7 - k)))) ≡ true
unfolding all_below
powers = refl

-- A byte whose first bit comes later is smaller.
later_smaller : (x y k l : ℕ) → k < l → l < 8 → 2 ^ (7 - k) ≤ x → y < 2 ^ (8 - l) → y < x
later_smaller x y k l h m p q =
    let t =
      all_below_lem 8 (λ l. leb l k || leb (2 ^ (8 - l)) (2 ^ (7 - k))) l
        (all_below_lem 8 (λ k. all_below 8 (λ l. leb l k || leb (2 ^ (8 - l)) (2 ^ (7 - k)))) k
          powers (omega arith))
        m in
    ground (arith, t)

-- The index of what follows byte `i`.
index_from-range :
    (i : ℕ) (s o : KadId)
    → length s ≡ length o
    → i + length s ≡ 16
    → All (λ b. b < 256) s
    → All (λ b. b < 256) o
    → (i * 8 ≤ index_from i s o + 1)
      × (index_from i s o ≤ 127)
      × (i < 16 → i * 8 ≤ index_from i s o)
unfolding index_from
index_from-range i [] [] e f p q = omega arith
index_from-range i [] (o ∷ os) e f p q = absurd (omega arith)
index_from-range i (s ∷ ss) [] e f p q = absurd (omega arith)
index_from-range i (s ∷ ss) (o ∷ os) e f p q =
    let r = index_from-range (i + 1) ss os (omega arith) (omega arith) p.1 q.1 in
    elim (Bool-cases (bit_xor s o == 0)) [
      | inl same ↦ ground (arith, same, r)
      | inr other ↦
          let (k, g, b, _, _) =
            first_bit-range (bit_xor s o) (xor_byte s o p.0 q.0) (ground (arith, other)) in
          ground (arith, other, g, b, r)
    ]

pub index_from-same :
    (i s o : ℕ) (ss os : KadId)
    → bit_xor s o ≡ 0
    → index_from i (s ∷ ss) (o ∷ os) ≡ index_from (i + 1) ss os
unfolding index_from
index_from-same i s o ss os e = ground (arith, e)

pub index_from-first :
    (i s o k : ℕ) (ss os : KadId)
    → bit_xor s o ≢ 0
    → first_bit (bit_xor s o) 0 8 ≡ some k
    → index_from i (s ∷ ss) (o ∷ os) ≡ i * 8 + k
unfolding index_from
index_from-first i s o k ss os n e = ground (arith, n, e)

-- In the same byte.
closer_byte :
    (x y k l : ℕ)
    → (2 ^ (7 - k) ≤ x) × (x < 2 ^ (8 - k))
    → (2 ^ (7 - l) ≤ y) × (y < 2 ^ (8 - l))
    → l < 8
    → k < l
    → y < x
closer_byte x y k l p q h m = later_smaller x y k l m h p.0 q.1

compare_first :
    (a b t : ℕ) (xs ys ts : KadId)
    → bit_xor b t < bit_xor a t
    → distance_compare (b ∷ ys) (a ∷ xs) (t ∷ ts) ≡ negsuc 0
unfolding distance_compare
compare_first a b t xs ys ts h = ground (arith, h)

compare_rest :
    (a b t : ℕ) (xs ys ts : KadId)
    → bit_xor b t ≡ bit_xor a t
    → distance_compare (b ∷ ys) (a ∷ xs) (t ∷ ts) ≡ distance_compare ys xs ts
unfolding distance_compare
compare_rest a b t xs ys ts h = ground (arith, h)

swap_table : all_below 256 (λ x. all_below 256 (λ y. bit_xor x y == bit_xor y x)) ≡ true
unfolding all_below
swap_table = refl

xor_comm : (x y : ℕ) → x < 256 → y < 256 → bit_xor x y ≡ bit_xor y x
xor_comm x y h k = ground (
  arith,
  all_below_lem 256 (λ y. bit_xor x y == bit_xor y x) y
      (all_below_lem 256 (λ x. all_below 256 (λ y. bit_xor x y == bit_xor y x)) x swap_table h) k,
)

-- The bytes before the first that differs from those of `self` do not count.
closer_here :
    (i t a b : ℕ) (ts xs ys : KadId)
    → (t < 256) × (a < 256) × (b < 256)
    → bit_xor t a ≢ 0
    → i < 16
    → (i + 1) * 8 ≤ index_from (i + 1) ts ys + 1
    → index_from i (t ∷ ts) (a ∷ xs) < index_from i (t ∷ ts) (b ∷ ys)
    → bit_xor t b < bit_xor t a
closer_here i t a b ts xs ys p n l r h =
    let (k, g, k8, lo, hi) = first_bit-range (bit_xor t a) (xor_byte t a p.0 p.1) n in
    let ia = index_from-first i t a k ts xs n g in
    elim (Bool-cases (bit_xor t b == 0)) [
      | inl same ↦ ground (arith, same, n)
      | inr other ↦
          let ne : bit_xor t b ≢ 0 = ground (arith, other) in
          let (m, f, m8, lo', hi') = first_bit-range (bit_xor t b) (xor_byte t b p.0 p.2) ne in
          let ib = index_from-first i t b m ts ys ne f in
          closer_byte (bit_xor t a) (bit_xor t b) k m (lo, hi) (lo', hi') m8
            (omega (arith, ia, ib, h))
    ]

-- A byte of `a` that is that of `self` where the one of `b` is not puts `a` behind `b`.
not_later :
    (i t a b : ℕ) (ts xs ys : KadId)
    → (t < 256) × (a < 256) × (b < 256)
    → bit_xor t a ≡ 0
    → bit_xor t b ≢ 0
    → i < 16
    → (i + 1 < 16 → (i + 1) * 8 ≤ index_from (i + 1) ts xs)
    → ((i + 1) * 8 ≤ index_from (i + 1) ts xs + 1)
    → index_from i (t ∷ ts) (b ∷ ys) ≤ index_from i (t ∷ ts) (a ∷ xs)
not_later i t a b ts xs ys p z n l r s =
    let (m, f, m8, lo, hi) = first_bit-range (bit_xor t b) (xor_byte t b p.0 p.2) n in
    let ib = index_from-first i t b m ts ys n f in
    let ia = index_from-same i t a ts xs z in omega (arith, ia, ib, s)

closer_from :
    (i : ℕ) (t a b : KadId)
    → (length t ≡ length a) × (length t ≡ length b) × (i + length t ≡ 16)
    → All (λ b. b < 256) t × All (λ b. b < 256) a × All (λ b. b < 256) b
    → index_from i t a < index_from i t b
    → distance_compare b a t ≡ negsuc 0
closer_from i [] [] [] e p h = absurd (omega arith)
closer_from i [] (a ∷ xs) ys e p h = absurd (omega (arith, e))
closer_from i [] [] (b ∷ ys) e p h = absurd (omega (arith, e))
closer_from i (t ∷ ts) [] ys e p h = absurd (omega (arith, e))
closer_from i (t ∷ ts) (a ∷ xs) [] e p h = absurd (omega (arith, e))
closer_from i (t ∷ ts) (a ∷ xs) (b ∷ ys) e p h =
    let bytes : (t < 256) × (a < 256) × (b < 256) = (p.0.0, p.1.0, p.2.0) in
    let inside : i < 16 = omega (arith, e) in
    let ra = index_from-range (i + 1) ts xs (omega (arith, e)) (omega (arith, e)) p.0.1 p.1.1 in
    let rb = index_from-range (i + 1) ts ys (omega (arith, e)) (omega (arith, e)) p.0.1 p.2.1 in
    let ca = xor_comm a t p.1.0 p.0.0 in
    let cb = xor_comm b t p.2.0 p.0.0 in
    elim (Bool-cases (bit_xor t a == 0)) [
      | inr other ↦ compare_first a b t xs ys ts (
          omega (
            arith,
            ca,
            cb,
            closer_here i t a b ts xs ys bytes (ground (arith, other)) inside rb.0 h,
          ))
      | inl same ↦
          let z : bit_xor t a ≡ 0 = ground (arith, same) in
          elim (Bool-cases (bit_xor t b == 0)) [
            | inr later ↦ absurd (
                omega (
                  arith,
                  h,
                  not_later i t a b ts xs ys bytes z (ground (arith, later)) inside ra.2 ra.0,
                ))
            | inl both ↦
                let w : bit_xor t b ≡ 0 = ground (arith, both) in
                compare_rest a b t xs ys ts (cb ∙ w ∙ sym z ∙ sym ca)
                ∙ closer_from (i + 1) ts xs ys (omega (arith, e)) (p.0.1, p.1.1, p.2.1)
                    (omega (arith, h, index_from-same i t a ts xs z, index_from-same i t b ts ys w))
          ]
    ]

-- For identifiers of 16 bytes, one whose bucket index is greater is closer to the table's own
-- identifier by DistanceCompare.
pub bucket_index-closer :
    (self a b : KadId)
    → IsId self × IsId a × IsId b
    → bucket_index self a < bucket_index self b
    → distance_compare b a self ≡ negsuc 0
unfolding bucket_index
bucket_index-closer self a b p h =
    closer_from 0 self a b (omega (arith, p.0.0, p.1.0, p.2.0)) (p.0.1, p.1.1, p.2.1) h
