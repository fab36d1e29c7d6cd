-- ===== src/BitField/Refine.antt =====
-- A bit field as a size and a function from indexes to bits, and each operation on that view.
use Prim.Native.Nat.{bit_and, bit_or}
use goed2k.Common.{
  some-eq, ℕ, zero, suc, ◌-◌, ◌/◌, ◌%◌, ◌≤◌, ◌<◌, ◌≡◌, refl, sym, ap, ◌∙◌, List, [], ◌∷◌, map, Bool,
  true, false, ◌&&◌, ◌||◌, not, ltb, leb, ◌==◌, length, get_or, set, All, arith, Option, none, some,
}
use goed2k.BitField.Bytes.{bit-full, bit-set, bit-clear}
use goed2k.BitField.Raw.{raw_bit, IsByte, get_or-byte, get_or-set}
use goed2k.BitField.{
  BitField, bits_to_bytes, bit_mask, resize, new_bit_field, clear_trailing_bits, resize_with,
  set_bit, get_bit, clear_bit, set_all, clear_all, assign,
}
use goed2k.BitField.Bits.{
  IsSized, IsPacked, get_bit-new, get_bit-raw, get_bit-set_bit, get_bit-clear_bit, get_bit-resize,
  get_bit-resize_with, get_bit-set_all, get_bit-assign,
}

pub record View : Type 0 where
  pub extent : ℕ
  pub has : ℕ → Bool

pub data Op : Type 0 where
  set_op clear_op resize_op top_up_op : ℕ → Op
  set_all_op clear_all_op : Op
  assign_op : List ℕ → ℕ → Op

-- The operation of the code.
unfoldable pub run_op : BitField → Op → Option BitField
run_op b (set_op i) = set_bit b i
run_op b (clear_op i) = clear_bit b i
run_op b (resize_op n) = some (resize b n)
run_op b (top_up_op n) = some (resize_with b n true)
run_op b set_all_op = some (set_all b)
run_op b clear_all_op = some (clear_all b)
run_op b (assign_op raw n) = some (assign b raw n)

-- What it does to the view.
abbrev pub view_op : View → Op → View
view_op v (set_op i) = record v { has = λ j. i == j || v.has j }
view_op v (clear_op i) = record v { has = λ j. not (i == j) && v.has j }
view_op v (resize_op n) = record { extent = n; has = λ j. ltb j n && v.has j }
view_op v (top_up_op n) = record { extent = n; has = λ j. ltb j n && (leb v.extent j || v.has j) }
view_op v set_all_op = record v { has = λ j. ltb j v.extent }
view_op v clear_all_op = record v { has = λ j. false }
view_op v (assign_op raw n) = record { extent = n; has = λ j. ltb j n && raw_bit raw j }

-- An index is in range, and assigned bytes are as many as the size needs.
abbrev pub Fits : View → Op → Type 0
Fits v (set_op i) = i < v.extent
Fits v (clear_op i) = i < v.extent
Fits v (assign_op raw n) = All IsByte raw × (length raw ≡ bits_to_bytes n)
Fits v _ = Unit {0}

pub record Shows (b : BitField) (v : View) : Type 0 where
  pub packed : IsPacked b
  pub extent : b.size ≡ v.extent
  pub has : (i : ℕ) → get_bit b i ≡ v.has i

IsPacked-IsSized : (b : BitField) → IsPacked b → IsSized b
IsPacked-IsSized b p = record { sized = p.sized; are_bytes = p.are_bytes }

abbrev with_bit : BitField → ℕ → ℕ → BitField
with_bit b i v = record b { bytes = set b.bytes (i / 8) v }

-- Behind the end nothing changes.
padded-set :
    (b : BitField) (i : ℕ)
    → IsPacked b
    → i < b.size
    → (j : ℕ) → b.size ≤ j
    → raw_bit (with_bit b i (bit_or (get_or b.bytes (i / 8) 0) (bit_mask i))).bytes j ≡ false
padded-set b i p h j k =
    let x = get_or-byte b.bytes (i / 8) p.are_bytes in
    ground (
      arith,
      p.sized,
      p.padded j,
      get_or-set b.bytes (i / 8) (j / 8) (bit_or (get_or b.bytes (i / 8) 0) (bit_mask i)),
      bit-set (get_or b.bytes (i / 8) 0) (i % 8) (j % 8) x,
    )

padded-clear :
    (b : BitField) (i : ℕ)
    → IsPacked b
    → i < b.size
    → (j : ℕ) → b.size ≤ j
    → raw_bit (with_bit b i (bit_and (get_or b.bytes (i / 8) 0) (255 - bit_mask i))).bytes j ≡ false
padded-clear b i p h j k =
    let x = get_or-byte b.bytes (i / 8) p.are_bytes in
    ground (
      arith,
      p.sized,
      p.padded j,
      get_or-set b.bytes (i / 8) (j / 8) (bit_and (get_or b.bytes (i / 8) 0) (255 - bit_mask i)),
      bit-clear (get_or b.bytes (i / 8) 0) (i % 8) (j % 8) x,
    )

set_bit-with :
    (b : BitField) (i : ℕ)
    → IsPacked b
    → i < b.size
    → set_bit b i ≡ some (with_bit b i (bit_or (get_or b.bytes (i / 8) 0) (bit_mask i)))
unfolding set_bit
set_bit-with b i p h = ground (arith, p.sized)

clear_bit-with :
    (b : BitField) (i : ℕ)
    → IsPacked b
    → i < b.size
    → clear_bit b i ≡ some (with_bit b i (bit_and (get_or b.bytes (i / 8) 0) (255 - bit_mask i)))
unfolding clear_bit
clear_bit-with b i p h = ground (arith, p.sized)

-- One operation that keeps the size and of which the bits are known.
kept :
    (b c d : BitField) (f : ℕ → Bool)
    → c ≡ d
    → d.size ≡ b.size
    → IsSized c
    → ((j : ℕ) → b.size ≤ j → raw_bit d.bytes j ≡ false)
    → ((j : ℕ) → get_bit c j ≡ f j)
    → Shows c (record { extent = b.size; has = f })
kept b c d f e z s pad bits = record {
  packed = record {
    sized = s.sized;
    are_bytes = s.are_bytes;
    padded = λ i h. ap (λ x. raw_bit x.bytes i) e ∙ pad i (omega (arith, h, z, ap (λ x. x.size) e));
  };
  extent = ap (λ x. x.size) e ∙ z;
  has = bits;
}

size-resize_with : (b : BitField) (n : ℕ) → IsPacked b → (resize_with b n true).size ≡ n
unfolding resize_with clear_trailing_bits
size-resize_with b n p = ground (arith, (get_bit-resize b n p).2)

size-set_all : (b : BitField) → (set_all b).size ≡ b.size
unfolding set_all clear_trailing_bits
size-set_all b = ground arith

size-assign : (b : BitField) (raw : List ℕ) (n : ℕ) → IsPacked b → (assign b raw n).size ≡ n
unfolding assign clear_trailing_bits
size-assign b raw n p = ground (arith, (get_bit-resize b n p).2)

raw_bit-zeros : (xs : List ℕ) (i : ℕ) → get_or {A = ℕ} (map (λ _. 0) xs) i 0 ≡ 0
raw_bit-zeros [] i = refl
raw_bit-zeros (x ∷ xs) zero = refl
raw_bit-zeros (x ∷ xs) (suc i) = raw_bit-zeros xs i

zeros-IsByte :
    (xs : List ℕ) → All IsByte (map (λ _. 0) xs) × (length {A = ℕ} (map (λ _. 0) xs) ≡ length xs)
zeros-IsByte [] = (tt, refl)
zeros-IsByte (x ∷ xs) = ((omega arith, (zeros-IsByte xs).0), ap suc (zeros-IsByte xs).1)

no_bit : (xs : List ℕ) (i : ℕ) → raw_bit (map (λ _. 0) xs) i ≡ false
no_bit xs i = ground (arith, raw_bit-zeros xs (i / 8), (bit-full (i % 8) (omega arith)).1)

clear_all-Shows :
    (b : BitField) → IsPacked b → Shows (clear_all b) (record { extent = b.size; has = λ j. false })
unfolding clear_all
clear_all-Shows b p =
    let packed : IsPacked (clear_all b) = record {
      sized = (zeros-IsByte b.bytes).1 ∙ p.sized;
      are_bytes = (zeros-IsByte b.bytes).0;
      padded = λ i h. no_bit b.bytes i;
    } in
    record {
      packed = packed;
      extent = refl;
      has = λ i. get_bit-raw (clear_all b) i packed ∙ no_bit b.bytes i;
    }

-- Of the view only the bits are read.
op-Shows :
    (b : BitField) (v : View) (o : Op)
    → Shows b v
    → Fits v o
    → (c : BitField) × (run_op b o ≡ some c) × Shows c (view_op v o)
unfolding run_op
op-Shows b v (set_op i) s h =
    let inside : i < b.size = omega (arith, s.extent) in
    let (c, e, bits, z) = get_bit-set_bit b i (IsPacked-IsSized b s.packed) inside in
    let d = with_bit b i (bit_or (get_or b.bytes (i / 8) 0) (bit_mask i)) in
    let k =
      kept b c d (λ j. i == j || v.has j) (some-eq (sym e ∙ set_bit-with b i s.packed inside)) refl
        z (padded-set b i s.packed inside) (λ j. bits j ∙ ap (λ x. i == j || x) (s.has j)) in
    (c, e, record { packed = k.packed; extent = k.extent ∙ s.extent; has = k.has })
op-Shows b v (clear_op i) s h =
    let inside : i < b.size = omega (arith, s.extent) in
    let (c, e, bits, z) = get_bit-clear_bit b i (IsPacked-IsSized b s.packed) inside in
    let d = with_bit b i (bit_and (get_or b.bytes (i / 8) 0) (255 - bit_mask i)) in
    let k =
      kept b c d (λ j. not (i == j) && v.has j)
        (some-eq (sym e ∙ clear_bit-with b i s.packed inside)) refl z
        (padded-clear b i s.packed inside) (λ j. bits j ∙ ap (λ x. not (i == j) && x) (s.has j)) in
    (c, e, record { packed = k.packed; extent = k.extent ∙ s.extent; has = k.has })
op-Shows b v (resize_op n) s h =
    let (p, bits, z) = get_bit-resize b n s.packed in
    (
      resize b n,
      refl,
      record { packed = p; extent = z; has = λ j. bits j ∙ ap (λ x. ltb j n && x) (s.has j) },
    )
op-Shows b v (top_up_op n) s h = (
  resize_with b n true,
  refl,
  record {
    packed = (get_bit-resize_with b n 0 s.packed).0;
    extent = size-resize_with b n s.packed;
    has = λ j.
        (get_bit-resize_with b n j s.packed).1
        ∙ ap (λ x. ltb j n && (leb b.size j || x)) (s.has j)
        ∙ ap (λ z. ltb j n && (leb z j || v.has j)) s.extent;
  },
)
op-Shows b v set_all_op s h = (
  set_all b,
  refl,
  record {
    packed = (get_bit-set_all b 0 (IsPacked-IsSized b s.packed)).0;
    extent = size-set_all b ∙ s.extent;
    has = λ j. (get_bit-set_all b j (IsPacked-IsSized b s.packed)).1 ∙ ap (ltb j) s.extent;
  },
)
op-Shows b v clear_all_op s h =
    let k = clear_all-Shows b s.packed in
    (clear_all b, refl, record { packed = k.packed; extent = k.extent ∙ s.extent; has = k.has })
op-Shows b v (assign_op raw n) s h = (
  assign b raw n,
  refl,
  record {
    packed = (get_bit-assign b raw n 0 s.packed h.0 h.1).0;
    extent = size-assign b raw n s.packed;
    has = λ j. (get_bit-assign b raw n j s.packed h.0 h.1).1;
  },
)

unfoldable pub run_ops : BitField → List Op → Option BitField
unfolding run_op
run_ops b [] = some b
run_ops b (o ∷ os) = elim (run_op b o) [ none ↦ none | some c ↦ run_ops c os ]

abbrev pub view_ops : View → List Op → View
view_ops v [] = v
view_ops v (o ∷ os) = view_ops (view_op v o) os

abbrev pub AllFit : View → List Op → Type 0
AllFit v [] = Unit {0}
AllFit v (o ∷ os) = Fits v o × AllFit (view_op v o) os

ops-Shows :
    (b : BitField) (v : View) (os : List Op)
    → Shows b v
    → AllFit v os
    → (c : BitField) × (run_ops b os ≡ some c) × Shows c (view_ops v os)
unfolding run_ops
ops-Shows b v [] s h = (b, refl, s)
ops-Shows b v (o ∷ os) s h =
    let (c, e, s') = op-Shows b v o s h.0 in
    let (d, e', s'') = ops-Shows c (view_op v o) os s' h.1 in (d, rw (run_ops, e) e', s'')

size-new : (n : ℕ) → (new_bit_field n).size ≡ n
unfolding new_bit_field resize clear_trailing_bits
size-new n = ground arith

abbrev pub empty_view : ℕ → View
empty_view n = record { extent = n; has = λ j. false }

-- On a new bit field of any size, every sequence of SetBit and ClearBit of an index in range,
-- Resize, ResizeWith true, SetAll, ClearAll and Assign of as many bytes as its size needs does
-- not panic, and the size and the result of GetBit at every index are those of the same
-- operations on a size and a function from indexes to bits; the bytes stay as many as the size
-- needs, with no bit behind the end.
pub run_ops-Shows :
    (n : ℕ) (os : List Op)
    → AllFit (empty_view n) os
    → (b : BitField) × (run_ops (new_bit_field n) os ≡ some b)
      × Shows b (view_ops (empty_view n) os)
run_ops-Shows n os h =
    ops-Shows (new_bit_field n) (empty_view n) os
      (record { packed = (get_bit-new n 0).0; extent = size-new n; has = λ i. (get_bit-new n i).1 })
      h
