-- ===== src/BitField/Bytes.antt =====
-- Masks on one byte, checked by evaluation for every byte and bit.
use Prim.Native.Nat.{bit_and, bit_or}
use goed2k.Common.{
  all_below, all_below_lem, ℕ, ◌-◌, ◌*◌, ◌/◌, ◌%◌, ◌^◌, ◌<◌, ◌≡◌, refl, Bool, true, false, ◌&&◌,
  ◌||◌, not, ltb, leb, ◌≢◌, ◌==◌, arith,
}

abbrev bool_eq : Bool → Bool → Bool
bool_eq true b = b
bool_eq false b = not b

bool_eq_lem : (a b : Bool) → bool_eq a b ≡ true → a ≡ b
bool_eq_lem true true h = refl
bool_eq_lem true false h = cc
bool_eq_lem false true h = cc
bool_eq_lem false false h = refl

-- Bit `k` of a byte, the top one first.
abbrev pub byte_bit : ℕ → ℕ → Bool
byte_bit x k = not (bit_and x (0x80 / 2 ^ k) == 0)

-- A statement about a byte and two bits of it.
table : (ℕ → ℕ → ℕ → Bool) → Bool
unfolding all_below
table p = all_below 256 λ x. all_below 8 λ k. all_below 8 λ j. p x k j

table_lem :
    (p : ℕ → ℕ → ℕ → Bool) → table p ≡ true → (x k j : ℕ) → x < 256 → k < 8 → j < 8 → p x k j ≡ true
unfolding table
table_lem p h x k j hx hk hj =
    all_below_lem 8 (p x k) j
      (all_below_lem 8 (λ k. all_below 8 (p x k)) k
        (all_below_lem 256 (λ x. all_below 8 (λ k. all_below 8 (p x k))) x h hx) hk)
      hj

-- One bit set, one bit cleared, and the bits from the `k`-th on cleared or set.
set_table :
    table (λ x k j.
      bool_eq (byte_bit (bit_or x (0x80 / 2 ^ k)) j) (k == j || byte_bit x j)
      && ltb (bit_or x (0x80 / 2 ^ k)) 256)
    ≡ true
unfolding table
set_table = refl

clear_table :
    table (λ x k j.
      bool_eq (byte_bit (bit_and x (255 - 0x80 / 2 ^ k)) j) (not (k == j) && byte_bit x j)
      && ltb (bit_and x (255 - 0x80 / 2 ^ k)) 256)
    ≡ true
unfolding table
clear_table = refl

keep_table :
    table (λ x k j.
      k == 0
      || (bool_eq (byte_bit (bit_and x (0xff * 2 ^ (8 - k) % 256)) j) (ltb j k && byte_bit x j)
          && ltb (bit_and x (0xff * 2 ^ (8 - k) % 256)) 256))
    ≡ true
unfolding table
keep_table = refl

top_table :
    table (λ x k j.
      bool_eq (byte_bit (bit_or x (0xff / 2 ^ k)) j) (leb k j || byte_bit x j)
      && ltb (bit_or x (0xff / 2 ^ k)) 256)
    ≡ true
unfolding table
top_table = refl

full_table : all_below 8 (λ j. byte_bit 0xff j && not (byte_bit 0 j)) ≡ true
unfolding all_below
full_table = refl

both : (a b : Bool) (m : ℕ) → (bool_eq a b && ltb m 256) ≡ true → (a ≡ b) × (m < 256)
both a b m h = ground (arith, bool_eq_lem a b)

module _ (x k j : ℕ) (hx : x < 256) (hk : k < 8) (hj : j < 8) where
  pub bit-set :
      (byte_bit (bit_or x (0x80 / 2 ^ k)) j ≡ (k == j || byte_bit x j))
      × (bit_or x (0x80 / 2 ^ k) < 256)
  bit-set = both _ _ _ (table_lem _ set_table x k j hx hk hj)

  pub bit-clear :
      (byte_bit (bit_and x (255 - 0x80 / 2 ^ k)) j ≡ (not (k == j) && byte_bit x j))
      × (bit_and x (255 - 0x80 / 2 ^ k) < 256)
  bit-clear = both _ _ _ (table_lem _ clear_table x k j hx hk hj)

  pub bit-keep :
      k ≢ 0
      → (byte_bit (bit_and x (0xff * 2 ^ (8 - k) % 256)) j ≡ (ltb j k && byte_bit x j))
        × (bit_and x (0xff * 2 ^ (8 - k) % 256) < 256)
  bit-keep h = both _ _ _ (ground (arith, table_lem _ keep_table x k j hx hk hj))

  pub bit-top :
      (byte_bit (bit_or x (0xff / 2 ^ k)) j ≡ (leb k j || byte_bit x j))
      × (bit_or x (0xff / 2 ^ k) < 256)
  bit-top = both _ _ _ (table_lem _ top_table x k j hx hk hj)

pub bit-full : (j : ℕ) → j < 8 → (byte_bit 0xff j ≡ true) × (byte_bit 0 j ≡ false)
bit-full j h = ground (arith, all_below_lem 8 _ j full_table h)
