-- ===== src/BitField/Examples.antt =====
-- Runs on bit fields, and the theorems at concrete inputs.
use goed2k.Common.{List, ◌≡◌, refl, [], ◌∷◌, some, arith}
use goed2k.BitField.{BitField, new_bit_field, count}
use goed2k.BitField.Refine.{
  Op, set_op, clear_op, resize_op, top_up_op, set_all_op, clear_all_op, assign_op, run_ops,
  view_ops, empty_view, Shows, run_ops-Shows,
}
use goed2k.BitField.Bits.{IsSized, IsPacked, get_bit-new}

abbrev ten_bits : BitField
ten_bits = record { bytes = 0xa0 ∷ 0x40 ∷ []; size = 10 }

ten_bits-IsSized : IsSized ten_bits
ten_bits-IsSized = omega arith

abbrev no_bits : BitField
no_bits = record { bytes = []; size = 0 }

new_ten-IsPacked : IsPacked (new_bit_field 10)
new_ten-IsPacked = (get_bit-new 10 0).0

three_set : count ten_bits ≡ 3
unfolding count
three_set = refl

-- Set, clear, grow, top up, assign, and set a bit again.
abbrev some_ops : List Op
some_ops =
    set_op 3
    ∷ clear_op 2
    ∷ resize_op 20
    ∷ top_up_op 30
    ∷ set_all_op
    ∷ clear_all_op
    ∷ assign_op (0xa0 ∷ []) 5
    ∷ set_op 4
    ∷ []

run_ops-Shows_example :
    (b : BitField) × (run_ops (new_bit_field 10) some_ops ≡ some b)
    × Shows b (view_ops (empty_view 10) some_ops)
run_ops-Shows_example =
    run_ops-Shows 10 some_ops
      (omega arith, (omega arith, (tt, (tt, (tt, (tt, ((omega arith, refl), (omega arith, tt))))))))
