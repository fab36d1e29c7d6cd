-- ===== src/Connection.antt =====
-- The connection to a peer: peer_connection.go. The options that peers announce stand here.
mod Examples
pub mod Options
use Prim.Native.Nat.{bit_and, bit_or}
use goed2k.Common.{ℕ, ◌+◌, ◌*◌, ◌/◌, ◌^◌, Bool, ◌==◌}

pub record MiscOptions : Type 0 where
  pub aich_version : ℕ
  pub unicode_support : ℕ
  pub udp_ver : ℕ
  pub data_comp_ver : ℕ
  pub support_sec_ident : ℕ
  pub source_exchange1_ver : ℕ
  pub extended_requests_ver : ℕ
  pub accept_comment_ver : ℕ
  pub no_view_shared_files : ℕ
  pub multi_packet : ℕ
  pub supports_preview : ℕ

-- In Go `<<`, `>>` and `*` bind equally tight and to the left: `x << 4 * 7` is `(x << 4) * 7`.
unfoldable pub int_value : MiscOptions → ℕ
int_value m =
    bit_or
      (bit_or
        (bit_or
          (bit_or
            (bit_or
              (bit_or
                (bit_or
                  (bit_or
                    (bit_or (bit_or (m.aich_version * 2 ^ 29) (m.unicode_support * 2 ^ 4 * 7))
                      (m.udp_ver * 2 ^ 4 * 6))
                    (m.data_comp_ver * 2 ^ 4 * 5))
                  (m.support_sec_ident * 2 ^ 4 * 4))
                (m.source_exchange1_ver * 2 ^ 4 * 3))
              (m.extended_requests_ver * 2 ^ 4 * 2))
            (m.accept_comment_ver * 2 ^ 4))
          (m.no_view_shared_files * 2 ^ 2))
        (m.multi_packet * 2 ^ 1))
      m.supports_preview

unfoldable pub assign_options : ℕ → MiscOptions
assign_options value = record {
  aich_version = bit_and (value / 2 ^ 29) 0x07;
  unicode_support = bit_and (value / 2 ^ 4 * 7) 0x01;
  udp_ver = bit_and (value / 2 ^ 4 * 6) 0x0f;
  data_comp_ver = bit_and (value / 2 ^ 4 * 5) 0x0f;
  support_sec_ident = bit_and (value / 2 ^ 4 * 4) 0x0f;
  source_exchange1_ver = bit_and (value / 2 ^ 4 * 3) 0x0f;
  extended_requests_ver = bit_and (value / 2 ^ 4 * 2) 0x0f;
  accept_comment_ver = bit_and (value / 2 ^ 4) 0x0f;
  no_view_shared_files = bit_and (value / 2 ^ 2) 0x01;
  multi_packet = bit_and (value / 2 ^ 1) 0x01;
  supports_preview = bit_and value 0x01;
}

abbrev pub large_file_offset : ℕ
large_file_offset = 4

abbrev pub multip_offset : ℕ
multip_offset = 5

abbrev pub src_ext_offset : ℕ
src_ext_offset = 10

abbrev pub captcha_offset : ℕ
captcha_offset = 11

-- The value of MiscOptions2.
unfoldable pub option_bit : ℕ → ℕ → ℕ
option_bit value offset = bit_and (value / 2 ^ offset) 0x01

unfoldable pub support_captcha : ℕ → Bool
unfolding option_bit
support_captcha value = option_bit value captcha_offset == 1

unfoldable pub support_source_ext2 : ℕ → Bool
unfolding option_bit
support_source_ext2 value = option_bit value src_ext_offset == 1

unfoldable pub support_ext_multipacket : ℕ → Bool
unfolding option_bit
support_ext_multipacket value = option_bit value multip_offset == 1

unfoldable pub support_large_files : ℕ → Bool
unfolding option_bit
support_large_files value = option_bit value large_file_offset == 0

unfoldable pub set_captcha : ℕ → ℕ
set_captcha value = bit_or value (2 ^ captcha_offset)

unfoldable pub set_source_ext2 : ℕ → ℕ
set_source_ext2 value = bit_or value (2 ^ src_ext_offset)

unfoldable pub set_ext_multipacket : ℕ → ℕ
set_ext_multipacket value = bit_or value (2 ^ multip_offset)

unfoldable pub set_large_files : ℕ → ℕ
set_large_files value = bit_or value (2 ^ large_file_offset)
