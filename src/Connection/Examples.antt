-- ===== src/Connection/Examples.antt =====
-- The options of a hello at a concrete input.
use goed2k.Common.{◌≡◌, ◌≢◌, true, false, arith}
use goed2k.Connection.{
  int_value, assign_options, support_captcha, support_source_ext2, support_ext_multipacket,
  support_large_files, set_captcha, set_source_ext2, set_ext_multipacket, set_large_files,
}
use goed2k.Connection.Options.{only_udp, only_sec_ident, options-lost}

options-lost_example :
    ((assign_options (int_value (only_udp 4))).udp_ver ≢ 4)
    × ((assign_options (int_value (only_sec_ident 4))).support_sec_ident ≢ 4)
    × (support_captcha (set_captcha 0x8) ≡ true)
    × (support_source_ext2 (set_source_ext2 0x8) ≡ true)
    × (support_ext_multipacket (set_ext_multipacket 0x8) ≡ true)
    × (support_large_files (set_large_files 0x8) ≡ false)
options-lost_example = options-lost 4 0x8 (omega arith) (omega arith) (omega arith)
