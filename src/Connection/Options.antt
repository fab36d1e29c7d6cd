-- ===== src/Connection/Options.antt =====
-- What a peer reads of the options that another announced.
use goed2k.Common.{
  all_below, all_below_lem, ℕ, ◌<◌, ◌≡◌, ◌≢◌, refl, true, false, ◌&&◌, ◌||◌, not, ◌==◌, arith,
}
use goed2k.Connection.{
  MiscOptions, int_value, assign_options, support_captcha, support_source_ext2,
  support_ext_multipacket, support_large_files, set_captcha, set_source_ext2, set_ext_multipacket,
  set_large_files,
}

abbrev pub only_udp : ℕ → MiscOptions
only_udp v = record {
  aich_version = 0;
  unicode_support = 0;
  udp_ver = v;
  data_comp_ver = 0;
  support_sec_ident = 0;
  source_exchange1_ver = 0;
  extended_requests_ver = 0;
  accept_comment_ver = 0;
  no_view_shared_files = 0;
  multi_packet = 0;
  supports_preview = 0;
}

abbrev pub only_sec_ident : ℕ → MiscOptions
only_sec_ident v = record (only_udp 0) { support_sec_ident = v }

lost_table :
    all_below 16 (λ v.
      v == 0
      || (not ((assign_options (int_value (only_udp v))).udp_ver == v)
          && not ((assign_options (int_value (only_sec_ident v))).support_sec_ident == v)))
    ≡ true
unfolding all_below int_value assign_options
lost_table = refl

bits_table :
    all_below 4096 (λ m.
      support_captcha (set_captcha m)
      && (support_source_ext2 (set_source_ext2 m)
          && (support_ext_multipacket (set_ext_multipacket m)
              && not (support_large_files (set_large_files m)))))
    ≡ true
unfolding all_below support_captcha support_source_ext2 support_ext_multipacket support_large_files
    set_captcha set_source_ext2 set_ext_multipacket set_large_files
bits_table = refl

-- A hello whose only option is UDP version v, or secure identification v, is never read back
-- with it, for v of 4 bits but 0; of second options whose value is below 4096 (12 bits),
-- captcha, source exchange 2 and extended multipacket are read back once set, and large files is
-- not.
pub options-lost :
    (v m : ℕ)
    → 0 < v
    → v < 16
    → m < 4096
    → ((assign_options (int_value (only_udp v))).udp_ver ≢ v)
      × ((assign_options (int_value (only_sec_ident v))).support_sec_ident ≢ v)
      × (support_captcha (set_captcha m) ≡ true)
      × (support_source_ext2 (set_source_ext2 m) ≡ true)
      × (support_ext_multipacket (set_ext_multipacket m) ≡ true)
      × (support_large_files (set_large_files m) ≡ false)
options-lost v m h l k =
    let t =
      all_below_lem 16
        (λ v.
          v == 0
          || (not ((assign_options (int_value (only_udp v))).udp_ver == v)
              && not ((assign_options (int_value (only_sec_ident v))).support_sec_ident == v)))
        v lost_table l in
    let b =
      all_below_lem 4096
        (λ m.
          support_captcha (set_captcha m)
          && (support_source_ext2 (set_source_ext2 m)
              && (support_ext_multipacket (set_ext_multipacket m)
                  && not (support_large_files (set_large_files m)))))
        m bits_table k in
    (
      (λ e. ground (arith, t, h, e)),
      (λ e. ground (arith, t, h, e)),
      ground (arith, b),
      ground (arith, b),
      ground (arith, b),
      ground (arith, b),
    )
