-- ===== src/Kad/NodesDat/Faithful.antt =====
-- The known nodes are those that the format of the file describes.
use goed2k.Common.{
  ℕ, ◌*◌, ◌/◌, ◌^◌, ◌<◌, ◌≤◌, ◌≡◌, refl, ap, sym, ◌∙◌, List, [], ◌∷◌, ◌++◌, append_assoc, length,
  length-append, Bool, true, false, ltb, ◌==◌, if◌then◌else◌, All, arith,
}
use goed2k.Wire.{ok}
use goed2k.Wire.Basic.{write_le, read_byte, read_bytes}
use goed2k.Wire.RoundTrip.{read_uint32-write, read_bytes-write, length-write_le}
use goed2k.Wire.Many.{get_many}
use goed2k.Kad.Format.{swap_words, put_id, put_kad_endpoint, Entry, put_contact}
use goed2k.Kad.Format.RoundTrip.{get_contact-put, IsKadEndpoint, swap_words-words}
use goed2k.Kad.NodesDat.{
  NodesDat, get_header, is_extended, min_entry_size, get_listed, get_nodes_dat, parse_nodes_dat,
}

-- The format, with the keys of the nodes, which the program does not keep.
abbrev pub listed_bytes : (Entry → List ℕ) → Bool → Entry → List ℕ
listed_bytes key false e = put_contact e
listed_bytes key true e = put_contact e ++ (key e ++ ((if e.verified then 1 else 0) ∷ []))

unfoldable pub contacts_bytes : (Entry → List ℕ) → Bool → List Entry → List ℕ
contacts_bytes key extended [] = []
contacts_bytes key extended (e ∷ es) = listed_bytes key extended e ++ contacts_bytes key extended es

abbrev pub header_bytes : ℕ → ℕ → ℕ → List ℕ
header_bytes version edition n =
    if version == 0
    then write_le 4 n
    else (if version == 3
        then write_le 4 0 ++ (write_le 4 version ++ (write_le 4 edition ++ write_le 4 n))
        else write_le 4 0 ++ (write_le 4 version ++ write_le 4 n))

-- Whether the contacts of a file have a key and a flag behind them: in version 2, and in version 3
-- if the file is not one of the bootstrap edition.
abbrev pub has_keys : ℕ → ℕ → Bool
has_keys version edition =
    if version == 2
    then true
    else (if version == 3 then (if edition == 0 then true else false) else false)

unfoldable pub nodes_dat_bytes : (Entry → List ℕ) → NodesDat → List ℕ
nodes_dat_bytes key d =
    header_bytes d.version d.bootstrap_edition (length d.contacts)
    ++ contacts_bytes key (has_keys d.version d.bootstrap_edition) d.contacts

-- Only an extended contact says that it was verified.
pub record IsListed (extended : Bool) (e : Entry) : Type 0 where
  pub id : length e.id ≡ 16
  pub endpoint : IsKadEndpoint e.endpoint
  pub plain : extended ≡ false → e.verified ≡ false

pub record IsNodesDat (d : NodesDat) : Type 0 where
  pub version : d.version ≤ 3
  pub edition : d.bootstrap_edition < 2 ^ 32
  pub only_third : d.version < 3 → d.bootstrap_edition ≡ 0
  pub old : d.version ≡ 0 → 0 < length d.contacts
  pub contacts : All (IsListed (has_keys d.version d.bootstrap_edition)) d.contacts
  pub size : length d.contacts < 2 ^ 32

length-put_contact : (e : Entry) → length e.id ≡ 16 → length (put_contact e) ≡ 25
unfolding put_contact put_id put_kad_endpoint
length-put_contact e h =
    let a = swap_words e.id in
    let b = write_le 4 e.endpoint.ip in
    let c = write_le 2 e.endpoint.udp_port in
    let d = write_le 2 e.endpoint.tcp_port in
    omega (
      arith,
      (swap_words-words 4 e.id h).1,
      length-append a ((b ++ (c ++ d)) ++ (e.version ∷ [])),
      length-append (b ++ (c ++ d)) (e.version ∷ []),
      length-append b (c ++ d),
      length-append c d,
      length-write_le 4 e.endpoint.ip,
      length-write_le 2 e.endpoint.udp_port,
      length-write_le 2 e.endpoint.tcp_port,
    )

module _ (key : Entry → List ℕ) (keys : (e : Entry) → length (key e) ≡ 8) where
  listed-get :
      (extended : Bool) (e : Entry) (rest : List ℕ)
      → IsListed extended e
      → get_listed extended (listed_bytes key extended e ++ rest) ≡ ok (e, rest)
  unfolding get_listed read_byte put_contact
  listed-get false e rest v =
      get_contact-put e rest (record { id = v.id; endpoint = v.endpoint; plain = v.plain refl })
  listed-get true e rest v =
      let plain : Entry = record e { verified = false } in
      let flag : List ℕ = (if e.verified then 1 else 0) ∷ [] in
      let tail = key e ++ flag in
      let k : read_bytes 8 (key e ++ (flag ++ rest)) ≡ ok (key e, flag ++ rest) =
        ap (λ n. read_bytes n (key e ++ (flag ++ rest))) (sym (keys e))
        ∙ read_bytes-write (key e) (flag ++ rest) in
      ground (
        arith,
        append_assoc (put_contact e) tail rest,
        append_assoc (key e) flag rest,
        get_contact-put plain (tail ++ rest)
            (record { id = v.id; endpoint = v.endpoint; plain = refl }),
        k,
      )

  contacts-get :
      (extended : Bool) (es : List Entry) (rest : List ℕ)
      → All (IsListed extended) es
      → get_many (get_listed extended) (length es) (contacts_bytes key extended es ++ rest)
        ≡ ok (es, rest)
  unfolding get_many contacts_bytes
  contacts-get extended [] rest a = refl
  contacts-get extended (e ∷ es) rest a = rw (
    append_assoc (listed_bytes key extended e) (contacts_bytes key extended es) rest,
    listed-get extended e (contacts_bytes key extended es ++ rest) a.0,
    contacts-get extended es rest a.1,
  )

  length-listed :
      (extended : Bool) (e : Entry)
      → IsListed extended e
      → length (listed_bytes key extended e) ≡ min_entry_size extended
  length-listed false e v = length-put_contact e v.id
  length-listed true e v =
      let flag : List ℕ = (if e.verified then 1 else 0) ∷ [] in
      omega (
        arith,
        length-put_contact e v.id,
        keys e,
        length-append (put_contact e) (key e ++ flag),
        length-append (key e) flag,
      )

  length-contacts :
      (extended : Bool) (es : List Entry)
      → All (IsListed extended) es
      → length (contacts_bytes key extended es) ≡ min_entry_size extended * length es
  unfolding contacts_bytes
  length-contacts false [] a = omega arith
  length-contacts true [] a = omega arith
  length-contacts false (e ∷ es) a = omega (
    arith,
    length-append (listed_bytes key false e) (contacts_bytes key false es),
    length-listed false e a.0,
    length-contacts false es a.1,
  )
  length-contacts true (e ∷ es) a = omega (
    arith,
    length-append (listed_bytes key true e) (contacts_bytes key true es),
    length-listed true e a.0,
    length-contacts true es a.1,
  )

  -- The test of the number of contacts lets them pass.
  enough :
      (extended : Bool) (es : List Entry) (rest : List ℕ)
      → All (IsListed extended) es
      → ltb (length (contacts_bytes key extended es ++ rest) / min_entry_size extended) (length es)
        ≡ false
  enough false es rest a =
      ground (arith, length-append (contacts_bytes key false es) rest, length-contacts false es a)
  enough true es rest a =
      ground (arith, length-append (contacts_bytes key true es) rest, length-contacts true es a)

header-get :
    (version edition n : ℕ) (rest : List ℕ)
    → version ≤ 3
    → edition < 2 ^ 32
    → (version < 3 → edition ≡ 0)
    → (version ≡ 0 → 0 < n)
    → n < 2 ^ 32
    → get_header (header_bytes version edition n ++ rest) ≡ ok ((version, edition, n), rest)
unfolding get_header
header-get version edition n rest v e o z l =
    let zeros = write_le 4 0 in
    let a = write_le 4 version in
    let b = write_le 4 edition in
    let c = write_le 4 n in
    ground (
      arith,
      append_assoc zeros (a ++ (b ++ c)) rest,
      append_assoc a (b ++ c) rest,
      append_assoc b c rest,
      append_assoc zeros (a ++ c) rest,
      append_assoc a c rest,
      read_uint32-write 0 ((a ++ (b ++ c)) ++ rest),
      read_uint32-write version ((b ++ c) ++ rest),
      read_uint32-write edition (c ++ rest),
      read_uint32-write 0 ((a ++ c) ++ rest),
      read_uint32-write version (c ++ rest),
      read_uint32-write n rest l,
    )

-- The test of the program agrees with the description.
is_extended-has_keys :
    (version edition : ℕ)
    → version ≤ 3
    → (version < 3 → edition ≡ 0)
    → is_extended version edition ≡ has_keys version edition
is_extended-has_keys version edition h o = ground (arith, h, o)

-- A file of known nodes of any of the versions 0 to 3, of version 0 with at least one contact,
-- is read as the nodes that it lists, with any bytes behind it. The contacts of version 2, and
-- those of version 3 outside the bootstrap edition (edition 0), have a key of 8 bytes and a flag
-- behind them, which says whether the contact is verified; no other contact is.
pub parse_nodes_dat-bytes :
    (key : Entry → List ℕ) (d : NodesDat) (rest : List ℕ)
    → ((e : Entry) → length (key e) ≡ 8)
    → IsNodesDat d
    → parse_nodes_dat (nodes_dat_bytes key d ++ rest) ≡ ok d
unfolding parse_nodes_dat get_nodes_dat nodes_dat_bytes
parse_nodes_dat-bytes key d rest keys v =
    let extended = has_keys d.version d.bootstrap_edition in
    let h = header_bytes d.version d.bootstrap_edition (length d.contacts) in
    let cs = contacts_bytes key extended d.contacts in
    rw
      (
        append_assoc h cs rest,
        header-get d.version d.bootstrap_edition (length d.contacts) (cs ++ rest) v.version
            v.edition v.only_third v.old v.size,
        is_extended-has_keys d.version d.bootstrap_edition v.version v.only_third,
        enough key keys extended d.contacts rest v.contacts,
        contacts-get key keys extended d.contacts rest v.contacts,
      )
      refl
