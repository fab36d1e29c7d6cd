-- ===== src/Kad/NodesDat.antt =====
-- The file of known nodes: `NodesDat` of protocol/kad/types.go.
pub mod Faithful
use goed2k.Common.{
  ℕ, zero, suc, ◌+◌, ◌*◌, ◌/◌, ◌%◌, ◌^◌, List, [], ◌∷◌, ◌++◌, length, Bool, true, false, ◌&&◌, not,
  ltb, leb, ◌==◌, if◌then◌else◌,
}
use goed2k.Wire.{Error, bad_contacts, Result, ok, err, Reader, ◌>>=◌, pure, fail}
use goed2k.Wire.Basic.{read_byte, read_bytes, read_uint32}
use goed2k.Wire.Many.{get_many}
use goed2k.Kad.{KadId}
use goed2k.Kad.Format.{value_of, Entry, get_contact}

pub record NodesDat : Type 0 where
  pub version : ℕ
  pub bootstrap_edition : ℕ
  pub contacts : List Entry

-- The version, the edition and the number of contacts.
abbrev pub DatHeader : Type 0
DatHeader = ℕ × ℕ × ℕ

abbrev numbered : ℕ → ℕ → Reader DatHeader
numbered version edition = read_uint32 >>= λ n. pure (version, edition, n)

abbrev versioned : ℕ → Reader DatHeader
versioned version =
    if leb 1 version && leb version 3
    then (if leb 3 version
        then (read_uint32 >>= λ edition. numbered version edition)
        else numbered version 0)
    else pure (version, 0, 0)

-- A first number that is not 0 is the number of contacts of the oldest version.
unfoldable pub get_header : Reader DatHeader
get_header = do
  first ← read_uint32
  if first == 0 then (read_uint32 >>= versioned) else pure (0, 0, first)

-- Whether a contact has a key and a flag behind it.
abbrev pub is_extended : ℕ → ℕ → Bool
is_extended version edition = leb 2 version && edition == 0

abbrev pub min_entry_size : Bool → ℕ
min_entry_size true = 34
min_entry_size false = 25

unfoldable pub get_listed : Bool → Reader Entry
unfolding read_bytes read_byte
get_listed false = get_contact
get_listed true = do
  e ← get_contact
  key ← read_bytes 8
  verified ← read_byte
  pure (record e { verified = not (verified == 0) })

-- The number is tested against what is left before the contacts are read.
abbrev get_contacts : Bool → ℕ → Reader (List Entry)
get_contacts extended n src =
    if ltb (length src / min_entry_size extended) n
    then err bad_contacts
    else get_many (get_listed extended) n src

abbrev with_header : DatHeader → Reader NodesDat
with_header (version, edition, n) = do
  contacts ← get_contacts (is_extended version edition) n
  pure (record { version = version; bootstrap_edition = edition; contacts = contacts })

unfoldable pub get_nodes_dat : Reader NodesDat
unfolding get_header get_listed get_many
get_nodes_dat = get_header >>= with_header

unfoldable pub parse_nodes_dat : List ℕ → Result NodesDat
unfolding get_nodes_dat
parse_nodes_dat raw = value_of (get_nodes_dat raw)
