-- ===== src/Wire/ServerExamples.antt =====
-- The theorems about packets of servers and about frames at concrete inputs.
use goed2k.Common.{ℕ, ◌+◌, ◌≡◌, refl, List, [], ◌∷◌, ◌++◌, replicate, none, some, inl, arith}
use goed2k.Wire.{Result, ok}
use goed2k.Wire.Basic.{write_endpoint, Hash}
use goed2k.Wire.Header.{PacketKey, edonkey_header, packet_header_size}
use goed2k.Wire.Client.{hash_format}
use goed2k.Wire.Client.Faithful.{IsHash, hash_format-IsFaithful}
use goed2k.Wire.Frame.{
  PacketCombiner, new_packet_combiner, register, find_key, find_packet, pack_payload, unpack_frame,
}
use goed2k.Wire.Frame.RoundTrip.{sized_header, unpack_frame-pack_payload}
use goed2k.Wire.Server.{GetFileSources}
use goed2k.Wire.Server.Sources.{IsFileSources}
use goed2k.Wire.Many.{put_many}
use goed2k.Wire.Tag.{put_tags, put_tag_list}
use goed2k.Wire.ServerMet.{
  ServerMet, ServerMetEntry, put_server, known_header, get_server_met, put_server_met, add_server,
}
use goed2k.Wire.ServerMet.Faithful.{IsServer, IsServerMet, server_met-added}

abbrev a_hash : Hash
a_hash = replicate 16 5

-- A file of 2^33 bytes, and an empty one.
abbrev large_sources : GetFileSources
large_sources = record { hash = a_hash; low_part = 0; hi_part = 2 }

abbrev empty_sources : GetFileSources
empty_sources = record { hash = a_hash; low_part = 0; hi_part = 0 }

large-IsFileSources : IsFileSources large_sources
large-IsFileSources = record { hash = refl; low = omega arith; high = omega arith }

empty-IsFileSources : IsFileSources empty_sources
empty-IsFileSources = record { hash = refl; low = omega arith; high = omega arith }

abbrev a_server : ServerMetEntry
a_server = record { endpoint = record { ip = 16777343; port = 4661 }; tags = [] }

abbrev no_servers : ServerMet
no_servers = record { header = 0x0E; servers = [] }

a_server-IsServer : IsServer a_server
a_server-IsServer = record {
  endpoint = record { ip = omega arith; port = omega arith };
  tags = record { tags = tt; size = omega arith };
}

no_servers-IsServerMet : IsServerMet no_servers
no_servers-IsServerMet = record { header = inl refl; servers = tt; size = omega arith }

server_met-added_example :
    get_server_met (put_server_met (add_server no_servers a_server) ++ [])
    ≡ ok (add_server no_servers a_server, [])
unfolding put_server_met add_server put_server put_many put_tag_list put_tags known_header
    write_endpoint
server_met-added_example =
    server_met-added no_servers a_server [] no_servers-IsServerMet a_server-IsServer (omega arith)
      (omega arith)

-- A combiner that knows the request for a file, and two types of packets more.
abbrev file_key : PacketKey
file_key = record { protocol = edonkey_header; packet = 0x58 }

abbrev other_key : PacketKey
other_key = record { protocol = edonkey_header; packet = 0x4F }

abbrev a_combiner : PacketCombiner Hash
a_combiner = record {
  key_to_packet = (other_key, hash_format.get) ∷ (file_key, hash_format.get) ∷ [];
  type_to_key = (2, other_key) ∷ (1, file_key) ∷ [];
  reusable = record { protocol = 0; size = 0; packet = 0 };
  service = none;
}

a_combiner_made :
    register (register new_packet_combiner file_key 1 hash_format.get) other_key 2 hash_format.get
    ≡ a_combiner
unfolding register new_packet_combiner
a_combiner_made = refl

file_type : find_key 1 a_combiner.type_to_key ≡ some file_key
unfolding find_key
file_type = refl

file_packet : find_packet file_key a_combiner.key_to_packet ≡ some hash_format.get
unfolding find_packet
file_packet = refl

-- The compressed bytes themselves.
abbrev stored : List ℕ → Result (List ℕ)
stored body = ok body

unpack_frame-pack_payload_example :
    (raw : List ℕ) × (pack_payload a_combiner 1 hash_format.put a_hash []
      ≡ ok (raw, packet_header_size + 16))
    × (unpack_frame [] stored a_combiner (raw ++ (9 ∷ []))
        ≡ some (ok (sized_header file_key 16, a_hash)))
unpack_frame-pack_payload_example =
    unpack_frame-pack_payload [] stored a_combiner 1 file_key hash_format IsHash a_hash (9 ∷ [])
      hash_format-IsFaithful file_type file_packet (omega arith) (omega arith) refl (omega arith)
