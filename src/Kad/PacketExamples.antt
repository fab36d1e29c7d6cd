-- ===== src/Kad/PacketExamples.antt =====
-- The file of known nodes at a concrete input.
use goed2k.Kad.Format.RoundTrip.{IsKadEndpoint}
use goed2k.Common.{Bool, ◌≡◌, refl, [], ◌∷◌, ◌++◌, false, true, replicate, arith}
use goed2k.Wire.{ok}
use goed2k.Kad.Format.{Entry}
use goed2k.Kad.NodesDat.{NodesDat, parse_nodes_dat}
use goed2k.Kad.NodesDat.Faithful.{nodes_dat_bytes, IsListed, IsNodesDat, parse_nodes_dat-bytes}

abbrev contact : Entry
contact = record {
  id = replicate 16 7;
  endpoint = record { ip = 0x0100007f; udp_port = 4672; tcp_port = 4662 };
  version = 8;
  verified = true;
}

abbrev two_nodes : NodesDat
two_nodes = record {
  version = 2;
  bootstrap_edition = 0;
  contacts = contact ∷ (record contact { verified = false }) ∷ [];
}

contact_endpoint : IsKadEndpoint contact.endpoint
contact_endpoint = record { ip = omega arith; udp_port = omega arith; tcp_port = omega arith }

listed : (b : Bool) → IsListed true (record contact { verified = b })
listed b = record { id = refl; endpoint = contact_endpoint; plain = λ e. cc }

two_nodes-IsNodesDat : IsNodesDat two_nodes
two_nodes-IsNodesDat = record {
  version = omega arith;
  edition = omega arith;
  only_third = λ h. refl;
  old = λ h. omega arith;
  contacts = (listed true, (listed false, tt));
  size = omega arith;
}

parse_nodes_dat-bytes_example :
    parse_nodes_dat (nodes_dat_bytes (λ e. replicate 8 1) two_nodes ++ (1 ∷ [])) ≡ ok two_nodes
parse_nodes_dat-bytes_example =
    parse_nodes_dat-bytes (λ e. replicate 8 1) two_nodes (1 ∷ []) (λ e. refl) two_nodes-IsNodesDat
