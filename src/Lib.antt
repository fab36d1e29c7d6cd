-- ===== src/Lib.antt =====
-- A verification library for goed2k, a client for the ED2K and eMule networks written in Go.
--
-- A transfer cuts its file into pieces of 9728000 bytes and a piece into 50 blocks of 190 KiB. Each
-- peer connection asks the piece picker for the next blocks, turns them into ranges of bytes, and
-- requests them; what arrives is marked as being written, then as finished, and a piece whose hash
-- agrees is marked as had. A bit field says which pieces a peer has. Peers that want bytes of the
-- client wait in the upload queue for one of its slots.
--
-- Geometry      data/piece_block.go, data/peer_request.go, constants.go, blocks_enumerator.go: the
--               positions of pieces and blocks, and requests for ranges of bytes (Geometry/Request).
-- BitField      protocol/bitfield.go: the packed bits, and what each operation does to them.
-- Picker        downloading_piece.go (Picker/Block, Picker/Piece) and piece_picker.go (Picker/State
--               for the operations on one piece, Picker/Rounds for the choice over all pieces).
--               Picker/Run is the relation of all histories of a picker.
-- Storage       block_manager.go (Storage/Blocks) and piece_manager.go (Storage/Pieces): the blocks that
--               arrive, the content of the file, and the bytes of a piece that are hashed in order.
-- Peers         peer.go and policy.go: the ordered list of the peers of a transfer. Peers/Changes has
--               the calls that change it, Peers/Changes/Run all their histories, and Peers/Candidate
--               the choice of the next peer to connect to.
-- Kad           identifiers and distances (protocol/kad/types.go), the routing table of kad_routing.go
--               (Kad/Table, Kad/Refresh, and all its histories in Kad/Run), the open requests of
--               kad_rpc.go (Kad/Rpc), the packets of protocol/kad (types.go: Kad/Format; packets.go:
--               Kad/Packets for the handshakes and lookups, Kad/Publish for searches and
--               publications), and the file of known nodes (Kad/NodesDat).
-- Connection    the options that a hello of peer_connection.go announces.
-- Upload        upload_queue.go: Upload has what a connection keeps for its uploads (a part of
--               peer_connection.go), Upload/Send how `SendBlockData` cuts a block into parts,
--               Upload/Queue the two lists, and Upload/Queue/Slots who gets and loses a slot. All
--               histories of the queue stand in Upload/Queue/Invariant/Histories.
-- Statistics    stat_channel.go, statistics.go: the counters and rates of a connection, and
--               speed_monitor.go (Statistics/Monitor), the average of the latest samples.
-- Reconnect     server_connection_policy.go: when to try a server again.
-- Wire          protocol/serializable.go, helpers.go, endpoint.go (Wire/Basic), simple_tag.go (Wire/Tag),
--               packet_header.go, packet_key.go, byte_container.go (Wire/Header), and the packets
--               between clients of protocol/client (Wire/Client, Wire/Parts, Wire/Status) and with
--               servers of protocol/server (Wire/Server, Wire/ServerMet). Wire/Frame is the combiner
--               of protocol/packet_combiner.go, which frames and dispatches them, and Wire/Stream
--               the loop of connection.go that cuts frames out of chunks. The interface
--               `Serializable` is a record of a reader, a writer and a size; each format is an
--               instance of it.
--
-- Conventions. Go's `int` and `int64` values that are never negative are natural numbers with no
-- upper bound: they are sizes, offsets and indexes of one file, far below 2^63. A value that can be
-- negative is an integer (ℤ). Types with a fixed width keep their wrap-around: the int16 number of
-- downloaders is its bit pattern. A byte is a number, and a slice is a list. A panic of Go, such as
-- an index out of range, is `none`. A pointer to a peer is a number that stands for it.
-- A `*bytes.Reader` is the list of the bytes that are left. A packet is read into a new value. A Go
-- string is the list of its bytes, and an int32 of a packet is its bit pattern.
--
-- The content of a file is a list. Whether a write of the disk works, and whether the seek and the
-- read of a piece do, are arguments, as are the hash function and the random start of `ErasePeers`.
-- A pointer into the list of peers is a slot, since Go's pointer keeps its place when peers move; the
-- theorems on histories hold for every slot. A pointer into an array that `slices.Insert` has
-- replaced, or behind the end, is not modelled. A node of the KAD table is a value, which the
-- operations of the table replace where Go writes through a pointer. The tracker of dht_tracker.go
-- keeps pointers to the same nodes; of its writes only that of an identifier touches the places of
-- the nodes in the table. It is `reidentify`, which stands outside the histories of Kad/Run.
--
-- Fuel. `erase_loop` takes the rounds that Go counts down, and `find_loop` 300, the most that Go
-- allows, while a list has at most 100 peers. `requests_loop` takes one round for each piece that the
-- range touches, `send_loop` one for each byte of the payload, `read_loop` one more than there are
-- bytes, and `pick_pieces_fuel` one call more than there are pieces that were not begun.
--
-- Not modelled: sockets, goroutines and the session's loop, disk and UPnP access, the terminal
-- interface, logging and JSON, which are input and output; the lookups of KAD, the credits of peers,
-- the text of a search, the pending blocks of a connection, and the state of the session.
-- Decompression by zlib, and the weight of a waiting time, which is a product of floats, are
-- parameters. The number of slots is a quotient of two settings, which is taken to be exact before
-- it is rounded, as it is for settings below 2^26. The store of the upload queue has no nil client.
pub mod Common
pub mod Geometry
pub mod BitField
pub mod Picker
pub mod Storage
pub mod Peers
pub mod Kad
pub mod Reconnect
pub mod Wire
pub mod Connection
pub mod Upload
pub mod Statistics
