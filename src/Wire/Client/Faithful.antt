-- ===== src/Wire/Client/Faithful.antt =====
-- The packets between clients keep the promises of their formats.
use goed2k.Common.{
  ℕ, ◌*◌, ◌%◌, ◌^◌, ◌<◌, ◌≤◌, ◌≡◌, refl, List, [], ◌∷◌, ◌++◌, append_assoc, length, length-append,
  All, arith,
}
use goed2k.Wire.{ok, IsFaithful, IsFaithfulBelow}
use goed2k.Wire.Basic.{write_le, read_byte, Hash, Endpoint, write_endpoint}
use goed2k.Wire.RoundTrip.{
  read_uint16-write, read_uint32-write, read_hash-write, length-write_le, read_endpoint-write,
}
use goed2k.Wire.Tag.{SimpleTag, put_tag_list}
use goed2k.Wire.Tag.RoundTrip.{IsTag}
use goed2k.Wire.Tag.Lists.{get_tag_list-put, length-put_tag_list, announced}
use goed2k.Wire.Header.{put_container, container-IsFaithful}
use goed2k.Wire.Client.{
  HelloAnswer, get_hello_answer, put_hello_answer, hello_answer_format, Hello, get_hello, put_hello,
  hello_format, ExtendedHandshake, get_extended_handshake, put_extended_handshake,
  extended_handshake_format, hash_format, FileAnswer, get_file_answer, put_file_answer,
  file_answer_format, HashSetAnswer, get_hashes, put_hashes, get_hash_set_answer,
  put_hash_set_answer, hash_set_answer_format, QueueRanking, get_queue_ranking, put_queue_ranking,
  queue_ranking_format,
}

pub record IsEndpoint (e : Endpoint) : Type 0 where
  pub ip : e.ip < 2 ^ 32
  pub port : e.port < 65536

pub record IsTagList (ts : List SimpleTag) : Type 0 where
  pub tags : All IsTag ts
  pub size : length ts < 2 ^ 32

pub record IsHelloAnswer (h : HelloAnswer) : Type 0 where
  pub hash : length h.hash ≡ 16
  pub point : IsEndpoint h.point
  pub properties : IsTagList h.properties
  pub server_point : IsEndpoint h.server_point

abbrev pub IsHello : Hello → Type 0
IsHello h = IsHelloAnswer h.answer

abbrev pub IsExtendedHandshake : ExtendedHandshake → Type 0
IsExtendedHandshake e = IsTagList e.properties

abbrev pub IsHash : Hash → Type 0
IsHash h = length h ≡ 16

pub record IsFileAnswer (f : FileAnswer) : Type 0 where
  pub hash : length f.hash ≡ 16
  pub name : length f.name ≤ 4096

pub record IsHashSetAnswer (h : HashSetAnswer) : Type 0 where
  pub hash : length h.hash ≡ 16
  pub parts : All IsHash h.parts
  pub size : length h.parts < 65536

pub record IsQueueRanking (q : QueueRanking) : Type 0 where
  pub rank : q.rank < 65536
  pub padding1 : q.padding1 < 2 ^ 32
  pub padding2 : q.padding2 < 2 ^ 32
  pub padding3 : q.padding3 < 65536

pub length-write_endpoint : (e : Endpoint) → length (write_endpoint e) ≡ 6
unfolding write_endpoint
length-write_endpoint e = refl

hello_answer_format-IsFaithful : IsFaithfulBelow (2 ^ 33) hello_answer_format IsHelloAnswer
unfolding get_hello_answer put_hello_answer
hello_answer_format-IsFaithful = record {
  round_trip = λ h rest v b.
      let p = write_endpoint h.point in
      let t = put_tag_list h.properties in
      let s = write_endpoint h.server_point in
      ground (
        arith,
        append_assoc h.hash (p ++ (t ++ s)) rest,
        append_assoc p (t ++ s) rest,
        append_assoc t s rest,
        read_hash-write h.hash ((p ++ (t ++ s)) ++ rest) v.hash,
        read_endpoint-write h.point ((t ++ s) ++ rest) v.point.ip v.point.port,
        get_tag_list-put h.properties (s ++ rest) v.properties.tags v.properties.size (
            omega (
              arith,
              b,
              length-append (h.hash ++ (p ++ (t ++ s))) rest,
              length-append h.hash (p ++ (t ++ s)),
              length-append p (t ++ s),
              length-append t s,
              length-append t (s ++ rest),
              length-append s rest,
            )),
        read_endpoint-write h.server_point rest v.server_point.ip v.server_point.port,
      );
  sized = λ h v.
      let p = write_endpoint h.point in
      let t = put_tag_list h.properties in
      let s = write_endpoint h.server_point in
      omega (
        arith,
        v.hash,
        length-append h.hash (p ++ (t ++ s)),
        length-append p (t ++ s),
        length-append t s,
        length-write_endpoint h.point,
        length-write_endpoint h.server_point,
        length-put_tag_list h.properties v.properties.tags,
      );
}

hello_format-IsFaithful : IsFaithfulBelow (2 ^ 33) hello_format IsHello
unfolding get_hello put_hello
hello_format-IsFaithful = record {
  round_trip = λ h rest v b.
      ground (arith, hello_answer_format-IsFaithful.round_trip h.answer rest v (omega (arith, b)));
  sized = λ h v. omega (arith, hello_answer_format-IsFaithful.sized h.answer v);
}

extended_handshake_format-IsFaithful :
    IsFaithfulBelow (2 ^ 33) extended_handshake_format IsExtendedHandshake
unfolding get_extended_handshake put_extended_handshake read_byte
extended_handshake_format-IsFaithful = record {
  round_trip = λ e rest v b. ground (
    arith,
    get_tag_list-put e.properties rest v.tags v.size (omega (arith, b)),
    length-append (put_tag_list e.properties) rest,
    length-put_tag_list e.properties v.tags,
    announced e.properties,
  );
  sized = λ e v. omega (arith, length-put_tag_list e.properties v.tags);
}

pub hash_format-IsFaithful : IsFaithful hash_format IsHash
hash_format-IsFaithful = record {
  round_trip = λ h rest v. read_hash-write h rest v;
  sized = λ h v. v;
}

file_answer_format-IsFaithful : IsFaithful file_answer_format IsFileAnswer
unfolding get_file_answer put_file_answer
file_answer_format-IsFaithful = record {
  round_trip = λ f rest v. ground (
    arith,
    append_assoc f.hash (put_container f.name) rest,
    read_hash-write f.hash (put_container f.name ++ rest) v.hash,
    container-IsFaithful.round_trip f.name rest v.name,
  );
  sized = λ f v. omega (
    arith,
    v.hash,
    length-append f.hash (put_container f.name),
    container-IsFaithful.sized f.name v.name,
  );
}

get_hashes-put :
    (hs : List Hash) (rest : List ℕ)
    → All IsHash hs
    → get_hashes (length hs) (put_hashes hs ++ rest) ≡ ok (hs, rest)
unfolding get_hashes put_hashes
get_hashes-put [] rest a = refl
get_hashes-put (h ∷ hs) rest a = ground (
  arith,
  append_assoc h (put_hashes hs) rest,
  read_hash-write h (put_hashes hs ++ rest) a.0,
  get_hashes-put hs rest a.1,
)

length-put_hashes : (hs : List Hash) → All IsHash hs → length (put_hashes hs) ≡ length hs * 16
unfolding put_hashes
length-put_hashes [] a = refl
length-put_hashes (h ∷ hs) a =
    omega (arith, a.0, length-append h (put_hashes hs), length-put_hashes hs a.1)

hash_set_answer_format-IsFaithful : IsFaithful hash_set_answer_format IsHashSetAnswer
unfolding get_hash_set_answer put_hash_set_answer
hash_set_answer_format-IsFaithful = record {
  round_trip = λ h rest v.
      let n = write_le 2 (length h.parts) in
      let hs = put_hashes h.parts in
      ground (
        arith,
        v.size,
        append_assoc h.hash (n ++ hs) rest,
        append_assoc n hs rest,
        read_hash-write h.hash ((n ++ hs) ++ rest) v.hash,
        read_uint16-write (length h.parts) (hs ++ rest) v.size,
        get_hashes-put h.parts rest v.parts,
      );
  sized = λ h v.
      let n = write_le 2 (length h.parts % 65536) in
      let hs = put_hashes h.parts in
      omega (
        arith,
        v.hash,
        length-append h.hash (n ++ hs),
        length-append n hs,
        length-write_le 2 (length h.parts % 65536),
        length-put_hashes h.parts v.parts,
      );
}

queue_ranking_format-IsFaithful : IsFaithful queue_ranking_format IsQueueRanking
unfolding get_queue_ranking put_queue_ranking
queue_ranking_format-IsFaithful = record {
  round_trip = λ q rest v.
      let a = write_le 2 q.rank in
      let b = write_le 4 q.padding1 in
      let c = write_le 4 q.padding2 in
      let d = write_le 2 q.padding3 in
      ground (
        arith,
        append_assoc a (b ++ (c ++ d)) rest,
        append_assoc b (c ++ d) rest,
        append_assoc c d rest,
        length-append b ((c ++ d) ++ rest),
        length-append c (d ++ rest),
        length-append d rest,
        length-write_le 4 q.padding1,
        length-write_le 4 q.padding2,
        length-write_le 2 q.padding3,
        read_uint16-write q.rank ((b ++ (c ++ d)) ++ rest) v.rank,
        read_uint32-write q.padding1 ((c ++ d) ++ rest) v.padding1,
        read_uint32-write q.padding2 (d ++ rest) v.padding2,
        read_uint16-write q.padding3 rest v.padding3,
      );
  sized = λ q v.
      let a = write_le 2 q.rank in
      let b = write_le 4 q.padding1 in
      let c = write_le 4 q.padding2 in
      let d = write_le 2 q.padding3 in
      omega (
        arith,
        length-append a (b ++ (c ++ d)),
        length-append b (c ++ d),
        length-append c d,
        length-write_le 2 q.rank,
        length-write_le 4 q.padding1,
        length-write_le 4 q.padding2,
        length-write_le 2 q.padding3,
      );
}

-- HelloAnswer, Hello, ExtendedHandshake, the packets of one hash, FileAnswer, HashSetAnswer and
-- QueueRanking, with values that fit, are read back by Get as Put wrote them, what follows is
-- left, and BytesCount is the number of bytes that Put writes; the reading of the first three,
-- which hold a list of tags, is for inputs of fewer than 2^33 bytes.
pub client_packets-IsFaithful :
    IsFaithfulBelow (2 ^ 33) hello_answer_format IsHelloAnswer
    × IsFaithfulBelow (2 ^ 33) hello_format IsHello
    × IsFaithfulBelow (2 ^ 33) extended_handshake_format IsExtendedHandshake
    × IsFaithful hash_format IsHash
    × IsFaithful file_answer_format IsFileAnswer
    × IsFaithful hash_set_answer_format IsHashSetAnswer
    × IsFaithful queue_ranking_format IsQueueRanking
client_packets-IsFaithful = (
  hello_answer_format-IsFaithful, hello_format-IsFaithful, extended_handshake_format-IsFaithful,
  hash_format-IsFaithful, file_answer_format-IsFaithful, hash_set_answer_format-IsFaithful,
  queue_ranking_format-IsFaithful,
)
