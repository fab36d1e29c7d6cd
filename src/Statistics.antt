-- ===== src/Statistics.antt =====
-- The rates of the program: stat_channel.go, statistics.go, and speed_monitor.go (Statistics/Monitor).
-- Counts of bytes and samples are natural numbers; all of them are sums that stay far below 2^63.
pub mod Monitor
pub mod Rates
mod Examples
use goed2k.Common.{
  Option, none, some, true, false, ◌==◌, if◌then◌else◌, ℕ, zero, suc, ◌+◌, ◌*◌, ◌/◌, List, [], ◌∷◌,
  take,
}

pub record StatChannel : Type 0 where
  pub second_counter : ℕ
  pub total_counter : ℕ
  pub average5_sec : ℕ
  pub average30_sec : ℕ
  pub samples : List ℕ

abbrev pub new_stat_channel : StatChannel
new_stat_channel = record {
  second_counter = 0;
  total_counter = 0;
  average5_sec = 0;
  average30_sec = 0;
  samples = 0 ∷ 0 ∷ 0 ∷ 0 ∷ 0 ∷ [];
}

unfoldable pub add : ℕ → StatChannel → StatChannel
add count s = record s {
  second_counter = s.second_counter + count;
  total_counter = s.total_counter + count;
}

unfoldable pub clear_channel : StatChannel → StatChannel
clear_channel s = new_stat_channel

unfoldable pub add_channel : StatChannel → StatChannel → StatChannel
add_channel other s = record s {
  second_counter = s.second_counter + other.second_counter;
  total_counter = s.total_counter + other.total_counter;
}

unfoldable pub merge_channel : StatChannel → StatChannel → StatChannel
merge_channel other s = record (add_channel other s) {
  average5_sec = s.average5_sec + other.average5_sec;
  average30_sec = s.average30_sec + other.average30_sec;
}

abbrev pub sum : List ℕ → ℕ
sum [] = 0
sum (x ∷ xs) = x + sum xs

abbrev pub ticked_channel : ℕ → StatChannel → StatChannel
ticked_channel interval s =
    let sample : ℕ = s.second_counter * 1000 / interval in
    let samples : List ℕ = take 5 (sample ∷ s.samples) in
    record s {
      samples = samples;
      average5_sec = sum samples / 5;
      average30_sec = s.average30_sec * 29 / 30 + sample / 30;
      second_counter = 0;
    }

-- A division by an interval of 0 is a panic.
unfoldable pub second_tick : ℕ → StatChannel → Option StatChannel
second_tick interval s = if interval == 0 then none else some (ticked_channel interval s)

-- The four channels by name.
pub record Statistics : Type 0 where
  pub upload_payload : StatChannel
  pub upload_protocol : StatChannel
  pub download_payload : StatChannel
  pub download_protocol : StatChannel

abbrev pub new_statistics : Statistics
new_statistics = record {
  upload_payload = new_stat_channel;
  upload_protocol = new_stat_channel;
  download_payload = new_stat_channel;
  download_protocol = new_stat_channel;
}

abbrev both : (StatChannel → StatChannel → StatChannel) → Statistics → Statistics → Statistics
both f other s = record {
  upload_payload = f other.upload_payload s.upload_payload;
  upload_protocol = f other.upload_protocol s.upload_protocol;
  download_payload = f other.download_payload s.download_payload;
  download_protocol = f other.download_protocol s.download_protocol;
}

abbrev each : (StatChannel → StatChannel) → Statistics → Statistics
each f s = both (λ other. f) s s

unfoldable pub add_statistics : Statistics → Statistics → Statistics
add_statistics other s = both add_channel other s

unfoldable pub merge_statistics : Statistics → Statistics → Statistics
merge_statistics other s = both merge_channel other s

unfoldable pub tick_statistics : ℕ → Statistics → Option Statistics
unfolding second_tick
tick_statistics interval s = elim (second_tick interval s.upload_payload) [
  | none ↦ none
  | some a ↦ elim (second_tick interval s.upload_protocol) [
    | none ↦ none
    | some b ↦ elim (second_tick interval s.download_payload) [
      | none ↦ none
      | some c ↦ elim (second_tick interval s.download_protocol) [
        | none ↦ none
        | some d ↦ some (record {
          upload_payload = a;
          upload_protocol = b;
          download_payload = c;
          download_protocol = d;
        })
      ]
    ]
  ]
]

unfoldable pub clear_statistics : Statistics → Statistics
clear_statistics s = each clear_channel s

unfoldable pub receive_bytes : ℕ → ℕ → Statistics → Statistics
receive_bytes protocol payload s = record s {
  download_protocol = add protocol s.download_protocol;
  download_payload = add payload s.download_payload;
}

unfoldable pub send_bytes : ℕ → ℕ → Statistics → Statistics
send_bytes protocol payload s = record s {
  upload_protocol = add protocol s.upload_protocol;
  upload_payload = add payload s.upload_payload;
}

unfoldable pub total_payload_download : Statistics → ℕ
total_payload_download s = s.download_payload.total_counter

unfoldable pub total_protocol_download : Statistics → ℕ
total_protocol_download s = s.download_protocol.total_counter

unfoldable pub total_payload_upload : Statistics → ℕ
total_payload_upload s = s.upload_payload.total_counter

unfoldable pub total_protocol_upload : Statistics → ℕ
total_protocol_upload s = s.upload_protocol.total_counter

unfoldable pub total_upload : Statistics → ℕ
total_upload s = s.upload_payload.total_counter + s.upload_protocol.total_counter

unfoldable pub last_download : Statistics → ℕ
last_download s = s.download_payload.second_counter + s.download_protocol.second_counter

unfoldable pub last_upload : Statistics → ℕ
last_upload s = s.upload_payload.second_counter + s.upload_protocol.second_counter

unfoldable pub download_rate : Statistics → ℕ
download_rate s = s.download_payload.average5_sec + s.download_protocol.average5_sec

unfoldable pub download_payload_rate : Statistics → ℕ
download_payload_rate s = s.download_payload.average5_sec

unfoldable pub upload_rate : Statistics → ℕ
upload_rate s = s.upload_payload.average5_sec + s.upload_protocol.average5_sec

unfoldable pub upload_payload_rate : Statistics → ℕ
upload_payload_rate s = s.upload_payload.average5_sec

unfoldable pub low_pass_upload_rate : Statistics → ℕ
low_pass_upload_rate s = s.upload_payload.average30_sec + s.upload_protocol.average30_sec

unfoldable pub low_pass_download_rate : Statistics → ℕ
low_pass_download_rate s = s.download_payload.average30_sec + s.download_protocol.average30_sec
