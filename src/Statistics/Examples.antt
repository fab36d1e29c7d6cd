-- ===== src/Statistics/Examples.antt =====
-- The rates at concrete inputs.
use goed2k.Common.{ℕ, Option, none, some, ◌+◌, ◌≡◌, refl, List, [], ◌∷◌, arith}
use goed2k.Common.Int.{pos, negsuc}
use goed2k.Statistics.{
  Statistics, new_statistics, add, second_tick, tick_statistics, receive_bytes, send_bytes,
  total_upload, total_payload_upload, total_protocol_upload, total_payload_download,
  total_protocol_download, last_upload, last_download, upload_rate,
}
use goed2k.Statistics.Monitor.{new_speed_monitor, add_sample, add_samples, average_speed}
use goed2k.Statistics.Monitor.Recent.{latest, average, average_speed-latest}
use goed2k.Statistics.Rates.{
  Event, received, sent, ticked, step, run_events, all_bytes, payload_sent, protocol_sent,
  payload_received, protocol_received, since_tick, run_events-Counted,
}

averages :
    (average_speed (add_samples (10 ∷ 20 ∷ 30 ∷ 40 ∷ []) (new_speed_monitor 3)) ≡ pos 30)
    × (average_speed (new_speed_monitor 3) ≡ negsuc 0)
unfolding average_speed add_samples add_sample new_speed_monitor
averages = (refl, refl)

average_speed-latest_example :
    average_speed (add_samples (10 ∷ 20 ∷ 30 ∷ 40 ∷ []) (new_speed_monitor 3))
    ≡ average (latest 3 (10 ∷ 20 ∷ 30 ∷ 40 ∷ []))
average_speed-latest_example = average_speed-latest 3 (10 ∷ 20 ∷ 30 ∷ 40 ∷ []) (omega arith)

abbrev a_second : List Event
a_second = sent 100 5000 ∷ received 10 200 ∷ ticked 1000 ∷ sent 1 2 ∷ []

rate_of : Option Statistics → Option ℕ
rate_of none = none
rate_of (some s) = some (upload_rate s)

rates :
    (rate_of (run_events a_second new_statistics) ≡ some 1020)
    × (rate_of (run_events (ticked 0 ∷ []) new_statistics) ≡ none)
unfolding rate_of run_events step send_bytes receive_bytes tick_statistics second_tick add
    upload_rate
rates = (refl, refl)

run_events-Counted_example :
    (r : Statistics) × (run_events a_second new_statistics ≡ some r)
    × (total_payload_upload r ≡ all_bytes payload_sent a_second)
    × (total_protocol_upload r ≡ all_bytes protocol_sent a_second)
    × (total_payload_download r ≡ all_bytes payload_received a_second)
    × (total_protocol_download r ≡ all_bytes protocol_received a_second)
    × (total_upload r ≡ all_bytes payload_sent a_second + all_bytes protocol_sent a_second)
    × (last_upload r ≡ since_tick payload_sent 0 a_second + since_tick protocol_sent 0 a_second)
    × (last_download r
        ≡ since_tick payload_received 0 a_second + since_tick protocol_received 0 a_second)
run_events-Counted_example = run_events-Counted a_second (tt, (tt, (omega arith, (tt, tt))))
