-- ===== src/Statistics/Rates.antt =====
-- What the counters and rates of the statistics are after any history of transfers and ticks.
use goed2k.Common.{ℕ, ◌+◌, ◌<◌, ◌≡◌, ◌∙◌, ap, refl, List, [], ◌∷◌, Option, none, some, All, arith}
use goed2k.Statistics.{
  StatChannel, add, ticked_channel, second_tick, Statistics, new_statistics, tick_statistics,
  receive_bytes, send_bytes, total_upload, total_payload_upload, total_protocol_upload,
  total_payload_download, total_protocol_download, last_upload, last_download,
}

-- Protocol bytes first, then payload.
pub data Event : Type 0 where
  received sent : ℕ → ℕ → Event
  ticked : ℕ → Event

unfoldable pub step : Event → Statistics → Option Statistics
step (received protocol payload) s = some (receive_bytes protocol payload s)
step (sent protocol payload) s = some (send_bytes protocol payload s)
step (ticked interval) s = tick_statistics interval s

unfoldable pub run_events : List Event → Statistics → Option Statistics
run_events [] s = some s
run_events (e ∷ es) s = elim (step e s) [ none ↦ none | some s' ↦ run_events es s' ]

-- What an event adds to each of the four channels.
abbrev pub payload_sent : Event → ℕ
payload_sent (sent protocol payload) = payload
payload_sent _ = 0

abbrev pub protocol_sent : Event → ℕ
protocol_sent (sent protocol payload) = protocol
protocol_sent _ = 0

abbrev pub payload_received : Event → ℕ
payload_received (received protocol payload) = payload
payload_received _ = 0

abbrev pub protocol_received : Event → ℕ
protocol_received (received protocol payload) = protocol
protocol_received _ = 0

abbrev pub all_bytes : (Event → ℕ) → List Event → ℕ
all_bytes f [] = 0
all_bytes f (e ∷ es) = f e + all_bytes f es

-- What one event leaves of the counter of the second.
abbrev after_step : (Event → ℕ) → ℕ → Event → ℕ
after_step f n (ticked interval) = 0
after_step f n (received protocol payload) = n + f (received protocol payload)
after_step f n (sent protocol payload) = n + f (sent protocol payload)

-- Only what was counted after the last tick, on top of what was there.
abbrev pub since_tick : (Event → ℕ) → ℕ → List Event → ℕ
since_tick f n [] = n
since_tick f n (e ∷ es) = since_tick f (after_step f n e) es

-- A tick is after some time.
abbrev pub Ticks : Event → Type 0
Ticks (ticked interval) = 0 < interval
Ticks _ = Unit {0}

-- The two counters of one channel.
abbrev pub Counts : (Event → ℕ) → List Event → StatChannel → StatChannel → Type 0
Counts f es c d =
    (d.total_counter ≡ c.total_counter + all_bytes f es)
    × (d.second_counter ≡ since_tick f c.second_counter es)

abbrev pub Counted : List Event → Statistics → Statistics → Type 0
Counted es s r =
    Counts payload_sent es s.upload_payload r.upload_payload
    × Counts protocol_sent es s.upload_protocol r.upload_protocol
    × Counts payload_received es s.download_payload r.download_payload
    × Counts protocol_received es s.download_protocol r.download_protocol

abbrev Stepped : (Event → ℕ) → Event → StatChannel → StatChannel → Type 0
Stepped f e c d =
    (d.total_counter ≡ c.total_counter + f e) × (d.second_counter ≡ after_step f c.second_counter e)

second_tick-after :
    (interval : ℕ) (c : StatChannel)
    → 0 < interval
    → second_tick interval c ≡ some (ticked_channel interval c)
unfolding second_tick
second_tick-after interval c h = ground (arith, h)

step_lem :
    (e : Event) (s : Statistics)
    → Ticks e
    → (r : Statistics) × (step e s ≡ some r)
      × Stepped payload_sent e s.upload_payload r.upload_payload
      × Stepped protocol_sent e s.upload_protocol r.upload_protocol
      × Stepped payload_received e s.download_payload r.download_payload
      × Stepped protocol_received e s.download_protocol r.download_protocol
unfolding step receive_bytes send_bytes tick_statistics add
step_lem (received protocol payload) s h = (
  receive_bytes protocol payload s,
  refl,
  (omega arith, omega arith),
  (omega arith, omega arith),
  (omega arith, omega arith),
  (omega arith, omega arith),
)
step_lem (sent protocol payload) s h = (
  send_bytes protocol payload s,
  refl,
  (omega arith, omega arith),
  (omega arith, omega arith),
  (omega arith, omega arith),
  (omega arith, omega arith),
)
step_lem (ticked interval) s h = (
  record {
    upload_payload = ticked_channel interval s.upload_payload;
    upload_protocol = ticked_channel interval s.upload_protocol;
    download_payload = ticked_channel interval s.download_payload;
    download_protocol = ticked_channel interval s.download_protocol;
  },
  rw
      (
        step,
        tick_statistics,
        second_tick-after interval s.upload_payload h,
        second_tick-after interval s.upload_protocol h,
        second_tick-after interval s.download_payload h,
        second_tick-after interval s.download_protocol h,
      )
      refl,
  (omega arith, refl),
  (omega arith, refl),
  (omega arith, refl),
  (omega arith, refl),
)

Counts-step :
    (f : Event → ℕ) (e : Event) (es : List Event) (c d r : StatChannel)
    → Stepped f e c d
    → Counts f es d r
    → Counts f (e ∷ es) c r
Counts-step f e es c d r s h =
    (omega (arith, s.0, h.0), h.1 ∙ ap (λ (n : ℕ). since_tick f n es) s.1)

run_from-Counted :
    (es : List Event) (s : Statistics)
    → All Ticks es
    → (r : Statistics) × (run_events es s ≡ some r) × Counted es s r
unfolding run_events
run_from-Counted [] s h =
    (s, refl, ((omega arith, refl), (omega arith, refl), (omega arith, refl), (omega arith, refl)))
run_from-Counted (e ∷ es) s h =
    let (d, q, a, b, c, f) = step_lem e s h.0 in
    let (r, q', k) = run_from-Counted es d h.1 in
    let (a', b', c', f') = k in
    (
      r,
      rw (run_events, q) q',
      (
        Counts-step payload_sent e es s.upload_payload d.upload_payload r.upload_payload a a',
        Counts-step protocol_sent e es s.upload_protocol d.upload_protocol r.upload_protocol b b',
        Counts-step payload_received e es s.download_payload d.download_payload r.download_payload c
            c',
        Counts-step protocol_received e es s.download_protocol d.download_protocol
            r.download_protocol f f',
      ),
    )

-- From new statistics, any sequence of received bytes, sent bytes and ticks, no tick after an
-- interval of 0, leads without a panic to statistics in which each of the four totals (payload
-- and protocol, sent and received) is the sum of just those bytes, the total upload is that of
-- the payload and the protocol sent, and the last upload and the last download are the bytes of
-- both kinds since the last tick.
pub run_events-Counted :
    (es : List Event)
    → All Ticks es
    → (r : Statistics) × (run_events es new_statistics ≡ some r)
      × (total_payload_upload r ≡ all_bytes payload_sent es)
      × (total_protocol_upload r ≡ all_bytes protocol_sent es)
      × (total_payload_download r ≡ all_bytes payload_received es)
      × (total_protocol_download r ≡ all_bytes protocol_received es)
      × (total_upload r ≡ all_bytes payload_sent es + all_bytes protocol_sent es)
      × (last_upload r ≡ since_tick payload_sent 0 es + since_tick protocol_sent 0 es)
      × (last_download r ≡ since_tick payload_received 0 es + since_tick protocol_received 0 es)
unfolding total_upload total_payload_upload total_protocol_upload total_payload_download
    total_protocol_download last_upload last_download
run_events-Counted es h =
    let (r, q, k) = run_from-Counted es new_statistics h in
    let (a, b, c, d) = k in
    (
      r,
      q,
      omega (arith, a.0),
      omega (arith, b.0),
      omega (arith, c.0),
      omega (arith, d.0),
      omega (arith, a.0, b.0),
      omega (arith, a.1, b.1),
      omega (arith, c.1, d.1),
    )
