-- ===== src/Statistics/Monitor.antt =====
-- speed_monitor.go: the average of the latest samples, in a ring.
pub mod Recent
use goed2k.Common.{
  ℕ, zero, suc, ◌+◌, ◌/◌, List, [], ◌∷◌, length, set, take, replicate, true, false, not, ltb, ◌==◌,
  if◌then◌else◌,
}
use goed2k.Common.Int.{ℤ, pos, negsuc}
use goed2k.Statistics.{sum}

pub record SpeedMonitor : Type 0 where
  pub speed_samples : List ℕ
  pub round_robin : ℕ
  pub total_samples : ℕ

unfoldable pub new_speed_monitor : ℕ → SpeedMonitor
new_speed_monitor limit = record {
  speed_samples = replicate limit 0;
  round_robin = 0;
  total_samples = 0;
}

-- Where the next sample goes.
abbrev pub next_slot : SpeedMonitor → ℕ
next_slot s = if s.round_robin == length s.speed_samples then 0 else s.round_robin

unfoldable pub add_sample : ℕ → SpeedMonitor → SpeedMonitor
add_sample sample s =
    let n = length s.speed_samples in
    record {
      speed_samples =
          if ltb (next_slot s) n then set s.speed_samples (next_slot s) sample else s.speed_samples;
      round_robin = if ltb (next_slot s) n then next_slot s + 1 else next_slot s;
      total_samples = if s.total_samples == n then s.total_samples else s.total_samples + 1;
    }

-- -1 is the speed of a monitor with no samples.
unfoldable pub average_speed : SpeedMonitor → ℤ
average_speed s =
    if s.total_samples == 0
    then negsuc 0
    else pos (sum (take s.total_samples s.speed_samples) / s.total_samples)

unfoldable pub clear : SpeedMonitor → SpeedMonitor
clear s = record s { round_robin = 0; total_samples = 0 }

unfoldable pub add_samples : List ℕ → SpeedMonitor → SpeedMonitor
add_samples [] s = s
add_samples (x ∷ xs) s = add_samples xs (add_sample x s)
