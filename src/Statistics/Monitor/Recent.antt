-- ===== src/Statistics/Monitor/Recent.antt =====
-- The average of a monitor is that of the latest samples.
use goed2k.Common.{
  ℕ, zero, suc, ◌+◌, ◌-◌, ◌/◌, ◌≤◌, ◌<◌, ◌≡◌, ◌⊎◌, inl, inr, refl, sym, ap, ◌∙◌, List, [], ◌∷◌,
  ◌++◌, append-nil, append_assoc, length, length-append, length-set, length-take, length-drop,
  length-replicate, set, take, drop, take-drop, true, false, Bool-cases, ltb, ◌==◌, if◌then◌else◌,
  arith,
}
use goed2k.Common.Int.{ℤ, pos, negsuc}
use goed2k.Statistics.{sum}
use goed2k.Statistics.Monitor.{
  SpeedMonitor, new_speed_monitor, next_slot, add_sample, average_speed, add_samples,
}

-- At most `n` elements, the latest ones.
abbrev pub latest : ℕ → List ℕ → List ℕ
latest n xs = drop (length xs - n) xs

abbrev pub average : List ℕ → ℤ
average [] = negsuc 0
average (x ∷ xs) = pos (sum (x ∷ xs) / length (x ∷ xs))

drop-append_le : (k : ℕ) (xs ys : List ℕ) → k ≤ length xs → drop k (xs ++ ys) ≡ drop k xs ++ ys
drop-append_le zero xs ys h = refl
drop-append_le (suc k) [] ys h = absurd (omega (arith, h))
drop-append_le (suc k) (x ∷ xs) ys h = drop-append_le k xs ys (omega (arith, h))

drop-suc : (k : ℕ) (xs : List ℕ) → drop (suc k) xs ≡ drop 1 (drop k xs)
drop-suc zero xs = refl
drop-suc (suc k) [] = refl
drop-suc (suc k) (x ∷ xs) = drop-suc k xs

drop-length : (xs : List ℕ) → drop (length xs) xs ≡ []
drop-length [] = refl
drop-length (x ∷ xs) = drop-length xs

take-length : (xs : List ℕ) → take (length xs) xs ≡ xs
take-length [] = refl
take-length (x ∷ xs) = ap (◌∷◌ x) (take-length xs)

take-set : (i x : ℕ) (s : List ℕ) → i < length s → take (suc i) (set s i x) ≡ take i s ++ (x ∷ [])
take-set i x [] h = absurd (omega (arith, h))
take-set zero x (y ∷ s) h = refl
take-set (suc i) x (y ∷ s) h = ap (◌∷◌ y) (take-set i x s (omega (arith, h)))

drop-set : (i x : ℕ) (s : List ℕ) → drop (suc i) (set s i x) ≡ drop (suc i) s
drop-set i x [] = refl
drop-set zero x (y ∷ s) = refl
drop-set (suc i) x (y ∷ s) = drop-set i x s

sum-append : (xs ys : List ℕ) → sum (xs ++ ys) ≡ sum xs + sum ys
sum-append [] ys = omega arith
sum-append (x ∷ xs) ys = omega (arith, sum-append xs ys)

-- A bounded queue that drops its first element when it is full.
abbrev push : ℕ → List ℕ → ℕ → List ℕ
push n w x = if length w == n then drop 1 w ++ (x ∷ []) else w ++ (x ∷ [])

latest-push : (n x : ℕ) (xs : List ℕ) → 0 < n → latest n (xs ++ (x ∷ [])) ≡ push n (latest n xs) x
latest-push n x xs h = elim (Bool-cases (ltb (length xs) n)) [
  | inl few ↦
      let none_left : length xs - n ≡ 0 = ground (arith, few) in
      let none_left' : length (xs ++ (x ∷ [])) - n ≡ 0 =
        ground (arith, few, length-append xs (x ∷ [])) in
      let not_full : (length xs == n) ≡ false = ground (arith, few) in
      rw (none_left, none_left', not_full) refl
  | inr many ↦
      let k : ℕ = length xs - n in
      let one_more : length (xs ++ (x ∷ [])) - n ≡ suc k =
        ground (arith, many, length-append xs (x ∷ [])) in
      let full : (length (drop k xs) == n) ≡ true = ground (arith, many, length-drop k xs) in
      rw (one_more, full)
        (drop-append_le (suc k) xs (x ∷ []) (ground (arith, many, h))
          ∙ ap (λ (w : List ℕ). w ++ (x ∷ [])) (drop-suc k xs))
]

-- The samples of a monitor from the oldest to the latest: `Growing` until the ring is full.
record Growing (n : ℕ) (w : List ℕ) (s : SpeedMonitor) : Type 0 where
  size : length s.speed_samples ≡ n
  room : s.total_samples < n
  slot : s.round_robin ≡ s.total_samples
  window : take s.total_samples s.speed_samples ≡ w

record Full (n : ℕ) (w : List ℕ) (s : SpeedMonitor) : Type 0 where
  size : length s.speed_samples ≡ n
  total : s.total_samples ≡ n
  slot : s.round_robin ≤ n
  window : drop s.round_robin s.speed_samples ++ take s.round_robin s.speed_samples ≡ w

abbrev Shows : ℕ → List ℕ → SpeedMonitor → Type 0
Shows n w s = Growing n w s ⊎ Full n w s

-- The monitor after a sample at a slot of the ring.
abbrev at_slot : ℕ → ℕ → SpeedMonitor → SpeedMonitor
at_slot x i s = record {
  speed_samples = set s.speed_samples i x;
  round_robin = suc i;
  total_samples =
      if s.total_samples == length s.speed_samples then s.total_samples else suc s.total_samples;
}

one_more_lem : (n : ℕ) → n + 1 ≡ suc n
one_more_lem n = omega arith

add_sample-at_slot :
    (x i : ℕ) (s : SpeedMonitor)
    → next_slot s ≡ i
    → i < length s.speed_samples
    → add_sample x s ≡ at_slot x i s
unfolding add_sample
add_sample-at_slot x i s e h =
    let inside : ltb i (length s.speed_samples) ≡ true = ground (arith, h) in
    rw (e, inside, one_more_lem i, one_more_lem s.total_samples) refl

grow :
    (n x : ℕ) (w : List ℕ) (s : SpeedMonitor)
    → Growing n w s
    → Shows n (push n w x) (add_sample x s)
grow n x w s g =
    let t : ℕ = s.total_samples in
    let slot : next_slot s ≡ t = ground (arith, g.slot, g.room, g.size) in
    let inside : t < length s.speed_samples = omega (arith, g.room, g.size) in
    let s' : List ℕ = set s.speed_samples t x in
    let size : length s' ≡ n = length-set s.speed_samples t x ∙ g.size in
    let not_full : (t == length s.speed_samples) ≡ false = ground (arith, inside) in
    let few : (length w == n) ≡ false = ground (
      arith,
      ap (λ (v : List ℕ). length v) g.window,
      length-take t s.speed_samples,
      g.room,
      g.size,
    ) in
    let window : take (suc t) (set s.speed_samples t x) ≡ w ++ (x ∷ []) =
      take-set t x s.speed_samples inside ∙ ap (λ (v : List ℕ). v ++ (x ∷ [])) g.window in
    rw (add_sample-at_slot x t s slot inside, few)
      (elim (Bool-cases (suc t == n)) [
        | inl e ↦
            let last : suc t ≡ n = ground (arith, e) in
            inr (record {
              size = size;
              total = rw not_full last;
              slot = omega (arith, last);
              window =
                  ap (λ (v : List ℕ). v ++ take (suc t) s')
                    (ap (λ (k : ℕ). drop k s') (last ∙ sym size) ∙ drop-length s')
                  ∙ window;
            })
        | inr e ↦ inl (record {
          size = size;
          room = rw not_full (ground (arith, e, g.room));
          slot = rw not_full refl;
          window = rw not_full window;
        })
      ])

-- The slots behind a new sample, the slots before it, and the sample.
turned :
    (n x i : ℕ) (s : SpeedMonitor)
    → next_slot s ≡ i
    → i < n
    → length s.speed_samples ≡ n
    → s.total_samples ≡ n
    → Full n ((drop (suc i) s.speed_samples ++ take i s.speed_samples) ++ (x ∷ [])) (add_sample x s)
turned n x i s slot h size total =
    let inside : i < length s.speed_samples = omega (arith, h, size) in
    let full : (s.total_samples == length s.speed_samples) ≡ true = ground (arith, size, total) in
    rw (add_sample-at_slot x i s slot inside) (record {
      size = length-set s.speed_samples i x ∙ size;
      total = rw full total;
      slot = h;
      window =
          rw
            (
              drop-set i x s.speed_samples,
              take-set i x s.speed_samples inside,
              append_assoc (drop (suc i) s.speed_samples) (take i s.speed_samples) (x ∷ []),
            )
            refl;
    })

-- At the end of the ring the first slot is the oldest, elsewhere the next one is.
oldest_out :
    (n i : ℕ) (r : ℕ) (s : List ℕ)
    → 0 < n
    → length s ≡ n
    → r ≤ n
    → i ≡ (if r == n then 0 else r)
    → drop (suc i) s ++ take i s ≡ drop 1 (drop r s ++ take r s)
oldest_out n i r s h size l e = elim (Bool-cases (r == n)) [
  | inl q ↦
      let end : r ≡ length s = ground (arith, q, size) in
      let start : i ≡ 0 = ground (arith, q, e) in
      rw (start, end, drop-length s, take-length s) (append-nil (drop 1 s))
  | inr q ↦
      let same : i ≡ r = ground (arith, q, e) in
      let some_left : 1 ≤ length (drop r s) = ground (arith, q, length-drop r s, size, l) in
      rw (same) (
        ap (λ (v : List ℕ). v ++ take r s) (drop-suc r s)
        ∙ sym (drop-append_le 1 (drop r s) (take r s) some_left))
]

turn :
    (n x : ℕ) (w : List ℕ) (s : SpeedMonitor)
    → 0 < n
    → Full n w s
    → Shows n (push n w x) (add_sample x s)
turn n x w s h f =
    let i : ℕ = next_slot s in
    let e : i ≡ (if s.round_robin == n then 0 else s.round_robin) = rw f.size refl in
    let inside : i < n = ground (arith, e, f.slot, h) in
    let full : (length w == n) ≡ true = ground (
      arith,
      ap (λ (v : List ℕ). length v) f.window,
      length-append (drop s.round_robin s.speed_samples) (take s.round_robin s.speed_samples),
      length-drop s.round_robin s.speed_samples,
      length-take s.round_robin s.speed_samples,
      f.size,
      f.slot,
    ) in
    let moved : drop (suc i) s.speed_samples ++ take i s.speed_samples ≡ drop 1 w =
      oldest_out n i s.round_robin s.speed_samples h f.size f.slot e
      ∙ ap (λ (v : List ℕ). drop 1 v) f.window in
    rw full (inr (rw⁻¹ moved (turned n x i s refl inside f.size f.total)))

add_sample-Shows :
    (n x : ℕ) (w : List ℕ) (s : SpeedMonitor)
    → 0 < n
    → Shows n w s
    → Shows n (push n w x) (add_sample x s)
add_sample-Shows n x w s h (inl g) = grow n x w s g
add_sample-Shows n x w s h (inr f) = turn n x w s h f

add_samples-Shows :
    (n : ℕ) (seen xs : List ℕ) (s : SpeedMonitor)
    → 0 < n
    → Shows n (latest n seen) s
    → Shows n (latest n (seen ++ xs)) (add_samples xs s)
unfolding add_samples
add_samples-Shows n seen [] s h w = rw (append-nil seen) w
add_samples-Shows n seen (x ∷ xs) s h w =
    let next : Shows n (latest n (seen ++ (x ∷ []))) (add_sample x s) =
      rw (latest-push n x seen h) (add_sample-Shows n x (latest n seen) s h w) in
    rw⁻¹ (append_assoc seen (x ∷ []) xs)
      (add_samples-Shows n (seen ++ (x ∷ [])) xs (add_sample x s) h next)

new_speed_monitor-Shows : (n : ℕ) → 0 < n → Shows n (latest n []) (new_speed_monitor n)
unfolding new_speed_monitor
new_speed_monitor-Shows n h =
    let nothing : 0 - n ≡ 0 = omega arith in
    rw nothing (inl (record { size = length-replicate n 0; room = h; slot = refl; window = refl }))

average_lem :
    (w : List ℕ) (k : ℕ) → length w ≡ k → average w ≡ (if k == 0 then negsuc 0 else pos (sum w / k))
average_lem [] k h = ground (arith, h)
average_lem (x ∷ xs) k h = rw⁻¹ h (ground arith)

Growing-average :
    (n : ℕ) (w : List ℕ) (s : SpeedMonitor) → Growing n w s → average_speed s ≡ average w
unfolding average_speed
Growing-average n w s g =
    let size : length w ≡ s.total_samples = ground (
      arith,
      ap (λ (v : List ℕ). length v) g.window,
      length-take s.total_samples s.speed_samples,
      g.room,
      g.size,
    ) in
    rw (g.window) (sym (average_lem w s.total_samples size))

Full-average : (n : ℕ) (w : List ℕ) (s : SpeedMonitor) → Full n w s → average_speed s ≡ average w
unfolding average_speed
Full-average n w s f =
    let a = drop s.round_robin s.speed_samples in
    let b = take s.round_robin s.speed_samples in
    let size : length w ≡ n = ground (
      arith,
      ap (λ (v : List ℕ). length v) f.window,
      length-append a b,
      length-drop s.round_robin s.speed_samples,
      length-take s.round_robin s.speed_samples,
      f.size,
      f.slot,
    ) in
    let all : take n s.speed_samples ≡ s.speed_samples =
      ap (λ (k : ℕ). take k s.speed_samples) (sym f.size) ∙ take-length s.speed_samples in
    let total : sum s.speed_samples ≡ sum w = omega (
      arith,
      ap (λ (v : List ℕ). sum v) (take-drop s.round_robin s.speed_samples),
      sum-append b a,
      sum-append a b,
      ap (λ (v : List ℕ). sum v) f.window,
    ) in
    rw (f.total, all, total) (sym (average_lem w n size))

-- A speed monitor for n samples, not 0, that takes any samples, gives as average the sum of the
-- latest n of them, or of all if they are fewer, over their number, and -1 if there were none.
pub average_speed-latest :
    (n : ℕ) (xs : List ℕ)
    → 0 < n
    → average_speed (add_samples xs (new_speed_monitor n)) ≡ average (latest n xs)
average_speed-latest n xs h =
    elim (add_samples-Shows n [] xs (new_speed_monitor n) h (new_speed_monitor-Shows n h)) [
      | inl g ↦ Growing-average n (latest n xs) _ g
      | inr f ↦ Full-average n (latest n xs) _ f
    ]
