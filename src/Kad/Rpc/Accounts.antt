-- ===== src/Kad/Rpc/Accounts.antt =====
-- Each request is answered, given up or still waiting, and reported late at most once.
use goed2k.Common.{
  none-ne-some, some-eq, ℕ, ◌+◌, ◌≤◌, ◌≡◌, ap, List, [], ◌∷◌, ◌++◌, Option, none, some, ◌==◌,
  if◌then◌else◌, arith, Bool-cases, Option-cases, inl, inr,
}
use goed2k.Kad.{KadId}
use goed2k.Kad.Rpc.{
  Transaction, RpcManager, new_rpc_manager, invoke, is_answer, take_answered, incoming, tick_all,
  tick,
}

-- How many transactions are of an observer.
abbrev one : ℕ → Transaction → ℕ
one k tx = if tx.observer == k then 1 else 0

unfoldable pub of_observer : ℕ → List Transaction → ℕ
of_observer k [] = 0
of_observer k (tx ∷ txs) = one k tx + of_observer k txs

-- Those that were not reported late yet.
unfoldable pub punctual : ℕ → List Transaction → ℕ
punctual k [] = 0
punctual k (tx ∷ txs) = (if tx.short_timed then 0 else one k tx) + punctual k txs

pub data Event : Type 0 where
  invoked : ℕ → Transaction → Event
  received : Option ℕ → ℕ → Option KadId → Event
  ticked : ℕ → Event

-- Those of an observer that were reported late, given up, and taken out by an answer.
pub record Tally : Type 0 where
  pub late : ℕ
  pub given_up : ℕ
  pub answered : ℕ

abbrev single : ℕ → Option Transaction → ℕ
single k none = 0
single k (some tx) = if tx.multi then 0 else one k tx

unfoldable pub run_event : ℕ → RpcManager → Event → RpcManager × Tally
unfolding invoke incoming tick of_observer
run_event k m (invoked now tx) = (invoke now m tx, record { late = 0; given_up = 0; answered = 0 })
run_event k m (received addr opcode target) =
    let (m', tx) = incoming m addr opcode target in
    (m', record { late = 0; given_up = 0; answered = single k tx })
run_event k m (ticked now) =
    let (m', t) = tick now m in
    (
      m',
      record {
        late = of_observer k t.short_timed;
        given_up = of_observer k t.expired;
        answered = 0;
      },
    )

abbrev new_of : ℕ → Event → ℕ
new_of k (invoked now tx) = one k tx
new_of k (received addr opcode target) = 0
new_of k (ticked now) = 0

of_observer-append :
    (k : ℕ) (xs ys : List Transaction)
    → of_observer k (xs ++ ys) ≡ of_observer k xs + of_observer k ys
unfolding of_observer
of_observer-append k [] ys = omega arith
of_observer-append k (x ∷ xs) ys = omega (arith, of_observer-append k xs ys)

punctual-append :
    (k : ℕ) (xs ys : List Transaction) → punctual k (xs ++ ys) ≡ punctual k xs + punctual k ys
unfolding punctual
punctual-append k [] ys = omega arith
punctual-append k (x ∷ xs) ys = omega (arith, punctual-append k xs ys)

-- A tick loses nobody.
tick_all-of_observer :
    (k short timeout now : ℕ) (txs : List Transaction)
    → of_observer k (tick_all short timeout now txs).left
        + of_observer k (tick_all short timeout now txs).expired
      ≡ of_observer k txs
unfolding tick_all of_observer
tick_all-of_observer k short timeout now [] = omega arith
tick_all-of_observer k short timeout now (tx ∷ txs) =
    ground (arith, tick_all-of_observer k short timeout now txs)

-- Nobody is late twice, or given up before it is late.
tick_all-punctual :
    (k short timeout now : ℕ) (txs : List Transaction)
    → short ≤ timeout
    → punctual k (tick_all short timeout now txs).left
        + of_observer k (tick_all short timeout now txs).short_timed
      ≡ punctual k txs
unfolding tick_all of_observer punctual
tick_all-punctual k short timeout now [] h = omega arith
tick_all-punctual k short timeout now (tx ∷ txs) h =
    ground (arith, h, tick_all-punctual k short timeout now txs h)

take_answered-of_observer :
    (k key opcode : ℕ) (target : Option KadId) (txs left : List Transaction) (tx : Transaction)
    → take_answered key opcode target txs ≡ some (tx, left)
    → (of_observer k left + single k (some tx) ≡ of_observer k txs)
      × (punctual k left ≤ punctual k txs)
unfolding take_answered of_observer punctual
take_answered-of_observer k key opcode target [] left tx e = absurd (none-ne-some e)
take_answered-of_observer k key opcode target (x ∷ xs) left tx e =
    elim (Bool-cases (is_answer key opcode target x)) [
      | inl this ↦
          let q = some-eq (rw (take_answered, this) at e) in
          here x xs left tx (ap (λ p. p.0) q) (ap (λ p. p.1) q)
      | inr other ↦ elim (Option-cases (take_answered key opcode target xs)) [
        | inl nothing ↦ absurd (none-ne-some (rw (take_answered, other, nothing) at e))
        | inr ((found, rest), p) ↦
            let q = some-eq (rw (take_answered, other, p) at e) in
            let r = take_answered-of_observer k key opcode target xs rest found p in
            behind_first x xs rest left found tx (ap (λ p. p.0) q) (ap (λ p. p.1) q) r
      ]
    ]
  where
    here :
        (x : Transaction) (xs left : List Transaction) (tx : Transaction)
        → x ≡ tx
        → (if x.multi then x ∷ xs else xs) ≡ left
        → (of_observer k left + single k (some tx) ≡ of_observer k (x ∷ xs))
          × (punctual k left ≤ punctual k (x ∷ xs))
    here x xs left tx p q = rw (← p, ← q) (ground arith)

    behind_first :
        (x : Transaction) (xs rest left : List Transaction) (found tx : Transaction)
        → found ≡ tx
        → x ∷ rest ≡ left
        → (of_observer k rest + single k (some found) ≡ of_observer k xs)
          × (punctual k rest ≤ punctual k xs)
        → (of_observer k left + single k (some tx) ≡ of_observer k (x ∷ xs))
          × (punctual k left ≤ punctual k (x ∷ xs))
    behind_first x xs rest left found tx p q r = rw (← p, ← q) (ground (arith, r))

-- The accounts of one event.
abbrev Balanced : ℕ → RpcManager → RpcManager → Tally → ℕ → Type 0
Balanced k m m' t issued =
    (of_observer k m'.transactions + t.given_up + t.answered
      ≡ of_observer k m.transactions + issued)
    × (punctual k m'.transactions + t.late ≤ punctual k m.transactions + issued)
    × ((m'.short_timeout ≡ m.short_timeout) × (m'.timeout ≡ m.timeout))

run_event-Balanced :
    (k : ℕ) (m : RpcManager) (e : Event)
    → m.short_timeout ≤ m.timeout
    → Balanced k m (run_event k m e).0 (run_event k m e).1 (new_of k e)
unfolding run_event invoke incoming tick of_observer punctual
run_event-Balanced k m (invoked now tx) h = ground (
  arith,
  of_observer-append k m.transactions (record tx { sent_time = now } ∷ []),
  punctual-append k m.transactions (record tx { sent_time = now } ∷ []),
)
run_event-Balanced k m (received none opcode target) h = ground arith
run_event-Balanced k m (received (some key) opcode target) h =
    elim (Option-cases (take_answered key opcode target m.transactions)) [
      | inl nothing ↦ rw (run_event, incoming, nothing) (ground arith)
      | inr ((tx, left), p) ↦
          rw (run_event, incoming, p)
            (ground (arith, take_answered-of_observer k key opcode target m.transactions left tx p))
    ]
run_event-Balanced k m (ticked now) h = ground (
  arith,
  tick_all-of_observer k m.short_timeout m.timeout now m.transactions,
  tick_all-punctual k m.short_timeout m.timeout now m.transactions h,
)

abbrev plus : Tally → Tally → Tally
plus a b = record {
  late = a.late + b.late;
  given_up = a.given_up + b.given_up;
  answered = a.answered + b.answered;
}

unfoldable pub run_events : ℕ → RpcManager → List Event → RpcManager × Tally
unfolding run_event
run_events k m [] = (m, record { late = 0; given_up = 0; answered = 0 })
run_events k m (e ∷ es) =
    let (m', t) = run_event k m e in let (m'', u) = run_events k m' es in (m'', plus t u)

unfoldable pub issued : ℕ → List Event → ℕ
issued k [] = 0
issued k (e ∷ es) = new_of k e + issued k es

run_events-Balanced :
    (k : ℕ) (m : RpcManager) (es : List Event)
    → m.short_timeout ≤ m.timeout
    → Balanced k m (run_events k m es).0 (run_events k m es).1 (issued k es)
unfolding run_events issued
run_events-Balanced k m [] h = ground arith
run_events-Balanced k m (e ∷ es) h =
    let b = run_event-Balanced k m e h in
    let c = run_events-Balanced k (run_event k m e).0 es (omega (arith, b, h)) in
    omega (arith, b, c)

-- For a new RPC manager and every sequence of Invoke, Incoming and Tick at any times, and every
-- observer: its transactions that still wait, that Tick gave up and that an answer took out are
-- together as many as were invoked for it, and Tick reported at most as many of them late.
pub run_events-accounts :
    (k : ℕ) (es : List Event)
    → let m = (run_events k new_rpc_manager es).0 in
      let t = (run_events k new_rpc_manager es).1 in
      (of_observer k m.transactions + t.given_up + t.answered ≡ issued k es)
      × (t.late ≤ issued k es)
unfolding of_observer punctual
run_events-accounts k es = omega (arith, run_events-Balanced k new_rpc_manager es (omega arith))
