-- ===== src/Peers/Candidate/Best.antt =====
-- The peer that `FindConnectCandidate` gives is one that none beats.
use goed2k.Common.{
  lt-length_of_get, ◌*◌, some-eq, true-ne-false, ℕ, zero, suc, ◌+◌, ◌≤◌, ◌<◌, ◌≡◌, refl, ap, sym,
  ◌∙◌, List, [], ◌∷◌, Bool, true, false, ◌&&◌, Option, none, some, ltb, leb, if◌then◌else◌, length,
  get_elem?, arith, Bool-cases, ◌⊎◌, inl, inr,
}
use goed2k.Peers.{is_some, Peer, Policy, is_connect_candidate, max_peer_list_size}
use goed2k.Peers.Candidate.{
  is_local_address, get_source_rank, compare_peers, passes_times, Finding, is_beaten, consider,
  find_step, find_loop, find_connect_candidate, found_of,
}

-- A peer that may be chosen.
abbrev is_eligible : ℕ → Peer → Bool
is_eligible session_time pe = is_connect_candidate pe && passes_times session_time pe

-- Better than one that is not beaten is better than the other too.
compare_peers_trans :
    (a b c : Peer) → compare_peers a b ≡ true → compare_peers c b ≡ false → compare_peers a c ≡ true
unfolding compare_peers
compare_peers_trans a b c h k = ground arith

compare_peers_irrefl : (a : Peer) → compare_peers a a ≡ false
unfolding compare_peers
compare_peers_irrefl a = ground arith

compare_peers_asymm : (a b : Peer) → compare_peers a b ≡ true → compare_peers b a ≡ false
unfolding compare_peers
compare_peers_asymm a b h = ground arith

-- No peer of those that were seen may be chosen, or the candidate may and none of them beats it.
abbrev Best : ℕ → List Peer → (ℕ → Type 0) → Option ℕ → Type 0
Best t ps Seen none =
    (j : ℕ) (q : Peer) → Seen j → get_elem? ps j ≡ some q → is_eligible t q ≡ false
Best t ps Seen (some c) =
    (pe : Peer) × (get_elem? ps c ≡ some pe)
    × (is_eligible t pe ≡ true)
    × ((j : ℕ) (q : Peer)
        → Seen j
        → get_elem? ps j ≡ some q
        → is_eligible t q ≡ true
        → compare_peers q pe ≡ false)

Best-mono :
    (t : ℕ) (ps : List Peer) (P Q : ℕ → Type 0) (c : Option ℕ)
    → ((j : ℕ) → Q j → P j)
    → Best t ps P c
    → Best t ps Q c
Best-mono t ps P Q none f b = λ j q h. b j q (f j h)
Best-mono t ps P Q (some c) f b = (b.0, b.1, b.2, (λ j q h. b.3 j q (f j h)))

abbrev Also : (ℕ → Type 0) → ℕ → ℕ → Type 0
Also P current j = P j ⊎ (j ≡ current)

-- The peer at an index that is one of two places.
at_current :
    (ps : List Peer) (current j : ℕ) (pe q : Peer)
    → get_elem? ps current ≡ some pe
    → j ≡ current
    → get_elem? ps j ≡ some q
    → q ≡ pe
at_current ps current j pe q g e h = some-eq (sym h ∙ ap (get_elem? ps) e ∙ g)

module _ (t : ℕ) (ps : List Peer) (P : ℕ → Type 0) (current : ℕ) (pe : Peer)
    (there : get_elem? ps current ≡ some pe) where
  -- One more peer that may not be chosen.
  keep_ineligible :
      (c : Option ℕ) → is_eligible t pe ≡ false → Best t ps P c → Best t ps (Also P current) c
  keep_ineligible none i b = λ j q h g. elim h [
    | inl old ↦ b j q old g
    | inr e ↦ ap (is_eligible t) (at_current ps current j pe q there e g) ∙ i
  ]
  keep_ineligible (some c) i b = (
    b.0,
    b.1,
    b.2,
    λ j q h g ok. elim h [
      | inl old ↦ b.3 j q old g ok
      | inr e ↦
          absurd (
            true-ne-false
              (sym ok ∙ ap (is_eligible t) (at_current ps current j pe q there e g) ∙ i))
    ],
  )

  -- One that the candidate beats.
  keep_beaten :
      (c : ℕ) (best : Peer)
      → get_elem? ps c ≡ some best
      → compare_peers best pe ≡ true
      → Best t ps P (some c)
      → Best t ps (Also P current) (some c)
  keep_beaten c best g' m b =
      let same : b.0 ≡ best = some-eq (sym b.1 ∙ g') in
      (
        b.0,
        b.1,
        b.2,
        λ j q h g ok. elim h [
          | inl old ↦ b.3 j q old g ok
          | inr e ↦
              rw (at_current ps current j pe q there e g, same) (compare_peers_asymm best pe m)
        ],
      )

  -- One that may be chosen and is not beaten takes its place.
  take_first :
      is_eligible t pe ≡ true → Best t ps P none → Best t ps (Also P current) (some current)
  take_first i b = (
    pe,
    there,
    i,
    λ j q h g ok. elim h [
      | inl old ↦ absurd (true-ne-false (sym ok ∙ b j q old g))
      | inr e ↦ rw (at_current ps current j pe q there e g) (compare_peers_irrefl pe)
    ],
  )

  take_better :
      (c : ℕ) (best : Peer)
      → get_elem? ps c ≡ some best
      → compare_peers best pe ≡ false
      → is_eligible t pe ≡ true
      → Best t ps P (some c)
      → Best t ps (Also P current) (some current)
  take_better c best g' m i b =
      let same : b.0 ≡ best = some-eq (sym b.1 ∙ g') in
      (
        pe,
        there,
        i,
        λ j q h g ok. elim h [
          | inl old ↦ elim (Bool-cases (compare_peers q pe)) [
            | inr worse ↦ worse
            | inl better ↦ absurd (
                true-ne-false (
                  sym (compare_peers_trans q pe best better m)
                  ∙ ap (compare_peers q) (sym same)
                  ∙ b.3 j q old g ok))
          ]
          | inr e ↦ rw (at_current ps current j pe q there e g) (compare_peers_irrefl pe)
        ],
      )

abbrev finding : List Peer → Option ℕ → ℕ → Finding
finding ps c r = record { peers = ps; candidate = c; erase_candidate = none; round = r }

module _ (t : ℕ) (ps : List Peer) (P : ℕ → Type 0) (current : ℕ) (pe : Peer)
    (there : get_elem? ps current ≡ some pe) where
  consider-Best :
      (c : Option ℕ) (r : ℕ)
      → Best t ps P c
      → (c' : Option ℕ) × (consider t (finding ps c r) current pe
          ≡ some (finding ps c' (current + 1)))
        × Best t ps (Also P current) c'
  unfolding consider is_beaten
  consider-Best none r b = elim (Bool-cases (is_connect_candidate pe)) [
    | inr no_candidate ↦ (
      none,
      rw (consider, no_candidate),
      keep_ineligible t ps P current pe there none (rw no_candidate) b,
    )
    | inl candidate ↦ elim (Bool-cases (passes_times t pe)) [
      | inr untimely ↦ (
        none,
        rw (consider, candidate, untimely),
        keep_ineligible t ps P current pe there none (rw (candidate, untimely)) b,
      )
      | inl timely ↦ (
        some current,
        rw (consider, candidate, timely),
        take_first t ps P current pe there (rw (candidate, timely)) b,
      )
    ]
  ]
  consider-Best (some c) r b = elim (Bool-cases (is_connect_candidate pe)) [
    | inr no_candidate ↦ (
      some c,
      rw (consider, no_candidate),
      keep_ineligible t ps P current pe there (some c) (rw no_candidate) b,
    )
    | inl candidate ↦ elim (Bool-cases (compare_peers b.0 pe)) [
      | inl beaten ↦ (
        some c,
        rw (consider, candidate, is_beaten, b.1, beaten),
        keep_beaten t ps P current pe there c b.0 b.1 beaten b,
      )
      | inr unbeaten ↦ elim (Bool-cases (passes_times t pe)) [
        | inr untimely ↦ (
          some c,
          rw (consider, candidate, is_beaten, b.1, unbeaten, untimely),
          keep_ineligible t ps P current pe there (some c) (rw (candidate, untimely)) b,
        )
        | inl timely ↦ (
          some current,
          rw (consider, candidate, is_beaten, b.1, unbeaten, timely),
          take_better t ps P current pe there c b.0 b.1 unbeaten (rw (candidate, timely)) b,
        )
      ]
    ]
  ]

get_elem?-below :
    (ps : List Peer) (i : ℕ) → i < length ps → (pe : Peer) × (get_elem? ps i ≡ some pe)
get_elem?-below [] i h = elim h [ ]
get_elem?-below (p ∷ ps) zero h = (p, refl)
get_elem?-below (p ∷ ps) (suc i) h = get_elem?-below ps i (omega arith)

-- The slots that were seen in `k` rounds from slot `r0` on, going round at `n`.
abbrev Window : ℕ → ℕ → ℕ → ℕ → Type 0
Window n r0 k j = (j < n) × (((r0 ≤ j) × (j < r0 + k)) ⊎ (j + n < r0 + k))

abbrev At : ℕ → ℕ → ℕ → ℕ → Type 0
At n r0 k r = ((r ≡ r0 + k) ⊎ (r + n ≡ r0 + k)) × (r ≤ n)

newly :
    (ps : List Peer) (r0 k r j : ℕ)
    → At (length ps) r0 k r
    → r0 < length ps
    → k < length ps
    → Window (length ps) r0 (k + 1) j
    → Also (Window (length ps) r0 k) (if leb (length ps) r then 0 else r) j
newly ps r0 k r j a s l w = ground (arith, a, w)

module _ (t : ℕ) (ps : List Peer) (small : length ps ≤ max_peer_list_size) where
  find_step-consider :
      (c : Option ℕ) (r current : ℕ) (pe : Peer)
      → current ≡ (if leb (length ps) r then 0 else r)
      → get_elem? ps current ≡ some pe
      → find_step t (finding ps c r) ≡ consider t (finding ps c r) current pe
  unfolding find_step
  find_step-consider c r current pe e there =
      let few : ltb max_peer_list_size (length ps) ≡ false = ground (arith, small) in
      let found : get_elem? ps (if leb (length ps) r then 0 else r) ≡ some pe =
        ap (get_elem? ps) (sym e) ∙ there in
      let step : find_step t (finding ps c r)
          ≡ consider t (finding ps c r) (if leb (length ps) r then 0 else r) pe =
        rw (find_step, found, few) in
      step ∙ ap (λ i. consider t (finding ps c r) i pe) (sym e)

  find_loop-Best :
      (m k r0 r : ℕ) (c : Option ℕ)
      → k ≤ length ps
      → length ps ≤ k + m
      → (0 < length ps → r0 < length ps)
      → At (length ps) r0 k r
      → Best t ps (Window (length ps) r0 k) c
      → (c' : Option ℕ) × (r' : ℕ) × (find_loop m k t (finding ps c r) ≡ some (finding ps c' r'))
        × Best t ps (Window (length ps) r0 (length ps)) c'
  unfolding find_loop
  find_loop-Best zero k r0 r c h l z a b = (
    c,
    r,
    refl,
    Best-mono t ps (Window (length ps) r0 k) (Window (length ps) r0 (length ps)) c
        (λ j w. omega arith) b,
  )
  find_loop-Best (suc m) k r0 r c h l z a b = elim (Bool-cases (ltb k (length ps))) [
    | inr over ↦ (
      c,
      r,
      rw (find_loop, over),
      Best-mono t ps (Window (length ps) r0 k) (Window (length ps) r0 (length ps)) c
          (λ j w. ground (arith, over, h, w)) b,
    )
    | inl more ↦
        let lt : k < length ps = ground (arith, more) in
        let start : r0 < length ps = z (omega arith) in
        let current = if leb (length ps) r then 0 else r in
        let inside : current < length ps = ground arith in
        let place : At (length ps) r0 (k + 1) (current + 1) = ground (arith, a, lt, start) in
        let (pe, there) = get_elem?-below ps current inside in
        let (c', e, b') = consider-Best t ps (Window (length ps) r0 k) current pe there c r b in
        let stepped = find_step-consider c r current pe refl there ∙ e in
        let seen =
          Best-mono t ps (Also (Window (length ps) r0 k) current) (Window (length ps) r0 (k + 1)) c'
            (λ j w. newly ps r0 k r j a start lt w) b' in
        let (c'', r'', e'', b'') =
          find_loop-Best m (k + 1) r0 (current + 1) c' (omega arith) (omega arith) z place seen in
        (c'', r'', rw (find_loop, more, stepped) e'', b'')
  ]

abbrev start_of : Policy → ℕ
start_of p = if leb (length p.peers) p.round_robin then 0 else p.round_robin

nothing_seen :
    (t : ℕ) (ps : List Peer) (r0 : ℕ) → r0 ≤ length ps → Best t ps (Window (length ps) r0 0) none
nothing_seen t ps r0 h = λ j q w. absurd (ground (arith, w))

abbrev outcome_of : Finding → Policy × Option ℕ
outcome_of s = (record { peers = s.peers; round_robin = s.round }, s.candidate)

found :
    (p : Policy) (t : ℕ) (c : Option ℕ) (r : ℕ)
    → find_loop 300 0 t (finding p.peers none (start_of p)) ≡ some (finding p.peers c r)
    → find_connect_candidate t p ≡ some (record { peers = p.peers; round_robin = r }, c)
unfolding find_connect_candidate
found p t c r e = ap found_of e

-- A peer that may be connected to: it is connectable and has no connection and at most 10 failures;
-- its next connection is not set or lies at the session time or later; it was never connected, or
-- 10 seconds for each failure and 10 more have passed since.
pub record Eligible (t : ℕ) (p : Peer) : Type 0 where
  pub connectable : p.connectable ≡ true
  pub unconnected : p.connection ≡ none
  pub failures : p.fail_count ≤ 10
  pub next_time : (p.next_connection ≡ 0) ⊎ (t ≤ p.next_connection)
  pub last_time : (p.last_connected ≡ 0) ⊎ (p.last_connected + (p.fail_count + 1) * 1000 * 10 ≤ t)

-- A peer that is at least as good as another: fewer failures; at one number of failures, a local
-- address against one that is not; among these, the earlier last connection, then the earlier next
-- connection, then the source of no lower rank.
abbrev pub AsGood : Peer → Peer → Type 0
AsGood p q =
    (p.fail_count < q.fail_count)
    ⊎ ((p.fail_count ≡ q.fail_count)
        × (((is_local_address p.endpoint.ip ≡ true) × (is_local_address q.endpoint.ip ≡ false))
            ⊎ ((is_local_address p.endpoint.ip ≡ is_local_address q.endpoint.ip)
                × ((p.last_connected < q.last_connected)
                    ⊎ ((p.last_connected ≡ q.last_connected)
                        × ((p.next_connection < q.next_connection)
                            ⊎ ((p.next_connection ≡ q.next_connection)
                                × (get_source_rank q.source_flag
                                    ≤ get_source_rank p.source_flag))))))))

unconnected_lem : (o : Option ℕ) → is_some o ≡ false → o ≡ none
unconnected_lem none h = refl
unconnected_lem (some c) h = absurd (true-ne-false h)

is_eligible-Eligible : (t : ℕ) (p : Peer) → is_eligible t p ≡ true → Eligible t p
unfolding is_connect_candidate passes_times
is_eligible-Eligible t p h = record {
  connectable = ground (arith, h);
  unconnected = unconnected_lem p.connection (ground (arith, h));
  failures = ground (arith, h);
  next_time = ground (arith, h);
  last_time = ground (arith, h);
}

Eligible-is_eligible : (t : ℕ) (p : Peer) → Eligible t p → is_eligible t p ≡ true
unfolding is_connect_candidate passes_times
Eligible-is_eligible t p e =
    ground (arith, e.connectable, ap is_some e.unconnected, e.failures, e.next_time, e.last_time)

compare_peers-AsGood : (p q : Peer) → compare_peers q p ≡ false → AsGood p q
unfolding compare_peers
compare_peers-AsGood p q h = ground (arith, h)

-- No peer of the list may be connected to, or the one at the slot may, and it is at least as good as
-- every other that may.
abbrev pub IsBestSlot : ℕ → List Peer → Option ℕ → Type 0
IsBestSlot t ps none = (j : ℕ) (q : Peer) → get_elem? ps j ≡ some q → ¬ Eligible t q
IsBestSlot t ps (some c) =
    (p : Peer) × (get_elem? ps c ≡ some p)
    × Eligible t p
    × ((j : ℕ) (q : Peer) → get_elem? ps j ≡ some q → Eligible t q → AsGood p q)

Best-IsBestSlot :
    (t : ℕ) (ps : List Peer) (c : Option ℕ) → Best t ps (λ j. j < length ps) c → IsBestSlot t ps c
Best-IsBestSlot t ps none b =
    λ j q g e. true-ne-false (sym (Eligible-is_eligible t q e) ∙ b j q (lt-length_of_get ps j g) g)
Best-IsBestSlot t ps (some c) b = (
  b.0,
  b.1,
  is_eligible-Eligible t b.0 b.2,
  λ j q g e.
      compare_peers-AsGood b.0 q (b.3 j q (lt-length_of_get ps j g) g (Eligible-is_eligible t q e)),
)

-- For a list of at most 100 peers FindConnectCandidate does not panic and leaves the list as it
-- is, from every round-robin position. If it gives no slot, no peer of the list may be connected
-- to: one that is connectable, without a connection, with at most 10 failures, whose next
-- connection is not set or not before the session time, and whose wait of 10 seconds for each
-- failure and 10 more since its last connection, if any, is over. If it gives a slot, its peer
-- is such a peer, and at least as good as every other: by failures, local address, last
-- connection, next connection and source.
pub find_connect_candidate-Best :
    (t : ℕ) (p : Policy)
    → length p.peers ≤ max_peer_list_size
    → (r : ℕ) × (c : Option ℕ) × (find_connect_candidate t p
        ≡ some (record { peers = p.peers; round_robin = r }, c))
      × IsBestSlot t p.peers c
find_connect_candidate-Best t p small =
    let n = length p.peers in
    let inside : start_of p ≤ n = ground arith in
    let (c, r, e, b) =
      find_loop-Best t p.peers small 300 0 (start_of p) (start_of p) none (omega arith)
        (omega (arith, small)) (λ h. ground (arith, h)) (ground arith)
        (nothing_seen t p.peers (start_of p) inside) in
    (
      r,
      c,
      found p t c r e,
      Best-IsBestSlot t p.peers c (
          Best-mono t p.peers (Window n (start_of p) n) (λ j. j < n) c
            (λ j h. ground (arith, h, inside)) b),
    )
