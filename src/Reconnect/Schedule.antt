-- ===== src/Reconnect/Schedule.antt =====
-- The times at which a server that fails is tried again.
use goed2k.Common.{
  ℕ, ◌+◌, ◌*◌, ◌≡◌, ◌≢◌, refl, List, [], ◌∷◌, ◌&&◌, Option, none, some, ltb, leb, if◌then◌else◌,
  length, arith,
}
use goed2k.Reconnect.{
  ServerConnectionPolicy, new_server_connection_policy, remove_connect_candidates,
  set_connect_candidate, has_candidate, has_iterations, set_server_connection_failed,
  get_connect_candidate,
}

-- Failures of one server, the last first.
unfoldable pub fail_all : ℕ → Option ℕ → List ℕ → ServerConnectionPolicy → ServerConnectionPolicy
unfolding set_server_connection_failed
fail_all identifier address [] p = p
fail_all identifier address (now ∷ times) p =
    set_server_connection_failed identifier address now (fail_all identifier address times p)

module _ (seconds reconnects identifier a : ℕ) (other : Option ℕ) (start : ℕ)
    (named : identifier ≢ 0) where
  abbrev after : List ℕ → ServerConnectionPolicy
  after times = fail_all identifier other times (
      set_connect_candidate identifier (some a) start
        (new_server_connection_policy seconds reconnects))

  after-state :
      (times : List ℕ)
      → ((after times).iteration ≡ length times)
        × ((after times).identifier ≡ identifier)
        × ((after times).address ≡ some a)
        × ((after times).max_reconnects ≡ reconnects)
        × ((after times).reconnect_seconds_timeout ≡ seconds)
  unfolding fail_all set_server_connection_failed set_connect_candidate new_server_connection_policy
      remove_connect_candidates
  after-state [] = (refl, refl, refl, refl, refl)
  after-state (now ∷ times) = let s = after-state times in ground (arith, s, named)

-- For a server with a name that is set as candidate with an address and then fails k times, k at
-- least 1, at any times, GetConnectCandidate gives it exactly if k is less than maxReconnects
-- and k reconnect timeouts have passed since the last failure, and otherwise nothing.
pub get_connect_candidate-fail_all :
    (seconds reconnects identifier a : ℕ) (other : Option ℕ) (start last : ℕ) (times : List ℕ)
    (now : ℕ)
    → identifier ≢ 0
    → let p = fail_all identifier other (last ∷ times) (
        set_connect_candidate identifier
          (some a)
          start
          (new_server_connection_policy seconds reconnects)) in
      let k = length times + 1 in
      get_connect_candidate p now ≡ (
        if ltb k reconnects && leb (last + k * seconds * 1000) now
        then some (identifier, some a)
        else none)
unfolding fail_all set_server_connection_failed get_connect_candidate has_candidate has_iterations
get_connect_candidate-fail_all seconds reconnects identifier a other start last times now named =
    ground (arith, named, after-state seconds reconnects identifier a other start named times)
