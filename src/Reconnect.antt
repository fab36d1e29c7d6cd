-- ===== src/Reconnect.antt =====
-- When to connect to a server again: server_connection_policy.go. A server's text is a number, 0 for
-- the empty one, and so is an address; a time is a number of milliseconds, `none` for -1.
pub mod Schedule
mod Examples
use goed2k.Common.{
  ℕ, zero, suc, ◌+◌, ◌*◌, List, [], ◌∷◌, Bool, true, false, ◌&&◌, ◌||◌, not, Option, none, some,
  ltb, leb, ◌==◌, if◌then◌else◌,
}

pub record ServerConnectionPolicy : Type 0 where
  pub reconnect_seconds_timeout : ℕ
  pub max_reconnects : ℕ
  pub iteration : ℕ
  pub identifier : ℕ
  pub address : Option ℕ
  pub next_connect_time : Option ℕ

unfoldable pub remove_connect_candidates : ServerConnectionPolicy → ServerConnectionPolicy
remove_connect_candidates p = record p {
  iteration = p.max_reconnects;
  identifier = 0;
  address = none;
  next_connect_time = none;
}

unfoldable pub new_server_connection_policy : ℕ → ℕ → ServerConnectionPolicy
unfolding remove_connect_candidates
new_server_connection_policy seconds reconnects = remove_connect_candidates (record {
  reconnect_seconds_timeout = seconds;
  max_reconnects = reconnects;
  iteration = 0;
  identifier = 0;
  address = none;
  next_connect_time = none;
})

unfoldable pub set_connect_candidate :
    ℕ → Option ℕ → ℕ → ServerConnectionPolicy → ServerConnectionPolicy
set_connect_candidate identifier address now p = record p {
  iteration = 0;
  identifier = identifier;
  address = address;
  next_connect_time = some now;
}

abbrev is_some : Option ℕ → Bool
is_some none = false
is_some (some a) = true

unfoldable pub has_candidate : ServerConnectionPolicy → Bool
has_candidate p = not (p.identifier == 0) && is_some p.address

unfoldable pub has_iterations : ServerConnectionPolicy → Bool
has_iterations p = ltb p.iteration p.max_reconnects

-- A failure of another server counts from the start.
abbrev pub counted : ℕ → Option ℕ → ServerConnectionPolicy → ServerConnectionPolicy
counted identifier address p =
    if (p.identifier == 0) || not (p.identifier == identifier)
    then record p { iteration = 0; identifier = identifier; address = address }
    else record p { iteration = p.iteration + 1 }

abbrev pub scheduled : ℕ → ServerConnectionPolicy → ServerConnectionPolicy
scheduled now p = record p {
  next_connect_time =
      if has_candidate p && has_iterations p
      then some (now + p.iteration * p.reconnect_seconds_timeout * 1000)
      else none;
}

unfoldable pub set_server_connection_failed :
    ℕ → Option ℕ → ℕ → ServerConnectionPolicy → ServerConnectionPolicy
unfolding has_candidate has_iterations
set_server_connection_failed identifier address now p = scheduled now (counted identifier address p)

abbrev is_reached : ℕ → Option ℕ → Bool
is_reached now none = false
is_reached now (some t) = leb t now

unfoldable pub get_connect_candidate : ServerConnectionPolicy → ℕ → Option (ℕ × Option ℕ)
get_connect_candidate p now =
    if is_reached now p.next_connect_time then some (p.identifier, p.address) else none
