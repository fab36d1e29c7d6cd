-- ===== src/Reconnect/Examples.antt =====
-- A server that fails twice.
use goed2k.Common.{ℕ, ◌+◌, ◌*◌, ◌≡◌, ◌≢◌, ◌&&◌, [], ◌∷◌, none, some, ltb, leb, if◌then◌else◌, arith}
use goed2k.Reconnect.{new_server_connection_policy, set_connect_candidate, get_connect_candidate}
use goed2k.Reconnect.Schedule.{fail_all, get_connect_candidate-fail_all}

abbrev server : ℕ
server = 5

abbrev unnamed : ℕ
unnamed = 0

named : server ≢ unnamed
named e = omega (arith, e)

get_connect_candidate-fail_all_example :
    get_connect_candidate
      (fail_all 5 none
        (9000 ∷ 2000 ∷ [])
        (set_connect_candidate 5 (some 77) 1000 (new_server_connection_policy 30 3)))
      70000
    ≡ (if ltb 2 3 && leb (9000 + 2 * 30 * 1000) 70000 then some (5, some 77) else none)
get_connect_candidate-fail_all_example =
    get_connect_candidate-fail_all 30 3 5 77 none 1000 9000 (2000 ∷ []) 70000 named
