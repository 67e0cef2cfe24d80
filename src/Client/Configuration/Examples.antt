-- ===== src/Client/Configuration/Examples.antt =====
-- The unit tests of src/client/configuration.rs, and the theorems of the modules beside this one at
-- concrete configurations.
use ac_signalr_client_lib_rs.Base.{
  ◌≡◌, refl, List, [], ◌∷◌, ◌*◌, ◌^◌, ◌+◌, arith, none, lit, pos, min, true, show_int,
}
use ac_signalr_client_lib_rs.Client.Configuration.{
  ConnectionConfiguration, Setting, with_port, unsecure, with_reconnect_delays, new, configure,
  apply, get_web_url, get_socket_url, delay_for_attempt, ReconnectPolicy, from_secs, multiplier,
}
use ac_signalr_client_lib_rs.Client.Configuration.Backoff.{
  IsOrdered, configure-IsOrdered, delay_doubles, delay_wraps,
}

abbrev settings : List Setting
settings = unsecure ∷ with_port (pos 5000) ∷ with_reconnect_delays (from_secs 5) (from_secs 1) ∷ []

abbrev localhost : ConnectionConfiguration
localhost = configure (new (lit "localhost") (lit "hub")) settings

test_get_web_url_unsecure_with_port : get_web_url localhost ≡ lit "http://localhost:5000/hub"
unfolding get_web_url configure apply new show_int
test_get_web_url_unsecure_with_port = refl

test_get_socket_url_secure :
    get_socket_url (new (lit "example.com") (lit "hub")) ≡ lit "wss://example.com/hub"
unfolding get_socket_url new
test_get_socket_url_secure = refl

test_reconnect_delays_keep_max_at_least_initial : localhost.reconnect.max_delay ≡ from_secs 5
unfolding configure apply new
test_reconnect_delays_keep_max_at_least_initial = refl

abbrev policy : ReconnectPolicy
policy = record { enabled = true; initial_delay = 10; max_delay = 25; max_attempts = none }

abbrev policy-IsOrdered : IsOrdered policy
policy-IsOrdered = record { first_within = omega arith; representable = omega arith }

test_reconnect_delay_backoff_is_capped :
    (delay_for_attempt policy 1 ≡ 10)
    × (delay_for_attempt policy 2 ≡ 20)
    × (delay_for_attempt policy 3 ≡ 25)
    × (delay_for_attempt policy 30 ≡ 25)
unfolding delay_for_attempt multiplier
test_reconnect_delay_backoff_is_capped = (refl, refl, refl, refl)

configure-IsOrdered_example : IsOrdered localhost.reconnect
configure-IsOrdered_example =
    configure-IsOrdered (lit "localhost") (lit "hub") settings (omega arith)

delay_doubles_example :
    (delay_for_attempt policy 1 ≡ 10)
    × (delay_for_attempt policy 3 ≡ min (2 * delay_for_attempt policy 2) 25)
delay_doubles_example = delay_doubles policy 1 policy-IsOrdered (omega arith)

delay_wraps_example : delay_for_attempt policy (2 ^ 32 + 1) ≡ 10
delay_wraps_example = delay_wraps policy policy-IsOrdered
