-- ===== src/Communication/Monitor/Examples.antt =====
-- The theorems on the monitor and on disconnecting at a concrete client.
use ac_signalr_client_lib_rs.Base.{
  ℕ, ◌+◌, ◌≡◌, refl, some, none, true, false, List, [], ◌∷◌, ◌++◌, lit, ok, unlocked, arith,
}
use ac_signalr_client_lib_rs.Client.Configuration.{
  ConnectionConfiguration, ReconnectPolicy, no_auth, json, from_secs,
}
use ac_signalr_client_lib_rs.Execution.Storage.{empty_heap}
use ac_signalr_client_lib_rs.Communication.Http.{ConnectionData, get_reconnect_policy}
use ac_signalr_client_lib_rs.Communication.Monitor.{
  System, Phase, idle, sleeping, connecting, ConnectionEvent, connection_lost, ConnectionState,
  not_connected, reconnecting, connected, event_received, socket_opened, monitor_step, monitor_run,
  begin_attempt, begin_disconnect, finish_disconnect, disconnect, current_connection, policy,
}
use ac_signalr_client_lib_rs.Communication.Monitor.Shutdown.{late_connection}
use ac_signalr_client_lib_rs.Communication.Monitor.Generations.{stale_event_ignored}
use ac_signalr_client_lib_rs.Communication.Monitor.Attempts.{
  Failure, negotiation_fails, socket_fails, all_replies, delays_from, attempts_exhausted,
  orphan_keeps_trying,
}

abbrev options_with : ReconnectPolicy → ConnectionConfiguration
options_with p = record {
  is_secure = true;
  domain = lit "example.com";
  hub = lit "hub";
  port = none;
  authentication = no_auth;
  skips_negotiation = false;
  protocol = json;
  reconnect = p;
  deferred_message_capacity = 16;
}

abbrev connection_with : ReconnectPolicy → ConnectionData
connection_with p = record {
  endpoint = lit "wss://example.com/hub";
  connection_id = lit "id";
  protocol = json;
  authentication = no_auth;
  source_configuration = options_with p;
}

abbrev limited : ReconnectPolicy
limited = record {
  enabled = true;
  initial_delay = from_secs 1;
  max_delay = from_secs 30;
  max_attempts = some 2;
}

abbrev unlimited : ReconnectPolicy
unlimited = record limited { max_attempts = none }

-- A client with the given policy, connected under generation 1, its monitor in the given phase.
abbrev client : ReconnectPolicy → ConnectionState → Phase → List ConnectionEvent → System ℕ ℕ
client p state phase events = record {
  configuration = connection_with p;
  state = unlocked state;
  events = events;
  shutdown = false;
  next_generation = 2;
  reconnecting_handler = unlocked none;
  reconnected_handler = unlocked none;
  storage = record {
    actions = unlocked [];
    deferred_messages = unlocked [];
    deferred_message_capacity = 16;
    index = unlocked 0;
    heap = empty_heap;
  };
  phase = phase;
  clients = 1;
  delays = [];
  callbacks = [];
  negotiations = 0;
  dropped = [];
}

abbrev lost_1 : ConnectionEvent
lost_1 = connection_lost 1 (lit "gone")

abbrev failures : List Failure
failures = negotiation_fails (lit "no") ∷ socket_fails (connection_with limited) (lit "no") ∷ []

abbrev online : System ℕ ℕ
online = client limited (connected 1 10) idle []

abbrev opening : System ℕ ℕ
opening = client limited reconnecting (connecting 1 (connection_with limited) 2) []

late_connection_example :
    (current_connection
        (monitor_step (finish_disconnect (begin_disconnect opening).0) (socket_opened (ok 11)))
      ≡ ok (2, 11))
    × ((monitor_step
          (finish_disconnect (begin_disconnect opening).0)
          (socket_opened (ok 11))).shutdown
        ≡ true)
late_connection_example = late_connection opening 1 (connection_with limited) 2 11 refl refl

-- The connection of generation 1 was replaced by that of generation 2.
abbrev behind : System ℕ ℕ
behind = client limited (connected 2 11) idle (lost_1 ∷ [])

stale_event_ignored_example : monitor_step behind event_received ≡ record behind { events = [] }
stale_event_ignored_example =
    stale_event_ignored behind 1 2 11 (lit "gone") [] refl refl (λ e. omega (arith, e)) refl refl
      (λ e. omega (arith, e))

abbrev lost_client : System ℕ ℕ
lost_client = client limited reconnecting idle []

attempts_exhausted_example :
    ((monitor_run (begin_attempt lost_client 1) (all_replies failures)).phase ≡ idle)
    × ((monitor_run (begin_attempt lost_client 1) (all_replies failures)).state.inner
        ≡ not_connected)
    × ((monitor_run (begin_attempt lost_client 1) (all_replies failures)).negotiations ≡ 0 + 2)
    × ((monitor_run (begin_attempt lost_client 1) (all_replies failures)).delays
        ≡ [] ++ delays_from (policy lost_client) 1 2)
unfolding get_reconnect_policy
attempts_exhausted_example = attempts_exhausted failures lost_client 1 2 refl refl refl refl

abbrev retrying : System ℕ ℕ
retrying = client unlimited reconnecting (sleeping 1) []

orphan_keeps_trying_example :
    ((monitor_run (record (disconnect retrying) { clients = 0 }) (all_replies failures)).phase
      ≡ sleeping (1 + 2))
    × ((monitor_run
          (record (disconnect retrying) { clients = 0 })
          (all_replies failures)).negotiations
        ≡ 0 + 2)
unfolding get_reconnect_policy
orphan_keeps_trying_example = orphan_keeps_trying failures retrying 1 refl refl refl refl
