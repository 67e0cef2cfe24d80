-- ===== src/Communication/Monitor/Clients.antt =====
-- src/communication/client_tokio.rs: `CommunicationClient`, the connection state that its clones
-- share, and what the clones do with it. A connection is a number.
use ac_signalr_client_lib_rs.Base.{
  ℕ, suc, ◌+◌, ◌-◌, Bool, true, false, Option, none, some, List, [], ◌∷◌, ◌++◌, Text, lit, Res, ok,
  err, map_err, Mutex, lock, write, unlocked, ltb, if◌then◌else◌, ◌>>=◌,
}
use ac_signalr_client_lib_rs.Protocol.Messages.{Serde, serialize}
use ac_signalr_client_lib_rs.Execution.Storage.{Storage, new, cancel_pending}
use ac_signalr_client_lib_rs.Communication.Http.{ConnectionData, get_deferred_message_capacity}

pub data ConnectionEvent : Type 0 where
  connection_lost : ℕ → Text → ConnectionEvent
  shut_down : ConnectionEvent

-- The generation, and the connection.
pub data ConnectionState : Type 0 where
  not_connected : ConnectionState
  reconnecting : ConnectionState
  connected : ℕ → ℕ → ConnectionState

-- Where the monitor waits: for an event, for the reconnecting callback, in the sleep before an
-- attempt, in the negotiation or the opening of an attempt, for the reconnected callback; or it has
-- left its loop.
pub data Phase : Type 0 where
  idle : Phase
  announcing : Phase
  sleeping : ℕ → Phase
  negotiating : ℕ → Phase
  connecting : ℕ → ConnectionData → ℕ → Phase
  announced : Phase
  stopped : Phase

-- What the clones share, with the monitor's place, the number of clones, and logs of what was done:
-- the delays slept, the callbacks run, the negotiations begun and the connections given up.
pub record System {ℓ} (V R : Type ℓ) : Type ℓ where
  pub configuration : ConnectionData
  pub state : Mutex ConnectionState
  pub events : List ConnectionEvent
  pub shutdown : Bool
  pub next_generation : ℕ
  pub reconnecting_handler : Mutex (Option ℕ)
  pub reconnected_handler : Mutex (Option ℕ)
  pub storage : Storage V R
  pub phase : Phase
  pub clients : ℕ
  pub delays : List ℕ
  pub callbacks : List ℕ
  pub negotiations : ℕ
  pub dropped : List ℕ

-- The connection that an overwritten state held is dropped, which stops its tasks.
abbrev pub given_up : ConnectionState → List ℕ
given_up (connected g c) = c ∷ []
given_up _ = []

abbrev pub connection_of : Option ConnectionState → Res (ℕ × ℕ)
connection_of none = err (lit "Cannot lock connection state")
connection_of (some not_connected) = err (lit "Client is not connected, cannot send")
connection_of (some reconnecting) = err (lit "Client is reconnecting, cannot send")
connection_of (some (connected g c)) = ok (g, c)

abbrev closing_of : Option ConnectionState → Res (Option ℕ)
closing_of none = err (lit "Cannot lock connection state")
closing_of (some (connected g c)) = ok (some c)
closing_of (some not_connected) = ok none
closing_of (some reconnecting) = ok none

abbrev is_handling : Phase → Bool
is_handling idle = false
is_handling stopped = false
is_handling _ = true

module _ {ℓ} {V R : Type ℓ} where
  -- `*state = ...`
  abbrev pub set_state : System V R → ConnectionState → System V R
  set_state s x = record s {
    state = write s.state x;
    dropped = s.dropped ++ given_up s.state.inner;
  }

  -- `_events.send(..)`
  abbrev pub send_event : System V R → ConnectionEvent → System V R
  send_event s e = record s { events = s.events ++ e ∷ [] }

  -- `connect`, with what `connect_socket` returned.
  unfoldable pub connect : ConnectionData → Res ℕ → Res (System V R)
  unfolding new get_deferred_message_capacity
  connect configuration socket = do
    c ← socket
    ok (record {
      configuration = configuration;
      state = unlocked (connected 1 c);
      events = [];
      shutdown = false;
      next_generation = 2;
      reconnecting_handler = unlocked none;
      reconnected_handler = unlocked none;
      storage = new (get_deferred_message_capacity configuration);
      phase = idle;
      clients = 1;
      delays = [];
      callbacks = [];
      negotiations = 0;
      dropped = [];
    })

  -- `current_connection`: the generation and the connection.
  unfoldable pub current_connection : System V R → Res (ℕ × ℕ)
  current_connection s = connection_of (lock s.state)

  abbrev pub sent : System V R → ℕ → Res (Unit {0}) → System V R × Res (Unit {0})
  sent s g (ok u) = (s, ok tt)
  sent s g (err e) = (send_event s (connection_lost g e), err e)

  abbrev pub send_bytes :
      System V R → (ℕ → Text → Res (Unit {0})) → ℕ × ℕ → Res Text → System V R × Res (Unit {0})
  send_bytes s queue (g, c) (ok bytes) = sent s g (queue c bytes)
  send_bytes s queue (g, c) (err e) = (s, err e)

  abbrev pub send_on :
      {T : Type ℓ}
      → System V R
      → (ℕ → Text → Res (Unit {0}))
      → Serde T
      → T
      → Res (ℕ × ℕ)
      → System V R × Res (Unit {0})
  send_on s queue serde value (err e) = (s, err e)
  send_on s queue serde value (ok at) =
      send_bytes s queue at
        (map_err (lit "Serialization failed: ") (serialize serde value s.configuration.protocol))

  -- `send`, with the writer's queue of each connection.
  unfoldable pub send :
      {T : Type ℓ}
      → System V R
      → (ℕ → Text → Res (Unit {0}))
      → Serde T
      → T
      → System V R × Res (Unit {0})
  unfolding current_connection
  send s queue serde value = send_on s queue serde value (current_connection s)

  -- `set_reconnecting_handler` and `set_reconnected_handler`; a poisoned lock is only logged.
  unfoldable pub set_reconnecting_handler : System V R → ℕ → System V R
  set_reconnecting_handler s callback = elim (lock s.reconnecting_handler) [
    | none ↦ s
    | some _ ↦ record s { reconnecting_handler = write s.reconnecting_handler (some callback) }
  ]

  unfoldable pub set_reconnected_handler : System V R → ℕ → System V R
  set_reconnected_handler s callback = elim (lock s.reconnected_handler) [
    | none ↦ s
    | some _ ↦ record s { reconnected_handler = write s.reconnected_handler (some callback) }
  ]

  -- `disconnect_gracefully` up to its await: the connection to close, if there is one.
  unfoldable pub begin_disconnect : System V R → System V R × Res (Option ℕ)
  begin_disconnect s = (
    record s { storage = cancel_pending s.storage (lit "Client disconnected"); shutdown = true },
    closing_of (lock s.state),
  )

  abbrev disconnected : System V R → Option ConnectionState → System V R
  disconnected s none = s
  disconnected s (some not_connected) = s
  disconnected s (some reconnecting) = set_state s not_connected
  disconnected s (some (connected g c)) = set_state s not_connected

  -- The rest of it, once the close frame is acknowledged or has failed.
  unfoldable pub finish_disconnect : System V R → System V R
  finish_disconnect s = send_event (disconnected s (lock s.state)) shut_down

  -- `Arc::strong_count`: the clones, and the pointer that the monitor has upgraded while it handles
  -- an event.
  abbrev strong_count : System V R → ℕ
  strong_count s = s.clients + (if is_handling s.phase then 1 else 0)

  -- `disconnect`: nothing, as long as another pointer lives. The caller's is among `clients`.
  unfoldable pub disconnect : System V R → System V R
  disconnect s =
      if ltb 0 (strong_count s - 1)
      then s
      else send_event (disconnected (record s { shutdown = true }) (lock s.state)) shut_down

  -- `Clone` of the client, and the `Drop` of `SignalRClient` with the pointer that goes after it.
  unfoldable pub clone : System V R → System V R
  clone s = record s { clients = suc s.clients }

  unfoldable pub drop_client : System V R → System V R
  unfolding disconnect
  drop_client s = record (disconnect s) { clients = s.clients - 1 }
