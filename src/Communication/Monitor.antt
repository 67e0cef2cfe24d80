-- ===== src/Communication/Monitor.antt =====
-- src/communication/client_tokio.rs: the monitor task that reconnects, on the state that the clones
-- of a client share. It is cut into steps at its awaits, so that calls of the clients can come between
-- any two of them; what an await returns is the step's argument.
mod Clients
pub mod Shutdown
pub mod Attempts
pub mod Driving
pub mod Machine
pub mod Interleaving
pub mod Generations
mod Examples
unfoldable pub use Clients.*
use ac_signalr_client_lib_rs.Base.{
  ℕ, suc, ◌+◌, ◌%◌, ◌^◌, Bool, true, false, not, ◌&&◌, Option, none, some, List, [], ◌∷◌, ◌++◌,
  Text, lit, Res, ok, err, lock, ltb, ◌==◌, if◌then◌else◌, ◌>>=◌,
}
use ac_signalr_client_lib_rs.Client.Configuration.{ReconnectPolicy, delay_for_attempt}
use ac_signalr_client_lib_rs.Execution.Storage.{cancel_pending}
use ac_signalr_client_lib_rs.Communication.Http.{ConnectionData, get_reconnect_policy}

abbrev lost_state : Bool → ConnectionState
lost_state true = reconnecting
lost_state false = not_connected

abbrev is_past : Option ℕ → ℕ → Bool
is_past none attempt = false
is_past (some most) attempt = ltb most attempt

abbrev handler_of : Option (Option ℕ) → Option ℕ
handler_of none = none
handler_of (some h) = h

module _ {ℓ} {V R : Type ℓ} where
  abbrev policy : System V R → ReconnectPolicy
  policy s = get_reconnect_policy s.configuration

  -- `fetch_add(1)` on the generation counter, a `usize` that wraps.
  abbrev fetch_generation : System V R → System V R
  fetch_generation s = record s { next_generation = (s.next_generation + 1) % 2 ^ 64 }

  abbrev mark_locked : System V R → ℕ → Option ConnectionState → System V R × Bool
  mark_locked s g (some (connected current c)) =
      if current == g then (set_state s (lost_state (policy s).enabled), true) else (s, false)
  mark_locked s g _ = (s, false)

  -- `mark_connection_lost`: only the current generation can be lost.
  unfoldable pub mark_connection_lost : System V R → ℕ → System V R × Bool
  unfolding get_reconnect_policy
  mark_connection_lost s g = mark_locked s g (lock s.state)

  abbrev exhausted : System V R → Option ConnectionState → System V R
  exhausted s none = s
  exhausted s (some x) = set_state s not_connected

  -- The top of the loop of `reconnect_until_connected`, up to its sleep.
  unfoldable pub begin_attempt : System V R → ℕ → System V R
  unfolding get_reconnect_policy
  begin_attempt s attempt =
      if s.shutdown
      then record s { phase = idle }
      else if is_past (policy s).max_attempts attempt
      then record (exhausted s (lock s.state)) { phase = idle }
      else record s {
        phase = sleeping attempt;
        delays = s.delays ++ delay_for_attempt (policy s) attempt ∷ [];
      }

  -- The reconnecting callback, if there is one, then the first attempt.
  abbrev announce : System V R → Option ℕ → System V R
  announce s none = begin_attempt s 1
  announce s (some callback) = record s {
    phase = announcing;
    callbacks = s.callbacks ++ callback ∷ [];
  }

  abbrev lost : System V R × Bool → Text → System V R
  lost (s, false) reason = s
  lost (s, true) reason =
      let cancelled = record s {
        storage =
            cancel_pending s.storage
              (lit "Connection lost before the invocation completed: " ++ reason);
      } in
      if not (policy s).enabled
      then cancelled
      else announce cancelled (handler_of (lock s.reconnecting_handler))

  -- One event, at a monitor that could upgrade its weak pointer.
  abbrev handle : System V R → ConnectionEvent → System V R
  handle s shut_down = record s { phase = stopped }
  handle s (connection_lost g reason) =
      if s.shutdown then record s { phase = stopped } else lost (mark_connection_lost s g) reason

  abbrev receive : System V R → List ConnectionEvent → System V R
  receive s [] = s
  receive s (e ∷ rest) =
      let s' = record s { events = rest } in
      if s.clients == 0 then record s' { phase = stopped } else handle s' e

  abbrev reconnected : System V R → Option ℕ → System V R
  reconnected s none = record s { phase = idle }
  reconnected s (some callback) = record s {
    phase = announced;
    callbacks = s.callbacks ++ callback ∷ [];
  }

  abbrev install : System V R → ℕ → ℕ → Option ConnectionState → System V R
  install s g c none = s
  install s g c (some x) = set_state s (connected g c)

-- What an await of the monitor returns.
pub data Reply : Type 0 where
  event_received : Reply
  callback_done : Reply
  slept : Reply
  negotiated : Res ConnectionData → Reply
  socket_opened : Res ℕ → Reply

module _ {ℓ} {V R : Type ℓ} where
  abbrev resume : System V R → Phase → Reply → System V R
  resume s idle event_received = receive s s.events
  resume s announcing callback_done = begin_attempt s 1
  resume s (sleeping attempt) slept =
      if s.shutdown
      then record s { phase = idle }
      else record s { phase = negotiating attempt; negotiations = suc s.negotiations }
  resume s (negotiating attempt) (negotiated (ok configuration)) = record (fetch_generation s) {
    phase = connecting attempt configuration s.next_generation;
  }
  resume s (negotiating attempt) (negotiated (err e)) = begin_attempt s (attempt + 1)
  resume s (connecting attempt configuration g) (socket_opened (ok c)) =
      reconnected (install s g c (lock s.state)) (handler_of (lock s.reconnected_handler))
  resume s (connecting attempt configuration g) (socket_opened (err e)) =
      begin_attempt s (attempt + 1)
  resume s announced callback_done = record s { phase = idle }
  resume s _ _ = s

  -- The monitor goes on from its await; a reply to another await changes nothing.
  unfoldable pub monitor_step : System V R → Reply → System V R
  unfolding begin_attempt mark_connection_lost
  monitor_step s reply = resume s s.phase reply

  unfoldable pub monitor_run : System V R → List Reply → System V R
  monitor_run s [] = s
  monitor_run s (r ∷ rs) = monitor_run (monitor_step s r) rs
