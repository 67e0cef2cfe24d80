-- ===== src/Communication/Monitor/Interleaving/Shut.antt =====
-- What can still happen once the shutdown flag is set.
use ac_signalr_client_lib_rs.Base.{ℕ, ◌≡◌, ◌⊎◌, inl, refl, ◌∙◌, true, arith}
use ac_signalr_client_lib_rs.Execution.Dispatch.{Codec}
use ac_signalr_client_lib_rs.Communication.Monitor.{
  System, not_connected, monitor_step, send, current_connection, set_reconnecting_handler,
  set_reconnected_handler, begin_disconnect, finish_disconnect, disconnect, clone, drop_client,
}
use ac_signalr_client_lib_rs.Communication.Monitor.Shutdown.{IsOutside}
use ac_signalr_client_lib_rs.Communication.Monitor.Interleaving.{
  Step, monitors, reports, sends, stores, sets_reconnecting, sets_reconnected, begins_disconnect,
  finishes_disconnect, disconnects, clones, drops, Reach, here, later,
}

module _ {ℓ} {V R : Type ℓ} where
  -- `t` is shut down, outside of any attempt, and has begun none and installed no connection since `s`.
  pub record IsShut (s t : System V R) : Type ℓ where
    pub shut : t.shutdown ≡ true
    pub outside : IsOutside t.phase
    pub same_negotiations : t.negotiations ≡ s.negotiations
    pub same_generation : t.next_generation ≡ s.next_generation
    pub same_state : (t.state.inner ≡ s.state.inner) ⊎ (t.state.inner ≡ not_connected)

  Step-IsShut :
      {c : Codec V} {s t : System V R}
      → Step c s t
      → s.shutdown ≡ true
      → IsOutside s.phase
      → IsShut s t
  unfolding monitor_step send current_connection set_reconnecting_handler set_reconnected_handler
      begin_disconnect finish_disconnect disconnect clone drop_client
  Step-IsShut {c} {s} (monitors r) h o = ground arith
  Step-IsShut {c} {s} (reports g reason l) h o = ground arith
  Step-IsShut {c} {s} (sends queue serde value) h o = ground arith
  Step-IsShut {c} {s} (stores x) h o = ground arith
  Step-IsShut {c} {s} (sets_reconnecting callback) h o = ground arith
  Step-IsShut {c} {s} (sets_reconnected callback) h o = ground arith
  Step-IsShut {c} {s} begins_disconnect h o = ground arith
  Step-IsShut {c} {s} finishes_disconnect h o = ground arith
  Step-IsShut {c} {s} disconnects h o = ground arith
  Step-IsShut {c} {s} clones h o = ground arith
  Step-IsShut {c} {s} drops h o = ground arith

  -- Once the shutdown flag is set and the monitor is not inside an attempt, then after any interleaving
  -- of the handles, the tasks and the monitor the flag is still set, no attempt was begun, no
  -- generation was taken, and the connection state is what it was, or not connected.
  pub Reach-IsShut :
      {c : Codec V} {s t : System V R} {n : ℕ}
      → Reach c s n t
      → s.shutdown ≡ true
      → IsOutside s.phase
      → IsShut s t
  Reach-IsShut here h o = record {
    shut = h;
    outside = o;
    same_negotiations = refl;
    same_generation = refl;
    same_state = inl refl;
  }
  Reach-IsShut {c} {s} (later {t} {u} r st) h o =
      let before = Reach-IsShut r h o in
      let last = Step-IsShut st before.shut before.outside in
      record {
        shut = last.shut;
        outside = last.outside;
        same_negotiations = last.same_negotiations ∙ before.same_negotiations;
        same_generation = last.same_generation ∙ before.same_generation;
        same_state = ground (arith, last.same_state, before.same_state);
      }
