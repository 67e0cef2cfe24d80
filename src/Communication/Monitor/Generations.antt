-- ===== src/Communication/Monitor/Generations.antt =====
-- Generations tell the events of an old connection from those of the current one.
use ac_signalr_client_lib_rs.Base.{
  ℕ, ◌+◌, ◌<◌, ◌≤◌, ◌^◌, ◌≡◌, ◌≢◌, refl, false, List, [], ◌∷◌, ◌++◌, Text, lit, ok, length, arith,
}
use ac_signalr_client_lib_rs.Execution.Storage.{cancel_pending}
use ac_signalr_client_lib_rs.Communication.Http.{ConnectionData}
use ac_signalr_client_lib_rs.Communication.Monitor.{
  System, Phase, idle, negotiating, connecting, ConnectionEvent, connection_lost, shut_down,
  ConnectionState, not_connected, connected, Reply, event_received, negotiated, monitor_step,
  monitor_run, mark_connection_lost, policy,
}

module _ {ℓ} {V R : Type ℓ} where
  -- At an idle monitor with a client left and no shutdown, the report that a connection of another
  -- generation than the current one was lost is dropped: the current connection, the pending
  -- invocations and all else stay as they are.
  pub stale_event_ignored :
      (s : System V R) (g current c : ℕ) (reason : Text) (rest : List ConnectionEvent)
      → s.phase ≡ idle
      → s.events ≡ connection_lost g reason ∷ rest
      → s.clients ≢ 0
      → s.shutdown ≡ false
      → s.state.inner ≡ connected current c
      → g ≢ current
      → monitor_step s event_received ≡ record s { events = rest }
  unfolding monitor_step mark_connection_lost
  stale_event_ignored s g current c reason rest p e n h k d = ground arith

  -- At an idle monitor with a client left, no shutdown, a sound state lock and reconnecting
  -- disabled, the report that the current connection was lost gives that connection up and cancels
  -- the pending invocations; the client is then not connected, and the monitor waits for the next
  -- event.
  current_event_disconnects :
      (s : System V R) (g c : ℕ) (reason : Text) (rest : List ConnectionEvent)
      → s.phase ≡ idle
      → s.events ≡ connection_lost g reason ∷ rest
      → s.clients ≢ 0
      → s.shutdown ≡ false
      → s.state.poisoned ≡ false
      → s.state.inner ≡ connected g c
      → (policy s).enabled ≡ false
      → let t = monitor_step s event_received in
        (t.state.inner ≡ not_connected)
        × (t.dropped ≡ s.dropped ++ c ∷ [])
        × (t.storage
            ≡ cancel_pending s.storage
                (lit "Connection lost before the invocation completed: " ++ reason))
        × (t.phase ≡ idle)
        × (t.negotiations ≡ s.negotiations)
  unfolding monitor_step mark_connection_lost
  current_event_disconnects s g c reason rest p e n h q k d = ground arith

-- The generation in a state, in a phase or in an event is below the counter.
abbrev pub StateFresh : ConnectionState → ℕ → Type 0
StateFresh (connected g c) n = g < n
StateFresh _ n = Unit

abbrev pub PhaseFresh : Phase → ℕ → Type 0
PhaseFresh (connecting attempt d g) n = g < n
PhaseFresh _ n = Unit

abbrev pub EventFresh : ℕ → ConnectionEvent → Type 0
EventFresh n (connection_lost g reason) = g < n
EventFresh n shut_down = Unit

abbrev pub EventsFresh : ℕ → List ConnectionEvent → Type 0
EventsFresh n [] = Unit
EventsFresh n (e ∷ es) = EventFresh n e × EventsFresh n es

EventFresh-suc : (n : ℕ) (e : ConnectionEvent) → EventFresh n e → EventFresh (n + 1) e
EventFresh-suc n (connection_lost g reason) h = omega arith
EventFresh-suc n shut_down h = tt

EventsFresh-suc : (n : ℕ) (es : List ConnectionEvent) → EventsFresh n es → EventsFresh (n + 1) es
EventsFresh-suc n [] h = tt
EventsFresh-suc n (e ∷ es) h = (EventFresh-suc n e h.0, EventsFresh-suc n es h.1)

module _ {ℓ} {V R : Type ℓ} where
  -- Every generation that the system has met is below its counter.
  pub record IsFresh (s : System V R) : Type 0 where
    pub state_old : StateFresh s.state.inner s.next_generation
    pub phase_old : PhaseFresh s.phase s.next_generation
    pub events_old : EventsFresh s.next_generation s.events

  pub monitor_step-IsFresh :
      (s : System V R) (r : Reply)
      → s.next_generation + 1 < 2 ^ 64
      → IsFresh s
      → IsFresh (monitor_step s r)
        × (s.next_generation ≤ (monitor_step s r).next_generation)
        × ((monitor_step s r).next_generation ≤ s.next_generation + 1)
  unfolding monitor_step mark_connection_lost
  monitor_step-IsFresh s r b h =
      ground (arith, EventsFresh-suc s.next_generation s.events h.events_old)

  monitor_run-IsFresh :
      (s : System V R) (rs : List Reply)
      → s.next_generation + length rs < 2 ^ 64
      → IsFresh s
      → IsFresh (monitor_run s rs)
  unfolding monitor_run
  monitor_run-IsFresh s [] b h = h
  monitor_run-IsFresh s (r ∷ rs) b h =
      let (h', _, most) = monitor_step-IsFresh s r (omega arith) h in
      monitor_run-IsFresh (monitor_step s r) rs (omega arith) h'

  -- Whatever the awaits of the monitor returned before, from a system whose generations are all
  -- below its counter, as long as the `usize` counter does not wrap: the generation that a
  -- reconnect attempt takes is larger than that of the connection before it and those of all
  -- events that wait in the queue.
  new_generation-IsFresh :
      (s : System V R) (rs : List Reply) (attempt : ℕ) (d : ConnectionData)
      → s.next_generation + length rs < 2 ^ 64
      → IsFresh s
      → (monitor_run s rs).phase ≡ negotiating attempt
      → let t = monitor_run s rs in
        ((monitor_step t (negotiated (ok d))).phase ≡ connecting attempt d t.next_generation)
        × StateFresh t.state.inner t.next_generation
        × EventsFresh t.next_generation t.events
  unfolding monitor_step
  new_generation-IsFresh s rs attempt d b h e =
      let f = monitor_run-IsFresh s rs b h in (rw e refl, f.state_old, f.events_old)
