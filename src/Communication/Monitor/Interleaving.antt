-- ===== src/Communication/Monitor/Interleaving.antt =====
-- The clients, the tasks of the connections and the monitor, interleaved in any order.
pub mod Shut
pub mod Changes
pub mod Refinement
pub mod Loss
mod Examples
use ac_signalr_client_lib_rs.Base.{
  ℕ, suc, ◌+◌, ◌<◌, ◌≤◌, ◌^◌, ◌≡◌, refl, some, List, [], ◌∷◌, ◌++◌, Text, lit, Res, ok, err,
  Res-cases, lock-cases, ok-injective, subst, inl, inr, arith,
}
use ac_signalr_client_lib_rs.Protocol.Messages.{Serde, serialize}
use ac_signalr_client_lib_rs.Execution.Storage.{new}
use ac_signalr_client_lib_rs.Execution.Storage.Ownership.{IsOwned}
use ac_signalr_client_lib_rs.Execution.Storage.Cancelling.{cancel_pending-IsOwned}
use ac_signalr_client_lib_rs.Execution.Dispatch.{Codec}
use ac_signalr_client_lib_rs.Execution.Dispatch.History.{Call, perform, perform-IsOwned}
use ac_signalr_client_lib_rs.Communication.Http.{ConnectionData}
use ac_signalr_client_lib_rs.Communication.Monitor.{
  System, ConnectionEvent, connection_lost, shut_down, current_connection, Reply, connect, send,
  set_reconnecting_handler, set_reconnected_handler, begin_disconnect, finish_disconnect,
  disconnect, clone, drop_client, send_event, send_on, connection_of, ConnectionState,
  not_connected, reconnecting, connected, monitor_step, mark_connection_lost,
}
use ac_signalr_client_lib_rs.Communication.Monitor.Generations.{
  IsFresh, StateFresh, EventFresh, EventsFresh, monitor_step-IsFresh,
}

EventsFresh-append :
    (n : ℕ) (es : List ConnectionEvent) (e : ConnectionEvent)
    → EventsFresh n es
    → EventFresh n e
    → EventsFresh n (es ++ e ∷ [])
EventsFresh-append n [] e h g = (g, tt)
EventsFresh-append n (x ∷ es) e h g = (h.0, EventsFresh-append n es e h.1 g)

unfoldable pub reason_of : List ConnectionEvent → Text
reason_of (connection_lost g reason ∷ es) = reason
reason_of es = []

module _ {ℓ} {V R : Type ℓ} where
  -- One step of one of them. A task reports the loss of its connection, whose generation was taken
  -- from the counter before; `sends` has any message type, writer queues and serializer.
  pub data Step (c : Codec V) (s : System V R) : System V R → Type (ℓ + 1) where
    monitors : (r : Reply) → Step c s (monitor_step s r)
    reports :
        (g : ℕ) (reason : Text)
        → g < s.next_generation
        → Step c s (send_event s (connection_lost g reason))
    sends :
        {T : Type ℓ} (queue : ℕ → Text → Res (Unit {0})) (serde : Serde T) (value : T)
        → Step c s (send s queue serde value).0
    stores : (x : Call V R) → Step c s (record s { storage = perform c s.storage x })
    sets_reconnecting : (callback : ℕ) → Step c s (set_reconnecting_handler s callback)
    sets_reconnected : (callback : ℕ) → Step c s (set_reconnected_handler s callback)
    begins_disconnect : Step c s (begin_disconnect s).0
    finishes_disconnect : Step c s (finish_disconnect s)
    disconnects : Step c s (disconnect s)
    clones : Step c s (clone s)
    drops : Step c s (drop_client s)

  -- `n` steps lead from `s` to the second system.
  pub data Reach (c : Codec V) (s : System V R) : ℕ → System V R → Type (ℓ + 1) where
    here : Reach c s 0 s
    later : {n : ℕ} {t u : System V R} → Reach c s n t → Step c t u → Reach c s (suc n) u

  -- What the two invariants say together, and how far the counter has come.
  pub record IsSafe (s : System V R) : Type ℓ where
    pub fresh : IsFresh s
    pub owned : IsOwned s.storage

  monitor_step-IsOwned :
      (s : System V R) (r : Reply) → IsOwned s.storage → IsOwned (monitor_step s r).storage
  unfolding monitor_step mark_connection_lost reason_of
  monitor_step-IsOwned s r w = ground (
    arith,
    cancel_pending-IsOwned s.storage
        (lit "Connection lost before the invocation completed: " ++ reason_of s.events) w,
  )

  reported-IsSafe :
      (s : System V R) (g : ℕ) (reason : Text)
      → g < s.next_generation
      → IsSafe s
      → IsSafe (send_event s (connection_lost g reason))
  reported-IsSafe s g reason l h = record {
    fresh = record {
      state_old = h.fresh.state_old;
      phase_old = h.fresh.phase_old;
      events_old =
          EventsFresh-append s.next_generation s.events (connection_lost g reason)
            h.fresh.events_old l;
    };
    owned = h.owned;
  }

  send_on-IsSafe :
      {T : Type ℓ} (s : System V R) (queue : ℕ → Text → Res (Unit {0})) (serde : Serde T)
      (value : T) (x : ConnectionState)
      → StateFresh x s.next_generation
      → IsSafe s
      → let (t, r) = send_on s queue serde value (connection_of (some x)) in
        IsSafe t × (t.next_generation ≡ s.next_generation)
  send_on-IsSafe s queue serde value not_connected f h = (h, refl)
  send_on-IsSafe s queue serde value reconnecting f h = (h, refl)
  send_on-IsSafe s queue serde value (connected g c) f h =
      elim (Res-cases (serialize serde value s.configuration.protocol)) [
        | inr (m, e) ↦ rw e (h, refl)
        | inl (bytes, e) ↦ elim (Res-cases (queue c bytes)) [
          | inl (u, e') ↦ rw (e, e') (h, refl)
          | inr (m, e') ↦ rw (e, e') (reported-IsSafe s g m f h, refl)
        ]
      ]

  send-IsSafe :
      {T : Type ℓ} (s : System V R) (queue : ℕ → Text → Res (Unit {0})) (serde : Serde T)
      (value : T)
      → IsSafe s
      → let t = (send s queue serde value).0 in
        IsSafe t × (t.next_generation ≤ s.next_generation + 1)
  unfolding send current_connection
  send-IsSafe s queue serde value h = elim (lock-cases s.state) [
    | inl q ↦ rw q (h, omega arith)
    | inr q ↦
        let (t, e) = send_on-IsSafe s queue serde value s.state.inner h.fresh.state_old h in
        rw q (t, omega (arith, e))
  ]

  Step-IsSafe :
      {c : Codec V} {s t : System V R}
      → Step c s t
      → s.next_generation + 1 < 2 ^ 64
      → IsSafe s
      → IsSafe t × (t.next_generation ≤ s.next_generation + 1)
  unfolding set_reconnecting_handler set_reconnected_handler begin_disconnect finish_disconnect
      disconnect clone drop_client send current_connection
  Step-IsSafe {c} {s} (monitors r) b h =
      let (f, _, most) = monitor_step-IsFresh s r b h.fresh in
      (record { fresh = f; owned = monitor_step-IsOwned s r h.owned }, most)
  Step-IsSafe {c} {s} (reports g reason l) b h = (reported-IsSafe s g reason l h, omega arith)
  Step-IsSafe {c} {s} (sends queue serde value) b h = send-IsSafe s queue serde value h
  Step-IsSafe {c} {s} (stores x) b h = (
    record {
      fresh = record {
        state_old = h.fresh.state_old;
        phase_old = h.fresh.phase_old;
        events_old = h.fresh.events_old;
      };
      owned = perform-IsOwned c s.storage x h.owned;
    },
    omega arith,
  )
  Step-IsSafe {c} {s} (sets_reconnecting callback) b h = ground arith
  Step-IsSafe {c} {s} (sets_reconnected callback) b h = ground arith
  Step-IsSafe {c} {s} begins_disconnect b h =
      ground (arith, cancel_pending-IsOwned s.storage (lit "Client disconnected") h.owned)
  Step-IsSafe {c} {s} finishes_disconnect b h =
      ground (arith, EventsFresh-append s.next_generation s.events shut_down h.fresh.events_old tt)
  Step-IsSafe {c} {s} disconnects b h =
      ground (arith, EventsFresh-append s.next_generation s.events shut_down h.fresh.events_old tt)
  Step-IsSafe {c} {s} clones b h = ground arith
  Step-IsSafe {c} {s} drops b h =
      ground (arith, EventsFresh-append s.next_generation s.events shut_down h.fresh.events_old tt)

  connect-IsSafe :
      (configuration : ConnectionData) (socket : Res ℕ) (s : System V R)
      → connect configuration socket ≡ ok s
      → IsSafe s × (s.next_generation ≡ 2)
  unfolding connect new
  connect-IsSafe configuration (err e) s h = cc
  connect-IsSafe configuration (ok c) s h =
      subst (λ x. IsSafe x × (x.next_generation ≡ 2)) (ok-injective h)
        (
          record {
            fresh = record { state_old = omega arith; phase_old = tt; events_old = tt };
            owned = record { unique = tt; balanced = record { balance = λ j. refl; quiet = refl } };
          },
          refl,
        )

  Reach-IsSafe_from :
      {c : Codec V} {s t : System V R} {n : ℕ}
      → Reach c s n t
      → s.next_generation + n < 2 ^ 64
      → IsSafe s
      → IsSafe t × (t.next_generation ≤ s.next_generation + n)
  Reach-IsSafe_from here b h = (h, omega arith)
  Reach-IsSafe_from {c} {s} (later r st) b h =
      let (safe, most) = Reach-IsSafe_from r (omega arith) h in
      let (safe', most') = Step-IsSafe st (omega arith) safe in (safe', omega arith)

  -- A client that connected, and any interleaving of at most 2^64 - 3 steps of its handles, the tasks
  -- of its connections and its monitor: every generation in the connection state, in an attempt under
  -- way and in the waiting events is below the counter, so the next connection gets a new one; no
  -- completion of a future has panicked, the keys of the storage are distinct, and every open future
  -- is owed a result by exactly one action.
  pub Reach-IsSafe :
      {c : Codec V} {s t : System V R} {n : ℕ} (configuration : ConnectionData) (socket : Res ℕ)
      → connect configuration socket ≡ ok s
      → n + 2 < 2 ^ 64
      → Reach c s n t
      → IsSafe t
  Reach-IsSafe {s} configuration socket e b r =
      let (safe, first) = connect-IsSafe configuration socket s e in
      (Reach-IsSafe_from r (omega (arith, first)) safe).0
