-- ===== src/Communication/Monitor/Interleaving/Changes.antt =====
-- What each step of an interleaving changes in the abstract machine.
use ac_signalr_client_lib_rs.Base.{
  ℕ, ◌+◌, ◌<◌, ◌≤◌, ◌^◌, ◌≡◌, ◌⊎◌, inl, inr, refl, Bool, false, List, [], ◌∷◌, ◌++◌, append-nil,
  sym, Option, none, some, ◌≢◌, Text, Res, ok, subst, arith,
}
use ac_signalr_client_lib_rs.Protocol.Messages.{Serde}
use ac_signalr_client_lib_rs.Execution.Dispatch.{Codec}
use ac_signalr_client_lib_rs.Communication.Http.{get_reconnect_policy}
use ac_signalr_client_lib_rs.Communication.Monitor.Machine.{
  Machine, after_loss, Turn, stays, loses, closes, installs,
}
use ac_signalr_client_lib_rs.Communication.Monitor.Interleaving.{
  Step, monitors, reports, sends, stores, sets_reconnecting, sets_reconnected, begins_disconnect,
  finishes_disconnect, disconnects, clones, drops,
}
use ac_signalr_client_lib_rs.Communication.Monitor.{
  send, current_connection, set_reconnecting_handler, set_reconnected_handler, begin_disconnect,
  finish_disconnect, disconnect, clone, drop_client, System, Phase, sleeping, announcing,
  negotiating, connecting, ConnectionState, not_connected, connected, Reply, given_up, policy,
  monitor_step, mark_connection_lost, socket_opened, begin_attempt,
}

abbrev pub machine {ℓ} : {V R : Type ℓ} → System V R → ℕ → Machine
machine s last = record { state = s.state.inner; last = last; dropped = s.dropped }

-- During an attempt there is no connection, and the generation that it took is new.
abbrev pub IsReady : Phase → ConnectionState → ℕ → ℕ → Type 0
IsReady announcing x last next = given_up x ≡ []
IsReady (sleeping attempt) x last next = given_up x ≡ []
IsReady (negotiating attempt) x last next = given_up x ≡ []
IsReady (connecting attempt d g) x last next = (given_up x ≡ []) × (last < g) × (g < next)
IsReady _ x last next = Unit

-- The last generation after a reply.
abbrev next_last : Phase → Reply → Bool → ℕ → ℕ
next_last (connecting attempt d g) (socket_opened (ok c)) false last = g
next_last _ _ _ last = last

abbrev pub generation_of : ConnectionState → Option ℕ
generation_of (connected g c) = some g
generation_of _ = none

-- What a turn changes, as a sum of equations.
abbrev pub Changed : Bool → Machine → Machine → Type 0
Changed enabled m m' =
    ((m'.state ≡ m.state) × (m'.last ≡ m.last) × (m'.dropped ≡ m.dropped))
    ⊎ ((given_up m.state ≢ [])
        × (m'.state ≡ after_loss enabled)
        × (m'.last ≡ m.last)
        × (m'.dropped ≡ m.dropped ++ given_up m.state))
    ⊎ ((m'.state ≡ not_connected)
        × (m'.last ≡ m.last)
        × (m'.dropped ≡ m.dropped ++ given_up m.state))
    ⊎ ((given_up m.state ≡ [])
        × (m.last < m'.last)
        × (generation_of m'.state ≡ some m'.last)
        × (m'.dropped ≡ m.dropped))

loses-Turn :
    (enabled : Bool) (m m' : Machine) (x : ConnectionState)
    → m.state ≡ x
    → given_up x ≢ []
    → m' ≡ record { state = after_loss enabled; last = m.last; dropped = m.dropped ++ given_up x }
    → Turn enabled m [] m'
loses-Turn enabled m m' (connected g c) e d h = subst (Turn enabled m []) (sym h) (loses g c e)
loses-Turn enabled m m' _ e d h = ground arith

installs-Turn :
    (enabled : Bool) (m m' : Machine) (x : ConnectionState) (g : ℕ)
    → given_up m.state ≡ []
    → m.last < g
    → generation_of x ≡ some g
    → m' ≡ record { state = x; last = g; dropped = m.dropped }
    → (c : ℕ) × Turn enabled m (c ∷ []) m'
installs-Turn enabled m m' (connected g' c) g d l e h =
    (c, subst (Turn enabled m (c ∷ [])) (ground arith) (installs g c d l))
installs-Turn enabled m m' _ g d l e h = ground arith

pub Changed-Turn :
    (enabled : Bool) (m m' : Machine) → Changed enabled m m' → (cs : List ℕ) × Turn enabled m cs m'
Changed-Turn enabled m m' (inl h) =
    let same : m ≡ m' = ground arith in ([], subst (Turn enabled m []) same stays)
Changed-Turn enabled m m' (inr (inl h)) =
    ([], loses-Turn enabled m m' m.state refl h.0 (ground arith))
Changed-Turn enabled m m' (inr (inr (inl h))) =
    let same : record m { state = not_connected; dropped = m.dropped ++ given_up m.state } ≡ m' =
      ground arith in
    ([], subst (Turn enabled m []) same closes)
Changed-Turn enabled m m' (inr (inr (inr h))) =
    let (c, t) = installs-Turn enabled m m' m'.state m'.last h.0 h.1 h.2 (ground arith) in
    (c ∷ [], t)

module _ {ℓ} {V R : Type ℓ} where
  pub record Refines (s : System V R) (last : ℕ) : Type 0 where
    pub older : last < s.next_generation
    pub ready : IsReady s.phase s.state.inner last s.next_generation

  abbrev pub IsMoved : System V R → ℕ → System V R → ℕ → Type 0
  IsMoved s last t last' =
      Refines t last'
      × Changed (policy s).enabled (machine s last) (machine t last')
      × (t.configuration ≡ s.configuration)
      × (t.next_generation ≤ s.next_generation + 1)

  monitor_step-IsMoved :
      (s : System V R) (r : Reply) (last : ℕ)
      → s.next_generation + 1 < 2 ^ 64
      → Refines s last
      → IsMoved s last (monitor_step s r) (next_last s.phase r s.state.poisoned last)
  unfolding monitor_step mark_connection_lost begin_attempt get_reconnect_policy
  monitor_step-IsMoved s r last b h =
      ground (arith, append-nil s.dropped, append-nil (s.dropped ++ given_up s.state.inner))

  send-IsMoved :
      {T : Type ℓ} (s : System V R) (queue : ℕ → Text → Res (Unit {0})) (serde : Serde T)
      (value : T) (last : ℕ)
      → Refines s last
      → IsMoved s last (send s queue serde value).0 last
  unfolding send current_connection
  send-IsMoved s queue serde value last h = ground arith

  finish_disconnect-IsMoved :
      (s : System V R) (last : ℕ) → Refines s last → IsMoved s last (finish_disconnect s) last
  unfolding finish_disconnect
  finish_disconnect-IsMoved s last h = ground arith

  disconnect-IsMoved :
      (s : System V R) (last : ℕ) → Refines s last → IsMoved s last (disconnect s) last
  unfolding disconnect
  disconnect-IsMoved s last h = ground arith

  set_reconnecting_handler-IsMoved :
      (s : System V R) (callback last : ℕ)
      → Refines s last
      → IsMoved s last (set_reconnecting_handler s callback) last
  unfolding set_reconnecting_handler
  set_reconnecting_handler-IsMoved s callback last h = ground arith

  set_reconnected_handler-IsMoved :
      (s : System V R) (callback last : ℕ)
      → Refines s last
      → IsMoved s last (set_reconnected_handler s callback) last
  unfolding set_reconnected_handler
  set_reconnected_handler-IsMoved s callback last h = ground arith

  pub Step-IsMoved :
      {c : Codec V} {s t : System V R} (last : ℕ)
      → Step c s t
      → s.next_generation + 1 < 2 ^ 64
      → Refines s last
      → (last' : ℕ) × IsMoved s last t last'
  unfolding begin_disconnect clone drop_client
  Step-IsMoved {c} {s} last (monitors r) b h =
      (next_last s.phase r s.state.poisoned last, monitor_step-IsMoved s r last b h)
  Step-IsMoved {c} {s} last (reports g reason l) b h = (last, ground arith)
  Step-IsMoved {c} {s} last (sends queue serde value) b h =
      (last, send-IsMoved s queue serde value last h)
  Step-IsMoved {c} {s} last (stores x) b h = (last, ground arith)
  Step-IsMoved {c} {s} last (sets_reconnecting callback) b h =
      (last, set_reconnecting_handler-IsMoved s callback last h)
  Step-IsMoved {c} {s} last (sets_reconnected callback) b h =
      (last, set_reconnected_handler-IsMoved s callback last h)
  Step-IsMoved {c} {s} last begins_disconnect b h = (last, ground arith)
  Step-IsMoved {c} {s} last finishes_disconnect b h = (last, finish_disconnect-IsMoved s last h)
  Step-IsMoved {c} {s} last disconnects b h = (last, disconnect-IsMoved s last h)
  Step-IsMoved {c} {s} last clones b h = (last, ground arith)
  Step-IsMoved {c} {s} last drops b h =
      let (r, changed, same, most) = disconnect-IsMoved s last h in
      (last, (record { older = r.older; ready = r.ready }, changed, same, most))
