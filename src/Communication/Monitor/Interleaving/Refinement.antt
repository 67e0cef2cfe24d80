-- ===== src/Communication/Monitor/Interleaving/Refinement.antt =====
-- The interleavings refine the abstract machine.
use ac_signalr_client_lib_rs.Base.{
  ℕ, ◌+◌, ◌<◌, ◌≤◌, ◌^◌, ◌≡◌, refl, List, [], ◌++◌, ap, ◌∙◌, Res, ok, err, ok-injective, subst,
  arith,
}
use ac_signalr_client_lib_rs.Execution.Dispatch.{Codec}
use ac_signalr_client_lib_rs.Communication.Http.{ConnectionData, get_reconnect_policy}
use ac_signalr_client_lib_rs.Communication.Monitor.Machine.{
  Turn, Turns, none_yet, then_turn, Turns-dropped,
}
use ac_signalr_client_lib_rs.Communication.Monitor.Interleaving.{Reach, here, later}
use ac_signalr_client_lib_rs.Communication.Monitor.{connect, System, given_up, policy}
use ac_signalr_client_lib_rs.Communication.Monitor.Interleaving.Changes.{
  machine, Refines, Step-IsMoved, Changed-Turn,
}

module _ {ℓ} {V R : Type ℓ} where
  Reach-Turns_from :
      {c : Codec V} {s t : System V R} {n : ℕ} (last : ℕ)
      → Reach c s n t
      → s.next_generation + n < 2 ^ 64
      → Refines s last
      → (last' : ℕ) × (cs : List ℕ) × Turns (policy s).enabled (machine s last) cs (machine t last')
        × Refines t last'
        × (t.configuration ≡ s.configuration)
        × (t.next_generation ≤ s.next_generation + n)
  Reach-Turns_from last here b h = (last, [], none_yet, h, refl, omega arith)
  Reach-Turns_from {c} {s} {t} last (later {t = mid} r st) b h =
      let (mid_last, cs, turns, h', same, most) = Reach-Turns_from last r (omega arith) h in
      let (last', moved) = Step-IsMoved mid_last st (omega arith) h' in
      let (h'', changed, same', most') = moved in
      let (ds, turn) =
        Changed-Turn (policy mid).enabled (machine mid mid_last) (machine t last') changed in
      (
        last',
        cs ++ ds,
        then_turn turns (
            subst (λ e. Turn e (machine mid mid_last) ds (machine t last'))
              (ap (λ d. (get_reconnect_policy d).enabled) same) turn),
        h'',
        same' ∙ same,
        omega arith,
      )

  connect-Refines :
      (configuration : ConnectionData) (socket : Res ℕ) (s : System V R)
      → connect configuration socket ≡ ok s
      → Refines s 1 × (s.next_generation ≡ 2) × (s.configuration ≡ configuration) × (s.dropped ≡ [])
  unfolding connect
  connect-Refines configuration (err e) s h = cc
  connect-Refines configuration (ok c) s h =
      subst
        (λ x.
          Refines x 1
          × (x.next_generation ≡ 2)
          × (x.configuration ≡ configuration)
          × (x.dropped ≡ []))
        (ok-injective h) (record { older = omega arith; ready = tt }, refl, refl, refl)

  -- A client that connected, and any interleaving of at most 2^64 - 3 steps of its handles, the tasks
  -- of its connections and its monitor: the run is one of the abstract machine, whose turns lose the
  -- connection, close it, or install one where there is none, under a generation larger than all
  -- before it; its last generation is below the counter; and the connections given up, then the
  -- current one, are the first connection and those installed since, each once and in order.
  pub Reach-Turns :
      {c : Codec V} {s t : System V R} {n : ℕ} (configuration : ConnectionData) (socket : Res ℕ)
      → connect configuration socket ≡ ok s
      → n + 2 < 2 ^ 64
      → Reach c s n t
      → (last : ℕ) × (cs : List ℕ) × Turns
          (get_reconnect_policy configuration).enabled
          (machine s 1)
          cs
          (machine t last)
        × (last < t.next_generation)
        × (t.dropped ++ given_up t.state.inner ≡ given_up s.state.inner ++ cs)
  Reach-Turns {c} {s} {t} configuration socket e b r =
      let (h, first, same, clean) = connect-Refines configuration socket s e in
      let (last, cs, turns, h', _, _) = Reach-Turns_from 1 r (omega (arith, first)) h in
      (
        last,
        cs,
        subst (λ d. Turns (get_reconnect_policy d).enabled (machine s 1) cs (machine t last)) same
            turns,
        h'.older,
        Turns-dropped turns ∙ ap (λ x. (x ++ given_up s.state.inner) ++ cs) clean,
      )
