-- ===== src/Client/Handles/LastHandle.antt =====
-- When the last handle of a client goes.
use ac_signalr_client_lib_rs.Base.{
  ℕ, suc, ◌+◌, ◌-◌, ◌≡◌, ◌≢◌, refl, sym, subst, ◌∙◌, ap, true, false, [], ◌∷◌, ◌++◌, Res, ok, err,
  ok-injective, arith,
}
use ac_signalr_client_lib_rs.Execution.Storage.{new}
use ac_signalr_client_lib_rs.Execution.Storage.Callbacks.{callback_count}
use ac_signalr_client_lib_rs.Execution.Dispatch.{Codec}
use ac_signalr_client_lib_rs.Communication.Http.{ConnectionData}
use ac_signalr_client_lib_rs.Communication.Monitor.{System, shut_down, idle, not_connected, connect}
use ac_signalr_client_lib_rs.Client.Handles.{disconnect_handle, disconnect_handle_lem}
use ac_signalr_client_lib_rs.Client.Handles.Counting.{Moves, start, next, IsCounted, Move-IsCounted}

module _ {ℓ} {V R : Type ℓ} where
  connect-IsCounted :
      (configuration : ConnectionData) (socket : Res ℕ) (s : System V R)
      → connect configuration socket ≡ ok s
      → IsCounted s 1
  unfolding connect new callback_count
  connect-IsCounted configuration (err e) s h = cc
  connect-IsCounted configuration (ok c) s h =
      subst (λ x. IsCounted x 1) (ok-injective h)
        (record {
          counted = omega arith;
          owned = record { unique = tt; balanced = record { balance = λ j. refl; quiet = refl } };
        })

  Moves-IsCounted :
      {c : Codec V} {s : System V R} {u : ℕ} {t : System V R} {v : ℕ}
      → Moves c s u t v
      → IsCounted s u
      → IsCounted t v
  Moves-IsCounted start h = h
  Moves-IsCounted (next r m) h = Move-IsCounted m (Moves-IsCounted r h)

  -- A client that connected, and any history of the handles of its user, its callbacks, its tasks and
  -- its monitor, in which callbacks are registered and unregistered and may keep their contexts. While
  -- the monitor is idle and the state lock is sound, `disconnect` of one of the user's handles closes
  -- the connection exactly where it is the last one and no callback is registered: then the client is
  -- not connected, the shutdown flag is set and the monitor is told. Else the number of handles, which
  -- counts the user's and the callbacks, goes down by one, and nothing else changes.
  pub Moves-disconnect_handle :
      {c : Codec V} {s t : System V R} {v : ℕ} (configuration : ConnectionData) (socket : Res ℕ)
      → connect configuration socket ≡ ok s
      → Moves c s 1 t (suc v)
      → t.phase ≡ idle
      → t.state.poisoned ≡ false
      → let n = v + callback_count t.storage.actions.inner in
        let x = disconnect_handle t in
        (n ≡ 0
          → (x.state.inner ≡ not_connected)
            × (x.shutdown ≡ true)
            × (x.events ≡ t.events ++ shut_down ∷ [] ++ shut_down ∷ [])
            × (x.clients ≡ 0))
        × (n ≢ 0 → x ≡ record t { clients = n })
  Moves-disconnect_handle {t = t} {v = v} configuration socket e m idle_now sound =
      let h = (Moves-IsCounted m (connect-IsCounted configuration socket _ e)).counted in
      let n : ℕ = v + callback_count t.storage.actions.inner in
      let (last, other) = disconnect_handle_lem t idle_now sound in
      (
        λ z. last (omega (arith, h, z)),
        λ z.
            let p : n ≡ suc (n - 1) = omega (arith, z) in
            let q : t.clients ≡ suc (suc (n - 1)) = omega (arith, h, z) in
            other (n - 1) q ∙ ap (λ k. record t { clients = k }) (sym p),
      )
