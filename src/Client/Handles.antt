-- ===== src/Client/Handles.antt =====
-- src/client/signalr_client.rs: the handles of a client. A registered callback keeps one, and so
-- counts among the clones.
pub mod Taken
pub mod Counting
pub mod LastHandle
mod Examples
use ac_signalr_client_lib_rs.Base.{
  ℕ, suc, ◌+◌, ◌-◌, ◌≡◌, ◌≢◌, Bool, true, false, Option, none, some, [], ◌∷◌, ◌++◌, Text, lock,
  lookup, if◌then◌else◌, arith,
}
use ac_signalr_client_lib_rs.Execution.Actions.{
  callback_action, invocation_action, enumerable_action,
}
use ac_signalr_client_lib_rs.Execution.Storage.{ActionMap}
use ac_signalr_client_lib_rs.Execution.Dispatch.{
  Codec, add_callback, UnregistrationHandler, unregister,
}
use ac_signalr_client_lib_rs.Communication.Monitor.{
  System, idle, not_connected, shut_down, clone, drop_client, disconnect, set_reconnecting_handler,
  set_reconnected_handler,
}

module _ {ℓ} {V R : Type ℓ} where
  abbrev pub is_vacant : Text → Option (ActionMap V R) → Bool
  is_vacant key none = false
  is_vacant key (some m) = elim (lookup key m) [ none ↦ true | some e ↦ false ]

  -- `register`: the callback takes a clone of the client, which goes where the key is taken.
  unfoldable pub register : Codec V → System V R → Text → ℕ → System V R × UnregistrationHandler
  unfolding add_callback clone drop_client
  register c s target callback =
      let taken = record (clone s) { storage = add_callback c s.storage target callback } in
      (
        if is_vacant target (lock s.storage.actions) then taken else drop_client taken,
        record { key = target },
      )

  abbrev pub is_callback_at : Text → Option (ActionMap V R) → Bool
  is_callback_at key none = false
  is_callback_at key (some m) = elim (lookup key m) [
    | none ↦ false
    | some e ↦ elim e.inner [
      | callback_action a ↦ true
      | invocation_action a ↦ false
      | enumerable_action a ↦ false
    ]
  ]

  -- `unregister`: the callback that is dropped drops its clone.
  unfoldable pub unregister_callback : System V R → UnregistrationHandler → System V R
  unfolding unregister drop_client
  unregister_callback s handler =
      let removed = record s { storage = unregister s.storage handler } in
      if is_callback_at handler.key (lock s.storage.actions) then drop_client removed else removed

  -- `disconnect`: the handle is dropped behind it.
  unfoldable pub disconnect_handle : System V R → System V R
  unfolding drop_client disconnect
  disconnect_handle s = drop_client (disconnect s)

  -- `on_reconnecting` and `on_reconnected`
  unfoldable pub on_reconnecting : System V R → ℕ → System V R
  unfolding set_reconnecting_handler
  on_reconnecting s callback = set_reconnecting_handler s callback

  unfoldable pub on_reconnected : System V R → ℕ → System V R
  unfolding set_reconnected_handler
  on_reconnected s callback = set_reconnected_handler s callback

  -- While the monitor is idle and the state lock is sound, `disconnect` of a handle closes the
  -- connection exactly where it is the last one: then the client is not connected, the shutdown flag
  -- is set and the monitor is told; else nothing but the count of handles changes.
  pub disconnect_handle_lem :
      (s : System V R)
      → s.phase ≡ idle
      → s.state.poisoned ≡ false
      → (s.clients ≡ 1
          → let t = disconnect_handle s in
            (t.state.inner ≡ not_connected)
            × (t.shutdown ≡ true)
            × (t.events ≡ s.events ++ shut_down ∷ [] ++ shut_down ∷ [])
            × (t.clients ≡ 0))
        × ((n : ℕ) → s.clients ≡ suc (suc n) → disconnect_handle s ≡ record s { clients = suc n })
  unfolding disconnect_handle
  disconnect_handle_lem s p q = (λ h. ground arith, λ n h. ground arith)

  -- A callback registered for a target that was free keeps the connection open: `disconnect` of what
  -- may be the last handle of the user changes neither the connection state nor the shutdown flag,
  -- tells the monitor nothing, and leaves as many handles as there were before the registration.
  pub register-disconnect_handle :
      (c : Codec V) (s : System V R) (target : Text) (callback : ℕ)
      → s.clients ≢ 0
      → s.storage.actions.poisoned ≡ false
      → lookup target s.storage.actions.inner ≡ none
      → let t = disconnect_handle (register c s target callback).0 in
        (t.state ≡ s.state)
        × (t.shutdown ≡ s.shutdown)
        × (t.events ≡ s.events)
        × (t.clients ≡ s.clients)
  unfolding disconnect_handle register
  register-disconnect_handle c s target callback n q v = ground arith
