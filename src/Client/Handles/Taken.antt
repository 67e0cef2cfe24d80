-- ===== src/Client/Handles/Taken.antt =====
-- A second callback for a target.
use ac_signalr_client_lib_rs.Base.{
  ℕ, ◌≡◌, refl, ◌∙◌, ap, none, inl, inr, Text, lookup, remove, write, Option-cases, lock-cases,
  arith,
}
use ac_signalr_client_lib_rs.Execution.Actions.{callback_action, drop_action}
use ac_signalr_client_lib_rs.Execution.Storage.{
  Storage, insert_action, replay_deferred, remove_action,
}
use ac_signalr_client_lib_rs.Execution.Storage.Callbacks.{lookup-remove_action}
use ac_signalr_client_lib_rs.Execution.Dispatch.{Codec, add_callback, unregister}
use ac_signalr_client_lib_rs.Execution.Dispatch.Registration.{
  registered, IsRegistered, replay_all-calls,
}
use ac_signalr_client_lib_rs.Communication.Monitor.{System, clone}
use ac_signalr_client_lib_rs.Client.Handles.Counting.{drop_client_kept}
use ac_signalr_client_lib_rs.Client.Handles.{register, unregister_callback}

module _ {ℓ} {V R : Type ℓ} (c : Codec V) (target : Text) (first second : ℕ) where
  replay_deferred-actions :
      (s : Storage V R)
      → IsRegistered c target first s
      → (replay_deferred c.lossy s target).actions ≡ s.actions
  unfolding replay_deferred
  replay_deferred-actions s r = elim (lock-cases s.deferred_messages) [
    | inl q ↦ rw q refl
    | inr q ↦ elim (Option-cases (lookup target s.deferred_messages.inner)) [
      | inl e ↦ rw (q, e) refl
      | inr (ds, e) ↦
          rw (q, e)
            (ap (λ x. x.actions)
              (replay_all-calls c target first ds
                (record s {
                  deferred_messages =
                      write s.deferred_messages (remove target s.deferred_messages.inner);
                })
                (record { sound = r.sound; found = r.found })))
    ]
  ]

  insert_taken :
      (s : Storage V R)
      → IsRegistered c target first s
      → insert_action s target (callback_action (registered c target second)) ≡ s
  unfolding insert_action drop_action
  insert_taken s r = ground (arith, r.sound, r.found)

  add_callback_taken :
      (s : Storage V R)
      → IsRegistered c target first s
      → (add_callback c s target second).actions ≡ s.actions
  unfolding add_callback
  add_callback_taken s r =
      ap (λ x. (replay_deferred c.lossy x target).actions) (insert_taken s r)
      ∙ replay_deferred-actions s r

  register-storage :
      (s : System V R)
      → IsRegistered c target first s.storage
      → ((register c s target second).0.storage ≡ add_callback c s.storage target second)
        × ((register c s target second).0.clients ≡ s.clients)
  unfolding register clone
  register-storage s r =
      let (clients, storage) =
        drop_client_kept (record (clone s) { storage = add_callback c s.storage target second }) in
      ground (arith, r.sound, r.found, clients, storage)

  unregister_callback-storage :
      (s : System V R)
      → (unregister_callback s (record { key = target })).storage ≡ remove_action s.storage target
  unfolding unregister_callback unregister
  unregister_callback-storage s =
      let (clients, storage) =
        drop_client_kept (record s { storage = remove_action s.storage target }) in
      ground (arith, storage)

  -- Where a callback is registered for a target already, `register` for that target keeps the first
  -- one and drops the second, with no sign to the caller; and the handle that it returns for the
  -- second takes the first one away.
  pub register-unregister_callback :
      (s : System V R)
      → IsRegistered c target first s.storage
      → let (t, handler) = register c s target second in
        (t.storage.actions ≡ s.storage.actions)
        × (t.clients ≡ s.clients)
        × (lookup target (unregister_callback t handler).storage.actions.inner ≡ none)
  unfolding register
  register-unregister_callback s r =
      let t : System V R = (register c s target second).0 in
      let (storage, clients) = register-storage s r in
      let same : t.storage.actions ≡ s.storage.actions =
        ap (λ x. x.actions) storage ∙ add_callback_taken s.storage r in
      (
        same,
        clients,
        ap (λ x. lookup target x.actions.inner) (unregister_callback-storage t)
            ∙ lookup-remove_action t.storage target (ap (λ x. x.poisoned) same ∙ r.sound),
      )
