-- ===== src/Execution/Dispatch/Registration.antt =====
-- Registering a callback after its messages have arrived.
use ac_signalr_client_lib_rs.Base.{
  ℕ, ◌≤◌, ◌≡◌, ap, ◌∙◌, some, inl, inr, Option-cases, false, List, [], ◌∷◌, ◌++◌, append_assoc,
  append-nil, Text, lookup, insert, remove, lookup-insert_self, insert-lookup, lookup-remove,
  text_eq_refl, length, last_of, write, Res, ok, err, arith,
}
use ac_signalr_client_lib_rs.Protocol.Negotiate as Negotiate
use ac_signalr_client_lib_rs.Protocol.Negotiate.{MessageType}
use ac_signalr_client_lib_rs.Protocol.Invoke.{Invocation}
use ac_signalr_client_lib_rs.Protocol.Messages.{deserialize}
use ac_signalr_client_lib_rs.Execution.Heap.{call}
use ac_signalr_client_lib_rs.Execution.Actions.{
  Action, CallbackAction, callback_action, update_with,
}
use ac_signalr_client_lib_rs.Execution.Storage.{
  Storage, ActionMap, Deferred, update, insert_action, replay_all, replay_deferred,
}
use ac_signalr_client_lib_rs.Execution.Storage.Deferral.{
  queue, IsUnregistered, defer_all, queue-defer_all, defer_all-keeps,
}
use ac_signalr_client_lib_rs.Execution.Dispatch.{Codec, add_callback}

abbrev pub call_of {ℓ} : {V : Type ℓ} → ℕ → Res (Invocation V) → List (ℕ × Invocation V)
call_of callback (ok i) = (callback, i) ∷ []
call_of callback (err e) = []

abbrev call_for {ℓ} : {V : Type ℓ} → MessageType → ℕ → Res (Invocation V) → List (ℕ × Invocation V)
call_for Negotiate.invocation callback r = call_of callback r
call_for _ callback r = []

-- The calls of a callback that messages amount to: one for each that is an invocation and can be
-- deserialized.
unfoldable pub calls_for {ℓ} : {V : Type ℓ} → Codec V → ℕ → List Deferred → List (ℕ × Invocation V)
calls_for c callback [] = []
calls_for c callback (d ∷ ds) =
    call_for d.message_type callback (deserialize c.invocations d.message d.protocol)
    ++ calls_for c callback ds

abbrev pub registered {ℓ} : {V : Type ℓ} → Codec V → Text → ℕ → CallbackAction V
registered c key callback = record {
  target = key;
  callback = callback;
  invocations = c.invocations;
}

module _ {ℓ} {V R : Type ℓ} (c : Codec V) (key : Text) (callback : ℕ) where
  -- The callback stands in a sound storage.
  pub record IsRegistered (s : Storage V R) : Type ℓ where
    pub sound : s.actions.poisoned ≡ false
    pub found :
        lookup key s.actions.inner
        ≡ some (record { poisoned = false; inner = callback_action (registered c key callback) })

  pub replay_step :
      (s : Storage V R) (d : Deferred)
      → IsRegistered s
      → (update s key (λ a h. update_with c.lossy a h d.message d.message_type d.protocol)).0
        ≡ record s {
          heap = record s.heap {
            calls =
                s.heap.calls
                ++ call_for d.message_type callback
                    (deserialize c.invocations d.message d.protocol);
          };
        }
  unfolding update update_with call
  replay_step s d r = ground (
    arith,
    insert-lookup key
        (record { poisoned = false; inner = callback_action (registered c key callback) })
        s.actions.inner,
    append-nil s.heap.calls,
  )

  pub replay_all-calls :
      (ds : List Deferred) (s : Storage V R)
      → IsRegistered s
      → replay_all c.lossy s key ds
        ≡ record s { heap = record s.heap { calls = s.heap.calls ++ calls_for c callback ds } }
  unfolding replay_all calls_for
  replay_all-calls [] s r = rw (append-nil s.heap.calls)
  replay_all-calls (d ∷ ds) s r = rw (replay_step s d r) (
      replay_all-calls ds _ (record { sound = r.sound; found = r.found })
      ∙ ap (λ l. record s { heap = record s.heap { calls = l } })
          (append_assoc s.heap.calls _ (calls_for c callback ds)))

  replay_deferred-calls :
      (s : Storage V R)
      → IsRegistered s
      → s.deferred_messages.poisoned ≡ false
      → ((replay_deferred c.lossy s key).heap.calls
          ≡ s.heap.calls ++ calls_for c callback (queue s key))
        × (queue (replay_deferred c.lossy s key) key ≡ [])
  unfolding replay_deferred queue calls_for
  replay_deferred-calls s r sound = elim (Option-cases (lookup key s.deferred_messages.inner)) [
    | inl e ↦ ground (arith, append-nil s.heap.calls)
    | inr (q, e) ↦ ground (
      arith,
      replay_all-calls q
          (record s {
            deferred_messages = write s.deferred_messages (remove key s.deferred_messages.inner);
          })
          (record { sound = r.sound; found = r.found }),
      lookup-remove key key s.deferred_messages.inner,
      text_eq_refl key,
    )
  ]

  insert_vacant :
      (s : Storage V R) (a : Action V R)
      → IsUnregistered s key
      → insert_action s key a ≡ record s {
        actions =
            write s.actions (insert key (record { poisoned = false; inner = a }) s.actions.inner);
      }
  unfolding insert_action
  insert_vacant s a u = ground (arith, u.vacant)

  add_callback-queue :
      (t : Storage V R)
      → IsUnregistered t key
      → ((add_callback c t key callback).heap.calls
          ≡ t.heap.calls ++ calls_for c callback (queue t key))
        × (queue (add_callback c t key callback) key ≡ [])
  unfolding add_callback queue
  add_callback-queue t u =
      let a : Action V R = callback_action (registered c key callback) in
      let m : ActionMap V R = insert key (record { poisoned = false; inner = a }) t.actions.inner in
      let t' : Storage V R = record t { actions = write t.actions m } in
      let r : IsRegistered t' = record {
        sound = u.actions_sound;
        found = lookup-insert_self key (record { poisoned = false; inner = a }) t.actions.inner;
      } in
      rw (insert_vacant t a u) (replay_deferred-calls t' r u.deferred_sound)

  -- Messages for a target arrive at a storage with sound locks, and a queue within the capacity,
  -- while no callback is registered for it, and then one is: of the messages kept before and
  -- these, the last `deferred_message_capacity` are replayed, in order. The callback is called
  -- once for each that is an invocation and can be deserialized, and the queue of the target is
  -- empty afterwards.
  pub add_callback-defer_all :
      (s : Storage V R) (ds : List Deferred)
      → IsUnregistered s key
      → length (queue s key) ≤ s.deferred_message_capacity
      → let t = add_callback c (defer_all c.lossy s key ds) key callback in
        (t.heap.calls
          ≡ s.heap.calls
            ++ calls_for c callback (last_of s.deferred_message_capacity (queue s key ++ ds)))
        × (queue t key ≡ [])
  add_callback-defer_all s ds u h =
      let t : Storage V R = defer_all c.lossy s key ds in
      let (u', same) = defer_all-keeps c.lossy s key ds u h in
      let (calls, drained) = add_callback-queue t u' in
      (
        calls
            ∙ ap (λ g. g.calls ++ calls_for c callback (queue t key)) same
            ∙ ap (λ q. s.heap.calls ++ calls_for c callback q)
                (queue-defer_all c.lossy s key ds u h),
        drained,
      )
