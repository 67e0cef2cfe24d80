-- ===== src/Client/Calls/Answered.antt =====
-- An invocation from the call to its answer: through the client, the storage, and the reader task.
use ac_signalr_client_lib_rs.Base.{
  ℕ, ◌≡◌, refl, ◌∙◌, ap, true, false, Option, none, some, List, [], ◌∷◌, ◌++◌, Text, Res, ok, err,
  length, get_elem?, get_elem?-set, get_elem?-append, lookup, insert, remove_vacant, remove-insert,
  lookup-insert_self, unlocked, ok-injective, Mutex, write, if◌then◌else◌, ◌==◌, arith,
}
use ac_signalr_client_lib_rs.Client.Configuration.{json}
use ac_signalr_client_lib_rs.Client.Calls.{invoke_internal, send_built, configured, awaited}
use ac_signalr_client_lib_rs.Client.Calls.Cleanup.{send_built-storage}
use ac_signalr_client_lib_rs.Completer.Future.{incomplete, complete, complete_with}
use ac_signalr_client_lib_rs.Protocol.Negotiate as Negotiate
use ac_signalr_client_lib_rs.Protocol.Negotiate.{Ping}
use ac_signalr_client_lib_rs.Protocol.Invoke.{
  Invocation, Completion, PossibleInvocation, Built, create_single, with_invocation_id, into_result,
}
use ac_signalr_client_lib_rs.Protocol.Utf8.Pieces.{IsUtf8}
use ac_signalr_client_lib_rs.Protocol.Messages.{Serde, separator, deserialize}
use ac_signalr_client_lib_rs.Protocol.Framing.Cut.{IsMessage, get_messages_binary-text}
use ac_signalr_client_lib_rs.Protocol.Framing.Roundtrip.{get_messages_binary_iff}
use ac_signalr_client_lib_rs.Execution.Heap.{Heap, settle, new_future}
use ac_signalr_client_lib_rs.Execution.Actions.{Action, invocation_action, new_invocation}
use ac_signalr_client_lib_rs.Execution.Storage.{Storage, insert_action}
use ac_signalr_client_lib_rs.Execution.Dispatch.{Codec, create_key, add_invocation, process_message}
use ac_signalr_client_lib_rs.Execution.Dispatch.Completions.{Awaits, completion_resolves}
use ac_signalr_client_lib_rs.Communication.Monitor.{System}
use ac_signalr_client_lib_rs.Communication.Tasks.{
  text_frame, read_signalr_message_type, process_all, reader_step,
}

module _ {ℓ} {V R : Type ℓ} where
  -- An invocation whose send went well leaves the storage as `add_invocation` made it.
  awaited-ok :
      (key : Text) (j i : ℕ) (p : System V R × Res (Unit {0}))
      → (awaited key j p).2 ≡ ok i
      → ((awaited key j p).0 ≡ p.0) × (j ≡ i)
  awaited-ok key j i (s, ok u) h = (refl, ok-injective h)
  awaited-ok key j i (s, err e) h = cc

  pub invoke_internal-ok :
      (s : System V R) (queue : ℕ → Text → Res (Unit {0})) (invocations : Serde (Invocation V))
      (completions : Serde (Completion R)) (target : Text) (arguments : Option (List (Res V)))
      (i : ℕ)
      → let (made, key) = create_key s.storage target in
        let (t, key', r) = invoke_internal s queue invocations completions target arguments in
        r ≡ ok i
        → (t.storage ≡ (add_invocation made key completions).0)
          × ((add_invocation made key completions).1 ≡ i)
  unfolding invoke_internal
  invoke_internal-ok s queue invocations completions target arguments i h =
      let (made, key) = create_key s.storage target in
      let (stored, j) = add_invocation made key completions in
      let b : Built V = configured (with_invocation_id (create_single target) key) arguments in
      let p : System V R × Res (Unit {0}) =
        send_built (record s { storage = stored }) queue invocations b in
      let (same, number) = awaited-ok key j i p h in
      (
        ap (λ x. x.storage) same
            ∙ send_built-storage (record s { storage = stored }) queue invocations b,
        number,
      )

  -- One message in a text frame goes to `process_message`.
  pub reader_step_one :
      (pings : Serde Ping) (c : Codec V) (s : Storage V R) (message : Text)
      (t : Negotiate.MessageType)
      → IsMessage message
      → IsUtf8 (message ++ separator ∷ [])
      → read_signalr_message_type pings message json ≡ ok t
      → (reader_step pings c json s (ok (text_frame (message ++ separator ∷ [])))).0
        ≡ (process_message c s message t json).0
  unfolding reader_step process_all
  reader_step_one pings c s message t m u e =
      rw
        (
          u,
          ← get_messages_binary-text (message ++ separator ∷ []),
          (get_messages_binary_iff message).1 m,
          e,
        )
        refl

  pub settled :
      (h : Heap V R) (r : Res R)
      → let (h', i) = new_future h in get_elem? (settle h' i r).futures i ≡ some (complete (some r))
  unfolding settle new_future complete_with
  settled h r =
      let i : ℕ = length h.futures in
      let self : (i == i) ≡ true = ground arith in
      let last : get_elem? (h.futures ++ incomplete ∷ []) i ≡ some incomplete =
        get_elem?-append h.futures i incomplete
        ∙ ap (λ b. if b then some incomplete else get_elem? h.futures i) self in
      rw last (
        get_elem?-set (h.futures ++ incomplete ∷ []) i i (complete (some r)) last
        ∙ ap
            (λ b.
              if b then some (complete (some r)) else get_elem? (h.futures ++ incomplete ∷ []) i)
            self)

  abbrev pub pending_entry : Text → ℕ → Serde (Completion R) → Mutex (Action V R)
  pending_entry key i completions = unlocked (
      invocation_action
        (record { invocation_id = key; completer = some i; completions = completions }))

  pub add_invocation_vacant :
      (s : Storage V R) (key : Text) (completions : Serde (Completion R))
      → s.actions.poisoned ≡ false
      → lookup key s.actions.inner ≡ none
      → (add_invocation s key completions).0 ≡ record s {
        actions =
            write s.actions
              (insert key (pending_entry key (length s.heap.futures) completions) s.actions.inner);
        heap = (new_future s.heap).0;
      }
  unfolding add_invocation insert_action new_invocation new_future
  add_invocation_vacant s key completions q v = ground arith

  -- The answer to an invocation that was just added.
  add_invocation-process_message :
      (s : Storage V R) (c : Codec V) (key : Text) (completions : Serde (Completion R))
      (message : Text) (named : PossibleInvocation) (result : Completion R)
      → s.actions.poisoned ≡ false
      → lookup key s.actions.inner ≡ none
      → deserialize c.possible_invocations message json ≡ ok named
      → named.invocation_id ≡ some key
      → deserialize completions message json ≡ ok result
      → let (stored, i) = add_invocation s key completions in
        let u = (process_message c stored message Negotiate.completion json).0 in
        (get_elem? u.heap.futures i ≡ some (complete (some (into_result result))))
        × (u.actions.inner ≡ s.actions.inner)
  unfolding add_invocation new_invocation new_future
  add_invocation-process_message s c key completions message named result q v reads names read =
      let i : ℕ = length s.heap.futures in
      let x : Mutex (Action V R) = pending_entry key i completions in
      let h : Heap V R = (new_future s.heap).0 in
      let stored : Storage V R = record s {
        actions = write s.actions (insert key x s.actions.inner);
        heap = h;
      } in
      let w : Awaits c stored key
          (record { invocation_id = key; completer = some i; completions = completions }) i message
          json =
        record {
          named = named;
          reads = reads;
          names = names;
          sound = q;
          found = lookup-insert_self key x s.actions.inner;
          is_open = refl;
        } in
      rw
        (
          add_invocation_vacant s key completions q v,
          completion_resolves c stored key _ i message json w result read,
        )
        (
          settled s.heap (into_result result),
          remove-insert key x s.actions.inner ∙ remove_vacant key s.actions.inner v,
        )

  -- An invocation whose key was free and that was sent, and then a text frame whose one message is a
  -- completion that names its key and can be read at its type: the future that the caller waits for
  -- holds the result or error of the completion, and the actions are those from before the call.
  pub invoke_internal-reader_step :
      (s : System V R) (queue : ℕ → Text → Res (Unit {0})) (invocations : Serde (Invocation V))
      (completions : Serde (Completion R)) (target : Text) (arguments : Option (List (Res V)))
      (i : ℕ) (pings : Serde Ping) (c : Codec V) (message : Text) (named : PossibleInvocation)
      (result : Completion R)
      → s.storage.actions.poisoned ≡ false
      → lookup (create_key s.storage target).1 s.storage.actions.inner ≡ none
      → (invoke_internal s queue invocations completions target arguments).2 ≡ ok i
      → IsMessage message
      → IsUtf8 (message ++ separator ∷ [])
      → read_signalr_message_type pings message json ≡ ok Negotiate.completion
      → deserialize c.possible_invocations message json ≡ ok named
      → named.invocation_id ≡ some (create_key s.storage target).1
      → deserialize completions message json ≡ ok result
      → let t = (invoke_internal s queue invocations completions target arguments).0 in
        let u =
          (reader_step pings c json t.storage (ok (text_frame (message ++ separator ∷ [])))).0 in
        (get_elem? u.heap.futures i ≡ some (complete (some (into_result result))))
        × (u.actions.inner ≡ s.storage.actions.inner)
  unfolding create_key
  invoke_internal-reader_step s queue invocations completions target arguments i pings c message
        named result sound vacant sent m u typed reads names read =
      let (made, key) = create_key s.storage target in
      let (same, number) =
        invoke_internal-ok s queue invocations completions target arguments i sent in
      rw (same, reader_step_one pings c _ message Negotiate.completion m u typed, ← number)
        (add_invocation-process_message made c key completions message named result sound vacant
          reads names read)
