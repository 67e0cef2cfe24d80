-- ===== src/Client/Calls/Endings.antt =====
-- How an invocation ends, whatever comes for it.
use ac_signalr_client_lib_rs.Base.{
  ℕ, ◌≡◌, refl, ◌∙◌, ◌⊎◌, ap, false, Option, none, some, inl, inr, List, [], ◌∷◌, ◌++◌, Text, Res,
  ok, err, Res-cases, length, lookup, insert, remove, remove-insert, remove_vacant, lookup-remove,
  lookup-insert_self, text_eq_refl, Mutex, write, arith, if◌then◌else◌,
}
use ac_signalr_client_lib_rs.Client.Configuration.{json}
use ac_signalr_client_lib_rs.Client.Calls.{
  invoke_internal, clean_up, send_built, configured, awaited,
}
use ac_signalr_client_lib_rs.Client.Calls.Cleanup.{
  send_built-storage, remove_action-actions, add_invocation-actions, awaited_key,
}
use ac_signalr_client_lib_rs.Client.Calls.Answered.{
  invoke_internal-ok, reader_step_one, pending_entry, add_invocation_vacant,
}
use ac_signalr_client_lib_rs.Protocol.Negotiate as Negotiate
use ac_signalr_client_lib_rs.Protocol.Negotiate.{Ping}
use ac_signalr_client_lib_rs.Protocol.Invoke.{
  Invocation, Completion, PossibleInvocation, Built, create_single, with_invocation_id,
}
use ac_signalr_client_lib_rs.Protocol.Utf8.Pieces.{IsUtf8}
use ac_signalr_client_lib_rs.Protocol.Messages.{Serde, separator, deserialize}
use ac_signalr_client_lib_rs.Protocol.Framing.Cut.{IsMessage}
use ac_signalr_client_lib_rs.Execution.Heap.{new_future}
use ac_signalr_client_lib_rs.Execution.Actions.{Action}
use ac_signalr_client_lib_rs.Execution.Storage.{Storage, remove_action, update}
use ac_signalr_client_lib_rs.Execution.Dispatch.{Codec, create_key, add_invocation, process_message}
use ac_signalr_client_lib_rs.Execution.Dispatch.Completions.{
  Awaits, completion_resolves, undecodable_stays,
}
use ac_signalr_client_lib_rs.Communication.Monitor.{System}
use ac_signalr_client_lib_rs.Communication.Tasks.{
  text_frame, read_signalr_message_type, reader_step,
}

-- What comes for an invocation before its caller stops waiting.
pub data Meanwhile : Type 0 where
  nothing : Meanwhile
  message_comes : Text → Meanwhile

module _ {ℓ} {V R : Type ℓ} (pings : Serde Ping) (c : Codec V) where
  -- The reader takes a text frame with the message.
  abbrev pub meanwhile : System V R → Meanwhile → System V R
  meanwhile s nothing = s
  meanwhile s (message_comes message) = record s {
    storage = (reader_step pings c json s.storage (ok (text_frame (message ++ separator ∷ [])))).0;
  }

module _ {ℓ} {V : Type ℓ} (pings : Serde Ping) (c : Codec V) where
  -- The message is a completion that names the key; its result may be one that cannot be read.
  abbrev pub IsFor : Text → Meanwhile → Type 0
  IsFor key nothing = Unit
  IsFor key (message_comes message) =
      IsMessage message
      × IsUtf8 (message ++ separator ∷ [])
      × (read_signalr_message_type pings message json ≡ ok Negotiate.completion)
      × ((named : PossibleInvocation) × (deserialize c.possible_invocations message json ≡ ok named)
          × (named.invocation_id ≡ some key))

module _ {ℓ} {V R : Type ℓ} where
  -- Without the entry of the key, the actions are `m`.
  abbrev IsBack : Text → List (Text × Mutex (Action V R)) → Storage V R → Type ℓ
  IsBack key m s = (s.actions.poisoned ≡ false) × (remove key s.actions.inner ≡ m)

  clean_up-IsBack :
      (key : Text) (m : List (Text × Mutex (Action V R))) (s : System V R)
      → IsBack key m s.storage
      → (clean_up s key).storage.actions.inner ≡ m
  unfolding clean_up
  clean_up-IsBack key m s b = (remove_action-actions s.storage key b.0).0 ∙ b.1

  remove_action-lookup :
      (key : Text) (s : Storage V R)
      → s.actions.poisoned ≡ false
      → lookup key (remove_action s key).actions.inner ≡ none
  remove_action-lookup key s q =
      ap (lookup key) (remove_action-actions s key q).0
      ∙ lookup-remove key key s.actions.inner
      ∙ ap (λ b. if b then none else lookup key s.actions.inner) (text_eq_refl key)

  remove_action-IsBack :
      (key : Text) (m : List (Text × Mutex (Action V R))) (s : Storage V R)
      → IsBack key m s
      → IsBack key m (remove_action s key)
  remove_action-IsBack key m s (q, e) =
      let (once, sound) = remove_action-actions s key q in
      (
        sound,
        remove_vacant key (remove_action s key).actions.inner (remove_action-lookup key s q)
            ∙ once
            ∙ e,
      )

  -- A completion for a key that nothing is stored under.
  process_message_vacant :
      (c : Codec V) (s : Storage V R) (key message : Text) (named : PossibleInvocation)
      → s.actions.poisoned ≡ false
      → lookup key s.actions.inner ≡ none
      → deserialize c.possible_invocations message json ≡ ok named
      → named.invocation_id ≡ some key
      → (process_message c s message Negotiate.completion json).0 ≡ s
  unfolding process_message update
  process_message_vacant c s key message named q v e n = ground arith

  stored-IsBack :
      (s : Storage V R) (key : Text) (completions : Serde (Completion R))
      → s.actions.poisoned ≡ false
      → lookup key s.actions.inner ≡ none
      → IsBack key s.actions.inner (add_invocation s key completions).0
  stored-IsBack s key completions q v =
      let (gone, sound) = add_invocation-actions s key completions q in
      (sound, gone ∙ remove_vacant key s.actions.inner v)

  -- A completion for an invocation that was just added, also where its result cannot be read.
  answered-IsBack :
      (c : Codec V) (s : Storage V R) (key : Text) (completions : Serde (Completion R))
      (message : Text) (named : PossibleInvocation)
      → s.actions.poisoned ≡ false
      → lookup key s.actions.inner ≡ none
      → deserialize c.possible_invocations message json ≡ ok named
      → named.invocation_id ≡ some key
      → IsBack key s.actions.inner
          (process_message c
            (add_invocation s key completions).0
            message
            Negotiate.completion
            json).0
  answered-IsBack c s key completions message named q v reads names =
      let i : ℕ = length s.heap.futures in
      let x : Mutex (Action V R) = pending_entry key i completions in
      let stored : Storage V R = record s {
        actions = write s.actions (insert key x s.actions.inner);
        heap = (new_future s.heap).0;
      } in
      let w : Awaits c stored key
          (record { invocation_id = key; completer = some i; completions = completions }) i message
          json =
        record {
          named = named;
          reads = reads;
          names = names;
          sound = q;
          found = lookup-insert_self key x s.actions.inner;
          is_open = refl;
        } in
      let back : remove key (insert key x s.actions.inner) ≡ s.actions.inner =
        remove-insert key x s.actions.inner ∙ remove_vacant key s.actions.inner v in
      elim (Res-cases (deserialize completions message json)) [
        | inl (result, e) ↦
            rw
              (
                add_invocation_vacant s key completions q v,
                completion_resolves c stored key _ i message json w result e,
              )
              (q, ap (remove key) back ∙ remove_vacant key s.actions.inner v)
        | inr (reason, e) ↦
            rw
              (
                add_invocation_vacant s key completions q v,
                undecodable_stays c stored key _ i message json w reason e,
              )
              (q, back)
      ]

  awaited-err :
      (key : Text) (j : ℕ) (p : System V R × Res (Unit {0})) (reason : Text)
      → (awaited key j p).2 ≡ err reason
      → (awaited key j p).0.storage ≡ remove_action p.0.storage key
  unfolding clean_up
  awaited-err key j (t, ok u) reason h = cc
  awaited-err key j (t, err e) reason h = refl

  sent_or_refused :
      (s : System V R) (queue : ℕ → Text → Res (Unit {0})) (invocations : Serde (Invocation V))
      (completions : Serde (Completion R)) (target : Text) (arguments : Option (List (Res V)))
      → let (made, key) = create_key s.storage target in
        let (t, _, _) = invoke_internal s queue invocations completions target arguments in
        (t.storage ≡ (add_invocation made key completions).0)
        ⊎ (t.storage ≡ remove_action (add_invocation made key completions).0 key)
  unfolding invoke_internal
  sent_or_refused s queue invocations completions target arguments =
      let (made, key) = create_key s.storage target in
      let (stored, j) = add_invocation made key completions in
      let b : Built V = configured (with_invocation_id (create_single target) key) arguments in
      let p : System V R × Res (Unit {0}) =
        send_built (record s { storage = stored }) queue invocations b in
      let same : p.0.storage ≡ stored =
        send_built-storage (record s { storage = stored }) queue invocations b in
      elim (Res-cases (invoke_internal s queue invocations completions target arguments).2) [
        | inl (i, e) ↦
            inl (invoke_internal-ok s queue invocations completions target arguments i e).0
        | inr (reason, e) ↦ inr (awaited-err key j p reason e ∙ ap (λ x. remove_action x key) same)
      ]

  key_of_invocation :
      (s : System V R) (queue : ℕ → Text → Res (Unit {0})) (invocations : Serde (Invocation V))
      (completions : Serde (Completion R)) (target : Text) (arguments : Option (List (Res V)))
      → (invoke_internal s queue invocations completions target arguments).1
        ≡ (create_key s.storage target).1
  unfolding invoke_internal
  key_of_invocation s queue invocations completions target arguments =
      let (made, key) = create_key s.storage target in
      let (stored, j) = add_invocation made key completions in
      awaited_key key j (
        send_built (record s { storage = stored }) queue invocations
          (configured (with_invocation_id (create_single target) key) arguments))

  -- After the send, and what comes then, only the entry of the key can be new.
  meanwhile-IsBack :
      (pings : Serde Ping) (c : Codec V) (made : Storage V R) (key : Text)
      (completions : Serde (Completion R)) (t : System V R) (m : Meanwhile)
      → made.actions.poisoned ≡ false
      → lookup key made.actions.inner ≡ none
      → IsFor pings c key m
      → let stored = (add_invocation made key completions).0 in
        (t.storage ≡ stored) ⊎ (t.storage ≡ remove_action stored key)
        → IsBack key made.actions.inner (meanwhile pings c t m).storage
  meanwhile-IsBack pings c made key completions t nothing q v f (inl e) =
      rw e (stored-IsBack made key completions q v)
  meanwhile-IsBack pings c made key completions t nothing q v f (inr e) = rw e (
      remove_action-IsBack key made.actions.inner (add_invocation made key completions).0
        (stored-IsBack made key completions q v))
  meanwhile-IsBack pings c made key completions t (message_comes message) q v f (inl e) =
      let (is, utf8, typed, (named, reads, names)) = f in
      rw (reader_step_one pings c t.storage message Negotiate.completion is utf8 typed, e)
        (answered-IsBack c made key completions message named q v reads names)
  meanwhile-IsBack pings c made key completions t (message_comes message) q v f (inr e) =
      let (is, utf8, typed, (named, reads, names)) = f in
      let stored : Storage V R = (add_invocation made key completions).0 in
      let back = stored-IsBack made key completions q v in
      let gone = remove_action-IsBack key made.actions.inner stored back in
      rw
        (
          reader_step_one pings c t.storage message Negotiate.completion is utf8 typed,
          e,
          process_message_vacant c (remove_action stored key) key message named gone.0
              (remove_action-lookup key stored back.0) reads names,
        )
        gone

  -- An invocation in a storage whose lock is sound and that has no action under its key before, sent
  -- or refused; then nothing comes for it, or the reader takes a JSON text frame with a completion
  -- that names its key, whose result can be read or not; then its caller stops waiting. The actions
  -- are those from before the call.
  pub invoke_internal-clean_up :
      (s : System V R) (queue : ℕ → Text → Res (Unit {0})) (invocations : Serde (Invocation V))
      (completions : Serde (Completion R)) (target : Text) (arguments : Option (List (Res V)))
      (pings : Serde Ping) (c : Codec V) (m : Meanwhile)
      → s.storage.actions.poisoned ≡ false
      → lookup (create_key s.storage target).1 s.storage.actions.inner ≡ none
      → IsFor pings c (create_key s.storage target).1 m
      → let (t, key, r) = invoke_internal s queue invocations completions target arguments in
        (clean_up (meanwhile pings c t m) key).storage.actions.inner ≡ s.storage.actions.inner
  unfolding create_key
  invoke_internal-clean_up s queue invocations completions target arguments pings c m q v f =
      let (made, key) = create_key s.storage target in
      let (t, _, _) = invoke_internal s queue invocations completions target arguments in
      rw (key_of_invocation s queue invocations completions target arguments) (
        clean_up-IsBack key s.storage.actions.inner (meanwhile pings c t m) (
          meanwhile-IsBack pings c made key completions t m q v f
            (sent_or_refused s queue invocations completions target arguments)))
