-- ===== src/Client/Calls/Enumerated.antt =====
-- An enumeration from the call to its end: through the client, the storage, and the reader's
-- messages.
mod Examples
use ac_signalr_client_lib_rs.Base.{
  ℕ, ◌≡◌, refl, ◌∙◌, ap, false, Option, none, some, List, [], ◌∷◌, ◌++◌, All, map, Text, Res, ok,
  err, get_elem?, get_elem?-append, length, lookup, insert, remove, write, lookup-insert_self,
  remove-insert, remove_vacant, unlocked, Mutex, ◌==◌, arith,
}
use ac_signalr_client_lib_rs.Client.Configuration.{Protocol}
use ac_signalr_client_lib_rs.Completer.Stream.{StreamState, create, close}
use ac_signalr_client_lib_rs.Protocol.Negotiate as Negotiate
use ac_signalr_client_lib_rs.Protocol.Invoke.{
  Built, Invocation, Completion, StreamItem, create_multiple, with_invocation_id,
}
use ac_signalr_client_lib_rs.Protocol.Messages.{Serde, deserialize}
use ac_signalr_client_lib_rs.Execution.Heap.{Heap, new_stream}
use ac_signalr_client_lib_rs.Execution.Heap.Open.{get_elem?-close_stream}
use ac_signalr_client_lib_rs.Execution.Actions.{
  Action, EnumerableAction, enumerable_action, new_enumerable, drop_action, dispose_enumerable,
}
use ac_signalr_client_lib_rs.Execution.Storage.{Storage, insert_action, remove_action}
use ac_signalr_client_lib_rs.Execution.Dispatch.{Codec, create_key, add_stream, process_message}
use ac_signalr_client_lib_rs.Execution.Dispatch.Streaming.{
  IsStreaming, IsFor, IsItem, process_items, process_items-actions, process_items-process_message,
}
use ac_signalr_client_lib_rs.Communication.Monitor.{System}
use ac_signalr_client_lib_rs.Client.Calls.{
  enumerate_internal, send_built, configured, streamed, clean_up,
}
use ac_signalr_client_lib_rs.Client.Calls.Cleanup.{send_built-storage}

-- The action of an enumeration.
abbrev pub feeds {ℓ} :
    {R : Type ℓ} → Serde (Completion R) → Serde (StreamItem R) → Text → ℕ → EnumerableAction R
feeds completions items key i = record {
  invocation_id = key;
  completer = i;
  completed = false;
  completions = completions;
  items = items;
}

module _ {ℓ} {V R : Type ℓ} (completions : Serde (Completion R))
    (items : Serde (StreamItem R)) where
  add_stream_vacant :
      (s : Storage V R) (key : Text)
      → s.actions.poisoned ≡ false
      → lookup key s.actions.inner ≡ none
      → add_stream s key completions items ≡ (
        record s {
          actions = write s.actions (
              insert key
                (unlocked (enumerable_action (feeds completions items key (length s.heap.streams))))
                s.actions.inner);
          heap = (new_stream s.heap).0;
        },
        length s.heap.streams,
      )
  unfolding add_stream insert_action new_enumerable new_stream
  add_stream_vacant s key q v = ground arith

  created : (h : Heap V R) → get_elem? (new_stream h).0.streams (length h.streams) ≡ some create
  unfolding new_stream
  created h = ground (arith, get_elem?-append h.streams (length h.streams) create)

  -- A stream that was just added is empty, and its action is in the storage.
  add_stream-IsStreaming :
      (c : Codec V) (p : Protocol) (s : Storage V R) (key : Text)
      → s.actions.poisoned ≡ false
      → lookup key s.actions.inner ≡ none
      → let (t, i) = add_stream s key completions items in
        IsStreaming c key (feeds completions items key i) p t []
  unfolding create
  add_stream-IsStreaming c p s key q v = rw (add_stream_vacant s key q v) (record {
    sound = q;
    found = lookup-insert_self key _ s.actions.inner;
    stream = create;
    there = created s.heap;
    queued = refl;
  })

  -- A stream that was just added and whose key is removed again has ended.
  add_stream-remove_action :
      (s : Storage V R) (key : Text)
      → s.actions.poisoned ≡ false
      → lookup key s.actions.inner ≡ none
      → let (t, i) = add_stream s key completions items in
        (get_elem? (remove_action t key).heap.streams i
          ≡ some (record { queue = none ∷ []; waker = none }))
        × ((remove_action t key).actions.inner ≡ s.actions.inner)
  unfolding remove_action drop_action dispose_enumerable create close
  add_stream-remove_action s key q v =
      let n : ℕ = length s.heap.streams in
      let e : Mutex (Action V R) = unlocked (enumerable_action (feeds completions items key n)) in
      rw (add_stream_vacant s key q v, q, lookup-insert_self key e s.actions.inner)
        (
          get_elem?-close_stream (new_stream s.heap).0 n create (created s.heap),
          remove-insert key e s.actions.inner ∙ remove_vacant key s.actions.inner v,
        )

  -- What the send of an enumeration returns.
  abbrev pub enumeration_sent :
      System V R
      → (ℕ → Text → Res (Unit {0}))
      → Serde (Invocation V)
      → Text
      → Option (List (Res V))
      → Res (Unit {0})
  enumeration_sent s queue invocations target arguments =
      let (made, key) = create_key s.storage target in
      let (stored, i) = add_stream made key completions items in
      (send_built (record s { storage = stored }) queue invocations
        (configured (with_invocation_id (create_multiple target) key) arguments)).1

  streamed_lem :
      (key : Text) (i : ℕ) (p : System V R × Res (Unit {0})) (s : Storage V R)
      → p.0.storage ≡ s
      → let (t, n) = streamed key i p in
        (p.1 ≡ ok tt → (t.storage ≡ s) × (n ≡ i))
        × ((e : Text) → p.1 ≡ err e → (t.storage ≡ remove_action s key) × (n ≡ i))
  unfolding clean_up
  streamed_lem key i (t, ok u) s h = ((λ e. (h, refl)), λ e g. cc)
  streamed_lem key i (t, err m) s h = ((λ g. cc), λ e g. (ap (λ x. remove_action x key) h, refl))

  enumerate_internal-cases :
      (s : System V R) (queue : ℕ → Text → Res (Unit {0})) (invocations : Serde (Invocation V))
      (target : Text) (arguments : Option (List (Res V)))
      → let (made, key) = create_key s.storage target in
        let (stored, i) = add_stream made key completions items in
        let (t, n) = enumerate_internal s queue invocations completions items target arguments in
        let r = enumeration_sent s queue invocations target arguments in
        (r ≡ ok tt → (t.storage ≡ stored) × (n ≡ i))
        × ((e : Text) → r ≡ err e → (t.storage ≡ remove_action stored key) × (n ≡ i))
  unfolding enumerate_internal
  enumerate_internal-cases s queue invocations target arguments =
      let (made, key) = create_key s.storage target in
      let (stored, i) = add_stream made key completions items in
      let b : Built V = configured (with_invocation_id (create_multiple target) key) arguments in
      streamed_lem key i (send_built (record s { storage = stored }) queue invocations b) stored
        (send_built-storage (record s { storage = stored }) queue invocations b)

  -- The messages for a stream that was just added.
  add_stream-process_items :
      (c : Codec V) (p : Protocol) (s : Storage V R) (key : Text) (received : List (Text × R))
      (message : Text) (result : Completion R)
      → s.actions.poisoned ≡ false
      → lookup key s.actions.inner ≡ none
      → let (t, i) = add_stream s key completions items in
        let a = feeds completions items key i in
        let u =
          (process_message c
            (process_items c key a p t received)
            message
            Negotiate.completion
            p).0 in
        All (IsItem c key a p) received
        → IsFor c key a p message
        → deserialize completions message p ≡ ok result
        → (st : StreamState R) × (get_elem? u.heap.streams i ≡ some st)
          × (st.queue ≡ map (λ x. some x.1) received ++ none ∷ none ∷ [])
          × (u.actions.inner ≡ s.actions.inner)
  add_stream-process_items c p s key received message result q v all_items names read =
      let (t, i) = add_stream s key completions items in
      let a : EnumerableAction R = feeds completions items key i in
      let w = add_stream-IsStreaming c p s key q v in
      let (st, there, queued, left) =
        process_items-process_message c key a p t [] received message result w all_items names
          read in
      (
        st,
        there,
        queued,
        left
            ∙ ap (λ m. remove key m.inner)
                (process_items-actions c key a p t [] received all_items w)
            ∙ ap (λ x. remove key x.0.actions.inner) (add_stream_vacant s key q v)
            ∙ remove-insert key _ s.actions.inner
            ∙ remove_vacant key s.actions.inner v,
      )

  -- An enumeration whose key was free, in a sound storage. Where it was sent, and then messages that
  -- name its key bring items and a completion: the stream that the caller reads holds the values in
  -- the order of the messages, and behind them the mark of the end, twice, since the action closes the
  -- stream and its drop closes it again. Where the send failed, the stream has ended at once, with no
  -- item. Either way the actions are those from before the call.
  pub enumerate_internal-process_items :
      (s : System V R) (queue : ℕ → Text → Res (Unit {0})) (invocations : Serde (Invocation V))
      (target : Text) (arguments : Option (List (Res V))) (c : Codec V) (p : Protocol)
      (received : List (Text × R)) (message : Text) (result : Completion R)
      → s.storage.actions.poisoned ≡ false
      → lookup (create_key s.storage target).1 s.storage.actions.inner ≡ none
      → let key = (create_key s.storage target).1 in
        let (t, i) = enumerate_internal s queue invocations completions items target arguments in
        let a = feeds completions items key i in
        let r = enumeration_sent s queue invocations target arguments in
        let u =
          (process_message c
            (process_items c key a p t.storage received)
            message
            Negotiate.completion
            p).0 in
        All (IsItem c key a p) received
        → IsFor c key a p message
        → deserialize completions message p ≡ ok result
        → (r ≡ ok tt
            → (st : StreamState R) × (get_elem? u.heap.streams i ≡ some st)
              × (st.queue ≡ map (λ x. some x.1) received ++ none ∷ none ∷ [])
              × (u.actions.inner ≡ s.storage.actions.inner))
          × ((e : Text)
              → r ≡ err e
              → (get_elem? t.storage.heap.streams i
                  ≡ some (record { queue = none ∷ []; waker = none }))
                × (t.storage.actions.inner ≡ s.storage.actions.inner))
  unfolding create_key
  enumerate_internal-process_items s queue invocations target arguments c p received message result
        sound free all_items names read =
      let (made, key) = create_key s.storage target in
      let (sent, failed) = enumerate_internal-cases s queue invocations target arguments in
      (
        λ e.
            let (same, number) = sent e in
            rw (same, number)
              (add_stream-process_items c p made key received message result sound free all_items
                names read),
        λ e g.
            let (same, number) = failed e g in
            rw (same, number) (add_stream-remove_action made key sound free),
      )
