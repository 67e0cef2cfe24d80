-- ===== src/Execution/Dispatch/Streaming.antt =====
-- The messages of a stream, from `process_message` to the stream that the caller of `enumerate` reads.
use ac_signalr_client_lib_rs.Base.{
  ◌≡◌, refl, ◌∙◌, ap, false, Option, none, some, List, [], ◌∷◌, ◌++◌, append_assoc, append-nil, All,
  map, Text, ok, unlocked, lookup, remove, insert-lookup, get_elem?, get_elem?-set, arith,
}
use ac_signalr_client_lib_rs.Client.Configuration.{Protocol}
use ac_signalr_client_lib_rs.Completer.Stream.{StreamState, push, close}
use ac_signalr_client_lib_rs.Protocol.Negotiate as Negotiate
use ac_signalr_client_lib_rs.Protocol.Invoke.{Completion, StreamItem, PossibleInvocation}
use ac_signalr_client_lib_rs.Protocol.Messages.{deserialize}
use ac_signalr_client_lib_rs.Execution.Heap.{push_item, close_stream}
use ac_signalr_client_lib_rs.Execution.Heap.Open.{get_elem?-close_stream}
use ac_signalr_client_lib_rs.Execution.Actions.{
  EnumerableAction, enumerable_action, update_with, drop_action,
}
use ac_signalr_client_lib_rs.Execution.Storage.{Storage}
use ac_signalr_client_lib_rs.Execution.Dispatch.{Codec, process_message}

module _ {ℓ} {V R : Type ℓ} (c : Codec V) (key : Text) (a : EnumerableAction R) (p : Protocol) where
  -- The storage holds the stream's action under its key, with sound mutexes, and the queue of the
  -- stream is `q`.
  pub record IsStreaming (s : Storage V R) (q : List (Option R)) : Type ℓ where
    pub sound : s.actions.poisoned ≡ false
    pub found : lookup key s.actions.inner ≡ some (unlocked (enumerable_action a))
    pub stream : StreamState R
    pub there : get_elem? s.heap.streams a.completer ≡ some stream
    pub queued : stream.queue ≡ q

  -- The message names the key.
  abbrev pub IsFor : Text → Type 0
  IsFor message =
      (named : PossibleInvocation) × (deserialize c.possible_invocations message p ≡ ok named)
      × (named.invocation_id ≡ some key)

  -- The message is an item of the stream, with the value.
  abbrev pub IsItem : Text × R → Type ℓ
  IsItem (message, value) =
      IsFor message
      × (item : StreamItem R) × (deserialize a.items message p ≡ ok item)
      × (item.item ≡ value)

  unfoldable pub process_items : Storage V R → List (Text × R) → Storage V R
  unfolding process_message
  process_items s [] = s
  process_items s ((message, value) ∷ rest) =
      process_items (process_message c s message Negotiate.stream_item p).0 rest

  process_item :
      (s : Storage V R) (q : List (Option R)) (message : Text) (value : R)
      → IsItem (message, value)
      → IsStreaming s q
      → (process_message c s message Negotiate.stream_item p
          ≡ (record s { heap = push_item s.heap a.completer value }, ok tt))
  unfolding process_message update_with
  process_item s q message value ((named, reads, names), item, read, is) w =
      ground (arith, insert-lookup key (unlocked (enumerable_action a)) s.actions.inner)

  pushed :
      (s : Storage V R) (q : List (Option R)) (value : R)
      → IsStreaming s q
      → IsStreaming (record s { heap = push_item s.heap a.completer value }) (q ++ some value ∷ [])
  unfolding push_item push
  pushed s q value w = record {
    sound = w.sound;
    found = w.found;
    stream = (push w.stream value).0;
    there = ground (
      arith,
      w.there,
      get_elem?-set s.heap.streams a.completer a.completer (push w.stream value).0 w.there,
    );
    queued = ap (λ l. l ++ some value ∷ []) w.queued;
  }

  process_items-IsStreaming :
      (s : Storage V R) (q : List (Option R)) (items : List (Text × R))
      → All IsItem items
      → IsStreaming s q
      → IsStreaming (process_items s items) (q ++ map (λ i. some i.1) items)
  unfolding process_items
  process_items-IsStreaming s q [] h w = rw (append-nil q) w
  process_items-IsStreaming s q ((message, value) ∷ rest) h w =
      let t : Storage V R = record s { heap = push_item s.heap a.completer value } in
      rw
        (
          process_item s q message value h.0 w,
          ← append_assoc q (some value ∷ []) (map (λ i. some i.1) rest),
        )
        (process_items-IsStreaming t (q ++ some value ∷ []) rest h.1 (pushed s q value w))

  pub process_items-actions :
      (s : Storage V R) (q : List (Option R)) (items : List (Text × R))
      → All IsItem items
      → IsStreaming s q
      → (process_items s items).actions ≡ s.actions
  unfolding process_items
  process_items-actions s q [] h w = refl
  process_items-actions s q ((message, value) ∷ rest) h w =
      rw (process_items, process_item s q message value h.0 w)
        (process_items-actions (record s { heap = push_item s.heap a.completer value })
          (q ++ some value ∷ []) rest h.1 (pushed s q value w))

  process_end :
      (s : Storage V R) (q : List (Option R)) (message : Text) (result : Completion R)
      → IsFor message
      → deserialize a.completions message p ≡ ok result
      → IsStreaming s q
      → process_message c s message Negotiate.completion p ≡ (
        record s {
          actions = record s.actions { inner = remove key s.actions.inner };
          heap = close_stream (close_stream s.heap a.completer) a.completer;
        },
        ok tt,
      )
  unfolding process_message update_with drop_action
  process_end s q message result (named, reads, names) read w =
      ground (arith, w.found, insert-lookup key (unlocked (enumerable_action a)) s.actions.inner)

  -- Items of a stream, then its completion: the caller's stream is given the values in the order of
  -- the messages, and behind them the mark of the end, twice, since the action closes the stream and
  -- its drop closes it again; the action is gone from the storage.
  pub process_items-process_message :
      (s : Storage V R) (q : List (Option R)) (items : List (Text × R)) (message : Text)
      (result : Completion R)
      → IsStreaming s q
      → All IsItem items
      → IsFor message
      → deserialize a.completions message p ≡ ok result
      → let t = process_items s items in
        let u = (process_message c t message Negotiate.completion p).0 in
        (st : StreamState R) × (get_elem? u.heap.streams a.completer ≡ some st)
        × (st.queue ≡ q ++ map (λ i. some i.1) items ++ none ∷ none ∷ [])
        × (u.actions.inner ≡ remove key t.actions.inner)
  unfolding close
  process_items-process_message s q items message result w h f read =
      let t : Storage V R = process_items s items in
      let w' = process_items-IsStreaming s q items h w in
      let once = get_elem?-close_stream t.heap a.completer w'.stream w'.there in
      let twice =
        get_elem?-close_stream (close_stream t.heap a.completer) a.completer (close w'.stream).0
          once in
      rw (process_end t _ message result f read w') (
        (close (close w'.stream).0).0,
        twice,
        append_assoc w'.stream.queue (none ∷ []) (none ∷ [])
            ∙ ap (λ l. l ++ none ∷ none ∷ []) w'.queued,
        refl,
      )
