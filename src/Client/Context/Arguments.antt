-- ===== src/Client/Context/Arguments.antt =====
-- What a callback reads of the arguments of an invocation that arrives.
use ac_signalr_client_lib_rs.Base.{
  ℕ, zero, suc, ◌≡◌, refl, ap, ◌∙◌, true, if◌then◌else◌, Option-cases, inl, inr, none, some, List,
  [], ◌∷◌, ◌++◌, map, Text, lit, show_nat, ok, err, get_elem?, arith,
}
use ac_signalr_client_lib_rs.Client.Configuration.{json}
use ac_signalr_client_lib_rs.Protocol.Negotiate as Negotiate
use ac_signalr_client_lib_rs.Protocol.Negotiate.{Ping}
use ac_signalr_client_lib_rs.Protocol.Invoke.{Invocation, get_target}
use ac_signalr_client_lib_rs.Protocol.Messages.{Serde, separator, deserialize}
use ac_signalr_client_lib_rs.Protocol.Framing.Roundtrip.{IsJson, deserialize_json_text}
use ac_signalr_client_lib_rs.Protocol.Utf8.Pieces.{IsUtf8-push}
use ac_signalr_client_lib_rs.Execution.Storage.{Storage, Deferred, contains, defer_message}
use ac_signalr_client_lib_rs.Execution.Dispatch.{Codec, process_message, invoked, deliver}
use ac_signalr_client_lib_rs.Execution.Dispatch.Registration.{IsRegistered, call_of, replay_step}
use ac_signalr_client_lib_rs.Communication.Tasks.{
  text_frame, read_signalr_message_type, reader_step,
}
use ac_signalr_client_lib_rs.Client.Calls.Answered.{reader_step_one}
use ac_signalr_client_lib_rs.Client.Context.{Values, create_context, context_argument}

module _ {ℓ κ} {V : Type ℓ} {T : Type κ} (print : Values V) (serde : Serde T)
    (to_value : T → V) where
  -- What serde_json documents: a value that was printed is parsed to what it was made from.
  pub record IsPrinted : Type (ℓ ⊔ κ) where
    pub parses : (x : T) → serde.from_str (print.print (to_value x)) ≡ ok x

  get_elem?-map :
      (xs : List T) (i : ℕ) {x : T}
      → get_elem? xs i ≡ some x
      → get_elem? (map to_value xs) i ≡ some (to_value x)
  get_elem?-map [] i h = cc
  get_elem?-map (y ∷ xs) zero h = ap (λ o. elim o [ none ↦ none | some z ↦ some (to_value z) ]) h
  get_elem?-map (y ∷ xs) (suc i) h = get_elem?-map xs i h

  get_elem?-map_missing :
      (xs : List T) (i : ℕ) → get_elem? xs i ≡ none → get_elem? (map to_value xs) i ≡ none
  get_elem?-map_missing [] i h = refl
  get_elem?-map_missing (y ∷ xs) zero h = cc
  get_elem?-map_missing (y ∷ xs) (suc i) h = get_elem?-map_missing xs i h

  argument_at :
      IsPrinted
      → (j : Invocation V) (xs : List T) (i : ℕ) → j.arguments ≡ some (map to_value xs)
      → context_argument print serde (create_context j) i ≡ elim (get_elem? xs i) [
        | some x ↦ ok x
        | none ↦ err (lit "The argument does not exist at the given index " ++ show_nat i)
      ]
  unfolding context_argument create_context
  argument_at laws j xs i a = elim (Option-cases (get_elem? xs i)) [
    | inl e ↦ rw (a, get_elem?-map_missing xs i e, e) refl
    | inr (x, e) ↦ rw (a, get_elem?-map xs i e, e, laws.parses x) refl
  ]

module _ {ℓ} {V R : Type ℓ} (c : Codec V) where
  process_message-calls :
      (s : Storage V R) (callback : ℕ) (j : Invocation V) (message : Text)
      → IsRegistered c j.target callback s
      → deserialize c.invocations message json ≡ ok j
      → (process_message c s message Negotiate.invocation json).0
        ≡ record s { heap = record s.heap { calls = s.heap.calls ++ (callback, j) ∷ [] } }
  unfolding process_message get_target contains
  process_message-calls s callback j message r e =
      let d : Deferred = record {
        message = message;
        message_type = Negotiate.invocation;
        protocol = json;
      } in
      let there : contains s j.target ≡ true = ground arith in
      ap (λ o. (invoked c s message json o).0) e
      ∙ ap
          (λ b.
            (if b
              then deliver c s j.target message Negotiate.invocation json
              else (defer_message c.lossy s j.target d, ok tt)).0)
          there
      ∙ replay_step c j.target callback s d r
      ∙ ap (λ o. record s { heap = record s.heap { calls = s.heap.calls ++ call_of callback o } }) e

module _ {ℓ κ} {V R : Type ℓ} {T : Type κ} (print : Values V) (serde : Serde T) (to_value : T → V)
    (c : Codec V) where
  -- An invocation for a target with a registered callback arrives in a JSON text frame, at a storage
  -- whose lock is sound; its arguments were made from values, and the serializers meet what
  -- serde_json documents. Then the reader calls the callback with it, once, and changes nothing else;
  -- and in the context of that call the argument at an index is the value given there, and an index
  -- past the last one is an error.
  pub context_argument-reader_step :
      (s : Storage V R) (callback : ℕ) (j : Invocation V) (xs : List T) (i : ℕ) (pings : Serde Ping)
      (message : Text)
      → IsPrinted print serde to_value
      → IsJson c.invocations
      → IsRegistered c j.target callback s
      → j.arguments ≡ some (map to_value xs)
      → c.invocations.to_string j ≡ ok message
      → read_signalr_message_type pings message json ≡ ok Negotiate.invocation
      → ((reader_step pings c json s (ok (text_frame (message ++ separator ∷ [])))).0
          ≡ record s { heap = record s.heap { calls = s.heap.calls ++ (callback, j) ∷ [] } })
        × (context_argument print serde (create_context j) i ≡ elim (get_elem? xs i) [
          | some x ↦ ok x
          | none ↦ err (lit "The argument does not exist at the given index " ++ show_nat i)
        ])
  context_argument-reader_step s callback j xs i pings message laws json_laws r a e typed = (
    reader_step_one pings c s message Negotiate.invocation (json_laws.is_message j message e)
          (IsUtf8-push message separator (omega arith) (json_laws.is_utf8 j message e)) typed
        ∙ process_message-calls c s callback j message r
            (deserialize_json_text c.invocations json_laws j message e),
    argument_at print serde to_value laws j xs i a,
  )
