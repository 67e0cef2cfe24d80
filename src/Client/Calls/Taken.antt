-- ===== src/Client/Calls/Taken.antt =====
-- An invocation whose key is taken, say by a callback for a target that ends in a number.
use ac_signalr_client_lib_rs.Base.{
  ℕ, ◌≡◌, sym, subst, ◌∙◌, ap, false, Option, none, some, List, Text, lit, Res, ok, err, get_elem?,
  lookup, Mutex, arith,
}
use ac_signalr_client_lib_rs.Completer.Future.{complete}
use ac_signalr_client_lib_rs.Protocol.Invoke.{Invocation, Completion}
use ac_signalr_client_lib_rs.Protocol.Messages.{Serde}
use ac_signalr_client_lib_rs.Execution.Heap.{new_future, settle}
use ac_signalr_client_lib_rs.Execution.Actions.{
  Action, new_invocation, drop_action, dispose_invocation, complete_invocation,
}
use ac_signalr_client_lib_rs.Execution.Storage.{Storage, insert_action}
use ac_signalr_client_lib_rs.Execution.Storage.Callbacks.{lookup-remove_action}
use ac_signalr_client_lib_rs.Execution.Dispatch.{create_key, add_invocation}
use ac_signalr_client_lib_rs.Communication.Monitor.{System}
use ac_signalr_client_lib_rs.Client.Calls.{invoke_internal, clean_up}
use ac_signalr_client_lib_rs.Client.Calls.Answered.{invoke_internal-ok, settled}

abbrev cancelled {ℓ} : {A : Type ℓ} → Res A
cancelled = err (lit "Invocation was cancelled")

module _ {ℓ} {V R : Type ℓ} where
  add_invocation_taken :
      (s : Storage V R) (key : Text) (completions : Serde (Completion R)) {e : Mutex (Action V R)}
      → s.actions.poisoned ≡ false
      → lookup key s.actions.inner ≡ some e
      → ((add_invocation s key completions).0
          ≡ record s { heap = settle (new_future s.heap).0 (new_future s.heap).1 cancelled })
        × ((add_invocation s key completions).1 ≡ (new_future s.heap).1)
  unfolding add_invocation insert_action new_invocation drop_action dispose_invocation
      complete_invocation
  add_invocation_taken s key completions q f = ground (arith, q, f)

  -- An invocation that was sent, whose key some action of a sound storage has already: it is not
  -- stored, its caller gets the error "Invocation was cancelled" at once, and the removal of the key
  -- when the caller stops waiting takes the other action away.
  pub invoke_internal-clean_up_taken :
      (s : System V R) (queue : ℕ → Text → Res (Unit {0})) (invocations : Serde (Invocation V))
      (completions : Serde (Completion R)) (target : Text) (arguments : Option (List (Res V)))
      (i : ℕ) {e : Mutex (Action V R)}
      → s.storage.actions.poisoned ≡ false
      → lookup (create_key s.storage target).1 s.storage.actions.inner ≡ some e
      → (invoke_internal s queue invocations completions target arguments).2 ≡ ok i
      → let key = (create_key s.storage target).1 in
        let t = (invoke_internal s queue invocations completions target arguments).0 in
        (t.storage.actions ≡ s.storage.actions)
        × (get_elem? t.storage.heap.futures i ≡ some (complete (some cancelled)))
        × (lookup key (clean_up t key).storage.actions.inner ≡ none)
  unfolding create_key clean_up
  invoke_internal-clean_up_taken s queue invocations completions target arguments i q f sent =
      let (made, key) = create_key s.storage target in
      let (same, number) =
        invoke_internal-ok s queue invocations completions target arguments i sent in
      let (stored, made_number) = add_invocation_taken made key completions q f in
      let t : System V R = (invoke_internal s queue invocations completions target arguments).0 in
      let all = same ∙ stored in
      let kept : t.storage.actions ≡ s.storage.actions = ap (λ x. x.actions) all in
      (
        kept,
        subst (λ j. get_elem? t.storage.heap.futures j ≡ some (complete (some cancelled)))
            (sym made_number ∙ number)
            (ap (λ x. get_elem? x.heap.futures (new_future s.storage.heap).1) all
              ∙ settled s.storage.heap cancelled),
        lookup-remove_action t.storage key (ap (λ x. x.poisoned) kept ∙ q),
      )
