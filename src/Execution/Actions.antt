-- ===== src/Execution/Actions.antt =====
-- src/execution/actions.rs, callback.rs, invocation.rs and enumerable.rs: the three kinds of action
-- behind the trait `UpdatableAction`, and its methods. A type's deserializer goes with the action
-- that uses it; `Lossy` prints a message's bytes in an error.
pub mod Owning
use ac_signalr_client_lib_rs.Base.{
  ℕ, Bool, true, false, Option, none, some, ◌++◌, Text, lit, Res, ok, err,
}
use ac_signalr_client_lib_rs.Client.Configuration.{Protocol}
use ac_signalr_client_lib_rs.Protocol.Negotiate as Negotiate
use ac_signalr_client_lib_rs.Protocol.Negotiate.{MessageType}
use ac_signalr_client_lib_rs.Protocol.Invoke.{Invocation, Completion, StreamItem, into_result}
use ac_signalr_client_lib_rs.Protocol.Messages.{Serde, deserialize}
use ac_signalr_client_lib_rs.Execution.Heap.{
  Heap, new_future, new_stream, settle, push_item, close_stream, call,
}

-- `CallbackAction`: the target, the number of the callback, and serde at `Invocation`.
pub record CallbackAction {ℓ} (V : Type ℓ) : Type ℓ where
  pub target : Text
  pub callback : ℕ
  pub invocations : Serde (Invocation V)

-- `InvocationAction<R>`: the completer is the number of its future.
pub record InvocationAction {ℓ} (R : Type ℓ) : Type ℓ where
  pub invocation_id : Text
  pub completer : Option ℕ
  pub completions : Serde (Completion R)

-- `EnumerableAction<R>`: the completer is the number of its stream.
pub record EnumerableAction {ℓ} (R : Type ℓ) : Type ℓ where
  pub invocation_id : Text
  pub completer : ℕ
  pub completed : Bool
  pub completions : Serde (Completion R)
  pub items : Serde (StreamItem R)

pub data Action {ℓ} (V R : Type ℓ) : Type ℓ where
  callback_action : CallbackAction V → Action V R
  invocation_action : InvocationAction R → Action V R
  enumerable_action : EnumerableAction R → Action V R

-- How `{:?}` prints `String::from_utf8_lossy(message)`.
abbrev pub Lossy : Type 0
Lossy = Text → Text

-- A method on `&mut self` that returns `Result<(), String>`.
abbrev pub Updated {ℓ} : Type ℓ → Type ℓ → Type ℓ
Updated V R = Action V R × Heap V R × Res (Unit {0})

-- The completer is gone.
abbrev is_taken : Option ℕ → Bool
is_taken none = true
is_taken (some i) = false

module _ {ℓ} {V R : Type ℓ} where
  abbrev complete_taken :
      InvocationAction R → Heap V R → Res R → Option ℕ → InvocationAction R × Heap V R
  complete_taken a h r (some i) = (record a { completer = none }, settle h i r)
  complete_taken a h r none = (a, h)

  -- `InvocationAction::complete`
  unfoldable pub complete_invocation :
      InvocationAction R → Heap V R → Res R → InvocationAction R × Heap V R
  complete_invocation a h r = complete_taken a h r a.completer

  -- `InvocationAction::dispose_internal`
  unfoldable pub dispose_invocation : InvocationAction R → Heap V R → InvocationAction R × Heap V R
  dispose_invocation a h = complete_invocation a h (err (lit "Invocation was cancelled"))

  -- `EnumerableAction::dispose_internal`
  unfoldable pub dispose_enumerable : EnumerableAction R → Heap V R → EnumerableAction R × Heap V R
  dispose_enumerable a h = (record a { completed = true }, close_stream h a.completer)

  abbrev called : CallbackAction V → Heap V R → Res (Invocation V) → Updated V R
  called a h (ok i) = (callback_action a, call h a.callback i, ok tt)
  called a h (err e) = (callback_action a, h, err e)

  -- `CallbackAction::update_with`
  unfoldable pub update_callback :
      CallbackAction V → Heap V R → Text → MessageType → Protocol → Updated V R
  update_callback a h message Negotiate.invocation p =
      called a h (deserialize a.invocations message p)
  update_callback a h message _ p =
      (callback_action a, h, err (lit "Callbacks accept only invocation data"))

  abbrev resolved : InvocationAction R → Heap V R → Res (Completion R) → Updated V R
  resolved a h (ok c) =
      let (a', h') = complete_invocation a h (into_result c) in (invocation_action a', h', ok tt)
  resolved a h (err e) = (invocation_action a, h, err e)

  -- `InvocationAction::update_with`
  unfoldable pub update_invocation :
      Lossy → InvocationAction R → Heap V R → Text → MessageType → Protocol → Updated V R
  update_invocation lossy a h message Negotiate.completion p =
      resolved a h (deserialize a.completions message p)
  update_invocation lossy a h message _ p = (
    invocation_action a,
    h,
    err (
        lit "Cannot complete invocation "
        ++ a.invocation_id
        ++ lit ", with message "
        ++ lossy message),
  )

  abbrev streamed : EnumerableAction R → Heap V R → Res (StreamItem R) → Updated V R
  streamed a h (ok i) = (enumerable_action a, push_item h a.completer i.item, ok tt)
  streamed a h (err e) = (enumerable_action a, h, err e)

  -- An error in the completion is logged alone.
  abbrev ended : EnumerableAction R → Heap V R → Res (Completion R) → Updated V R
  ended a h (ok c) = (enumerable_action a, close_stream h a.completer, ok tt)
  ended a h (err e) = (enumerable_action a, h, err e)

  -- `EnumerableAction::update_with`
  unfoldable pub update_enumerable :
      Lossy → EnumerableAction R → Heap V R → Text → MessageType → Protocol → Updated V R
  update_enumerable lossy a h message Negotiate.stream_item p =
      streamed a h (deserialize a.items message p)
  update_enumerable lossy a h message Negotiate.completion p =
      ended a h (deserialize a.completions message p)
  update_enumerable lossy a h message _ p = (
    enumerable_action a,
    h,
    err (lit "Cannot update stream " ++ a.invocation_id ++ lit " with message " ++ lossy message),
  )

  -- `UpdatableAction::update_with`
  unfoldable pub update_with :
      Lossy → Action V R → Heap V R → Text → MessageType → Protocol → Updated V R
  unfolding update_callback update_invocation update_enumerable complete_invocation
  update_with lossy (callback_action a) h message t p = update_callback a h message t p
  update_with lossy (invocation_action a) h message t p = update_invocation lossy a h message t p
  update_with lossy (enumerable_action a) h message t p = update_enumerable lossy a h message t p

  -- `UpdatableAction::cancel`
  unfoldable pub cancel : Action V R → Heap V R → Text → Action V R × Heap V R
  unfolding complete_invocation dispose_enumerable
  cancel (callback_action a) h reason = (callback_action a, h)
  cancel (invocation_action a) h reason =
      let (a', h') = complete_invocation a h (err reason) in (invocation_action a', h')
  cancel (enumerable_action a) h reason =
      let (a', h') = dispose_enumerable a h in (enumerable_action a', h')

  -- `UpdatableAction::is_completed`
  unfoldable pub is_completed : Action V R → Bool
  is_completed (callback_action a) = false
  is_completed (invocation_action a) = is_taken a.completer
  is_completed (enumerable_action a) = a.completed

  -- `Drop` of the boxed action. A callback's drop releases its client handle.
  unfoldable pub drop_action : Action V R → Heap V R → Heap V R
  unfolding dispose_invocation complete_invocation dispose_enumerable
  drop_action (callback_action a) h = h
  drop_action (invocation_action a) h = (dispose_invocation a h).1
  drop_action (enumerable_action a) h = (dispose_enumerable a h).1

  -- `InvocationAction::new`
  unfoldable pub new_invocation :
      Text → Serde (Completion R) → Heap V R → InvocationAction R × Heap V R × ℕ
  unfolding new_future
  new_invocation key completions h =
      let (h', i) = new_future h in
      (record { invocation_id = key; completer = some i; completions = completions }, h', i)

  -- `EnumerableAction::new`
  unfoldable pub new_enumerable :
      Text
      → Serde (Completion R)
      → Serde (StreamItem R)
      → Heap V R
      → EnumerableAction R × Heap V R × ℕ
  unfolding new_stream
  new_enumerable key completions items h =
      let (h', i) = new_stream h in
      (
        record {
          invocation_id = key;
          completer = i;
          completed = false;
          completions = completions;
          items = items;
        },
        h',
        i,
      )
