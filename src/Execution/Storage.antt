-- ===== src/Execution/Storage.antt =====
-- src/execution/storage_tokio.rs: `UpdatableActionStorage`, the map from keys to actions, the
-- messages kept for callbacks that are not registered yet, and the key counter. Its clones share
-- all of them, so they are one record, with the heap that the actions work on. A hash map is an
-- association list, in the order of its iteration.
pub mod Deferral
pub mod Callbacks
pub mod Ownership
pub mod Cancelling
pub mod Cancelled
pub mod Answers
pub mod Ended
use ac_signalr_client_lib_rs.Base.{
  ℕ, ◌+◌, ◌%◌, ◌^◌, Bool, false, Option, none, some, List, [], ◌∷◌, ◌++◌, Text, lit, Res, err,
  Mutex, lock, write, unlocked, Dict, lookup, insert, remove, ltb, ◌==◌, length, drop, is_some,
  if◌then◌else◌,
}
use ac_signalr_client_lib_rs.Client.Configuration.{Protocol}
use ac_signalr_client_lib_rs.Protocol.Negotiate.{MessageType}
use ac_signalr_client_lib_rs.Execution.Heap.{Heap}
use ac_signalr_client_lib_rs.Execution.Actions.{
  Action, Lossy, Updated, update_with, cancel, is_completed, drop_action,
}

pub record Deferred : Type 0 where
  pub message : Text
  pub message_type : MessageType
  pub protocol : Protocol

abbrev pub ActionMap {ℓ} : Type ℓ → Type ℓ → Type ℓ
ActionMap V R = Dict (Mutex (Action V R))

pub record Storage {ℓ} (V R : Type ℓ) : Type ℓ where
  pub actions : Mutex (ActionMap V R)
  pub deferred_messages : Mutex (Dict (List Deferred))
  pub deferred_message_capacity : ℕ
  pub index : Mutex ℕ
  pub heap : Heap V R

abbrev pub empty_heap {ℓ} : {V R : Type ℓ} → Heap V R
empty_heap = record { futures = []; streams = []; calls = []; woken = []; crashed = false }

abbrev pub or_default : Option (List Deferred) → List Deferred
or_default none = []
or_default (some q) = q

-- `push_back`, then `pop_front` if the queue is longer than the capacity.
abbrev pub bounded_push : ℕ → List Deferred → Deferred → List Deferred
bounded_push capacity q d =
    if ltb capacity (length (q ++ d ∷ [])) then drop 1 (q ++ d ∷ []) else q ++ d ∷ []

module _ {ℓ} {V R : Type ℓ} where
  -- `new_with_deferred_message_capacity`
  unfoldable pub new : ℕ → Storage V R
  new capacity = record {
    actions = unlocked [];
    deferred_messages = unlocked [];
    deferred_message_capacity = capacity;
    index = unlocked 0;
    heap = empty_heap;
  }

  abbrev with_actions : Storage V R → ActionMap V R → Heap V R → Storage V R
  with_actions s m h = record s { actions = write s.actions m; heap = h }

  -- A key that is taken keeps its action, and the new action is dropped; so is it if the lock fails.
  abbrev insert_locked : Storage V R → Text → Action V R → Option (ActionMap V R) → Storage V R
  insert_locked s key a none = record s { heap = drop_action a s.heap }
  insert_locked s key a (some m) =
      if is_some (lookup key m)
      then record s { heap = drop_action a s.heap }
      else with_actions s (insert key (unlocked a) m) s.heap

  -- `Storage::insert`
  unfoldable pub insert_action : Storage V R → Text → Action V R → Storage V R
  insert_action s key a = insert_locked s key a (lock s.actions)

  abbrev contains_locked : Text → Option (ActionMap V R) → Bool
  contains_locked key none = false
  contains_locked key (some m) = is_some (lookup key m)

  -- `Storage::contains`
  unfoldable pub contains : Storage V R → Text → Bool
  contains s key = contains_locked key (lock s.actions)

  abbrev updated_entry :
      Storage V R
      → Text
      → ActionMap V R
      → Mutex (Action V R)
      → Updated V R
      → Storage V R × Res (Unit {0})
  updated_entry s key m e (a, h, r) = (with_actions s (insert key (write e a) m) h, r)

  abbrev pub update_entry :
      Storage V R
      → Text
      → (Action V R → Heap V R → Updated V R)
      → ActionMap V R
      → Mutex (Action V R)
      → Option (Action V R)
      → Storage V R × Res (Unit {0})
  update_entry s key f m e none = (s, err (lit "Cannot unlock action"))
  update_entry s key f m e (some a) = updated_entry s key m e (f a s.heap)

  abbrev update_found :
      Storage V R
      → Text
      → (Action V R → Heap V R → Updated V R)
      → ActionMap V R
      → Option (Mutex (Action V R))
      → Storage V R × Res (Unit {0})
  update_found s key f m none =
      (s, err (lit "Key " ++ key ++ lit " is not found in registered actions"))
  update_found s key f m (some e) = update_entry s key f m e (lock e)

  abbrev update_locked :
      Storage V R
      → Text
      → (Action V R → Heap V R → Updated V R)
      → Option (ActionMap V R)
      → Storage V R × Res (Unit {0})
  update_locked s key f none = (s, err (lit "Cannot lock storage"))
  update_locked s key f (some m) = update_found s key f m (lookup key m)

  -- `Storage::update`
  unfoldable pub update :
      Storage V R → Text → (Action V R → Heap V R → Updated V R) → Storage V R × Res (Unit {0})
  update s key f = update_locked s key f (lock s.actions)

  abbrev remove_found :
      Storage V R → Text → ActionMap V R → Option (Mutex (Action V R)) → Storage V R
  remove_found s key m none = s
  remove_found s key m (some e) = with_actions s (remove key m) (drop_action e.inner s.heap)

  abbrev remove_locked : Storage V R → Text → Option (ActionMap V R) → Storage V R
  remove_locked s key none = s
  remove_locked s key (some m) = remove_found s key m (lookup key m)

  -- `Storage::remove`
  unfoldable pub remove_action : Storage V R → Text → Storage V R
  remove_action s key = remove_locked s key (lock s.actions)

  abbrev queue_locked : Storage V R → Text → Deferred → Option (Dict (List Deferred)) → Storage V R
  queue_locked s key d none = s
  queue_locked s key d (some m) = record s {
    deferred_messages =
        write s.deferred_messages
          (insert key (bounded_push s.deferred_message_capacity (or_default (lookup key m)) d) m);
  }

  -- An action that was registered in the meantime gets the message at once, also where it refuses it.
  abbrev defer_found :
      Lossy
      → Storage V R
      → Text
      → Deferred
      → ActionMap V R
      → Option (Mutex (Action V R))
      → Storage V R
  defer_found lossy s key d m none = queue_locked s key d (lock s.deferred_messages)
  defer_found lossy s key d m (some e) =
      (update_entry s key (λ a h. update_with lossy a h d.message d.message_type d.protocol) m e
        (lock e)).0

  abbrev defer_locked : Lossy → Storage V R → Text → Deferred → Option (ActionMap V R) → Storage V R
  defer_locked lossy s key d none = s
  defer_locked lossy s key d (some m) = defer_found lossy s key d m (lookup key m)

  -- `defer_message`
  unfoldable pub defer_message : Lossy → Storage V R → Text → Deferred → Storage V R
  defer_message lossy s key d = defer_locked lossy s key d (lock s.actions)

  -- The loop over the messages taken: an error is logged, and the loop goes on.
  unfoldable pub replay_all : Lossy → Storage V R → Text → List Deferred → Storage V R
  unfolding update
  replay_all lossy s key [] = s
  replay_all lossy s key (d ∷ ds) =
      replay_all lossy
        (update s key (λ a h. update_with lossy a h d.message d.message_type d.protocol)).0 key ds

  abbrev replay_found :
      Lossy → Storage V R → Text → Dict (List Deferred) → Option (List Deferred) → Storage V R
  replay_found lossy s key m none = s
  replay_found lossy s key m (some ds) =
      replay_all lossy (record s { deferred_messages = write s.deferred_messages (remove key m) })
        key ds

  abbrev replay_locked : Lossy → Storage V R → Text → Option (Dict (List Deferred)) → Storage V R
  replay_locked lossy s key none = s
  replay_locked lossy s key (some m) = replay_found lossy s key m (lookup key m)

  -- `replay_deferred`
  unfoldable pub replay_deferred : Lossy → Storage V R → Text → Storage V R
  unfolding replay_all
  replay_deferred lossy s key = replay_locked lossy s key (lock s.deferred_messages)

  -- `increment`: a poisoned lock is gone through, and the `usize` wraps.
  unfoldable pub increment : Storage V R → Storage V R × ℕ
  increment s = let n = (s.index.inner + 1) % 2 ^ 64 in (record s { index = write s.index n }, n)

  -- One entry of `cancel_pending`: the entry cancelled, if it is not poisoned.
  abbrev pub cancel_entry :
      Text
      → Mutex (Action V R)
      → Heap V R
      → Option (Action V R)
      → Mutex (Action V R) × Heap V R × Bool
  cancel_entry reason e h none = (e, h, false)
  cancel_entry reason e h (some a) =
      let (a', h') = cancel a h reason in (write e a', h', is_completed a')

  -- The loop over the entries: the new entries, the new heap, and the keys of the completed ones.
  unfoldable pub cancel_entries :
      Text → ActionMap V R → Heap V R → ActionMap V R × Heap V R × List Text
  cancel_entries reason [] h = ([], h, [])
  cancel_entries reason ((k, e) ∷ m) h =
      let (e', h', done) = cancel_entry reason e h (lock e) in
      let (m', h'', keys) = cancel_entries reason m h' in
      ((k, e') ∷ m', h'', if done then k ∷ keys else keys)

  abbrev pub drop_found : Heap V R → Option (Mutex (Action V R)) → Heap V R
  drop_found h none = h
  drop_found h (some e) = drop_action e.inner h

  -- The loop over the completed keys.
  unfoldable pub remove_keys : List Text → ActionMap V R → Heap V R → ActionMap V R × Heap V R
  remove_keys [] m h = (m, h)
  remove_keys (k ∷ ks) m h = remove_keys ks (remove k m) (drop_found h (lookup k m))

  abbrev cancel_locked : Storage V R → Text → Option (ActionMap V R) → Storage V R
  cancel_locked s reason none = s
  cancel_locked s reason (some m) =
      let (m', h', keys) = cancel_entries reason m s.heap in
      let (m'', h'') = remove_keys keys m' h' in with_actions s m'' h''

  -- `cancel_pending`
  unfoldable pub cancel_pending : Storage V R → Text → Storage V R
  unfolding cancel_entries remove_keys
  cancel_pending s reason = cancel_locked s reason (lock s.actions)

  unfoldable pub drop_all : ActionMap V R → Heap V R → Heap V R
  drop_all [] h = h
  drop_all ((k, e) ∷ m) h = drop_all m (drop_action e.inner h)

  abbrev clear_locked : Storage V R → Option (ActionMap V R) → Storage V R
  clear_locked s none = s
  clear_locked s (some m) = with_actions s [] (drop_all m s.heap)

  -- `dispose`, which `Drop` calls: the last of the clones that share the map clears it.
  unfoldable pub dispose : Storage V R → ℕ → Storage V R
  unfolding drop_all
  dispose s strong_count = if strong_count == 1 then clear_locked s (lock s.actions) else s
