-- ===== src/Client/Handles/Counting.antt =====
-- The handles of a client in every history: those in the hands of the user, and one in each
-- registered callback.
use ac_signalr_client_lib_rs.Base.{
  ℕ, suc, ◌+◌, ◌-◌, ◌≡◌, ◌≢◌, refl, sym, subst, ◌∙◌, ap, Bool, true, false, inl, inr, ◌⊎◌, ◌++◌,
  Text, lit, Res, lock, if◌then◌else◌, arith,
}
use ac_signalr_client_lib_rs.Protocol.Messages.{Serde}
use ac_signalr_client_lib_rs.Execution.Storage.{Storage, cancel_pending}
use ac_signalr_client_lib_rs.Execution.Storage.Ownership.{IsOwned, remove_action-IsOwned}
use ac_signalr_client_lib_rs.Execution.Storage.Cancelling.{cancel_pending-IsOwned}
use ac_signalr_client_lib_rs.Execution.Storage.Callbacks.Kept.{cancel_pending-callback_count}
use ac_signalr_client_lib_rs.Execution.Storage.Callbacks.{
  callback_count, remove_action-callback_count,
}
use ac_signalr_client_lib_rs.Execution.Dispatch.{
  Codec, UnregistrationHandler, create_key, add_callback, unregister,
}
use ac_signalr_client_lib_rs.Execution.Dispatch.History.{
  Call, creates_key, adds_callback, adds_invocation, adds_stream, processes, unregisters, removes,
  cancels, disposes, polls, polls_stream, perform, perform-IsOwned,
}
use ac_signalr_client_lib_rs.Execution.Dispatch.Callbacks.{
  add_callback-callback_count, add_invocation-callback_count, add_stream-callback_count,
  process_message-callback_count,
}
use ac_signalr_client_lib_rs.Communication.Monitor.{
  System, connection_lost, Reply, send, set_reconnecting_handler, set_reconnected_handler,
  begin_disconnect, finish_disconnect, disconnect, clone, drop_client, send_event,
  current_connection, monitor_step, mark_connection_lost,
}
use ac_signalr_client_lib_rs.Communication.Monitor.Interleaving.{reason_of}
use ac_signalr_client_lib_rs.Client.Handles.{
  is_vacant, register, unregister_callback, disconnect_handle,
}

module _ {ℓ} {V R : Type ℓ} where
  -- The calls of the storage that neither add a callback nor take any action away; those that do are
  -- steps of their own.
  abbrev pub is_plain : Call V R → Bool
  is_plain (adds_callback target callback) = false
  is_plain (unregisters handler) = false
  is_plain (removes key) = false
  is_plain (disposes strong_count) = false
  is_plain _ = true

  -- One step, with the handles in the hands of the user before and after it. A callback that keeps
  -- its context keeps a clone of the client that its action holds.
  pub data Move (c : Codec V) (s : System V R) (u : ℕ) : System V R → ℕ → Type (ℓ + 1) where
    monitors : (r : Reply) → Move c s u (monitor_step s r) u
    reports : (g : ℕ) (reason : Text) → Move c s u (send_event s (connection_lost g reason)) u
    sends :
        {T : Type ℓ} (queue : ℕ → Text → Res (Unit {0})) (serde : Serde T) (value : T)
        → Move c s u (send s queue serde value).0 u
    stores :
        (x : Call V R)
        → is_plain x ≡ true
        → Move c s u (record s { storage = perform c s.storage x }) u
    sets_reconnecting : (callback : ℕ) → Move c s u (set_reconnecting_handler s callback) u
    sets_reconnected : (callback : ℕ) → Move c s u (set_reconnected_handler s callback) u
    begins_disconnect : Move c s u (begin_disconnect s).0 u
    finishes_disconnect : Move c s u (finish_disconnect s) u
    clones : u ≢ 0 → Move c s u (clone s) (suc u)
    keeps_context : callback_count s.storage.actions.inner ≢ 0 → Move c s u (clone s) (suc u)
    drops : (v : ℕ) → u ≡ suc v → Move c s u (drop_client s) v
    disconnects : (v : ℕ) → u ≡ suc v → Move c s u (disconnect_handle s) v
    registers :
        (target : Text) (callback : ℕ) → u ≢ 0 → Move c s u (register c s target callback).0 u
    unregisters_callback :
        (handler : UnregistrationHandler) → Move c s u (unregister_callback s handler) u

  pub data Moves (c : Codec V) (s : System V R) (u : ℕ) : System V R → ℕ → Type (ℓ + 1) where
    start : Moves c s u s u
    next : {t x : System V R} {v w : ℕ} → Moves c s u t v → Move c t v x w → Moves c s u x w

  pub record IsCounted (s : System V R) (u : ℕ) : Type ℓ where
    pub counted : s.clients ≡ u + callback_count s.storage.actions.inner
    pub owned : IsOwned s.storage

  perform-callback_count :
      (c : Codec V) (s : Storage V R) (x : Call V R)
      → is_plain x ≡ true
      → IsOwned s
      → callback_count (perform c s x).actions.inner ≡ callback_count s.actions.inner
  unfolding perform create_key
  perform-callback_count c s (creates_key target) p w = refl
  perform-callback_count c s (adds_invocation key completions) p w =
      add_invocation-callback_count s key completions
  perform-callback_count c s (adds_stream key completions items) p w =
      add_stream-callback_count s key completions items
  perform-callback_count c s (processes message t q) p w =
      process_message-callback_count c s message t q w
  perform-callback_count c s (cancels reason) p w = cancel_pending-callback_count s reason w.unique
  perform-callback_count c s (polls i x) p w = refl
  perform-callback_count c s (polls_stream i x) p w = refl
  perform-callback_count c s _ p w = cc

  -- A system with the same number of clients and a storage that keeps its callbacks.
  kept :
      (s t : System V R) (u : ℕ)
      → t.clients ≡ s.clients
      → callback_count t.storage.actions.inner ≡ callback_count s.storage.actions.inner
      → IsOwned t.storage
      → IsCounted s u
      → IsCounted t u
  kept s t u e f w h = record { counted = omega (arith, e, f, h.counted); owned = w }

  monitor_step_kept :
      (s : System V R) (r : Reply)
      → ((monitor_step s r).clients ≡ s.clients)
        × (((monitor_step s r).storage ≡ s.storage)
            ⊎ ((monitor_step s r).storage
                ≡ cancel_pending s.storage (
                    lit "Connection lost before the invocation completed: " ++ reason_of s.events)))
  unfolding monitor_step mark_connection_lost reason_of
  monitor_step_kept s r = ground arith

  monitor_step-IsCounted :
      (s : System V R) (u : ℕ) (r : Reply) → IsCounted s u → IsCounted (monitor_step s r) u
  monitor_step-IsCounted s u r h =
      let (clients, storage) = monitor_step_kept s r in
      let reason : Text =
        lit "Connection lost before the invocation completed: " ++ reason_of s.events in
      elim storage [
        | inl e ↦
            kept s (monitor_step s r) u clients (ap (λ x. callback_count x.actions.inner) e)
              (subst IsOwned (sym e) h.owned) h
        | inr e ↦
            kept s (monitor_step s r) u clients
              (ap (λ x. callback_count x.actions.inner) e
                ∙ cancel_pending-callback_count s.storage reason h.owned.unique)
              (subst IsOwned (sym e) (cancel_pending-IsOwned s.storage reason h.owned)) h
      ]

  pub drop_client_kept :
      (s : System V R)
      → ((drop_client s).clients ≡ s.clients - 1) × ((drop_client s).storage ≡ s.storage)
  unfolding drop_client
  drop_client_kept s = ground arith

  -- A handle too many, which is kept or dropped.
  kept_or_dropped :
      (s : System V R) (u : ℕ) (b : Bool)
      → IsOwned s.storage
      → s.clients ≡ (if b then 0 else 1) + (u + callback_count s.storage.actions.inner)
      → IsCounted (if b then s else drop_client s) u
  kept_or_dropped s u true w h = record { counted = omega (arith, h); owned = w }
  kept_or_dropped s u false w h =
      let (clients, storage) = drop_client_kept s in
      record {
        counted = omega (arith, clients, h, ap (λ x. callback_count x.actions.inner) storage);
        owned = subst IsOwned (sym storage) w;
      }

  register-IsCounted :
      (c : Codec V) (s : System V R) (u : ℕ) (target : Text) (callback : ℕ)
      → IsCounted s u
      → IsCounted (register c s target callback).0 u
  unfolding register perform clone
  register-IsCounted c s u target callback h =
      let w = perform-IsOwned c s.storage (adds_callback target callback) h.owned in
      let n = add_callback-callback_count c s.storage target callback in
      kept_or_dropped (record (clone s) { storage = add_callback c s.storage target callback }) u
        (is_vacant target (lock s.storage.actions)) w (ground (arith, n, h.counted))

  unregister_callback-IsCounted :
      (s : System V R) (u : ℕ) (handler : UnregistrationHandler)
      → IsCounted s u
      → IsCounted (unregister_callback s handler) u
  unfolding unregister_callback unregister
  unregister_callback-IsCounted s u handler h =
      let w = remove_action-IsOwned s.storage handler.key h.owned in
      let n = remove_action-callback_count s.storage handler.key h.owned.unique in ground (arith, n)

  send_kept :
      {T : Type ℓ} (s : System V R) (queue : ℕ → Text → Res (Unit {0})) (serde : Serde T)
      (value : T)
      → ((send s queue serde value).0.clients ≡ s.clients)
        × ((send s queue serde value).0.storage ≡ s.storage)
  unfolding send current_connection
  send_kept s queue serde value = ground arith

  cancelled-IsCounted :
      (s t : System V R) (u : ℕ) (reason : Text)
      → t.clients ≡ s.clients
      → t.storage ≡ cancel_pending s.storage reason
      → IsCounted s u
      → IsCounted t u
  cancelled-IsCounted s t u reason e f h =
      kept s t u e
        (ap (λ x. callback_count x.actions.inner) f
          ∙ cancel_pending-callback_count s.storage reason h.owned.unique)
        (subst IsOwned (sym f) (cancel_pending-IsOwned s.storage reason h.owned)) h

  same-IsCounted :
      (s t : System V R) (u : ℕ)
      → t.clients ≡ s.clients
      → t.storage ≡ s.storage
      → IsCounted s u
      → IsCounted t u
  same-IsCounted s t u e f h =
      kept s t u e (ap (λ x. callback_count x.actions.inner) f) (subst IsOwned (sym f) h.owned) h

  dropped-IsCounted : (s : System V R) (v : ℕ) → IsCounted s (suc v) → IsCounted (drop_client s) v
  dropped-IsCounted s v h = kept_or_dropped s v false h.owned (omega (arith, h.counted))

  pub Move-IsCounted :
      {c : Codec V} {s t : System V R} {u v : ℕ} → Move c s u t v → IsCounted s u → IsCounted t v
  unfolding set_reconnecting_handler set_reconnected_handler begin_disconnect finish_disconnect
      disconnect clone disconnect_handle
  Move-IsCounted {s = s} {u = u} (monitors r) h = monitor_step-IsCounted s u r h
  Move-IsCounted {s = s} {u = u} (reports g reason) h =
      same-IsCounted s (send_event s (connection_lost g reason)) u refl refl h
  Move-IsCounted {s = s} {u = u} (sends queue serde value) h =
      let (e, f) = send_kept s queue serde value in
      same-IsCounted s (send s queue serde value).0 u e f h
  Move-IsCounted {c} {s = s} {u = u} (stores x p) h =
      kept s (record s { storage = perform c s.storage x }) u refl
        (perform-callback_count c s.storage x p h.owned) (perform-IsOwned c s.storage x h.owned) h
  Move-IsCounted {s = s} {u = u} (sets_reconnecting callback) h =
      same-IsCounted s (set_reconnecting_handler s callback) u (ground arith) (ground arith) h
  Move-IsCounted {s = s} {u = u} (sets_reconnected callback) h =
      same-IsCounted s (set_reconnected_handler s callback) u (ground arith) (ground arith) h
  Move-IsCounted {s = s} {u = u} begins_disconnect h =
      cancelled-IsCounted s (begin_disconnect s).0 u (lit "Client disconnected") refl refl h
  Move-IsCounted {s = s} {u = u} finishes_disconnect h =
      same-IsCounted s (finish_disconnect s) u (ground arith) (ground arith) h
  Move-IsCounted {s = s} {u = u} (clones n) h = record {
    counted = omega (arith, h.counted);
    owned = h.owned;
  }
  Move-IsCounted {s = s} {u = u} (keeps_context n) h = record {
    counted = omega (arith, h.counted);
    owned = h.owned;
  }
  Move-IsCounted {s = s} (drops v e) h = dropped-IsCounted s v (subst (IsCounted s) e h)
  Move-IsCounted {s = s} (disconnects v e) h = dropped-IsCounted (disconnect s) v (
      same-IsCounted s (disconnect s) (suc v) (ground arith) (ground arith)
        (subst (IsCounted s) e h))
  Move-IsCounted {c} {s = s} {u = u} (registers target callback n) h =
      register-IsCounted c s u target callback h
  Move-IsCounted {s = s} {u = u} (unregisters_callback handler) h =
      unregister_callback-IsCounted s u handler h
