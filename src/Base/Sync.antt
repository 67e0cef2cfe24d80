-- ===== src/Base/Sync.antt =====
-- `std::sync::Mutex`: a value and whether a thread panicked while it held the lock.
use mathlib.Core.Path.{◌≡◌, ap}
use mathlib.Core.Logic.{◌⊎◌, inl, inr}
use mathlib.Core.Bool.{Bool, false}
use mathlib.Core.Option.{Option, none, some}
use ac_signalr_client_lib_rs.Base.Tests.{if◌then◌else◌, Bool-cases}

pub record Mutex {ℓ} (A : Type ℓ) : Type ℓ where
  pub poisoned : Bool
  pub inner : A

module _ {ℓ} {A : Type ℓ} where
  -- `Mutex::new`
  abbrev pub unlocked : A → Mutex A
  unlocked a = record { poisoned = false; inner = a }

  -- `lock().ok()`, and `get_mut().ok()`: the value, unless the mutex is poisoned.
  abbrev pub lock : Mutex A → Option A
  lock m = if m.poisoned then none else some m.inner

  -- The value written back through the guard.
  abbrev pub write : Mutex A → A → Mutex A
  write m a = record m { inner = a }

  -- A mutex gives what it holds, or nothing.
  pub lock-cases : (m : Mutex A) → (lock m ≡ none) ⊎ (lock m ≡ some m.inner)
  lock-cases m = elim (Bool-cases m.poisoned) [
    | inl e ↦ inl (ap (λ b. if b then none else some m.inner) e)
    | inr e ↦ inr (ap (λ b. if b then none else some m.inner) e)
  ]
