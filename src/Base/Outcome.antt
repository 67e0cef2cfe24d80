-- ===== src/Base/Outcome.antt =====
-- `Result<T, String>`: the error is a text, a list of bytes. The binds of its `?` operator.
use Prim.Native.Nat.{ℕ}
use mathlib.Core.Path.{◌≡◌, refl}
use mathlib.Core.Logic.{◌⊎◌, inl, inr}
use mathlib.Core.List.{List, ◌++◌}
use mathlib.Core.Option.{Option, none, some}

pub data Res {ℓ} (A : Type ℓ) : Type ℓ where
  ok : A → Res A
  err : List ℕ → Res A

infixl 5 ◌>>=◌ ◌>>◌
abbrev pub ◌>>=◌ {ℓ κ} : {A : Type ℓ} {B : Type κ} → Res A → (A → Res B) → Res B
ok a >>= f = f a
err e >>= f = err e

abbrev pub ◌>>◌ {ℓ} : {B : Type ℓ} → Res (Unit {0}) → Res B → Res B
m >> k = m >>= λ _. k

-- `map_err(|e| format!("...{}", e))`: a prefix before the error.
abbrev pub map_err {ℓ} : {A : Type ℓ} → List ℕ → Res A → Res A
map_err p (ok a) = ok a
map_err p (err e) = err (p ++ e)

-- `map`
abbrev pub map_ok {ℓ κ} : {A : Type ℓ} {B : Type κ} → (A → B) → Res A → Res B
map_ok f (ok a) = ok (f a)
map_ok f (err e) = err e

-- `ok_or`
abbrev pub ok_or {ℓ} : {A : Type ℓ} → List ℕ → Option A → Res A
ok_or e none = err e
ok_or e (some a) = ok a

abbrev pub IsOk {ℓ} : {A : Type ℓ} → Res A → Type 0
IsOk (ok a) = Unit
IsOk (err e) = ⊥

pub Res-cases {ℓ} : {A : Type ℓ} (r : Res A) → ((a : A) × (r ≡ ok a)) ⊎ ((e : List ℕ) × (r ≡ err e))
Res-cases (ok a) = inl (a, refl)
Res-cases (err e) = inr (e, refl)

pub ok-injective {ℓ} : {A : Type ℓ} {a b : A} → ok a ≡ ok b → a ≡ b
ok-injective e = cc

-- What a chain that succeeds has been through.
pub >>=-ok {ℓ κ} :
    {A : Type ℓ} {B : Type κ} (m : Res A) (f : A → Res B) {b : B}
    → (m >>= f) ≡ ok b
    → (a : A) × (m ≡ ok a) × (f a ≡ ok b)
>>=-ok (ok a) f h = (a, refl, h)
>>=-ok (err e) f h = cc

pub map_err-ok {ℓ} : {A : Type ℓ} (p : List ℕ) (m : Res A) {a : A} → map_err p m ≡ ok a → m ≡ ok a
map_err-ok p (ok a) h = h
map_err-ok p (err e) h = cc

pub ok_or-ok {ℓ} : {A : Type ℓ} (e : List ℕ) (m : Option A) {a : A} → ok_or e m ≡ ok a → m ≡ some a
ok_or-ok e (some a) h = cc
ok_or-ok e none h = cc
