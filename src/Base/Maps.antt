-- ===== src/Base/Maps.antt =====
-- `HashMap<String, V>` as an association list with distinct keys; the order of the list stands for
-- the iteration order.
use Prim.Native.Nat.{ℕ, ◌+◌, ◌≤◌}
use mathlib.Core.Path.{◌≡◌, refl, ap, subst, ◌∙◌}
use mathlib.Core.Logic.{inl, inr}
use mathlib.Core.List.{List, [], ◌∷◌}
use mathlib.Core.Option.{Option, none, some}
use native.Mathlib.Omega.{arith}
use ac_signalr_client_lib_rs.Base.Tests.{if◌then◌else◌, Bool-cases}
use ac_signalr_client_lib_rs.Base.Strings.{Text, text_eq, text_eq_iff, text_eq_refl, text_eq_comm}

abbrev pub Dict {ℓ} : Type ℓ → Type ℓ
Dict V = List (Text × V)

module _ {ℓ} {V : Type ℓ} where
  unfoldable pub lookup : Text → Dict V → Option V
  lookup k [] = none
  lookup k ((j, v) ∷ m) = if text_eq j k then some v else lookup k m

  -- `entry(k)` overwritten, or added where it is vacant.
  unfoldable pub insert : Text → V → Dict V → Dict V
  insert k v [] = (k, v) ∷ []
  insert k v ((j, w) ∷ m) = if text_eq j k then (j, v) ∷ m else (j, w) ∷ insert k v m

  -- `remove(k)`
  unfoldable pub remove : Text → Dict V → Dict V
  remove k [] = []
  remove k ((j, w) ∷ m) = let rest = remove k m in if text_eq j k then rest else (j, w) ∷ rest

  pub lookup-insert :
      (k j : Text) (v : V) (m : Dict V)
      → lookup j (insert k v m) ≡ (if text_eq k j then some v else lookup j m)
  unfolding lookup insert
  lookup-insert k j v [] = refl
  lookup-insert k j v ((i, w) ∷ m) =
      ground (arith, text_eq_iff k j, text_eq_iff i k, text_eq_iff i j, lookup-insert k j v m)

  pub lookup-remove :
      (k j : Text) (m : Dict V) → lookup j (remove k m) ≡ (if text_eq k j then none else lookup j m)
  unfolding lookup remove
  lookup-remove k j [] = ground arith
  lookup-remove k j ((i, w) ∷ m) =
      ground (arith, text_eq_iff k j, text_eq_iff i k, text_eq_iff i j, lookup-remove k j m)

  -- Writing back what is there changes nothing.
  pub insert-lookup : (k : Text) (v : V) (m : Dict V) → lookup k m ≡ some v → insert k v m ≡ m
  unfolding lookup insert
  insert-lookup k v [] h = cc
  insert-lookup k v ((j, w) ∷ m) h = ground (arith, insert-lookup k v m)

  pub remove-insert : (k : Text) (v : V) (m : Dict V) → remove k (insert k v m) ≡ remove k m
  unfolding remove insert
  remove-insert k v [] = ground (arith, text_eq_iff k k)
  remove-insert k v ((j, w) ∷ m) = ground (arith, remove-insert k v m)

  pub lookup-insert_self : (k : Text) (v : V) (m : Dict V) → lookup k (insert k v m) ≡ some v
  lookup-insert_self k v m = rw (lookup-insert k k v m, text_eq_refl k)

  pub remove_vacant : (k : Text) (m : Dict V) → lookup k m ≡ none → remove k m ≡ m
  unfolding lookup remove
  remove_vacant k [] h = refl
  remove_vacant k ((j, w) ∷ m) h = ground (arith, remove_vacant k m)

  -- No key stands twice.
  abbrev pub AreUnique : Dict V → Type ℓ
  AreUnique [] = Unit
  AreUnique ((k, v) ∷ m) = (lookup k m ≡ none) × AreUnique m

  pub insert-AreUnique : (k : Text) (v : V) (m : Dict V) → AreUnique m → AreUnique (insert k v m)
  unfolding insert lookup
  insert-AreUnique k v [] u = (refl, tt)
  insert-AreUnique k v ((j, w) ∷ m) u = elim (Bool-cases (text_eq j k)) [
    | inl e ↦ rw e u
    | inr e ↦ rw e (
      lookup-insert k j v m
          ∙ ap (λ b. if b then some v else lookup j m) (text_eq_comm k j ∙ e)
          ∙ u.0,
      insert-AreUnique k v m u.1,
    )
  ]

  pub remove-AreUnique : (k : Text) (m : Dict V) → AreUnique m → AreUnique (remove k m)
  unfolding remove
  remove-AreUnique k [] u = tt
  remove-AreUnique k ((j, w) ∷ m) u = elim (Bool-cases (text_eq j k)) [
    | inl e ↦ rw e (remove-AreUnique k m u.1)
    | inr e ↦ rw e (
      lookup-remove k j m ∙ ap (λ b. if b then none else lookup j m) (text_eq_comm k j ∙ e) ∙ u.0,
      remove-AreUnique k m u.1,
    )
  ]

  -- A number summed over the values.
  abbrev pub total : (V → ℕ) → Dict V → ℕ
  total f [] = 0
  total f ((k, v) ∷ m) = f v + total f m

  pub total-insert_new :
      (f : V → ℕ) (k : Text) (v : V) (m : Dict V)
      → lookup k m ≡ none
      → total f (insert k v m) ≡ total f m + f v
  unfolding lookup insert
  total-insert_new f k v [] h = omega arith
  total-insert_new f k v ((j, w) ∷ m) h = ground (arith, total-insert_new f k v m)

  pub total-insert_old :
      (f : V → ℕ) (k : Text) (v : V) (m : Dict V) {w : V}
      → lookup k m ≡ some w
      → total f (insert k v m) + f w ≡ total f m + f v
  unfolding lookup insert
  total-insert_old f k v [] h = cc
  total-insert_old f k v ((j, x) ∷ m) {w = w} h = elim (Bool-cases (text_eq j k)) [
    | inl e ↦ let same : x ≡ w = ground (arith, h, e) in rw (e, same) (omega arith)
    | inr e ↦ rw e (omega (arith, total-insert_old f k v m {w = w} (ground (arith, h, e))))
  ]

  pub total-remove :
      (f : V → ℕ) (k : Text) (m : Dict V) {w : V}
      → AreUnique m
      → lookup k m ≡ some w
      → total f (remove k m) + f w ≡ total f m
  unfolding lookup remove
  total-remove f k [] u h = cc
  total-remove f k ((j, x) ∷ m) {w = w} u h = elim (Bool-cases (text_eq j k)) [
    | inl e ↦
        let same : x ≡ w = ground (arith, h, e) in
        let gone : lookup k m ≡ none = subst (λ i. lookup i m ≡ none) ((text_eq_iff j k).0 e) u.0 in
        rw (e, remove_vacant k m gone, same) (omega arith)
    | inr e ↦ rw e (omega (arith, total-remove f k m {w = w} u.1 (ground (arith, h, e))))
  ]

  pub lookup-le-total :
      (f : V → ℕ) (k : Text) (m : Dict V) {w : V} → lookup k m ≡ some w → f w ≤ total f m
  unfolding lookup
  lookup-le-total f k [] h = cc
  lookup-le-total f k ((j, x) ∷ m) {w = w} h = elim (Bool-cases (text_eq j k)) [
    | inl e ↦ let same : x ≡ w = ground (arith, h, e) in rw same (omega arith)
    | inr e ↦ omega (arith, lookup-le-total f k m {w = w} (ground (arith, h, e)))
  ]
