-- ===== src/Execution/Dispatch/Keys.antt =====
-- The keys that `create_key` makes are distinct, whatever the targets.
use ac_signalr_client_lib_rs.Base.{
  ℕ, suc, ◌+◌, ◌≤◌, ◌<◌, ◌^◌, ◌≡◌, ◌≢◌, refl, sym, subst, ◌∙◌, List, [], ◌∷◌, ◌++◌, append_assoc,
  ◌%◌, Text, lit, show_nat, show_nat-injective, show_nat-IsDigit, IsDigit, All, length, arith,
}
use ac_signalr_client_lib_rs.Execution.Storage.{Storage}
use ac_signalr_client_lib_rs.Execution.Dispatch.{create_key}

underscore_not-IsDigit : (a d : Text) → ¬ All IsDigit (a ++ b'_' ∷ d)
underscore_not-IsDigit [] d h = omega arith
underscore_not-IsDigit (x ∷ a) d h = underscore_not-IsDigit a d h.1

tail_of : {x y : ℕ} {s t : Text} → x ∷ s ≡ y ∷ t → s ≡ t
tail_of e = cc

-- Digits behind an underscore are told from what stands before it.
digits_of : (a b d e : Text) → All IsDigit d → All IsDigit e → a ++ b'_' ∷ d ≡ b ++ b'_' ∷ e → d ≡ e
digits_of [] [] d e hd he p = tail_of p
digits_of [] (y ∷ b) d e hd he p =
    absurd (underscore_not-IsDigit b e (subst (All IsDigit) (tail_of p) hd))
digits_of (x ∷ a) [] d e hd he p =
    absurd (underscore_not-IsDigit a d (subst (All IsDigit) (sym (tail_of p)) he))
digits_of (x ∷ a) (y ∷ b) d e hd he p = digits_of a b d e hd he (tail_of p)

abbrev key_of : Text → ℕ → Text
key_of target n = target ++ lit "_" ++ show_nat n

key_of-injective : (t u : Text) (m n : ℕ) → key_of t m ≡ key_of u n → m ≡ n
key_of-injective t u m n e = show_nat-injective m n (
    digits_of t u (show_nat m) (show_nat n) (show_nat-IsDigit m) (show_nat-IsDigit n)
      (sym (append_assoc t (lit "_") (show_nat m)) ∙ e ∙ append_assoc u (lit "_") (show_nat n)))

module _ {ℓ} {V R : Type ℓ} where
  -- Keys for several targets, one after another.
  unfoldable pub create_keys : Storage V R → List Text → List Text
  unfolding create_key
  create_keys s [] = []
  create_keys s (t ∷ ts) = let (s', key) = create_key s t in key ∷ create_keys s' ts

  create_key-index :
      (s : Storage V R) (t : Text)
      → s.index.inner + 1 < 2 ^ 64
      → ((create_key s t).0.index.inner ≡ suc s.index.inner)
        × ((create_key s t).1 ≡ key_of t (suc s.index.inner))
  unfolding create_key
  create_key-index s t h =
      let e : (s.index.inner + 1) % 2 ^ 64 ≡ suc s.index.inner = omega arith in rw e (refl, refl)

  later_keys :
      (s : Storage V R) (ts : List Text) (t : Text) (n : ℕ)
      → n ≤ s.index.inner
      → s.index.inner + length ts < 2 ^ 64
      → All (λ k. key_of t n ≢ k) (create_keys s ts)
  unfolding create_keys
  later_keys s [] t n h b = tt
  later_keys s (u ∷ ts) t n h b =
      let (e, k) = create_key-index s u (omega arith) in
      (
        λ p. absurd (omega (arith, key_of-injective t u n (suc s.index.inner) (p ∙ k))),
        later_keys (create_key s u).0 ts t n (omega arith) (omega arith),
      )

abbrev pub AreDistinct : List Text → Type 0
AreDistinct [] = Unit
AreDistinct (k ∷ ks) = All (λ j. k ≢ j) ks × AreDistinct ks

-- The keys that a storage makes for any targets are pairwise distinct, also where one target is the
-- beginning of another or ends in digits, as long as its `usize` counter does not wrap.
pub create_keys-AreDistinct {ℓ} :
    {V R : Type ℓ} (s : Storage V R) (ts : List Text)
    → s.index.inner + length ts < 2 ^ 64
    → AreDistinct (create_keys s ts)
unfolding create_keys
create_keys-AreDistinct s [] b = tt
create_keys-AreDistinct s (t ∷ ts) b =
    let (e, k) = create_key-index s t (omega arith) in
    (
      rw k (later_keys (create_key s t).0 ts t (suc s.index.inner) (omega arith) (omega arith)),
      create_keys-AreDistinct (create_key s t).0 ts (omega arith),
    )
