-- ===== src/Client/Configuration/Backoff.antt =====
-- The reconnect delays: what `delay_for_attempt` gives for each attempt, and that the setters keep
-- the policy well formed.
use native.Mathlib.Decide.{dec_lt}
use native.Mathlib.Nat.{pow-suc, pow-le-pow_right, mul-le-mul_left}
use ac_signalr_client_lib_rs.Base.{
  ℕ, suc, ◌+◌, ◌-◌, ◌*◌, ◌^◌, ◌≤◌, ◌<◌, min, ◌≡◌, List, [], ◌∷◌, arith, Text,
}
use ac_signalr_client_lib_rs.Client.Configuration.{
  ReconnectPolicy, ConnectionConfiguration, Setting, with_reconnect_delays, apply, configure, new,
  duration_max, multiplier, delay_for_attempt, shift_of,
}

-- The first delay is within the cap, and the cap is a `Duration`.
pub record IsOrdered (p : ReconnectPolicy) : Type 0 where
  pub first_within : p.initial_delay ≤ p.max_delay
  pub representable : p.max_delay ≤ duration_max

-- The arguments of a setter are of their Rust types.
abbrev pub IsTyped : Setting → Type 0
IsTyped (with_reconnect_delays initial most) = (initial ≤ duration_max) × (most ≤ duration_max)
IsTyped _ = Unit

abbrev pub AreTyped : List Setting → Type 0
AreTyped [] = Unit
AreTyped (s ∷ ss) = IsTyped s × AreTyped ss

apply-IsOrdered :
    (c : ConnectionConfiguration) (s : Setting)
    → IsTyped s
    → IsOrdered c.reconnect
    → IsOrdered (apply c s).reconnect
unfolding apply
apply-IsOrdered c (with_reconnect_delays initial most) t h = ground arith
apply-IsOrdered c _ t h = ground arith

configure-IsOrdered_from :
    (c : ConnectionConfiguration) (ss : List Setting)
    → AreTyped ss
    → IsOrdered c.reconnect
    → IsOrdered (configure c ss).reconnect
unfolding configure
configure-IsOrdered_from c [] t h = h
configure-IsOrdered_from c (s ∷ ss) t h =
    configure-IsOrdered_from (apply c s) ss t.1 (apply-IsOrdered c s t.0 h)

-- Whatever setters the options closure calls on a new configuration, in whatever order, with
-- arguments of type `Duration`, the resulting reconnect policy has its initial delay at most its
-- maximal delay, and that is a `Duration`.
pub configure-IsOrdered :
    (domain hub : Text) (ss : List Setting)
    → AreTyped ss
    → IsOrdered (configure (new domain hub) ss).reconnect
unfolding new
configure-IsOrdered domain hub ss t =
    configure-IsOrdered_from (new domain hub) ss t
      (record { first_within = omega arith; representable = omega arith })

pow_lt_u32 : (k : ℕ) → k < 32 → 2 ^ k < 2 ^ 32
pow_lt_u32 k h =
    omega (arith, pow-le-pow_right {n = 2} (omega arith) {i = k} {j = 31} (omega arith))

multiplier_small : (k : ℕ) → k < 32 → multiplier k ≡ 2 ^ k
unfolding multiplier
multiplier_small k h = ground (arith, pow_lt_u32 k h)

multiplier_large : (k : ℕ) → 32 ≤ k → multiplier k ≡ 2 ^ 32 - 1
unfolding multiplier
multiplier_large k h = ground arith

delay_exact :
    (p : ReconnectPolicy) (k : ℕ)
    → IsOrdered p
    → k < 32
    → delay_for_attempt p (suc k) ≡ min (p.initial_delay * 2 ^ k) p.max_delay
unfolding delay_for_attempt
delay_exact p k v h =
    let e : shift_of (suc k) ≡ k = omega arith in
    rw (e, multiplier_small k h) (omega (arith, v.representable))

-- For a policy whose initial delay is within its cap: the first retry waits for exactly the initial
-- delay, and up to the 32nd retry each one waits for twice the previous delay, cut at the cap.
pub delay_doubles :
    (p : ReconnectPolicy) (k : ℕ)
    → IsOrdered p
    → k < 31
    → (delay_for_attempt p 1 ≡ p.initial_delay)
      × (delay_for_attempt p (suc (suc k)) ≡ min (2 * delay_for_attempt p (suc k)) p.max_delay)
delay_doubles p k v h = (
  rw (delay_exact p 0 v (omega arith)) (omega (arith, v.first_within)),
  rw (delay_exact p k v (omega arith), delay_exact p (suc k) v (omega arith), pow-suc 2 k)
      (omega arith),
)

multiplier_mono : (j k : ℕ) → j ≤ k → multiplier j ≤ multiplier k
multiplier_mono j k h = elim (dec_lt k 32) [
  | yes small ↦
      rw (multiplier_small j (omega arith), multiplier_small k small)
        (pow-le-pow_right (omega arith) h)
  | no large ↦ rw (multiplier_large k (omega arith)) (elim (dec_lt j 32) [
    | yes low ↦ rw (multiplier_small j low) (omega (arith, pow_lt_u32 j low))
    | no high ↦ rw (multiplier_large j (omega arith)) (omega arith)
  ])
]

-- No retry waits longer than the cap, and up to attempt 2^32 a later retry never waits shorter than
-- an earlier one.
delay_mono :
    (p : ReconnectPolicy) (j k : ℕ)
    → j ≤ k
    → k ≤ 2 ^ 32
    → (delay_for_attempt p j ≤ delay_for_attempt p k) × (delay_for_attempt p k ≤ p.max_delay)
unfolding delay_for_attempt
delay_mono p j k h b = (
  omega (
    arith,
    mul-le-mul_left p.initial_delay (multiplier_mono (shift_of j) (shift_of k) (omega arith)),
  ),
  omega arith,
)

-- The shift is cut to 32 bits: for a policy whose initial delay is within its cap, attempt 2^32 + 1
-- waits for the initial delay again.
pub delay_wraps :
    (p : ReconnectPolicy) → IsOrdered p → delay_for_attempt p (2 ^ 32 + 1) ≡ p.initial_delay
unfolding delay_for_attempt multiplier
delay_wraps p v = omega (arith, v.first_within, v.representable)
