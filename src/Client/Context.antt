-- ===== src/Client/Context.antt =====
-- src/client/context.rs: what a registered callback gets. serde_json's printing of a `Value`, and
-- its `as_str` printed with `{:?}`, are the parameter `Values`.
pub mod Arguments
mod Examples
use ac_signalr_client_lib_rs.Base.{
  ℕ, Option, none, some, ◌++◌, Text, lit, show_nat, Res, ok, err, ok_or, get_elem?, ◌>>=◌,
}
use ac_signalr_client_lib_rs.Protocol.Invoke.{
  Invocation, Completion, create_result, get_invocation_id,
}
use ac_signalr_client_lib_rs.Protocol.Messages.{Serde, parse_message}
use ac_signalr_client_lib_rs.Communication.Monitor.{System, send}

pub record Values {ℓ} (V : Type ℓ) : Type ℓ where
  pub print : V → Text
  pub debug_str : V → Text

-- `InvocationContext`: its client is the shared `System`.
pub record InvocationContext {ℓ} (V : Type ℓ) : Type ℓ where
  pub invocation : Invocation V

-- `InvocationContext::create`
unfoldable pub create_context {ℓ} : {V : Type ℓ} → Invocation V → InvocationContext V
create_context i = record { invocation = i }

-- `map_err` with a closure that drops the error.
abbrev with_error {ℓ} : {A : Type ℓ} → Text → Res A → Res A
with_error message (ok a) = ok a
with_error message (err e) = err message

-- `argument`
unfoldable pub context_argument {ℓ κ} :
    {V : Type ℓ} {T : Type κ} → Values V → Serde T → InvocationContext V → ℕ → Res T
unfolding parse_message
context_argument values serde c index = do
  arguments ← ok_or (lit "There are no arguments for the invocation") c.invocation.arguments
  arg ←
      ok_or (lit "The argument does not exist at the given index " ++ show_nat index)
        (get_elem? arguments index)
  with_error
      (lit "The argument cannot be deserialized to the requested type " ++ values.debug_str arg)
      (parse_message serde (values.print arg))

module _ {ℓ} {V R : Type ℓ} where
  abbrev send_completion :
      {T : Type ℓ}
      → System V R
      → (ℕ → Text → Res (Unit {0}))
      → Serde (Completion T)
      → T
      → Option Text
      → System V R × Res (Unit {0})
  send_completion s queue completions result none = (
    s,
    err (lit "The completion cannot be sent, because there was no invocation id for the call"),
  )
  send_completion s queue completions result (some id) =
      send s queue completions (create_result id result)

  -- `complete`, with `send_direct` of the client.
  unfoldable pub complete_context :
      {T : Type ℓ}
      → System V R
      → (ℕ → Text → Res (Unit {0}))
      → Serde (Completion T)
      → InvocationContext V
      → T
      → System V R × Res (Unit {0})
  unfolding create_result send get_invocation_id
  complete_context s queue completions c result =
      send_completion s queue completions result (get_invocation_id c.invocation)
