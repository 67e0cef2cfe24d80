-- ===== src/Protocol/Invoke.antt =====
-- src/protocol/invoke.rs and streaming.rs, with the argument builder of src/execution/arguments.rs.
-- `V` stands for `serde_json::Value`; a method on `&mut self` returns the new record.
pub mod Results
mod Examples
use ac_signalr_client_lib_rs.Base.{
  Bool, List, [], ◌∷◌, ◌++◌, Option, none, some, Text, lit, Dict, Res, ok, err, map_ok, map_err,
  is_some,
}
use ac_signalr_client_lib_rs.Protocol.Negotiate.{
  MessageType, invocation, completion, stream_invocation,
}

pub record Invocation {ℓ} (V : Type ℓ) : Type ℓ where
  pub type : MessageType
  pub headers : Option (Dict Text)
  pub id : Option Text
  pub target : Text
  pub arguments : Option (List V)
  pub stream_ids : Option (List Text)

abbrev streams_or : List Text → Option (List Text) → Option (List Text)
streams_or [] old = old
streams_or (s ∷ ss) old = some (s ∷ ss)

module _ {ℓ} {V : Type ℓ} where
  unfoldable pub create_single : Text → Invocation V
  create_single target = record {
    type = invocation;
    headers = none;
    id = none;
    target = target;
    arguments = some [];
    stream_ids = none;
  }

  unfoldable pub create_multiple : Text → Invocation V
  create_multiple target = record {
    type = stream_invocation;
    headers = none;
    id = none;
    target = target;
    arguments = some [];
    stream_ids = none;
  }

  abbrev pushed : Option (List V) → V → List V
  pushed (some vec) json = vec ++ json ∷ []
  pushed none json = json ∷ []

  -- `with_argument`, of what `serde_json::to_value` gives for the argument.
  unfoldable pub with_argument : Invocation V → Res V → Res (Invocation V)
  with_argument i json =
      map_ok (λ v. record i { arguments = some (pushed i.arguments v) })
        (map_err (lit "Serialization error: ") json)

  unfoldable pub with_invocation_id : Invocation V → Text → Invocation V
  with_invocation_id i key = record i { id = some key }

  unfoldable pub with_streams : Invocation V → List Text → Invocation V
  with_streams i stream_ids = record i { stream_ids = streams_or stream_ids i.stream_ids }

  unfoldable pub get_invocation_id : Invocation V → Option Text
  get_invocation_id i = i.id

  unfoldable pub get_target : Invocation V → Text
  get_target i = i.target

pub record Completion {ℓ} (R : Type ℓ) : Type ℓ where
  pub type : MessageType
  pub headers : Option (Dict Text)
  pub invocation_id : Text
  pub result : Option R
  pub error : Option Text

module _ {ℓ} {R : Type ℓ} where
  unfoldable pub create_result : Text → R → Completion R
  create_result key value = record {
    type = completion;
    headers = none;
    invocation_id = key;
    result = some value;
    error = none;
  }

  unfoldable pub is_error : Completion R → Bool
  is_error c = is_some c.error

  abbrev result_or_error : Option R → Option Text → Res R
  result_or_error (some r) _ = ok r
  result_or_error none (some e) = err e
  result_or_error none none = err (lit "Completion did not include a result or error")

  unfoldable pub into_result : Completion R → Res R
  into_result c = result_or_error c.result c.error

pub record CancelInvocation : Type 0 where
  pub type : MessageType
  pub headers : Option (Dict Text)
  pub invocation_id : Text

pub record PossibleInvocation : Type 0 where
  pub type : MessageType
  pub headers : Option (Dict Text)
  pub invocation_id : Option Text
  pub target : Option Text

pub record StreamItem {ℓ} (I : Type ℓ) : Type ℓ where
  pub type : MessageType
  pub headers : Option (Dict Text)
  pub invocation_id : Text
  pub item : I

-- src/execution/arguments.rs
pub record ArgumentConfiguration {ℓ} (V : Type ℓ) : Type ℓ where
  pub invocation : Option (Invocation V)

-- `build_invocation` panics where there is no invocation.
pub data Built {ℓ} (V : Type ℓ) : Type ℓ where
  built : Invocation V → Built V
  panicked : Built V

module _ {ℓ} {V : Type ℓ} where
  unfoldable pub new_arguments : Invocation V → ArgumentConfiguration V
  new_arguments i = record { invocation = some i }

  -- A failed serialization is logged, and the invocation stays as it is.
  abbrev kept : Invocation V → Res (Invocation V) → Invocation V
  kept i (ok j) = j
  kept i (err e) = i

  abbrev argued : Option (Invocation V) → Res V → Option (Invocation V)
  argued none json = none
  argued (some i) json = some (kept i (with_argument i json))

  unfoldable pub argument : ArgumentConfiguration V → Res V → ArgumentConfiguration V
  unfolding with_argument
  argument c json = record { invocation = argued c.invocation json }

  abbrev take_built : Option (Invocation V) → Built V
  take_built (some i) = built i
  take_built none = panicked

  unfoldable pub build_invocation : ArgumentConfiguration V → Built V
  build_invocation c = take_built c.invocation

  -- The closure of `invoke_with_args`: one `argument` call after another.
  unfoldable pub with_arguments : ArgumentConfiguration V → List (Res V) → ArgumentConfiguration V
  with_arguments c [] = c
  with_arguments c (json ∷ rest) = with_arguments (argument c json) rest
