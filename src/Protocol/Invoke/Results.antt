-- ===== src/Protocol/Invoke/Results.antt =====
-- What an invocation holds after the argument builder, and what a completion means.
use ac_signalr_client_lib_rs.Base.{
  ◌≡◌, ap, ◌∙◌, List, [], ◌∷◌, ◌++◌, append-nil, append_assoc, some, Text, Res, ok, err,
}
use ac_signalr_client_lib_rs.Protocol.Invoke.{
  Invocation, create_single, with_invocation_id, new_arguments, argument, with_arguments,
  build_invocation, built,
}

module _ {ℓ} {V : Type ℓ} where
  -- The arguments that could be serialized, in order.
  abbrev pub values : List (Res V) → List V
  values [] = []
  values (ok v ∷ rest) = v ∷ values rest
  values (err e ∷ rest) = values rest

  build-from :
      (i : Invocation V) (vs : List V) (args : List (Res V))
      → build_invocation (with_arguments (new_arguments (record i { arguments = some vs })) args)
        ≡ built (record i { arguments = some (vs ++ values args) })
  unfolding build_invocation with_arguments new_arguments argument
  build-from i vs [] = rw append-nil
  build-from i vs (ok v ∷ rest) =
      build-from i (vs ++ v ∷ []) rest
      ∙ ap (λ l. built (record i { arguments = some l })) (append_assoc vs (v ∷ []) (values rest))
  build-from i vs (err e ∷ rest) = build-from i vs rest

  -- The builder does not panic: an invocation built with arguments carries exactly those that could
  -- be serialized, in the order of the calls, and its id and target are as before.
  pub build_invocation-with_arguments :
      (target key : Text) (args : List (Res V))
      → build_invocation
          (with_arguments (new_arguments (with_invocation_id (create_single target) key)) args)
        ≡ built (record (create_single target) { id = some key; arguments = some (values args) })
  unfolding create_single with_invocation_id
  build_invocation-with_arguments target key args =
      build-from (with_invocation_id (create_single target) key) [] args
