-- ===== src/Core/Fallback.antt =====
-- fallback.py: the declarations that an edge signs.
use rclp.Prelude.{
  ◌≡◌, refl, ◌↔◌, Bool, true, false, Option, none, some, String, List, [], ◌∷◌, arith, len, ltb,
  contains, lookup, Violation, ◌<|>◌, if◌then◌else◌,
}
use rclp.Core.Models.{
  FallbackDeclaration, fallback_text, fallback_message, signature_algorithm_violation,
  signature_algorithm_violation-none_iff, ed25519_signature_algorithm, unsigned,
}
use rclp.Core.Budget.{budget_exceeded, signature_text_too_large}
use rclp.Core.Runtime.{Runtime}
use rclp.Core.Signer.{Signed, Reasons, signer_violation, IsSigned, signer_iff}
use rclp.Core.Keys.{DemoKeyPair, sign, public_key_b64, IsEd25519, verify-sign}

-- `authenticated_declared_by or declaration.declared_by`
abbrev pub or_declared_by : Option String → String → String
or_declared_by none declared_by = declared_by
or_declared_by (some id) declared_by = if ltb 0 (len id) then id else declared_by

-- The declaration after the first three assignments, and then with its signature.
unfoldable pub prepare_fallback_declaration :
    FallbackDeclaration → Option String → FallbackDeclaration
prepare_fallback_declaration declaration authenticated_declared_by = record declaration {
  base = record (declaration.base) {
    model_fields_set =
        "authenticated_declared_by" ∷ "signature_alg" ∷ "signature" ∷ declaration.model_fields_set;
  };
  authenticated_declared_by =
      some (or_declared_by authenticated_declared_by declaration.declared_by);
  signature_alg = ed25519_signature_algorithm;
  signature = none;
}

unfoldable pub sign_fallback_declaration :
    Runtime → FallbackDeclaration → DemoKeyPair → Option String → FallbackDeclaration
sign_fallback_declaration rt declaration signer authenticated_declared_by =
    let prepared = prepare_fallback_declaration declaration authenticated_declared_by in
    record prepared { signature = some (sign rt signer (fallback_message prepared)) }

module _ (rt : Runtime) where
  open rt use {isoformat}

  unfoldable pub fallback_texts : FallbackDeclaration → List (Option String)
  fallback_texts declaration =
      some declaration.protocol_version
      ∷ some declaration.message_id
      ∷ some declaration.correlation_id
      ∷ some (isoformat declaration.created_at)
      ∷ some "fallback_declaration"
      ∷ some declaration.robot_id
      ∷ some declaration.edge_agent_id
      ∷ some declaration.mission_id
      ∷ some declaration.trigger
      ∷ some (fallback_text declaration.fallback_action)
      ∷ some declaration.declared_by
      ∷ declaration.authenticated_declared_by
      ∷ declaration.lease_id
      ∷ declaration.decision_id
      ∷ declaration.revocation_id
      ∷ some declaration.signature_alg
      ∷ declaration.signature
      ∷ []

  unfoldable pub fallback_declaration_signed_material_too_large : FallbackDeclaration → Bool
  fallback_declaration_signed_material_too_large declaration =
      if signature_text_too_large declaration.signature
      then true
      else budget_exceeded 0 (fallback_texts declaration)

  abbrev pub signed_fallback : FallbackDeclaration → Signed
  signed_fallback declaration = record {
    message = fallback_message declaration;
    claimed = declaration.declared_by;
    authenticated = declaration.authenticated_declared_by;
    signature = declaration.signature;
    too_large = fallback_declaration_signed_material_too_large declaration;
  }

  abbrev pub fallback_reasons : Reasons
  fallback_reasons = record {
    no_signer = "FALLBACK_AUTHENTICATED_DECLARED_BY_MISSING";
    other_signer = "FALLBACK_AUTHENTICATED_DECLARED_BY_MISMATCH";
    no_signature = "FALLBACK_SIGNATURE_MISSING";
    no_key = "FALLBACK_DECLARER_KEY_NOT_TRUSTED";
    too_large = "FALLBACK_SIGNED_MATERIAL_TOO_LARGE";
    bad_signature = "FALLBACK_SIGNATURE_INVALID";
  }

  unfoldable pub fallback_declaration_auth_violation :
      FallbackDeclaration → List (String × String) → Violation
  fallback_declaration_auth_violation declaration edge_public_keys_by_id =
      signature_algorithm_violation declaration.base declaration.signature_alg
        "FALLBACK_SIGNATURE_ALGORITHM_MISSING" "FALLBACK_SIGNATURE_ALGORITHM_UNSUPPORTED"
      <|> signer_violation rt edge_public_keys_by_id fallback_reasons (signed_fallback declaration)

  -- A declaration passes exactly when it names the supported algorithm and is signed under the configured
  -- key of its declarer.
  pub fallback_auth_iff :
      (declaration : FallbackDeclaration) (keys : List (String × String))
      → (fallback_declaration_auth_violation declaration keys ≡ none) ↔ (
          (contains "signature_alg" declaration.model_fields_set ≡ true)
          × (declaration.signature_alg ≡ ed25519_signature_algorithm)
          × IsSigned rt keys (signed_fallback declaration))
  unfolding fallback_declaration_auth_violation
  fallback_auth_iff declaration keys =
      let alg =
        signature_algorithm_violation-none_iff declaration.base declaration.signature_alg
          "FALLBACK_SIGNATURE_ALGORITHM_MISSING" "FALLBACK_SIGNATURE_ALGORITHM_UNSUPPORTED" in
      let signer = signer_iff rt keys fallback_reasons (signed_fallback declaration) in
      (
        λ h. let a = alg.0 (ground arith) in (a.0, a.1, signer.0 (ground arith)),
        λ f. ground (arith, alg.1 (f.0, f.1), signer.1 f.2),
      )

  -- A declaration that a key pair signs in the name of its declarer is accepted where the public key of the
  -- pair is configured for the declarer, unless its texts are over the budget.
  pub signed_fallback_accepted :
      (declaration : FallbackDeclaration) (pair : DemoKeyPair) (keys : List (String × String))
      → IsEd25519 rt pair
      → lookup declaration.declared_by keys ≡ some (public_key_b64 pair)
      → fallback_declaration_signed_material_too_large
          (sign_fallback_declaration rt declaration pair none)
        ≡ false
      → fallback_declaration_auth_violation
          (sign_fallback_declaration rt declaration pair none)
          keys
        ≡ none
  unfolding sign_fallback_declaration prepare_fallback_declaration contains unsigned
  signed_fallback_accepted declaration pair keys ok known small =
      let signed = sign_fallback_declaration rt declaration pair none in
      let prepared = prepare_fallback_declaration declaration none in
      (fallback_auth_iff signed keys).1 (
        refl,
        refl,
        record {
          signature = sign rt pair (fallback_message prepared);
          public_key = public_key_b64 pair;
          signer = refl;
          signed = refl;
          trusted = known;
          small = small;
          verified =
              verify-sign rt pair (fallback_message prepared) (fallback_message signed) ok refl;
        },
      )
