-- ===== src/Core/Attestation.antt =====
-- attestation.py: whether an agent is the one that its attestation says, and is trusted here. The age
-- check is the loop that the other modules run.
pub mod Accepted
use rclp.Prelude.{
  ℕ, ◌+◌, Bool, true, false, not, ◌&&◌, ◌||◌, Option, none, some, String, List, [], ◌∷◌, ◌==◌, leb,
  length, contains, lookup, is_blank, is_empty, Violation, reject_if, ◌<|>◌, require, if◌then◌else◌,
}
use rclp.Core.Time.{Instant}
use rclp.Core.Time.Fresh.{timestamp_violation}
use rclp.Core.Models.{
  AgentAttestation, kind_text, tier_text, attestation_message, signature_algorithm_violation,
}
use rclp.Core.Budget.{budget_exceeded}
use rclp.Core.Runtime.{Runtime}
use rclp.Core.SignedText.{bool_text}
use rclp.Core.Signer.{Signed, Reasons, signer_violation}

abbrev pub attestation_clock_skew_seconds : ℕ
attestation_clock_skew_seconds = 30

-- What an enforcer is configured with; `None` is `none`.
pub record Trust : Type 0 where
  pub agent_public_keys_by_id : List (String × String)
  pub public_key_ids_by_agent_id : Option (List (String × String))
  pub accepted_trust_tiers : Option (List String)
  pub manifest_digests_by_agent_id : Option (List (String × String))
  pub max_attestation_age_seconds : ℕ

-- `value or {}` and `not value` of an optional collection.
abbrev pub or_empty {ℓ} : {A : Type ℓ} → Option (List A) → List A
or_empty none = []
or_empty (some xs) = xs

-- `{tier for tier in tiers if tier.strip()}`, in some order.
unfoldable pub normalized : List String → List String
normalized [] = []
normalized (tier ∷ tiers) =
    let rest = normalized tiers in if is_blank tier || contains tier rest then rest else tier ∷ rest

abbrev pub same_number : ℕ → ℕ → Bool
same_number a b = leb a b && leb b a

module _ (rt : Runtime) where
  open rt use {isoformat}

  unfoldable pub attestation_texts : AgentAttestation → List (Option String)
  attestation_texts attestation =
      some attestation.protocol_version
      ∷ some attestation.message_id
      ∷ some attestation.correlation_id
      ∷ some (isoformat attestation.created_at)
      ∷ some "agent_attestation"
      ∷ some attestation.agent_id
      ∷ attestation.authenticated_agent_id
      ∷ some (kind_text attestation.kind)
      ∷ some attestation.manifest_digest
      ∷ some attestation.public_key_id
      ∷ some (tier_text attestation.trust_tier)
      ∷ some (bool_text attestation.revoked)
      ∷ some attestation.signature_alg
      ∷ attestation.signature
      ∷ []

  unfoldable pub attestation_signed_material_too_large : AgentAttestation → Bool
  attestation_signed_material_too_large attestation =
      budget_exceeded 0 (attestation_texts attestation)

  abbrev pub signed_attestation : AgentAttestation → Signed
  signed_attestation attestation = record {
    message = attestation_message attestation;
    claimed = attestation.agent_id;
    authenticated = attestation.authenticated_agent_id;
    signature = attestation.signature;
    too_large = attestation_signed_material_too_large attestation;
  }

  abbrev pub attestation_reasons : Reasons
  attestation_reasons = record {
    no_signer = "ATTESTATION_AUTHENTICATED_AGENT_MISSING";
    other_signer = "ATTESTATION_AUTHENTICATED_AGENT_MISMATCH";
    no_signature = "ATTESTATION_SIGNATURE_MISSING";
    no_key = "ATTESTATION_AGENT_KEY_NOT_TRUSTED";
    too_large = "ATTESTATION_SIGNED_MATERIAL_TOO_LARGE";
    bad_signature = "ATTESTATION_SIGNATURE_INVALID";
  }

  unfoldable pub attestation_auth_violation : AgentAttestation → List (String × String) → Violation
  attestation_auth_violation attestation agent_public_keys_by_id =
      signature_algorithm_violation attestation.base attestation.signature_alg
        "ATTESTATION_SIGNATURE_ALGORITHM_MISSING" "ATTESTATION_SIGNATURE_ALGORITHM_UNSUPPORTED"
      <|> signer_violation rt agent_public_keys_by_id attestation_reasons
          (signed_attestation attestation)

-- `_attestation_time_violation`
unfoldable pub attestation_time_violation : AgentAttestation → Instant → ℕ → Violation
attestation_time_violation attestation now max_age_seconds =
    timestamp_violation now attestation_clock_skew_seconds
      (max_age_seconds + attestation_clock_skew_seconds) "ATTESTATION_TIMESTAMP_INVALID"
      "ATTESTATION_NOT_YET_VALID" "ATTESTATION_STALE" attestation.created_at

-- A mapping must give an identifier the value, and the value must not be blank.
unfoldable pub pinned_violation :
    String → Option String → (not_trusted mismatch : String) → Violation
pinned_violation value expected not_trusted mismatch =
    require expected not_trusted
      λ e. reject_if (is_blank e) not_trusted <|> reject_if (not (value == e)) mismatch

unfoldable pub tier_violation : AgentAttestation → List String → Violation
tier_violation attestation tiers =
    reject_if (is_empty tiers) "ATTESTATION_TRUST_TIER_POLICY_REQUIRED"
    <|> reject_if (not (same_number (length (normalized tiers)) (length tiers)))
        "ATTESTATION_TRUST_TIER_POLICY_REQUIRED"
    <|> reject_if (not (contains "trust_tier" attestation.model_fields_set))
        "ATTESTATION_TRUST_TIER_MISSING"
    <|> reject_if (not (contains (tier_text attestation.trust_tier) (normalized tiers)))
        "ATTESTATION_TRUST_TIER_NOT_ACCEPTED"

unfoldable pub attestation_trust_violation :
    Runtime → AgentAttestation → Trust → Instant → Violation
attestation_trust_violation rt attestation trust now =
    attestation_auth_violation rt attestation trust.agent_public_keys_by_id
    <|> attestation_time_violation attestation now trust.max_attestation_age_seconds
    <|> reject_if (is_blank attestation.manifest_digest) "ATTESTATION_MANIFEST_DIGEST_MISSING"
    <|> reject_if (is_blank attestation.public_key_id) "ATTESTATION_PUBLIC_KEY_ID_MISSING"
    <|> pinned_violation attestation.public_key_id
        (lookup attestation.agent_id (or_empty trust.public_key_ids_by_agent_id))
        "ATTESTATION_PUBLIC_KEY_ID_NOT_TRUSTED" "ATTESTATION_PUBLIC_KEY_ID_MISMATCH"
    <|> reject_if attestation.revoked "ATTESTATION_AGENT_REVOKED"
    <|> tier_violation attestation (or_empty trust.accepted_trust_tiers)
    <|> require trust.manifest_digests_by_agent_id "ATTESTATION_MANIFEST_DIGEST_POLICY_REQUIRED"
        λ digests.
          pinned_violation attestation.manifest_digest (lookup attestation.agent_id digests)
            "ATTESTATION_MANIFEST_DIGEST_NOT_TRUSTED" "ATTESTATION_MANIFEST_DIGEST_MISMATCH"
