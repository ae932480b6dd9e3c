-- ===== src/Core/Attestation/Accepted.antt =====
-- What an accepted attestation is.
use rclp.Prelude.{
  some_inj, ◌+◌, ◌≡◌, refl, ◌↔◌, true, false, Option, none, some, String, List, [], ◌∷◌, arith,
  eq_iff, eq_refl, contains, lookup, is_blank, is_empty, length, ◌≤◌,
}
use rclp.Core.Time.{Instant}
use rclp.Core.Time.Fresh.{IsFresh, timestamp_iff}
use rclp.Core.Models.{
  AgentAttestation, tier_text, ed25519_signature_algorithm, signature_algorithm_violation-none_iff,
}
use rclp.Core.Runtime.{Runtime}
use rclp.Core.Signer.{IsSigned, signer_iff}
use rclp.Core.Attestation.{
  attestation_clock_skew_seconds, Trust, or_empty, normalized, signed_attestation,
  attestation_reasons, attestation_auth_violation, attestation_time_violation, pinned_violation,
  tier_violation, attestation_trust_violation,
}

-- No text of the list is blank, and none is there twice.
abbrev pub IsTierPolicy : List String → Type 0
IsTierPolicy [] = Unit
IsTierPolicy (t ∷ ts) = (is_blank t ≡ false) × (contains t ts ≡ false) × IsTierPolicy ts

normalized-length : (ts : List String) → length (normalized ts) ≤ length ts
unfolding normalized
normalized-length [] = ground arith
normalized-length (t ∷ ts) = ground (arith, normalized-length ts)

kept_all : (ts : List String) → IsTierPolicy ts → normalized ts ≡ ts
unfolding normalized
kept_all [] p = refl
kept_all (t ∷ ts) p = rw (kept_all ts p.2) (ground (arith, p.0, p.1))

all_kept :
    (ts : List String) → length (normalized ts) ≡ length ts → IsTierPolicy ts × (normalized ts ≡ ts)
unfolding normalized
all_kept [] h = (tt, refl)
all_kept (t ∷ ts) h =
    let rest = all_kept ts (ground (arith, normalized-length ts)) in
    let filled : is_blank t ≡ false = ground (arith, normalized-length ts) in
    let once : contains t ts ≡ false = ground (arith, normalized-length ts, rest.1) in
    ((filled, once, rest.0), rw rest.1 (ground (arith, filled, once)))

tier_iff :
    (attestation : AgentAttestation) (tiers : List String)
    → (tier_violation attestation tiers ≡ none) ↔ (
        (is_empty tiers ≡ false)
        × IsTierPolicy tiers
        × (contains "trust_tier" attestation.model_fields_set ≡ true)
        × (contains (tier_text attestation.trust_tier) tiers ≡ true))
unfolding tier_violation
tier_iff attestation tiers = (
  λ h.
      let kept = all_kept tiers (ground arith) in
      (ground arith, kept.0, ground arith, ground (arith, kept.1)),
  λ f. let kept = kept_all tiers f.1 in rw kept (ground (arith, f.0, f.2, f.3)),
)

-- The mapping pins the identifier to the value, which is not blank.
pinned_iff :
    (value : String) (expected : Option String) (not_trusted mismatch : String)
    → (pinned_violation value expected not_trusted mismatch ≡ none)
      ↔ ((expected ≡ some value) × (is_blank value ≡ false))
unfolding pinned_violation
pinned_iff value none a b = (λ h. cc, λ f. cc (f.0))
pinned_iff value (some e) a b = (
  λ h.
      let same : value ≡ e = ground (arith, eq_iff value e) in
      let filled : is_blank e ≡ false = ground arith in (cc (same), rw same filled),
  λ f. let same = some_inj f.0 in rw same (ground (arith, f.1, eq_refl value)),
)

-- Signed by the agent that it names, fresh, with the key and the manifest that the configuration pins to
-- that agent, not revoked, and of a trust tier that the configuration accepts.
pub record IsTrusted (rt : Runtime) (attestation : AgentAttestation) (trust : Trust) (now : Instant)
    : Type 0 where
  pub algorithm_given : contains "signature_alg" attestation.model_fields_set ≡ true
  pub algorithm : attestation.signature_alg ≡ ed25519_signature_algorithm
  pub signed : IsSigned rt trust.agent_public_keys_by_id (signed_attestation rt attestation)
  pub fresh :
      IsFresh now attestation_clock_skew_seconds
        (trust.max_attestation_age_seconds + attestation_clock_skew_seconds)
        attestation.created_at
  pub key_id :
      lookup attestation.agent_id (or_empty trust.public_key_ids_by_agent_id)
      ≡ some attestation.public_key_id
  pub key_id_filled : is_blank attestation.public_key_id ≡ false
  pub in_force : attestation.revoked ≡ false
  pub tiers : IsTierPolicy (or_empty trust.accepted_trust_tiers)
  pub tier_given : contains "trust_tier" attestation.model_fields_set ≡ true
  pub tier :
      contains (tier_text attestation.trust_tier) (or_empty trust.accepted_trust_tiers) ≡ true
  pub digests : List (String × String)
  pub digests_given : trust.manifest_digests_by_agent_id ≡ some digests
  pub manifest : lookup attestation.agent_id digests ≡ some attestation.manifest_digest
  pub manifest_filled : is_blank attestation.manifest_digest ≡ false

contains-filled : (a : String) (xs : List String) → contains a xs ≡ true → is_empty xs ≡ false
unfolding contains
contains-filled a [] h = cc
contains-filled a (x ∷ xs) h = refl

-- What is asked of the attestation before its manifest is compared.
pub record IsVouched (rt : Runtime) (attestation : AgentAttestation) (trust : Trust) (now : Instant)
    : Type 0 where
  pub authentic : attestation_auth_violation rt attestation trust.agent_public_keys_by_id ≡ none
  pub timely : attestation_time_violation attestation now trust.max_attestation_age_seconds ≡ none
  pub manifest_filled : is_blank attestation.manifest_digest ≡ false
  pub key_id_filled : is_blank attestation.public_key_id ≡ false
  pub key_id :
      pinned_violation attestation.public_key_id
        (lookup attestation.agent_id (or_empty trust.public_key_ids_by_agent_id))
        "ATTESTATION_PUBLIC_KEY_ID_NOT_TRUSTED"
        "ATTESTATION_PUBLIC_KEY_ID_MISMATCH"
      ≡ none
  pub in_force : attestation.revoked ≡ false
  pub tier : tier_violation attestation (or_empty trust.accepted_trust_tiers) ≡ none
  pub digests : List (String × String)
  pub digests_given : trust.manifest_digests_by_agent_id ≡ some digests
  pub manifest :
      pinned_violation attestation.manifest_digest
        (lookup attestation.agent_id digests)
        "ATTESTATION_MANIFEST_DIGEST_NOT_TRUSTED"
        "ATTESTATION_MANIFEST_DIGEST_MISMATCH"
      ≡ none

module _ (rt : Runtime) (attestation : AgentAttestation) (now : Instant) (trust : Trust) where
  IsVouched-of :
      (digests : Option (List (String × String)))
      → trust.manifest_digests_by_agent_id ≡ digests
      → attestation_trust_violation rt attestation trust now ≡ none
      → IsVouched rt attestation trust now
  unfolding attestation_trust_violation
  IsVouched-of none e h = ground (arith, e)
  IsVouched-of (some ds) e h = record {
    authentic = ground arith;
    timely = ground arith;
    manifest_filled = ground arith;
    key_id_filled = ground arith;
    key_id = ground arith;
    in_force = ground arith;
    tier = ground arith;
    digests = ds;
    digests_given = e;
    manifest = ground (arith, e);
  }

  of-IsVouched :
      IsVouched rt attestation trust now
      → attestation_trust_violation rt attestation trust now ≡ none
  unfolding attestation_trust_violation
  of-IsVouched f = ground (
    arith, f.authentic, f.timely, f.manifest_filled, f.key_id_filled, f.key_id, f.in_force, f.tier,
    f.digests_given, f.manifest,
  )

  auth_iff : (attestation_auth_violation rt attestation trust.agent_public_keys_by_id ≡ none) ↔ (
      (contains "signature_alg" attestation.model_fields_set ≡ true)
      × (attestation.signature_alg ≡ ed25519_signature_algorithm)
      × IsSigned rt trust.agent_public_keys_by_id (signed_attestation rt attestation))
  unfolding attestation_auth_violation
  auth_iff =
      let alg =
        signature_algorithm_violation-none_iff attestation.base attestation.signature_alg
          "ATTESTATION_SIGNATURE_ALGORITHM_MISSING" "ATTESTATION_SIGNATURE_ALGORITHM_UNSUPPORTED" in
      let signer =
        signer_iff rt trust.agent_public_keys_by_id (attestation_reasons rt)
          (signed_attestation rt attestation) in
      (
        λ h. let a = alg.0 (ground arith) in (a.0, a.1, signer.0 (ground arith)),
        λ f. ground (arith, alg.1 (f.0, f.1), signer.1 f.2),
      )

  time_iff :
      (attestation_time_violation attestation now trust.max_attestation_age_seconds ≡ none)
      ↔ IsFresh now attestation_clock_skew_seconds
          (trust.max_attestation_age_seconds + attestation_clock_skew_seconds)
          attestation.created_at
  unfolding attestation_time_violation
  time_iff =
      timestamp_iff now attestation_clock_skew_seconds
        (trust.max_attestation_age_seconds + attestation_clock_skew_seconds)
        "ATTESTATION_TIMESTAMP_INVALID" "ATTESTATION_NOT_YET_VALID" "ATTESTATION_STALE"
        attestation.created_at

  key_id_iff :
      (digests : List (String × String)) (value a b : String)
      → (pinned_violation value (lookup attestation.agent_id digests) a b ≡ none)
        ↔ ((lookup attestation.agent_id digests ≡ some value) × (is_blank value ≡ false))
  key_id_iff digests value a b = pinned_iff value (lookup attestation.agent_id digests) a b

  IsTrusted-of : IsVouched rt attestation trust now → IsTrusted rt attestation trust now
  IsTrusted-of v =
      let a = auth_iff.0 v.authentic in
      let k = (key_id_iff _ _ _ _).0 v.key_id in
      let t = (tier_iff attestation _).0 v.tier in
      let m = (key_id_iff _ _ _ _).0 v.manifest in
      record {
        algorithm_given = a.0;
        algorithm = a.1;
        signed = a.2;
        fresh = time_iff.0 v.timely;
        key_id = k.0;
        key_id_filled = k.1;
        in_force = v.in_force;
        tiers = t.1;
        tier_given = t.2;
        tier = t.3;
        digests = v.digests;
        digests_given = v.digests_given;
        manifest = m.0;
        manifest_filled = m.1;
      }

  IsVouched-back : IsTrusted rt attestation trust now → IsVouched rt attestation trust now
  IsVouched-back f = record {
    authentic = auth_iff.1 (f.algorithm_given, f.algorithm, f.signed);
    timely = time_iff.1 f.fresh;
    manifest_filled = f.manifest_filled;
    key_id_filled = f.key_id_filled;
    key_id = (key_id_iff _ _ _ _).1 (f.key_id, f.key_id_filled);
    in_force = f.in_force;
    tier = (tier_iff attestation _).1 (
      contains-filled (tier_text attestation.trust_tier) _ f.tier,
      f.tiers,
      f.tier_given,
      f.tier,
    );
    digests = f.digests;
    digests_given = f.digests_given;
    manifest = (key_id_iff _ _ _ _).1 (f.manifest, f.manifest_filled);
  }

  -- An attestation is trusted exactly when its agent signed it under the configured key, it is fresh, its key
  -- identifier and its manifest digest are those that the configuration pins to the agent, it is not
  -- revoked, and its given trust tier is one of an accepted list without blanks or repetitions.
  pub trust_iff :
      (attestation_trust_violation rt attestation trust now ≡ none)
      ↔ IsTrusted rt attestation trust now
  trust_iff = (λ h. IsTrusted-of (IsVouched-of _ refl h), λ f. of-IsVouched (IsVouched-back f))
