-- ===== src/Gate/Init.antt =====
-- command_gate.py: `CommandGate.__init__`, its guards and the attributes that it sets. A guard raises
-- `ValueError` with its text; sets are lists without repetitions.
pub mod Covered
use rclp.Prelude.{
  ℕ, Bool, true, false, not, ◌&&◌, ◌||◌, Option, none, some, String, List, [], ◌∷◌, ◌==◌, ltb,
  length, is_empty, is_blank, lookup, Violation, reject_if, ◌<|>◌, require,
}
use rclp.Core.Models.{
  CapabilityConstraintRequirement, CapabilityConstraintBounds, Capability, capability_text,
}
use rclp.Core.Leases.{is_none}
use rclp.Core.Conformance.{any_blank}
use rclp.Core.Conformance.Validate.{Config}
use rclp.Gate.Replay.{ReplayCache, durable}
use rclp.Gate.Revocations.{RevocationStore}
use rclp.Gate.Revocations

-- The arguments that the guards read, and those that the attributes of `validation` take.
pub record Arguments : Type 0 where
  pub issuer_public_key_b64 : String
  pub local_edge_agent_id : String
  pub trusted_issuer_ids : List String
  pub trusted_revoker_ids : List String
  pub accepted_capabilities : Option (List String)
  pub accepted_policy_id : Option String
  pub accepted_policy_digests : Option (List String)
  pub issuer_capability_scopes : Option (List (String × List String))
  pub capability_constraint_requirements : Option (List (String × CapabilityConstraintRequirement))
  pub capability_constraint_bounds : Option (List (String × CapabilityConstraintBounds))
  pub agent_public_keys_by_id : Option (List (String × String))
  pub issuer_public_keys_by_id : Option (List (String × String))
  pub state_public_keys_by_edge_id : Option (List (String × String))
  pub command_replay_cache : Option ReplayCache
  pub revocation_store : Option RevocationStore
  pub max_lease_age_seconds : ℕ
  pub max_lease_ttl_seconds : ℕ
  pub max_state_age_seconds : ℕ

-- `not collection`, of a collection or `None`.
abbrev absent {ℓ} : {A : Type ℓ} → Option (List A) → Bool
absent none = true
absent (some entries) = is_empty entries

abbrev blank : Option String → Bool
blank none = true
blank (some text) = is_blank text

abbrev blank_digest : Option (List String) → Bool
blank_digest none = false
blank_digest (some digests) = any_blank digests

abbrev or_nothing {ℓ} : {A : Type ℓ} → Option (List A) → List A
or_nothing none = []
or_nothing (some entries) = entries

abbrev cache_durable : Option ReplayCache → Bool
cache_durable none = false
cache_durable (some cache) = durable cache

abbrev store_durable : Option RevocationStore → Bool
store_durable none = false
store_durable (some store) = Revocations.durable store

-- Every trusted issuer has a scope that is not empty.
unfoldable pub scopes_violation : List String → List (String × List String) → Violation
scopes_violation [] scopes = none
scopes_violation (issuer ∷ issuers) scopes =
    reject_if (absent (lookup issuer scopes))
      "issuer_capability_scopes must scope every trusted issuer"
    <|> scopes_violation issuers scopes

abbrev names_capability : String → Capability → String → Violation
names_capability capability named reason =
    reject_if (not (capability_text named == capability)) reason

-- Every accepted capability has a requirement and bounds, for itself.
unfoldable pub coverage_violation :
    List String
    → List (String × CapabilityConstraintRequirement)
    → List (String × CapabilityConstraintBounds)
    → Violation
coverage_violation [] requirements bounds = none
coverage_violation (capability ∷ capabilities) requirements bounds =
    require (lookup capability requirements)
      "capability_constraint_requirements must cover every accepted capability"
      (λ requirement.
        names_capability capability requirement.capability
          "capability_constraint_requirements must cover every accepted capability")
    <|> require (lookup capability bounds)
        "capability_constraint_bounds must cover every accepted capability"
        (λ bound.
          names_capability capability bound.capability
            "capability_constraint_bounds must cover every accepted capability")
    <|> coverage_violation capabilities requirements bounds

-- The guards, in order.
unfoldable pub init_violation : Arguments → Violation
init_violation a =
    reject_if (is_blank a.local_edge_agent_id) "local_edge_agent_id is required"
    <|> reject_if (is_empty a.trusted_issuer_ids)
        "trusted_issuer_ids must name at least one lease issuer"
    <|> reject_if (is_empty a.trusted_revoker_ids)
        "trusted_revoker_ids must name at least one revocation actor"
    <|> reject_if (absent a.accepted_capabilities)
        "accepted_capabilities must name at least one local capability"
    <|> reject_if (blank a.accepted_policy_id) "accepted_policy_id is required"
    <|> reject_if (absent a.accepted_policy_digests)
        "accepted_policy_digests must name at least one accepted policy"
    <|> reject_if (blank_digest a.accepted_policy_digests)
        "accepted_policy_digests must not contain blank digests"
    <|> reject_if (is_none a.issuer_capability_scopes) "issuer_capability_scopes is required"
    <|> reject_if (is_none a.capability_constraint_requirements)
        "capability_constraint_requirements is required"
    <|> reject_if (is_none a.capability_constraint_bounds)
        "capability_constraint_bounds is required"
    <|> reject_if (absent a.agent_public_keys_by_id)
        "agent_public_keys_by_id must name at least one command agent key"
    <|> reject_if (not (cache_durable a.command_replay_cache))
        "durable command_replay_cache is required"
    <|> reject_if (not (store_durable a.revocation_store)) "durable revocation_store is required"
    <|> reject_if
        (is_none a.issuer_public_keys_by_id
          && (ltb (length a.trusted_issuer_ids) 1 || ltb 1 (length a.trusted_issuer_ids)))
        "issuer_public_keys_by_id is required for multiple lease issuers"
    <|> scopes_violation a.trusted_issuer_ids (or_nothing a.issuer_capability_scopes)
    <|> coverage_violation (or_nothing a.accepted_capabilities)
        (or_nothing a.capability_constraint_requirements)
        (or_nothing a.capability_constraint_bounds)

-- `issuer_public_keys_by_id or {next(iter(trusted_issuer_ids)): issuer_public_key_b64}`
abbrev issuer_keys_or :
    Option (List (String × String)) → List String → String → List (String × String)
issuer_keys_or (some (entry ∷ entries)) issuers key = entry ∷ entries
issuer_keys_or given [] key = []
issuer_keys_or given (issuer ∷ issuers) key = (issuer, key) ∷ []

-- What `evaluate` hands to `validate_lease_for_command` from the attributes.
unfoldable pub validation_of : Arguments → Config
validation_of a = record {
  issuer_public_key_b64 = some a.issuer_public_key_b64;
  issuer_public_keys_by_id =
      some (issuer_keys_or a.issuer_public_keys_by_id a.trusted_issuer_ids a.issuer_public_key_b64);
  trusted_issuer_ids = a.trusted_issuer_ids;
  accepted_capabilities = some (or_nothing a.accepted_capabilities);
  accepted_policy_id = a.accepted_policy_id;
  accepted_policy_digests = some (or_nothing a.accepted_policy_digests);
  issuer_capability_scopes = some (or_nothing a.issuer_capability_scopes);
  capability_constraint_requirements = some (or_nothing a.capability_constraint_requirements);
  capability_constraint_bounds = some (or_nothing a.capability_constraint_bounds);
  state_public_keys_by_edge_id = some (or_nothing a.state_public_keys_by_edge_id);
  max_lease_age_seconds = a.max_lease_age_seconds;
  max_lease_ttl_seconds = a.max_lease_ttl_seconds;
  max_state_age_seconds = a.max_state_age_seconds;
}
