-- ===== src/Examples/Starts.antt =====
-- `CommandGate.__init__` on the arguments of the concrete gate.
use rclp.Prelude.{◌≡◌, refl, true, none, some, [], ◌∷◌, contains, lookup, is_blank, codes}
use rclp.Core.Models.{CapabilityConstraintRequirement, CapabilityConstraintBounds, capability_text}
use rclp.Core.Conformance.{any_blank}
use rclp.Core.Conformance.Validate.Limits.{HasPolicy}
use rclp.Gate.Replay.{durable}
use rclp.Gate.Revocations
use rclp.Gate.Init.{Arguments, init_violation, scopes_violation, coverage_violation, validation_of}
use rclp.Gate.Init.Covered.{init-HasPolicy}
use rclp.Examples.{fresh_gate, requirement, bounds}

abbrev arguments : Arguments
arguments = record {
  issuer_public_key_b64 = "AAAA";
  local_edge_agent_id = "edge-1";
  trusted_issuer_ids = "issuer-1" ∷ [];
  trusted_revoker_ids = "revoker-1" ∷ [];
  accepted_capabilities = some ("remote_assist" ∷ []);
  accepted_policy_id = some "policy-1";
  accepted_policy_digests = some ("sha256:0f" ∷ []);
  issuer_capability_scopes = some (("issuer-1", "remote_assist" ∷ []) ∷ []);
  capability_constraint_requirements = some (("remote_assist", requirement) ∷ []);
  capability_constraint_bounds = some (("remote_assist", bounds) ∷ []);
  agent_public_keys_by_id = some (("agent-1", "AAAA") ∷ []);
  issuer_public_keys_by_id = none;
  state_public_keys_by_edge_id = none;
  command_replay_cache = some fresh_gate.replay;
  revocation_store = some fresh_gate.store;
  max_lease_age_seconds = 600;
  max_lease_ttl_seconds = 600;
  max_state_age_seconds = 30;
}

arguments_pass : init_violation arguments ≡ none
unfolding init_violation scopes_violation coverage_violation any_blank durable Revocations.durable
    lookup is_blank codes
arguments_pass = refl

accepts : contains "remote_assist" ("remote_assist" ∷ []) ≡ true
unfolding contains
accepts = refl

init-HasPolicy_example :
    (r : CapabilityConstraintRequirement) × (b : CapabilityConstraintBounds) × (capability_text
        r.capability
      ≡ "remote_assist")
    × (capability_text b.capability ≡ "remote_assist")
    × HasPolicy (validation_of arguments) "remote_assist" r b
init-HasPolicy_example = init-HasPolicy arguments "remote_assist" arguments_pass accepts
