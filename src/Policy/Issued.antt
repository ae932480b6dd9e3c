-- ===== src/Policy/Issued.antt =====
-- From the answer of the engine to a lease that a gate accepts: `_evaluate_policy_inputs`, then
-- `issue_lease` with the constraints that it allowed.
use rclp.Prelude.{
  ℕ, ◌+◌, ◌≤◌, ◌≡◌, refl, sym, ◌∙◌, ap, true, Option, none, some, String, inr, arith, eq_iff,
}
use rclp.Core.Time.{Instant, aware, utc, seconds}
use rclp.Core.Models.{
  Capability, remote_assist, mission_continue, autonomy_escalation, capability_text,
  CapabilityRequest, RobotStateAssertion, ControlPlaneReachabilityAssertion, Policy,
  LeaseConstraints, CapabilityLease, allow,
}
use rclp.Core.Runtime.{Runtime}
use rclp.Core.Keys.{DemoKeyPair, public_key_b64, IsEd25519}
use rclp.Core.Issue.{LeaseDraw, utc_now, unsigned_lease, issue_lease}
use rclp.Core.Issue.Spec.{IsIssuable-of, issued_for_request, issued_timestamps}
use rclp.Core.Leases.{
  verify_lease_signature, lease_matches_context, capability_constraint_bound_violation,
}
use rclp.Policy.Replay.{RequestReplayCache}
use rclp.Policy.Narrow.{policy_constraint_bounds}
use rclp.Policy.Decide.{Issuer, evaluate_policy_inputs}
use rclp.Policy.Decide.Outcome.{policy_allow_iff, allowed_lease_passes_bounds}

capability_text_inj : (a b : Capability) → (capability_text a ≡ capability_text b) → a ≡ b
capability_text_inj remote_assist remote_assist e = refl
capability_text_inj remote_assist mission_continue e = ground (arith, (eq_iff _ _).1 e)
capability_text_inj remote_assist autonomy_escalation e = ground (arith, (eq_iff _ _).1 e)
capability_text_inj mission_continue remote_assist e = ground (arith, (eq_iff _ _).1 e)
capability_text_inj mission_continue mission_continue e = refl
capability_text_inj mission_continue autonomy_escalation e = ground (arith, (eq_iff _ _).1 e)
capability_text_inj autonomy_escalation remote_assist e = ground (arith, (eq_iff _ _).1 e)
capability_text_inj autonomy_escalation mission_continue e = ground (arith, (eq_iff _ _).1 e)
capability_text_inj autonomy_escalation autonomy_escalation e = refl

module _ (rt : Runtime) (issuer : Issuer) (cache : Option RequestReplayCache)
    (request : CapabilityRequest) (state : RobotStateAssertion)
    (plane : Option ControlPlaneReachabilityAssertion) (policy : Policy) (now : Instant)
    (draw : LeaseDraw) (issuer_id : String) (pair : DemoKeyPair) (ttl : ℕ)
    (policy_id policy_digest : String) (constraints : LeaseConstraints)
    (lease : CapabilityLease) where
  issued_capability :
      issue_lease rt draw request constraints issuer_id pair ttl policy_id policy_digest ≡ inr lease
      → request.capability ≡ lease.capability
  unfolding unsigned_lease
  issued_capability h =
      ap (λ l. l.capability)
        (IsIssuable-of rt draw request constraints issuer_id pair ttl policy_id policy_digest lease
          h).1

  -- When the engine allows a request with some constraints, and a lease is issued for the request with those
  -- constraints, the lease is signed so that it verifies under the public key of its issuer, matches the
  -- agents, the robot, the mission and the capability of the request, passes the bounds that a gate takes
  -- from the policy, and is over, by its own timestamps, no later after its begin than the request asked
  -- for and than the leases of the policy last.
  pub allowed_then_issued :
      IsEd25519 rt pair
      → (evaluate_policy_inputs rt issuer cache request state plane policy now).1.decision ≡ allow
      → some constraints
        ≡ (evaluate_policy_inputs rt issuer cache request state plane policy now).1.constraints
      → issue_lease rt draw request constraints issuer_id pair ttl policy_id policy_digest
        ≡ inr lease
      → (verify_lease_signature rt lease (public_key_b64 pair) ≡ true)
        × (lease_matches_context lease request.requesting_agent_id request.edge_agent_id
              request.robot_id request.mission_id
              (capability_text request.capability)
            ≡ true)
        × (capability_constraint_bound_violation lease (some (policy_constraint_bounds policy))
            ≡ none)
        × (begin end : Instant) × (lease.issued_at ≡ aware begin)
        × (lease.expires_at ≡ aware end)
        × (utc end ≤ utc begin + seconds request.requested_duration_seconds)
        × (utc end ≤ utc begin + seconds policy.lease_ttl_seconds)
  allowed_then_issued ok h given issued =
      let fits =
        ((policy_allow_iff rt issuer request state plane policy now cache).0 h).2.in_policy in
      let (signature, context, own) =
        issued_for_request rt draw request constraints issuer_id pair ttl policy_id policy_digest
          lease ok issued in
      let asked =
        (IsIssuable-of rt draw request constraints issuer_id pair ttl policy_id policy_digest lease
          issued).0.asked in
      let (begins, ends, later) =
        issued_timestamps rt draw request constraints issuer_id pair ttl policy_id policy_digest
          lease issued in
      let same = capability_text_inj request.capability policy.capability fits.capability in
      (
        signature,
        context,
        allowed_lease_passes_bounds rt issuer request state plane policy now cache lease h
            (sym (issued_capability issued) ∙ same) (ap some own ∙ given),
        utc_now draw.now,
        utc_now (draw.now + seconds ttl),
        begins,
        ends,
        omega (arith, later, asked),
        omega (arith, later, asked, fits.duration),
      )
