-- ===== src/Examples/Issues.antt =====
-- The concrete request from the policy engine to a lease.
use rclp.Prelude.{◌≡◌, ◌≤◌, ◌+◌, refl, true, some, none, inr, is_blank, codes}
use rclp.Core.Time.{Instant, aware, utc, seconds, max_wall}
use rclp.Core.Models.{CapabilityLease}
use rclp.Core.Keys.{public_key_b64}
use rclp.Core.Issue.{unsigned_lease, with_signature, issue_violation, issue_lease}
use rclp.Core.Leases.{
  verify_lease_signature, lease_matches_context, capability_constraint_bound_violation,
}
use rclp.Policy.Narrow.{policy_constraint_bounds}
use rclp.Policy.Issued.{allowed_then_issued}
use rclp.Examples.{runtime, robot_state, clock_time}
use rclp.Examples.Policies.{policy, request, issuer, cache, narrow, allows, narrow_given}
use rclp.Examples.Trusts.{pair, pair-IsEd25519, draw}

abbrev made : CapabilityLease
made =
    with_signature runtime pair
      (unsigned_lease draw request narrow "issuer-1" 30 "policy-1" "sha256:0f")

issues :
    issue_lease runtime draw request narrow "issuer-1" pair 30 "policy-1" "sha256:0f" ≡ inr made
unfolding is_blank codes issue_violation issue_lease max_wall
issues = refl

allowed_then_issued_example :
    (verify_lease_signature runtime made (public_key_b64 pair) ≡ true)
    × (lease_matches_context made "agent-1" "edge-1" "robot-1" "mission-9" "remote_assist" ≡ true)
    × (capability_constraint_bound_violation made (some (policy_constraint_bounds policy)) ≡ none)
    × (begin end : Instant) × (made.issued_at ≡ aware begin)
    × (made.expires_at ≡ aware end)
    × (utc end ≤ utc begin + seconds 60)
    × (utc end ≤ utc begin + seconds 120)
allowed_then_issued_example =
    allowed_then_issued runtime issuer (some cache) request robot_state none policy (clock_time 5)
      draw "issuer-1" pair 30 "policy-1" "sha256:0f" narrow made pair-IsEd25519 allows narrow_given
      issues
