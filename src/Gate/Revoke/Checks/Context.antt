-- ===== src/Gate/Revoke/Checks/Context.antt =====
-- The times of a revocation, and the lease that it is about.
use rclp.Prelude.{
  ℕ, ◌+◌, ◌≤◌, ◌≡◌, ◌↔◌, refl, sym, ap, ◌∙◌, [], ◌∷◌, false, Option, none, some, String, arith,
  eq_iff,
}
use rclp.Core.Time.{Instant, Timestamp, aware, utc, seconds, instant}
use rclp.Core.Time.Fresh.{IsFresh, timestamps_iff}
use rclp.Core.Models.{CapabilityLease, LeaseRevocation, Capability, capability_text}
use rclp.Gate.State.{Gate}
use rclp.Gate.Revoke.Checks.{
  revocation_clock_skew_seconds, revoked_before, conflicts, capability_conflicts,
  revocation_time_violation, revocation_context_conflicts,
}

-- Both times of the message are fresh, and it was not revoked before it was created, but for the skew.
pub record IsTimely (gate : Gate) (revocation : LeaseRevocation) (now : Instant) : Type 0 where
  pub created :
      IsFresh now revocation_clock_skew_seconds
        (gate.max_revocation_age_seconds + revocation_clock_skew_seconds)
        revocation.created_at
  pub revoked :
      IsFresh now revocation_clock_skew_seconds
        (gate.max_revocation_age_seconds + revocation_clock_skew_seconds)
        revocation.revoked_at
  pub ordered : utc created.at ≤ utc revoked.at + seconds revocation_clock_skew_seconds

-- The message names the edge agent of the lease, and no other robot, mission or capability.
pub record HasContextOf (lease : CapabilityLease) (revocation : LeaseRevocation) : Type 0 where
  pub edge_agent : revocation.edge_agent_id ≡ lease.edge_agent_id
  pub robot : (id : String) → revocation.robot_id ≡ some id → id ≡ lease.robot_id
  pub mission : (id : String) → revocation.mission_id ≡ some id → id ≡ lease.mission_id
  pub capability :
      (c : Capability)
      → revocation.capability ≡ some c
      → capability_text c ≡ capability_text lease.capability

not_before_iff :
    (skew : ℕ) (r c : Timestamp) (i j : Instant)
    → r ≡ aware i
    → c ≡ aware j
    → (revoked_before skew (instant r) (instant c) ≡ false) ↔ (utc j ≤ utc i + seconds skew)
not_before_iff skew r c i j e f = rw (e, f) (λ h. ground arith, λ h. ground arith)

-- The time check passes exactly when the message is timely.
pub revocation_time_iff :
    (gate : Gate) (revocation : LeaseRevocation) (now : Instant)
    → (revocation_time_violation gate revocation now ≡ none) ↔ IsTimely gate revocation now
unfolding revocation_time_violation
revocation_time_iff gate revocation now =
    let fresh =
      timestamps_iff now revocation_clock_skew_seconds
        (gate.max_revocation_age_seconds + revocation_clock_skew_seconds)
        "REVOCATION_TIMESTAMP_INVALID" "REVOCATION_NOT_YET_VALID" "REVOCATION_STALE"
        (revocation.created_at ∷ revocation.revoked_at ∷ []) in
    (
      λ h.
          let both = fresh.0 (ground arith) in
          let created = both.0 in
          let revoked = both.1.0 in
          record {
            created = created;
            revoked = revoked;
            ordered =
                (not_before_iff revocation_clock_skew_seconds revocation.revoked_at
                    revocation.created_at revoked.at created.at revoked.is_aware created.is_aware).0
                  (ground arith);
          },
      λ f. ground (
        arith,
        fresh.1 (f.created, (f.revoked, tt)),
        (not_before_iff revocation_clock_skew_seconds revocation.revoked_at revocation.created_at
              f.revoked.at f.created.at f.revoked.is_aware f.created.is_aware).1
            f.ordered,
      ),
    )

conflicts_iff :
    (claimed : Option String) (actual : String)
    → (conflicts claimed actual ≡ false) ↔ ((id : String) → claimed ≡ some id → id ≡ actual)
conflicts_iff none actual = (λ h id e. cc e, λ f. refl)
conflicts_iff (some claimed) actual = (
  λ h id e. let same : claimed ≡ actual = ground (arith, eq_iff claimed actual) in cc (e, same),
  λ f. ground (arith, (eq_iff claimed actual).1 (f claimed refl)),
)

capability_conflicts_iff :
    (claimed : Option Capability) (actual : Capability)
    → (capability_conflicts claimed actual ≡ false)
      ↔ ((c : Capability) → claimed ≡ some c → capability_text c ≡ capability_text actual)
capability_conflicts_iff none actual = (λ h c e. cc e, λ f. refl)
capability_conflicts_iff (some claimed) actual = (
  λ h c e.
      let same : capability_text claimed ≡ capability_text actual =
        ground (arith, eq_iff (capability_text claimed) (capability_text actual)) in
      let own : claimed ≡ c = cc e in ap capability_text (sym own) ∙ same,
  λ f.
      ground
        (arith, (eq_iff (capability_text claimed) (capability_text actual)).1 (f claimed refl)),
)

-- No conflict is found exactly when the message has the context of the lease.
pub revocation_context_iff :
    (revocation : LeaseRevocation) (lease : CapabilityLease)
    → (revocation_context_conflicts revocation lease ≡ false) ↔ HasContextOf lease revocation
unfolding revocation_context_conflicts
revocation_context_iff revocation lease =
    let robot = conflicts_iff revocation.robot_id lease.robot_id in
    let mission = conflicts_iff revocation.mission_id lease.mission_id in
    let capability = capability_conflicts_iff revocation.capability lease.capability in
    let edge = eq_iff revocation.edge_agent_id lease.edge_agent_id in
    (
      λ h. record {
        edge_agent = ground (arith, edge);
        robot = robot.0 (ground arith);
        mission = mission.0 (ground arith);
        capability = capability.0 (ground arith);
      },
      λ f. ground (
        arith,
        edge.1 f.edge_agent,
        robot.1 f.robot,
        mission.1 f.mission,
        capability.1 f.capability,
      ),
    )
