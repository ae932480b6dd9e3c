-- ===== src/Core/Issue/Spec.antt =====
-- What an issued lease is good for.
use rclp.Prelude.{
  raise_or-inr, ℕ, ◌+◌, ◌≤◌, ◌<◌, ◌≡◌, refl, ap, subst, ◌↔◌, ◌⊎◌, inr, true, false, none, some,
  String, is_blank, arith, leb, ltb, eq_refl,
}
use rclp.Core.Time.{Instant, aware, utc, seconds, max_wall}
use rclp.Core.Models.{
  CapabilityRequest, CapabilityLease, LeaseConstraints, capability_text, lease_message, unsigned,
}
use rclp.Core.Runtime.{Runtime}
use rclp.Core.Keys.{DemoKeyPair, public_key_b64, IsEd25519, verify-sign, sign_given}
use rclp.Core.Leases.{
  lease_time_violation, lease_matches_context, verify_lease_signature, lease_timestamps_violation,
  lease_window_violation,
}
use rclp.Core.Issue.{
  LeaseDraw, utc_now, issue_violation, unsigned_lease, with_signature, issue_lease, compare_with,
  is_expired, is_not_yet_valid,
}

-- A ttl of at least one second and at most what was asked for, with a policy, and inside the calendar.
pub record IsIssuable (draw : LeaseDraw) (request : CapabilityRequest) (ttl : ℕ)
    (policy_id policy_digest : String) : Type 0 where
  pub positive : 0 < ttl
  pub asked : ttl ≤ request.requested_duration_seconds
  pub policy : is_blank policy_id ≡ false
  pub digest : is_blank policy_digest ≡ false
  pub in_range : draw.now + seconds ttl ≤ max_wall

module _ (rt : Runtime) (draw : LeaseDraw) (request : CapabilityRequest)
    (constraints : LeaseConstraints) (issuer_id : String) (pair : DemoKeyPair) (ttl : ℕ)
    (policy_id policy_digest : String) where
  abbrev issued : String ⊎ CapabilityLease
  issued = issue_lease rt draw request constraints issuer_id pair ttl policy_id policy_digest

  pub IsIssuable-iff :
      (issue_violation draw request ttl policy_id policy_digest ≡ none)
      ↔ IsIssuable draw request ttl policy_id policy_digest
  unfolding issue_violation
  IsIssuable-iff = (
    λ h. record {
      positive = ground arith;
      asked = ground arith;
      policy = ground arith;
      digest = ground arith;
      in_range = ground arith;
    },
    λ f. ground (arith, f.positive, f.asked, f.policy, f.digest, f.in_range),
  )

  abbrev made : CapabilityLease
  made = unsigned_lease draw request constraints issuer_id ttl policy_id policy_digest

  -- What is issued is the lease of the request with its signature.
  pub IsIssuable-of :
      (lease : CapabilityLease)
      → issued ≡ inr lease
      → IsIssuable draw request ttl policy_id policy_digest × (with_signature rt pair made ≡ lease)
  unfolding issue_lease
  IsIssuable-of lease h =
      let raised = raise_or-inr _ _ lease h in (IsIssuable-iff.0 raised.0, raised.1)

  made_verifies :
      IsEd25519 rt pair
      → verify_lease_signature rt (with_signature rt pair made) (public_key_b64 pair) ≡ true
  unfolding verify_lease_signature unsigned
  made_verifies ok = ground (
    arith,
    sign_given rt pair (lease_message made) ok,
    verify-sign rt pair (lease_message made) (lease_message (with_signature rt pair made)) ok refl,
  )

  -- An issued lease is signed so that it verifies under the public key of its issuer, is for the agents, the
  -- robot, the mission and the capability of the request, and carries the constraints that were given.
  pub issued_for_request :
      (lease : CapabilityLease)
      → IsEd25519 rt pair
      → issued ≡ inr lease
      → (verify_lease_signature rt lease (public_key_b64 pair) ≡ true)
        × (lease_matches_context lease request.requesting_agent_id request.edge_agent_id
              request.robot_id request.mission_id
              (capability_text request.capability)
            ≡ true)
        × (lease.constraints ≡ constraints)
  unfolding lease_matches_context unsigned_lease
  issued_for_request lease ok h =
      let own = (IsIssuable-of lease h).1 in
      (
        subst (λ l. verify_lease_signature rt l (public_key_b64 pair) ≡ true) own
            (made_verifies ok),
        subst
            (λ l.
              lease_matches_context l request.requesting_agent_id request.edge_agent_id
                request.robot_id request.mission_id (capability_text request.capability)
              ≡ true)
            own
            (ground (
              arith,
              eq_refl request.requesting_agent_id,
              eq_refl request.edge_agent_id,
              eq_refl request.robot_id,
              eq_refl request.mission_id,
              eq_refl (capability_text request.capability),
            )),
        subst (λ l. l.constraints ≡ constraints) own refl,
      )

  -- An issued lease passes the time check of an enforcer from the moment of issue until the ttl is over, as
  -- long as the enforcer accepts leases of this length and age, and fails it from then on.
  pub issued_in_force :
      (lease : CapabilityLease) (at : Instant) (max_age max_ttl skew : ℕ)
      → issued ≡ inr lease
      → utc (utc_now draw.now) ≤ utc at
      → at.wall + seconds skew ≤ max_wall
      → utc at ≤ utc (utc_now draw.now) + seconds max_age
      → ttl ≤ max_ttl
      → (lease_time_violation lease (aware at) max_age max_ttl skew ≡ none)
        ↔ (utc at < utc (utc_now draw.now) + seconds ttl)
  unfolding lease_time_violation lease_timestamps_violation lease_window_violation unsigned_lease
      utc
  issued_in_force lease at max_age max_ttl skew h from within age fits =
      let (ok, own) = IsIssuable-of lease h in
      subst
        (λ l.
          (lease_time_violation l (aware at) max_age max_ttl skew ≡ none)
          ↔ (utc at < utc (utc_now draw.now) + seconds ttl))
        own (ground (arith, ok.positive))

  utc_later : utc (utc_now (draw.now + seconds ttl)) ≡ utc (utc_now draw.now) + seconds ttl
  unfolding utc
  utc_later = omega arith

  -- An issued lease begins at the moment of issue and is over when its ttl is.
  pub issued_timestamps :
      (lease : CapabilityLease)
      → issued ≡ inr lease
      → (lease.issued_at ≡ aware (utc_now draw.now))
        × (lease.expires_at ≡ aware (utc_now (draw.now + seconds ttl)))
        × (utc (utc_now (draw.now + seconds ttl)) ≡ utc (utc_now draw.now) + seconds ttl)
  unfolding unsigned_lease
  issued_timestamps lease h =
      let own = (IsIssuable-of lease h).1 in
      (
        subst (λ l. l.issued_at ≡ aware (utc_now draw.now)) own refl,
        subst (λ l. l.expires_at ≡ aware (utc_now (draw.now + seconds ttl))) own refl,
        utc_later,
      )

  -- An issued lease is expired exactly from the moment that its ttl is over, and not yet valid exactly before
  -- it was issued.
  pub issued_expires :
      (lease : CapabilityLease) (at : Instant)
      → issued ≡ inr lease
      → (is_expired lease (aware at) ≡ some (leb (utc (utc_now draw.now) + seconds ttl) (utc at)))
        × (is_not_yet_valid lease (aware at) ≡ some (ltb (utc at) (utc (utc_now draw.now))))
  unfolding is_expired is_not_yet_valid compare_with unsigned_lease utc
  issued_expires lease at h =
      let own = (IsIssuable-of lease h).1 in
      subst
        (λ l.
          (is_expired l (aware at) ≡ some (leb (utc (utc_now draw.now) + seconds ttl) (utc at)))
          × (is_not_yet_valid l (aware at) ≡ some (ltb (utc at) (utc (utc_now draw.now)))))
        own (ap (λ t. some (leb t (utc at))) utc_later, refl)
