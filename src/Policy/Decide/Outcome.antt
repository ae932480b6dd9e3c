-- ===== src/Policy/Decide/Outcome.antt =====
-- What an evaluation as a whole decides, and what it leaves in the replay cache.
use rclp.Prelude.{
  ◌≢◌, ◌∙◌, subst, sym, some_inj, ◌≡◌, refl, ◌↔◌, Bool, Bool-cases, inl, inr, true, false, not,
  Option, none, some, arith, eq_refl,
}
use rclp.Core.Time.{Instant}
use rclp.Core.Models.{
  CapabilityRequest, RobotStateAssertion, ControlPlaneReachabilityAssertion, Policy,
  CapabilityLease, allow,
}
use rclp.Core.Runtime.{Runtime}
use rclp.Core.Leases.{geofence_exceeds_policy, capability_constraint_bound_violation}
use rclp.Core.State.Spec.{IsAuthentic, IsCurrent}
use rclp.Policy.Replay.{
  RequestReplayCache, request_cache_durable, consume, consume_in, has_seen, has_seen_in,
}
use rclp.Policy.Narrow.{
  requested_constraint_violation, apply_requested_constraints, policy_constraint_bounds,
}
use rclp.Policy.Rules.{PolicyResult, evaluate_network_requirements}
use rclp.Policy.Decide.{
  Issuer, request_violation, state_wire_fields, plane_result, base_constraints, refusal, granted,
  unless_refused, after_consume, with_cache, by_request, evaluate_policy_inputs,
}
use rclp.Policy.Decide.Spec.{
  IsRequested, request_iff, IsInPolicy, scope_iff, evidence_iff, IsServed, network_requirements_iff,
  IsOnSite, site_iff,
}
use rclp.Policy.Decide.Link.{IsLinked, plane_iff}
use rclp.Policy.Decide.Bounds.{bounds_of, narrowed_within, policy_bounds_pass}

-- A cache with a durable store in which the request has not been seen.
pub record IsUnused (request : CapabilityRequest) (cache : RequestReplayCache) : Type 0 where
  pub durable : request_cache_durable cache ≡ true
  pub unseen : has_seen cache request ≡ false

module _ (rt : Runtime) (issuer : Issuer) where
  -- Everything that a policy asks for before it grants a lease.
  pub record IsGrantable (request : CapabilityRequest) (state : RobotStateAssertion)
      (plane : Option ControlPlaneReachabilityAssertion) (policy : Policy) (now : Instant)
      : Type 0 where
    pub in_policy : IsInPolicy rt issuer request state policy
    pub authentic :
        IsAuthentic rt issuer.edge_public_keys_by_id state (state_wire_fields policy.requirements)
    pub current : IsCurrent state now issuer.max_state_age_seconds
    pub linked :
        policy.requirements.control_plane_required ≡ true
        → (given : ControlPlaneReachabilityAssertion) × (plane ≡ some given)
          × IsLinked rt issuer request policy.requirements now given
    pub on_site : IsOnSite state policy.requirements
    pub served : IsServed policy.requirements.network state.network_state
    pub narrower :
        requested_constraint_violation (base_constraints state policy) request.requested_constraints
        ≡ none

  module _ (request : CapabilityRequest) (state : RobotStateAssertion)
      (plane : Option ControlPlaneReachabilityAssertion) (policy : Policy) (now : Instant) where
    pub refusal_iff :
        (refusal rt issuer request state plane policy now ≡ none)
        ↔ IsGrantable request state plane policy now
    unfolding refusal
    refusal_iff =
        let scope = scope_iff rt issuer request state policy in
        let evidence = evidence_iff rt issuer state policy.requirements now in
        let link = plane_iff rt issuer request plane policy now in
        let site = site_iff state policy.requirements in
        let net =
          network_requirements_iff policy.requirements.network state.network_state
            policy.fallback in
        (
          λ h. record {
            in_policy = scope.0 (ground arith);
            authentic = (evidence.0 (ground arith)).0;
            current = (evidence.0 (ground arith)).1;
            linked = λ e. link.0 (ground arith);
            on_site = site.0 (ground arith);
            served = net.0 (ground arith);
            narrower = ground arith;
          },
          λ f. elim (Bool-cases policy.requirements.control_plane_required) [
            | inl asked ↦ ground (
              arith,
              scope.1 f.in_policy,
              evidence.1 (f.authentic, f.current),
              link.1 (f.linked asked),
              site.1 f.on_site,
              net.1 f.served,
              f.narrower,
            )
            | inr spared ↦ ground (
              arith,
              scope.1 f.in_policy,
              evidence.1 (f.authentic, f.current),
              site.1 f.on_site,
              net.1 f.served,
              f.narrower,
            )
          ],
        )

    withheld :
        (v : PolicyResult)
        → (unless_refused (refusal rt issuer request state plane policy now) v).decision ≡ allow
        → refusal rt issuer request state plane policy now ≡ none
    unfolding unless_refused refusal plane_result evaluate_network_requirements
    withheld v h = ground arith

    after_consume_allow_iff :
        (cache : RequestReplayCache) (fresh : Bool)
        → ((after_consume rt issuer request state plane policy now (cache, fresh)).1.decision
            ≡ allow)
          ↔ ((fresh ≡ true) × IsGrantable request state plane policy now)
    unfolding after_consume unless_refused granted
    after_consume_allow_iff cache false = (λ h. ground arith, λ f. cc (f.0))
    after_consume_allow_iff cache true = (
      λ h. (refl, refusal_iff.0 (withheld (granted request state policy) h)),
      λ f. rw (refusal_iff.1 f.1) refl,
    )

consume_unseen :
    (cache : RequestReplayCache) (request : CapabilityRequest)
    → request_cache_durable cache ≡ true
    → (consume cache request).1 ≡ not (has_seen cache request)
unfolding request_cache_durable consume consume_in has_seen has_seen_in
consume_unseen cache request h = ground arith

module _ (rt : Runtime) (issuer : Issuer) (request : CapabilityRequest)
    (state : RobotStateAssertion) (plane : Option ControlPlaneReachabilityAssertion)
    (policy : Policy) (now : Instant) where
  with_cache_allow_iff :
      (cache : Option RequestReplayCache)
      → ((with_cache rt issuer cache request state plane policy now).1.decision ≡ allow) ↔ (
          ((c : RequestReplayCache) × (cache ≡ some c) × IsUnused request c)
          × IsGrantable rt issuer request state plane policy now)
  unfolding with_cache
  with_cache_allow_iff none = (λ h. ground arith, λ f. cc (f.0.1))
  with_cache_allow_iff (some c) =
      let after =
        after_consume_allow_iff rt issuer request state plane policy now (consume c request).0
          (consume c request).1 in
      let unseen = consume_unseen c request in
      (
        λ h.
            let durable : request_cache_durable c ≡ true = ground arith in
            let a = after.0 (ground arith) in
            (
              (c, refl, record { durable = durable; unseen = ground (arith, unseen durable, a.0) }),
              a.1,
            ),
        λ f.
            let u = subst (IsUnused request) (some_inj (sym f.0.1)) f.0.2 in
            let done = after.1 (ground (arith, unseen u.durable, u.unseen), f.1) in
            rw u.durable done,
      )

  -- An evaluation allows a request exactly when the request is fresh and signed by the agent that it names,
  -- the engine has a durable replay cache in which it has not been seen, and the policy grants it: it is
  -- accepted and covers the request, the state of the robot is authentic and current, the control plane is
  -- vouched for where the policy asks for it, the robot is where it has to be, the network is good enough,
  -- and the requested constraints widen none of the policy's.
  pub policy_allow_iff :
      (cache : Option RequestReplayCache)
      → ((evaluate_policy_inputs rt issuer cache request state plane policy now).1.decision ≡ allow)
        ↔ (IsRequested rt issuer request state plane now
            × ((c : RequestReplayCache) × (cache ≡ some c) × IsUnused request c)
            × IsGrantable rt issuer request state plane policy now)
  unfolding evaluate_policy_inputs by_request
  policy_allow_iff cache =
      let asked = request_iff rt issuer request state plane now in
      let rest = with_cache_allow_iff cache in
      (
        λ h.
            let ok : request_violation rt issuer request state plane now ≡ none = ground arith in
            let r = rest.0 (ground (arith, ok)) in (asked.0 ok, r.0, r.1),
        λ f. rw (asked.1 f.0) (rest.1 (f.1, f.2)),
      )

  -- An evaluation gives the constraints of a lease exactly when it allows.
  pub policy_constraints_iff :
      (cache : Option RequestReplayCache)
      → ((evaluate_policy_inputs rt issuer cache request state plane policy now).1.constraints
          ≢ none)
        ↔ ((evaluate_policy_inputs rt issuer cache request state plane policy now).1.decision
            ≡ allow)
  unfolding evaluate_policy_inputs by_request with_cache after_consume unless_refused granted
      refusal plane_result evaluate_network_requirements
  policy_constraints_iff none = ground arith
  policy_constraints_iff (some c) = ground arith

  fence-within :
      IsOnSite state policy.requirements
      → geofence_exceeds_policy
          (some state.geofence_state.geofence_id)
          (bounds_of policy).geofence_id
        ≡ false
  unfolding geofence_exceeds_policy
  fence-within site = elim (Bool-cases policy.requirements.geofence_required) [
    | inl r ↦ rw (r, site.fenced r) (ground (arith, eq_refl state.geofence_state.geofence_id))
    | inr r ↦ rw r (ground arith)
  ]

  granted_constraints :
      (cache : Option RequestReplayCache)
      → (evaluate_policy_inputs rt issuer cache request state plane policy now).1.decision ≡ allow
      → (evaluate_policy_inputs rt issuer cache request state plane policy now).1.constraints
        ≡ some (
            apply_requested_constraints
              (base_constraints state policy)
              request.requested_constraints)
  unfolding evaluate_policy_inputs by_request with_cache after_consume unless_refused granted
      refusal plane_result evaluate_network_requirements
  granted_constraints none h = ground arith
  granted_constraints (some c) h = ground arith

  -- A lease for the capability of the policy, with the constraints that an evaluation allowed, passes the
  -- bounds check of a gate that is configured with the `policy_constraint_bounds` of the same policy.
  pub allowed_lease_passes_bounds :
      (cache : Option RequestReplayCache) (lease : CapabilityLease)
      → (evaluate_policy_inputs rt issuer cache request state plane policy now).1.decision ≡ allow
      → lease.capability ≡ policy.capability
      → some lease.constraints
        ≡ (evaluate_policy_inputs rt issuer cache request state plane policy now).1.constraints
      → capability_constraint_bound_violation lease (some (policy_constraint_bounds policy)) ≡ none
  allowed_lease_passes_bounds cache lease h same given =
      let g = ((policy_allow_iff cache).0 h).2 in
      let own = some_inj (given ∙ granted_constraints cache h) in
      policy_bounds_pass policy lease same (
        rw own (
          narrowed_within policy state (fence-within g.on_site) request.requested_constraints
            g.narrower))
