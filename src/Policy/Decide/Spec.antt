-- ===== src/Policy/Decide/Spec.antt =====
-- What each group of checks of the engine asks for.
use rclp.Prelude.{
  Bool-cases, inl, inr, ◌≤◌, ◌≡◌, refl, ◌↔◌, Bool, true, false, Option, none, some, String, List,
  [], ◌∷◌, arith, eq_iff, eq_refl, contains, subset, is_empty,
}
use rclp.Core.Float.{float_lt}
use rclp.Core.Time.{Instant}
use rclp.Core.Time.Fresh.{IsFresh, timestamp_iff}
use rclp.Core.Models.{
  CapabilityRequest, RobotStateAssertion, ControlPlaneReachabilityAssertion, Policy,
  PolicyRequirements, NetworkRequirements, NetworkState, GeofenceState, FallbackPolicy,
  capability_text, ed25519_signature_algorithm, protocol_version_violation,
  signature_algorithm_violation-none_iff,
}
use rclp.Core.Runtime.{Runtime}
use rclp.Core.Signer.{IsSigned, signer_iff}
use rclp.Core.State.Spec.{
  IsAuthentic, state_auth_iff, IsCurrent, state_time_iff, IsConnected, network_state_authority_iff,
}
use rclp.Core.Conformance.{network_state_malformed}
use rclp.Policy.Request.{
  request_clock_skew_seconds, capability_request_required_wire_fields, request_time_violation,
  request_auth_violation, signed_request, request_reasons, policy_digest, policy_digest_violation,
}
use rclp.Policy.Rules.{
  evaluate_network_requirements, network_requirements_malformed, geofence_requirements_malformed,
  geofence_unsatisfied, other_than, differ,
}
use rclp.Policy.Decide.{
  Issuer, request_violation, scope_violation, state_wire_fields, evidence_violation, site_violation,
  plane_base,
}

module _ (rt : Runtime) (issuer : Issuer) where
  -- Of the supported version, fresh, and signed under the key of the agent that asks.
  pub record IsRequested (request : CapabilityRequest) (state : RobotStateAssertion)
      (plane : Option ControlPlaneReachabilityAssertion) (now : Instant) : Type 0 where
    pub versions : protocol_version_violation (request.base ∷ state.base ∷ plane_base plane) ≡ none
    pub fresh :
        IsFresh now request_clock_skew_seconds issuer.max_request_age_seconds request.created_at
    pub fields_given :
        subset capability_request_required_wire_fields request.model_fields_set ≡ true
    pub algorithm_given : contains "signature_alg" request.model_fields_set ≡ true
    pub algorithm : request.signature_alg ≡ ed25519_signature_algorithm
    pub signed : IsSigned rt issuer.agent_public_keys_by_id (signed_request rt request)

  -- The request passes the checks on itself exactly when it is fresh and authentic.
  pub request_iff :
      (request : CapabilityRequest) (state : RobotStateAssertion)
      (plane : Option ControlPlaneReachabilityAssertion) (now : Instant)
      → (request_violation rt issuer request state plane now ≡ none)
        ↔ IsRequested request state plane now
  unfolding request_violation request_time_violation request_auth_violation
  request_iff request state plane now =
      let time =
        timestamp_iff now request_clock_skew_seconds issuer.max_request_age_seconds
          "REQUEST_TIMESTAMP_INVALID" "REQUEST_NOT_YET_VALID" "REQUEST_STALE" request.created_at in
      let alg =
        signature_algorithm_violation-none_iff request.base request.signature_alg
          "REQUEST_SIGNATURE_ALGORITHM_MISSING" "REQUEST_SIGNATURE_ALGORITHM_UNSUPPORTED" in
      let signer =
        signer_iff rt issuer.agent_public_keys_by_id (request_reasons rt)
          (signed_request rt request) in
      (
        λ h. record {
          versions = ground arith;
          fresh = time.0 (ground arith);
          fields_given = ground arith;
          algorithm_given = (alg.0 (ground arith)).0;
          algorithm = (alg.0 (ground arith)).1;
          signed = signer.0 (ground arith);
        },
        λ f. ground (
          arith,
          f.versions,
          time.1 f.fresh,
          f.fields_given,
          alg.1 (f.algorithm_given, f.algorithm),
          signer.1 f.signed,
        ),
      )

  -- Under an accepted policy, for its capability and no longer than its leases, by those it names, and
  -- with a state of the same robot and mission.
  pub record IsInPolicy (request : CapabilityRequest) (state : RobotStateAssertion)
      (policy : Policy) : Type 0 where
    pub digest : contains (policy_digest rt policy) issuer.accepted_policy_digests ≡ true
    pub capability : capability_text request.capability ≡ capability_text policy.capability
    pub duration : request.requested_duration_seconds ≤ policy.lease_ttl_seconds
    pub agent : contains request.requesting_agent_id policy.requirements.allowed_agents ≡ true
    pub edge : contains request.edge_agent_id policy.requirements.allowed_edge_agents ≡ true
    pub robot : contains request.robot_id policy.requirements.allowed_robots ≡ true
    pub mission : contains request.mission_id policy.requirements.allowed_missions ≡ true
    pub state_robot : state.robot_id ≡ request.robot_id
    pub state_edge : state.edge_agent_id ≡ request.edge_agent_id
    pub state_mission : state.mission_id ≡ request.mission_id

  contains-nonempty : (a : String) (xs : List String) → contains a xs ≡ true → is_empty xs ≡ false
  unfolding contains
  contains-nonempty a [] h = cc
  contains-nonempty a (x ∷ xs) h = refl

  pub scope_iff :
      (request : CapabilityRequest) (state : RobotStateAssertion) (policy : Policy)
      → (scope_violation rt issuer request state policy ≡ none) ↔ IsInPolicy request state policy
  unfolding scope_violation policy_digest_violation
  scope_iff request state policy = (
    λ h. record {
      digest = ground arith;
      capability =
          ground (
            arith,
            eq_iff (capability_text request.capability) (capability_text policy.capability),
          );
      duration = ground arith;
      agent = ground arith;
      edge = ground arith;
      robot = ground arith;
      mission = ground arith;
      state_robot = ground (arith, eq_iff state.robot_id request.robot_id);
      state_edge = ground (arith, eq_iff state.edge_agent_id request.edge_agent_id);
      state_mission = ground (arith, eq_iff state.mission_id request.mission_id);
    },
    λ f. ground (
      arith,
      contains-nonempty (policy_digest rt policy) issuer.accepted_policy_digests f.digest,
      f.digest,
      f.capability,
      f.duration,
      f.agent,
      f.edge,
      f.robot,
      f.mission,
      f.state_robot,
      f.state_edge,
      f.state_mission,
      eq_iff (capability_text request.capability) (capability_text policy.capability),
      eq_iff state.robot_id request.robot_id,
      eq_iff state.edge_agent_id request.edge_agent_id,
      eq_iff state.mission_id request.mission_id,
    ),
  )

  pub evidence_iff :
      (state : RobotStateAssertion) (req : PolicyRequirements) (now : Instant)
      → (evidence_violation rt issuer state req now ≡ none) ↔ (
          IsAuthentic rt issuer.edge_public_keys_by_id state (state_wire_fields req)
          × IsCurrent state now issuer.max_state_age_seconds)
  unfolding evidence_violation
  evidence_iff state req now =
      let auth = state_auth_iff rt issuer.edge_public_keys_by_id state (state_wire_fields req) in
      let time = state_time_iff state now issuer.max_state_age_seconds in
      (
        λ h. (auth.0 (ground arith), time.0 (ground arith)),
        λ f. ground (arith, auth.1 f.0, time.1 f.1),
      )

-- A network that the policy lets a lease run on: connected, and within the three thresholds for
-- degradation, and so within those for denial.
pub record IsServed (req : NetworkRequirements) (net : NetworkState) : Type 0 where
  pub connected : IsConnected net
  pub latency_bearable : float_lt req.deny_above_latency_ms_p95 net.latency_ms_p95 ≡ false
  pub loss_bearable : float_lt req.deny_above_packet_loss_pct net.packet_loss_pct ≡ false
  pub uplink_bearable : float_lt net.uplink_mbps req.deny_below_uplink_mbps ≡ false
  pub latency : float_lt req.max_latency_ms_p95 net.latency_ms_p95 ≡ false
  pub loss : float_lt req.max_packet_loss_pct net.packet_loss_pct ≡ false
  pub uplink : float_lt net.uplink_mbps req.min_uplink_mbps ≡ false

pub network_requirements_iff :
    (req : NetworkRequirements) (net : NetworkState) (fallback : FallbackPolicy)
    → (evaluate_network_requirements req net fallback ≡ none) ↔ IsServed req net
unfolding evaluate_network_requirements
network_requirements_iff req net fallback =
    let link = network_state_authority_iff net in
    (
      λ h. record {
        connected = link.0 (ground arith);
        latency_bearable = ground arith;
        loss_bearable = ground arith;
        uplink_bearable = ground arith;
        latency = ground arith;
        loss = ground arith;
        uplink = ground arith;
      },
      λ f. ground (
        arith,
        link.1 f.connected,
        f.latency_bearable,
        f.loss_bearable,
        f.uplink_bearable,
        f.latency,
        f.loss,
        f.uplink,
      ),
    )

-- Well-formed rules and readings, the robot in the required place, and an operator where one is
-- required.
pub record IsOnSite (state : RobotStateAssertion) (req : PolicyRequirements) : Type 0 where
  pub rules : network_requirements_malformed req.network ≡ false
  pub readings : network_state_malformed state.network_state ≡ false
  pub fence_named : geofence_requirements_malformed req ≡ false
  pub fenced :
      req.geofence_required ≡ true → req.geofence_id ≡ some state.geofence_state.geofence_id
  pub side : req.geofence_required ≡ true → state.geofence_state.inside ≡ req.geofence_allowed
  pub operator : req.human_operator_available ≡ true → state.human_operator_available ≡ true

not_other-eq : (a : String) (b : Option String) → other_than a b ≡ false → b ≡ some a
not_other-eq a none h = cc
not_other-eq a (some b) h = let same : a ≡ b = ground (arith, eq_iff a b) in cc

eq-not_other : (a : String) (b : Option String) → b ≡ some a → other_than a b ≡ false
eq-not_other a b e = rw e (ground (arith, eq_refl a))

same-of : (a b : Bool) → differ a b ≡ false → a ≡ b
same-of a b h = ground arith

of-same : (a b : Bool) → a ≡ b → differ a b ≡ false
of-same a b h = ground arith

fence_iff :
    (req : PolicyRequirements) (geofence : GeofenceState)
    → (geofence_unsatisfied req geofence ≡ false) ↔ (
        (req.geofence_required ≡ true → req.geofence_id ≡ some geofence.geofence_id)
        × (req.geofence_required ≡ true → geofence.inside ≡ req.geofence_allowed))
unfolding geofence_unsatisfied
fence_iff req geofence = (
  λ h. (
    λ r. not_other-eq geofence.geofence_id req.geofence_id (ground arith),
    λ r. same-of geofence.inside req.geofence_allowed (ground arith),
  ),
  λ f. elim (Bool-cases req.geofence_required) [
    | inl r ↦ ground (
      arith,
      eq-not_other geofence.geofence_id req.geofence_id (f.0 r),
      of-same geofence.inside req.geofence_allowed (f.1 r),
    )
    | inr r ↦ ground arith
  ],
)

pub site_iff :
    (state : RobotStateAssertion) (req : PolicyRequirements)
    → (site_violation state req ≡ none) ↔ IsOnSite state req
unfolding site_violation
site_iff state req =
    let fence = fence_iff req state.geofence_state in
    (
      λ h. record {
        rules = ground arith;
        readings = ground arith;
        fence_named = ground arith;
        fenced = (fence.0 (ground arith)).0;
        side = (fence.0 (ground arith)).1;
        operator = λ e. ground arith;
      },
      λ f.
          ground
            (arith, f.rules, f.readings, f.fence_named, fence.1 (f.fenced, f.side), f.operator),
    )
