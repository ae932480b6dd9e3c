-- ===== src/Policy/Decide/Link.antt =====
-- What the engine asks of an assertion about the control plane.
use rclp.Prelude.{
  subst, sym, some_inj, ◌+◌, ◌≡◌, refl, ◌↔◌, true, false, Option, none, some, [], ◌∷◌, arith,
  eq_iff, contains, subset,
}
use rclp.Core.Time.{Instant}
use rclp.Core.Time.Fresh.{AllFresh, timestamps_iff}
use rclp.Core.Models.{
  CapabilityRequest, ControlPlaneReachabilityAssertion, Policy, PolicyRequirements, plane_message,
  ed25519_signature_algorithm, signature_algorithm_violation-none_iff,
}
use rclp.Core.Runtime.{Runtime}
use rclp.Core.Signer.{
  Signed, Reasons, IsSigned, signer_iff, signer_violation, named_signer_violation,
  signature_violation,
}
use rclp.Core.SignedText.{control_plane_reachability_signed_material_too_large}
use rclp.Core.State.{
  state_clock_skew_seconds, control_plane_reachability_required_wire_fields,
  control_plane_reachability_auth_violation, control_plane_reachability_time_violation,
  plane_signer_checks, plane_signature_checks,
}
use rclp.Policy.Rules.{cut_off, plane_reachability_violation}
use rclp.Policy.Decide.{Issuer, plane_result, plane_evidence_violation}

abbrev pub signed_plane : Runtime → ControlPlaneReachabilityAssertion → Signed
signed_plane rt plane = record {
  message = plane_message plane;
  claimed = plane.edge_agent_id;
  authenticated = plane.authenticated_edge_agent_id;
  signature = plane.signature;
  too_large = control_plane_reachability_signed_material_too_large rt plane;
}

abbrev plane_reasons : Reasons
plane_reasons = record {
  no_signer = "CONTROL_PLANE_AUTHENTICATED_EDGE_MISSING";
  other_signer = "CONTROL_PLANE_AUTHENTICATED_EDGE_MISMATCH";
  no_signature = "CONTROL_PLANE_SIGNATURE_MISSING";
  no_key = "CONTROL_PLANE_KEY_NOT_TRUSTED";
  too_large = "CONTROL_PLANE_SIGNED_MATERIAL_TOO_LARGE";
  bad_signature = "CONTROL_PLANE_SIGNATURE_INVALID";
}

module _ (rt : Runtime) (issuer : Issuer) where
  -- An assertion about the control plane for the same robot and mission, signed by its edge, fresh, and
  -- with a control plane in reach where the policy asks for one.
  pub record IsLinked (request : CapabilityRequest) (req : PolicyRequirements) (now : Instant)
      (plane : ControlPlaneReachabilityAssertion) : Type 0 where
    pub robot : plane.robot_id ≡ request.robot_id
    pub edge : plane.edge_agent_id ≡ request.edge_agent_id
    pub mission : plane.mission_id ≡ request.mission_id
    pub fields_given :
        subset control_plane_reachability_required_wire_fields plane.model_fields_set ≡ true
    pub algorithm_given : contains "signature_alg" plane.model_fields_set ≡ true
    pub algorithm : plane.signature_alg ≡ ed25519_signature_algorithm
    pub signed : IsSigned rt issuer.edge_public_keys_by_id (signed_plane rt plane)
    pub current :
        AllFresh now state_clock_skew_seconds
          (issuer.max_state_age_seconds + state_clock_skew_seconds)
          (plane.created_at ∷ plane.observed_at ∷ [])
    pub whole : req.control_plane_must_be_reachable ≡ true → cut_off plane.reachability ≡ false
    pub in_reach : req.control_plane_must_be_reachable ≡ true → plane.reachable ≡ true

  signed_plane_iff :
      (plane : ControlPlaneReachabilityAssertion)
      → (control_plane_reachability_auth_violation rt issuer.edge_public_keys_by_id plane
            control_plane_reachability_required_wire_fields
          ≡ none)
        ↔ ((subset control_plane_reachability_required_wire_fields plane.model_fields_set ≡ true)
            × (contains "signature_alg" plane.model_fields_set ≡ true)
            × (plane.signature_alg ≡ ed25519_signature_algorithm)
            × IsSigned rt issuer.edge_public_keys_by_id (signed_plane rt plane))
  unfolding control_plane_reachability_auth_violation plane_signer_checks plane_signature_checks
      signer_violation named_signer_violation signature_violation
  signed_plane_iff plane =
      let alg =
        signature_algorithm_violation-none_iff plane.base plane.signature_alg
          "CONTROL_PLANE_SIGNATURE_ALGORITHM_MISSING"
          "CONTROL_PLANE_SIGNATURE_ALGORITHM_UNSUPPORTED" in
      let signer =
        signer_iff rt issuer.edge_public_keys_by_id plane_reasons (signed_plane rt plane) in
      (
        λ h. (
          ground arith,
          (alg.0 (ground arith)).0,
          (alg.0 (ground arith)).1,
          signer.0 (ground arith),
        ),
        λ f. ground (arith, f.0, alg.1 (f.1, f.2), signer.1 f.3),
      )

  pub plane_iff :
      (request : CapabilityRequest) (plane : Option ControlPlaneReachabilityAssertion)
      (policy : Policy) (now : Instant)
      → (plane_result rt issuer request plane policy now ≡ none) ↔ (
          (given : ControlPlaneReachabilityAssertion) × (plane ≡ some given)
          × IsLinked request policy.requirements now given)
  unfolding plane_result plane_evidence_violation plane_reachability_violation
      control_plane_reachability_time_violation
  plane_iff request none policy now = (λ h. ground arith, λ f. cc (f.1))
  plane_iff request (some plane) policy now =
      let robot = eq_iff plane.robot_id request.robot_id in
      let edge = eq_iff plane.edge_agent_id request.edge_agent_id in
      let mission = eq_iff plane.mission_id request.mission_id in
      let auth = signed_plane_iff plane in
      let time =
        timestamps_iff now state_clock_skew_seconds
          (issuer.max_state_age_seconds + state_clock_skew_seconds)
          "CONTROL_PLANE_TIMESTAMP_INVALID" "CONTROL_PLANE_NOT_YET_VALID"
          "CONTROL_PLANE_STATE_STALE" (plane.created_at ∷ plane.observed_at ∷ []) in
      (
        λ h.
            let a = auth.0 (ground arith) in
            (
              plane,
              refl,
              record {
                robot = ground (arith, robot);
                edge = ground (arith, edge);
                mission = ground (arith, mission);
                fields_given = a.0;
                algorithm_given = a.1;
                algorithm = a.2;
                signed = a.3;
                current = time.0 (ground arith);
                whole = λ e. ground arith;
                in_reach = λ e. ground arith;
              },
            ),
        λ f.
            let g = subst (IsLinked request policy.requirements now) (some_inj (sym f.1)) f.2 in
            ground (
              arith,
              robot,
              edge,
              mission,
              g.robot,
              g.edge,
              g.mission,
              auth.1 (g.fields_given, g.algorithm_given, g.algorithm, g.signed),
              time.1 g.current,
              g.whole,
              g.in_reach,
            ),
      )
