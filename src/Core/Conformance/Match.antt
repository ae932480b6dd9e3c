-- ===== src/Core/Conformance/Match.antt =====
-- What the policy, the scope and the robot's state must say for a lease, without the order of checks.
use rclp.Prelude.{
  ◌≡◌, refl, ◌↔◌, Bool, true, false, Option, none, some, String, List, arith, eq_iff, eq_refl,
  contains, lookup, is_blank,
}
use rclp.Core.Float.{Float, float_lt}
use rclp.Core.Models.{CapabilityLease, RobotStateAssertion, capability_text}
use rclp.Core.State.Spec.{IsConnected, network_state_authority_iff}
use rclp.Core.Conformance.{
  capability_scope_violation, or_no_scope, lease_policy_provenance_violation, any_blank,
  network_state_malformed, lease_state_violation, geofence_violation, above, below,
}

-- The capability is accepted here, and is in the scope of the issuer.
pub record IsInScope (lease : CapabilityLease) (accepted : Option (List String))
    (scopes : Option (List (String × List String))) : Type 0 where
  pub capabilities : List String
  pub scope : List (String × List String)
  pub accepted_given : accepted ≡ some capabilities
  pub scopes_given : scopes ≡ some scope
  pub granted_here : contains (capability_text lease.capability) capabilities ≡ true
  pub granted_to_issuer :
      contains (capability_text lease.capability) (or_no_scope (lookup lease.issuer_id scope))
      ≡ true

-- The scope check passes exactly when the capability is in scope.
pub capability_scope_iff :
    (lease : CapabilityLease) (accepted : Option (List String))
    (scopes : Option (List (String × List String)))
    → (capability_scope_violation lease accepted scopes ≡ none) ↔ IsInScope lease accepted scopes
unfolding capability_scope_violation contains
capability_scope_iff lease none scopes = (λ h. cc, λ f. cc f.accepted_given)
capability_scope_iff lease (some a) none = (λ h. ground arith, λ f. cc f.scopes_given)
capability_scope_iff lease (some a) (some s) = (
  λ h. record {
    capabilities = a;
    scope = s;
    accepted_given = refl;
    scopes_given = refl;
    granted_here = ground arith;
    granted_to_issuer = ground arith;
  },
  λ f. ground (arith, f.accepted_given, f.scopes_given, f.granted_here, f.granted_to_issuer),
)

-- The lease was issued under the accepted policy and one of its accepted digests, none of them blank.
pub record HasProvenance (lease : CapabilityLease) (policy_id : Option String)
    (policy_digests : Option (List String)) : Type 0 where
  pub digests : List String
  pub policy : policy_id ≡ some lease.policy_id
  pub digests_given : policy_digests ≡ some digests
  pub accepted : contains lease.policy_digest digests ≡ true
  pub no_blank : any_blank digests ≡ false
  pub id_text : is_blank lease.policy_id ≡ false
  pub digest_text : is_blank lease.policy_digest ≡ false

-- The provenance check passes exactly when the lease has the accepted provenance.
pub policy_provenance_iff :
    (lease : CapabilityLease) (policy_id : Option String) (policy_digests : Option (List String))
    → (lease_policy_provenance_violation lease policy_id policy_digests ≡ none)
      ↔ HasProvenance lease policy_id policy_digests
unfolding lease_policy_provenance_violation contains
policy_provenance_iff lease none digests = (λ h. cc, λ f. cc f.policy)
policy_provenance_iff lease (some p) none = (λ h. ground arith, λ f. cc f.digests_given)
policy_provenance_iff lease (some p) (some ds) = (
  λ h. record {
    digests = ds;
    policy = ground (arith, eq_iff lease.policy_id p);
    digests_given = refl;
    accepted = ground arith;
    no_blank = ground arith;
    id_text = ground arith;
    digest_text = ground arith;
  },
  λ f. ground (
    arith,
    f.policy,
    f.digests_given,
    f.accepted,
    f.no_blank,
    f.id_text,
    f.digest_text,
    eq_refl lease.policy_id,
  ),
)

-- The state is that of the lease's robot, edge and mission, inside the geofence and within the
-- network thresholds of the lease.
pub record Supports (lease : CapabilityLease) (state : RobotStateAssertion) : Type 0 where
  pub robot : state.robot_id ≡ lease.robot_id
  pub edge : state.edge_agent_id ≡ lease.edge_agent_id
  pub mission : state.mission_id ≡ lease.mission_id
  pub inside :
      (g : String) → lease.constraints.geofence_id ≡ some g → state.geofence_state.inside ≡ true
  pub geofence :
      (g : String) → lease.constraints.geofence_id ≡ some g → state.geofence_state.geofence_id ≡ g
  pub numbers : network_state_malformed state.network_state ≡ false
  pub connected : IsConnected state.network_state
  pub latency :
      (b : Float)
      → lease.constraints.max_latency_ms_p95 ≡ some b
      → float_lt b state.network_state.latency_ms_p95 ≡ false
  pub loss :
      (b : Float)
      → lease.constraints.max_packet_loss_pct ≡ some b
      → float_lt b state.network_state.packet_loss_pct ≡ false
  pub uplink :
      (b : Float)
      → lease.constraints.min_uplink_mbps ≡ some b
      → float_lt state.network_state.uplink_mbps b ≡ false

above_iff :
    (x : Float) (bound : Option Float)
    → (above x bound ≡ false) ↔ ((b : Float) → bound ≡ some b → float_lt b x ≡ false)
above_iff x none = (λ h b e. cc, λ f. refl)
above_iff x (some c) = (λ h b e. ground arith, λ f. f c refl)

below_iff :
    (x : Float) (bound : Option Float)
    → (below x bound ≡ false) ↔ ((b : Float) → bound ≡ some b → float_lt x b ≡ false)
below_iff x none = (λ h b e. cc, λ f. refl)
below_iff x (some c) = (λ h b e. ground arith, λ f. f c refl)

geofence_inside :
    (wanted : Option String) (inside : Bool) (at : String)
    → geofence_violation wanted inside at ≡ none
    → ((g : String) → wanted ≡ some g → (inside ≡ true) × (at ≡ g))
unfolding geofence_violation
geofence_inside none inside at h g e = cc
geofence_inside (some w) inside at h g e = (ground arith, ground (arith, eq_iff at w))

inside_geofence :
    (wanted : Option String) (inside : Bool) (at : String)
    → ((g : String) → wanted ≡ some g → inside ≡ true)
    → ((g : String) → wanted ≡ some g → at ≡ g)
    → geofence_violation wanted inside at ≡ none
unfolding geofence_violation
inside_geofence none inside at p q = refl
inside_geofence (some w) inside at p q = ground (arith, p w refl, q w refl, eq_refl w)

-- The state check passes exactly when the state supports the lease.
pub lease_state_iff :
    (lease : CapabilityLease) (state : RobotStateAssertion)
    → (lease_state_violation lease state ≡ none) ↔ Supports lease state
unfolding lease_state_violation
lease_state_iff lease state = (
  λ h.
      let at =
        geofence_inside lease.constraints.geofence_id state.geofence_state.inside
          state.geofence_state.geofence_id (ground arith) in
      record {
        robot = ground (arith, eq_iff state.robot_id lease.robot_id);
        edge = ground (arith, eq_iff state.edge_agent_id lease.edge_agent_id);
        mission = ground (arith, eq_iff state.mission_id lease.mission_id);
        inside = λ g e. (at g e).0;
        geofence = λ g e. (at g e).1;
        numbers = ground arith;
        connected = (network_state_authority_iff state.network_state).0 (ground arith);
        latency =
            (above_iff state.network_state.latency_ms_p95 lease.constraints.max_latency_ms_p95).0
              (ground arith);
        loss =
            (above_iff state.network_state.packet_loss_pct lease.constraints.max_packet_loss_pct).0
              (ground arith);
        uplink =
            (below_iff state.network_state.uplink_mbps lease.constraints.min_uplink_mbps).0
              (ground arith);
      },
  λ f. ground (
    arith,
    eq_iff state.robot_id lease.robot_id,
    eq_iff state.edge_agent_id lease.edge_agent_id,
    eq_iff state.mission_id lease.mission_id,
    f.robot,
    f.edge,
    f.mission,
    inside_geofence lease.constraints.geofence_id state.geofence_state.inside
        state.geofence_state.geofence_id f.inside f.geofence,
    f.numbers,
    (network_state_authority_iff state.network_state).1 f.connected,
    (above_iff state.network_state.latency_ms_p95 lease.constraints.max_latency_ms_p95).1 f.latency,
    (above_iff state.network_state.packet_loss_pct lease.constraints.max_packet_loss_pct).1 f.loss,
    (below_iff state.network_state.uplink_mbps lease.constraints.min_uplink_mbps).1 f.uplink,
  ),
)
