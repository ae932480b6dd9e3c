-- ===== src/Core/State/Spec.antt =====
-- What an accepted robot state is: signed by the edge it names, and fresh at all four timestamps.
use rclp.Prelude.{
  ℕ, ◌+◌, ◌≡◌, refl, ◌↔◌, true, false, Option, none, some, String, List, [], ◌∷◌, arith, eq_iff,
  eq_refl, contains, subset, lookup, require, ◌≢◌,
}
use rclp.Core.Time.{Instant}
use rclp.Core.Time.Fresh.{AllFresh, timestamps_iff}
use rclp.Core.Models.{
  RobotStateAssertion, NetworkState, unknown, partition, state_message, ed25519_signature_algorithm,
  signature_algorithm_violation-none_iff,
}
use rclp.Core.Runtime.{Runtime}
use rclp.Core.Crypto.{verify_with_public_key_b64}
use rclp.Core.SignedText.{robot_state_signed_material_too_large}
use rclp.Core.State.{
  state_clock_skew_seconds, network_state_required_wire_fields,
  network_state_required_fields_missing, state_time_violation, state_signature_checks,
  state_signer_checks, state_auth_violation, network_state_authority_violation, profile_violation,
}

-- Every timestamp of the assertion is fresh, with the clock skew added to the accepted age.
abbrev pub IsCurrent : RobotStateAssertion → Instant → ℕ → Type 0
IsCurrent state now max_age =
    AllFresh now state_clock_skew_seconds (max_age + state_clock_skew_seconds) (
      state.created_at ∷ state.observed_at ∷ state.network_state.observed_at
      ∷ state.geofence_state.verified_at ∷ [])

-- The time check passes exactly when all four timestamps are fresh.
pub state_time_iff :
    (state : RobotStateAssertion) (now : Instant) (max_age : ℕ)
    → (state_time_violation state now max_age ≡ none) ↔ IsCurrent state now max_age
unfolding state_time_violation
state_time_iff state now max_age = timestamps_iff now _ _ _ _ _ _

-- The network carries authority: known, not partitioned, attached.
pub record IsConnected (network : NetworkState) : Type 0 where
  pub known : network.profile ≢ unknown
  pub whole : network.profile ≢ partition
  pub attached : network.attached ≡ true

-- The network passes exactly when it is known, not partitioned, and attached.
pub network_state_authority_iff :
    (network : NetworkState)
    → (network_state_authority_violation network ≡ none) ↔ IsConnected network
unfolding network_state_authority_violation profile_violation
network_state_authority_iff network = (
  λ h. record { known = λ e. ground arith; whole = λ e. ground arith; attached = ground arith },
  λ f. ground (arith, f.known, f.whole, f.attached),
)

module _ (rt : Runtime) (edge_public_keys_by_id : List (String × String)) where
  -- Signed, under the supported algorithm and a configured key, by the edge agent that it names.
  pub record IsAuthentic (state : RobotStateAssertion) (wire_fields : List String) : Type 0 where
    pub signature : String
    pub public_key : String
    pub fields_given : subset wire_fields state.model_fields_set ≡ true
    pub network_given :
        subset network_state_required_wire_fields state.network_state.model_fields_set ≡ true
    pub algorithm_given : contains "signature_alg" state.model_fields_set ≡ true
    pub algorithm : state.signature_alg ≡ ed25519_signature_algorithm
    pub signer : state.authenticated_edge_agent_id ≡ some state.edge_agent_id
    pub signed : state.signature ≡ some signature
    pub trusted : lookup state.edge_agent_id edge_public_keys_by_id ≡ some public_key
    pub small : robot_state_signed_material_too_large rt state ≡ false
    pub verified : verify_with_public_key_b64 rt (state_message state) signature public_key ≡ true

  signed-of :
      (state : RobotStateAssertion) (wire_fields : List String)
      (signer signature key : Option String)
      → subset wire_fields state.model_fields_set ≡ true
      → network_state_required_fields_missing state.network_state ≡ false
      → (contains "signature_alg" state.model_fields_set ≡ true)
        × (state.signature_alg ≡ ed25519_signature_algorithm)
      → state.authenticated_edge_agent_id ≡ signer
      → state.signature ≡ signature
      → lookup state.edge_agent_id edge_public_keys_by_id ≡ key
      → require signer "STATE_AUTHENTICATED_EDGE_MISSING"
          (state_signer_checks rt edge_public_keys_by_id state)
        ≡ none
      → IsAuthentic state wire_fields
  unfolding state_signer_checks state_signature_checks network_state_required_fields_missing
  signed-of state wire_fields none signature key a b c d e f h = cc
  signed-of state wire_fields (some s) none key a b c d e f h = ground (arith, d, e, f)
  signed-of state wire_fields (some s) (some g) none a b c d e f h =
      ground (arith, d, e, f, eq_iff s state.edge_agent_id)
  signed-of state wire_fields (some s) (some g) (some k) a b c d e f h = record {
    signature = g;
    public_key = k;
    fields_given = a;
    network_given = ground arith;
    algorithm_given = c.0;
    algorithm = c.1;
    signer = ground (arith, eq_iff s state.edge_agent_id);
    signed = e;
    trusted = f;
    small = ground (arith, d, e, f, eq_iff s state.edge_agent_id);
    verified = ground (arith, d, e, f, eq_iff s state.edge_agent_id);
  }

  -- An assertion passes exactly when it is authentic.
  pub state_auth_iff :
      (state : RobotStateAssertion) (wire_fields : List String)
      → (state_auth_violation rt edge_public_keys_by_id state wire_fields ≡ none)
        ↔ IsAuthentic state wire_fields
  unfolding state_auth_violation state_signer_checks state_signature_checks
      network_state_required_fields_missing
  state_auth_iff state wire_fields = (
    λ h.
        signed-of state wire_fields state.authenticated_edge_agent_id state.signature
          (lookup state.edge_agent_id edge_public_keys_by_id) (ground arith) (ground arith)
          ((signature_algorithm_violation-none_iff state.base state.signature_alg
              "STATE_SIGNATURE_ALGORITHM_MISSING" "STATE_SIGNATURE_ALGORITHM_UNSUPPORTED").0
            (ground arith))
          refl refl refl (ground arith),
    λ f. ground (
      arith,
      f.fields_given,
      f.network_given,
      (signature_algorithm_violation-none_iff state.base state.signature_alg
            "STATE_SIGNATURE_ALGORITHM_MISSING" "STATE_SIGNATURE_ALGORITHM_UNSUPPORTED").1
          (f.algorithm_given, f.algorithm),
      f.signer,
      f.signed,
      f.trusted,
      f.small,
      f.verified,
      eq_refl state.edge_agent_id,
    ),
  )
