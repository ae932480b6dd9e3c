-- ===== src/Gate/Auth/Spec.antt =====
-- Which commands are authentic.
use rclp.Prelude.{
  ◌≡◌, ◌≢◌, refl, ◌↔◌, true, false, Option, none, some, String, [], ◌∷◌, ◌+◌, arith, eq_iff,
  eq_refl, contains, lookup, is_blank, require,
}
use rclp.Core.Time.{Instant}
use rclp.Core.Time.Fresh.{IsFresh, timestamps_iff}
use rclp.Core.Models.{
  EdgeCommand, command_message, supported_protocol_version, ed25519_signature_algorithm,
  protocol_version_violation-none_iff, signature_algorithm_violation-none_iff,
}
use rclp.Core.Runtime.{Runtime}
use rclp.Core.Base64.{unb64}
use rclp.Core.Crypto.{verify_with_public_key_b64, verified-unb64}
use rclp.Core.Leases.{is_none}
use rclp.Gate.State.{Gate}
use rclp.Gate.Auth.{
  command_clock_skew_seconds, signed_command_material_budget_violation, command_time_violation,
  command_signature_checks, command_key_checks, command_agent_checks, command_auth_violation,
}

-- Signed and fresh, with an identifier and a nonce, under the key of the agent that it names.
pub record IsGenuine (rt : Runtime) (gate : Gate) (command : EdgeCommand) (now : Instant)
    : Type 0 where
  pub public_key : String
  pub signature : String
  pub version : command.protocol_version ≡ supported_protocol_version
  pub has_id : is_blank command.command_id ≡ false
  pub has_nonce : is_blank command.command_nonce ≡ false
  pub agent : command.authenticated_agent_id ≡ some command.agent_id
  pub trusted : lookup command.agent_id gate.agent_public_keys_by_id ≡ some public_key
  pub algorithm_given : contains "signature_alg" command.model_fields_set ≡ true
  pub algorithm : command.signature_alg ≡ ed25519_signature_algorithm
  pub signed : command.signature ≡ some signature
  pub small : signed_command_material_budget_violation rt command ≡ false
  pub verified : verify_with_public_key_b64 rt (command_message command) signature public_key ≡ true
  pub fresh :
      IsFresh now command_clock_skew_seconds
        (gate.max_command_age_seconds + command_clock_skew_seconds)
        command.created_at

is_none-false {ℓ} : {A : Type ℓ} (o : Option A) → o ≢ none → is_none o ≡ false
is_none-false none h = absurd (h refl)
is_none-false (some a) h = refl

module _ (rt : Runtime) (gate : Gate) (command : EdgeCommand) (now : Instant) where
  time-IsFresh :
      command_time_violation gate command now ≡ none
      → IsFresh now command_clock_skew_seconds
          (gate.max_command_age_seconds + command_clock_skew_seconds)
          command.created_at
  unfolding command_time_violation
  time-IsFresh h = ((timestamps_iff now _ _ _ _ _ _).0 h).0

  IsGenuine-of :
      (agent key signature : Option String)
      → command.authenticated_agent_id ≡ agent
      → lookup command.agent_id gate.agent_public_keys_by_id ≡ key
      → command.signature ≡ signature
      → command.protocol_version ≡ supported_protocol_version
      → is_blank command.command_id ≡ false
      → is_blank command.command_nonce ≡ false
      → require agent "COMMAND_AUTHENTICATED_AGENT_MISSING"
          (command_agent_checks rt gate command now)
        ≡ none
      → IsGenuine rt gate command now
  unfolding command_agent_checks command_key_checks command_signature_checks
  IsGenuine-of none key signature a k s v i n h = cc
  IsGenuine-of (some x) none signature a k s v i n h =
      ground (arith, a, k, s, eq_iff x command.agent_id)
  IsGenuine-of (some x) (some y) none a k s v i n h =
      ground (arith, a, k, s, eq_iff x command.agent_id)
  IsGenuine-of (some x) (some y) (some z) a k s v i n h =
      let alg =
        (signature_algorithm_violation-none_iff command.base command.signature_alg
            "COMMAND_SIGNATURE_ALGORITHM_MISSING" "COMMAND_SIGNATURE_ALGORITHM_UNSUPPORTED").0
          (ground (arith, a, k, s, eq_iff x command.agent_id)) in
      record {
        public_key = y;
        signature = z;
        version = v;
        has_id = i;
        has_nonce = n;
        agent = ground (arith, eq_iff x command.agent_id);
        trusted = k;
        algorithm_given = alg.0;
        algorithm = alg.1;
        signed = s;
        small = ground (arith, a, k, s, eq_iff x command.agent_id);
        verified = ground (arith, a, k, s, eq_iff x command.agent_id);
        fresh = time-IsFresh (ground (arith, a, k, s, eq_iff x command.agent_id));
      }

  -- A command that passes authentication is genuine.
  pub command_auth-IsGenuine :
      command_auth_violation rt gate command now ≡ none → IsGenuine rt gate command now
  unfolding command_auth_violation
  command_auth-IsGenuine h =
      IsGenuine-of command.authenticated_agent_id
        (lookup command.agent_id gate.agent_public_keys_by_id) command.signature refl refl refl
        ((protocol_version_violation-none_iff command.base).0 (ground arith)) (ground arith)
        (ground arith) (ground arith)

  -- A genuine command passes authentication.
  IsGenuine-command_auth :
      IsGenuine rt gate command now → command_auth_violation rt gate command now ≡ none
  unfolding command_auth_violation command_agent_checks command_key_checks command_signature_checks
      command_time_violation
  IsGenuine-command_auth f =
      let version = (protocol_version_violation-none_iff command.base).1 f.version in
      let alg =
        (signature_algorithm_violation-none_iff command.base command.signature_alg
            "COMMAND_SIGNATURE_ALGORITHM_MISSING" "COMMAND_SIGNATURE_ALGORITHM_UNSUPPORTED").1
          (f.algorithm_given, f.algorithm) in
      let decodes : is_none (unb64 f.signature) ≡ false =
        is_none-false (unb64 f.signature)
          (verified-unb64 rt (command_message command) f.signature f.public_key f.verified) in
      let time =
        (timestamps_iff now command_clock_skew_seconds
            (gate.max_command_age_seconds + command_clock_skew_seconds) "COMMAND_TIMESTAMP_INVALID"
            "COMMAND_NOT_YET_VALID" "COMMAND_STALE" (command.created_at ∷ [])).1
          (f.fresh, tt) in
      ground (
        arith,
        version,
        f.has_id,
        f.has_nonce,
        f.agent,
        eq_refl command.agent_id,
        f.trusted,
        alg,
        f.signed,
        f.small,
        decodes,
        f.verified,
        time,
      )

  -- A command passes authentication exactly when it is genuine.
  pub command_auth_iff :
      (command_auth_violation rt gate command now ≡ none) ↔ IsGenuine rt gate command now
  command_auth_iff = (command_auth-IsGenuine, IsGenuine-command_auth)
