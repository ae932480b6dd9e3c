-- ===== src/Gate/Auth.antt =====
-- command_gate.py: authentication and age of a command.
pub mod Spec
use rclp.Prelude.{
  ℕ, ◌+◌, Bool, true, false, not, ◌||◌, Option, none, some, String, List, [], ◌∷◌, ◌==◌, lookup,
  is_blank, Violation, reject_if, ◌<|>◌, require, if◌then◌else◌,
}
use rclp.Core.Time.{Instant}
use rclp.Core.Time.Fresh.{timestamps_violation}
use rclp.Core.Models.{
  EdgeCommand, command_message, protocol_version_violation, signature_algorithm_violation,
}
use rclp.Core.Budget.{budget_exceeded}
use rclp.Core.Runtime.{Runtime}
use rclp.Core.Base64.{unb64}
use rclp.Core.Crypto.{verify_with_public_key_b64}
use rclp.Core.SignedText.{command_texts}
use rclp.Core.Leases.{is_none}
use rclp.Gate.Payload.{command_payload_budget_violation}
use rclp.Gate.State.{Gate}

abbrev pub command_clock_skew_seconds : ℕ
command_clock_skew_seconds = 30

-- `_signed_command_material_budget_violation`
unfoldable pub signed_command_material_budget_violation : Runtime → EdgeCommand → Bool
signed_command_material_budget_violation rt command =
    if budget_exceeded 0 (command_texts rt command)
    then true
    else command_payload_budget_violation rt command.payload

unfoldable pub command_time_violation : Gate → EdgeCommand → Instant → Violation
command_time_violation gate command now =
    timestamps_violation now command_clock_skew_seconds
      (gate.max_command_age_seconds + command_clock_skew_seconds) "COMMAND_TIMESTAMP_INVALID"
      "COMMAND_NOT_YET_VALID" "COMMAND_STALE" (command.created_at ∷ [])

module _ (rt : Runtime) (gate : Gate) where
  unfoldable pub command_signature_checks : EdgeCommand → Instant → String → String → Violation
  command_signature_checks command now public_key signature =
      reject_if (signed_command_material_budget_violation rt command)
        "COMMAND_SIGNED_MATERIAL_TOO_LARGE"
      <|> reject_if (is_none (unb64 signature)) "COMMAND_SIGNATURE_INVALID"
      <|> reject_if
          (not (verify_with_public_key_b64 rt (command_message command) signature public_key))
          "COMMAND_SIGNATURE_INVALID"
      <|> command_time_violation gate command now

  unfoldable pub command_key_checks : EdgeCommand → Instant → String → Violation
  command_key_checks command now public_key =
      signature_algorithm_violation command.base command.signature_alg
        "COMMAND_SIGNATURE_ALGORITHM_MISSING" "COMMAND_SIGNATURE_ALGORITHM_UNSUPPORTED"
      <|> require command.signature "COMMAND_SIGNATURE_MISSING"
          (command_signature_checks command now public_key)

  unfoldable pub command_agent_checks : EdgeCommand → Instant → String → Violation
  command_agent_checks command now authenticated =
      reject_if (not (authenticated == command.agent_id)) "COMMAND_AUTHENTICATED_AGENT_MISMATCH"
      <|> require (lookup authenticated gate.agent_public_keys_by_id)
          "COMMAND_AGENT_KEY_NOT_TRUSTED" (command_key_checks command now)

  -- `_command_auth_violation`
  unfoldable pub command_auth_violation : EdgeCommand → Instant → Violation
  command_auth_violation command now =
      protocol_version_violation (command.base ∷ [])
      <|> reject_if (is_blank command.command_id) "COMMAND_ID_MISSING"
      <|> reject_if (is_blank command.command_nonce) "COMMAND_NONCE_MISSING"
      <|> require command.authenticated_agent_id "COMMAND_AUTHENTICATED_AGENT_MISSING"
          (command_agent_checks command now)
