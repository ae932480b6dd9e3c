-- ===== src/Core/Models/Checks.antt =====
-- models.py: the two checks over any message.
use rclp.Prelude.{
  String, List, [], ◌∷◌, ◌≡◌, ◌↔◌, true, not, none, arith, ◌==◌, eq_iff, contains, Violation,
  reject_if, ◌<|>◌,
}
use rclp.Core.Models.Messages.{BaseMessage}

abbrev pub supported_protocol_version : String
supported_protocol_version = "0.0.1-draft"

abbrev pub ed25519_signature_algorithm : String
ed25519_signature_algorithm = "RCLP-DEV-ED25519"

unfoldable pub protocol_version_violation : List BaseMessage → Violation
protocol_version_violation [] = none
protocol_version_violation (message ∷ rest) =
    reject_if (not (message.protocol_version == supported_protocol_version))
      "PROTOCOL_VERSION_UNSUPPORTED"
    <|> protocol_version_violation rest

-- `signature_alg` is read by `getattr`; every message that is checked has the field.
unfoldable pub signature_algorithm_violation : BaseMessage → String → String → String → Violation
signature_algorithm_violation message signature_alg missing_reason unsupported_reason =
    reject_if (not (contains "signature_alg" message.model_fields_set)) missing_reason
    <|> reject_if (not (signature_alg == ed25519_signature_algorithm)) unsupported_reason

pub protocol_version_violation-none_iff :
    (m : BaseMessage)
    → (protocol_version_violation (m ∷ []) ≡ none)
      ↔ (m.protocol_version ≡ supported_protocol_version)
unfolding protocol_version_violation
protocol_version_violation-none_iff m =
    ground (arith, eq_iff m.protocol_version supported_protocol_version)

pub signature_algorithm_violation-none_iff :
    (m : BaseMessage) (alg missing unsupported : String)
    → (signature_algorithm_violation m alg missing unsupported ≡ none)
      ↔ ((contains "signature_alg" m.model_fields_set ≡ true) × (alg ≡ ed25519_signature_algorithm))
unfolding signature_algorithm_violation
signature_algorithm_violation-none_iff m alg missing unsupported =
    ground (arith, eq_iff alg ed25519_signature_algorithm)
