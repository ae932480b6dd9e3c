-- ===== src/Examples/Revocations.antt =====
-- `revoke` on the concrete gate.
use rclp.Core.Budget.{budget_exceeded, signature_text_too_large}
use rclp.Core.Base64.{
  digit, undigit, b64, one_byte, two_bytes, three_bytes, is_pad, b64decode, codes_eq, all_ascii,
  canonical, unb64_codes, unb64,
}
use rclp.Core.Crypto.{canonical_json, verify_decoded, verify_with_public_key_b64}
use rclp.Core.SignedText.{
  lease_texts, lease_signed_material_too_large, robot_state_texts,
  robot_state_signed_material_too_large, command_texts, revocation_texts,
  signed_revocation_material_budget_violation,
}
use rclp.Core.Time.Fresh.{timestamp_violation, timestamps_violation}
use rclp.Core.Models.{protocol_version_violation, signature_algorithm_violation}
use rclp.Core.Time.{max_wall, utc}
use rclp.Core.Models.{unsigned}
use rclp.Gate.Revocations.{durable, load_all, record_in, record_checked, record_revocation}
use rclp.Gate.State.{
  record_audit, newest_audit_id, local_fallback_action, fresh_base, sign_fallback, emit_fallback,
  bounded_diagnostic_text,
}
use rclp.Gate.Revoke.{revocation_declaration, revoke_recorded, by_record, by_rejection, revoke}
use rclp.Gate.Revoke.Checks.{
  revoked_lease, revocation_time_violation, revocation_context_conflicts, revocation_scope_checks,
  revocation_key_checks, revocation_signature_checks, revocation_rejection,
}
use rclp.Gate.Revoke.Entries.{
  lease_entry, raw_id_entry, no_lease_entry, rejected_revocation, not_local_entry,
  not_trusted_entry, not_scoped_entry, other_lease_entry, other_context_entry, revoked_entry,
}
use rclp.Prelude.{
  ◌≡◌, refl, true, none, some, contains, subset, lookup, insert, keys, codes, is_blank, format,
}
use rclp.Gate.Revoke.{message}
use rclp.Core.Conformance.{returns}
use rclp.Gate.Revoke.Effect.{was_revoked}
use rclp.Examples.{runtime, gate, fresh_gate, lease, revocation, clock_time}

pub revocation_accepted :
    was_revoked (revoke runtime gate fresh_gate (message revocation) (some lease) (clock_time 5)).1
    ≡ true
unfolding contains subset lookup insert keys codes is_blank format budget_exceeded
    signature_text_too_large digit undigit b64 one_byte two_bytes three_bytes is_pad b64decode
    codes_eq all_ascii canonical unb64_codes unb64 canonical_json verify_decoded
    verify_with_public_key_b64 lease_texts lease_signed_material_too_large robot_state_texts
    robot_state_signed_material_too_large command_texts revocation_texts
    signed_revocation_material_budget_violation timestamp_violation timestamps_violation
    protocol_version_violation signature_algorithm_violation max_wall utc unsigned load_all
    record_in record_checked record_revocation record_audit newest_audit_id local_fallback_action
    fresh_base sign_fallback emit_fallback bounded_diagnostic_text revocation_declaration
    revoke_recorded by_record by_rejection revoke revocation_time_violation
    revocation_context_conflicts revocation_scope_checks revocation_key_checks
    revocation_signature_checks revocation_rejection lease_entry raw_id_entry no_lease_entry
    rejected_revocation not_local_entry not_trusted_entry not_scoped_entry other_lease_entry
    other_context_entry revoked_entry
revocation_accepted = refl

pub revocation_passes : revocation_rejection runtime gate revocation lease (clock_time 5) ≡ none
unfolding contains subset lookup insert keys codes is_blank format budget_exceeded
    signature_text_too_large digit undigit b64 one_byte two_bytes three_bytes is_pad b64decode
    codes_eq all_ascii canonical unb64_codes unb64 canonical_json verify_decoded
    verify_with_public_key_b64 lease_texts lease_signed_material_too_large robot_state_texts
    robot_state_signed_material_too_large command_texts revocation_texts
    signed_revocation_material_budget_violation timestamp_violation timestamps_violation
    protocol_version_violation signature_algorithm_violation max_wall utc unsigned load_all
    record_in record_checked record_revocation record_audit newest_audit_id local_fallback_action
    fresh_base sign_fallback emit_fallback bounded_diagnostic_text revocation_declaration
    revoke_recorded by_record by_rejection revoke revocation_time_violation
    revocation_context_conflicts revocation_scope_checks revocation_key_checks
    revocation_signature_checks revocation_rejection lease_entry raw_id_entry no_lease_entry
    rejected_revocation not_local_entry not_trusted_entry not_scoped_entry other_lease_entry
    other_context_entry revoked_entry
revocation_passes = refl

pub revocation_recorded :
    (record_revocation fresh_gate.store (revoked_lease revocation lease)).1 ≡ returns true
unfolding contains subset lookup insert keys codes is_blank format budget_exceeded
    signature_text_too_large digit undigit b64 one_byte two_bytes three_bytes is_pad b64decode
    codes_eq all_ascii canonical unb64_codes unb64 canonical_json verify_decoded
    verify_with_public_key_b64 lease_texts lease_signed_material_too_large robot_state_texts
    robot_state_signed_material_too_large command_texts revocation_texts
    signed_revocation_material_budget_violation timestamp_violation timestamps_violation
    protocol_version_violation signature_algorithm_violation max_wall utc unsigned load_all
    record_in record_checked record_revocation record_audit newest_audit_id local_fallback_action
    fresh_base sign_fallback emit_fallback bounded_diagnostic_text revocation_declaration
    revoke_recorded by_record by_rejection revoke revocation_time_violation
    revocation_context_conflicts revocation_scope_checks revocation_key_checks
    revocation_signature_checks revocation_rejection lease_entry raw_id_entry no_lease_entry
    rejected_revocation not_local_entry not_trusted_entry not_scoped_entry other_lease_entry
    other_context_entry revoked_entry
revocation_recorded = refl

store_durable : durable fresh_gate.store ≡ true
unfolding durable
store_durable = refl
