-- ===== src/Core/Hash.antt =====
-- models.py `stable_json_hash`. `default=str` turns a timestamp into its text, which the caller here
-- does; the rest of the dump is that of `canonical_json`.
use rclp.Prelude.{String, [], ◌∷◌, format}
use rclp.Core.Value.{Value}
use rclp.Core.Runtime.{Runtime}

unfoldable pub stable_json_hash : Runtime → Value → String
stable_json_hash rt payload = format ("sha256:" ∷ rt.sha256_hex (rt.json_dumps payload) ∷ [])
