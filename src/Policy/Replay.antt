-- ===== src/Policy/Replay.antt =====
-- policy.py `RequestReplayCache`. A row is its primary key; the other columns are never read.
use rclp.Prelude.{
  Bool, true, false, ◌&&◌, ◌||◌, Option, none, some, String, List, [], ◌∷◌, ◌==◌, if◌then◌else◌,
}
use rclp.Core.Models.{CapabilityRequest}

pub record RequestKey : Type 0 where
  pub requesting_agent_id : String
  pub request_nonce : String

abbrev pub key_of : CapabilityRequest → RequestKey
key_of request = record {
  requesting_agent_id = request.requesting_agent_id;
  request_nonce = request.request_nonce;
}

unfoldable pub has_request : RequestKey → List RequestKey → Bool
has_request key [] = false
has_request key (row ∷ rows) =
    ((key.requesting_agent_id == row.requesting_agent_id)
      && (key.request_nonce == row.request_nonce))
    || has_request key rows

pub record RequestReplayCache : Type 0 where
  pub rows : Option (List RequestKey)
  pub durable_flag : Bool
  pub seen_request_nonces : List RequestKey

unfoldable pub request_cache_durable : RequestReplayCache → Bool
request_cache_durable cache = elim cache.rows [ none ↦ false | some rows ↦ cache.durable_flag ]

unfoldable pub has_seen_in : Option (List RequestKey) → RequestReplayCache → RequestKey → Bool
has_seen_in none cache key = has_request key cache.seen_request_nonces
has_seen_in (some rows) cache key = has_request key rows

unfoldable pub has_seen : RequestReplayCache → CapabilityRequest → Bool
has_seen cache request = has_seen_in cache.rows cache (key_of request)

-- The insert of a key that is there is an `IntegrityError`.
unfoldable pub consume_in :
    Option (List RequestKey) → RequestReplayCache → RequestKey → RequestReplayCache × Bool
consume_in none cache key = (cache, false)
consume_in (some rows) cache key =
    if has_request key rows
    then (cache, false)
    else (record cache { rows = some (key ∷ rows) }, true)

unfoldable pub consume : RequestReplayCache → CapabilityRequest → RequestReplayCache × Bool
consume cache request = consume_in cache.rows cache (key_of request)

-- The method `remember`.
unfoldable pub remember_in_set :
    Option (List RequestKey) → RequestReplayCache → RequestKey → RequestReplayCache
remember_in_set none cache key =
    if has_request key cache.seen_request_nonces
    then cache
    else record cache { seen_request_nonces = key ∷ cache.seen_request_nonces }
remember_in_set (some rows) cache key = (consume_in (some rows) cache key).0

unfoldable pub remember_request : RequestReplayCache → CapabilityRequest → RequestReplayCache
remember_request cache request = remember_in_set cache.rows cache (key_of request)
