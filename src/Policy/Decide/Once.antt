-- ===== src/Policy/Decide/Once.antt =====
-- Evaluations one after another on the same replay cache: an allowed request is used up.
use rclp.Prelude.{
  Option-cases, ◌≡◌, refl, Bool, true, false, ◌&&◌, Option, none, some, List, [], ◌∷◌, arith,
  eq_iff, ◌==◌, if◌then◌else◌, ℕ, suc, ◌≤◌, Bool-cases, inl, inr,
}
use rclp.Core.Time.{Instant}
use rclp.Core.Models.{
  CapabilityRequest, RobotStateAssertion, ControlPlaneReachabilityAssertion, Policy, allow,
  Decision,
}
use rclp.Core.Runtime.{Runtime}
use rclp.Policy.Replay.{
  RequestKey, key_of, has_request, RequestReplayCache, request_cache_durable, consume, consume_in,
}
use rclp.Policy.Decide.{Issuer, with_cache, by_request, after_consume, evaluate_policy_inputs}

-- The arguments of one evaluation; the clock and the configuration may be others each time.
pub record Evaluation : Type 0 where
  pub issuer : Issuer
  pub request : CapabilityRequest
  pub state : RobotStateAssertion
  pub plane : Option ControlPlaneReachabilityAssertion
  pub policy : Policy
  pub now : Instant

abbrev pub is_allow : Decision → Bool
is_allow allow = true
is_allow _ = false

abbrev pub same_key : RequestKey → RequestKey → Bool
same_key a b =
    (a.requesting_agent_id == b.requesting_agent_id) && (a.request_nonce == b.request_nonce)

abbrev pub rows_in : Option RequestReplayCache → List RequestKey
rows_in none = []
rows_in (some cache) = elim cache.rows [ none ↦ [] | some rows ↦ rows ]

has_request-same :
    (a b : RequestKey) (rows : List RequestKey)
    → same_key a b ≡ true
    → has_request a rows ≡ has_request b rows
unfolding has_request
has_request-same a b [] same = refl
has_request-same a b (row ∷ rows) same = ground (
  arith,
  has_request-same a b rows same,
  eq_iff a.requesting_agent_id b.requesting_agent_id,
  eq_iff a.request_nonce b.request_nonce,
)

module _ (rt : Runtime) where
  abbrev pub evaluate_one :
      Option RequestReplayCache → Evaluation → Option RequestReplayCache × Decision
  evaluate_one cache e =
      let r = evaluate_policy_inputs rt e.issuer cache e.request e.state e.plane e.policy e.now in
      (r.0, r.1.decision)

  -- How many of the evaluations allow a request with the key.
  abbrev pub times_allowed : RequestKey → Option RequestReplayCache → List Evaluation → ℕ
  times_allowed key cache [] = 0
  times_allowed key cache (e ∷ es) =
      let r = evaluate_one cache e in
      let rest = times_allowed key r.0 es in
      if is_allow r.1 && same_key key (key_of e.request) then suc rest else rest

  seen_stays :
      (key : RequestKey) (cache : Option RequestReplayCache) (e : Evaluation)
      → has_request key (rows_in cache) ≡ true
      → has_request key (rows_in (evaluate_one cache e).0) ≡ true
  unfolding evaluate_policy_inputs by_request with_cache after_consume consume consume_in
      has_request
  seen_stays key none e h = ground arith
  seen_stays key (some c) e h = ground arith

  seen_refused :
      (key : RequestKey) (cache : Option RequestReplayCache) (e : Evaluation)
      → has_request key (rows_in cache) ≡ true
      → same_key key (key_of e.request) ≡ true
      → is_allow (evaluate_one cache e).1 ≡ false
  unfolding evaluate_policy_inputs by_request with_cache after_consume consume consume_in
      request_cache_durable
  seen_refused key none e h same = ground arith
  seen_refused key (some c) e h same = elim (Option-cases c.rows) [
    | inl missing ↦ ground (arith, missing)
    | inr (rows, given) ↦
        ground (arith, given, h, has_request-same key (key_of e.request) rows same)
  ]

  allowed_seen :
      (key : RequestKey) (cache : Option RequestReplayCache) (e : Evaluation)
      → same_key key (key_of e.request) ≡ true
      → is_allow (evaluate_one cache e).1 ≡ true
      → has_request key (rows_in (evaluate_one cache e).0) ≡ true
  unfolding evaluate_policy_inputs by_request with_cache after_consume consume consume_in
      has_request request_cache_durable
  allowed_seen key none e same h = ground arith
  allowed_seen key (some c) e same h = ground arith

  never_again :
      (key : RequestKey) (cache : Option RequestReplayCache) (es : List Evaluation)
      → has_request key (rows_in cache) ≡ true
      → times_allowed key cache es ≡ 0
  never_again key cache [] h = refl
  never_again key cache (e ∷ es) h = ground (
    arith,
    never_again key (evaluate_one cache e).0 es (seen_stays key cache e h),
    seen_refused key cache e h,
  )

  -- However many evaluations run on one replay cache, under whatever policies, keys and clocks, and
  -- whatever requests they are of, at most one of them allows a request of a given agent with a given nonce.
  pub allowed_once :
      (key : RequestKey) (cache : Option RequestReplayCache) (es : List Evaluation)
      → times_allowed key cache es ≤ 1
  allowed_once key cache [] = ground arith
  allowed_once key cache (e ∷ es) =
      let next = (evaluate_one cache e).0 in
      elim (Bool-cases (is_allow (evaluate_one cache e).1 && same_key key (key_of e.request))) [
        | inl y ↦ ground (
          arith,
          y,
          never_again key next es (allowed_seen key cache e (ground arith) (ground arith)),
        )
        | inr n ↦ ground (arith, n, allowed_once key next es)
      ]
