-- ===== src/Core/Time/Fresh.antt =====
-- The loop over timestamps that state.py, policy.py, attestation.py and command_gate.py run, with
-- their own reason codes.
use rclp.Prelude.{
  ℕ, ◌+◌, ◌≤◌, ◌≡◌, refl, ◌↔◌, none, String, List, [], ◌∷◌, arith, ltb, Violation, reject_if,
  <|>-none_iff, ◌<|>◌, require,
}
use rclp.Core.Time.{Instant, Timestamp, naive, aware, utc, seconds, instant}

-- `now - timestamp > timedelta(seconds=max_age)` is read as `timestamp + max_age < now`, in whole
-- microseconds on the UTC line.
unfoldable pub timestamp_violation :
    Instant → ℕ → ℕ → String → String → String → Timestamp → Violation
timestamp_violation now skew max_age invalid not_yet stale timestamp =
    require (instant timestamp) invalid λ t.
      reject_if (ltb (utc now + seconds skew) (utc t)) not_yet
      <|> reject_if (ltb (utc t + seconds max_age) (utc now)) stale

unfoldable pub timestamps_violation :
    Instant → ℕ → ℕ → String → String → String → List Timestamp → Violation
timestamps_violation now skew max_age invalid not_yet stale [] = none
timestamps_violation now skew max_age invalid not_yet stale (t ∷ ts) =
    timestamp_violation now skew max_age invalid not_yet stale t
    <|> timestamps_violation now skew max_age invalid not_yet stale ts

-- Aware, at most `skew` seconds ahead of `now`, and at most `max_age` seconds behind it.
pub record IsFresh (now : Instant) (skew max_age : ℕ) (timestamp : Timestamp) : Type 0 where
  pub at : Instant
  pub is_aware : timestamp ≡ aware at
  pub not_ahead : utc at ≤ utc now + seconds skew
  pub not_behind : utc now ≤ utc at + seconds max_age

module _ (now : Instant) (skew max_age : ℕ) (invalid not_yet stale : String) where
  pub timestamp_violation-IsFresh :
      (t : Timestamp)
      → timestamp_violation now skew max_age invalid not_yet stale t ≡ none
      → IsFresh now skew max_age t
  unfolding timestamp_violation
  timestamp_violation-IsFresh (naive n) h = cc
  timestamp_violation-IsFresh (aware t) h = record {
    at = t;
    is_aware = refl;
    not_ahead = ground arith;
    not_behind = ground arith;
  }

  pub IsFresh-timestamp_violation :
      (t : Timestamp)
      → IsFresh now skew max_age t
      → timestamp_violation now skew max_age invalid not_yet stale t ≡ none
  unfolding timestamp_violation
  IsFresh-timestamp_violation (naive n) f = ground (arith, f.is_aware)
  IsFresh-timestamp_violation (aware t) f = ground (arith, f.is_aware, f.not_ahead, f.not_behind)

  pub timestamp_iff :
      (t : Timestamp)
      → (timestamp_violation now skew max_age invalid not_yet stale t ≡ none)
        ↔ IsFresh now skew max_age t
  timestamp_iff t = (timestamp_violation-IsFresh t, IsFresh-timestamp_violation t)

abbrev pub AllFresh : Instant → ℕ → ℕ → List Timestamp → Type 0
AllFresh now skew max_age [] = Unit
AllFresh now skew max_age (t ∷ ts) = IsFresh now skew max_age t × AllFresh now skew max_age ts

module _ (now : Instant) (skew max_age : ℕ) (invalid not_yet stale : String) where
  -- The loop passes exactly when every timestamp is fresh.
  pub timestamps_iff :
      (ts : List Timestamp)
      → (timestamps_violation now skew max_age invalid not_yet stale ts ≡ none)
        ↔ AllFresh now skew max_age ts
  unfolding timestamps_violation
  timestamps_iff [] = (λ h. tt, λ f. refl)
  timestamps_iff (t ∷ ts) = (
    λ h.
        let (here, there) = (<|>-none_iff _ _).0 h in
        (
          (timestamp_iff now skew max_age invalid not_yet stale t).0 here,
          (timestamps_iff ts).0 there,
        ),
    λ f.
        (<|>-none_iff (timestamp_violation now skew max_age invalid not_yet stale t)
            (timestamps_violation now skew max_age invalid not_yet stale ts)).1
          (
            (timestamp_iff now skew max_age invalid not_yet stale t).1 f.0,
            (timestamps_iff ts).1 f.1,
          ),
  )
