-- ===== src/Core/Time.antt =====
-- `datetime` and `timedelta`, in microseconds. An aware timestamp has its wall-clock reading, counted
-- from `datetime.min`, and its offset east of UTC, counted from 24 hours west, so both are natural
-- numbers; comparisons and differences of aware timestamps go by the UTC instant.
pub mod Fresh
use rclp.Prelude.{ℕ, ◌+◌, ◌-◌, ◌*◌, Option, none, some}

pub record Instant : Type 0 where
  pub wall : ℕ
  pub east : ℕ

pub data Timestamp : Type 0 where
  naive : ℕ → Timestamp
  aware : Instant → Timestamp

-- One day in microseconds.
abbrev pub day : ℕ
day = 86_400_000_000

-- The wall-clock reading of `datetime.max`.
unfoldable pub max_wall : ℕ
max_wall = 3_652_059 * 86_400_000_000 - 1

-- Microseconds from one day before `datetime.min` in UTC.
unfoldable pub utc : Instant → ℕ
utc t = t.wall + 2 * day - t.east

-- `timedelta(seconds=n)`
abbrev pub seconds : ℕ → ℕ
seconds n = n * 1_000_000

-- `value.tzinfo is None or value.utcoffset() is None` rejects, and the rest needs the instant.
abbrev pub instant : Timestamp → Option Instant
instant (naive _) = none
instant (aware t) = some t
