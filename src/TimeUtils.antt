-- ===== src/TimeUtils.antt =====
-- time_utils.py: dates with and without a time zone, and the parser's zone rules.
use nesy_reasoning_mcp.Prelude.{ℕ, ◌+◌, ◌*◌, Option, none, some, String, Bool, ltb}

-- `aware e` is a zone; `e` is its distance from UTC in microseconds plus one day, so that zones
-- west of UTC are numbers too.
pub data Zone : Type 0 where
  naive : Zone
  aware : ℕ → Zone

pub record Datetime : Type 0 where
  pub wall : ℕ
  pub zone : Zone

abbrev pub day : ℕ
day = 24 * 60 * 60 * 1000000

abbrev pub utc : Zone
utc = aware day

-- Two naive datetimes are compared by their walls. Python refuses to compare a naive one with an
-- aware one, which `same_kind` below rules out.
abbrev east : Zone → ℕ
east naive = day
east (aware e) = e

unfoldable pub before : Datetime → Datetime → Bool
before a b = ltb (a.wall + east b.zone) (b.wall + east a.zone)

-- datetime.replace(tzinfo=...)
abbrev in_zone : Datetime → Zone → Datetime
in_zone d z = record d { zone = z }

-- The zone of a parsed value against a reference: the reference's kind wins.
abbrev zone_against : Zone → Zone → Zone
zone_against naive (aware e) = aware e
zone_against (aware e) naive = naive
zone_against z r = z

abbrev or_default : Zone → Option Zone → Zone
or_default naive (some z) = z
or_default z d = z

-- `iso` is `datetime.fromisoformat(value.replace("Z", "+00:00"))`, on texts that the schemas have
-- validated.
module _ (iso : String → Datetime) where
  unfoldable pub parse_datetime_value :
      Option String → Option Zone → Option Datetime → Option Datetime
  parse_datetime_value none default_tz reference = none
  parse_datetime_value (some value) default_tz (some r) =
      some (in_zone (iso value) (zone_against (iso value).zone r.zone))
  parse_datetime_value (some value) default_tz none =
      some (in_zone (iso value) (or_default (iso value).zone default_tz))
