-- ===== src/Time.antt =====
-- Timestamps (`datetime`) of the services: an instant in microseconds, with or without a time zone.
-- `_require_aware` of models/invitation.py and the `_utc_now` helpers of the services.
use buddy_web_ver.Base.{ℕ, ◌*◌}
use buddy_web_ver.Errors.{Complaint, Exception, Result, ok, err}

-- A `naive` timestamp has no `tzinfo` or no offset. An `aware` one is given by its UTC instant, so
-- that `astimezone(UTC)` leaves it as it is.
pub data Datetime : Type 0 where
  naive : ℕ → Datetime
  aware : ℕ → Datetime

abbrev pub require_aware : Datetime → Result ℕ
require_aware (naive t) = err (Exception.value_error Complaint.not_aware)
require_aware (aware t) = ok t

-- `_utc_now(clock)` and `_utc_instant(value)`.
abbrev pub utc_now : Datetime → Result ℕ
utc_now = require_aware

-- Lengths of time in microseconds.
abbrev pub second : ℕ
second = 1_000_000

abbrev pub minute : ℕ
minute = 60 * second

abbrev pub hour : ℕ
hour = 60 * minute

abbrev pub day : ℕ
day = 24 * hour
