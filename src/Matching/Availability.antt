-- ===== src/Matching/Availability.antt =====
-- The weekly availability of two profiles as sets of UTC instants
-- (`_local_minute`, `_merged_utc_intervals` and `_availability_similarity` of
-- apps/api/app/services/matching_scoring.py).
pub mod Similarity
use buddy_web_ver.Base.{
  ℕ, ◌+◌, ◌-◌, ◌*◌, Bool, true, false, Option, none, some, List, [], ◌∷◌, ltb, ◌==◌, if◌then◌else◌,
}
use buddy_web_ver.Time.{minute, day}
use buddy_web_ver.Text.{Text}
use buddy_web_ver.Models.Profile.{WeeklyAvailability, WeeklyAvailabilitySlot}
use buddy_web_ver.Matching.Fractions.{Fraction, zero_fraction}
use buddy_web_ver.Matching.Intervals.{
  UtcInterval, sort_intervals, merge_sorted, duration_microseconds, intersection_microseconds,
}

-- `local.replace(tzinfo=ZoneInfo(timezone)).astimezone(UTC)`: the time zone database, on local and
-- UTC times in microseconds.
abbrev pub ToUtc : Type 0
ToUtc = Text → ℕ → ℕ

-- `if end > start: intervals.append((start, end))`
abbrev pub keep_positive : UtcInterval → List UtcInterval → List UtcInterval
keep_positive i is = if ltb i.0 i.1 then i ∷ is else is

module _ (to_utc : ToUtc) where
  -- A date is a number of days since a Monday; weekdays are 1 to 7.
  unfoldable pub local_minute : ℕ → ℕ → ℕ → Text → ℕ
  local_minute reference_week_start weekday at timezone =
      let local_date = reference_week_start + weekday - 1 in
      let next_day = at == 1440 in
      let date = if next_day then local_date + 1 else local_date in
      let of_day = if next_day then 0 else at in to_utc timezone (date * day + of_day * minute)

  abbrev pub slot_interval : Text → ℕ → WeeklyAvailabilitySlot → UtcInterval
  slot_interval timezone reference_week_start slot = (
    local_minute reference_week_start slot.weekday slot.start_minute timezone,
    local_minute reference_week_start slot.weekday slot.end_minute timezone,
  )

  unfoldable pub slot_intervals : Text → ℕ → List WeeklyAvailabilitySlot → List UtcInterval
  slot_intervals timezone reference_week_start [] = []
  slot_intervals timezone reference_week_start (slot ∷ slots) =
      keep_positive (slot_interval timezone reference_week_start slot)
        (slot_intervals timezone reference_week_start slots)

  abbrev pub raw_intervals : Option WeeklyAvailability → ℕ → List UtcInterval
  raw_intervals none reference_week_start = []
  raw_intervals (some availability) reference_week_start =
      slot_intervals availability.timezone reference_week_start availability.slots

  unfoldable pub merged_utc_intervals : Option WeeklyAvailability → ℕ → List UtcInterval
  merged_utc_intervals none reference_week_start = []
  merged_utc_intervals (some availability) reference_week_start =
      merge_sorted (sort_intervals (raw_intervals (some availability) reference_week_start))

  unfoldable pub availability_similarity :
      Option WeeklyAvailability → Option WeeklyAvailability → ℕ → Fraction
  availability_similarity left right reference_week_start =
      let left_intervals = merged_utc_intervals left reference_week_start in
      let right_intervals = merged_utc_intervals right reference_week_start in
      let intersection = intersection_microseconds left_intervals right_intervals in
      let union =
        duration_microseconds left_intervals
        + duration_microseconds right_intervals
        - intersection in
      if union == 0 then zero_fraction else record { numerator = intersection; denominator = union }
