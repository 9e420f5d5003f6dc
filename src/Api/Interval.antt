-- ===== src/Api/Interval.antt =====
-- `visitIntervalRange` of api/v1_visitPlan.go. The times in it are whole hours, counted from the
-- midnight before the day of the arrival, so that an hour before 01:00 is a number.
pub mod Laws
use mop_backend_api.Base.{ℕ, ◌+◌, ◌-◌, ◌%◌, Bool, Option, none, some, leb, ltb, ◌==◌, if◌then◌else◌}

-- what `time.Parse("15:04", …)` gives of a time of day
pub record TimeOfDay : Type 0 where
  pub hour : ℕ
  pub minute : ℕ

-- the interval that is printed, by its hours
pub record Interval : Type 0 where
  pub start : ℕ
  pub stop : ℕ

-- the nearest hour
unfoldable pub rounded : TimeOfDay → ℕ
rounded t = if leb 30 t.minute then 24 + t.hour + 1 else 24 + t.hour

-- start and end around a rounded hour, before the cap
unfoldable pub around : ℕ → Interval
around r =
    if leb 18 (r % 24)
    then (if r % 24 == 20
        then record { start = r - 3; stop = r }
        else record { start = r - 2; stop = r + 1 })
    else record { start = r - 1; stop = r + 2 }

-- the end is at most 20:00 of the day
unfoldable pub capped : Interval → Interval
capped i = if ltb 44 i.stop then record i { stop = 44 } else i

-- the hours as a clock shows them
unfoldable pub shown : Interval → Interval
shown i = record { start = i.start % 24; stop = i.stop % 24 }

-- the interval, unless the text is no time of day
unfoldable pub visit_interval_range : Option TimeOfDay → Option Interval
visit_interval_range none = none
visit_interval_range (some t) = some (shown (capped (around (rounded t))))
