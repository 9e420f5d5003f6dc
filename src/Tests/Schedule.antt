-- ===== src/Tests/Schedule.antt =====
-- A schedule of three stops both ways, and the intervals of some arrivals.
use mop_backend_api.Base.{ℕ, ◌≡◌, refl, true, false, [], ◌∷◌, some, arith}
use mop_backend_api.Base.Int.{pos, negsuc, ◌+ℤ◌, ◌-ℤ◌}
use mop_backend_api.Api.Schedule.{
  Clock, compute_arrival_times, planned, forward, backward, negated, wrapped, service_of,
}
use mop_backend_api.Api.Schedule.Laws.{IsScheduled, compute_arrival_times_lem}
use mop_backend_api.Api.Interval.{TimeOfDay, visit_interval_range, shown, capped, around, rounded}
use mop_backend_api.Api.Interval.Laws.{IsAnnounced, visit_interval_range-IsAnnounced}

-- nanoseconds read as minutes, and three texts
abbrev minutes_clock : Clock ℕ
minutes_clock = record {
  parse = λ text. some (pos 780);
  zero_time = pos 0;
  format = λ t. "13:00";
  duration = pos;
}

abbrev at : (hour minute : ℕ) → TimeOfDay
at hour minute = record { hour = hour; minute = minute }

forward_three :
    planned minutes_clock (pos 780) (pos 15) (some (pos 830)) false (20 ∷ 5 ∷ [])
    ≡ (pos 780 ∷ pos 815 ∷ pos 835 ∷ [], true)
unfolding planned forward ◌+ℤ◌
forward_three = refl

backward_three :
    planned minutes_clock (pos 780) (pos 15) (some (pos 830)) true (20 ∷ 5 ∷ [])
    ≡ (pos 775 ∷ pos 810 ∷ pos 830 ∷ [], true)
unfolding planned backward negated ◌+ℤ◌ ◌-ℤ◌
backward_three = refl

-- one minute more than 64 bits hold
service_wraps : service_of 153722868 ≡ negsuc 9223371993709551615
unfolding wrapped
service_wraps = refl

interval_day : visit_interval_range (some (at 13 40)) ≡ some (record { start = 13; stop = 16 })
unfolding visit_interval_range shown capped around rounded
interval_day = refl

-- an arrival after 22:30 is announced as an interval that ends before it starts
interval_night : visit_interval_range (some (at 22 40)) ≡ some (record { start = 21; stop = 20 })
unfolding visit_interval_range shown capped around rounded
interval_night = refl

compute_arrival_times_lem_example :
    IsScheduled minutes_clock "13:00" 15 "20:00" "end"
      (20 ∷ 5 ∷ [])
      (compute_arrival_times minutes_clock "13:00" 15 "20:00" "end" (20 ∷ 5 ∷ []))
compute_arrival_times_lem_example =
    compute_arrival_times_lem minutes_clock "13:00" 15 "20:00" "end" (20 ∷ 5 ∷ []) (omega arith)
      (omega arith, (omega arith, tt))

visit_interval_range-IsAnnounced_example :
    IsAnnounced (at 19 45) (visit_interval_range (some (at 19 45)))
visit_interval_range-IsAnnounced_example =
    visit_interval_range-IsAnnounced (at 19 45) (omega arith) (omega arith) (omega arith)
