-- ===== src/Api/Schedule.antt =====
-- `computeArrivalTimes` of api/v1_route.go. A moment is its number of nanoseconds from the midnight of
-- the day that `time.Parse` gives to a time of day; a duration is an int64.
pub mod Laws
use Prim.Native.String.{String}
use text.Mathlib.Text.{◌==◌}
use mop_backend_api.Base.{
  ℕ, suc, ◌-◌, ◌*◌, ◌%◌, ◌^◌, ltb, leb, Bool, true, false, List, [], ◌∷◌, Option, none, some, map,
  if◌then◌else◌,
}
use mop_backend_api.Base.Int.{ℤ, pos, negsuc, ◌+ℤ◌, ◌-ℤ◌, ltb_ℤ}

-- What the code uses of the time package: parsing and printing by "15:04", the zero `time.Time`, which
-- a failed parse returns, and `time.Duration(leg * float64(time.Second))`.
pub record Clock (F : Type 0) : Type 0 where
  pub parse : String → Option ℤ
  pub zero_time : ℤ
  pub format : ℤ → String
  pub duration : F → ℤ

-- the int64 that a number wraps around to
unfoldable pub wrapped : ℕ → ℤ
wrapped n = let low = n % 2 ^ 64 in if ltb low (2 ^ 63) then pos low else negsuc (2 ^ 64 - 1 - low)

-- `time.Duration(serviceMinutes) * time.Minute`, on int64
abbrev pub service_of : (minutes : ℕ) → ℤ
service_of minutes = wrapped (minutes * 60000000000)

-- `-d` of a `time.Duration`: the least int64 is its own negation
unfoldable pub negated : ℤ → ℤ
negated (pos n) = pos 0 -ℤ pos n
negated (negsuc n) = if leb (2 ^ 63 - 1) n then negsuc n else pos (suc n)

abbrev pub or_zero_time : {F : Type 0} → Clock F → Option ℤ → ℤ
or_zero_time c none = c.zero_time
or_zero_time c (some t) = t

-- the end of the day, where there is one: `hasEnd`
abbrev pub end_of : {F : Type 0} → Clock F → String → Option ℤ
end_of c end_time = if end_time == "" then none else c.parse end_time

module _ {F : Type 0} (c : Clock F) (service : ℤ) where
  -- the forward schedule from a first moment
  unfoldable pub forward : ℤ → List F → List ℤ
  forward t [] = t ∷ []
  forward t (leg ∷ legs) = t ∷ forward (t +ℤ service +ℤ c.duration leg) legs

  -- the backward schedule to a last moment: the first moment and those after it
  unfoldable pub backward : ℤ → List F → ℤ × List ℤ
  backward last [] = (last, [])
  backward last (leg ∷ legs) =
      let (t, ts) = backward last legs in (t +ℤ negated service +ℤ negated (c.duration leg), t ∷ ts)

-- the last of a schedule that is not empty
abbrev pub last_of : ℤ → List ℤ → ℤ
last_of d [] = d
last_of d (t ∷ ts) = last_of t ts

module _ {F : Type 0} (c : Clock F) where
  -- the moments, and whether the route does not fit
  unfoldable pub planned : (start service : ℤ) → Option ℤ → (at_end : Bool) → List F → List ℤ × Bool
  planned start service none at_end legs = (forward c service start legs, false)
  planned start service (some last) true legs =
      let (first, rest) = backward c service last legs in (first ∷ rest, ltb_ℤ first start)
  planned start service (some last) false legs =
      let times = forward c service start legs in (times, ltb_ℤ last (last_of start times))

  unfoldable pub compute_arrival_times :
      (start_time : String)
      → (service_minutes : ℕ) → (end_time anchor : String) → List F
      → List String × Bool
  compute_arrival_times start_time service_minutes end_time anchor legs =
      let (times, overrun) =
        planned (or_zero_time c (c.parse start_time)) (service_of service_minutes)
          (end_of c end_time) (anchor == "end") legs in
      (map c.format times, overrun)
