-- ===== src/Api/Interval/Laws.antt =====
-- When the interval of `visitIntervalRange` of api/v1_visitPlan.go is one of three hours by day.
use mop_backend_api.Base.{
  ℕ, ◌+◌, ◌-◌, ◌*◌, ◌%◌, ◌≤◌, ◌<◌, ◌≡◌, refl, sym, ◌∙◌, ap, subst, Bool, true, false, Option, none,
  some, leb, ltb, if◌then◌else◌, ◌==◌, arith, ◌⊎◌, inl, inr, Bool-cases,
}
use mop_backend_api.Api.Interval.{
  TimeOfDay, Interval, rounded, around, capped, shown, visit_interval_range,
}

-- the minutes of the day
abbrev pub minutes : TimeOfDay → ℕ
minutes t = t.hour * 60 + t.minute

rounded_near :
    (t : TimeOfDay)
    → t.minute < 60
    → (rounded t * 60 ≤ 1440 + minutes t + 30) × (1440 + minutes t ≤ rounded t * 60 + 29)
unfolding rounded
rounded_near t h = elim (Bool-cases (leb 30 t.minute)) [
  | inl e ↦ (let le : 30 ≤ t.minute = ground arith in rw e (omega arith, omega arith))
  | inr e ↦ (let lt : t.minute < 30 = ground arith in rw e (omega arith, omega arith))
]

clock : (r : ℕ) → 24 ≤ r → r < 48 → r % 24 ≡ r - 24
clock r low high = omega arith

abbrev around_if : (is_late is_last : Bool) → ℕ → Interval
around_if is_late is_last r =
    if is_late
    then (if is_last
        then record { start = r - 3; stop = r }
        else record { start = r - 2; stop = r + 1 })
    else record { start = r - 1; stop = r + 2 }

around_by :
    (a b : Bool) (r : ℕ) → leb 18 (r % 24) ≡ a → (r % 24 == 20) ≡ b → around r ≡ around_if a b r
unfolding around
around_by a b r e k = ap (λ x. around_if x (r % 24 == 20) r) e ∙ ap (λ x. around_if a x r) k

uncapped : (i : Interval) → i.stop ≤ 44 → capped i ≡ i
unfolding capped
uncapped i h =
    let k : ltb 44 i.stop ≡ false = ground arith in
    ap (λ b. if b then record i { stop = 44 } else i) k

early : (r : ℕ) → 25 ≤ r → r < 42 → capped (around r) ≡ record { start = r - 1; stop = r + 2 }
early r low high =
    let m = clock r (omega arith) (omega arith) in
    ap capped (around_by false false r (ground arith) (ground arith)) ∙ uncapped _ (omega arith)

evening : (r : ℕ) → 42 ≤ r → r < 44 → capped (around r) ≡ record { start = r - 2; stop = r + 1 }
evening r low high =
    let m = clock r (omega arith) (omega arith) in
    ap capped (around_by true false r (ground arith) (ground arith)) ∙ uncapped _ (omega arith)

last_hour : capped (around 44) ≡ record { start = 41; stop = 44 }
unfolding around capped
last_hour = refl

-- three hours of a day that end by 20:00 and hold a rounded hour
IsDay : (r : ℕ) → Interval → Type 0
IsDay r i =
    (i.stop ≡ i.start + 3)
    × (24 ≤ i.start)
    × (i.start + 1 ≤ r)
    × ((r + 1 ≤ i.stop) ⊎ (i.stop ≡ 44))
    × (i.stop ≤ 44)

-- by the rounded hour, from 01:00 to 20:00
around-IsDay : (r : ℕ) → 25 ≤ r → r ≤ 44 → IsDay r (capped (around r))
unfolding IsDay
around-IsDay r low high = elim (Bool-cases (ltb r 42)) [
  | inl e ↦
      (let lt : r < 42 = ground arith in
        subst (IsDay r) (sym (early r low lt))
          (omega arith, omega arith, omega arith, inl (omega arith), omega arith))
  | inr e ↦ elim (Bool-cases (r == 44)) [
    | inl k ↦
        (let eq : 44 ≡ r = ground arith in
          subst (λ x. IsDay x (capped (around x))) eq
            (subst (IsDay 44) (sym last_hour)
              (omega arith, omega arith, omega arith, inr refl, omega arith)))
    | inr k ↦
        (let ge : 42 ≤ r = ground arith in
          let lt : r < 44 = ground arith in
          subst (IsDay r) (sym (evening r ge lt))
            (omega arith, omega arith, omega arith, inl (omega arith), omega arith))
  ]
]

-- The interval holds the arrival, is three hours long, and is from 00:00 to 20:00 of its day.
pub IsAnnounced : TimeOfDay → Option Interval → Type 0
IsAnnounced t none = ⊥
IsAnnounced t (some i) =
    (i.stop ≡ i.start + 3) × (i.stop ≤ 20) × (i.start * 60 ≤ minutes t) × (minutes t ≤ i.stop * 60)

-- For an arrival from 00:30 to 20:00, `visitIntervalRange` prints three hours that hold the arrival and
-- end by 20:00.
pub visit_interval_range-IsAnnounced :
    (t : TimeOfDay)
    → t.minute < 60
    → 30 ≤ t.hour * 60 + t.minute
    → t.hour * 60 + t.minute ≤ 1200
    → IsAnnounced t (visit_interval_range (some t))
unfolding visit_interval_range IsAnnounced shown IsDay
visit_interval_range-IsAnnounced t h low high =
    let (near, above) = rounded_near t h in
    let (width, day, start, stop, cap) = around-IsDay (rounded t) (omega arith) (omega arith) in
    let s = clock (capped (around (rounded t))).start day (omega arith) in
    let e = clock (capped (around (rounded t))).stop (omega arith) (omega arith) in
    (
      omega arith,
      omega arith,
      omega arith,
      elim stop [ inl later ↦ omega arith | inr at_cap ↦ omega arith ],
    )
