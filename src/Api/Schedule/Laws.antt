-- ===== src/Api/Schedule/Laws.antt =====
-- What `computeArrivalTimes` of api/v1_route.go promises.
use Prim.Native.String.{String}
use text.Mathlib.Text.{◌==◌}
use mop_backend_api.Base.{
  ℕ, ◌+◌, ◌*◌, ◌^◌, ◌≤◌, ◌<◌, All, ◌≡◌, refl, sym, ◌∙◌, ap, subst, Bool, true, false, List, [], ◌∷◌,
  Option, none, some, map, arith,
}
use mop_backend_api.Base.Int.{
  ℤ, pos, negsuc, pos_part, neg_part, ◌+ℤ◌, ◌-ℤ◌, ltb_ℤ, +ℤ_parts, int_laws,
}
use mop_backend_api.Api.Schedule.{
  Clock, wrapped, negated, service_of, or_zero_time, end_of, forward, backward, last_of, planned,
  compute_arrival_times,
}

-- a duration other than the least int64
abbrev pub IsNegatable : ℤ → Type 0
IsNegatable d = neg_part d < 2 ^ 63

negated_parts :
    (d : ℤ) → IsNegatable d → pos_part (negated d) + pos_part d ≡ neg_part (negated d) + neg_part d
unfolding negated ◌-ℤ◌
negated_parts (pos n) h = ground arith
negated_parts (negsuc n) h = ground arith

wrapped_below : (n : ℕ) → n < 2 ^ 63 → wrapped n ≡ pos n
unfolding wrapped
wrapped_below n h = ground arith

module _ {F : Type 0} (c : Clock F) (service : ℤ) where
  -- each moment is the one before, the service and the drive later
  pub Follows : List F → ℤ → List ℤ → Type 0
  Follows [] t [] = Unit
  Follows [] t (u ∷ us) = ⊥
  Follows (leg ∷ legs) t [] = ⊥
  Follows (leg ∷ legs) t (u ∷ us) = (u ≡ t +ℤ service +ℤ c.duration leg) × Follows legs u us

  -- the whole time between the first and the last stop
  abbrev pub total : List F → ℤ
  total [] = pos 0
  total (leg ∷ legs) = (service +ℤ c.duration leg) +ℤ total legs

  -- the moments after the first
  rest_of : ℤ → List F → List ℤ
  rest_of t [] = []
  rest_of t (leg ∷ legs) = forward c service (t +ℤ service +ℤ c.duration leg) legs

  forward_rest : (t : ℤ) (legs : List F) → forward c service t legs ≡ t ∷ rest_of t legs
  unfolding forward rest_of
  forward_rest t [] = refl
  forward_rest t (leg ∷ legs) = refl

  forward-Follows : (t : ℤ) (legs : List F) → Follows legs t (rest_of t legs)
  unfolding Follows rest_of
  forward-Follows t [] = tt
  forward-Follows t (leg ∷ legs) =
      subst (Follows (leg ∷ legs) t) (sym (forward_rest (t +ℤ service +ℤ c.duration leg) legs))
        (refl, forward-Follows (t +ℤ service +ℤ c.duration leg) legs)

  shift : (t d r : ℤ) → t +ℤ service +ℤ d +ℤ r ≡ t +ℤ (service +ℤ d +ℤ r)
  shift t d r = omega int_laws

  sub_add :
      (t d : ℤ)
      → IsNegatable service
      → IsNegatable d
      → t ≡ t +ℤ negated service +ℤ negated d +ℤ service +ℤ d
  sub_add t d h k = let p = negated_parts service h in let q = negated_parts d k in omega int_laws

  backward-Follows :
      (last : ℤ) (legs : List F)
      → IsNegatable service
      → All (λ leg. IsNegatable (c.duration leg)) legs
      → Follows legs (backward c service last legs).0 (backward c service last legs).1
  unfolding Follows backward
  backward-Follows last [] h k = tt
  backward-Follows last (leg ∷ legs) h k = (
    sub_add (backward c service last legs).0 (c.duration leg) h k.0,
    backward-Follows last legs h k.1,
  )

  -- a schedule ends the whole time after its start
  Follows-total :
      (legs : List F) (t : ℤ) (ts : List ℤ) → Follows legs t ts → last_of t ts ≡ t +ℤ total legs
  unfolding Follows
  Follows-total [] t [] h = omega int_laws
  Follows-total [] t (u ∷ us) h = absurd h
  Follows-total (leg ∷ legs) t [] h = absurd h
  Follows-total (leg ∷ legs) t (u ∷ us) (e, h) =
      Follows-total legs u us h
      ∙ ap (λ x. x +ℤ total legs) e
      ∙ shift t (c.duration leg) (total legs)

  backward_last :
      (last : ℤ) (legs : List F)
      → last_of (backward c service last legs).0 (backward c service last legs).1 ≡ last
  unfolding backward
  backward_last last [] = refl
  backward_last last (leg ∷ legs) = backward_last last legs

-- starting too early and ending too late are the same
early_late :
    (first start all last : ℤ) → last ≡ first +ℤ all → ltb_ℤ first start ≡ ltb_ℤ last (start +ℤ all)
early_late first start all last e =
    let p = +ℤ_parts start all in
    let q = +ℤ_parts first all in
    let r =
      subst (λ u. ltb_ℤ u (start +ℤ all) ≡ ltb_ℤ (first +ℤ all) (start +ℤ all)) (sym e) refl in
    let s : ltb_ℤ first start ≡ ltb_ℤ (first +ℤ all) (start +ℤ all) = ground arith in s ∙ sym r

-- the route from the start does not fit before the end
abbrev pub is_late : (start all : ℤ) → Option ℤ → Bool
is_late start all none = false
is_late start all (some last) = ltb_ℤ last (start +ℤ all)

-- the moment that a schedule is fixed at
pub IsAnchored : (start : ℤ) → Option ℤ → (at_end : Bool) → (first last : ℤ) → Type 0
IsAnchored start none at_end first last = first ≡ start
IsAnchored start (some end_moment) true first last = last ≡ end_moment
IsAnchored start (some end_moment) false first last = first ≡ start

module _ {F : Type 0} (c : Clock F) where
  pub record IsPlanned (start service : ℤ) (end_moment : Option ℤ) (at_end : Bool) (legs : List F)
      (times : List ℤ) (overrun : Bool) : Type 0 where
    pub first : ℤ
    pub others : List ℤ
    pub moments : times ≡ first ∷ others
    pub follows : Follows c service legs first others
    pub anchored : IsAnchored start end_moment at_end first (last_of first others)
    pub late : overrun ≡ is_late start (total c service legs) end_moment

  planned_lem :
      (start service : ℤ) (end_moment : Option ℤ) (at_end : Bool) (legs : List F)
      → IsNegatable service
      → All (λ leg. IsNegatable (c.duration leg)) legs
      → IsPlanned start service end_moment at_end legs
          (planned c start service end_moment at_end legs).0
          (planned c start service end_moment at_end legs).1
  unfolding planned IsAnchored
  planned_lem start service none at_end legs h k = record {
    first = start;
    others = rest_of c service start legs;
    moments = forward_rest c service start legs;
    follows = forward-Follows c service start legs;
    anchored = refl;
    late = refl;
  }
  planned_lem start service (some e) true legs h k = record {
    first = (backward c service e legs).0;
    others = (backward c service e legs).1;
    moments = refl;
    follows = backward-Follows c service e legs h k;
    anchored = backward_last c service e legs;
    late = early_late (backward c service e legs).0 start (total c service legs) e (
        sym (backward_last c service e legs)
        ∙ Follows-total c service legs (backward c service e legs).0 (backward c service e legs).1
            (backward-Follows c service e legs h k));
  }
  planned_lem start service (some e) false legs h k = record {
    first = start;
    others = rest_of c service start legs;
    moments = forward_rest c service start legs;
    follows = forward-Follows c service start legs;
    anchored = refl;
    late =
        ap (λ l. ltb_ℤ e (last_of start l)) (forward_rest c service start legs)
        ∙ ap (ltb_ℤ e) (
            Follows-total c service legs start (rest_of c service start legs)
              (forward-Follows c service start legs));
  }

  -- the answer for texts of the settings
  pub IsScheduled :
      (start_time : String)
      → (service_minutes : ℕ) → (end_time anchor : String) → List F
      → List String × Bool
      → Type 0
  IsScheduled start_time service_minutes end_time anchor legs (out, overrun) =
      (times : List ℤ) × (out ≡ map c.format times)
      × IsPlanned (or_zero_time c (c.parse start_time)) (pos (service_minutes * 60000000000))
          (end_of c end_time) (anchor == "end") legs times overrun

  -- If the service is at most 153722867 minutes, which 64 bits hold in nanoseconds, and no drive is the
  -- least duration, then `computeArrivalTimes` prints one moment for each stop, each after the one
  -- before by the minutes of service and the drive between them. The last is the end time if the
  -- anchor is "end" and there is an end time, and otherwise the first is the start time. Whatever
  -- the anchor, it reports an overrun exactly if there is an end time and the start with all
  -- services and drives is after it.
  pub compute_arrival_times_lem :
      (start_time : String) (service_minutes : ℕ) (end_time anchor : String) (legs : List F)
      → service_minutes ≤ 153722867
      → All (λ leg. IsNegatable (c.duration leg)) legs
      → IsScheduled start_time service_minutes end_time anchor legs
          (compute_arrival_times c start_time service_minutes end_time anchor legs)
  unfolding IsScheduled compute_arrival_times
  compute_arrival_times_lem start_time service_minutes end_time anchor legs few h =
      let start = or_zero_time c (c.parse start_time) in
      let service = pos (service_minutes * 60000000000) in
      let exact : service_of service_minutes ≡ service =
        wrapped_below (service_minutes * 60000000000) (omega arith) in
      (
        (planned c start (service_of service_minutes) (end_of c end_time) (anchor == "end") legs).0,
        refl,
        rw exact
            (planned_lem start service (end_of c end_time) (anchor == "end") legs (omega arith) h),
      )
