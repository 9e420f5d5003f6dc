-- ===== src/Tsp/Legs.antt =====
-- Waypoints in one place: `coLocated`, `collapseConsecutive`, `expandLegs` and `RouteGeometry` of
-- internal/tsp/tsp_solver.go. The routing service is a parameter.
pub mod Expand
pub mod Laws
use Prim.Native.String.{String}
use mop_backend_api.Base.{
  ℕ, suc, ◌-◌, Bool, false, ◌&&◌, List, [], ◌∷◌, ◌++◌, Option, none, some, map, length, last?,
  get_elem?, ltb, ◌==◌, if◌then◌else◌, ◌>>=◌,
}
use mop_backend_api.Tsp.Float.{Float, ◌<f◌}

pub record Location (F : Type 0) : Type 0 where
  pub lat : F
  pub lon : F

pub record Waypoint (F : Type 0) : Type 0 where
  pub id : String
  pub label : String
  pub lat : F
  pub lon : F

-- The subtraction, `math.Abs` and the constant `dupeEps`.
pub record Distances (F : Type 0) : Type 0 where
  pub sub : F → F → F
  pub abs : F → F
  pub dupe_eps : F

-- a leg of Valhalla's answer, and its trip
pub record Leg (F : Type 0) : Type 0 where
  pub shape : String
  pub time : F

pub record Trip (F : Type 0) : Type 0 where
  pub legs : List (Leg F)
  pub distance : F
  pub time : F

pub record RouteResult (F : Type 0) : Type 0 where
  pub geometry : List String
  pub leg_times : List F
  pub distance : F
  pub time : F

-- what a call ends with: an error of the service, a panic on an index, or a result
pub data Outcome (A : Type 0) : Type 0 where
  failed panicked : Outcome A
  routed : A → Outcome A

-- The legs from a representative on; `none` is an index out of range.
unfoldable pub expand_from {ℓ} :
    {A : Type ℓ} → (zero : A) → List A → (r : ℕ) → List ℕ → Option (List A)
expand_from z legs r [] = some []
expand_from z legs r (r' ∷ rs) =
    let rest = expand_from z legs r' rs in
    if r == r'
    then rest >>= (λ xs. some (z ∷ xs))
    else get_elem? legs r >>= λ x. rest >>= λ xs. some (x ∷ xs)

unfoldable pub or_panic : {A : Type 0} → Option A → Outcome A
or_panic none = panicked
or_panic (some a) = routed a

module _ {F : Type 0} ⦃o : Float F⦄ (d : Distances F) where
  unfoldable pub co_located : (a b : Location F) → Bool
  co_located a b =
      (d.abs (d.sub a.lat b.lat) <f d.dupe_eps) && (d.abs (d.sub a.lon b.lon) <f d.dupe_eps)

  abbrev pub place : Waypoint F → Location F
  place w = record { lat = w.lat; lon = w.lon }

  -- a waypoint is on top of the last one kept
  unfoldable pub is_repeat : List (Waypoint F) → Waypoint F → Bool
  unfolding co_located
  is_repeat unique w = elim (last? unique) [
    | none ↦ false
    | some u ↦ co_located (place u) (place w)
  ]

  -- the loop, from the waypoints kept so far
  unfoldable pub collapse_from : (unique ws : List (Waypoint F)) → List (Waypoint F) × List ℕ
  unfolding is_repeat
  collapse_from unique [] = (unique, [])
  collapse_from unique (w ∷ ws) =
      let unique' = if is_repeat unique w then unique else unique ++ w ∷ [] in
      let (kept, reps) = collapse_from unique' ws in (kept, (length unique' - 1) ∷ reps)

  unfoldable pub collapse_consecutive : List (Waypoint F) → List (Waypoint F) × List ℕ
  unfolding collapse_from
  collapse_consecutive = collapse_from []

  -- no waypoint at all is a slice of negative length
  unfoldable pub expand_legs : List ℕ → List String → List F → Option (List String × List F)
  unfolding expand_from
  expand_legs [] geometry times = none
  expand_legs (r ∷ rs) geometry times =
      expand_from "" geometry r rs >>= λ g. expand_from o.zero_f times r rs >>= λ t. some (g, t)

  unfoldable pub result_of : Trip F → List String × List F → RouteResult F
  result_of trip (g, t) = record {
    geometry = g;
    leg_times = t;
    distance = trip.distance;
    time = trip.time;
  }

  -- the trip that is made up when every waypoint is in one place
  abbrev pub no_trip : Trip F
  no_trip = record { legs = []; distance = o.zero_f; time = o.zero_f }

  -- the legs of a trip, expanded
  unfoldable pub expand_trip : List ℕ → Trip F → Outcome (RouteResult F)
  expand_trip reps trip = or_panic (
      expand_legs reps (map (λ l. l.shape) trip.legs) (map (λ l. l.time) trip.legs) >>= λ out.
      some (result_of trip out))

  -- from the collapsed waypoints on
  unfoldable pub route_of :
      (service : List (Waypoint F) → Option (Trip F)) (unique : List (Waypoint F)) (reps : List ℕ)
      → Outcome (RouteResult F)
  route_of service unique reps =
      if ltb (length unique) 2
      then expand_trip reps no_trip
      else elim (service unique) [ none ↦ failed | some trip ↦ expand_trip reps trip ]

  unfoldable pub route_geometry :
      (service : List (Waypoint F) → Option (Trip F)) → List (Waypoint F) → Outcome (RouteResult F)
  route_geometry service ws =
      let (unique, reps) = collapse_consecutive ws in route_of service unique reps
