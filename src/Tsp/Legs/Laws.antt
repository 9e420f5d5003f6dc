-- ===== src/Tsp/Legs/Laws.antt =====
-- Collapsing waypoints and expanding the legs again.
use Prim.Native.String.{String}
use mop_backend_api.Base.{
  ℕ, suc, ◌-◌, ◌≤◌, ◌≡◌, refl, ap, subst, ◌∙◌, true, false, List, [], ◌∷◌, ◌++◌, Option, none, some,
  map, length, ltb, if◌then◌else◌, ◌⊎◌, inl, inr, Bool-cases, Option-cases, arith,
}
use mop_backend_api.Tsp.Float.{Float}
use mop_backend_api.Tsp.Legs.{
  Waypoint, Distances, Leg, Trip, RouteResult, Outcome, failed, routed, is_repeat, collapse_from,
  collapse_consecutive, expand_legs, route_geometry, or_panic, result_of, expand_trip, route_of,
  no_trip,
}
use mop_backend_api.Tsp.Legs.Expand.{IsClimb, moving_legs, expand_from_total}

-- what is kept from a list of kept waypoints on
pub IsCollapsed :
    {F : Type 0} → (unique ws : List (Waypoint F)) → List (Waypoint F) → List ℕ → Type 0
IsCollapsed unique ws kept reps =
    (length reps ≡ length ws)
    × IsClimb (length unique - 1) (length kept - 1) reps
    × (1 ≤ length kept)

length_snoc : {A : Type 0} (xs : List A) (x : A) → length (xs ++ x ∷ []) ≡ suc (length xs)
length_snoc [] x = refl
length_snoc (y ∷ xs) x = ap suc (length_snoc xs x)

module _ {F : Type 0} ⦃o : Float F⦄ (d : Distances F) where
  next_kept : List (Waypoint F) → Waypoint F → List (Waypoint F)
  next_kept unique w = if is_repeat d unique w then unique else unique ++ w ∷ []

  next_length :
      (unique : List (Waypoint F)) (w : Waypoint F)
      → (length (next_kept unique w) ≡ length unique)
        ⊎ (length (next_kept unique w) ≡ suc (length unique))
  unfolding next_kept
  next_length unique w =
      elim (is_repeat d unique w)
        as (λ b.
          let u = if b then unique else unique ++ w ∷ [] in
          (length u ≡ length unique) ⊎ (length u ≡ suc (length unique))) [
            | true ↦ inl refl
            | false ↦ inr (length_snoc unique w)
          ]

  collapse_from_lem :
      (unique ws : List (Waypoint F))
      → 1 ≤ length unique
      → let (kept, reps) = collapse_from d unique ws in IsCollapsed unique ws kept reps
  unfolding collapse_from IsCollapsed next_kept
  collapse_from_lem unique [] h = (refl, refl, h)
  collapse_from_lem unique (w ∷ ws) h =
      let step = next_length unique w in
      let (len, climb, one) = collapse_from_lem (next_kept unique w) ws (ground arith) in
      (ap suc len, (ground arith, climb), one)

  collapse_lem :
      (w : Waypoint F) (ws : List (Waypoint F))
      → let (kept, reps) = collapse_consecutive d (w ∷ ws) in
        (rs : List ℕ) × (reps ≡ 0 ∷ rs)
        × (length rs ≡ length ws)
        × IsClimb 0 (length kept - 1) rs
        × (1 ≤ length kept)
  unfolding collapse_consecutive collapse_from IsCollapsed is_repeat
  collapse_lem w ws =
      let (len, climb, one) = collapse_from_lem (w ∷ []) ws (omega arith) in
      ((collapse_from d (w ∷ []) ws).1, refl, len, climb, one)

  -- a leg for each pair of waypoints, and the moving ones the legs that were given, in their order
  pub record IsWhole (reps : List ℕ) (pairs : ℕ) (geometry : List String) (times : List F)
      (g : List String) (t : List F) : Type 0 where
    pub geometry_size : length g ≡ pairs
    pub times_size : length t ≡ pairs
    pub geometry_kept : moving_legs reps g ≡ geometry
    pub times_kept : moving_legs reps t ≡ times

  -- The legs of the route through the kept waypoints expand, with no index out of range, to a leg
  -- for each pair of the waypoints. Those between two representatives are the given ones, in order.
  pub expand_legs-collapse_consecutive :
      (w : Waypoint F) (ws : List (Waypoint F)) (geometry : List String) (times : List F)
      → let (kept, reps) = collapse_consecutive d (w ∷ ws) in
        suc (length geometry) ≡ length kept
        → suc (length times) ≡ length kept
        → (g : List String) × (t : List F) × (expand_legs d reps geometry times ≡ some (g, t))
          × IsWhole reps (length ws) geometry times g t
  unfolding expand_legs moving_legs
  expand_legs-collapse_consecutive w ws geometry times hg ht =
      let (rs, e, len, climb, one) = collapse_lem w ws in
      let (g, runs_g, (size_g, moves_g)) =
        expand_from_total "" geometry 0 rs (subst (λ n. IsClimb 0 n rs) (omega arith) climb) in
      let (t, runs_t, (size_t, moves_t)) =
        expand_from_total o.zero_f times 0 rs (subst (λ n. IsClimb 0 n rs) (omega arith) climb) in
      (
        g,
        t,
        simp (e, runs_g, runs_t),
        record {
          geometry_size = size_g ∙ len;
          times_size = size_t ∙ len;
          geometry_kept = ap (λ r. moving_legs r g) e ∙ moves_g;
          times_kept = ap (λ r. moving_legs r t) e ∙ moves_t;
        },
      )

  length_shapes :
      {A : Type 0} (f : Leg F → A) (legs : List (Leg F)) → length (map f legs) ≡ length legs
  length_shapes f [] = refl
  length_shapes f (l ∷ legs) = ap suc (length_shapes f legs)

  expand_trip_lem :
      (w : Waypoint F) (ws : List (Waypoint F)) (trip : Trip F)
      → let (kept, reps) = collapse_consecutive d (w ∷ ws) in
        suc (length trip.legs) ≡ length kept
        → (r : RouteResult F) × (expand_trip d reps trip ≡ routed r)
          × IsWhole reps
              (length ws)
              (map (λ l. l.shape) trip.legs)
              (map (λ l. l.time) trip.legs)
              r.geometry
              r.leg_times
  unfolding expand_trip or_panic result_of
  expand_trip_lem w ws trip count =
      let (g, t, runs, whole) =
        expand_legs-collapse_consecutive w ws (map (λ l. l.shape) trip.legs)
          (map (λ l. l.time) trip.legs) (ap suc (length_shapes (λ l. l.shape) trip.legs) ∙ count)
          (ap suc (length_shapes (λ l. l.time) trip.legs) ∙ count) in
      (result_of d trip (g, t), simp (runs), whole)

  -- what `RouteGeometry` may end with: an error of the service, or the legs of its trip
  pub IsRouted :
      (service : List (Waypoint F) → Option (Trip F))
      → (kept : List (Waypoint F)) (reps : List ℕ) (pairs : ℕ) → Outcome (RouteResult F)
      → Type 0
  IsRouted service kept reps pairs out =
      ((out ≡ failed) × (2 ≤ length kept) × (service kept ≡ none))
      ⊎ ((trip : Trip F) × (r : RouteResult F) × (out ≡ routed r)
          × (((length kept ≡ 1) × (trip ≡ no_trip d)) ⊎ (service kept ≡ some trip))
          × IsWhole reps pairs (map (λ l. l.shape) trip.legs) (map (λ l. l.time) trip.legs)
              r.geometry r.leg_times)

  -- With a service that answers one leg for each pair of the places that it is asked for, the geometry
  -- of one waypoint or more has no index out of range: it fails only if the service fails, and
  -- otherwise has a leg for each pair of waypoints, those that move being the service's, in order.
  pub route_geometry_total :
      (service : List (Waypoint F) → Option (Trip F))
      (one_leg_each : (l : List (Waypoint F)) (t : Trip F)
        → service l ≡ some t
        → suc (length t.legs) ≡ length l)
      (w : Waypoint F) (ws : List (Waypoint F))
      → let (kept, reps) = collapse_consecutive d (w ∷ ws) in
        IsRouted service kept reps (length ws) (route_geometry d service (w ∷ ws))
  unfolding route_geometry IsRouted route_of
  route_geometry_total service one_leg_each w ws =
      let (kept, reps) = collapse_consecutive d (w ∷ ws) in
      let (rs, e, len, climb, one) = collapse_lem w ws in
      elim (Bool-cases (ltb (length kept) 2)) [
        | inl small ↦
            (let (r, runs, whole) = expand_trip_lem w ws (no_trip d) (ground arith) in
              inr (no_trip d, r, simp (small, runs), inl (ground arith, refl), whole))
        | inr large ↦ elim (Option-cases (service kept)) [
          | inl fails ↦ inl (simp (large, fails), ground arith, fails)
          | inr (trip, answers) ↦
              (let (r, runs, whole) = expand_trip_lem w ws trip (one_leg_each kept trip answers) in
                inr (trip, r, simp (large, answers, runs), inr answers, whole))
        ]
      ]
