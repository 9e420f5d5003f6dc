-- ===== src/Tests/Waypoints.antt =====
-- `SolveWaypoints` and `RouteGeometry` on three waypoints, two of them in one place.
use Prim.Native.String.{String}
use mop_backend_api.Base.{
  ℕ, suc, ◌≡◌, refl, subst, sym, length, List, [], ◌∷◌, Option, none, some, arith,
}
use mop_backend_api.Base.Int.{pos, negsuc, ◌-ℤ◌}
use mop_backend_api.Tsp.Exact.{Exact, fin, num, infinite, exact_float}
use mop_backend_api.Tsp.Legs.{
  Waypoint, Distances, Leg, Trip, collapse_consecutive, collapse_from, is_repeat, co_located,
  route_geometry, expand_legs,
}
use mop_backend_api.Tsp.Legs.Laws.{
  IsRouted, IsWhole, route_geometry_total, expand_legs-collapse_consecutive,
}

-- differences of whole numbers; two places are one below a difference of 1
abbrev pub distances : Distances Exact
distances = record {
  sub = λ a b. elim a [ fin x ↦ elim b [ fin y ↦ fin (x -ℤ y) | _ ↦ infinite ] | _ ↦ infinite ];
  abs = λ a. elim a [ fin x ↦ elim x [ pos n ↦ num n | negsuc n ↦ num (suc n) ] | _ ↦ infinite ];
  dupe_eps = num 1;
}

abbrev pub at : (lat lon : ℕ) → Waypoint Exact
at lat lon = record { id = "1"; label = "0"; lat = num lat; lon = num lon }

-- a service with one leg of a time for each place but the first
abbrev legs_of : List (Waypoint Exact) → List (Leg Exact)
legs_of [] = []
legs_of (w ∷ ws) = record { shape = "ab"; time = num 5 } ∷ legs_of ws

abbrev trips : List (Waypoint Exact) → Option (Trip Exact)
trips [] = none
trips (w ∷ ws) = some (record { legs = legs_of ws; distance = num 1; time = num 5 })

legs_of_size : (ws : List (Waypoint Exact)) → length (legs_of ws) ≡ length ws
legs_of_size [] = refl
legs_of_size (w ∷ ws) = let ih = legs_of_size ws in omega arith

one_leg_each :
    (l : List (Waypoint Exact)) (t : Trip Exact) → trips l ≡ some t → suc (length t.legs) ≡ length l
one_leg_each [] t e = absurd (ground arith)
one_leg_each (w ∷ ws) t e =
    let same : record { legs = legs_of ws; distance = num 1; time = num 5 } ≡ t = ground arith in
    subst (λ u. suc (length u.legs) ≡ suc (length ws)) same (let n = legs_of_size ws in omega arith)

-- the second waypoint is on top of the first
abbrev rest : List (Waypoint Exact)
rest = at 55 12 ∷ at 57 9 ∷ []

route_geometry_total_example :
    IsRouted distances trips
      (collapse_consecutive distances (at 55 12 ∷ rest)).0
      (collapse_consecutive distances (at 55 12 ∷ rest)).1
      2
      (route_geometry distances trips (at 55 12 ∷ rest))
route_geometry_total_example = route_geometry_total distances trips one_leg_each (at 55 12) rest

collapsed :
    collapse_consecutive distances (at 55 12 ∷ rest) ≡ ((at 55 12 ∷ at 57 9 ∷ []), (0 ∷ 0 ∷ 1 ∷ []))
unfolding collapse_consecutive collapse_from is_repeat co_located ◌-ℤ◌
collapsed = refl

expand_legs-collapse_consecutive_example :
    (g : List String) × (t : List Exact) × (expand_legs distances
        (collapse_consecutive distances (at 55 12 ∷ rest)).1
        ("ab" ∷ [])
        (num 5 ∷ [])
      ≡ some (g, t))
    × IsWhole distances
        (collapse_consecutive distances (at 55 12 ∷ rest)).1
        2
        ("ab" ∷ [])
        (num 5 ∷ [])
        g
        t
expand_legs-collapse_consecutive_example =
    expand_legs-collapse_consecutive distances (at 55 12) rest ("ab" ∷ []) (num 5 ∷ [])
      (subst (λ c. 2 ≡ length c.0) (sym collapsed) refl)
      (subst (λ c. 2 ≡ length c.0) (sym collapsed) refl)
