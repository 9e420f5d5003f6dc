-- ===== src/Tsp/Waypoints.antt =====
-- `SolveWaypoints` of internal/tsp/tsp_solver.go: the matrix, the order, and the waypoints in it.
pub mod Laws
pub mod Same
use mop_backend_api.Base.{
  ℕ, Bool, false, List, [], ◌∷◌, Option, none, some, length, get_elem?, ltb, if◌then◌else◌, ◌>>=◌,
}
use mop_backend_api.Tsp.Float.{Float}
use mop_backend_api.Tsp.Cost.{Matrix}
use mop_backend_api.Tsp.Legs.{Waypoint, Distances, place, co_located}
use mop_backend_api.Tsp.Valhalla.{Reply, Mode, build_matrix}
use mop_backend_api.Tsp.Solve.{solve_order}

pub data Reordered (F : Type 0) : Type 0 where
  too_few no_matrix : Reordered F
  -- the fuel of the search is out, or an index is out of range
  no_order : Reordered F
  reordered : List (Waypoint F) → Reordered F

-- `ordered[i] = waypoints[idx]`, over the indices of an order
unfoldable pub place_all {ℓ} : {A : Type ℓ} → List A → List ℕ → Option (List A)
place_all ws [] = some []
place_all ws (i ∷ is) = get_elem? ws i >>= λ w. place_all ws is >>= λ rest. some (w ∷ rest)

module _ {F : Type 0} ⦃o : Float F⦄ (d : Distances F) where
  -- `coLocated` on the locations of two indices
  unfoldable pub co_located_at : List (Waypoint F) → (i j : ℕ) → Bool
  co_located_at ws i j = elim (get_elem? ws i) [
    | none ↦ false
    | some a ↦ elim (get_elem? ws j) [
      | none ↦ false
      | some b ↦ co_located d (place d a) (place d b)
    ]
  ]

  -- the service answers for a snap radius, the fuel is for `twoOpt`
  unfoldable pub solve_waypoints :
      (service : ℕ → Option (List (Reply F))) (mode : Mode) (fuel : ℕ) (ws : List (Waypoint F))
      → (fixed_start fixed_end : Bool) → Reordered F
  solve_waypoints service mode fuel ws fixed_start fixed_end =
      if ltb (length ws) 2
      then too_few
      else elim (build_matrix service (length ws) (co_located_at ws) mode) [
        | none ↦ no_matrix
        | some m ↦ elim (solve_order m fuel fixed_start fixed_end >>= place_all ws) [
          | none ↦ no_order
          | some ordered ↦ reordered ordered
        ]
      ]
