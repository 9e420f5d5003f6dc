-- ===== src/Tests/Places.antt =====
-- `SolveWaypoints` on three waypoints that are apart.
use mop_backend_api.Base.{
  ℕ, ◌≡◌, refl, List, [], ◌∷◌, some, true, false, Bool-cases, arith, inl, inr, ◌==◌, ◌&&◌,
}
use mop_backend_api.Base.Int.{ℤ, pos, ◌-ℤ◌}
use mop_backend_api.Tsp.Exact.{Exact, fin, num, exact_float}
use mop_backend_api.Tsp.Cost.{Matrix}
use mop_backend_api.Tsp.Legs.{Waypoint, co_located}
use mop_backend_api.Tsp.Valhalla.{
  Reply, by_time, build_matrix, fill_cells, set_entry, cost_of, matrix_of, try_radii,
  has_unreachable_pair, rows_have_unreachable, row_has_unreachable,
}
use mop_backend_api.Tsp.Waypoints.{reordered, co_located_at, solve_waypoints}
use mop_backend_api.Tsp.Waypoints.Laws.{IsSolved, solve_waypoints_total}
use mop_backend_api.Tests.Matrices.{IsFinite, finite-Reachable, finite-Bounded, finite-Bounded_back}
use mop_backend_api.Tests.Waypoints.{distances, at}

abbrev pub reply : (from to time : ℕ) → Reply Exact
reply from to time = record { from_index = from; to_index = to; distance = num 1; time = num time }

abbrev pub replies : List (Reply Exact)
replies = reply 0 1 9 ∷ reply 0 2 2 ∷ reply 1 0 4 ∷ reply 1 2 1 ∷ reply 2 0 3 ∷ reply 2 1 1 ∷ []

abbrev places : List (Waypoint Exact)
places = at 55 12 ∷ at 57 9 ∷ at 56 10 ∷ []

abbrev matrix : Matrix Exact
matrix = matrix_of 3 (co_located_at distances places) by_time replies

matrix_built :
    build_matrix (λ radius. some replies) 3 (co_located_at distances places) by_time ≡ some matrix
unfolding build_matrix matrix_of try_radii fill_cells set_entry cost_of has_unreachable_pair
    rows_have_unreachable row_has_unreachable co_located_at co_located ◌-ℤ◌
matrix_built = refl

pub set_entry-IsFinite :
    (n : ℕ) (cell : ℕ → ℕ → Exact) (a b : ℕ) (t : ℤ)
    → IsFinite (record { size = n; cell = cell })
    → IsFinite (record { size = n; cell = set_entry cell a b (fin t) })
unfolding set_entry
set_entry-IsFinite n cell a b t f i j = elim (Bool-cases (i == a && j == b)) [
  | inl e ↦ (t, rw e refl)
  | inr e ↦ (let (z, q) = f i j in (z, rw e q))
]

matrix-IsFinite : IsFinite matrix
unfolding matrix_of fill_cells cost_of co_located_at co_located ◌-ℤ◌
matrix-IsFinite = set_entry-IsFinite 3 _ 2 1 (pos 1) (
    set_entry-IsFinite 3 _ 2 0 (pos 3) (
      set_entry-IsFinite 3 _ 1 2 (pos 1) (
        set_entry-IsFinite 3 _ 1 0 (pos 4) (
          set_entry-IsFinite 3 _ 0 2 (pos 2)
            (set_entry-IsFinite 3 _ 0 1 (pos 9) (λ i j. (pos 0, refl)))))))

solve_waypoints_total_example :
    (out : List (Waypoint Exact)) × (solve_waypoints distances
        (λ radius. some replies)
        by_time
        28
        places
        true
        false
      ≡ reordered out)
    × IsSolved distances matrix true false places out
solve_waypoints_total_example =
    solve_waypoints_total distances (λ radius. some replies) by_time 28 places true false matrix
      matrix_built (omega arith) (finite-Reachable matrix matrix-IsFinite)
      (finite-Bounded matrix matrix-IsFinite) (finite-Bounded_back matrix matrix-IsFinite)
      (omega arith)
