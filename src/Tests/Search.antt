-- ===== src/Tests/Search.antt =====
-- The searches of larger problems, and `solveOrder`, on small matrices.
use mop_backend_api.Base.{
  ℕ, ◌≡◌, ◌≤◌, ◌<◌, refl, get_elem?, last?, List, [], ◌∷◌, Option, none, some, true, false, Bool,
  arith, leb, if◌then◌else◌,
}
use mop_backend_api.Tsp.Exact.{Exact, num, exact_float}
use mop_backend_api.Tsp.Cost.{Matrix, IsRoute}
use mop_backend_api.Tsp.TwoOpt.{Tour, two_opt, last_modifiable}
use mop_backend_api.Tsp.TwoOpt.Laws.{Keeps}
use mop_backend_api.Tsp.TwoOpt.Local.{IsSettled, two_opt_lem}
use mop_backend_api.Tsp.Nearest.{nearest_neighbor}
use mop_backend_api.Tsp.Nearest.Laws.{
  IsGreedy, start_visited, nearest_neighbor_free, nearest_neighbor_fixed,
}
use mop_backend_api.Tsp.Solve.{solve_order}
use mop_backend_api.Tsp.Solve.Laws.{IsUsable, IsAnswer, solve_order_total}
use mop_backend_api.Tsp.Solve.Pair.{solve_order_pair}
use mop_backend_api.Tsp.Valhalla.{
  Reply, by_time, build_matrix, build_matrix-Connected, fill_cells, set_entry, cost_of, matrix_of,
  try_radii, has_unreachable_pair, rows_have_unreachable, row_has_unreachable,
}
use mop_backend_api.Tsp.Solve.Orders.{Connected}
use mop_backend_api.Tests.Matrices.{
  triangle, slope, slope-Connected, slope-Reachable, slope-IsFinite, finite-Bounded,
  finite-Bounded_back,
}

two_opt_lem_example :
    (t : Tour Exact) × (two_opt triangle 28 (0 ∷ 1 ∷ 2 ∷ []) false ≡ some t)
    × Keeps triangle (0 ∷ 1 ∷ 2 ∷ []) false t
    × ((i j : ℕ) → 1 ≤ i → i < j → j ≤ last_modifiable 3 false → IsSettled triangle t i j)
two_opt_lem_example =
    two_opt_lem triangle (0 ∷ 1 ∷ 2 ∷ []) false 28 (omega arith, (omega arith, (omega arith, tt)))
      (omega arith)

nearest_neighbor_free_example :
    IsRoute 4 (nearest_neighbor (slope 4) 0 none)
    × (get_elem? (nearest_neighbor (slope 4) 0 none) 0 ≡ some 0)
    × ((l : List ℕ) × (nearest_neighbor (slope 4) 0 none ≡ 0 ∷ l)
        × IsGreedy (slope 4) (start_visited (slope 4) 0) 0 l)
nearest_neighbor_free_example = nearest_neighbor_free (slope 4) 0 (slope-Reachable 4) (omega arith)

nearest_neighbor_fixed_example :
    IsRoute 4 (nearest_neighbor (slope 4) 0 (some 3))
    × (get_elem? (nearest_neighbor (slope 4) 0 (some 3)) 0 ≡ some 0)
    × (last? (nearest_neighbor (slope 4) 0 (some 3)) ≡ some 3)
nearest_neighbor_fixed_example =
    nearest_neighbor_fixed (slope 4) 0 (slope-Reachable 4) (omega arith) 3 (omega arith)
      (λ e. absurd (omega arith))

slope-IsUsable : IsUsable (slope 3)
slope-IsUsable = record {
  big = omega arith;
  connected = slope-Connected 3;
  reachable = slope-Reachable 3;
  bounded = finite-Bounded (slope 3) (slope-IsFinite 3);
  bounded_back = finite-Bounded_back (slope 3) (slope-IsFinite 3);
}

solve_order_total_example :
    (l : List ℕ) × (solve_order (slope 3) 28 false true ≡ some l) × IsAnswer (slope 3) false true l
solve_order_total_example = solve_order_total (slope 3) slope-IsUsable 28 false true (omega arith)

solve_order_pair_example :
    (solve_order (slope 2) 1 false true ≡ some (1 ∷ 0 ∷ []))
    × (solve_order (slope 2) 1 true true ≡ some (0 ∷ 1 ∷ []))
    × (solve_order (slope 2) 1 true false ≡ some (0 ∷ 1 ∷ []))
solve_order_pair_example = solve_order_pair (slope 2) 1 refl

-- a service that finds no way between two places unless the radius is 200 or more
abbrev two_places : ℕ → Option (List (Reply Exact))
two_places radius =
    let time = if leb 200 radius then num 7 else num 0 in
    some (
      record { from_index = 0; to_index = 1; distance = num 0; time = time }
      ∷ record { from_index = 1; to_index = 0; distance = num 0; time = time }
      ∷ [])

abbrev apart : (i j : ℕ) → Bool
apart i j = false

abbrev two_far : Matrix Exact
two_far = matrix_of 2 apart by_time (
    record { from_index = 0; to_index = 1; distance = num 0; time = num 7 }
    ∷ record { from_index = 1; to_index = 0; distance = num 0; time = num 7 }
    ∷ [])

built_at_200 : build_matrix two_places 2 apart by_time ≡ some two_far
unfolding build_matrix matrix_of try_radii fill_cells set_entry cost_of has_unreachable_pair
    rows_have_unreachable row_has_unreachable
built_at_200 = refl

build_matrix-Connected_example : (two_far.size ≡ 2) × Connected two_far
build_matrix-Connected_example =
    build_matrix-Connected two_places 2 apart by_time two_far built_at_200
