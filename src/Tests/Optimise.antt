-- ===== src/Tests/Optimise.antt =====
-- A group of two segments through `optimizeSegmented`.
use mathlib.Core.List.{Perm}
use mop_backend_api.Base.{
  zero, suc, ◌+◌, ap, ltb, length, map, if◌then◌else◌, arith, ℕ, ◌≡◌, refl, Bool, List, [], ◌∷◌,
  Option, none, some,
}
use mop_backend_api.Api.Visits.{Visit, deref_uint}
use mop_backend_api.Api.Rows.{ids_of}
use mop_backend_api.Api.Optimise.{
  group_segments, borrow_anchors, solved_segment, optimize_segment, optimize_segmented,
}
use mop_backend_api.Api.Optimise.Partition.{concat, group_segments-Perm}
use mop_backend_api.Api.Optimise.Solver.{
  Texts, waypoint_of, solve_segment, IsSolvable, AllSolvable, optimize_segmented-Perm,
}
use mop_backend_api.Base.Int.{pos, ◌-ℤ◌}
use mop_backend_api.Tsp.Exact.{Exact, num, exact_float}
use mop_backend_api.Tsp.Cost.{Matrix}
use mop_backend_api.Tsp.Legs.{Waypoint, co_located}
use mop_backend_api.Tsp.Valhalla.{
  Reply, by_time, build_matrix, fill_cells, set_entry, cost_of, matrix_of, try_radii,
  has_unreachable_pair, rows_have_unreachable, row_has_unreachable,
}
use mop_backend_api.Tsp.Waypoints.{co_located_at}
use mop_backend_api.Tests.Matrices.{IsFinite, finite-Reachable, finite-Bounded, finite-Bounded_back}
use mop_backend_api.Tests.Waypoints.{distances}
use mop_backend_api.Tests.Places.{reply, replies, set_entry-IsFinite}
use Prim.Native.String as Strings
use Prim.Native.String.{String}

abbrev part : (id stop segment : ℕ) → Visit
part id stop segment = record {
  id = id;
  user_id = 4;
  visit_date = 20;
  visit_time = 8;
  status_id = 2;
  group_id = some 9;
  segment_index = some segment;
  stop_nr = some stop;
}

-- the second visit of the first segment stands among those of the second
abbrev two_segments : List Visit
two_segments = part 11 0 0 ∷ part 13 1 1 ∷ part 12 2 0 ∷ part 14 3 1 ∷ []

abbrev unmoved : List Visit → (fixed_end : Bool) → Option (List ℕ)
unmoved s fixed_end = some (ids_of s)

-- the segments, one after the other
unmoved_order :
    ids_of (optimize_segmented unmoved (borrow_anchors (group_segments two_segments)))
    ≡ 11 ∷ 12 ∷ 13 ∷ 14 ∷ []
unfolding group_segments optimize_segmented optimize_segment solved_segment deref_uint
unmoved_order = refl

-- a failed solver leaves the anchor in twice
failed_order :
    ids_of (optimize_segmented (λ s fixed_end. none) (borrow_anchors (group_segments two_segments)))
    ≡ 11 ∷ 12 ∷ 13 ∷ 13 ∷ 14 ∷ []
unfolding group_segments optimize_segmented optimize_segment solved_segment deref_uint
failed_order = refl

group_segments-Perm_example : Perm (concat (group_segments two_segments)) two_segments
group_segments-Perm_example = group_segments-Perm two_segments

-- numbers as texts of that length
abbrev strokes : ℕ → String
strokes zero = ""
strokes (suc n) = Strings.◌∷◌ "I" (strokes n)

abbrev strokes_of : String → ℕ
strokes_of Strings.[] = 0
strokes_of (Strings.◌∷◌ c s) = suc (strokes_of s)

strokes_read : (n : ℕ) → strokes_of (strokes n) ≡ n
strokes_read zero = refl
strokes_read (suc n) = ap (λ k. suc k) (strokes_read n)

abbrev texts : Texts Exact
texts = record {
  latitude = λ v. num (50 + v.id);
  longitude = λ v. num 9;
  label = λ v. "0";
  print = strokes;
  read = strokes_of;
  read_print = strokes_read;
}

-- three places, or two
abbrev service : List (Waypoint Exact) → ℕ → Option (List (Reply Exact))
service ws radius =
    if ltb (length ws) 3 then some (reply 0 1 7 ∷ reply 1 0 7 ∷ []) else some replies

abbrev solve : List Visit → (fixed_end : Bool) → Option (List ℕ)
solve = solve_segment texts distances service by_time 28

abbrev first_segment : List Visit
first_segment = part 11 0 0 ∷ part 12 2 0 ∷ part 13 1 1 ∷ []

abbrev second_segment : List Visit
second_segment = part 13 1 1 ∷ part 14 3 1 ∷ []

abbrev first_matrix : Matrix Exact
first_matrix =
    matrix_of 3 (co_located_at distances (map (waypoint_of texts) first_segment)) by_time replies

first_built :
    build_matrix
      (service (map (waypoint_of texts) first_segment))
      3
      (co_located_at distances (map (waypoint_of texts) first_segment))
      by_time
    ≡ some first_matrix
unfolding build_matrix matrix_of try_radii fill_cells set_entry cost_of has_unreachable_pair
    rows_have_unreachable row_has_unreachable co_located_at co_located ◌-ℤ◌
first_built = refl

abbrev second_matrix : Matrix Exact
second_matrix =
    matrix_of 2 (co_located_at distances (map (waypoint_of texts) second_segment)) by_time
      (reply 0 1 7 ∷ reply 1 0 7 ∷ [])

second_built :
    build_matrix
      (service (map (waypoint_of texts) second_segment))
      2
      (co_located_at distances (map (waypoint_of texts) second_segment))
      by_time
    ≡ some second_matrix
unfolding build_matrix matrix_of try_radii fill_cells set_entry cost_of has_unreachable_pair
    rows_have_unreachable row_has_unreachable co_located_at co_located ◌-ℤ◌
second_built = refl

first-IsFinite : IsFinite first_matrix
unfolding matrix_of fill_cells cost_of co_located_at co_located ◌-ℤ◌
first-IsFinite = set_entry-IsFinite 3 _ 2 1 (pos 1) (
    set_entry-IsFinite 3 _ 2 0 (pos 3) (
      set_entry-IsFinite 3 _ 1 2 (pos 1) (
        set_entry-IsFinite 3 _ 1 0 (pos 4) (
          set_entry-IsFinite 3 _ 0 2 (pos 2)
            (set_entry-IsFinite 3 _ 0 1 (pos 9) (λ i j. (pos 0, refl)))))))

first-IsSolvable : IsSolvable texts distances service by_time 28 first_segment
first-IsSolvable = record {
  matrix = first_matrix;
  built = first_built;
  reachable = λ big. finite-Reachable first_matrix first-IsFinite;
  bounded = λ big. finite-Bounded first_matrix first-IsFinite;
  bounded_back = λ big. finite-Bounded_back first_matrix first-IsFinite;
  enough = omega arith;
}

second-IsSolvable : IsSolvable texts distances service by_time 28 second_segment
second-IsSolvable = record {
  matrix = second_matrix;
  built = second_built;
  reachable = λ big. absurd (omega arith);
  bounded = λ big. absurd (omega arith);
  bounded_back = λ big. absurd (omega arith);
  enough = omega arith;
}

segments-AllSolvable :
    AllSolvable texts distances service by_time 28 (borrow_anchors (group_segments two_segments))
unfolding group_segments deref_uint
segments-AllSolvable = (λ two. first-IsSolvable, (λ two. second-IsSolvable, tt))

optimize_segmented-Perm_example :
    Perm
      (ids_of (optimize_segmented solve (borrow_anchors (group_segments two_segments))))
      (11 ∷ 13 ∷ 12 ∷ 14 ∷ [])
optimize_segmented-Perm_example =
    optimize_segmented-Perm texts distances service by_time 28 two_segments segments-AllSolvable
