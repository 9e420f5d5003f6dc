-- ===== src/Api/Optimise/Solver.antt =====
-- `optimizeSegmented` of api/v1_routing.go on its calls of `SolveWaypoints`: the waypoints of a segment,
-- and the ids that are read from the answer.
use Prim.Native.String.{String}
use mathlib.Core.List.{Perm}
use mathlib.Core.List.Perm
use mop_backend_api.Base.{
  ℕ, ◌^◌, ◌≤◌, ◌<◌, ◌≡◌, refl, sym, ◌∙◌, ap, subst, Bool, true, false, not, List, [], ◌∷◌, Option,
  none, some, map, length, last?, All, arith,
}
use mop_backend_api.Tsp.Float.{Float}
use mop_backend_api.Tsp.Cost.{Matrix, IsRoute}
use mop_backend_api.Tsp.Legs.{Waypoint, Distances}
use mop_backend_api.Tsp.Nearest.Laws.{Reachable}
use mop_backend_api.Tsp.Valhalla.{Reply, Mode, build_matrix, build_matrix-Connected}
use mop_backend_api.Tsp.Solve.{reverse_matrix, solve_order}
use mop_backend_api.Tsp.Solve.Laws.{Bounded}
use mop_backend_api.Tsp.Solve.Pair.{solve_order_pair}
use mop_backend_api.Tsp.Waypoints.{
  Reordered, too_few, no_matrix, no_order, reordered, place_all, co_located_at, solve_waypoints,
}
use mop_backend_api.Tsp.Waypoints.Laws.{solve_waypoints_total}
use mop_backend_api.Tsp.Waypoints.Same.{placed-Perm}
use mop_backend_api.Api.Visits.{Visit}
use mop_backend_api.Api.Rows.{ids_of}
use mop_backend_api.Api.Optimise.{group_segments, borrow_anchors, optimize_segmented}
use mop_backend_api.Api.Optimise.Same.{Solves, SolvesAll, optimized-Perm}

-- What the code uses of the package strconv: the coordinates of a visit and the label of its stop, and
-- `FormatUint`, with the number that such a text is of, which finds it in `byID`.
pub record Texts (F : Type 0) : Type 0 where
  pub latitude : Visit → F
  pub longitude : Visit → F
  pub label : Visit → String
  pub print : ℕ → String
  pub read : String → ℕ
  pub read_print : (n : ℕ) → read (print n) ≡ n

module _ {F : Type 0} (t : Texts F) where
  abbrev pub waypoint_of : Visit → Waypoint F
  waypoint_of v = record {
    id = t.print v.id;
    label = t.label v;
    lat = t.latitude v;
    lon = t.longitude v;
  }

  abbrev pub id_of : Waypoint F → ℕ
  id_of w = t.read w.id

  -- `none`: `SolveWaypoints` has returned an error, or not returned
  abbrev pub solved_ids : Reordered F → Option (List ℕ)
  solved_ids too_few = none
  solved_ids no_matrix = none
  solved_ids no_order = none
  solved_ids (reordered out) = some (map id_of out)

module _ {F : Type 0} ⦃o : Float F⦄ (t : Texts F) (d : Distances F)
    (service : List (Waypoint F) → ℕ → Option (List (Reply F))) (mode : Mode) (fuel : ℕ) where
  -- the call for a segment; the service answers for the waypoints and a radius
  unfoldable pub solve_segment : List Visit → (fixed_end : Bool) → Option (List ℕ)
  solve_segment s fixed_end =
      let ws = map (waypoint_of t) s in
      solved_ids t (solve_waypoints d (service ws) mode fuel ws true fixed_end)

  -- What `SolveWaypoints` needs for a segment: a matrix, in which for three visits or more every cost is
  -- finite and no route overflows, and fuel.
  pub record IsSolvable (s : List Visit) : Type 0 where
    pub matrix : Matrix F
    pub built :
        build_matrix
          (service (map (waypoint_of t) s))
          (length (map (waypoint_of t) s))
          (co_located_at d (map (waypoint_of t) s))
          mode
        ≡ some matrix
    pub reachable : 3 ≤ length s → Reachable matrix
    pub bounded : 3 ≤ length s → Bounded matrix
    pub bounded_back : 3 ≤ length s → Bounded (reverse_matrix matrix)
    pub enough : length s ^ length s < fuel

  length-waypoints : (s : List Visit) → length (map (waypoint_of t) s) ≡ length s
  length-waypoints [] = refl
  length-waypoints (v ∷ s) = let rest = length-waypoints s in omega arith

  ids-waypoints : (s : List Visit) → map (id_of t) (map (waypoint_of t) s) ≡ ids_of s
  ids-waypoints [] = refl
  ids-waypoints (v ∷ s) = rw (t.read_print v.id, ids-waypoints s) refl

  abbrev image : {A : Type 0} → (A → ℕ) → Option A → Option ℕ
  image f none = none
  image f (some x) = some (f x)

  last?-map : {A : Type 0} (f : A → ℕ) (l : List A) → image f (last? l) ≡ last? (map f l)
  last?-map f [] = refl
  last?-map f (x ∷ []) = refl
  last?-map f (x ∷ y ∷ l) = last?-map f (y ∷ l)

  solvable_long :
      (s : List Visit) (fixed_end : Bool)
      → 3 ≤ length s
      → IsSolvable s
      → Solves solve_segment s fixed_end
  unfolding solve_segment
  solvable_long s fixed_end big h =
      let ws = map (waypoint_of t) s in
      let same = length-waypoints s in
      let (out, runs, solved) =
        solve_waypoints_total d (service ws) mode fuel ws true fixed_end h.matrix h.built
          (omega arith) (h.reachable big) (h.bounded big) (h.bounded_back big)
          (subst (λ n. n ^ n < fuel) (sym same) h.enough) in
      let (size, connected) =
        build_matrix-Connected (service ws) (length ws) (co_located_at d ws) mode h.matrix
          h.built in
      (
        map (id_of t) out,
        ap (solved_ids t) runs,
        subst (Perm (map (id_of t) out)) (ids-waypoints s) (
            placed-Perm (id_of t) 0 ws out solved.order
              (subst (λ n. IsRoute n solved.order) size solved.answer.route) solved.placed),
        λ fixed.
            sym (last?-map (id_of t) out)
            ∙ ap (image (id_of t)) (solved.last fixed)
            ∙ last?-map (id_of t) ws
            ∙ ap last? (ids-waypoints s),
      )

  order_pair :
      (m : Matrix F) (fixed_end : Bool)
      → m.size ≡ 2
      → solve_order m fuel true fixed_end ≡ some (0 ∷ 1 ∷ [])
  order_pair m true two = (solve_order_pair m fuel two).1
  order_pair m false two = (solve_order_pair m fuel two).2

  waypoints_pair :
      (v w : Waypoint F) (fixed_end : Bool) (m : Matrix F)
      → build_matrix (service (v ∷ w ∷ [])) 2 (co_located_at d (v ∷ w ∷ [])) mode ≡ some m
      → solve_waypoints d (service (v ∷ w ∷ [])) mode fuel (v ∷ w ∷ []) true fixed_end
        ≡ reordered (v ∷ w ∷ [])
  unfolding solve_waypoints place_all
  waypoints_pair v w fixed_end m built =
      let (two, connected) =
        build_matrix-Connected (service (v ∷ w ∷ [])) 2 (co_located_at d (v ∷ w ∷ [])) mode m
          built in
      let runs = order_pair m fixed_end two in simp (built, runs)

  solvable_pair :
      (a b : Visit) (fixed_end : Bool)
      → IsSolvable (a ∷ b ∷ [])
      → Solves solve_segment (a ∷ b ∷ []) fixed_end
  unfolding solve_segment
  solvable_pair a b fixed_end h = (
    ids_of (a ∷ b ∷ []),
    ap (solved_ids t)
          (waypoints_pair (waypoint_of t a) (waypoint_of t b) fixed_end h.matrix h.built)
        ∙ ap some (ids-waypoints (a ∷ b ∷ [])),
    Perm.refl (ids_of (a ∷ b ∷ [])),
    λ fixed. refl,
  )

  solvable-Solves :
      (s : List Visit) (fixed_end : Bool)
      → IsSolvable s
      → 2 ≤ length s
      → Solves solve_segment s fixed_end
  solvable-Solves [] fixed_end h two = absurd (omega arith)
  solvable-Solves (a ∷ []) fixed_end h two = absurd (omega arith)
  solvable-Solves (a ∷ b ∷ []) fixed_end h two = solvable_pair a b fixed_end h
  solvable-Solves (a ∷ b ∷ c ∷ s) fixed_end h two =
      solvable_long (a ∷ b ∷ c ∷ s) fixed_end (omega arith) h

  -- each segment of two visits or more can be solved
  abbrev pub AllSolvable : List (List Visit × Bool) → Type 0
  AllSolvable segs = All (λ (s, is_last). 2 ≤ length s → IsSolvable s) segs

  all-SolvesAll :
      (segs : List (List Visit × Bool)) → AllSolvable segs → SolvesAll solve_segment segs
  all-SolvesAll [] h = tt
  all-SolvesAll ((s, is_last) ∷ segs) h =
      (λ two. solvable-Solves s (not is_last) (h.0 two) two, all-SolvesAll segs h.1)

  -- If for each segment of two visits or more, anchor included, `BuildMatrix` returns a matrix, in which
  -- for three visits or more every cost is finite and no route overflows, and the fuel of the search
  -- is enough, then `optimizeSegmented`, which calls `SolveWaypoints` for these segments, returns the
  -- visits of the group, in whatever order, each id as often as it was there.
  pub optimize_segmented-Perm :
      (sorted : List Visit)
      → AllSolvable (borrow_anchors (group_segments sorted))
      → Perm
          (ids_of (optimize_segmented solve_segment (borrow_anchors (group_segments sorted))))
          (ids_of sorted)
  optimize_segmented-Perm sorted h =
      optimized-Perm solve_segment sorted (all-SolvesAll (borrow_anchors (group_segments sorted)) h)
