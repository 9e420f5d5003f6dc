-- ===== src/Api/Optimise.antt =====
-- api/v1_routing.go: the segments of a group that is optimised, and `optimizeSegmented`. The answer to its
-- calls of `SolveWaypoints`, the ids of the waypoints in their new order, is a parameter here, which
-- Solver fills.
pub mod Indices
pub mod Partition
pub mod Same
pub mod Solver
use mop_backend_api.Base.{
  ℕ, ◌-◌, Bool, true, false, not, List, [], ◌∷◌, ◌++◌, Option, none, some, map, ltb, leb, ◌==◌,
  if◌then◌else◌, length, take,
}
use mop_backend_api.Api.Visits.{Visit, deref_uint, select}
use mop_backend_api.Api.Groups.{holds}

abbrev pub index_of : Visit → ℕ
index_of v = deref_uint v.segment_index

-- the keys of `byIdx`, in the order in which they are first met
abbrev pub first_met : List ℕ → List Visit → List ℕ
first_met met [] = met
first_met met (v ∷ vs) =
    first_met (if holds met (index_of v) then met else met ++ (index_of v ∷ [])) vs

-- `sort.Slice` on these numbers, which are distinct
abbrev pub insert_index : ℕ → List ℕ → List ℕ
insert_index i [] = i ∷ []
insert_index i (j ∷ js) = let rest = insert_index i js in if ltb i j then i ∷ j ∷ js else j ∷ rest

abbrev pub sort_indices : List ℕ → List ℕ
sort_indices [] = []
sort_indices (i ∷ is) = insert_index i (sort_indices is)

-- `byIdx` of a key
abbrev pub of_index : List Visit → ℕ → List Visit
of_index sorted i = select (λ v. index_of v == i) sorted

-- `groupSegments` without anchors, on the visits sorted by stop
unfoldable pub group_segments : List Visit → List (List Visit)
group_segments sorted = map (of_index sorted) (sort_indices (first_met [] sorted))

-- A segment with the first visit of the next one, which is never empty, and whether it is the last.
abbrev pub borrow_anchors : List (List Visit) → List (List Visit × Bool)
borrow_anchors [] = []
borrow_anchors (s ∷ []) = (s, true) ∷ []
borrow_anchors (s ∷ t ∷ ts) = (s ++ take 1 t, false) ∷ borrow_anchors (t ∷ ts)

-- `models.Visit{}`, which a missing key of a map reads as
abbrev pub no_visit : Visit
no_visit = record {
  id = 0;
  user_id = 0;
  visit_date = 0;
  visit_time = 0;
  status_id = 0;
  group_id = none;
  segment_index = none;
  stop_nr = none;
}

-- `byID`, where a later visit replaces an earlier one
abbrev pub by_id : Visit → List Visit → ℕ → Visit
by_id d [] i = d
by_id d (v ∷ vs) i = by_id (if v.id == i then v else d) vs i

module _ (solve : List Visit → (fixed_end : Bool) → Option (List ℕ)) where
  -- the visits that `optimizeSegmented` appends for a segment
  unfoldable pub solved_segment : List Visit → (is_last : Bool) → Option (List ℕ) → List Visit
  solved_segment s is_last none = s
  solved_segment s is_last (some ids) =
      map (by_id no_visit s) (take (length ids - (if is_last then 0 else 1)) ids)

  unfoldable pub optimize_segment : List Visit → (is_last : Bool) → List Visit
  optimize_segment s is_last =
      if ltb (length s) 2 then s else solved_segment s is_last (solve s (not is_last))

  unfoldable pub optimize_segmented : List (List Visit × Bool) → List Visit
  optimize_segmented [] = []
  optimize_segmented ((s, is_last) ∷ segs) = optimize_segment s is_last ++ optimize_segmented segs
