-- ===== src/Api/Steps.antt =====
-- The calls of api/v1_routing.go that change the order or the segments of groups, one after the other:
-- `SplitSegment`, `JoinSegment` and `ReorderVisit`, by any users and for any groups.
pub mod Kept
pub mod Sound
use mop_backend_api.Base.{
  ℕ, ◌≡◌, ◌≢◌, refl, sym, ◌∙◌, ap, subst, Bool, true, false, ◌&&◌, List, [], ◌∷◌, Option, none,
  some, ◌==◌, if◌then◌else◌, All, Distinct, map, arith, ◌⊎◌, inl, inr, Bool-cases, Option-cases,
}
use mop_backend_api.Api.Visits.{Visit, Database, in_group, select, rewrite, Among}
use mop_backend_api.Api.Rows.{
  ids_of, IsAmong, IsAmong-refl, Among-select, select_yes, select_no, select_own, head_eq,
}
use mop_backend_api.Api.Segments.{
  segments_valid, stop_from, from_stop, split_segment, join_segment, index_up, index_down,
}
use mop_backend_api.Api.Segments.Changes.{
  IsChecked, IsFound, IsShifted, HandleOutcome, split_segment_effect, join_segment_effect,
}
use mop_backend_api.Api.Reorder.{
  Direction, up, down, ReorderInput, on_side, reorder_visit, with_stop,
}
use mop_backend_api.Api.Reorder.Swap.{IsNeighbour, IsSwapped, exchanged, reorder_visit_effect}

module _ {S : Type 0} (db : Database S) where
  -- one call, with any answer
  pub data Step : S → S → Type 0 where
    split : (user group visit : Option ℕ) (s : S) → Step s (split_segment db user group visit s).1
    join : (user group visit : Option ℕ) (s : S) → Step s (join_segment db user group visit s).1
    reorder :
        (user group : Option ℕ) (input : Option ReorderInput) (s : S)
        → Step s (reorder_visit db user group input s).1

  -- any number of calls
  pub data Reach (s : S) : S → Type 0 where
    here : Reach s s
    more : {t u : S} → Reach s t → Step t u → Reach s u

  -- The ids are distinct, and the segments of every group are in order.
  pub record IsSound (s : S) : Type 0 where
    pub keys : Distinct (ids_of (db.visits s))
    pub segments : (h : ℕ) → segments_valid (db.sort (select (in_group h) (db.visits s))) ≡ true
