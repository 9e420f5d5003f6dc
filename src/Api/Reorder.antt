-- ===== src/Api/Reorder.antt =====
-- api/v1_routing.go: the swap of two stops of a group, and the numbering of a group's stops.
pub mod Swap
pub mod Fix
use mop_backend_api.Base.{
  ℕ, suc, Bool, true, false, not, ◌&&◌, List, [], ◌∷◌, Option, none, some, ltb, ◌==◌, if◌then◌else◌,
}
use mop_backend_api.Api.Result.{
  Result, ok, err, ◌>>=◌, ◌>>◌, guard, or_fail, head_or_fail, transaction, database, not_found,
  no_stop, end_of_route, boundary, nil_index, not_in_group,
}
use mop_backend_api.Api.Visits.{Visit, Database, deref_uint, in_group, select, stop_nr}
use mop_backend_api.Api.Segments.{
  stop_below, update_visit_value, check_group, handle, Response, unauthorized,
}

pub data Direction : Type 0 where
  up down : Direction

-- the body of the request
pub record ReorderInput : Type 0 where
  pub visit : ℕ
  pub direction : Direction

-- `stop_nr > ?`, which a NULL fails
abbrev pub stop_above : ℕ → Visit → Bool
stop_above x v = elim v.stop_nr [ none ↦ false | some s ↦ ltb x s ]

-- the other visits of the group that come before the stop, or after it
abbrev pub on_side : Direction → (group id stop : ℕ) → Visit → Bool
on_side up group id stop v = in_group group v && (not (v.id == id) && stop_below stop v)
on_side down group id stop v = in_group group v && (not (v.id == id) && stop_above stop v)

abbrev pub with_stop : (stop : ℕ) → Visit → Visit
with_stop stop v = record v { stop_nr = some stop }

-- the last visit of a list with an id, or the one before the list
abbrev pub pulled : (id : ℕ) → Option Visit → List Visit → Option Visit
pulled id o [] = o
pulled id o (v ∷ vs) = pulled id (if v.id == id then some v else o) vs

-- the visits that `fixRouteOrder` appends to `ordered`
abbrev pub not_pulled : (id : ℕ) → List Visit → List Visit
not_pulled id = select (λ v. not (v.id == id))

abbrev pub before_last : Visit → List Visit → List Visit
before_last v [] = v ∷ []
before_last v (w ∷ []) = v ∷ w ∷ []
before_last v (w ∷ u ∷ us) = w ∷ before_last v (u ∷ us)

module _ {S : Type 0} (db : Database S) where
  -- the query for the neighbour
  unfoldable pub neighbour : Direction → (group id stop : ℕ) → S → Option (Option Visit)
  neighbour up group id stop s = db.first_desc (on_side up group id stop) s
  neighbour down group id stop s = db.first_asc (on_side down group id stop) s

  -- the transaction of `ReorderVisit`
  unfoldable pub reorder_body : (user group : ℕ) → ReorderInput → S → Result S
  reorder_body user group input s = do
    found ← or_fail (db.find (λ v. in_group group v && v.id == input.visit) s) database
    v ← head_or_fail found not_found
    stop ← or_fail v.stop_nr no_stop
    answer ← or_fail (neighbour input.direction group v.id stop s) database
    other ← or_fail answer end_of_route
    guard (deref_uint v.segment_index == deref_uint other.segment_index) boundary
    other_stop ← or_fail other.stop_nr nil_index
    logged ← update_visit_value db v.id (some other_stop) user stop_nr s
    both ← update_visit_value db other.id (some stop) user stop_nr logged
    parked ← or_fail (db.update (λ w. w.id == v.id) (with_stop 0) both) database
    moved ← or_fail (db.update (λ w. w.id == other.id) (with_stop stop) parked) database
    swapped ← or_fail (db.update (λ w. w.id == v.id) (with_stop other_stop) moved) database
    check_group db group swapped

  unfoldable pub reorder_visit :
      (user group : Option ℕ) → (input : Option ReorderInput) → S → Response × S
  unfolding handle
  reorder_visit = handle unauthorized reorder_body

  -- the last loop of `fixRouteOrder`, from a stop on
  unfoldable pub renumber : (stop : ℕ) → List Visit → S → Result S
  renumber stop [] s = ok s
  renumber stop (v ∷ vs) s =
      or_fail (db.update (λ w. w.id == v.id) (with_stop stop) s) database >>= renumber (suc stop) vs

  unfoldable pub fix_route_order : (group inserted : ℕ) → S → Result S
  fix_route_order group inserted s = do
    visits ← or_fail (db.find_asc (in_group group) s) database
    v ← or_fail (pulled inserted none visits) not_in_group
    renumber 0 (before_last v (not_pulled inserted visits)) s
