-- ===== src/Api/Move.antt =====
-- `ChangeGroupId` of api/v1_groups.go: a visit moves to another group, or out of its group.
pub mod Effect
use mop_backend_api.Base.{
  ℕ, Bool, true, false, not, ◌&&◌, List, [], ◌∷◌, Option, none, some, ltb, ◌==◌, if◌then◌else◌,
}
use mop_backend_api.Api.Result.{Result, ok, err, ◌>>=◌, ◌>>◌, or_fail, transaction, database}
use mop_backend_api.Api.Visits.{Visit, Database, in_group, group_id}
use mop_backend_api.Api.Segments.{update_visit_value, handle, Response, unverified}
use mop_backend_api.Api.Reorder.{fix_route_order}
use mop_backend_api.Api.Groups.{row_of, next_vacant_group_id}

-- what a moved visit gets
pub record Destination : Type 0 where
  pub group : Option ℕ
  pub date : ℕ
  pub user : ℕ

abbrev pub moved_to : Destination → Visit → Visit
moved_to d v = record v { group_id = d.group; visit_date = d.date; user_id = d.user }

-- another visit of the group
abbrev pub is_sibling : (group visit : ℕ) → Visit → Bool
is_sibling group visit v = in_group group v && not (v.id == visit)

abbrev pub or_kept : {S : Type 0} → S → Option S → S
or_kept s none = s
or_kept s (some s') = s'

-- `in_struct` is the group that the variable `visit` holds after `Updates`, for a group before it and
-- the new one: gorm may have written the new values into it.
module _ {S : Type 0} (db : Database S) (in_struct : Option ℕ → Option ℕ → Option ℕ) where
  -- from the siblings on: those of the first, or a new group
  unfoldable pub beside : Visit → (group : ℕ) → List Visit → S → Result Destination
  beside v group [] s = do
    next ← next_vacant_group_id db s
    ok (record { group = some next; date = v.visit_date; user = v.user_id })
  beside v group (w ∷ ws) s =
      ok (record { group = some group; date = w.visit_date; user = w.user_id })

  unfoldable pub destination : Visit → (visit : ℕ) → (target : Option ℕ) → S → Result Destination
  destination v visit none s = ok (record { group = none; date = v.visit_date; user = v.user_id })
  destination v visit (some group) s = do
    siblings ← or_fail (db.find (is_sibling group visit) s) database
    beside v group siblings s

  -- an error of this update is only logged
  unfoldable pub moved_row : Visit → Destination → S → S
  moved_row v d s = or_kept s (db.update (λ w. w.id == v.id) (moved_to d) s)

  unfoldable pub resequenced : Option ℕ → (visit : ℕ) → S → Result S
  resequenced none visit s = ok s
  resequenced (some group) visit s = fix_route_order db group visit s

  -- `clearGroupRoute` for a group above 0
  unfoldable pub old_cleared : Option ℕ → S → Result S
  old_cleared none s = ok s
  old_cleared (some group) s =
      if ltb 0 group then or_fail (db.delete_route group s) database else ok s

  unfoldable pub new_cleared : Option ℕ → S → Result S
  new_cleared none s = ok s
  new_cleared (some group) s = or_fail (db.delete_route group s) database

  -- the transaction of `ChangeGroupId`
  unfoldable pub change_group_body : (user visit : ℕ) → (target : Option ℕ) → S → Result S
  change_group_body user visit target s = do
    v ← row_of db visit s
    d ← destination v visit target s
    logged ← update_visit_value db visit d.group user group_id s
    placed ← resequenced d.group visit (moved_row v d logged)
    cleared ← old_cleared (in_struct v.group_id d.group) placed
    new_cleared d.group cleared

  -- The input is `none` where the body cannot be bound.
  unfoldable pub change_group_id :
      (user visit : Option ℕ) → (target : Option (Option ℕ)) → S → Response × S
  unfolding handle
  change_group_id = handle unverified change_group_body
