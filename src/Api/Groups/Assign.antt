-- ===== src/Api/Groups/Assign.antt =====
-- What `AssignVisitsToGroup` of api/v1_groups.go does, in its transaction.
use mop_backend_api.Base.{
  ℕ, suc, ◌≤◌, ◌≡◌, sym, ◌∙◌, ap, true, List, [], ◌∷◌, ◌==◌, All, Distinct, length, map, arith,
}
use native.Mathlib.Nat.{ℕ_set}
use mop_backend_api.Base.Perms.{All-Perm}
use mop_backend_api.Api.Result.{
  ok, database, missing_ids, >>=-eq-ok, >>-eq-ok, or_fail-eq-ok, guard-eq-ok,
}
use mop_backend_api.Api.Visits.{Visit, Database, in_group, select, deref_uint}
use mop_backend_api.Api.Segments.{segments_valid}
use mop_backend_api.Api.Rows.{ok_eq, ids_of}
use mop_backend_api.Api.Places.{placed}
use mop_backend_api.Api.Groups.{
  first_in_group, id_in, next_vacant_group_id, assign_each, assign_body,
}
use mop_backend_api.Api.Groups.Vacant.{IsVacant, IsVacant-of_next, next_vacant_group_id_lem}
use mop_backend_api.Api.Groups.Ids.{IsPresent, found_all}
use mop_backend_api.Api.Groups.Placed.{assign_each_rows, placed_indices, first_segments_valid}

-- What the transaction leaves for the ids of a request. They are distinct ids of rows, their rows
-- are the stops of a group that was vacant, in the order of the request and in one valid segment,
-- and no other row has changed.
pub record IsAssigned {S : Type 0} (db : Database S) (ids : List ℕ) (s s' : S) : Type 0 where
  pub group : ℕ
  pub numbered : 1 ≤ group
  pub vacant : IsVacant group (db.visits s)
  pub apart : Distinct ids
  pub present : All (IsPresent (db.visits s)) ids
  pub rows : db.visits s' ≡ map (placed (first_in_group group) 0 ids) (db.visits s)
  pub valid : segments_valid (db.sort (select (in_group group) (db.visits s'))) ≡ true
  pub status_logs : db.status_logs s' ≡ db.status_logs s

module _ {S : Type 0} (db : Database S) where
  assign_each_status_logs :
      (group k : ℕ) (ids : List ℕ) (s s' : S)
      → assign_each db group k ids s ≡ ok s'
      → db.status_logs s' ≡ db.status_logs s
  unfolding assign_each
  assign_each_status_logs group k [] s s' h = ap (λ u. db.status_logs u) (sym (ok_eq h))
  assign_each_status_logs group k (i ∷ is) s s' h =
      let (s₁, e₁, h₁) = >>=-eq-ok _ _ h in
      assign_each_status_logs group (suc k) is s₁ s' h₁
      ∙ db.update_status_logs _ _ s s₁ (or_fail-eq-ok _ database e₁)

  group_valid :
      (group : ℕ) (ids : List ℕ) (rows : List Visit)
      → IsVacant group rows
      → segments_valid
          (db.sort (select (in_group group) (map (placed (first_in_group group) 0 ids) rows)))
        ≡ true
  group_valid group ids rows h =
      let l = select (in_group group) (map (placed (first_in_group group) 0 ids) rows) in
      first_segments_valid (db.sort l) (
        All-Perm (λ v. ℕ_set (deref_uint v.segment_index) 0) (db.sort l) l (db.sort_perm l)
          (placed_indices group ids rows h))

  pub assign_body_effect :
      (ids : List ℕ) (s s' : S)
      → Distinct (ids_of (db.visits s))
      → assign_body db ids s ≡ ok s'
      → IsAssigned db ids s s'
  unfolding assign_body
  assign_body_effect ids s s' d h =
      let (found, e₁, h₁) = >>=-eq-ok _ _ h in
      let (e₂, h₂) = >>-eq-ok _ _ h₁ in
      let (group, e₃, h₃) = >>=-eq-ok _ _ h₂ in
      let counted = db.count_rows (id_in ids) s found (or_fail-eq-ok _ database e₁) in
      let checked = guard-eq-ok (found == length ids) missing_ids e₂ in
      let (apart, present) = found_all ids (db.visits s) d (sym counted ∙ ground arith) in
      let (low, vacant) =
        IsVacant-of_next (db.visits s) (next_vacant_group_id db s) group
          (next_vacant_group_id_lem db s) e₃ in
      let rows = assign_each_rows db group 0 ids s s' apart h₃ in
      record {
        group = group;
        numbered = low;
        vacant = vacant;
        apart = apart;
        present = present;
        rows = rows;
        valid = rw rows (group_valid group ids (db.visits s) vacant);
        status_logs = assign_each_status_logs group 0 ids s s' h₃;
      }
