-- ===== src/Api/Groups.antt =====
-- api/v1_groups.go: the handlers that change all visits of a group, or make a new group.
pub mod Log
pub mod Whole
pub mod Vacant
pub mod Ids
pub mod Placed
pub mod Status
pub mod Assigned
pub mod Assign
use mop_backend_api.Base.{
  ℕ, suc, ◌+◌, Bool, true, false, not, ◌&&◌, List, [], ◌∷◌, Option, none, some, ◌==◌, if◌then◌else◌,
  length,
}
use mop_backend_api.Api.Result.{
  Result, ok, err, ◌>>=◌, ◌>>◌, guard, or_fail, head_or_fail, transaction, database, nil_index,
  no_visits, not_found, same_status, letter_sent, missing_ids,
}
use mop_backend_api.Api.Visits.{Visit, Database, in_group, select, group_id, user_id, visit_date}
use mop_backend_api.Api.Segments.{
  log_each, handle, Response, unauthorized, unverified, bad_request, internal_error, done,
}

-- no letter has been sent for a visit of the list
abbrev pub none_sent : List Visit → Bool
none_sent [] = true
none_sent (v ∷ vs) = let rest = none_sent vs in if v.status_id == 3 then false else rest

-- the visits that another user is to get
abbrev pub to_reassign : (new : ℕ) → Visit → Bool
to_reassign new v = not (v.user_id == new)

-- the visits of a group that belong to a user
abbrev pub own_in_group : (user group : ℕ) → Visit → Bool
own_in_group user group v = in_group group v && v.user_id == user

abbrev pub with_date : (date : ℕ) → Visit → Visit
with_date date v = record v { visit_date = date }

abbrev pub with_user : (user : ℕ) → Visit → Visit
with_user user v = record v { user_id = user }

abbrev pub with_group : (group : ℕ) → Visit → Visit
with_group group v = record v { group_id = some group }

abbrev pub holds : List ℕ → ℕ → Bool
holds [] i = false
holds (j ∷ js) i = let rest = holds js i in if i == j then true else rest

-- `id IN ?`
abbrev pub id_in : List ℕ → Visit → Bool
id_in ids v = holds ids v.id

abbrev pub with_status : (status : ℕ) → Visit → Visit
with_status status v = record v { status_id = status }

-- what a visit of a new group gets
abbrev pub first_in_group : (group stop : ℕ) → Visit → Visit
first_in_group group stop v = record v {
  group_id = some group;
  stop_nr = some stop;
  segment_index = some 0;
  status_id = 2;
}

module _ {S : Type 0} (db : Database S) where
  -- the transaction of `ChangeGroupDate`
  unfoldable pub change_date_body : (user group date : ℕ) → S → Result S
  change_date_body user group date s = do
    visits ← or_fail (db.find (in_group group) s) database
    one ← head_or_fail visits no_visits
    guard (none_sent visits) letter_sent
    logged ← log_each db visit_date user (λ v. ok date) visits s
    or_fail (db.update (in_group group) (with_date date) logged) database

  -- the transaction of `ChangeKonsulent`
  unfoldable pub change_konsulent_body : (user group new : ℕ) → S → Result S
  change_konsulent_body user group new s = do
    visits ← or_fail (db.find (in_group group) s) database
    one ← head_or_fail visits no_visits
    logged ← log_each db user_id user (λ v. ok new) (select (to_reassign new) visits) s
    or_fail (db.update (in_group group) (with_user new) logged) database

  -- the transaction of `RemoveFromGroup`, which has no input but the group
  unfoldable pub remove_body : (user group : ℕ) → Unit {0} → S → Result S
  remove_body user group nothing s = do
    visits ← or_fail (db.find (in_group group) s) database
    one ← head_or_fail visits no_visits
    logged ← log_each db group_id user (λ v. ok 0) visits s
    or_fail (db.update (own_in_group user group) (with_group 0) logged) database

  -- `nextVacantGroupId`
  unfoldable pub next_vacant_group_id : S → Result ℕ
  next_vacant_group_id s = do
    highest ← or_fail (db.first_group s) database
    elim highest [
      | none ↦ ok 1
      | some v ↦ elim v.group_id [ none ↦ err nil_index | some g ↦ ok (g + 1) ]
    ]

  -- the loop of `AssignVisitsToGroup` over the ids, from a stop on
  unfoldable pub assign_each : (group stop : ℕ) → List ℕ → S → Result S
  assign_each group stop [] s = ok s
  assign_each group stop (i ∷ is) s =
      or_fail (db.update (λ v. v.id == i) (first_in_group group stop) s) database
      >>= assign_each group (suc stop) is

  -- the transaction of `AssignVisitsToGroup`
  unfoldable pub assign_body : List ℕ → S → Result S
  assign_body ids s = do
    found ← or_fail (db.count (id_in ids) s) database
    guard (found == length ids) missing_ids
    next ← next_vacant_group_id s
    assign_each next 0 ids s

  -- `First` by the key of a visit
  unfoldable pub row_of : (visit : ℕ) → S → Result Visit
  row_of visit s = do
    found ← or_fail (db.find (λ v. v.id == visit) s) database
    head_or_fail found not_found

  -- `UpdateVisitStatus` from the answer of its insert on, of its update on, and of its query on
  unfoldable pub status_logged : S → Option S → Result (Unit {0}) × S
  status_logged before none = (err database, before)
  status_logged before (some s) = (ok tt, s)

  unfoldable pub status_written : (user new : ℕ) → Visit → S → Option S → Result (Unit {0}) × S
  status_written user new v before none = (err database, before)
  status_written user new v before (some s) = status_logged s (
      db.create_status_log
        (record {
          visit_id = v.id;
          old_status_id = v.status_id;
          new_status_id = new;
          changed_by_id = user;
        })
        s)

  unfoldable pub status_found : (user new : ℕ) → S → Result Visit → Result (Unit {0}) × S
  status_found user new s (err e) = (err e, s)
  status_found user new s (ok v) =
      if v.status_id == new
      then (err same_status, s)
      else status_written user new v s (db.update (λ w. w.id == v.id) (with_status new) s)

  -- `UpdateVisitStatus` of internal/internal.go, which is not in a transaction
  unfoldable pub update_visit_status : (visit new user : ℕ) → S → Result (Unit {0}) × S
  update_visit_status visit new user s = status_found user new s (row_of visit s)

  -- the loop after the transaction, which ignores the errors
  unfoldable pub update_each_status : (new user : ℕ) → List ℕ → S → S
  update_each_status new user [] s = s
  update_each_status new user (i ∷ is) s =
      update_each_status new user is (update_visit_status i new user s).1

  unfoldable pub assign_visits_to_group :
      (user : Option ℕ) → (ids : Option (List ℕ)) → S → Response × S
  assign_visits_to_group none ids s = (unauthorized, s)
  assign_visits_to_group (some user) none s = (bad_request, s)
  assign_visits_to_group (some user) (some ids) s =
      let (r, s') = transaction (assign_body ids) s in
      elim r [ err e ↦ (internal_error e, s') | ok _ ↦ (done, update_each_status 2 user ids s') ]

  unfoldable pub change_group_date : (user group date : Option ℕ) → S → Response × S
  unfolding handle
  change_group_date = handle unverified (change_date_body)

  unfoldable pub change_konsulent : (user group new : Option ℕ) → S → Response × S
  unfolding handle
  change_konsulent = handle unverified (change_konsulent_body)

  unfoldable pub remove_from_group : (user group : Option ℕ) → S → Response × S
  unfolding handle
  remove_from_group user group = handle unauthorized remove_body user group (some tt)
