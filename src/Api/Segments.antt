-- ===== src/Api/Segments.antt =====
-- api/v1_routing.go: the segments of a group, and the handlers that split and join them.
pub mod Changes
pub mod Valid
use mop_backend_api.Base.{
  ℕ, suc, ◌+◌, ◌-◌, Bool, true, false, not, ◌&&◌, List, [], ◌∷◌, Option, none, some, leb, ltb, ◌==◌,
  if◌then◌else◌,
}
use mop_backend_api.Api.Result.{
  Failure, Result, ok, err, ◌>>=◌, ◌>>◌, guard, or_fail, head_or_fail, transaction, database,
  not_found, no_stop, first_stop, not_first, invalid, nil_index,
}
use mop_backend_api.Api.Visits.{
  Visit, Field, VisitLog, deref_uint, in_group, Database, group_id, user_id, visit_date, visit_time,
  stop_nr, segment_index,
}

-- `stop_nr < ?` and `stop_nr >= ?`, which a NULL fails
abbrev pub stop_below : ℕ → Visit → Bool
stop_below x v = elim v.stop_nr [ none ↦ false | some s ↦ ltb s x ]

abbrev pub stop_from : ℕ → Visit → Bool
stop_from x v = elim v.stop_nr [ none ↦ false | some s ↦ leb x s ]

-- `assertSegmentsValid` from the second visit on: the segment before, and `want`
unfoldable pub valid_from : (previous want : ℕ) → List Visit → Bool
valid_from previous want [] = true
valid_from previous want (v ∷ vs) =
    let got = deref_uint v.segment_index in
    let want' = if got == previous then want else suc want in
    let rest = valid_from got want' vs in if got == want' then rest else false

-- `assertSegmentsValid` on the visits in the order of their stops
unfoldable pub segments_valid : List Visit → Bool
unfolding valid_from
segments_valid [] = true
segments_valid (v ∷ vs) =
    let got = deref_uint v.segment_index in if got == 0 then valid_from got 0 vs else false

-- `oldVal` of `UpdateVisitValue`: empty for a field that the switch does not name
unfoldable pub old_val : Field → Visit → Option ℕ
old_val group_id v = some (deref_uint v.group_id)
old_val user_id v = some v.user_id
old_val visit_date v = some v.visit_date
old_val visit_time v = some v.visit_time
old_val stop_nr v = none
old_val segment_index v = none

-- the visit and those after it in its group
abbrev pub from_stop : (group stop : ℕ) → Visit → Bool
from_stop group stop v = in_group group v && stop_from stop v

abbrev pub index_up : Visit → Visit
index_up v = record v { segment_index = some (deref_uint v.segment_index + 1) }

-- A NULL stays NULL. `join_body` stops before the update at a visit with index 0 or NULL, by
-- `index_after_join`, so that the subtraction here never meets a 0.
abbrev pub index_down : Visit → Visit
index_down v = record v {
  segment_index = elim v.segment_index [ none ↦ none | some n ↦ some (n - 1) ];
}

abbrev pub index_after_split : Visit → Result ℕ
index_after_split v = ok (deref_uint v.segment_index + 1)

-- A nil index panics. An index 0 becomes -1 in the table, which the check after the update cannot
-- read back into an unsigned field.
abbrev pub index_after_join : Visit → Result ℕ
index_after_join v = elim v.segment_index [
  | none ↦ err nil_index
  | some n ↦ if n == 0 then err database else ok (n - 1)
]

abbrev pub same_index : Option ℕ → ℕ → Bool
same_index none n = false
same_index (some k) n = k == n

module _ {S : Type 0} (db : Database S) where
  -- `UpdateVisitValue` of internal/internal.go
  unfoldable pub update_visit_value :
      (visit : ℕ) → (new : Option ℕ) → (user : ℕ) → Field → S → Result S
  update_visit_value visit new user field s = do
    found ← or_fail (db.find (λ v. v.id == visit) s) database
    v ← head_or_fail found not_found
    or_fail
        (db.create_log
          (record {
            visit_id = visit;
            previous = old_val field v;
            new_val = new;
            val_type = field;
            changed_by = user;
          })
          s)
        database

  -- a log entry for each visit of a list
  unfoldable pub log_each : Field → (user : ℕ) → (Visit → Result ℕ) → List Visit → S → Result S
  log_each field user new [] s = ok s
  log_each field user new (v ∷ vs) s = new v >>= λ n.
      update_visit_value v.id (some n) user field s >>= λ s'. log_each field user new vs s'

  -- the check of the whole group, and the removal of its stored route
  unfoldable pub check_group : (group : ℕ) → S → Result S
  check_group group s = do
    all ← or_fail (db.find (in_group group) s) database
    guard (segments_valid (db.sort all)) invalid
    or_fail (db.delete_route group s) database

  -- the transaction of `SplitSegment`
  unfoldable pub split_body : (user group visit : ℕ) → S → Result S
  split_body user group visit s = do
    found ← or_fail (db.find (λ v. in_group group v && v.id == visit) s) database
    v ← head_or_fail found not_found
    stop ← or_fail v.stop_nr no_stop
    before ← or_fail (db.find (λ w. in_group group w && stop_below stop w) s) database
    one_before ← head_or_fail before first_stop
    affected ← or_fail (db.find (from_stop group stop) s) database
    logged ← log_each segment_index user index_after_split affected s
    moved ← or_fail (db.update (from_stop group stop) index_up logged) database
    check_group group moved

  -- the transaction of `JoinSegment`
  unfoldable pub join_body : (user group visit : ℕ) → S → Result S
  join_body user group visit s = do
    found ← or_fail (db.find (λ v. in_group group v && v.id == visit) s) database
    v ← head_or_fail found not_found
    stop ← or_fail v.stop_nr no_stop
    index ← or_fail v.segment_index no_stop
    before ← or_fail (db.first_desc (λ w. in_group group w && stop_below stop w) s) database
    previous ← or_fail before first_stop
    guard (not (same_index previous.segment_index index)) not_first
    affected ← or_fail (db.find (from_stop group stop) s) database
    logged ← log_each segment_index user index_after_join affected s
    moved ← or_fail (db.update (from_stop group stop) index_down logged) database
    check_group group moved

-- the status of the answer; `unverified` is the status 500 of a handler that has no user
pub data Response : Type 0 where
  unauthorized unverified bad_request : Response
  internal_error : Failure → Response
  done : Response

-- The part that the handlers of a group share: the user, the group of the path and the rest of the
-- request, each `none` where it cannot be had, and the answer where there is no user.
unfoldable pub handle :
    {S A : Type 0}
    → (denied : Response) → (body : (user group : ℕ) → A → S → Result S) → (user group : Option ℕ)
    → (input : Option A) → S
    → Response × S
unfolding transaction
handle denied body none group input s = (denied, s)
handle denied body (some user) none input s = (bad_request, s)
handle denied body (some user) (some group) none s = (bad_request, s)
handle denied body (some user) (some group) (some input) s =
    let (r, s') = transaction (body user group input) s in
    (elim r [ ok _ ↦ done | err e ↦ internal_error e ], s')

module _ {S : Type 0} (db : Database S) where
  unfoldable pub split_segment : (user group visit : Option ℕ) → S → Response × S
  unfolding handle
  split_segment = handle unauthorized (split_body db)

  unfoldable pub join_segment : (user group visit : Option ℕ) → S → Response × S
  unfolding handle
  join_segment = handle unauthorized (join_body db)
