-- ===== src/Tests/Groups.antt =====
-- The handlers of a whole group on a group of three visits.
use mop_backend_api.Base.{ℕ, ◌≡◌, refl, [], ◌∷◌, some, Distinct, arith, List}
use mop_backend_api.Api.Result.{ok, ◌>>=◌, ◌>>◌, guard, or_fail, head_or_fail, transaction}
use mop_backend_api.Api.Visits.{Visit, deref_uint}
use mop_backend_api.Api.Rows.{ids_of}
use mop_backend_api.Api.Segments.{
  log_each, update_visit_value, handle, check_group, segments_valid, valid_from,
}
use mop_backend_api.Api.Segments.Changes.{HandleOutcome}
use mop_backend_api.Api.Groups.{
  change_group_date, change_konsulent, remove_from_group, remove_body, next_vacant_group_id,
  assign_visits_to_group, update_visit_status,
}
use mop_backend_api.Api.Groups.Whole.{
  IsDated, IsReassigned, IsRemoved, change_group_date_effect, change_konsulent_effect,
  remove_from_group_effect,
}
use mop_backend_api.Api.Groups.Vacant.{IsNextVacant, next_vacant_group_id_lem}
use mop_backend_api.Api.Groups.Status.{StatusOutcome, update_visit_status_lem}
use mop_backend_api.Api.Groups.Assigned.{AssignOutcome, assign_visits_to_group_effect}
use mop_backend_api.Api.Reorder.{
  up, neighbour, reorder_visit, reorder_body, renumber, fix_route_order,
}
use mop_backend_api.Api.Reorder.Swap.{IsSwapped, reorder_visit_effect}
use mop_backend_api.Api.Reorder.Fix.{IsReinserted, fix_route_order_effect}
use mop_backend_api.Tests.Tables.{Tables, lists}

abbrev pub member : (id user stop : ℕ) → Visit
member id user stop = record {
  id = id;
  user_id = user;
  visit_date = 20;
  visit_time = 8;
  status_id = 2;
  group_id = some 9;
  segment_index = some 0;
  stop_nr = some stop;
}

abbrev pub group_rows : List Visit → Tables
group_rows rows = record { rows = rows; stored = 9 ∷ []; entries = []; statuses = [] }

abbrev pub three : Tables
three = group_rows (member 11 4 0 ∷ member 12 5 1 ∷ member 13 4 2 ∷ [])

pub three_distinct : Distinct (ids_of (lists.visits three))
three_distinct =
    (((λ e. omega arith), ((λ e. omega arith), tt)), (((λ e. omega arith), tt), (tt, tt)))

-- only the visits of user 4 leave the group
remove_three :
    (remove_from_group lists (some 4) (some 9) three).1.rows
    ≡ record (member 11 4 0) { group_id = some 0 }
      ∷ member 12 5 1
      ∷ record (member 13 4 2) { group_id = some 0 }
      ∷ []
unfolding remove_from_group remove_body handle transaction ◌>>=◌ or_fail head_or_fail log_each
    update_visit_value
remove_three = refl

next_three : next_vacant_group_id lists three ≡ ok 10
unfolding next_vacant_group_id ◌>>=◌ or_fail deref_uint
next_three = refl

up_three :
    (reorder_visit lists
      (some 4)
      (some 9)
      (some (record { visit = 13; direction = up }))
      three).1.rows
    ≡ member 11 4 0 ∷ member 12 5 2 ∷ member 13 4 1 ∷ []
unfolding reorder_visit reorder_body handle transaction ◌>>=◌ ◌>>◌ guard or_fail head_or_fail
    update_visit_value check_group segments_valid valid_from neighbour deref_uint
up_three = refl

fix_three :
    fix_route_order lists 9 11 three
    ≡ ok (group_rows (member 11 4 1 ∷ member 12 5 0 ∷ member 13 4 2 ∷ []))
unfolding fix_route_order renumber ◌>>=◌ or_fail deref_uint
fix_three = refl

change_group_date_effect_example :
    HandleOutcome
      (IsDated lists)
      (some 1)
      (some 9)
      (some 30)
      three
      (change_group_date lists (some 1) (some 9) (some 30) three)
change_group_date_effect_example =
    change_group_date_effect lists (some 1) (some 9) (some 30) three three_distinct

change_konsulent_effect_example :
    HandleOutcome
      (IsReassigned lists)
      (some 1)
      (some 9)
      (some 4)
      three
      (change_konsulent lists (some 1) (some 9) (some 4) three)
change_konsulent_effect_example =
    change_konsulent_effect lists (some 1) (some 9) (some 4) three three_distinct

remove_from_group_effect_example :
    HandleOutcome
      (λ u g a. IsRemoved lists u g)
      (some 4)
      (some 9)
      (some tt)
      three
      (remove_from_group lists (some 4) (some 9) three)
remove_from_group_effect_example =
    remove_from_group_effect lists (some 4) (some 9) three three_distinct

next_vacant_group_id_lem_example :
    IsNextVacant (lists.visits three) (next_vacant_group_id lists three)
next_vacant_group_id_lem_example = next_vacant_group_id_lem lists three

assign_visits_to_group_effect_example :
    AssignOutcome lists
      (some 1)
      (some (13 ∷ 11 ∷ []))
      three
      (assign_visits_to_group lists (some 1) (some (13 ∷ 11 ∷ [])) three)
assign_visits_to_group_effect_example =
    assign_visits_to_group_effect lists (some 1) (some (13 ∷ 11 ∷ [])) three three_distinct

update_visit_status_lem_example :
    StatusOutcome lists 12 3 1 three (update_visit_status lists 12 3 1 three)
update_visit_status_lem_example = update_visit_status_lem lists 12 3 1 three

reorder_visit_effect_example :
    HandleOutcome
      (λ u. IsSwapped lists)
      (some 4)
      (some 9)
      (some (record { visit = 13; direction = up }))
      three
      (reorder_visit lists (some 4) (some 9) (some (record { visit = 13; direction = up })) three)
reorder_visit_effect_example =
    reorder_visit_effect lists (some 4) (some 9) (some (record { visit = 13; direction = up }))
      three

fix_route_order_effect_example :
    IsReinserted lists 9 11 three (group_rows (member 11 4 1 ∷ member 12 5 0 ∷ member 13 4 2 ∷ []))
fix_route_order_effect_example =
    fix_route_order_effect lists 9 11 three
      (group_rows (member 11 4 1 ∷ member 12 5 0 ∷ member 13 4 2 ∷ [])) three_distinct fix_three
