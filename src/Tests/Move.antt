-- ===== src/Tests/Move.antt =====
-- A visit of the group of three moves to a group with one visit, and to a group without any.
use mop_backend_api.Base.{ℕ, ◌≡◌, refl, [], ◌∷◌, Option, some}
use mop_backend_api.Api.Result.{◌>>=◌, or_fail, head_or_fail, transaction}
use mop_backend_api.Api.Visits.{deref_uint}
use mop_backend_api.Api.Segments.{handle, update_visit_value}
use mop_backend_api.Api.Segments.Changes.{HandleOutcome}
use mop_backend_api.Api.Groups.{row_of, next_vacant_group_id}
use mop_backend_api.Api.Reorder.{renumber, fix_route_order}
use mop_backend_api.Api.Move.{
  beside, destination, moved_row, resequenced, old_cleared, new_cleared, change_group_body,
  change_group_id,
}
use mop_backend_api.Api.Move.Effect.{IsMoved, change_group_id_effect}
use mop_backend_api.Tests.Groups.{member, three, three_distinct}
use mop_backend_api.Tests.Tables.{lists}

-- a struct that keeps the old group, and one that takes the new one
abbrev keeps_old : Option ℕ → Option ℕ → Option ℕ
keeps_old old new = old

abbrev takes_new : Option ℕ → Option ℕ → Option ℕ
takes_new old new = new

-- to a group that no visit is in: it gets the next number, not the one asked for
to_new_group :
    (change_group_id lists keeps_old (some 1) (some 12) (some (some 77)) three).1.rows
    ≡ member 11 4 0 ∷ record (member 12 5 0) { group_id = some 10 } ∷ member 13 4 2 ∷ []
unfolding change_group_id change_group_body handle transaction row_of destination beside moved_row
    resequenced old_cleared new_cleared update_visit_value next_vacant_group_id fix_route_order
    renumber ◌>>=◌ or_fail head_or_fail deref_uint
to_new_group = refl

-- the route of group 9 is kept where the struct has taken the new group
kept_route :
    (change_group_id lists takes_new (some 1) (some 12) (some (some 77)) three).1.stored ≡ 9 ∷ []
unfolding change_group_id change_group_body handle transaction row_of destination beside moved_row
    resequenced old_cleared new_cleared update_visit_value next_vacant_group_id fix_route_order
    renumber ◌>>=◌ or_fail head_or_fail deref_uint
kept_route = refl

change_group_id_effect_example :
    HandleOutcome
      (λ u. IsMoved lists keeps_old)
      (some 1)
      (some 12)
      (some (some 77))
      three
      (change_group_id lists keeps_old (some 1) (some 12) (some (some 77)) three)
change_group_id_effect_example =
    change_group_id_effect lists keeps_old (some 1) (some 12) (some (some 77)) three three_distinct
