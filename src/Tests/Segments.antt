-- ===== src/Tests/Segments.antt =====
-- Splitting a group of three visits, over a database of lists.
use mop_backend_api.Base.{ℕ, ◌≡◌, refl, true, [], ◌∷◌, none, some, ◌↔◌}
use mop_backend_api.Api.Result.{◌>>=◌, ◌>>◌, guard, or_fail, head_or_fail, transaction}
use mop_backend_api.Api.Visits.{VisitLog, segment_index, Visit, deref_uint}
use mop_backend_api.Api.Segments.{
  segments_valid, valid_from, update_visit_value, log_each, check_group, split_body, join_body,
  handle, split_segment, join_segment, done, old_val, index_up,
}
use mop_backend_api.Api.Segments.Changes.{
  IsShifted, IsJoined, HandleOutcome, split_segment_effect, join_segment_effect,
}
use mop_backend_api.Tests.Tables.{Tables, lists}
use mop_backend_api.Api.Segments.Valid.{IsRising, IsDense, segments_valid_lem}

abbrev stop : (id stop_nr segment : ℕ) → Visit
stop id stop_nr segment = record {
  id = id;
  user_id = 4;
  visit_date = 20;
  visit_time = 8;
  status_id = 2;
  group_id = some 9;
  segment_index = some segment;
  stop_nr = some stop_nr;
}

abbrev moved : (visit new : ℕ) → VisitLog
moved visit new = record {
  visit_id = visit;
  previous = none;
  new_val = some new;
  val_type = segment_index;
  changed_by = 1;
}

abbrev tables : Tables
tables = record {
  rows = stop 11 1 0 ∷ stop 12 2 0 ∷ stop 13 3 0 ∷ [];
  stored = 9 ∷ 8 ∷ [];
  entries = [];
  statuses = [];
}

-- a split at the second visit, and a join that undoes it
split_tables : split_segment lists (some 1) (some 9) (some 12) tables ≡ (
  done,
  record {
    rows = stop 11 1 0 ∷ stop 12 2 1 ∷ stop 13 3 1 ∷ [];
    stored = 8 ∷ [];
    entries = moved 12 1 ∷ moved 13 1 ∷ [];
    statuses = [];
  },
)
unfolding split_segment split_body old_val handle transaction ◌>>=◌ ◌>>◌ guard or_fail head_or_fail
    log_each update_visit_value check_group segments_valid valid_from deref_uint
split_tables = refl

join_tables :
    join_segment lists (some 1) (some 9) (some 12) (record {
      rows = stop 11 1 0 ∷ stop 12 2 1 ∷ stop 13 3 1 ∷ [];
      stored = 8 ∷ [];
      entries = [];
      statuses = [];
    })
    ≡ (
      done,
      record {
        rows = stop 11 1 0 ∷ stop 12 2 0 ∷ stop 13 3 0 ∷ [];
        stored = 8 ∷ [];
        entries = moved 12 0 ∷ moved 13 0 ∷ [];
        statuses = [];
      },
    )
unfolding join_segment join_body old_val handle transaction ◌>>=◌ ◌>>◌ guard or_fail head_or_fail
    log_each update_visit_value check_group segments_valid valid_from deref_uint
join_tables = refl

split_segment_effect_example :
    HandleOutcome
      (λ u. IsShifted lists index_up)
      (some 1)
      (some 9)
      (some 12)
      tables
      (split_segment lists (some 1) (some 9) (some 12) tables)
split_segment_effect_example = split_segment_effect lists (some 1) (some 9) (some 12) tables

join_segment_effect_example :
    HandleOutcome
      (λ u. IsJoined lists)
      (some 1)
      (some 9)
      (some 12)
      tables
      (join_segment lists (some 1) (some 9) (some 12) tables)
join_segment_effect_example = join_segment_effect lists (some 1) (some 9) (some 12) tables

segments_valid_lem_example :
    (segments_valid (stop 11 1 0 ∷ stop 12 2 1 ∷ []) ≡ true)
    ↔ (IsRising 0 (stop 11 1 0 ∷ stop 12 2 1 ∷ []) × IsDense (stop 11 1 0 ∷ stop 12 2 1 ∷ []))
segments_valid_lem_example = segments_valid_lem (stop 11 1 0 ∷ stop 12 2 1 ∷ [])
