-- ===== src/Tests/Steps.antt =====
-- A split, and then a swap, in the group of three visits.
use mop_backend_api.Base.{
  ℕ, ◌≡◌, refl, sym, subst, Bool, true, false, List, [], some, ◌==◌, if◌then◌else◌, inl, inr,
  Bool-cases,
}
use mop_backend_api.Api.Visits.{Visit, in_group, select, deref_uint}
use mop_backend_api.Api.Segments.{split_segment, segments_valid, valid_from}
use mop_backend_api.Api.Reorder.{down, reorder_visit}
use mop_backend_api.Api.Steps.{Reach, here, more, split, reorder, IsSound}
use mop_backend_api.Api.Steps.Sound.{Reach-IsSound}
use mop_backend_api.Tests.Groups.{three, three_distinct}
use mop_backend_api.Tests.Tables.{Tables, lists}

-- a test that depends on the group alone
abbrev all_or_none : Bool → List Visit
all_or_none b = if b then three.rows else []

three_rows : (h : ℕ) → select (in_group h) three.rows ≡ all_or_none (9 == h)
three_rows h = elim (Bool-cases (9 == h)) [ inl e ↦ rw e refl | inr e ↦ rw e refl ]

all_or_none-valid : (b : Bool) → segments_valid (lists.sort (all_or_none b)) ≡ true
unfolding segments_valid valid_from deref_uint
all_or_none-valid true = refl
all_or_none-valid false = refl

three-IsSound : IsSound lists three
three-IsSound = record {
  keys = three_distinct;
  segments = λ h.
      subst (λ l. segments_valid (lists.sort l) ≡ true) (sym (three_rows h))
        (all_or_none-valid (9 == h));
}

abbrev after_split : Tables
after_split = (split_segment lists (some 4) (some 9) (some 12) three).1

abbrev after_swap : Tables
after_swap =
    (reorder_visit lists (some 4) (some 9) (some (record { visit = 12; direction = down }))
      after_split).1

two_calls : Reach lists three after_swap
two_calls =
    more (more here (split (some 4) (some 9) (some 12) three))
      (reorder (some 4) (some 9) (some (record { visit = 12; direction = down })) after_split)

Reach-IsSound_example : IsSound lists after_swap
Reach-IsSound_example = Reach-IsSound lists two_calls three-IsSound
