-- ===== src/Api/Groups/Vacant.antt =====
-- The group id that `nextVacantGroupId` of api/v1_groups.go answers.
use mop_backend_api.Base.{
  ℕ, ◌+◌, ◌≤◌, ◌≡◌, refl, sym, ◌∙◌, subst, true, false, List, [], ◌∷◌, Option, none, some, All,
  arith, ◌⊎◌, inl, inr, Bool-cases, Option-cases,
}
use mop_backend_api.Api.Result.{Result, ok, err, ◌>>=◌, or_fail, database}
use mop_backend_api.Api.Visits.{
  Visit, Database, in_group, select, IsFirst, has_group, GroupFalls, deref_uint,
}
use mop_backend_api.Api.Rows.{ok_eq, cons_ne, select_yes, select_no, Among-select}
use mop_backend_api.Api.Groups.{next_vacant_group_id}

-- no row is in the group
abbrev pub IsVacant : ℕ → List Visit → Type 0
IsVacant g rows = All (λ v. in_group g v ≡ false) rows

no_group : (g : ℕ) (v : Visit) → has_group v ≡ false → in_group g v ≡ false
no_group g v h = elim (Option-cases v.group_id) [
  | inl e ↦ rw e refl
  | inr (k, e) ↦ absurd (ground arith)
]

lower_group :
    (v w : Visit)
    → GroupFalls v w
    → has_group w ≡ true
    → in_group (deref_uint v.group_id + 1) w ≡ false
unfolding deref_uint
lower_group v w h k = elim (Option-cases w.group_id) [
  | inl e ↦ absurd (ground arith)
  | inr (g, e) ↦ ground arith
]

ungrouped-IsVacant : (g : ℕ) (rows : List Visit) → select has_group rows ≡ [] → IsVacant g rows
ungrouped-IsVacant g [] h = tt
ungrouped-IsVacant g (v ∷ rows) h = elim (Bool-cases (has_group v)) [
  | inl e ↦ absurd (cons_ne (sym (select_yes has_group v rows e) ∙ h))
  | inr e ↦ (no_group g v e, ungrouped-IsVacant g rows (sym (select_no has_group v rows e) ∙ h))
]

above-IsVacant :
    (v : Visit) (rows : List Visit)
    → All (GroupFalls v) (select has_group rows)
    → IsVacant (deref_uint v.group_id + 1) rows
above-IsVacant v [] h = tt
above-IsVacant v (w ∷ rows) h = elim (Bool-cases (has_group w)) [
  | inl e ↦
      (let (le, rest) = subst (All (GroupFalls v)) (select_yes has_group w rows e) h in
        (lower_group v w le e, above-IsVacant v rows rest))
  | inr e ↦ (
    no_group (deref_uint v.group_id + 1) w e,
    above-IsVacant v rows (subst (All (GroupFalls v)) (select_no has_group w rows e) h),
  )
]

-- what `nextVacantGroupId` answers: an error of the database, or an id from 1 on in no row
pub IsNextVacant : List Visit → Result ℕ → Type 0
IsNextVacant rows r = (r ≡ err database) ⊎ ((n : ℕ) × (r ≡ ok n) × (1 ≤ n) × IsVacant n rows)

pub IsVacant-of_next :
    (rows : List Visit) (r : Result ℕ) (n : ℕ)
    → IsNextVacant rows r
    → r ≡ ok n
    → (1 ≤ n) × IsVacant n rows
unfolding IsNextVacant
IsVacant-of_next rows r n (inl e) h = absurd (ground arith)
IsVacant-of_next rows r n (inr (m, e, le, v)) h =
    let same : m ≡ n = ok_eq (sym e ∙ h) in (omega arith, subst (λ k. IsVacant k rows) same v)

module _ {S : Type 0} (db : Database S) where
  next_of_first :
      (s : S) (o : Option Visit)
      → db.first_group s ≡ some o
      → IsFirst GroupFalls (select has_group (db.visits s)) o
      → IsNextVacant (db.visits s) (next_vacant_group_id db s)
  unfolding next_vacant_group_id IsNextVacant ◌>>=◌ or_fail deref_uint
  next_of_first s none e h = inr (1, rw e refl, omega arith, ungrouped-IsVacant 1 (db.visits s) h)
  next_of_first s (some v) e (a, h) = elim (Option-cases v.group_id) [
    | inl k ↦ (let y = Among-select has_group v (db.visits s) a in absurd (ground arith))
    | inr (g, k) ↦
        inr (deref_uint v.group_id + 1, ground arith, omega arith, above-IsVacant v (db.visits s) h)
  ]

  -- `nextVacantGroupId` answers an error of the database or an id, from 1 on, that no visit has;
  -- it never reads the group of a visit without one.
  pub next_vacant_group_id_lem : (s : S) → IsNextVacant (db.visits s) (next_vacant_group_id db s)
  unfolding next_vacant_group_id IsNextVacant ◌>>=◌ or_fail
  next_vacant_group_id_lem s = elim (Option-cases (db.first_group s)) [
    | inl e ↦ inl (rw e refl)
    | inr (o, e) ↦ next_of_first s o e (db.first_group_rows s o e)
  ]
