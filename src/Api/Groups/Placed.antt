-- ===== src/Api/Groups/Placed.antt =====
-- Where `AssignVisitsToGroup` of api/v1_groups.go puts each row.
use mop_backend_api.Base.{
  ℕ, suc, ◌≡◌, refl, sym, ◌∙◌, ap, subst, true, false, List, [], ◌∷◌, ◌==◌, All, Distinct, map,
  arith, inl, inr, Bool-cases, Option-cases,
}
use mop_backend_api.Api.Result.{ok, database, >>=-eq-ok, or_fail-eq-ok}
use mop_backend_api.Api.Visits.{Visit, Database, in_group, select, deref_uint}
use mop_backend_api.Api.Segments.{segments_valid, valid_from}
use mop_backend_api.Api.Rows.{ok_eq, select_yes, select_no}
use mop_backend_api.Api.Places.{
  position, at_stop, placed, placed-absent, placed-cons, map_placed_nothing, map-rewrite,
}
use mop_backend_api.Api.Groups.{first_in_group, assign_each}
use mop_backend_api.Api.Groups.Vacant.{IsVacant}

module _ {S : Type 0} (db : Database S) where
  pub assign_each_rows :
      (group k : ℕ) (ids : List ℕ) (s s' : S)
      → Distinct ids
      → assign_each db group k ids s ≡ ok s'
      → db.visits s' ≡ map (placed (first_in_group group) k ids) (db.visits s)
  unfolding assign_each
  assign_each_rows group k [] s s' d h =
      ap (λ u. db.visits u) (sym (ok_eq h))
      ∙ sym (map_placed_nothing (first_in_group group) k (db.visits s))
  assign_each_rows group k (i ∷ is) s s' d h =
      let (s₁, e₁, h₁) = >>=-eq-ok _ _ h in
      assign_each_rows group (suc k) is s₁ s' d.1 h₁
      ∙ ap (map (placed (first_in_group group) (suc k) is))
          (db.update_rows _ _ s s₁ (or_fail-eq-ok _ database e₁))
      ∙ map-rewrite (placed (first_in_group group) (suc k) is)
          (placed (first_in_group group) k (i ∷ is)) (λ v. v.id == i) (first_in_group group k)
          (db.visits s) (λ v. placed-cons (first_in_group group) (λ n u. refl) k i is v d.0)

-- every visit of a new group is in its first segment
module _ (group : ℕ) (ids : List ℕ) where
  placed_index :
      (v : Visit)
      → in_group group v ≡ false
      → in_group group (placed (first_in_group group) 0 ids v) ≡ true
      → deref_uint (placed (first_in_group group) 0 ids v).segment_index ≡ 0
  unfolding deref_uint
  placed_index v out h = elim (Option-cases (position v.id 0 ids)) [
    | inl e ↦ (let same = placed-absent (first_in_group group) 0 ids v e in absurd (ground arith))
    | inr (stop, e) ↦
        subst (λ o. deref_uint (at_stop (first_in_group group) v o).segment_index ≡ 0) (sym e) refl
  ]

  pub placed_indices :
      (rows : List Visit)
      → IsVacant group rows
      → All
          (λ v. deref_uint v.segment_index ≡ 0)
          (select (in_group group) (map (placed (first_in_group group) 0 ids) rows))
  placed_indices [] h = tt
  placed_indices (v ∷ rows) h =
      elim (Bool-cases (in_group group (placed (first_in_group group) 0 ids v))) [
        | inl e ↦
            subst (All (λ v. deref_uint v.segment_index ≡ 0))
              (sym (
                select_yes (in_group group) (placed (first_in_group group) 0 ids v)
                  (map (placed (first_in_group group) 0 ids) rows) e))
              (placed_index v h.0 e, placed_indices rows h.1)
        | inr e ↦
            subst (All (λ v. deref_uint v.segment_index ≡ 0))
              (sym (
                select_no (in_group group) (placed (first_in_group group) 0 ids v)
                  (map (placed (first_in_group group) 0 ids) rows) e))
              (placed_indices rows h.1)
      ]

first_valid_from :
    (l : List Visit) → All (λ v. deref_uint v.segment_index ≡ 0) l → valid_from 0 0 l ≡ true
unfolding valid_from
first_valid_from [] h = refl
first_valid_from (v ∷ l) h = rw h.0 (first_valid_from l h.1)

pub first_segments_valid :
    (l : List Visit) → All (λ v. deref_uint v.segment_index ≡ 0) l → segments_valid l ≡ true
unfolding segments_valid
first_segments_valid [] h = refl
first_segments_valid (v ∷ l) h = rw h.0 (first_valid_from l h.1)
