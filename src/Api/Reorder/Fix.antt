-- ===== src/Api/Reorder/Fix.antt =====
-- What `fixRouteOrder` of api/v1_routing.go leaves.
use mathlib.Core.List.{Perm}
use mathlib.Core.List.Perm
use mop_backend_api.Base.Perms.{Distinct-Perm}
use mop_backend_api.Base.{
  ℕ, suc, ◌-◌, ◌≡◌, ◌≢◌, refl, sym, ◌∙◌, ap, subst, Bool, false, not, List, [], ◌∷◌, Option, none,
  some, ◌==◌, if◌then◌else◌, All, Distinct, map, length, get_elem?, arith, inl, inr, Bool-cases,
}
use mop_backend_api.Api.Result.{ok, database, not_in_group, >>=-eq-ok, or_fail-eq-ok}
use mop_backend_api.Api.Visits.{Visit, Database, in_group, select}
use mop_backend_api.Api.Rows.{ok_eq, ids_of, select_yes, select_no}
use mop_backend_api.Api.Places.{placed, placed-cons, map_placed_nothing, map-rewrite}
use mop_backend_api.Api.Reorder.{
  with_stop, pulled, not_pulled, before_last, renumber, fix_route_order,
}

before_last-Perm : (v : Visit) (l : List Visit) → Perm (before_last v l) (v ∷ l)
before_last-Perm v [] = Perm.refl (v ∷ [])
before_last-Perm v (w ∷ []) = Perm.refl (v ∷ w ∷ [])
before_last-Perm v (w ∷ u ∷ us) =
    Perm.trans (Perm.cons w (before_last-Perm v (u ∷ us))) (Perm.swap v w (u ∷ us))

length-before_last : (v : Visit) (l : List Visit) → length (before_last v l) ≡ suc (length l)
length-before_last v [] = refl
length-before_last v (w ∷ []) = refl
length-before_last v (w ∷ u ∷ us) = ap suc (length-before_last v (u ∷ us))

before_last-get_elem? :
    (v : Visit) (l : List Visit) → get_elem? (before_last v l) (length l - 1) ≡ some v
before_last-get_elem? v [] = refl
before_last-get_elem? v (w ∷ []) = refl
before_last-get_elem? v (w ∷ u ∷ us) =
    subst (λ k. get_elem? (w ∷ before_last v (u ∷ us)) k ≡ some v)
      (let same : suc (length us) ≡ suc (suc (length us)) - 1 = omega arith in same)
      (subst (λ k. get_elem? (before_last v (u ∷ us)) k ≡ some v)
        (let same : suc (length us) - 1 ≡ length us = omega arith in same)
        (before_last-get_elem? v (u ∷ us)))

not_pulled-absent : (id : ℕ) (l : List Visit) → All (λ j. j ≢ id) (ids_of l) → not_pulled id l ≡ l
not_pulled-absent id [] h = refl
not_pulled-absent id (w ∷ l) h =
    select_yes (λ v. not (v.id == id)) w l (let ne = h.0 in ground arith)
    ∙ ap {B = List Visit} (λ r. w ∷ r) (not_pulled-absent id l h.1)

pulled-absent :
    (id : ℕ) (o : Option Visit) (l : List Visit) → All (λ j. j ≢ id) (ids_of l) → pulled id o l ≡ o
pulled-absent id o [] h = refl
pulled-absent id o (w ∷ l) h =
    let ne = h.0 in
    let e : (w.id == id) ≡ false = ground arith in
    subst (λ b. pulled id (if b then some w else o) l ≡ o) (sym e) (pulled-absent id o l h.1)

some_eq : {v w : Visit} → some v ≡ some w → v ≡ w
some_eq e = ground arith

-- the visit that is pulled out, and those that are left, are the visits there were
pulled-Perm :
    (id : ℕ) (v : Visit) (l : List Visit)
    → Distinct (ids_of l)
    → pulled id none l ≡ some v
    → (v.id ≡ id) × Perm (v ∷ not_pulled id l) l
pulled-Perm id v [] d h = absurd (ground arith)
pulled-Perm id v (w ∷ l) d h = elim (Bool-cases (w.id == id)) [
  | inl e ↦
      let same : w.id ≡ id = ground arith in
      let apart = subst (λ x. All (λ j. j ≢ x) (ids_of l)) same d.0 in
      let eq : w ≡ v = some_eq (
        sym (pulled-absent id (some w) l apart)
        ∙ sym (ap (λ b. pulled id (if b then some w else none) l) e)
        ∙ h) in
      let left : not_pulled id (w ∷ l) ≡ l =
        select_no (λ u. not (u.id == id)) w l (ap not e) ∙ not_pulled-absent id l apart in
      (
        sym (ap (λ u. u.id) eq) ∙ same,
        subst (λ r. Perm (v ∷ r) (w ∷ l)) (sym left)
            (subst (λ u. Perm (u ∷ l) (w ∷ l)) eq (Perm.refl (w ∷ l))),
      )
  | inr e ↦
      let (found, ih) =
        pulled-Perm id v l d.1 (sym (ap (λ b. pulled id (if b then some w else none) l) e) ∙ h) in
      (
        found,
        subst (λ r. Perm (v ∷ r) (w ∷ l)) (sym (select_yes (λ u. not (u.id == id)) w l (ap not e)))
            (Perm.trans (Perm.swap w v (not_pulled id l)) (Perm.cons w ih)),
      )
]

ids-select :
    (P : ℕ → Type 0) (p : Visit → Bool) (l : List Visit)
    → All P (ids_of l)
    → All P (ids_of (select p l))
ids-select P p [] h = tt
ids-select P p (v ∷ l) h = elim (Bool-cases (p v)) [
  | inl e ↦ subst (λ r. All P (ids_of r)) (sym (select_yes p v l e)) (h.0, ids-select P p l h.1)
  | inr e ↦ subst (λ r. All P (ids_of r)) (sym (select_no p v l e)) (ids-select P p l h.1)
]

Distinct-select :
    (p : Visit → Bool) (l : List Visit) → Distinct (ids_of l) → Distinct (ids_of (select p l))
Distinct-select p [] d = tt
Distinct-select p (v ∷ l) d = elim (Bool-cases (p v)) [
  | inl e ↦
      subst (λ r. Distinct (ids_of r)) (sym (select_yes p v l e))
        (ids-select (λ j. j ≢ v.id) p l d.0, Distinct-select p l d.1)
  | inr e ↦ subst (λ r. Distinct (ids_of r)) (sym (select_no p v l e)) (Distinct-select p l d.1)
]

before_last-others :
    (id : ℕ) (v : Visit) (l : List Visit)
    → v.id ≡ id
    → not_pulled id (before_last v l) ≡ not_pulled id l
before_last-others id v [] e = select_no (λ u. not (u.id == id)) v [] (ground arith)
before_last-others id v (w ∷ []) e = select_no (λ u. not (u.id == id)) v (w ∷ []) (ground arith)
before_last-others id v (w ∷ u ∷ us) e = elim (Bool-cases (w.id == id)) [
  | inl k ↦
      select_no (λ x. not (x.id == id)) w (before_last v (u ∷ us)) (ap not k)
      ∙ before_last-others id v (u ∷ us) e
      ∙ sym (select_no (λ x. not (x.id == id)) w (u ∷ us) (ap not k))
  | inr k ↦
      select_yes (λ x. not (x.id == id)) w (before_last v (u ∷ us)) (ap not k)
      ∙ ap {B = List Visit} (λ r. w ∷ r) (before_last-others id v (u ∷ us) e)
      ∙ sym (select_yes (λ x. not (x.id == id)) w (u ∷ us) (ap not k))
]

not_pulled_twice : (id : ℕ) (l : List Visit) → not_pulled id (not_pulled id l) ≡ not_pulled id l
not_pulled_twice id [] = refl
not_pulled_twice id (w ∷ l) = elim (Bool-cases (w.id == id)) [
  | inl k ↦
      subst (λ r. not_pulled id r ≡ r) (sym (select_no (λ x. not (x.id == id)) w l (ap not k)))
        (not_pulled_twice id l)
  | inr k ↦
      subst (λ r. not_pulled id r ≡ r) (sym (select_yes (λ x. not (x.id == id)) w l (ap not k)))
        (select_yes (λ x. not (x.id == id)) w (not_pulled id l) (ap not k)
          ∙ ap {B = List Visit} (λ r. w ∷ r) (not_pulled_twice id l))
]

module _ {S : Type 0} (db : Database S) where
  renumber_rows :
      (k : ℕ) (l : List Visit) (s s' : S)
      → Distinct (ids_of l)
      → renumber db k l s ≡ ok s'
      → db.visits s' ≡ map (placed with_stop k (ids_of l)) (db.visits s)
  unfolding renumber
  renumber_rows k [] s s' d h =
      ap (λ u. db.visits u) (sym (ok_eq h)) ∙ sym (map_placed_nothing with_stop k (db.visits s))
  renumber_rows k (v ∷ l) s s' d h =
      let (t, e₁, h₁) = >>=-eq-ok _ _ h in
      renumber_rows (suc k) l t s' d.1 h₁
      ∙ ap (map (placed with_stop (suc k) (ids_of l)))
          (db.update_rows _ _ s t (or_fail-eq-ok _ database e₁))
      ∙ map-rewrite (placed with_stop (suc k) (ids_of l)) (placed with_stop k (ids_of (v ∷ l)))
          (λ w. w.id == v.id) (with_stop k) (db.visits s)
          (λ w. placed-cons with_stop (λ n u. refl) k v.id (ids_of l) w d.0)

  -- The group in a new order: the visit is last but one, or alone, the others are in the order of the
  -- query, and each row of the group has its place in the order as its stop.
  pub record IsReinserted (group inserted : ℕ) (s s' : S) : Type 0 where
    pub queried : List Visit
    pub answer : db.find_asc (in_group group) s ≡ some queried
    pub order : List Visit
    pub members : Perm order (select (in_group group) (db.visits s))
    pub row : Visit
    pub row_id : row.id ≡ inserted
    pub last_but_one : get_elem? order (length order - 2) ≡ some row
    pub others : not_pulled inserted order ≡ not_pulled inserted queried
    pub rows : db.visits s' ≡ map (placed with_stop 0 (ids_of order)) (db.visits s)

  -- With distinct visit ids, a `fixRouteOrder` without an error has numbered exactly the visits of the
  -- group from 0 on without a gap: the given visit, which is one of them, comes last but one, and the
  -- others follow each other as the query by stop had them.
  pub fix_route_order_effect :
      (group inserted : ℕ) (s s' : S)
      → Distinct (ids_of (db.visits s))
      → fix_route_order db group inserted s ≡ ok s'
      → IsReinserted group inserted s s'
  unfolding fix_route_order
  fix_route_order_effect group inserted s s' d h =
      let (visits, e₁, h₁) = >>=-eq-ok _ _ h in
      let (v, e₂, h₂) = >>=-eq-ok _ _ h₁ in
      let asked = or_fail-eq-ok _ database e₁ in
      let perm = db.find_asc_rows (in_group group) s visits asked in
      let own = Distinct-select (in_group group) (db.visits s) d in
      let apart = Distinct-Perm (ids_of visits) _ (Perm.map (λ u. u.id) perm) own in
      let (named, pulled_out) =
        pulled-Perm inserted v visits apart (or_fail-eq-ok _ not_in_group e₂) in
      let left = not_pulled inserted visits in
      let same = Perm.trans (before_last-Perm v left) pulled_out in
      record {
        queried = visits;
        answer = asked;
        order = before_last v left;
        members = Perm.trans same perm;
        row = v;
        row_id = named;
        last_but_one =
            subst (λ k. get_elem? (before_last v left) k ≡ some v)
              (omega (arith, length-before_last v left)) (before_last-get_elem? v left);
        others = before_last-others inserted v left named ∙ not_pulled_twice inserted visits;
        rows =
            renumber_rows 0 (before_last v left) s s'
              (Distinct-Perm (ids_of (before_last v left)) (ids_of visits)
                (Perm.map (λ u. u.id) same) apart)
              h₂;
      }
