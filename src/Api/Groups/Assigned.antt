-- ===== src/Api/Groups/Assigned.antt =====
-- What `AssignVisitsToGroup` of api/v1_groups.go answers and leaves.
use mop_backend_api.Base.{
  ℕ, suc, ◌≡◌, ◌≢◌, refl, sym, ◌∙◌, ap, subst, true, List, [], ◌∷◌, Option, none, some, ◌==◌, All,
  Distinct, map, arith, ◌⊎◌, inl, inr, Bool-cases,
}
use mop_backend_api.Api.Result.{ok, err, Failure, transaction, Result-cases}
use mop_backend_api.Api.Visits.{Visit, Database, select}
use mop_backend_api.Api.Segments.{Response, internal_error, done}
use mop_backend_api.Api.Rows.{ids_of, select_yes, select_no}
use mop_backend_api.Api.Groups.{
  holds, first_in_group, assign_body, assign_visits_to_group, update_each_status,
}
use mop_backend_api.Api.Places.{position, at_stop, placed}
use mop_backend_api.Api.Groups.Assign.{IsAssigned, assign_body_effect}
use mop_backend_api.Api.Groups.Status.{update_each_status_same}

position-found : (x k : ℕ) (is : List ℕ) → holds is x ≡ true → (p : ℕ) × (position x k is ≡ some p)
position-found x k [] h = absurd (ground arith)
position-found x k (i ∷ is) h = elim (Bool-cases (x == i)) [
  | inl e ↦ (k, rw e refl)
  | inr e ↦ (let (p, q) = position-found x (suc k) is (ground arith) in (p, rw e q))
]

at_stop-id : (g : ℕ) (v : Visit) (o : Option ℕ) → (at_stop (first_in_group g) v o).id ≡ v.id
at_stop-id g v none = refl
at_stop-id g v (some p) = refl

-- the rows of an id of the request have status 2
placed_status :
    (g i : ℕ) (ids : List ℕ) (rows : List Visit)
    → holds ids i ≡ true
    → All
        (λ v. v.status_id ≡ 2)
        (select (λ w. w.id == i) (map (placed (first_in_group g) 0 ids) rows))
placed_status g i ids [] h = tt
placed_status g i ids (v ∷ rows) h =
    elim (Bool-cases ((placed (first_in_group g) 0 ids v).id == i)) [
      | inl e ↦
          let same : v.id ≡ i = sym (at_stop-id g v (position v.id 0 ids)) ∙ ground arith in
          let (p, q) = position-found v.id 0 ids (subst (λ x. holds ids x ≡ true) (sym same) h) in
          subst (All (λ v. v.status_id ≡ 2))
            (sym (
              select_yes (λ w. w.id == i) (placed (first_in_group g) 0 ids v)
                (map (placed (first_in_group g) 0 ids) rows) e))
            (
              subst (λ o. (at_stop (first_in_group g) v o).status_id ≡ 2) (sym q) refl,
              placed_status g i ids rows h,
            )
      | inr e ↦
          subst (All (λ v. v.status_id ≡ 2))
            (sym (
              select_no (λ w. w.id == i) (placed (first_in_group g) 0 ids v)
                (map (placed (first_in_group g) 0 ids) rows) e))
            (placed_status g i ids rows h)
    ]

holds_self :
    (is js : List ℕ)
    → ((x : ℕ) → holds js x ≡ true → holds is x ≡ true)
    → All (λ i. holds is i ≡ true) js
holds_self is [] h = tt
holds_self is (j ∷ js) h = (h j (ground arith), holds_self is js (λ x e. h x (ground arith)))

All-change : {P Q : ℕ → Type 0} (l : List ℕ) → ((x : ℕ) → P x → Q x) → All P l → All Q l
All-change [] f h = tt
All-change (x ∷ l) f h = (f x h.0, All-change l f h.1)

module _ {S : Type 0} (db : Database S) where
  -- so the loop after the transaction finds nothing to do
  loop_keeps :
      (user : ℕ) (ids : List ℕ) (s s' : S)
      → IsAssigned db ids s s'
      → update_each_status db 2 user ids s' ≡ s'
  loop_keeps user ids s s' i = update_each_status_same db 2 user ids s' (
      All-change ids
        (λ k h.
          subst (λ r. All (λ v. v.status_id ≡ 2) (select (λ w. w.id == k) r)) (sym i.rows)
            (placed_status i.group k ids (db.visits s) h))
        (holds_self ids ids (λ x h. h)))

  pub AssignOutcome : (user : Option ℕ) → (ids : Option (List ℕ)) → S → Response × S → Type 0
  AssignOutcome user ids s (r, s') =
      ((r ≢ done) × (s' ≡ s))
      ⊎ ((u : ℕ) × (is : List ℕ) × (user ≡ some u)
          × (ids ≡ some is)
          × (r ≡ done)
          × IsAssigned db is s s')

  assign_done :
      (u : ℕ) (is : List ℕ) (s s₁ : S)
      → assign_body db is s ≡ ok s₁
      → assign_visits_to_group db (some u) (some is) s ≡ (done, update_each_status db 2 u is s₁)
  unfolding assign_visits_to_group transaction
  assign_done u is s s₁ e = ground arith

  assign_failed :
      (u : ℕ) (is : List ℕ) (s : S) (f : Failure)
      → assign_body db is s ≡ err f
      → assign_visits_to_group db (some u) (some is) s ≡ (internal_error f, s)
  unfolding assign_visits_to_group transaction
  assign_failed u is s f e = ground arith

  -- With distinct visit ids, `AssignVisitsToGroup` either does not answer `done` and leaves the tables
  -- as they were, or it was called with distinct ids of visits, and then these visits are the stops,
  -- in the order of the request and from 0 on, of a group that no visit was in before, in one valid
  -- segment and with status 2, no other visit has changed, and no change of status is logged.
  pub assign_visits_to_group_effect :
      (user : Option ℕ) (ids : Option (List ℕ)) (s : S)
      → Distinct (ids_of (db.visits s))
      → AssignOutcome user ids s (assign_visits_to_group db user ids s)
  unfolding AssignOutcome assign_visits_to_group
  assign_visits_to_group_effect none ids s d = inl ((λ p. absurd (ground arith)), refl)
  assign_visits_to_group_effect (some u) none s d = inl ((λ p. absurd (ground arith)), refl)
  assign_visits_to_group_effect (some u) (some is) s d = elim (Result-cases (assign_body db is s)) [
    | inl (s₁, e) ↦
        let kept = assign_body_effect db is s s₁ d e in
        subst (AssignOutcome (some u) (some is) s)
          (sym (assign_done u is s s₁ e ∙ ap (λ t. (done, t)) (loop_keeps u is s s₁ kept)))
          (inr (u, is, refl, refl, refl, kept))
    | inr (f, e) ↦
        subst (AssignOutcome (some u) (some is) s) (sym (assign_failed u is s f e))
          (inl ((λ p. absurd (ground arith)), refl))
  ]
