-- ===== src/Api/Move/Effect.antt =====
-- What a `ChangeGroupId` of api/v1_groups.go that succeeds has done to the tables.
use mop_backend_api.Base.{
  ℕ, ◌≤◌, ◌≡◌, refl, sym, ◌∙◌, ap, subst, Bool, false, List, [], ◌∷◌, Option, none, some, ◌==◌,
  if◌then◌else◌, All, Distinct, ◌⊎◌, inl, inr, Bool-cases, Option-cases, ltb,
}
use mop_backend_api.Api.Result.{Result, ok, or_fail, database, >>=-eq-ok, or_fail-eq-ok}
use mop_backend_api.Api.Visits.{Visit, Database, select, rewrite, group_id}
use mop_backend_api.Api.Rows.{ok_eq, ids_of}
use mop_backend_api.Api.Segments.{unverified}
use mop_backend_api.Api.Segments.Changes.{update_visit_value_rows, HandleOutcome, handle-Outcome}
use mop_backend_api.Api.Groups.{next_vacant_group_id}
use mop_backend_api.Api.Groups.Vacant.{IsVacant, IsVacant-of_next, next_vacant_group_id_lem}
use mop_backend_api.Api.Groups.Status.{row_of_found}
use mop_backend_api.Api.Groups.Whole.{unverified_ne_done}
use mop_backend_api.Api.Reorder.Fix.{IsReinserted, fix_route_order_effect}
use mop_backend_api.Api.Move.{
  Destination, or_kept, moved_to, is_sibling, beside, destination, moved_row, resequenced,
  old_cleared, new_cleared, change_group_body, change_group_id,
}

ids_of-rewrite :
    (p : Visit → Bool) (f : Visit → Visit) (l : List Visit)
    → ((v : Visit) → (f v).id ≡ v.id)
    → ids_of (rewrite p f l) ≡ ids_of l
ids_of-rewrite p f [] h = refl
ids_of-rewrite p f (v ∷ l) h = elim (Bool-cases (p v)) [
  | inl e ↦ rw (e, h v, ids_of-rewrite p f l h) refl
  | inr e ↦ rw (e, ids_of-rewrite p f l h) refl
]

-- Where a visit goes: nowhere, to the day and the user of another visit of the group, or, where the
-- group has no other visit, to a group that no visit is in.
pub IsDestination : List Visit → Visit → (visit : ℕ) → (target : Option ℕ) → Destination → Type 0
IsDestination rows v visit none d =
    d ≡ record { group = none; date = v.visit_date; user = v.user_id }
IsDestination rows v visit (some g) d =
    ((w : Visit) × (rest : List Visit) × (select (is_sibling g visit) rows ≡ w ∷ rest)
      × (d ≡ record { group = some g; date = w.visit_date; user = w.user_id }))
    ⊎ ((n : ℕ) × (select (is_sibling g visit) rows ≡ [])
        × (1 ≤ n)
        × IsVacant n rows
        × (d ≡ record { group = some n; date = v.visit_date; user = v.user_id }))

module _ {S : Type 0} (db : Database S) (in_struct : Option ℕ → Option ℕ → Option ℕ) where
  beside-IsDestination :
      (v : Visit) (visit g : ℕ) (s : S) (l : List Visit) (d : Destination)
      → l ≡ select (is_sibling g visit) (db.visits s)
      → beside db in_struct v g l s ≡ ok d
      → IsDestination (db.visits s) v visit (some g) d
  unfolding beside IsDestination
  beside-IsDestination v visit g s [] d rows h =
      let (n, e, r) = >>=-eq-ok _ _ h in
      let (low, vacant) =
        IsVacant-of_next (db.visits s) (next_vacant_group_id db s) n (next_vacant_group_id_lem db s)
          e in
      inr (n, sym rows, low, vacant, sym (ok_eq r))
  beside-IsDestination v visit g s (w ∷ ws) d rows h = inl (w, ws, sym rows, sym (ok_eq h))

  destination-IsDestination :
      (v : Visit) (visit : ℕ) (target : Option ℕ) (s : S) (d : Destination)
      → destination db in_struct v visit target s ≡ ok d
      → IsDestination (db.visits s) v visit target d
  unfolding destination IsDestination
  destination-IsDestination v visit none s d h = sym (ok_eq h)
  destination-IsDestination v visit (some g) s d h =
      let (l, e, r) = >>=-eq-ok _ _ h in
      beside-IsDestination v visit g s l d (db.find_rows _ s l (or_fail-eq-ok _ database e)) r

  -- The update of the row, or its error, which is dropped: then nothing has happened.
  pub IsRowMoved : Visit → Destination → S → S → Type 0
  IsRowMoved v d logged mid =
      (db.visits mid ≡ rewrite (λ w. w.id == v.id) (moved_to d) (db.visits logged))
      ⊎ ((db.update (λ w. w.id == v.id) (moved_to d) logged ≡ none) × (mid ≡ logged))

  moved_row-IsRowMoved :
      (v : Visit) (d : Destination) (logged : S)
      → IsRowMoved v d logged (moved_row db in_struct v d logged)
  unfolding moved_row IsRowMoved
  moved_row-IsRowMoved v d logged =
      elim (Option-cases (db.update (λ w. w.id == v.id) (moved_to d) logged)) [
        | inl e ↦ subst (λ o. IsRowMoved v d logged (or_kept logged o)) (sym e) (inr (e, refl))
        | inr (t, e) ↦
            subst (λ o. IsRowMoved v d logged (or_kept logged o)) (sym e)
              (inl (db.update_rows _ _ logged t e))
      ]

  ids_kept :
      (v : Visit) (d : Destination) (s mid : S)
      → IsRowMoved v d s mid
      → Distinct (ids_of (db.visits s))
      → Distinct (ids_of (db.visits mid))
  unfolding IsRowMoved
  ids_kept v d s mid (inl e) h =
      subst Distinct
        (sym
          (ap ids_of e ∙ ids_of-rewrite (λ w. w.id == v.id) (moved_to d) (db.visits s) (λ w. refl)))
        h
  ids_kept v d s mid (inr (_, e)) h = subst (λ t. Distinct (ids_of (db.visits t))) (sym e) h

  -- the group in its new order, where there is one
  pub IsResequenced : Option ℕ → (visit : ℕ) → S → S → Type 0
  IsResequenced none visit mid t = db.visits t ≡ db.visits mid
  IsResequenced (some g) visit mid t = IsReinserted db g visit mid t

  resequenced-IsResequenced :
      (group : Option ℕ) (visit : ℕ) (mid t : S)
      → Distinct (ids_of (db.visits mid))
      → resequenced db in_struct group visit mid ≡ ok t
      → IsResequenced group visit mid t
  unfolding resequenced IsResequenced
  resequenced-IsResequenced none visit mid t d h = ap (λ u. db.visits u) (sym (ok_eq h))
  resequenced-IsResequenced (some g) visit mid t d h = fix_route_order_effect db g visit mid t d h

  abbrev cleared_if : Bool → (group : ℕ) → S → Result S
  cleared_if b g s = if b then or_fail (db.delete_route g s) database else ok s

  old_cleared_rows :
      (group : Option ℕ) (s t : S)
      → old_cleared db in_struct group s ≡ ok t
      → db.visits t ≡ db.visits s
  unfolding old_cleared
  old_cleared_rows none s t h = ap (λ u. db.visits u) (sym (ok_eq h))
  old_cleared_rows (some g) s t h = elim (Bool-cases (ltb 0 g)) [
    | inl e ↦
        db.route_rows g s t (or_fail-eq-ok _ database (subst (λ b. cleared_if b g s ≡ ok t) e h))
    | inr e ↦ ap (λ u. db.visits u) (sym (ok_eq (subst (λ b. cleared_if b g s ≡ ok t) e h)))
  ]

  -- no route is stored for the group
  pub IsUnrouted : Option ℕ → S → Type 0
  IsUnrouted none s = Unit
  IsUnrouted (some g) s = All (λ h. (h == g) ≡ false) (db.routes s)

  new_cleared_effect :
      (group : Option ℕ) (s t : S)
      → new_cleared db in_struct group s ≡ ok t
      → (db.visits t ≡ db.visits s) × IsUnrouted group t
  unfolding new_cleared IsUnrouted
  new_cleared_effect none s t h = (ap (λ u. db.visits u) (sym (ok_eq h)), tt)
  new_cleared_effect (some g) s t h =
      let e = or_fail-eq-ok _ database h in (db.route_rows g s t e, db.route_gone g s t e)

  -- A visit has moved. Its row is `row`, `logged` are the tables with the log
  -- entry, and `mid` those before the stops are numbered.
  pub record IsMoved (visit : ℕ) (target : Option ℕ) (s s' : S) : Type 0 where
    pub row : Visit
    pub rest : List Visit
    pub found : select (λ w. w.id == visit) (db.visits s) ≡ row ∷ rest
    pub to : Destination
    pub chosen : IsDestination (db.visits s) row visit target to
    pub logged : S
    pub unchanged : db.visits logged ≡ db.visits s
    pub mid : S
    pub moved : IsRowMoved row to logged mid
    pub numbered : S
    pub order : IsResequenced to.group visit mid numbered
    pub rows : db.visits s' ≡ db.visits numbered
    pub unrouted : IsUnrouted to.group s'

  change_group_body_effect :
      (s : S) (d : Distinct (ids_of (db.visits s))) (user visit : ℕ) (target : Option ℕ) (s' : S)
      → change_group_body db in_struct user visit target s ≡ ok s'
      → IsMoved visit target s s'
  unfolding change_group_body
  change_group_body_effect s apart user visit target s' h =
      let (v, e₁, h₁) = >>=-eq-ok _ _ h in
      let (d, e₂, h₂) = >>=-eq-ok _ _ h₁ in
      let (logged, e₃, h₃) = >>=-eq-ok _ _ h₂ in
      let (placed, e₄, h₄) = >>=-eq-ok _ _ h₃ in
      let (cleared, e₅, h₅) = >>=-eq-ok _ _ h₄ in
      let (rest, found) = row_of_found db visit s v e₁ in
      let same = update_visit_value_rows db visit d.group user group_id s logged e₃ in
      let moved = moved_row-IsRowMoved v d logged in
      let (kept, unrouted) = new_cleared_effect d.group cleared s' h₅ in
      record {
        row = v;
        rest = rest;
        found = found;
        to = d;
        chosen = destination-IsDestination v visit target s d e₂;
        logged = logged;
        unchanged = same;
        mid = moved_row db in_struct v d logged;
        moved = moved;
        numbered = placed;
        order =
            resequenced-IsResequenced d.group visit (moved_row db in_struct v d logged) placed
              (ids_kept v d logged (moved_row db in_struct v d logged) moved
                (subst (λ r. Distinct (ids_of r)) (sym same) apart))
              e₄;
        rows = kept ∙ old_cleared_rows (in_struct v.group_id d.group) placed cleared e₅;
        unrouted = unrouted;
      }

  -- With distinct visit ids, and whatever gorm writes into the struct of the visit, `ChangeGroupId`
  -- either does not answer `done` and leaves the tables as they were, or it has found the visit and
  -- given it, unless the database failed at just this update, the group asked for with the day and
  -- the user of another visit in it, or a new group where there is none, or no group. The stops of
  -- that group are numbered as `fixRouteOrder` does, no other row has changed, and no route is
  -- stored for it.
  pub change_group_id_effect :
      (user visit : Option ℕ) (target : Option (Option ℕ)) (s : S)
      → Distinct (ids_of (db.visits s))
      → HandleOutcome
          (λ u. IsMoved)
          user
          visit
          target
          s
          (change_group_id db in_struct user visit target s)
  unfolding change_group_id
  change_group_id_effect user visit target s d =
      handle-Outcome unverified (change_group_body db in_struct) (λ u. IsMoved) s
        (change_group_body_effect s d) unverified_ne_done user visit target
