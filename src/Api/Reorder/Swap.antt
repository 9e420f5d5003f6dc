-- ===== src/Api/Reorder/Swap.antt =====
-- What a `ReorderVisit` of api/v1_routing.go that succeeds has done to the tables.
use mop_backend_api.Base.{
  ℕ, ◌≡◌, ◌≢◌, refl, sym, ◌∙◌, ap, subst, Bool, true, false, List, [], ◌∷◌, Option, some, ◌==◌,
  if◌then◌else◌, All, map, arith, inl, inr, Bool-cases, Option-cases,
}
use mop_backend_api.Api.Result.{
  ok, database, not_found, no_stop, end_of_route, boundary, nil_index, >>=-eq-ok, >>-eq-ok,
  or_fail-eq-ok, guard-eq-ok, head_or_fail-eq-ok,
}
use mop_backend_api.Api.Visits.{
  Visit, Database, deref_uint, select, rewrite, IsFirst, Rises, Falls, has_stop,
}
use mop_backend_api.Api.Rows.{Among-select, select_yes, select_no}
use mop_backend_api.Api.Segments.{unauthorized}
use mop_backend_api.Api.Segments.Changes.{
  update_visit_value_rows, check_group_effect, IsChecked, IsFound, HandleOutcome, handle-Outcome,
  unauthorized_ne_done,
}
use mop_backend_api.Api.Reorder.{
  Direction, up, down, ReorderInput, on_side, with_stop, neighbour, reorder_body, reorder_visit,
}

-- two visits exchange their stops
abbrev pub exchanged : (first second : ℕ) → (stop other : ℕ) → Visit → Visit
exchanged first second stop other w =
    if w.id == first then with_stop other w else (if w.id == second then with_stop stop w else w)

abbrev change_at : ℕ → (Visit → Visit) → Visit → Visit
change_at i f w = if w.id == i then f w else w

change_yes : (i : ℕ) (f : Visit → Visit) (w : Visit) → (w.id == i) ≡ true → change_at i f w ≡ f w
change_yes i f w e = ap (λ b. if b then f w else w) e

change_no : (i : ℕ) (f : Visit → Visit) (w : Visit) → (w.id == i) ≡ false → change_at i f w ≡ w
change_no i f w e = ap (λ b. if b then f w else w) e

exchanged_first :
    (first second stop other : ℕ) (w : Visit)
    → (w.id == first) ≡ true
    → exchanged first second stop other w ≡ with_stop other w
exchanged_first first second stop other w e =
    ap (λ b. if b then with_stop other w else change_at second (with_stop stop) w) e

change_no_after :
    (first second stop other : ℕ) (w : Visit)
    → (w.id == first) ≡ false
    → change_at first (with_stop other) (change_at second (with_stop stop) w)
      ≡ change_at second (with_stop stop) w
change_no_after first second stop other w e = elim (Bool-cases (w.id == second)) [
  | inl k ↦
      subst (λ u. change_at first (with_stop other) u ≡ u)
        (sym (change_yes second (with_stop stop) w k))
        (change_no first (with_stop other) (with_stop stop w) e)
  | inr k ↦
      subst (λ u. change_at first (with_stop other) u ≡ u)
        (sym (change_no second (with_stop stop) w k)) (change_no first (with_stop other) w e)
]

three_changes :
    (first second stop other : ℕ) (w : Visit)
    → first ≢ second
    → change_at first
        (with_stop other)
        (change_at second (with_stop stop) (change_at first (with_stop 0) w))
      ≡ exchanged first second stop other w
three_changes first second stop other w ne = elim (Bool-cases (w.id == first)) [
  | inl e ↦
      ap (λ u. change_at first (with_stop other) (change_at second (with_stop stop) u))
        (change_yes first (with_stop 0) w e)
      ∙ ap (change_at first (with_stop other))
          (change_no second (with_stop stop) (with_stop 0 w) (ground arith))
      ∙ change_yes first (with_stop other) (with_stop 0 w) e
      ∙ sym (exchanged_first first second stop other w e)
  | inr e ↦
      ap (λ u. change_at first (with_stop other) (change_at second (with_stop stop) u))
        (change_no first (with_stop 0) w e)
      ∙ change_no_after first second stop other w e
      ∙ sym (ap (λ b. if b then with_stop other w else change_at second (with_stop stop) w) e)
]

cons_eq : {x y : Visit} {xs ys : List Visit} → x ≡ y → xs ≡ ys → x ∷ xs ≡ y ∷ ys
cons_eq p q = rw (p, q) refl

three_updates :
    (first second stop other : ℕ) (rows : List Visit)
    → first ≢ second
    → rewrite
        (λ w. w.id == first)
        (with_stop other)
        (rewrite
          (λ w. w.id == second)
          (with_stop stop)
          (rewrite (λ w. w.id == first) (with_stop 0) rows))
      ≡ map (exchanged first second stop other) rows
three_updates first second stop other [] ne = refl
three_updates first second stop other (w ∷ rows) ne =
    cons_eq (three_changes first second stop other w ne)
      (three_updates first second stop other rows ne)

-- the neighbour on a side: the nearest visit of those
unfoldable pub IsNeighbour : Direction → (group id stop : ℕ) → List Visit → Visit → Type 0
IsNeighbour up group id stop rows v =
    IsFirst Falls (select (on_side up group id stop) rows) (some v)
IsNeighbour down group id stop rows v =
    IsFirst Rises (select (on_side down group id stop) rows) (some v)

select-has_stop :
    (p : Visit → Bool) (rows : List Visit)
    → ((v : Visit) → p v ≡ true → has_stop v ≡ true)
    → All (λ v. has_stop v ≡ true) (select p rows)
select-has_stop p [] h = tt
select-has_stop p (v ∷ rows) h = elim (Bool-cases (p v)) [
  | inl e ↦
      subst (All (λ v. has_stop v ≡ true)) (sym (select_yes p v rows e))
        (h v e, select-has_stop p rows h)
  | inr e ↦
      subst (All (λ v. has_stop v ≡ true)) (sym (select_no p v rows e)) (select-has_stop p rows h)
]

on_side-has_stop :
    (d : Direction) (group id stop : ℕ) (v : Visit)
    → on_side d group id stop v ≡ true
    → has_stop v ≡ true
on_side-has_stop up group id stop v h = elim (Option-cases v.stop_nr) [
  | inl e ↦ absurd (ground arith)
  | inr (k, e) ↦ rw e refl
]
on_side-has_stop down group id stop v h = elim (Option-cases v.stop_nr) [
  | inl e ↦ absurd (ground arith)
  | inr (k, e) ↦ rw e refl
]

module _ {S : Type 0} (db : Database S) where
  neighbour_found :
      (d : Direction) (group id stop : ℕ) (s : S) (v : Visit)
      → neighbour db d group id stop s ≡ some (some v)
      → IsNeighbour d group id stop (db.visits s) v
  unfolding neighbour IsNeighbour
  neighbour_found up group id stop s v h =
      db.first_desc_rows (on_side up group id stop) s (some v) h (
        select-has_stop (on_side up group id stop) (db.visits s)
          (on_side-has_stop up group id stop))
  neighbour_found down group id stop s v h =
      db.first_asc_rows (on_side down group id stop) s (some v) h (
        select-has_stop (on_side down group id stop) (db.visits s)
          (on_side-has_stop down group id stop))

  IsNeighbour-other :
      (d : Direction) (group id stop : ℕ) (rows : List Visit) (v : Visit)
      → IsNeighbour d group id stop rows v
      → id ≢ v.id
  unfolding IsNeighbour
  IsNeighbour-other up group id stop rows v h e =
      let side = Among-select (on_side up group id stop) v rows h.0 in absurd (ground arith)
  IsNeighbour-other down group id stop rows v h e =
      let side = Among-select (on_side down group id stop) v rows h.0 in absurd (ground arith)

  -- The visit has exchanged its stop with its neighbour in the direction, which is in its segment.
  pub record IsSwapped (group : ℕ) (input : ReorderInput) (s s' : S) : Type 0 where
    pub stop : ℕ
    pub at_visit : IsFound db group input.visit stop s
    pub other : Visit
    pub other_stop : ℕ
    pub nearest : IsNeighbour input.direction group at_visit.row.id stop (db.visits s) other
    pub other_stopped : other.stop_nr ≡ some other_stop
    pub same_segment : deref_uint at_visit.row.segment_index ≡ deref_uint other.segment_index
    pub rows : db.visits s' ≡ map (exchanged at_visit.row.id other.id stop other_stop) (db.visits s)
    pub checked : IsChecked db group s'

  reorder_body_effect :
      (s : S) (user group : ℕ) (input : ReorderInput) (s' : S)
      → reorder_body db user group input s ≡ ok s'
      → IsSwapped group input s s'
  unfolding reorder_body
  reorder_body_effect s user group input s' h =
      let (found, e₁, h₁) = >>=-eq-ok _ _ h in
      let (v, e₂, h₂) = >>=-eq-ok _ _ h₁ in
      let (stop, e₃, h₃) = >>=-eq-ok _ _ h₂ in
      let (answer, e₄, h₄) = >>=-eq-ok _ _ h₃ in
      let (other, e₅, h₅) = >>=-eq-ok _ _ h₄ in
      let (e₆, h₆) = >>-eq-ok _ _ h₅ in
      let (other_stop, e₇, h₇) = >>=-eq-ok _ _ h₆ in
      let (one, e₈, h₈) = >>=-eq-ok _ _ h₇ in
      let (both, e₉, h₉) = >>=-eq-ok _ _ h₈ in
      let (parked, e₁₀, h₁₀) = >>=-eq-ok _ _ h₉ in
      let (moved, e₁₁, h₁₁) = >>=-eq-ok _ _ h₁₀ in
      let (swapped, e₁₂, h₁₂) = >>=-eq-ok _ _ h₁₁ in
      let (r, first) = head_or_fail-eq-ok found not_found e₂ in
      let asked = or_fail-eq-ok _ database e₄ ∙ ap some (or_fail-eq-ok _ end_of_route e₅) in
      let near = neighbour_found input.direction group v.id stop s other asked in
      let (same, checked) = check_group_effect db group swapped s' h₁₂ in
      let logged =
        update_visit_value_rows db other.id (some stop) user _ one both e₉
        ∙ update_visit_value_rows db v.id (some other_stop) user _ s one e₈ in
      record {
        stop = stop;
        at_visit = record {
          row = v;
          rest = r;
          found = sym (db.find_rows _ s found (or_fail-eq-ok _ database e₁)) ∙ first;
          stopped = or_fail-eq-ok _ no_stop e₃;
        };
        other = other;
        other_stop = other_stop;
        nearest = near;
        other_stopped = or_fail-eq-ok _ nil_index e₇;
        same_segment = (let g = guard-eq-ok _ boundary e₆ in ground arith);
        rows =
            same
            ∙ db.update_rows _ _ moved swapped (or_fail-eq-ok _ database e₁₂)
            ∙ ap (rewrite (λ w. w.id == v.id) (with_stop other_stop)) (
                db.update_rows _ _ parked moved (or_fail-eq-ok _ database e₁₁)
                ∙ ap (rewrite (λ w. w.id == other.id) (with_stop stop)) (
                    db.update_rows _ _ both parked (or_fail-eq-ok _ database e₁₀)
                    ∙ ap (rewrite (λ w. w.id == v.id) (with_stop 0)) logged))
            ∙ three_updates v.id other.id stop other_stop (db.visits s)
                (IsNeighbour-other input.direction group v.id stop (db.visits s) other near);
        checked = checked;
      }

  -- `ReorderVisit` either does not answer `done` and leaves the tables as they were, or it was called
  -- for a visit of the group with a stop, and then this visit and the nearest one of the group on the
  -- asked side, which is in the same segment, have exchanged their stops, no other row has changed,
  -- the group's segments are valid and no route is stored for it.
  pub reorder_visit_effect :
      (user group : Option ℕ) (input : Option ReorderInput) (s : S)
      → HandleOutcome (λ u. IsSwapped) user group input s (reorder_visit db user group input s)
  unfolding reorder_visit
  reorder_visit_effect user group input s =
      handle-Outcome unauthorized (reorder_body db) (λ u. IsSwapped) s (reorder_body_effect s)
        unauthorized_ne_done user group input
