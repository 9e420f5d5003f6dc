-- ===== src/Api/Segments/Changes.antt =====
-- What a split or a join that succeeds has done to the tables.
use mop_backend_api.Base.{
  ℕ, zero, suc, ◌-◌, ◌≡◌, ◌≢◌, refl, sym, ◌∙◌, ap, subst, true, false, ◌&&◌, List, [], ◌∷◌, Option,
  none, some, ◌==◌, All, arith, ◌⊎◌, inl, inr,
}
use mop_backend_api.Api.Result.{
  Failure, Result, ok, err, transaction, database, not_found, no_stop, invalid, >>=-eq-ok, >>-eq-ok,
  Result-cases, or_fail-eq-ok, guard-eq-ok, head_or_fail-eq-ok,
}
use mop_backend_api.Api.Visits.{Visit, Field, in_group, Database, select, rewrite, segment_index}
use mop_backend_api.Api.Segments.{
  segments_valid, update_visit_value, log_each, check_group, from_stop, index_up, index_down,
  index_after_join, split_body, join_body, split_segment, join_segment, handle, Response, done,
  internal_error, unauthorized,
}

module _ {S : Type 0} (db : Database S) where
  pub update_visit_value_rows :
      (visit : ℕ) (new : Option ℕ) (user : ℕ) (field : Field) (s s' : S)
      → update_visit_value db visit new user field s ≡ ok s'
      → db.visits s' ≡ db.visits s
  unfolding update_visit_value
  update_visit_value_rows visit new user field s s' h =
      let (found, e₁, h₁) = >>=-eq-ok _ _ h in
      let (v, e₂, h₂) = >>=-eq-ok _ _ h₁ in db.log_rows _ s s' (or_fail-eq-ok _ database h₂)

  pub log_each_rows :
      (field : Field) (user : ℕ) (new : Visit → Result ℕ) (l : List Visit) (s s' : S)
      → log_each db field user new l s ≡ ok s'
      → db.visits s' ≡ db.visits s
  unfolding log_each
  log_each_rows field user new [] s s' h = ground arith
  log_each_rows field user new (v ∷ l) s s' h =
      let (n, e₁, h₁) = >>=-eq-ok _ _ h in
      let (s₁, e₂, h₂) = >>=-eq-ok _ _ h₁ in
      log_each_rows field user new l s₁ s' h₂
      ∙ update_visit_value_rows v.id (some n) user field s s₁ e₂

  -- The group's segments are in order, and no route is stored for it.
  pub record IsChecked (group : ℕ) (s : S) : Type 0 where
    pub segments : segments_valid (db.sort (select (in_group group) (db.visits s))) ≡ true
    pub routes : All (λ h. (h == group) ≡ false) (db.routes s)

  pub check_group_effect :
      (group : ℕ) (s s' : S)
      → check_group db group s ≡ ok s'
      → (db.visits s' ≡ db.visits s) × IsChecked group s'
  unfolding check_group
  check_group_effect group s s' h =
      let (all, e₁, h₁) = >>=-eq-ok _ _ h in
      let (e₂, h₂) = >>-eq-ok _ _ h₁ in
      let removed = or_fail-eq-ok _ database h₂ in
      let rows = db.find_rows (in_group group) s all (or_fail-eq-ok _ database e₁) in
      let same = db.route_rows group s s' removed in
      (
        same,
        record {
          segments = rw (same, ← rows) (guard-eq-ok _ invalid e₂);
          routes = db.route_gone group s s' removed;
        },
      )

  -- The visit that a handler was called for, and the stop that it has.
  pub record IsFound (group visit stop : ℕ) (s : S) : Type 0 where
    pub row : Visit
    pub rest : List Visit
    pub found : select (λ v. in_group group v && v.id == visit) (db.visits s) ≡ row ∷ rest
    pub stopped : row.stop_nr ≡ some stop

  -- exactly the visits of the group from a stop on have changed
  pub record IsShifted (change : Visit → Visit) (group visit : ℕ) (s s' : S) : Type 0 where
    pub stop : ℕ
    pub at_visit : IsFound group visit stop s
    pub rows : db.visits s' ≡ rewrite (from_stop group stop) change (db.visits s)
    pub checked : IsChecked group s'

  pub split_body_effect :
      (user group visit : ℕ) (s s' : S)
      → split_body db user group visit s ≡ ok s'
      → IsShifted index_up group visit s s'
  unfolding split_body
  split_body_effect user group visit s s' h =
      let (found, e₁, h₁) = >>=-eq-ok _ _ h in
      let (v, e₂, h₂) = >>=-eq-ok _ _ h₁ in
      let (stop, e₃, h₃) = >>=-eq-ok _ _ h₂ in
      let (before, e₄, h₄) = >>=-eq-ok _ _ h₃ in
      let (one, e₅, h₅) = >>=-eq-ok _ _ h₄ in
      let (affected, e₆, h₆) = >>=-eq-ok _ _ h₅ in
      let (logged, e₇, h₇) = >>=-eq-ok _ _ h₆ in
      let (moved, e₈, h₈) = >>=-eq-ok _ _ h₇ in
      let (r, first) = head_or_fail-eq-ok found not_found e₂ in
      let (same, checked) = check_group_effect group moved s' h₈ in
      record {
        stop = stop;
        at_visit = record {
          row = v;
          rest = r;
          found = sym (db.find_rows _ s found (or_fail-eq-ok _ database e₁)) ∙ first;
          stopped = or_fail-eq-ok _ no_stop e₃;
        };
        rows =
            same
            ∙ db.update_rows _ _ logged moved (or_fail-eq-ok _ database e₈)
            ∙ ap (rewrite (from_stop group stop) index_up)
                (log_each_rows _ user _ affected s logged e₇);
        checked = checked;
      }

  -- the segment index is there and above 0, and becomes one lower
  abbrev pub IsLowered : Visit → Type 0
  IsLowered v = (n : ℕ) × (v.segment_index ≡ some (suc n)) × ((index_down v).segment_index ≡ some n)

  IsLowered-index_after_join :
      (v : Visit) (i : Option ℕ) (m : ℕ)
      → v.segment_index ≡ i
      → index_after_join v ≡ ok m
      → IsLowered v
  IsLowered-index_after_join v none m e h = absurd (ground arith)
  IsLowered-index_after_join v (some zero) m e h = absurd (ground arith)
  IsLowered-index_after_join v (some (suc n)) m e h =
      let less : suc n - 1 ≡ n = omega arith in (n, e, rw (e, less) refl)

  log_each-IsLowered :
      (user : ℕ) (l : List Visit) (s s' : S)
      → log_each db segment_index user index_after_join l s ≡ ok s'
      → All IsLowered l
  unfolding log_each
  log_each-IsLowered user [] s s' h = tt
  log_each-IsLowered user (v ∷ l) s s' h =
      let (n, e₁, h₁) = >>=-eq-ok _ _ h in
      let (s₁, e₂, h₂) = >>=-eq-ok _ _ h₁ in
      (IsLowered-index_after_join v v.segment_index n refl e₁, log_each-IsLowered user l s₁ s' h₂)

  -- exactly the visits of the group from a stop on are one segment lower, and each was above segment 0
  pub record IsJoined (group visit : ℕ) (s s' : S) : Type 0 where
    pub shifted : IsShifted index_down group visit s s'
    pub lowered : All IsLowered (select (from_stop group shifted.stop) (db.visits s))

  pub join_body_effect :
      (user group visit : ℕ) (s s' : S)
      → join_body db user group visit s ≡ ok s'
      → IsJoined group visit s s'
  unfolding join_body
  join_body_effect user group visit s s' h =
      let (found, e₁, h₁) = >>=-eq-ok _ _ h in
      let (v, e₂, h₂) = >>=-eq-ok _ _ h₁ in
      let (stop, e₃, h₃) = >>=-eq-ok _ _ h₂ in
      let (index, e₄, h₄) = >>=-eq-ok _ _ h₃ in
      let (before, e₅, h₅) = >>=-eq-ok _ _ h₄ in
      let (previous, e₆, h₆) = >>=-eq-ok _ _ h₅ in
      let (e₇, h₇) = >>-eq-ok _ _ h₆ in
      let (affected, e₈, h₈) = >>=-eq-ok _ _ h₇ in
      let (logged, e₉, h₉) = >>=-eq-ok _ _ h₈ in
      let (moved, e₁₀, h₁₀) = >>=-eq-ok _ _ h₉ in
      let (r, first) = head_or_fail-eq-ok found not_found e₂ in
      let (same, checked) = check_group_effect group moved s' h₁₀ in
      record {
        shifted = record {
          stop = stop;
          at_visit = record {
            row = v;
            rest = r;
            found = sym (db.find_rows _ s found (or_fail-eq-ok _ database e₁)) ∙ first;
            stopped = or_fail-eq-ok _ no_stop e₃;
          };
          rows =
              same
              ∙ db.update_rows _ _ logged moved (or_fail-eq-ok _ database e₁₀)
              ∙ ap (rewrite (from_stop group stop) index_down)
                  (log_each_rows _ user _ affected s logged e₉);
          checked = checked;
        };
        lowered =
            subst (All IsLowered) (db.find_rows _ s affected (or_fail-eq-ok _ database e₈))
              (log_each-IsLowered user affected s logged e₉);
      }

-- a handler that answers `done` has run its body to the end
handle_done :
    {S A : Type 0} (denied : Response) (body : (user group : ℕ) → A → S → Result S) (u g : ℕ)
    (a : A) (s s₁ : S)
    → body u g a s ≡ ok s₁
    → handle denied body (some u) (some g) (some a) s ≡ (done, s₁)
unfolding handle transaction
handle_done denied body u g a s s₁ e = ground arith

handle_failed :
    {S A : Type 0} (denied : Response) (body : (user group : ℕ) → A → S → Result S) (u g : ℕ)
    (a : A) (s : S) (f : Failure)
    → body u g a s ≡ err f
    → handle denied body (some u) (some g) (some a) s ≡ (internal_error f, s)
unfolding handle transaction
handle_failed denied body u g a s f e = ground arith

-- What a handler leaves: with any other answer than `done` the tables as they were, and with
-- `done`, for a user, a group and an input, what its body promises.
unfoldable pub HandleOutcome :
    {S A : Type 0}
    → (promise : (user group : ℕ) → A → S → S → Type 0) → (user group : Option ℕ)
    → (input : Option A) → S
    → Response × S
    → Type 0
HandleOutcome {A} promise user group input s (r, s') =
    ((r ≢ done) × (s' ≡ s))
    ⊎ ((u : ℕ) × (g : ℕ) × (a : A) × (user ≡ some u)
        × (group ≡ some g)
        × (input ≡ some a)
        × (r ≡ done)
        × promise u g a s s')

pub handle-Outcome :
    {S A : Type 0} (denied : Response) (body : (user group : ℕ) → A → S → Result S)
    (promise : (user group : ℕ) → A → S → S → Type 0) (s : S)
    (kept : (u g : ℕ) (a : A) (s' : S) → body u g a s ≡ ok s' → promise u g a s s')
    (other : denied ≢ done) (user group : Option ℕ) (input : Option A)
    → HandleOutcome promise user group input s (handle denied body user group input s)
unfolding HandleOutcome handle transaction
handle-Outcome denied body promise s kept other none group input = inl (other, refl)
handle-Outcome denied body promise s kept other (some u) none input =
    inl ((λ p. absurd (ground arith)), refl)
handle-Outcome denied body promise s kept other (some u) (some g) none =
    inl ((λ p. absurd (ground arith)), refl)
handle-Outcome denied body promise s kept other (some u) (some g) (some a) =
    elim (Result-cases (body u g a s)) [
      | inl (s₁, e) ↦
          subst (HandleOutcome promise (some u) (some g) (some a) s)
            (sym (handle_done denied body u g a s s₁ e))
            (inr (u, g, a, refl, refl, refl, refl, kept u g a s₁ e))
      | inr (f, e) ↦
          subst (HandleOutcome promise (some u) (some g) (some a) s)
            (sym (handle_failed denied body u g a s f e)) (inl ((λ p. absurd (ground arith)), refl))
    ]

pub unauthorized_ne_done : unauthorized ≢ done
unauthorized_ne_done p = absurd (ground arith)

module _ {S : Type 0} (db : Database S) where
  -- Whatever the database answers, `SplitSegment` either does not answer `done` and leaves the tables
  -- as they were, or it was called for a user, a group and a visit of the group with a stop number,
  -- and then: the segment index of exactly the group's visits from that stop on is one higher,
  -- every other row is as before, the group's segments are valid and no route is stored for it.
  pub split_segment_effect :
      (user group visit : Option ℕ) (s : S)
      → HandleOutcome
          (λ u. IsShifted db index_up)
          user
          group
          visit
          s
          (split_segment db user group visit s)
  unfolding split_segment
  split_segment_effect user group visit s =
      handle-Outcome unauthorized (split_body db) (λ u. IsShifted db index_up) s
        (λ u g v s'. split_body_effect db u g v s s') unauthorized_ne_done user group visit

  -- Whatever the database answers, `JoinSegment` either does not answer `done` and leaves the tables
  -- as they were, or it was called for a user, a group and a visit of the group with a stop number,
  -- and then: each of the group's visits from that stop on had a segment index above 0, which is now
  -- one lower, every other row is as before, the group's segments are valid and no route is stored
  -- for it.
  pub join_segment_effect :
      (user group visit : Option ℕ) (s : S)
      → HandleOutcome (λ u. IsJoined db) user group visit s (join_segment db user group visit s)
  unfolding join_segment
  join_segment_effect user group visit s =
      handle-Outcome unauthorized (join_body db) (λ u. IsJoined db) s
        (λ u g v s'. join_body_effect db u g v s s') unauthorized_ne_done user group visit
