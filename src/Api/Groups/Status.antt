-- ===== src/Api/Groups/Status.antt =====
-- What `UpdateVisitStatus` of internal/internal.go leaves, and what its loop after
-- `AssignVisitsToGroup` does.
use mop_backend_api.Base.{
  ℕ, ◌≡◌, ◌≢◌, refl, sym, ◌∙◌, ap, subst, List, [], ◌∷◌, ◌++◌, Option, none, some, ◌==◌, All, arith,
  ◌⊎◌, inl, inr, Bool-cases, Option-cases, if◌then◌else◌,
}
use mop_backend_api.Api.Result.{
  Result, ok, err, database, not_found, same_status, >>=-eq-ok, or_fail-eq-ok, head_or_fail-eq-ok,
}
use mop_backend_api.Api.Visits.{Visit, VisitStatusLog, Database, select, rewrite}
use mop_backend_api.Api.Groups.{
  with_status, row_of, status_logged, status_found, status_written, update_visit_status,
  update_each_status,
}

abbrev pub status_entry : (user new : ℕ) → Visit → VisitStatusLog
status_entry user new v = record {
  visit_id = v.id;
  old_status_id = v.status_id;
  new_status_id = new;
  changed_by_id = user;
}

module _ {S : Type 0} (db : Database S) where
  -- the row that `First` by a key answers
  pub row_of_found :
      (visit : ℕ) (s : S) (v : Visit)
      → row_of db visit s ≡ ok v
      → (rest : List Visit) × (select (λ w. w.id == visit) (db.visits s) ≡ v ∷ rest)
  unfolding row_of
  row_of_found visit s v h =
      let (found, e₁, h₁) = >>=-eq-ok _ _ h in
      let (rest, first) = head_or_fail-eq-ok found not_found h₁ in
      (rest, sym (db.find_rows _ s found (or_fail-eq-ok _ database e₁)) ∙ first)

  -- the status has changed and the log has one entry more
  pub record IsStatusSet (visit new user : ℕ) (s s' : S) : Type 0 where
    pub row : Visit
    pub rest : List Visit
    pub found : select (λ w. w.id == visit) (db.visits s) ≡ row ∷ rest
    pub other : row.status_id ≢ new
    pub rows : db.visits s' ≡ rewrite (λ w. w.id == row.id) (with_status new) (db.visits s)
    pub logged : db.status_logs s' ≡ db.status_logs s ++ (status_entry user new row ∷ [])

  -- nothing has changed, or the database failed after the update
  pub IsStatusKept : (visit new : ℕ) → S → Result (Unit {0}) → S → Type 0
  IsStatusKept visit new s r s' =
      (s' ≡ s)
      ⊎ ((r ≡ err database)
          × (db.status_logs s' ≡ db.status_logs s)
          × ((v : Visit) × (rest : List Visit) × (select (λ w. w.id == visit) (db.visits s)
                ≡ v ∷ rest)
              × (db.visits s' ≡ rewrite (λ w. w.id == v.id) (with_status new) (db.visits s))))

  pub StatusOutcome : (visit new user : ℕ) → S → Result (Unit {0}) × S → Type 0
  StatusOutcome visit new user s (r, s') =
      ((r ≡ ok tt) × IsStatusSet visit new user s s')
      ⊎ ((r ≢ ok tt) × IsStatusKept visit new s r s')

  written_cases :
      (visit new user : ℕ) (s : S) (v : Visit) (rest : List Visit)
      → select (λ w. w.id == visit) (db.visits s) ≡ v ∷ rest
      → v.status_id ≢ new
      → (o : Option S) → db.update (λ w. w.id == v.id) (with_status new) s ≡ o
      → StatusOutcome visit new user s (status_written db user new v s o)
  unfolding StatusOutcome IsStatusKept status_written status_logged
  written_cases visit new user s v rest f ne none e = inr ((λ p. absurd (ground arith)), inl refl)
  written_cases visit new user s v rest f ne (some t) e =
      elim (Option-cases (db.create_status_log (status_entry user new v) t)) [
        | inl k ↦
            subst (λ c. StatusOutcome visit new user s (status_logged db t c)) (sym k)
              (inr (
                (λ p. absurd (ground arith)),
                inr (refl, db.update_status_logs _ _ s t e, (v, rest, f, db.update_rows _ _ s t e)),
              ))
        | inr (u, k) ↦
            subst (λ c. StatusOutcome visit new user s (status_logged db t c)) (sym k)
              (inl (
                refl,
                record {
                  row = v;
                  rest = rest;
                  found = f;
                  other = ne;
                  rows = db.status_log_rows _ t u k ∙ db.update_rows _ _ s t e;
                  logged =
                      db.status_log_entry _ t u k
                      ∙ ap (λ l. l ++ (status_entry user new v ∷ []))
                          (db.update_status_logs _ _ s t e);
                },
              ))
      ]

  found_cases :
      (visit new user : ℕ) (s : S) (o : Result Visit)
      → row_of db visit s ≡ o
      → StatusOutcome visit new user s (status_found db user new s o)
  unfolding StatusOutcome IsStatusKept status_found
  found_cases visit new user s (err e) h = inr ((λ p. absurd (ground arith)), inl refl)
  found_cases visit new user s (ok v) h =
      let (rest, f) = row_of_found visit s v h in
      elim (Bool-cases (v.status_id == new)) [
        | inl e ↦
            subst
              (λ b. StatusOutcome visit new user s (
                if b
                then (err same_status, s)
                else status_written db user new v s
                    (db.update (λ w. w.id == v.id) (with_status new) s)))
              (sym e) (inr ((λ p. absurd (ground arith)), inl refl))
        | inr e ↦
            subst
              (λ b. StatusOutcome visit new user s (
                if b
                then (err same_status, s)
                else status_written db user new v s
                    (db.update (λ w. w.id == v.id) (with_status new) s)))
              (sym e) (written_cases visit new user s v rest f (λ p. absurd (ground arith)) _ refl)
      ]

  -- `UpdateVisitStatus` without an error sets the status of the visit that it finds, which was
  -- another one, and logs both; with an error nothing has changed, or it is one of the database
  -- after the update, when the status is set and nothing logged.
  pub update_visit_status_lem :
      (visit new user : ℕ) (s : S)
      → StatusOutcome visit new user s (update_visit_status db visit new user s)
  unfolding update_visit_status
  update_visit_status_lem visit new user s = found_cases visit new user s (row_of db visit s) refl

  -- a visit that has the status already
  found_same :
      (visit new user : ℕ) (s : S) (o : Result Visit)
      → row_of db visit s ≡ o
      → All (λ v. v.status_id ≡ new) (select (λ w. w.id == visit) (db.visits s))
      → (status_found db user new s o).1 ≡ s
  unfolding status_found
  found_same visit new user s (err e) h a = refl
  found_same visit new user s (ok v) h a =
      let (rest, f) = row_of_found visit s v h in
      let (same, others) = subst (All (λ v. v.status_id ≡ new)) f a in ground arith

  pub update_each_status_same :
      (new user : ℕ) (ids : List ℕ) (s : S)
      → All (λ i. All (λ v. v.status_id ≡ new) (select (λ w. w.id == i) (db.visits s))) ids
      → update_each_status db new user ids s ≡ s
  unfolding update_each_status update_visit_status
  update_each_status_same new user [] s a = refl
  update_each_status_same new user (i ∷ ids) s a =
      ap (update_each_status db new user ids) (found_same i new user s (row_of db i s) refl a.0)
      ∙ update_each_status_same new user ids s a.1
