-- ===== src/Api/Groups/Whole.antt =====
-- What a change of a whole group in api/v1_groups.go does to the rows and to the log.
use mop_backend_api.Base.{
  ℕ, ◌≡◌, ◌≢◌, sym, ◌∙◌, ap, subst, Bool, true, List, [], ◌∷◌, ◌++◌, Option, some, ◌==◌, All, map,
  arith, inl, inr, Distinct, Bool-cases,
}
use mop_backend_api.Api.Result.{
  ok, database, no_visits, letter_sent, >>=-eq-ok, >>-eq-ok, or_fail-eq-ok, guard-eq-ok,
  head_or_fail-eq-ok,
}
use mop_backend_api.Api.Visits.{
  Visit, Field, Database, in_group, select, rewrite, group_id, user_id, visit_date,
}
use mop_backend_api.Api.Segments.{log_each, unverified, unauthorized, done}
use mop_backend_api.Api.Segments.Changes.{
  log_each_rows, HandleOutcome, handle-Outcome, unauthorized_ne_done,
}
use mop_backend_api.Api.Groups.{
  none_sent, to_reassign, own_in_group, with_date, with_user, with_group, change_date_body,
  change_konsulent_body, remove_body, change_group_date, change_konsulent, remove_from_group,
}
use mop_backend_api.Api.Groups.Log.{entry_of, log_each_entries}
use mop_backend_api.Api.Rows.{ids_of, IsAmong, select-IsAmong_more, IsAmong-refl, cons_ne}

none_sent_lem : (l : List Visit) → none_sent l ≡ true → All (λ v. v.status_id ≢ 3) l
none_sent_lem [] h = tt
none_sent_lem (v ∷ l) h = elim (Bool-cases (v.status_id == 3)) [
  | inl e ↦ absurd (ground arith)
  | inr e ↦ (ground arith, none_sent_lem l (ground arith))
]

pub unverified_ne_done : unverified ≢ done
unverified_ne_done p = absurd (ground arith)

module _ {S : Type 0} (db : Database S) where
  abbrev group_rows : (group : ℕ) → S → List Visit
  group_rows group s = select (in_group group) (db.visits s)

  -- Exactly the rows of a test are changed, and each visit of a list has one entry in the log, with
  -- the value that it had and the one it gets.
  pub record IsLogged (p : Visit → Bool) (change : Visit → Visit) (field : Field) (user new : ℕ)
      (logged : List Visit) (s s' : S) : Type 0 where
    pub rows : db.visits s' ≡ rewrite p change (db.visits s)
    pub entries : db.logs s' ≡ db.logs s ++ map (entry_of field user new) logged

  -- an update after the entries of some of the rows
  IsLogged-update :
      (p : Visit → Bool) (change : Visit → Visit) (field : Field) (user new : ℕ) (l : List Visit)
      (s mid s' : S)
      → Distinct (ids_of (db.visits s))
      → IsAmong l (db.visits s)
      → log_each db field user (λ v. ok new) l s ≡ ok mid
      → db.update p change mid ≡ some s'
      → IsLogged p change field user new l s s'
  IsLogged-update p change field user new l s mid s' d a e u = record {
    rows =
        db.update_rows p change mid s' u
        ∙ ap (rewrite p change) (log_each_rows db field user (λ v. ok new) l s mid e);
    entries = db.update_logs p change mid s' u ∙ log_each_entries db field user new l s mid d a e;
  }

  -- the rows that a query of the group answers are rows of the table
  group_found :
      (group : ℕ) (s : S) (l : List Visit)
      → db.find (in_group group) s ≡ some l
      → (l ≡ group_rows group s) × IsAmong l (db.visits s)
  group_found group s l e =
      let same = db.find_rows (in_group group) s l e in
      (
        same,
        subst (λ r. IsAmong r (db.visits s)) (sym same)
            (select-IsAmong_more (in_group group) (db.visits s) (db.visits s)
              (IsAmong-refl (db.visits s))),
      )

  pub record IsDated (user group date : ℕ) (s s' : S) : Type 0 where
    pub present : group_rows group s ≢ []
    pub unsent : All (λ v. v.status_id ≢ 3) (group_rows group s)
    pub change :
        IsLogged (in_group group) (with_date date) visit_date user date (group_rows group s) s s'

  pub record IsReassigned (user group new : ℕ) (s s' : S) : Type 0 where
    pub present : group_rows group s ≢ []
    pub change :
        IsLogged
          (in_group group)
          (with_user new)
          user_id
          user
          new
          (select (to_reassign new) (group_rows group s))
          s
          s'

  pub record IsRemoved (user group : ℕ) (s s' : S) : Type 0 where
    pub present : group_rows group s ≢ []
    pub change :
        IsLogged (own_in_group user group) (with_group 0) group_id user 0 (group_rows group s) s s'

  change_date_body_effect :
      (s : S) (d : Distinct (ids_of (db.visits s))) (user group date : ℕ) (s' : S)
      → change_date_body db user group date s ≡ ok s'
      → IsDated user group date s s'
  unfolding change_date_body
  change_date_body_effect s d user group date s' h =
      let (visits, e₁, h₁) = >>=-eq-ok _ _ h in
      let (one, e₂, h₂) = >>=-eq-ok _ _ h₁ in
      let (e₃, h₃) = >>-eq-ok _ _ h₂ in
      let (mid, e₄, h₄) = >>=-eq-ok _ _ h₃ in
      let (same, among) = group_found group s visits (or_fail-eq-ok _ database e₁) in
      let (r, first) = head_or_fail-eq-ok visits no_visits e₂ in
      record {
        present = λ none_left. absurd (cons_ne (sym first ∙ same ∙ none_left));
        unsent =
            subst (All (λ v. v.status_id ≢ 3)) same
              (none_sent_lem visits (guard-eq-ok _ letter_sent e₃));
        change =
            subst (λ l. IsLogged (in_group group) (with_date date) visit_date user date l s s') same
              (IsLogged-update _ _ visit_date user date visits s mid s' d among e₄
                (or_fail-eq-ok _ database h₄));
      }

  change_konsulent_body_effect :
      (s : S) (d : Distinct (ids_of (db.visits s))) (user group new : ℕ) (s' : S)
      → change_konsulent_body db user group new s ≡ ok s'
      → IsReassigned user group new s s'
  unfolding change_konsulent_body
  change_konsulent_body_effect s d user group new s' h =
      let (visits, e₁, h₁) = >>=-eq-ok _ _ h in
      let (one, e₂, h₂) = >>=-eq-ok _ _ h₁ in
      let (mid, e₃, h₃) = >>=-eq-ok _ _ h₂ in
      let (same, among) = group_found group s visits (or_fail-eq-ok _ database e₁) in
      let (r, first) = head_or_fail-eq-ok visits no_visits e₂ in
      record {
        present = λ none_left. absurd (cons_ne (sym first ∙ same ∙ none_left));
        change =
            subst
              (λ l.
                IsLogged (in_group group) (with_user new) user_id user new
                  (select (to_reassign new) l) s s')
              same
              (IsLogged-update _ _ user_id user new (select (to_reassign new) visits) s mid s' d
                (select-IsAmong_more (to_reassign new) visits (db.visits s) among) e₃
                (or_fail-eq-ok _ database h₃));
      }

  remove_body_effect :
      (s : S) (d : Distinct (ids_of (db.visits s))) (user group : ℕ) (a : Unit {0}) (s' : S)
      → remove_body db user group a s ≡ ok s'
      → IsRemoved user group s s'
  unfolding remove_body
  remove_body_effect s d user group a s' h =
      let (visits, e₁, h₁) = >>=-eq-ok _ _ h in
      let (one, e₂, h₂) = >>=-eq-ok _ _ h₁ in
      let (mid, e₃, h₃) = >>=-eq-ok _ _ h₂ in
      let (same, among) = group_found group s visits (or_fail-eq-ok _ database e₁) in
      let (r, first) = head_or_fail-eq-ok visits no_visits e₂ in
      record {
        present = λ none_left. absurd (cons_ne (sym first ∙ same ∙ none_left));
        change =
            subst (λ l. IsLogged (own_in_group user group) (with_group 0) group_id user 0 l s s')
              same
              (IsLogged-update _ _ group_id user 0 visits s mid s' d among e₃
                (or_fail-eq-ok _ database h₃));
      }

  -- With distinct visit ids, `ChangeGroupDate` either does not answer `done` and leaves the tables
  -- as they were, or the group has visits and none of them has status 3, and then exactly those
  -- visits get the new date, and the log one entry for each, with the date that it had.
  pub change_group_date_effect :
      (user group date : Option ℕ) (s : S)
      → Distinct (ids_of (db.visits s))
      → HandleOutcome IsDated user group date s (change_group_date db user group date s)
  unfolding change_group_date
  change_group_date_effect user group date s d =
      handle-Outcome unverified (change_date_body db) IsDated s (change_date_body_effect s d)
        unverified_ne_done user group date

  -- With distinct visit ids, `ChangeKonsulent` either does not answer `done` and leaves the tables
  -- as they were, or the group has visits, and then exactly those get the new user, and the log
  -- one entry for each of them that another user had, with that user.
  pub change_konsulent_effect :
      (user group new : Option ℕ) (s : S)
      → Distinct (ids_of (db.visits s))
      → HandleOutcome IsReassigned user group new s (change_konsulent db user group new s)
  unfolding change_konsulent
  change_konsulent_effect user group new s d =
      handle-Outcome unverified (change_konsulent_body db) IsReassigned s
        (change_konsulent_body_effect s d) unverified_ne_done user group new

  -- With distinct visit ids, `RemoveFromGroup` either does not answer `done` and leaves the tables
  -- as they were, or the group has visits, and then exactly those of the calling user are put in
  -- group 0, while the log has an entry that every visit of the group was.
  pub remove_from_group_effect :
      (user group : Option ℕ) (s : S)
      → Distinct (ids_of (db.visits s))
      → HandleOutcome
          (λ u g a. IsRemoved u g)
          user
          group
          (some tt)
          s
          (remove_from_group db user group s)
  unfolding remove_from_group
  remove_from_group_effect user group s d =
      handle-Outcome unauthorized (remove_body db) (λ u g a. IsRemoved u g) s
        (remove_body_effect s d) unauthorized_ne_done user group (some tt)
