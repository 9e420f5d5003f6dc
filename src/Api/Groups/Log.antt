-- ===== src/Api/Groups/Log.antt =====
-- The log entries that a handler of a whole group leaves.
use mop_backend_api.Base.{some, ℕ, ◌≡◌, sym, ◌∙◌, ap, subst, List, [], ◌∷◌, ◌++◌, map, Distinct}
use mathlib.Core.List.{append_assoc, append-nil}
use mop_backend_api.Api.Result.{
  ok, database, not_found, >>=-eq-ok, or_fail-eq-ok, head_or_fail-eq-ok,
}
use mop_backend_api.Api.Visits.{Visit, Field, VisitLog, Database, Among}
use mop_backend_api.Api.Rows.{ok_eq, ids_of, IsAmong, select_own, head_eq}
use mop_backend_api.Api.Segments.{old_val, update_visit_value, log_each}
use mop_backend_api.Api.Segments.Changes.{update_visit_value_rows}

-- the entry for a new value of a visit
abbrev pub entry_of : (field : Field) (user new : ℕ) → Visit → VisitLog
entry_of field user new v = record {
  visit_id = v.id;
  previous = old_val field v;
  new_val = some new;
  val_type = field;
  changed_by = user;
}

module _ {S : Type 0} (db : Database S) where
  -- one call of `UpdateVisitValue`
  update_visit_value_entry :
      (v : Visit) (new user : ℕ) (field : Field) (s s' : S)
      → Distinct (ids_of (db.visits s))
      → Among v (db.visits s)
      → update_visit_value db v.id (some new) user field s ≡ ok s'
      → db.logs s' ≡ db.logs s ++ (entry_of field user new v ∷ [])
  unfolding update_visit_value
  update_visit_value_entry v new user field s s' d a h =
      let (found, e₁, h₁) = >>=-eq-ok _ _ h in
      let (w, e₂, h₂) = >>=-eq-ok _ _ h₁ in
      let (r, first) = head_or_fail-eq-ok found not_found e₂ in
      let rows = db.find_rows _ s found (or_fail-eq-ok _ database e₁) in
      let own = select_own v (db.visits s) d a in
      let same : w ≡ v = head_eq (sym first ∙ rows ∙ own) in
      subst
        (λ u.
          db.logs s'
          ≡ db.logs s
            ++ (record {
              visit_id = v.id;
              previous = old_val field u;
              new_val = some new;
              val_type = field;
              changed_by = user;
            }
                ∷ []))
        same (db.log_entry _ s s' (or_fail-eq-ok _ database h₂))

  -- a list of them, with a value that does not fail
  pub log_each_entries :
      (field : Field) (user new : ℕ) (l : List Visit) (s s' : S)
      → Distinct (ids_of (db.visits s))
      → IsAmong l (db.visits s)
      → log_each db field user (λ v. ok new) l s ≡ ok s'
      → db.logs s' ≡ db.logs s ++ map (entry_of field user new) l
  unfolding log_each
  log_each_entries field user new [] s s' d a h =
      sym (ap (λ u. db.logs u) (ok_eq h)) ∙ sym (append-nil (db.logs s))
  log_each_entries field user new (v ∷ l) s s' d a h =
      let (n, e₁, h₁) = >>=-eq-ok _ _ h in
      let (s₁, e₂, h₂) = >>=-eq-ok _ _ h₁ in
      let written =
        subst (λ m. update_visit_value db v.id (some m) user field s ≡ ok s₁) (sym (ok_eq e₁)) e₂ in
      let same = sym (update_visit_value_rows db v.id (some new) user field s s₁ written) in
      log_each_entries field user new l s₁ s' (subst (λ r. Distinct (ids_of r)) same d)
        (subst (IsAmong l) same a.1) h₂
      ∙ ap (λ u. u ++ map (entry_of field user new) l)
          (update_visit_value_entry v new user field s s₁ d a.0 written)
      ∙ append_assoc (db.logs s) (entry_of field user new v ∷ []) (map (entry_of field user new) l)
