-- ===== src/Tests/Tables.antt =====
-- A database of two lists, for the tests.
use mop_backend_api.Base.{
  ℕ, ◌≡◌, refl, subst, sym, ap, Bool, true, false, List, [], ◌∷◌, ◌++◌, Option, none, some, All,
  if◌then◌else◌, ◌==◌, leb, Bool-cases, inl, inr, arith, length,
}
use mathlib.Core.List.{Perm}
use mathlib.Core.List.Perm
use mop_backend_api.Api.Visits.{
  Visit, VisitLog, VisitStatusLog, Database, select, rewrite, deref_uint, IsFirst, Rises, Falls,
  GroupFalls, has_group,
}

pub record Tables : Type 0 where
  pub rows : List Visit
  pub stored : List ℕ
  pub entries : List VisitLog
  pub statuses : List VisitStatusLog

abbrev pub drop_route : ℕ → List ℕ → List ℕ
drop_route g [] = []
drop_route g (h ∷ hs) = let rest = drop_route g hs in if h == g then rest else h ∷ rest

pub drop_route-gone : (g : ℕ) (hs : List ℕ) → All (λ h. (h == g) ≡ false) (drop_route g hs)
drop_route-gone g [] = tt
drop_route-gone g (h ∷ hs) = elim (Bool-cases (h == g)) [
  | inl e ↦ rw e (drop_route-gone g hs)
  | inr e ↦ rw e (e, drop_route-gone g hs)
]

pub wrapped : {A : Type 0} {a b : A} → some a ≡ some b → a ≡ b
wrapped e = ground arith

-- the better of a row and the best of the others
abbrev better : (Visit → Visit → Bool) → Visit → Option Visit → Visit
better le v none = v
better le v (some w) = if le w v then w else v

abbrev best : (Visit → Visit → Bool) → List Visit → Option Visit
best le [] = none
best le (v ∷ vs) = some (better le v (best le vs))

All-weaker : {P Q : Visit → Type 0} (l : List Visit) → ((v : Visit) → P v → Q v) → All P l → All Q l
All-weaker [] f h = tt
All-weaker (v ∷ vs) f h = (f v h.0, All-weaker vs f h.1)

-- The order of a key, both ways.
module _ (le : Visit → Visit → Bool) (before : Visit → Visit → Type 0)
    (itself : (v : Visit) → before v v)
    (onward : (u v w : Visit) → before u v → before v w → before u w)
    (low : (v w : Visit) → le w v ≡ true → before w v)
    (high : (v w : Visit) → le w v ≡ false → before v w) where
  better-IsFirst :
      (v : Visit) (vs : List Visit) (o : Option Visit)
      → IsFirst before vs o
      → IsFirst before (v ∷ vs) (some (better le v o))
  better-IsFirst v vs none h =
      subst (λ l. IsFirst before (v ∷ l) (some v)) (sym h) (inl refl, (itself v, tt))
  better-IsFirst v vs (some w) (here, all) = elim (Bool-cases (le w v)) [
    | inl e ↦
        subst (λ b. IsFirst before (v ∷ vs) (some (if b then w else v))) (sym e)
          (inr here, (low v w e, all))
    | inr e ↦
        subst (λ b. IsFirst before (v ∷ vs) (some (if b then w else v))) (sym e)
          (inl refl, (itself v, All-weaker vs (λ u k. onward v w u (high v w e) k) all))
  ]

  best-IsFirst : (l : List Visit) → IsFirst before l (best le l)
  best-IsFirst [] = refl
  best-IsFirst (v ∷ vs) = better-IsFirst v vs (best le vs) (best-IsFirst vs)

-- sorting by a test that places a row before others
abbrev insert_row : (Visit → Visit → Bool) → Visit → List Visit → List Visit
insert_row le v [] = v ∷ []
insert_row le v (w ∷ ws) = let rest = insert_row le v ws in if le v w then v ∷ w ∷ ws else w ∷ rest

abbrev sort_rows : (Visit → Visit → Bool) → List Visit → List Visit
sort_rows le [] = []
sort_rows le (v ∷ vs) = insert_row le v (sort_rows le vs)

pub insert_row-Perm :
    (le : Visit → Visit → Bool) (v : Visit) (l : List Visit) → Perm (insert_row le v l) (v ∷ l)
insert_row-Perm le v [] = Perm.refl (v ∷ [])
insert_row-Perm le v (w ∷ l) = elim (Bool-cases (le v w)) [
  | inl e ↦ rw e (Perm.refl (v ∷ w ∷ l))
  | inr e ↦ rw e (Perm.trans (Perm.cons w (insert_row-Perm le v l)) (Perm.swap v w l))
]

pub sort_rows-Perm : (le : Visit → Visit → Bool) (l : List Visit) → Perm (sort_rows le l) l
sort_rows-Perm le [] = Perm.refl []
sort_rows-Perm le (v ∷ l) =
    Perm.trans (insert_row-Perm le v (sort_rows le l)) (Perm.cons v (sort_rows-Perm le l))

abbrev stop_order : Visit → Visit → Bool
stop_order v w = leb (deref_uint v.stop_nr) (deref_uint w.stop_nr)

abbrev back_order : Visit → Visit → Bool
back_order v w = leb (deref_uint w.stop_nr) (deref_uint v.stop_nr)

abbrev group_order : Visit → Visit → Bool
group_order v w = leb (deref_uint w.group_id) (deref_uint v.group_id)

pub best-Rises : (l : List Visit) → IsFirst Rises l (best stop_order l)
best-Rises =
    best-IsFirst stop_order Rises (λ v. omega arith) (λ u v w h k. omega arith)
      (λ v w e. ground arith) (λ v w e. ground arith)

pub best-Falls : (l : List Visit) → IsFirst Falls l (best back_order l)
best-Falls =
    best-IsFirst back_order Falls (λ v. omega arith) (λ u v w h k. omega arith)
      (λ v w e. ground arith) (λ v w e. ground arith)

pub best_group : (l : List Visit) → IsFirst GroupFalls l (best group_order l)
best_group =
    best-IsFirst group_order GroupFalls (λ v. omega arith) (λ u v w h k. omega arith)
      (λ v w e. ground arith) (λ v w e. ground arith)

abbrev pub lists : Database Tables
lists = record {
  visits = λ s. s.rows;
  routes = λ s. s.stored;
  logs = λ s. s.entries;
  status_logs = λ s. s.statuses;
  find = λ p s. some (select p s.rows);
  first_asc = λ p s. some (best stop_order (select p s.rows));
  first_desc = λ p s. some (best back_order (select p s.rows));
  find_asc = λ p s. some (sort_rows stop_order (select p s.rows));
  first_group = λ s. some (best group_order (select has_group s.rows));
  count = λ p s. some (length (select p s.rows));
  update = λ p f s. some (record s { rows = rewrite p f s.rows });
  create_log = λ e s. some (record s { entries = s.entries ++ (e ∷ []) });
  create_status_log = λ e s. some (record s { statuses = s.statuses ++ (e ∷ []) });
  delete_route = λ g s. some (record s { stored = drop_route g s.stored });
  sort = sort_rows stop_order;
  find_rows = λ p s l e. sym (wrapped e);
  update_rows = λ p f s s' e. sym (ap (λ u. u.rows) (wrapped e));
  update_routes = λ p f s s' e. sym (ap (λ u. u.stored) (wrapped e));
  log_rows = λ x s s' e. sym (ap (λ u. u.rows) (wrapped e));
  log_entry = λ x s s' e. sym (ap (λ u. u.entries) (wrapped e));
  update_logs = λ p f s s' e. sym (ap (λ u. u.entries) (wrapped e));
  status_log_entry = λ x s s' e. sym (ap (λ u. u.statuses) (wrapped e));
  status_log_rows = λ x s s' e. sym (ap (λ u. u.rows) (wrapped e));
  update_status_logs = λ p f s s' e. sym (ap (λ u. u.statuses) (wrapped e));
  route_rows = λ g s s' e. sym (ap (λ u. u.rows) (wrapped e));
  route_gone = λ g s s' e.
      subst (λ u. All (λ h. (h == g) ≡ false) u.stored) (wrapped e) (drop_route-gone g s.stored);
  first_asc_rows = λ p s o e h.
      subst (IsFirst Rises (select p s.rows)) (wrapped e) (best-Rises (select p s.rows));
  first_desc_rows = λ p s o e h.
      subst (IsFirst Falls (select p s.rows)) (wrapped e) (best-Falls (select p s.rows));
  find_asc_rows = λ p s l e.
      subst (λ r. Perm r (select p s.rows)) (wrapped e)
        (sort_rows-Perm stop_order (select p s.rows));
  first_group_rows = λ s o e.
      subst (IsFirst GroupFalls (select has_group s.rows)) (wrapped e)
        (best_group (select has_group s.rows));
  count_rows = λ p s n e. sym (wrapped e);
  sort_perm = sort_rows-Perm stop_order;
}
