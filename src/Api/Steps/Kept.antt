-- ===== src/Api/Steps/Kept.antt =====
-- The rows of the other groups in a call of api/v1_routing.go.
use mop_backend_api.Base.{
  ℕ, ◌≡◌, ◌≢◌, refl, sym, ◌∙◌, ap, subst, Bool, true, false, ◌&&◌, List, [], ◌∷◌, ◌==◌,
  if◌then◌else◌, All, Distinct, map, arith, inl, inr, Bool-cases, Option-cases,
}
use mop_backend_api.Api.Visits.{Visit, in_group, select, Among}
use mop_backend_api.Api.Rows.{ids_of, IsAmong, select_yes, select_no, select_own, head_eq}
use mop_backend_api.Api.Segments.{stop_from, from_stop}
use mop_backend_api.Api.Reorder.{Direction, up, down, on_side, with_stop}
use mop_backend_api.Api.Reorder.Swap.{exchanged}

pub Among-of_select :
    (p : Visit → Bool) (v : Visit) (l : List Visit) → Among v (select p l) → Among v l
Among-of_select p v [] h = absurd h
Among-of_select p v (w ∷ l) h = elim (Bool-cases (p w)) [
  | inl e ↦ elim (subst (Among v) (select_yes p w l e) h) [
    | inl same ↦ inl same
    | inr later ↦ inr (Among-of_select p v l later)
  ]
  | inr e ↦ inr (Among-of_select p v l (subst (Among v) (select_no p w l e) h))
]

-- a row is the only one with its id
Among-unique :
    (v w : Visit) (l : List Visit)
    → Distinct (ids_of l)
    → Among v l
    → Among w l
    → v.id ≡ w.id
    → v ≡ w
Among-unique v w l d hv hw e =
    head_eq
      (sym (select_own v l d hv) ∙ ap (λ i. select (λ u. u.id == i) l) e ∙ select_own w l d hw)

-- a visit is in one group
one_group : (g h : ℕ) (v : Visit) → in_group g v ≡ true → in_group h v ≡ true → g ≡ h
one_group g h v p q = elim (Option-cases v.group_id) [
  | inl e ↦ absurd (ground arith)
  | inr (k, e) ↦ ground arith
]

cons_same : {v w : Visit} {l r : List Visit} → v ≡ w → l ≡ r → v ∷ l ≡ w ∷ r
cons_same p q = rw (p, q) refl

-- a change that leaves the groups, and the visits of one group, leaves this group
pub kept_group :
    (h : ℕ) (f : Visit → Visit) (l : List Visit)
    → ((v : Visit) → in_group h (f v) ≡ in_group h v)
    → All (λ v. in_group h v ≡ true → f v ≡ v) l
    → select (in_group h) (map f l) ≡ select (in_group h) l
kept_group h f [] same keeps = refl
kept_group h f (v ∷ l) same keeps = elim (Bool-cases (in_group h v)) [
  | inl e ↦
      select_yes (in_group h) (f v) (map f l) (same v ∙ e)
      ∙ cons_same (keeps.0 e) (kept_group h f l same keeps.1)
      ∙ sym (select_yes (in_group h) v l e)
  | inr e ↦
      select_no (in_group h) (f v) (map f l) (same v ∙ e)
      ∙ kept_group h f l same keeps.1
      ∙ sym (select_no (in_group h) v l e)
]

pub and_left : (a b : Bool) → (a && b) ≡ true → a ≡ true
and_left true b h = refl
and_left false b h = absurd (ground arith)

-- the change of a split or a join
module _ (p : Visit → Bool) (f : Visit → Visit) where
  pub changed_group :
      (h : ℕ)
      → ((v : Visit) → in_group h (f v) ≡ in_group h v)
      → (v : Visit) → in_group h (if p v then f v else v) ≡ in_group h v
  changed_group h same v = elim (Bool-cases (p v)) [
    | inl e ↦ subst (λ b. in_group h (if b then f v else v) ≡ in_group h v) (sym e) (same v)
    | inr e ↦ subst (λ b. in_group h (if b then f v else v) ≡ in_group h v) (sym e) refl
  ]

  pub unchanged_rows :
      (g h : ℕ) (l : List Visit)
      → g ≢ h
      → ((v : Visit) → p v ≡ true → in_group g v ≡ true)
      → All (λ v. in_group h v ≡ true → (if p v then f v else v) ≡ v) l
  unchanged_rows g h [] ne own = tt
  unchanged_rows g h (v ∷ l) ne own = (
    (λ q. elim (Bool-cases (p v)) [
      | inl e ↦ absurd (ne (one_group g h v (own v e) q))
      | inr e ↦ ap (λ b. if b then f v else v) e
    ]),
    unchanged_rows g h l ne own,
  )

pub from_stop-in_group : (g stop : ℕ) (v : Visit) → from_stop g stop v ≡ true → in_group g v ≡ true
from_stop-in_group g stop v h = and_left (in_group g v) (stop_from stop v) h

pub on_side-in_group :
    (d : Direction) (g id stop : ℕ) (v : Visit) → on_side d g id stop v ≡ true → in_group g v ≡ true
on_side-in_group up g id stop v h = and_left (in_group g v) _ h
on_side-in_group down g id stop v h = and_left (in_group g v) _ h

kept_by :
    (a b : Bool) (h stop other : ℕ) (v : Visit)
    → in_group h (if a then with_stop other v else (if b then with_stop stop v else v))
      ≡ in_group h v
kept_by true b h stop other v = refl
kept_by false true h stop other v = refl
kept_by false false h stop other v = refl

pub exchanged_group :
    (h a b stop other : ℕ) (v : Visit) → in_group h (exchanged a b stop other v) ≡ in_group h v
exchanged_group h a b stop other v = kept_by (v.id == a) (v.id == b) h stop other v

-- no row of another group has the id of a row of the group
other_id :
    (g h : ℕ) (u v : Visit) (rows : List Visit)
    → Distinct (ids_of rows)
    → Among u rows
    → Among v rows
    → in_group g v ≡ true
    → in_group h u ≡ true
    → g ≢ h
    → (u.id == v.id) ≡ false
other_id g h u v rows d hu hv gv q ne = elim (Bool-cases (u.id == v.id)) [
  | inl e ↦
      (let same = Among-unique u v rows d hu hv (ground arith) in
        absurd (ne (one_group g h u (subst (λ w. in_group g w ≡ true) (sym same) gv) q)))
  | inr e ↦ e
]

-- the rows of the two ids are in the group
pub exchanged_rows :
    (g h : ℕ) (v w : Visit) (stop other : ℕ) (rows l : List Visit)
    → Distinct (ids_of rows)
    → Among v rows
    → Among w rows
    → in_group g v ≡ true
    → in_group g w ≡ true
    → g ≢ h
    → IsAmong l rows
    → All (λ u. in_group h u ≡ true → exchanged v.id w.id stop other u ≡ u) l
exchanged_rows g h v w stop other rows [] d hv hw gv gw ne among = tt
exchanged_rows g h v w stop other rows (u ∷ l) d hv hw gv gw ne among = (
  (λ q.
      ap (λ b. if b then with_stop other u else (if u.id == w.id then with_stop stop u else u))
        (other_id g h u v rows d among.0 hv gv q ne)
      ∙ ap (λ b. if b then with_stop stop u else u) (other_id g h u w rows d among.0 hw gw q ne)),
  exchanged_rows g h v w stop other rows l d hv hw gv gw ne among.1,
)

pub ids_of-map_same :
    (f : Visit → Visit) (l : List Visit)
    → ((v : Visit) → (f v).id ≡ v.id)
    → ids_of (map f l) ≡ ids_of l
ids_of-map_same f [] h = refl
ids_of-map_same f (v ∷ l) h = rw (h v, ids_of-map_same f l h) refl

pub same_id_by :
    (p : Bool) (f : Visit → Visit) (v : Visit) → (f v).id ≡ v.id → (if p then f v else v).id ≡ v.id
same_id_by true f v h = h
same_id_by false f v h = refl

pub same_id_exchanged :
    (a b : Bool) (stop other : ℕ) (v : Visit)
    → (if a then with_stop other v else (if b then with_stop stop v else v)).id ≡ v.id
same_id_exchanged true b stop other v = refl
same_id_exchanged false true stop other v = refl
same_id_exchanged false false stop other v = refl
