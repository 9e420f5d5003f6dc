-- ===== src/Api/Rows.antt =====
-- The rows of a query, one by one, and the visits of a table by their ids.
use mop_backend_api.Base.{
  ℕ, ◌≡◌, ◌≢◌, refl, sym, subst, Bool, true, false, List, [], ◌∷◌, ◌==◌, if◌then◌else◌, All, map,
  arith, inl, inr, Distinct, Bool-cases,
}
use mop_backend_api.Api.Result.{ok}
use mop_backend_api.Api.Visits.{Visit, select, Among}

pub select_yes :
    (p : Visit → Bool) (v : Visit) (vs : List Visit)
    → p v ≡ true
    → select p (v ∷ vs) ≡ v ∷ select p vs
select_yes p v vs e = rw e refl

pub select_no :
    (p : Visit → Bool) (v : Visit) (vs : List Visit) → p v ≡ false → select p (v ∷ vs) ≡ select p vs
select_no p v vs e = rw e refl

pub Among-select :
    (p : Visit → Bool) (v : Visit) (rows : List Visit) → Among v (select p rows) → p v ≡ true
Among-select p v [] h = absurd h
Among-select p v (w ∷ rows) h = elim (Bool-cases (p w)) [
  | inl e ↦ elim (subst (Among v) (select_yes p w rows e) h) [
    | inl same ↦ subst (λ u. p u ≡ true) (sym same) e
    | inr later ↦ Among-select p v rows later
  ]
  | inr e ↦ Among-select p v rows (subst (Among v) (select_no p w rows e) h)
]

pub ok_eq : {A : Type 0} {a b : A} → ok a ≡ ok b → a ≡ b
ok_eq e = ground arith

abbrev pub ids_of : List Visit → List ℕ
ids_of = map (λ v. v.id)

-- every row of the first list is one of the second
abbrev pub IsAmong : List Visit → List Visit → Type 0
IsAmong l rows = All (λ v. Among v rows) l

pub select_none :
    (i : ℕ) (rows : List Visit) → All (λ j. j ≢ i) (ids_of rows) → select (λ w. w.id == i) rows ≡ []
select_none i [] h = refl
select_none i (w ∷ ws) h = let ih = select_none i ws h.1 in let ne = h.0 in ground arith

pub Among-id : (P : ℕ → Type 0) (v : Visit) (l : List Visit) → All P (ids_of l) → Among v l → P v.id
Among-id P v [] h a = absurd a
Among-id P v (w ∷ ws) h (inl e) = subst (λ u. P u.id) (sym e) h.0
Among-id P v (w ∷ ws) h (inr a) = Among-id P v ws h.1 a

pub select_own_first :
    (w : Visit) (ws : List Visit)
    → All (λ j. j ≢ w.id) (ids_of ws)
    → select (λ x. x.id == w.id) (w ∷ ws) ≡ w ∷ []
select_own_first w ws h = let left = select_none w.id ws h in ground arith

pub head_eq : {A : Type 0} {x y : A} {xs ys : List A} → x ∷ xs ≡ y ∷ ys → x ≡ y
head_eq e = ground arith

-- with distinct ids, a row is the only one with its id
pub select_own :
    (v : Visit) (rows : List Visit)
    → Distinct (ids_of rows)
    → Among v rows
    → select (λ w. w.id == v.id) rows ≡ v ∷ []
select_own v [] d a = absurd a
select_own v (w ∷ ws) d (inl e) =
    subst (λ u. select (λ x. x.id == u.id) (w ∷ ws) ≡ u ∷ []) (sym e) (select_own_first w ws d.0)
select_own v (w ∷ ws) d (inr a) =
    let ne = Among-id (λ j. j ≢ w.id) v ws d.0 a in let ih = select_own v ws d.1 a in ground arith

pub select-IsAmong_more :
    (p : Visit → Bool) (l rows : List Visit) → IsAmong l rows → IsAmong (select p l) rows
select-IsAmong_more p [] rows h = tt
select-IsAmong_more p (v ∷ l) rows h = elim (Bool-cases (p v)) [
  | inl e ↦
      subst (λ b. IsAmong (if b then v ∷ select p l else select p l) rows) (sym e)
        (h.0, select-IsAmong_more p l rows h.1)
  | inr e ↦
      subst (λ b. IsAmong (if b then v ∷ select p l else select p l) rows) (sym e)
        (select-IsAmong_more p l rows h.1)
]

IsAmong-cons : (v : Visit) (l rows : List Visit) → IsAmong l rows → IsAmong l (v ∷ rows)
IsAmong-cons v [] rows h = tt
IsAmong-cons v (w ∷ l) rows h = (inr h.0, IsAmong-cons v l rows h.1)

pub IsAmong-refl : (rows : List Visit) → IsAmong rows rows
IsAmong-refl [] = tt
IsAmong-refl (v ∷ rows) = (inl refl, IsAmong-cons v rows rows (IsAmong-refl rows))

pub cons_ne : {A : Type 0} {x : A} {l : List A} → x ∷ l ≢ []
cons_ne e = absurd (ground arith)
