-- ===== src/Api/Places.antt =====
-- Rows that are put at the places of a list of ids, one update after the other.
use mop_backend_api.Base.{
  ℕ, suc, ◌≡◌, ◌≢◌, refl, sym, ◌∙◌, ap, subst, Bool, List, [], ◌∷◌, Option, none, some, ◌==◌,
  if◌then◌else◌, All, map, arith, inl, inr, Bool-cases,
}
use mop_backend_api.Api.Visits.{Visit, rewrite}

-- where a number stands in a list, counted from `k`
abbrev pub position : (x k : ℕ) → List ℕ → Option ℕ
position x k [] = none
position x k (i ∷ is) = let rest = position x (suc k) is in if x == i then some k else rest

abbrev pub at_stop : (ℕ → Visit → Visit) → Visit → Option ℕ → Visit
at_stop to v none = v
at_stop to v (some stop) = to stop v

-- a visit becomes the stop at which the list has its id
abbrev pub placed : (ℕ → Visit → Visit) → (k : ℕ) → List ℕ → Visit → Visit
placed to k ids v = at_stop to v (position v.id k ids)

position-absent : (x k : ℕ) (is : List ℕ) → All (λ j. j ≢ x) is → position x k is ≡ none
position-absent x k [] h = refl
position-absent x k (i ∷ is) h =
    let ih = position-absent x (suc k) is h.1 in let ne = h.0 in ground arith

pub placed-absent :
    (to : ℕ → Visit → Visit) (k : ℕ) (is : List ℕ) (v : Visit)
    → position v.id k is ≡ none
    → placed to k is v ≡ v
placed-absent to k is v e = ap (at_stop to v) e

pub map_placed_nothing :
    (to : ℕ → Visit → Visit) (k : ℕ) (rows : List Visit) → map (placed to k []) rows ≡ rows
map_placed_nothing to k [] = refl
map_placed_nothing to k (v ∷ rows) = rw (map_placed_nothing to k rows) refl

pub placed-cons :
    (to : ℕ → Visit → Visit) (keeps : (k : ℕ) (v : Visit) → (to k v).id ≡ v.id) (k i : ℕ)
    (is : List ℕ) (v : Visit)
    → All (λ j. j ≢ i) is
    → placed to (suc k) is (if v.id == i then to k v else v) ≡ placed to k (i ∷ is) v
placed-cons to keeps k i is v h = elim (Bool-cases (v.id == i)) [
  | inl e ↦
      let same : i ≡ v.id = ground arith in
      let apart = subst (λ x. All (λ j. j ≢ x) is) same h in
      ap (λ b. placed to (suc k) is (if b then to k v else v)) e
      ∙ placed-absent to (suc k) is (to k v) (
          position-absent (to k v).id (suc k) is
            (subst (λ x. All (λ j. j ≢ x) is) (sym (keeps k v)) apart))
      ∙ sym (ap (λ b. at_stop to v (if b then some k else position v.id (suc k) is)) e)
  | inr e ↦
      ap (λ b. placed to (suc k) is (if b then to k v else v)) e
      ∙ sym (ap (λ b. at_stop to v (if b then some k else position v.id (suc k) is)) e)
]

pub map-rewrite :
    (f h : Visit → Visit) (p : Visit → Bool) (g : Visit → Visit) (rows : List Visit)
    → ((v : Visit) → f (if p v then g v else v) ≡ h v)
    → map f (rewrite p g rows) ≡ map h rows
map-rewrite f h p g [] same = refl
map-rewrite f h p g (v ∷ rows) same = rw (same v, map-rewrite f h p g rows same) refl
