-- ===== src/Api/Optimise/Indices.antt =====
-- The keys of the map in `groupSegments` of api/v1_routing.go.
use mathlib.Core.List.{Perm, perm_middle, append-nil}
use mathlib.Core.List.Perm
use mop_backend_api.Base.{
  ℕ, ◌≡◌, ◌≢◌, refl, sym, subst, true, false, List, [], ◌∷◌, ◌++◌, ◌==◌, ltb, if◌then◌else◌, All,
  Distinct, arith, inl, inr, Bool-cases,
}
use mop_backend_api.Base.Perms.{Distinct-Perm}
use mop_backend_api.Api.Visits.{Visit}
use mop_backend_api.Api.Groups.{holds}
use mop_backend_api.Api.Optimise.{index_of, first_met, insert_index, sort_indices}

pub absent-holds : (i : ℕ) (is : List ℕ) → All (λ j. j ≢ i) is → holds is i ≡ false
absent-holds i [] h = refl
absent-holds i (j ∷ is) h = let ne = h.0 in let ih = absent-holds i is h.1 in ground arith

holds-absent : (i : ℕ) (is : List ℕ) → holds is i ≡ false → All (λ j. j ≢ i) is
holds-absent i [] h = tt
holds-absent i (j ∷ is) h = ((λ e. ground arith), holds-absent i is (ground arith))

holds-append : (x i : ℕ) (is : List ℕ) → holds is x ≡ true → holds (is ++ (i ∷ [])) x ≡ true
holds-append x i [] h = absurd (ground arith)
holds-append x i (j ∷ is) h = elim (Bool-cases (x == j)) [
  | inl e ↦ ground arith
  | inr e ↦ (let ih = holds-append x i is (ground arith) in ground arith)
]

holds-append_last : (i : ℕ) (is : List ℕ) → holds (is ++ (i ∷ [])) i ≡ true
holds-append_last i [] = ground arith
holds-append_last i (j ∷ is) = let ih = holds-append_last i is in ground arith

-- the next step of `first_met`
abbrev meet : List ℕ → ℕ → List ℕ
meet met i = if holds met i then met else met ++ (i ∷ [])

meet-holds : (met : List ℕ) (i : ℕ) → holds (meet met i) i ≡ true
meet-holds met i = elim (Bool-cases (holds met i)) [
  | inl e ↦ subst (λ b. holds (if b then met else met ++ (i ∷ [])) i ≡ true) (sym e) e
  | inr e ↦
      subst (λ b. holds (if b then met else met ++ (i ∷ [])) i ≡ true) (sym e)
        (holds-append_last i met)
]

meet_keeps : (met : List ℕ) (i x : ℕ) → holds met x ≡ true → holds (meet met i) x ≡ true
meet_keeps met i x h = elim (Bool-cases (holds met i)) [
  | inl e ↦ subst (λ b. holds (if b then met else met ++ (i ∷ [])) x ≡ true) (sym e) h
  | inr e ↦
      subst (λ b. holds (if b then met else met ++ (i ∷ [])) x ≡ true) (sym e)
        (holds-append x i met h)
]

meet-Distinct : (met : List ℕ) (i : ℕ) → Distinct met → Distinct (meet met i)
meet-Distinct met i d = elim (Bool-cases (holds met i)) [
  | inl e ↦ subst (λ b. Distinct (if b then met else met ++ (i ∷ []))) (sym e) d
  | inr e ↦
      subst (λ b. Distinct (if b then met else met ++ (i ∷ []))) (sym e)
        (Distinct-Perm (met ++ (i ∷ [])) (i ∷ met)
          (subst (λ r. Perm (met ++ (i ∷ [])) (i ∷ r)) (append-nil met) (perm_middle met []))
          (holds-absent i met e, d))
]

first_met_keeps :
    (met : List ℕ) (l : List Visit) (x : ℕ) → holds met x ≡ true → holds (first_met met l) x ≡ true
first_met_keeps met [] x h = h
first_met_keeps met (v ∷ l) x h =
    first_met_keeps (meet met (index_of v)) l x (meet_keeps met (index_of v) x h)

pub first_met-holds :
    (met : List ℕ) (l : List Visit) → All (λ v. holds (first_met met l) (index_of v) ≡ true) l
first_met-holds met [] = tt
first_met-holds met (v ∷ l) = (
  first_met_keeps (meet met (index_of v)) l (index_of v) (meet-holds met (index_of v)),
  first_met-holds (meet met (index_of v)) l,
)

pub first_met-Distinct : (met : List ℕ) (l : List Visit) → Distinct met → Distinct (first_met met l)
first_met-Distinct met [] d = d
first_met-Distinct met (v ∷ l) d =
    first_met-Distinct (meet met (index_of v)) l (meet-Distinct met (index_of v) d)

insert_index-Perm : (i : ℕ) (l : List ℕ) → Perm (insert_index i l) (i ∷ l)
insert_index-Perm i [] = Perm.refl (i ∷ [])
insert_index-Perm i (j ∷ l) = elim (Bool-cases (ltb i j)) [
  | inl e ↦
      subst (λ b. Perm (if b then i ∷ j ∷ l else j ∷ insert_index i l) (i ∷ j ∷ l)) (sym e)
        (Perm.refl (i ∷ j ∷ l))
  | inr e ↦
      subst (λ b. Perm (if b then i ∷ j ∷ l else j ∷ insert_index i l) (i ∷ j ∷ l)) (sym e)
        (Perm.trans (Perm.cons j (insert_index-Perm i l)) (Perm.swap i j l))
]

pub sort_indices-Perm : (l : List ℕ) → Perm (sort_indices l) l
sort_indices-Perm [] = Perm.refl []
sort_indices-Perm (i ∷ l) =
    Perm.trans (insert_index-Perm i (sort_indices l)) (Perm.cons i (sort_indices-Perm l))

insert_index-holds :
    (i x : ℕ) (l : List ℕ) → holds (i ∷ l) x ≡ true → holds (insert_index i l) x ≡ true
insert_index-holds i x [] h = h
insert_index-holds i x (j ∷ l) h = elim (Bool-cases (ltb i j)) [
  | inl e ↦ subst (λ b. holds (if b then i ∷ j ∷ l else j ∷ insert_index i l) x ≡ true) (sym e) h
  | inr e ↦
      subst (λ b. holds (if b then i ∷ j ∷ l else j ∷ insert_index i l) x ≡ true) (sym e)
        (elim (Bool-cases (x == j)) [
          | inl k ↦ ground arith
          | inr k ↦ (let ih = insert_index-holds i x l (ground arith) in ground arith)
        ])
]

pub sort_indices-holds : (x : ℕ) (l : List ℕ) → holds l x ≡ true → holds (sort_indices l) x ≡ true
sort_indices-holds x [] h = h
sort_indices-holds x (i ∷ l) h =
    insert_index-holds i x (sort_indices l) (elim (Bool-cases (x == i)) [
      | inl k ↦ ground arith
      | inr k ↦ (let ih = sort_indices-holds x l (ground arith) in ground arith)
    ])

All-append_one : (P : ℕ → Type 0) (l : List ℕ) (i : ℕ) → All P l → P i → All P (l ++ (i ∷ []))
All-append_one P [] i h k = (k, tt)
All-append_one P (j ∷ l) i h k = (h.0, All-append_one P l i h.1 k)

-- what holds of the indices of the visits holds of the keys
pub first_met-All :
    (P : ℕ → Type 0) (met : List ℕ) (l : List Visit)
    → All P met
    → All (λ v. P (index_of v)) l
    → All P (first_met met l)
first_met-All P met [] h k = h
first_met-All P met (v ∷ l) h k =
    first_met-All P (meet met (index_of v)) l
      (elim (Bool-cases (holds met (index_of v))) [
        | inl e ↦ subst (λ b. All P (if b then met else met ++ (index_of v ∷ []))) (sym e) h
        | inr e ↦
            subst (λ b. All P (if b then met else met ++ (index_of v ∷ []))) (sym e)
              (All-append_one P met (index_of v) h k.0)
      ])
      k.1
