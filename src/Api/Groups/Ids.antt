-- ===== src/Api/Groups/Ids.antt =====
-- Why the count of `AssignVisitsToGroup` in api/v1_groups.go checks the ids of a request.
use mop_backend_api.Base.{
  ℕ, ◌+◌, ◌≤◌, ◌≡◌, ◌≢◌, refl, ap, subst, Bool, true, false, List, [], ◌∷◌, ◌==◌, if◌then◌else◌,
  All, Distinct, length, arith, inl, inr, Bool-cases,
}
use mop_backend_api.Api.Visits.{Visit, select}
use mop_backend_api.Api.Rows.{ids_of, select_yes, select_no, select_none}
use mop_backend_api.Api.Groups.{holds, id_in}

-- a row has the id
abbrev pub IsPresent : List Visit → ℕ → Type 0
IsPresent rows i = select (λ w. w.id == i) rows ≢ []

holds-cons : (i x : ℕ) (is : List ℕ) → holds is i ≡ true → holds (i ∷ is) x ≡ holds is x
holds-cons i x is h = elim (Bool-cases (x == i)) [
  | inl e ↦ (let same : x ≡ i = ground arith in let other = ap (holds is) same in ground arith)
  | inr e ↦ ground arith
]

holds-ne : (i : ℕ) (is : List ℕ) → holds is i ≡ false → All (λ j. j ≢ i) is
holds-ne i [] h = tt
holds-ne i (j ∷ is) h = ((λ e. ground arith), holds-ne i is (ground arith))

select_same :
    (p q : Visit → Bool) (rows : List Visit)
    → ((v : Visit) → p v ≡ q v)
    → select p rows ≡ select q rows
select_same p q [] h = refl
select_same p q (v ∷ rows) h = rw (h v, select_same p q rows h) refl

at_most_one :
    (i : ℕ) (rows : List Visit) → Distinct (ids_of rows) → length (select (λ w. w.id == i) rows) ≤ 1
at_most_one i [] d = omega arith
at_most_one i (w ∷ rows) d = elim (Bool-cases (w.id == i)) [
  | inl e ↦
      let same : w.id ≡ i = ground arith in
      let left = select_none i rows (subst (λ k. All (λ j. j ≢ k) (ids_of rows)) same d.0) in
      rw (select_yes (λ u. u.id == i) w rows e, left) (omega arith)
  | inr e ↦ rw (select_no (λ u. u.id == i) w rows e) (at_most_one i rows d.1)
]

length-select :
    (p : Visit → Bool) (w : Visit) (rows : List Visit)
    → length (select p (w ∷ rows)) ≡ (if p w then 1 else 0) + length (select p rows)
length-select p w rows = elim (Bool-cases (p w)) [
  | inl e ↦ rw e (omega arith)
  | inr e ↦ rw e (omega arith)
]

one_more :
    (b c : Bool)
    → (if (if b then true else c) then 1 else 0) ≤ (if c then 1 else 0) + (if b then 1 else 0)
one_more true true = omega arith
one_more true false = omega arith
one_more false true = omega arith
one_more false false = omega arith

-- an id more finds at most the rows of that id more
length-select_cons :
    (i : ℕ) (is : List ℕ) (rows : List Visit)
    → length (select (id_in (i ∷ is)) rows)
      ≤ length (select (id_in is) rows) + length (select (λ w. w.id == i) rows)
length-select_cons i is [] = omega arith
length-select_cons i is (w ∷ rows) = omega (
  arith,
  length-select_cons i is rows,
  length-select (id_in (i ∷ is)) w rows,
  length-select (id_in is) w rows,
  length-select (λ w. w.id == i) w rows,
  one_more (w.id == i) (holds is w.id),
)

select_nothing : (rows : List Visit) → select (id_in []) rows ≡ []
select_nothing [] = refl
select_nothing (w ∷ rows) = select_nothing rows

found_at_most :
    (is : List ℕ) (rows : List Visit)
    → Distinct (ids_of rows)
    → length (select (id_in is) rows) ≤ length is
found_at_most [] rows d = rw (select_nothing rows) (omega arith)
found_at_most (i ∷ is) rows d =
    omega (arith, length-select_cons i is rows, found_at_most is rows d, at_most_one i rows d)

none_shorter : {A : Type 0} (l : List A) → 1 ≤ length l → l ≢ []
none_shorter [] h e = absurd (omega arith)
none_shorter (x ∷ l) h e = absurd (ground arith)

-- As many rows as ids of a request: the ids are distinct, and each is the id of a row.
pub found_all :
    (is : List ℕ) (rows : List Visit)
    → Distinct (ids_of rows)
    → length (select (id_in is) rows) ≡ length is
    → Distinct is × All (IsPresent rows) is
found_all [] rows d h = (tt, tt)
found_all (i ∷ is) rows d h =
    let more = length-select_cons i is rows in
    let most = found_at_most is rows d in
    let one = at_most_one i rows d in
    let (apart, present) = found_all is rows d (omega arith) in
    (
      (
        elim (Bool-cases (holds is i)) [
          | inl e ↦
              let same =
                ap length
                  (select_same (id_in (i ∷ is)) (id_in is) rows (λ v. holds-cons i v.id is e)) in
              absurd (omega arith)
          | inr e ↦ holds-ne i is e
        ],
        apart,
      ),
      (none_shorter (select (λ w. w.id == i) rows) (omega arith), present),
    )
