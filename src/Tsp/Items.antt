-- ===== src/Tsp/Items.antt =====
-- Lists that hold the same stops, as often: what a change of order keeps.
use mop_backend_api.Base.{
  ℕ, ◌+◌, ◌≤◌, ◌<◌, ◌≡◌, ◌≢◌, refl, ◌∙◌, List, [], ◌∷◌, ◌++◌, ◌==◌, if◌then◌else◌, length, rev_onto,
  All, Distinct, arith, subst,
}
use native.Mathlib.Decide.{ℕ_discrete}
use mop_backend_api.Tsp.Cost.{IsRoute}

abbrev pub count : ℕ → List ℕ → ℕ
count a [] = 0
count a (x ∷ l) = (if x == a then 1 else 0) + count a l

abbrev pub SameItems : List ℕ → List ℕ → Type 0
SameItems l r = (a : ℕ) → count a l ≡ count a r

pub count-append : (a : ℕ) (l r : List ℕ) → count a (l ++ r) ≡ count a l + count a r
count-append a [] r = omega arith
count-append a (x ∷ l) r = omega (arith, count-append a l r)

pub count-rev_onto : (a : ℕ) (l r : List ℕ) → count a (rev_onto l r) ≡ count a l + count a r
count-rev_onto a [] r = omega arith
count-rev_onto a (x ∷ l) r = omega (arith, count-rev_onto a l (x ∷ r))

count-zero : (a : ℕ) (l : List ℕ) → All (λ y. y ≢ a) l → count a l ≡ 0
count-zero a [] h = refl
count-zero a (x ∷ l) h = ground (arith, count-zero a l h.1, h.0)

All-ne_of_count : (a : ℕ) (l : List ℕ) → count a l ≡ 0 → All (λ y. y ≢ a) l
All-ne_of_count a [] h = tt
All-ne_of_count a (x ∷ l) h = (λ e. ground arith, All-ne_of_count a l (omega arith))

count-Distinct : (a : ℕ) (l : List ℕ) → Distinct l → count a l ≤ 1
count-Distinct a [] d = omega arith
count-Distinct a (x ∷ l) d = elim (ℕ_discrete x a) [
  | yes e ↦ let none_left = count-zero a l (subst (λ k. All (λ y. y ≢ k) l) e d.0) in ground arith
  | no ne ↦ ground (arith, count-Distinct a l d.1)
]

Distinct-of_count : (l : List ℕ) → ((a : ℕ) → count a l ≤ 1) → Distinct l
Distinct-of_count [] h = tt
Distinct-of_count (x ∷ l) h =
    (All-ne_of_count x l (ground (arith, h x)), Distinct-of_count l (λ a. omega (arith, h a)))

count-below : (n a : ℕ) (l : List ℕ) → All (λ x. x < n) l → n ≤ a → count a l ≡ 0
count-below n a [] h le = refl
count-below n a (x ∷ l) h le = ground (arith, count-below n a l h.1 le)

below_of_count : (n : ℕ) (l : List ℕ) → ((a : ℕ) → n ≤ a → count a l ≡ 0) → All (λ x. x < n) l
below_of_count n [] h = tt
below_of_count n (x ∷ l) h =
    (ground (arith, h x), below_of_count n l (λ a le. omega (arith, h a le)))

-- A change of order keeps a route a route.
pub IsRoute-SameItems :
    (n : ℕ) (l r : List ℕ) → SameItems r l → length r ≡ length l → IsRoute n l → IsRoute n r
IsRoute-SameItems n l r same size i = record {
  size = size ∙ i.size;
  below = below_of_count n r (λ a le. same a ∙ count-below n a l i.below le);
  distinct = Distinct-of_count r (λ a. omega (arith, same a, count-Distinct a l i.distinct));
}

pub below-SameItems :
    (n : ℕ) (l r : List ℕ) → SameItems r l → All (λ x. x < n) l → All (λ x. x < n) r
below-SameItems n l r same b = below_of_count n r (λ a le. same a ∙ count-below n a l b le)
