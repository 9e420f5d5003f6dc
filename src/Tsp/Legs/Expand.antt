-- ===== src/Tsp/Legs/Expand.antt =====
-- Expanding the legs of a list of representatives that climbs.
use mop_backend_api.Base.{
  ℕ, zero, suc, ◌≤◌, ◌<◌, ◌≡◌, refl, sym, ap, ◌∙◌, true, false, List, [], ◌∷◌, some, length,
  get_elem?, ◌==◌, if◌then◌else◌, ◌⊎◌, inl, inr, arith, drop,
}
use mop_backend_api.Tsp.Legs.{expand_from}

-- Each representative is the one before or the next, up to the last one.
abbrev pub IsClimb : (c last : ℕ) → List ℕ → Type 0
IsClimb c n [] = c ≡ n
IsClimb c n (r ∷ rs) = ((r ≡ c) ⊎ (r ≡ suc c)) × IsClimb r n rs

-- the legs between different representatives
unfoldable pub moving {ℓ} : {A : Type ℓ} → (c : ℕ) → List ℕ → List A → List A
moving c [] out = []
moving c (r ∷ rs) [] = []
moving c (r ∷ rs) (x ∷ xs) = let rest = moving r rs xs in if c == r then rest else x ∷ rest

unfoldable pub moving_legs {ℓ} : {A : Type ℓ} → List ℕ → List A → List A
unfolding moving
moving_legs [] out = []
moving_legs (r ∷ rs) out = moving r rs out

climb_le : (c n : ℕ) (rs : List ℕ) → IsClimb c n rs → c ≤ n
climb_le c n [] e = omega arith
climb_le c n (r ∷ rs) (step, h) = let ih = climb_le r n rs h in ground arith

drop_elem {ℓ} :
    {A : Type ℓ} (xs : List A) (i : ℕ)
    → i < length xs
    → (x : A) × (get_elem? xs i ≡ some x) × (drop i xs ≡ x ∷ drop (suc i) xs)
drop_elem [] i h = absurd (omega arith)
drop_elem (x ∷ xs) zero h = (x, refl, refl)
drop_elem (x ∷ xs) (suc i) h = drop_elem xs i (omega arith)

drop_all {ℓ} : {A : Type ℓ} (xs : List A) (i : ℕ) → length xs ≤ i → drop i xs ≡ []
drop_all [] zero h = refl
drop_all [] (suc i) h = refl
drop_all (x ∷ xs) zero h = absurd (omega arith)
drop_all (x ∷ xs) (suc i) h = drop_all xs i (omega arith)

same_index : (a b : ℕ) → b ≡ a → (a == b) ≡ true
same_index a b h = ground arith

other_index : (a b : ℕ) → b ≡ suc a → (a == b) ≡ false
other_index a b h = ground arith

moving_same {ℓ} :
    {A : Type ℓ} (c r : ℕ) (rs : List ℕ) (x : A) (xs : List A)
    → r ≡ c
    → moving c (r ∷ rs) (x ∷ xs) ≡ moving r rs xs
unfolding moving
moving_same c r rs x xs e = simp (same_index c r e)

moving_next {ℓ} :
    {A : Type ℓ} (c r : ℕ) (rs : List ℕ) (x : A) (xs : List A)
    → r ≡ suc c
    → moving c (r ∷ rs) (x ∷ xs) ≡ x ∷ moving r rs xs
unfolding moving
moving_next c r rs x xs e = simp (other_index c r e)

-- What expanding gives: as many legs as steps, the moving ones being the given legs in order.
abbrev pub IsExpanded {ℓ} : {A : Type ℓ} → (legs : List A) (c : ℕ) → List ℕ → List A → Type ℓ
IsExpanded legs c rs out = (length out ≡ length rs) × (moving c rs out ≡ drop c legs)

pub expand_from_total {ℓ} :
    {A : Type ℓ} (z : A) (legs : List A) (c : ℕ) (rs : List ℕ)
    → IsClimb c (length legs) rs
    → (out : List A) × (expand_from z legs c rs ≡ some out) × IsExpanded legs c rs out
unfolding expand_from moving
expand_from_total z legs c [] e = ([], refl, (refl, sym (drop_all legs c (omega arith))))
expand_from_total z legs c (r ∷ rs) (inl e, h) =
    let (out, runs, (len, moves)) = expand_from_total z legs r rs h in
    (
      z ∷ out,
      simp (same_index c r e, runs),
      (ap suc len, moving_same c r rs z out e ∙ moves ∙ ap (λ k. drop k legs) e),
    )
expand_from_total z legs c (r ∷ rs) (inr e, h) =
    let (out, runs, (len, moves)) = expand_from_total z legs r rs h in
    let (x, here, rest) =
      drop_elem legs c (let le = climb_le r (length legs) rs h in omega arith) in
    (
      x ∷ out,
      simp (other_index c r e, here, runs),
      (
        ap suc len,
        moving_next c r rs x out e ∙ ap (λ l. x ∷ l) (moves ∙ ap (λ k. drop k legs) e) ∙ sym rest,
      ),
    )
