-- ===== src/Api/Segments/Valid.antt =====
-- What `assertSegmentsValid` of api/v1_routing.go accepts.
use mop_backend_api.Base.{
  ℕ, suc, ◌≤◌, ◌≡◌, refl, sym, ◌∙◌, subst, Bool, true, false, List, [], ◌∷◌, arith, ◌⊎◌, inl, inr,
  ◌↔◌, ◌==◌, if◌then◌else◌, Bool-cases,
}
use mop_backend_api.Api.Visits.{Visit, deref_uint}
use mop_backend_api.Api.Segments.{valid_from, segments_valid}

abbrev index : Visit → ℕ
index v = deref_uint v.segment_index

-- the indices do not fall, from a first one on
pub IsRising : ℕ → List Visit → Type 0
IsRising p [] = Unit
IsRising p (v ∷ vs) = (p ≤ index v) × IsRising (index v) vs

-- a visit of the list has an index
pub IsUsed : ℕ → List Visit → Type 0
IsUsed k [] = ⊥
IsUsed k (v ∷ vs) = (k ≡ index v) ⊎ IsUsed k vs

-- every index below a used one is used
pub IsDense : List Visit → Type 0
IsDense vs = (x k : ℕ) → IsUsed x vs → k ≤ x → IsUsed k vs

-- each index is the one before or the next
IsStepped : ℕ → List Visit → Type 0
IsStepped p [] = Unit
IsStepped p (v ∷ vs) = ((index v ≡ p) ⊎ (index v ≡ suc p)) × IsStepped (index v) vs

-- the number wanted at a visit
abbrev want : (p g : ℕ) → ℕ
want p g = if g == p then p else suc p

want_stepped : (p g : ℕ) → (g ≡ p) ⊎ (g ≡ suc p) → want p g ≡ g
want_stepped p g (inl e) = ground arith
want_stepped p g (inr e) = ground arith

want_steps : (p g : ℕ) → want p g ≡ g → (g ≡ p) ⊎ (g ≡ suc p)
want_steps p g h = ground arith

if-eq-true :
    (a b : ℕ) (r : ℕ → Bool) → (if a == b then r b else false) ≡ true → (b ≡ a) × (r a ≡ true)
if-eq-true a b r h = elim (Bool-cases (a == b)) [
  | inl e ↦ (let eq : b ≡ a = ground arith in (eq, subst (λ c. r c ≡ true) eq (ground arith)))
  | inr e ↦ absurd (ground arith)
]

eq-if-true : (a b : ℕ) (r : ℕ → Bool) → b ≡ a → r a ≡ true → (if a == b then r b else false) ≡ true
eq-if-true a b r e h = subst (λ c. (if a == c then r c else false) ≡ true) (sym e) (ground arith)

IsStepped-valid : (p : ℕ) (vs : List Visit) → IsStepped p vs → valid_from p p vs ≡ true
unfolding IsStepped valid_from
IsStepped-valid p [] h = refl
IsStepped-valid p (v ∷ vs) (step, h) =
    eq-if-true (index v) (want p (index v)) (λ w. valid_from (index v) w vs)
      (want_stepped p (index v) step) (IsStepped-valid (index v) vs h)

valid-IsStepped : (p : ℕ) (vs : List Visit) → valid_from p p vs ≡ true → IsStepped p vs
unfolding IsStepped valid_from
valid-IsStepped p [] h = tt
valid-IsStepped p (v ∷ vs) h =
    let (e, rest) = if-eq-true (index v) (want p (index v)) (λ w. valid_from (index v) w vs) h in
    (want_steps p (index v) e, valid-IsStepped (index v) vs rest)

used_above : (p x : ℕ) (vs : List Visit) → IsRising p vs → IsUsed x vs → p ≤ x
unfolding IsRising IsUsed
used_above p x [] h u = absurd u
used_above p x (v ∷ vs) (le, h) (inl e) = ground arith
used_above p x (v ∷ vs) (le, h) (inr u) = let ih = used_above (index v) x vs h u in omega arith

le_or_lt : (a b : ℕ) → (a ≤ b) ⊎ (suc b ≤ a)
le_or_lt a b = ground arith

stepped-IsRising : (p : ℕ) (vs : List Visit) → IsStepped p vs → IsRising p vs
unfolding IsRising IsStepped
stepped-IsRising p [] h = tt
stepped-IsRising p (v ∷ vs) (inl e, h) = (ground arith, stepped-IsRising (index v) vs h)
stepped-IsRising p (v ∷ vs) (inr e, h) = (ground arith, stepped-IsRising (index v) vs h)

first_step : (p g : ℕ) → p ≤ g → (suc p ≤ g → suc p ≡ g) → (g ≡ p) ⊎ (g ≡ suc p)
first_step p g le next = elim (le_or_lt g p) [
  | inl h ↦ inl (omega arith)
  | inr h ↦ inr (sym (next h))
]

-- every index above the last one and up to a used one is used
IsStepped-dense :
    (p x k : ℕ) (vs : List Visit)
    → IsStepped p vs
    → IsUsed x vs
    → p ≤ k
    → k ≤ x
    → (k ≡ p) ⊎ IsUsed k vs
unfolding IsStepped IsUsed
IsStepped-dense p x k [] h u low high = inr u
IsStepped-dense p x k (v ∷ vs) (step, h) (inl e) low high = ground arith
IsStepped-dense p x k (v ∷ vs) (step, h) (inr u) low high = elim (le_or_lt (index v) k) [
  | inl le ↦ inr (IsStepped-dense (index v) x k vs h u le high)
  | inr lt ↦ ground arith
]

dense-IsStepped :
    (p : ℕ) (vs : List Visit)
    → IsRising p vs
    → ((x k : ℕ) → IsUsed x vs → p ≤ k → k ≤ x → (k ≡ p) ⊎ IsUsed k vs)
    → IsStepped p vs
unfolding IsStepped IsUsed IsRising
dense-IsStepped p [] h d = tt
dense-IsStepped p (v ∷ vs) (le, h) d = (
  first_step p (index v) le λ lt.
      let u = d (index v) (suc p) (inl refl) (omega arith) lt in
      elim u [
        | inl e ↦ absurd (omega arith)
        | inr (inl e) ↦ e
        | inr (inr u') ↦ let low = used_above (index v) (suc p) vs h u' in omega arith
      ],
  dense-IsStepped (index v) vs h λ x k u low high. elim (d x k (inr u) (omega arith) high) [
    | inl e ↦ inl (omega arith)
    | inr u' ↦ u'
  ],
)

-- `assertSegmentsValid` accepts the visits in the order of their stops exactly when, along that
-- order, the segment indices never fall and no index below one in use is missing.
pub segments_valid_lem :
    (vs : List Visit) → (segments_valid vs ≡ true) ↔ (IsRising 0 vs × IsDense vs)
unfolding segments_valid IsRising IsDense IsUsed IsStepped
segments_valid_lem [] = ((λ h. (tt, λ x k u le. u)), (λ h. refl))
segments_valid_lem (v ∷ vs) = (
  (λ h.
      let (e, rest) = if-eq-true (index v) 0 (λ w. valid_from (index v) w vs) h in
      let st = valid-IsStepped (index v) vs rest in
      (
        (omega arith, stepped-IsRising (index v) vs st),
        λ x k u le. elim (IsStepped-dense 0 x k (v ∷ vs) (inl (sym e), st) u (omega arith) le) [
          | inl z ↦ inl (z ∙ e)
          | inr u' ↦ u'
        ],
      )),
  λ (rise, dense).
      let (step, st) = dense-IsStepped 0 (v ∷ vs) rise (λ x k u low le. inr (dense x k u le)) in
      let e : 0 ≡ index v = elim (dense (index v) 0 (inl refl) (omega arith)) [
        | inl z ↦ z
        | inr u ↦ (let le = used_above (index v) 0 vs rise.1 u in omega arith)
      ] in
      eq-if-true (index v) 0 (λ w. valid_from (index v) w vs) e (IsStepped-valid (index v) vs st),
)
