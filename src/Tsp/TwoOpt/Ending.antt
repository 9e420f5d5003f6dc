-- ===== src/Tsp/TwoOpt/Ending.antt =====
-- `twoOpt` ends: each pass that improves leaves fewer tours that are shorter, and there are finitely
-- many tours.
use native.Mathlib.Nat.{pow-suc, pow-zero}
use native.Mathlib.Decide.{ℕ_discrete}
use mop_backend_api.Base.{
  ℕ, zero, suc, ◌+◌, ◌-◌, ◌*◌, ◌^◌, ◌≤◌, ◌<◌, ◌≡◌, refl, Bool, true, false, List, [], ◌∷◌, some,
  Bool-cases, inl, inr, ◌⊎◌, if◌then◌else◌, for_range_inv, length, All, arith, subst,
}
use mop_backend_api.Tsp.Float.{Float, ◌<f◌, Le_refl, lt_trans_f}
use mop_backend_api.Tsp.Cost.{Matrix, calculate_tour_distance}
use mop_backend_api.Tsp.Items.{below-SameItems}
use mop_backend_api.Tsp.TwoOpt.{Tour, try_reverse, sweep, two_opt_loop, two_opt}
use mop_backend_api.Tsp.TwoOpt.Laws.{Keeps, start-Keeps, last_index, sweep-Keeps, try_reverse_cases}

-- f(0) + … + f(n - 1)
sum_below : ℕ → (ℕ → ℕ) → ℕ
sum_below zero f = 0
sum_below (suc n) f = f n + sum_below n f

sum_below_mono : (n : ℕ) (f g : ℕ → ℕ) → ((x : ℕ) → f x ≤ g x) → sum_below n f ≤ sum_below n g
unfolding sum_below
sum_below_mono zero f g h = omega arith
sum_below_mono (suc n) f g h = omega (arith, h n, sum_below_mono n f g h)

sum_below-lt :
    (n : ℕ) (f g : ℕ → ℕ) (k : ℕ)
    → ((x : ℕ) → f x ≤ g x)
    → k < n
    → f k < g k
    → sum_below n f < sum_below n g
unfolding sum_below
sum_below-lt zero f g k h lt s = absurd (omega arith)
sum_below-lt (suc n) f g k h lt s = elim (ℕ_discrete k n) [
  | yes e ↦ let s' : f n < g n = subst (λ i. f i < g i) e s in omega (arith, sum_below_mono n f g h)
  | no ne ↦ omega (arith, h n, sum_below-lt n f g k h (omega arith) s)
]

sum_below-le : (n : ℕ) (f : ℕ → ℕ) (c : ℕ) → ((x : ℕ) → f x ≤ c) → sum_below n f ≤ c * n
unfolding sum_below
sum_below-le zero f c h = omega arith
sum_below-le (suc n) f c h = grind (arith, h n, sum_below-le n f c h)

-- how many lists of `n` numbers below `k` pass a test
count_lists : (k n : ℕ) → (List ℕ → Bool) → ℕ
count_lists k zero p = if p [] then 1 else 0
count_lists k (suc n) p = sum_below k (λ x. count_lists k n (λ l. p (x ∷ l)))

count_lists_mono :
    (k n : ℕ) (p q : List ℕ → Bool)
    → ((l : List ℕ) → p l ≡ true → q l ≡ true)
    → count_lists k n p ≤ count_lists k n q
unfolding count_lists
count_lists_mono k zero p q h = ground (arith, h [])
count_lists_mono k (suc n) p q h =
    sum_below_mono k _ _
      (λ x. count_lists_mono k n (λ l. p (x ∷ l)) (λ l. q (x ∷ l)) (λ l. h (x ∷ l)))

count_lists-lt :
    (k n : ℕ) (p q : List ℕ → Bool) (l : List ℕ)
    → ((r : List ℕ) → p r ≡ true → q r ≡ true)
    → length l ≡ n
    → All (λ x. x < k) l
    → p l ≡ false
    → q l ≡ true
    → count_lists k n p < count_lists k n q
unfolding count_lists
count_lists-lt k zero p q [] h e b x y = ground arith
count_lists-lt k zero p q (z ∷ l) h e b x y = absurd (omega arith)
count_lists-lt k (suc n) p q [] h e b x y = absurd (omega arith)
count_lists-lt k (suc n) p q (z ∷ l) h e b x y =
    sum_below-lt k _ _ z
      (λ i. count_lists_mono k n (λ r. p (i ∷ r)) (λ r. q (i ∷ r)) (λ r. h (i ∷ r))) b.0
      (count_lists-lt k n (λ r. p (z ∷ r)) (λ r. q (z ∷ r)) l (λ r. h (z ∷ r)) (omega arith) b.1 x
        y)

count_lists-le : (k n : ℕ) (p : List ℕ → Bool) → count_lists k n p ≤ k ^ n
unfolding count_lists
count_lists-le k zero p = rw pow-zero (ground arith)
count_lists-le k (suc n) p =
    rw pow-suc (sum_below-le k _ (k ^ n) (λ x. count_lists-le k n (λ l. p (x ∷ l))))

module _ {F : Type 0} ⦃o : Float F⦄ (m : Matrix F) (order : List ℕ) (fixed : Bool) (k : ℕ) where
  -- how many tours are shorter than this one
  shorter_tours : Tour F → ℕ
  shorter_tours t = count_lists k (length order) (λ l. calculate_tour_distance l m <f t.dist)

  -- a pass either improved nothing and left the length alone, or made the tour shorter
  HasMoved : F → Tour F → Type 0
  HasMoved d t =
      ((t.improved ≡ false) × (t.dist ≡ d)) ⊎ ((t.improved ≡ true) × ((t.dist <f d) ≡ true))

  try_reverse-HasMoved :
      (i j : ℕ) (d : F) (t : Tour F) → HasMoved d t → HasMoved d (try_reverse m i j t)
  unfolding HasMoved
  try_reverse-HasMoved i j d t h = elim (try_reverse_cases m order fixed i j t) [
    | inl same ↦ rw same h
    | inr (better, new) ↦ rw new (
        inr (
          refl,
          elim h [
            | inl (still, e) ↦ rw e at better
            | inr (moved, less) ↦ lt_trans_f _ t.dist d better less
          ],
        ))
  ]

  sweep-HasMoved : (t : Tour F) (last : ℕ) → HasMoved t.dist (sweep m last t)
  unfolding sweep HasMoved
  sweep-HasMoved t last =
      for_range_inv (λ i s. HasMoved t.dist s) (suc last) _ last 1 (record t { improved = false })
        (omega arith)
        (λ i s lt h.
          for_range_inv (λ j r. HasMoved t.dist r) (suc i + (last - i)) (try_reverse m i) (last - i)
            (suc i) s refl (λ j r lt' q. try_reverse-HasMoved i j t.dist r q) h)
        (inl (refl, refl))

  -- an improving pass leaves fewer tours that are shorter
  sweep-shorter_tours :
      (t : Tour F)
      → All (λ x. x < k) order
      → Keeps m order fixed t
      → (sweep m (last_index m order fixed) t).improved ≡ true
      → shorter_tours (sweep m (last_index m order fixed) t) < shorter_tours t
  unfolding shorter_tours HasMoved
  sweep-shorter_tours t below kept moved =
      let t' = sweep m (last_index m order fixed) t in
      let kept' = sweep-Keeps m order fixed t kept in
      let less : (t'.dist <f t.dist) ≡ true = elim (sweep-HasMoved t (last_index m order fixed)) [
        | inl (still, e) ↦ absurd (ground (arith, still, moved))
        | inr (moved', q) ↦ q
      ] in
      count_lists-lt k (length order) _ _ t'.order
        (λ l h. lt_trans_f (calculate_tour_distance l m) t'.dist t.dist h less) kept'.size
        (below-SameItems k order t'.order kept'.items below) (rw (← kept'.total) (Le_refl t'.dist))
        (rw (← kept'.total) less)

  two_opt_loop_total :
      (fuel : ℕ) (t : Tour F)
      → All (λ x. x < k) order
      → Keeps m order fixed t
      → shorter_tours t < fuel
      → (t' : Tour F) × (two_opt_loop m fuel (last_index m order fixed) t ≡ some t')
  unfolding two_opt_loop
  two_opt_loop_total zero t below kept h = absurd (omega arith)
  two_opt_loop_total (suc fuel) t below kept h =
      let t' = sweep m (last_index m order fixed) t in
      elim (Bool-cases t'.improved) [
        | inl more ↦
            let (r, e) =
              two_opt_loop_total fuel t' below (sweep-Keeps m order fixed t kept)
                (omega (arith, sweep-shorter_tours t below kept more)) in
            (r, simp more e)
        | inr settled ↦ (t', simp settled)
      ]

  -- With more fuel than there are lists of that many stops, `twoOpt` returns.
  pub two_opt_total :
      (fuel : ℕ)
      → All (λ x. x < k) order
      → k ^ length order < fuel
      → (t : Tour F) × (two_opt m fuel order fixed ≡ some t)
  unfolding two_opt shorter_tours
  two_opt_total fuel below h = two_opt_loop_total fuel _ below (start-Keeps m order fixed) (
      omega (
        arith,
        count_lists-le k (length order)
            (λ l. calculate_tour_distance l m <f calculate_tour_distance order m),
      ))
