-- ===== src/Tsp/TwoOpt/Local.antt =====
-- `twoOpt` stops only at a tour that no reversal makes shorter.
use native.Mathlib.Decide.{ℕ_discrete}
use mop_backend_api.Base.{
  ℕ, zero, suc, ◌-◌, ◌^◌, ◌≤◌, ◌<◌, ◌≡◌, refl, Bool, true, false, List, some, Bool-cases, inl, inr,
  ◌⊎◌, for_range, for_range_inv, length, All, arith, subst,
}
use mop_backend_api.Tsp.Float.{Float, ◌<f◌, Le}
use mop_backend_api.Tsp.Cost.{Matrix, calculate_tour_distance}
use mop_backend_api.Tsp.TwoOpt.{
  Tour, reverse_segment, last_modifiable, try_reverse, sweep, two_opt_loop, two_opt,
}
use mop_backend_api.Tsp.TwoOpt.Laws.{Keeps, two_opt-Keeps}
use mop_backend_api.Tsp.TwoOpt.Ending.{two_opt_total}

module _ {F : Type 0} ⦃o : Float F⦄ (m : Matrix F) where
  -- no reversal of the stops from `i` to `j` is shorter
  abbrev pub IsSettled : Tour F → (i j : ℕ) → Type 0
  IsSettled t i j = Le t.dist (calculate_tour_distance (reverse_segment i j t.order) m)

  -- a pass so far: something was improved, or nothing was and what it tried is settled
  abbrev HasTried : Tour F → Type 0 → Tour F → Type 0
  HasTried t done s = (s.improved ≡ true) ⊎ ((s ≡ t) × done)

  try_reverse-HasTried :
      (t : Tour F) (i j : ℕ) (done : Type 0) (s : Tour F)
      → HasTried t done s
      → HasTried t (done × IsSettled t i j) (try_reverse m i j s)
  unfolding try_reverse
  try_reverse-HasTried t i j done s (inl e) = inl (ground (arith, e))
  try_reverse-HasTried t i j done s (inr (e, h)) =
      elim (Bool-cases (calculate_tour_distance (reverse_segment i j s.order) m <f s.dist)) [
        | inl better ↦ inl (ground (arith, better))
        | inr worse ↦ inr (simp worse e, (h, subst (λ r. IsSettled r i j) e worse))
      ]

  widen :
      (t : Tour F) (done more : Type 0) (s : Tour F)
      → (done → more)
      → HasTried t done s
      → HasTried t more s
  widen t done more s f (inl e) = inl e
  widen t done more s f (inr (e, h)) = inr (e, f h)

  -- the pairs of a row and of the rows before it
  abbrev Row : Tour F → ℕ → ℕ → Type 0
  Row t i j = (b : ℕ) → i < b → b < j → IsSettled t i b

  abbrev Rows : Tour F → (last i : ℕ) → Type 0
  Rows t last i = (a b : ℕ) → 1 ≤ a → a < i → a < b → b ≤ last → IsSettled t a b

  Row-HasTried :
      (t : Tour F) (last i : ℕ) (done : Type 0) (s : Tour F)
      → i < suc last
      → HasTried t done s
      → HasTried t (done × Row t i (suc last)) (for_range (last - i) (suc i) (try_reverse m i) s)
  Row-HasTried t last i done s lt h =
      for_range_inv (λ j r. HasTried t (done × Row t i j) r) (suc last) (try_reverse m i) (last - i)
        (suc i) s (omega arith)
        (λ j r lt' q.
          widen t _ _ _
            (λ ((d, row), here). (
              d,
              λ b up below. elim (ℕ_discrete b j) [
                | yes e ↦ subst (λ k. IsSettled t i k) (omega arith) here
                | no ne ↦ row b up (omega arith)
              ],
            ))
            (try_reverse-HasTried t i j (done × Row t i j) r q))
        (widen t _ _ _ (λ d. (d, λ b up below. absurd (omega arith))) h)

  sweep-HasTried :
      (t : Tour F) (last : ℕ)
      → HasTried
          (record t { improved = false })
          (Rows (record t { improved = false }) last (suc last))
          (sweep m last t)
  unfolding sweep
  sweep-HasTried t last =
      let t₀ = record t { improved = false } in
      for_range_inv (λ i s. HasTried t₀ (Rows t₀ last i) s) (suc last) _ last 1 t₀ (omega arith)
        (λ i s lt h.
          widen t₀ _ _ _
            (λ (rows, row). λ a b pos below up top. elim (ℕ_discrete a i) [
              | yes e ↦
                  subst (λ k. IsSettled t₀ k b) (omega arith) (row b (omega arith) (omega arith))
              | no ne ↦ rows a b pos (omega arith) up top
            ])
            (Row-HasTried t₀ last i (Rows t₀ last i) s lt h))
        (inr (refl, λ a b pos below. absurd (omega arith)))

  two_opt_loop-IsSettled :
      (fuel last : ℕ) (t t' : Tour F)
      → two_opt_loop m fuel last t ≡ some t'
      → (i j : ℕ) → 1 ≤ i
      → i < j
      → j ≤ last
      → IsSettled t' i j
  unfolding two_opt_loop
  two_opt_loop-IsSettled zero last t t' e i j pos up top = absurd (ground arith)
  two_opt_loop-IsSettled (suc fuel) last t t' e i j pos up top =
      elim (Bool-cases (sweep m last t).improved) [
        | inl more ↦
            two_opt_loop-IsSettled fuel last (sweep m last t) t' (ground arith) i j pos up top
        | inr settled ↦ elim (sweep-HasTried t last) [
          | inl moved ↦ absurd (ground (arith, moved, settled))
          | inr (same, rows) ↦
              let result : record t { improved = false } ≡ t' = ground (arith, same) in
              subst (λ r. IsSettled r i j) result (rows i j pos (omega arith) up top)
        ]
      ]

  -- For an order of stops that are rows of the matrix, with more fuel than there are lists of that
  -- length over these rows, `twoOpt` returns a rearrangement with the same first stop, with a fixed end the
  -- same last stop, that is no longer than its input and that no single reversal of stops makes
  -- shorter.
  pub two_opt_lem :
      (order : List ℕ) (fixed : Bool) (fuel : ℕ)
      → All (λ x. x < m.size) order
      → m.size ^ length order < fuel
      → (t : Tour F) × (two_opt m fuel order fixed ≡ some t)
        × Keeps m order fixed t
        × ((i j : ℕ) → 1 ≤ i → i < j → j ≤ last_modifiable (length order) fixed → IsSettled t i j)
  unfolding two_opt
  two_opt_lem order fixed fuel below enough =
      let (t, runs) = two_opt_total m order fixed m.size fuel below enough in
      (t, runs, two_opt-Keeps m order fixed fuel t runs, two_opt_loop-IsSettled fuel _ _ t runs)
