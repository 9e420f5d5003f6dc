-- ===== src/Tsp/HeldKarp/Choose.antt =====
-- The search for the cheapest last stop.
use native.Mathlib.Decide.{ℕ_discrete}
use mop_backend_api.Base.{
  ℕ, suc, ◌<◌, ◌≡◌, ◌≢◌, refl, ap, none, some, arith, subst, inl, inr, ◌⊎◌, for_range_inv,
}
use mop_backend_api.Tsp.Float.{Float, Le, Le_refl}
use mop_backend_api.Tsp.Cost.{Matrix}
use mop_backend_api.Tsp.HeldKarp.{Cell, Best, try_end, choose_end}

module _ {F : Type 0} ⦃o : Float F⦄ (m : Matrix F) (start : ℕ) where
  -- the rounds of `choose_end` below `k`
  pub record IsChosen (row : ℕ → Cell F) (k : ℕ) (b : Best F) : Type 0 where
    pub least : (e : ℕ) → e < k → e ≢ start → Le b.cost (row e).dist
    pub origin :
        ((b.stop ≡ none) × (b.cost ≡ o.inf))
        ⊎ ((e : ℕ) × (e < m.size) × (e ≢ start) × (b.stop ≡ some e) × (b.cost ≡ (row e).dist))

  try_end_le : (row : ℕ → Cell F) (k : ℕ) (b : Best F) → Le (try_end m row start k b).cost b.cost
  unfolding try_end
  try_end_le row k b = ground (arith, Le_refl b.cost, o.lt_asymm (row k).dist b.cost)

  try_end_new :
      (row : ℕ → Cell F) (k : ℕ) (b : Best F)
      → k ≢ start
      → Le (try_end m row start k b).cost (row k).dist
  unfolding try_end
  try_end_new row k b ne = ground (arith, ne, Le_refl (row k).dist)

  try_end_origin :
      (row : ℕ → Cell F) (k : ℕ) (b : Best F)
      → (try_end m row start k b ≡ b)
        ⊎ ((k ≢ start) × (try_end m row start k b ≡ record { cost = (row k).dist; stop = some k }))
  unfolding try_end
  try_end_origin row k b = ground arith

  try_end-IsChosen :
      (row : ℕ → Cell F) (k : ℕ) (b : Best F)
      → k < m.size
      → IsChosen row k b
      → IsChosen row (suc k) (try_end m row start k b)
  try_end-IsChosen row k b lt c = record {
    least = λ e h ne. elim (ℕ_discrete e k) [
      | yes q ↦
          subst (λ i. Le (try_end m row start k b).cost (row i).dist) (omega arith)
            (try_end_new row k b (λ i. ne (omega arith)))
      | no other ↦
          o.le_trans_f (try_end m row start k b).cost b.cost _ (try_end_le row k b)
            (c.least e (omega arith) ne)
    ];
    origin = elim (try_end_origin row k b) [
      | inl same ↦ rw same c.origin
      | inr (ne, new) ↦ inr (k, lt, ne, ap (λ x. x.stop) new, ap (λ x. x.cost) new)
    ];
  }

  pub choose_end-IsChosen : (row : ℕ → Cell F) → IsChosen row m.size (choose_end m row start none)
  unfolding choose_end
  choose_end-IsChosen row =
      for_range_inv (IsChosen row) m.size (try_end m row start) m.size 0 _ (omega arith)
        (λ k t lt c. try_end-IsChosen row k t lt c)
        (record { least = λ e h. absurd (omega arith); origin = inl (refl, refl) })
