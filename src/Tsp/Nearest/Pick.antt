-- ===== src/Tsp/Nearest/Pick.antt =====
-- The choice of the next stop: the nearest of those not visited yet.
use native.Mathlib.Decide.{ℕ_discrete}
use mop_backend_api.Base.{
  ℕ, zero, suc, ◌+◌, ◌<◌, ◌≤◌, ◌≡◌, refl, ap, Bool, true, false, none, some, Bool-cases, inl, inr,
  ◌⊎◌, for_range_inv, arith, subst, if◌then◌else◌,
}
use mop_backend_api.Tsp.Float.{Float, ◌<f◌, Le, Le_refl}
use mop_backend_api.Tsp.Cost.{Matrix}
use mop_backend_api.Tsp.Nearest.{Candidate, visit, consider, pick}

-- how many of the stops below `n` are not visited yet
pub unvisited : ℕ → (ℕ → Bool) → ℕ
unvisited zero visited = 0
unvisited (suc n) visited = (if visited n then 0 else 1) + unvisited n visited

unvisited-visit_above :
    (n i : ℕ) (visited : ℕ → Bool) → n ≤ i → unvisited n (visit visited i) ≡ unvisited n visited
unfolding unvisited visit
unvisited-visit_above zero i visited h = refl
unvisited-visit_above (suc n) i visited h =
    ground (arith, unvisited-visit_above n i visited (omega arith))

pub unvisited-visit :
    (n i : ℕ) (visited : ℕ → Bool)
    → i < n
    → visited i ≡ false
    → suc (unvisited n (visit visited i)) ≡ unvisited n visited
unfolding unvisited visit
unvisited-visit zero i visited h f = absurd (omega arith)
unvisited-visit (suc n) i visited h f = elim (ℕ_discrete i n) [
  | yes e ↦
      let f' : visited n ≡ false = subst (λ k. visited k ≡ false) e f in
      ground (arith, unvisited-visit_above n i visited (omega arith))
  | no ne ↦ ground (arith, unvisited-visit n i visited (omega arith) f)
]

pub some_unvisited :
    (n : ℕ) (visited : ℕ → Bool) → 0 < unvisited n visited → (j : ℕ) × (j < n) × (visited j ≡ false)
unfolding unvisited
some_unvisited zero visited h = absurd (omega arith)
some_unvisited (suc n) visited h = elim (Bool-cases (visited n)) [
  | inl done ↦ let (j, lt, f) = some_unvisited n visited (ground arith) in (j, omega arith, f)
  | inr free ↦ (n, omega arith, free)
]

pub unvisited_none : (n : ℕ) → unvisited n (λ _. false) ≡ n
unfolding unvisited
unvisited_none zero = refl
unvisited_none (suc n) = omega (arith, unvisited_none n)

module _ {F : Type 0} ⦃o : Float F⦄ (m : Matrix F) (visited : ℕ → Bool) (current : ℕ) where
  -- the rounds of `pick` below `k`
  pub record IsNearest (k : ℕ) (c : Candidate F) : Type 0 where
    pub least : (j : ℕ) → j < k → visited j ≡ false → Le c.dist (m.cell current j)
    pub origin :
        ((c.next ≡ none) × (c.dist ≡ o.inf))
        ⊎ ((j : ℕ) × (j < m.size)
            × (visited j ≡ false)
            × (c.next ≡ some j)
            × (c.dist ≡ m.cell current j))

  consider_le : (j : ℕ) (c : Candidate F) → Le (consider m visited current j c).dist c.dist
  unfolding consider
  consider_le j c = ground (arith, Le_refl c.dist, o.lt_asymm (m.cell current j) c.dist)

  consider_new :
      (j : ℕ) (c : Candidate F)
      → visited j ≡ false
      → Le (consider m visited current j c).dist (m.cell current j)
  unfolding consider
  consider_new j c f = ground (arith, f, Le_refl (m.cell current j))

  consider_origin :
      (j : ℕ) (c : Candidate F)
      → (consider m visited current j c ≡ c)
        ⊎ ((visited j ≡ false)
            × (consider m visited current j c ≡ record { next = some j; dist = m.cell current j }))
  unfolding consider
  consider_origin j c = ground arith

  consider-IsNearest :
      (k : ℕ) (c : Candidate F)
      → k < m.size
      → IsNearest k c
      → IsNearest (suc k) (consider m visited current k c)
  consider-IsNearest k c lt i = record {
    least = λ j h f. elim (ℕ_discrete j k) [
      | yes e ↦
          subst (λ x. Le (consider m visited current k c).dist (m.cell current x)) (omega arith)
            (consider_new k c (subst (λ x. visited x ≡ false) e f))
      | no ne ↦ o.le_trans_f _ c.dist _ (consider_le k c) (i.least j (omega arith) f)
    ];
    origin = elim (consider_origin k c) [
      | inl same ↦ rw same i.origin
      | inr (f, new) ↦ inr (k, lt, f, ap (λ x. x.next) new, ap (λ x. x.dist) new)
    ];
  }

  pick-IsNearest : IsNearest m.size (pick m visited current)
  unfolding pick
  pick-IsNearest =
      for_range_inv IsNearest m.size (consider m visited current) m.size 0 _ (omega arith)
        (λ k c lt i. consider-IsNearest k c lt i)
        (record { least = λ j h. absurd (omega arith); origin = inl (refl, refl) })

  -- If a stop that can be reached is left, the pick is the nearest one left.
  pub pick_nearest :
      0 < unvisited m.size visited
      → ((j : ℕ) → j < m.size → visited j ≡ false → (m.cell current j <f o.inf) ≡ true)
      → (j : ℕ) × (j < m.size)
        × (visited j ≡ false)
        × ((pick m visited current).next ≡ some j)
        × ((i : ℕ) → i < m.size → visited i ≡ false → Le (m.cell current j) (m.cell current i))
  pick_nearest left reach =
      let p = pick-IsNearest in
      let (x, lt, free) = some_unvisited m.size visited left in
      elim p.origin [
        | inl (nowhere, far) ↦ absurd (ground (arith, far, p.least x lt free, reach x lt free))
        | inr (j, lt', f, next, dist) ↦ (j, lt', f, next, λ i h g. rw dist at (p.least i h g))
      ]
