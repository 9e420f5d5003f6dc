-- ===== src/Tsp/HeldKarp/Trace.antt =====
-- The way back through the filled table: the parents lead along a walk that costs what the cell
-- says, and `trace_back` collects it.
use mop_backend_api.Base.{
  ℕ, zero, suc, ◌+◌, ◌<◌, ◌≡◌, refl, sym, ◌∙◌, ap, true, List, [], ◌∷◌, some, length, rev_onto,
  arith, inl, inr,
}
use mop_backend_api.Base.Bits.{one_shl, flip, bit-flip, flip-sub, flip-lt}
use mop_backend_api.Tsp.Float.{Float, ◌<f◌, ◌+f◌}
use mop_backend_api.Tsp.Cost.{Matrix}
use mop_backend_api.Tsp.HeldKarp.{Table, trace_back}
use mop_backend_api.Tsp.HeldKarp.Walk.{mask_of, IsWalk, walk_cost}
use mop_backend_api.Tsp.HeldKarp.Fill.{IsBest}

-- the parents of the cells lead along `r`
abbrev pub Follows : {F : Type 0} → Table F → (mask e : ℕ) → List ℕ → Type 0
Follows dp mask e [] = Unit
Follows dp mask e (p ∷ r) = ((dp mask e).parent ≡ some p) × Follows dp (flip mask e) p r

module _ {F : Type 0} ⦃o : Float F⦄ (m : Matrix F) (start : ℕ) where
  pub trace_back-Follows :
      (dp : Table F) (p : ℕ) (r : List ℕ) (mask e : ℕ) (order : List ℕ)
      → IsWalk m start (p ∷ r)
      → Follows dp mask e (p ∷ r)
      → (l : List ℕ) × (trace_back dp (length r) mask e order ≡ some l)
        × (start ∷ l ≡ rev_onto (p ∷ r) order)
  unfolding trace_back
  trace_back-Follows dp p [] mask e order w f = (order, refl, ap (λ k. k ∷ order) (sym w))
  trace_back-Follows dp p (x ∷ r) mask e order w f =
      let (l, runs, same) = trace_back-Follows dp x r (flip mask e) p (p ∷ order) w.3 f.1 in
      (l, rw f.0 runs, same)

  module _ (inside : start < m.size) (dp : Table F) where
    -- the walk that a finite cell stands for
    pub record IsTraced (mask e : ℕ) (r : List ℕ) : Type 0 where
      pub walk : IsWalk m start (e ∷ r)
      pub covers : mask_of (e ∷ r) ≡ mask
      pub cost : (dp mask e).dist ≡ walk_cost m start (e ∷ r)
      pub follows : Follows dp mask e r

    pub traced :
        (k mask e : ℕ)
        → mask < k
        → mask < one_shl m.size
        → e < m.size
        → ((mask' e' : ℕ)
            → mask' < one_shl m.size
            → e' < m.size
            → IsBest m start inside dp mask' e')
        → ((dp mask e).dist <f o.inf) ≡ true
        → (r : List ℕ) × IsTraced mask e r
    unfolding mask_of
    traced zero mask e lt small below best finite = absurd (omega arith)
    traced (suc k) mask e lt small below best finite =
        elim ((best mask e small below).origin finite) [
          | inl (p, q, z) ↦
              ([], record { walk = q; covers = rw (p, q) (omega arith); cost = z; follows = tt })
          | inr (set, ne, v) ↦
              let down = flip-lt mask e set in
              let (r, t) =
                traced k (flip mask e) v.prev (omega arith) (omega arith) v.below best v.reached in
              (
                v.prev ∷ r,
                record {
                  walk = (below, rw t.covers (bit-flip mask e set), v.road, t.walk);
                  covers = ap (λ k'. one_shl e + k') t.covers ∙ flip-sub mask e set;
                  cost = v.dist ∙ ap (λ d. d +f m.cell v.prev e) t.cost;
                  follows = (v.parent, t.follows);
                },
              )
        ]
