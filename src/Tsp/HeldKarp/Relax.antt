-- ===== src/Tsp/HeldKarp/Relax.antt =====
-- The inner loop of `heldKarp`: one cell of the table, from the row without its stop.
use mop_backend_api.Base.{
  ℕ, suc, ◌<◌, ◌≡◌, refl, ◌∙◌, true, false, arith, some, ◌⊎◌, inl, inr, Bool-cases, for_range_inv,
  subst,
}
use native.Mathlib.Decide.{dec_lt}
use mop_backend_api.Base.Bits.{bit, flip}
use mop_backend_api.Tsp.Float.{Float, ◌<f◌, ◌+f◌, Le, Le_refl}
use mop_backend_api.Tsp.Cost.{Matrix}
use mop_backend_api.Tsp.HeldKarp.{Cell, Table, relax, best_cell}

module _ {F : Type 0} ⦃o : Float F⦄ (m : Matrix F) where
  -- the cell comes from a reached cell of the row without `end`, by a road that exists
  pub record IsVia (dp : Table F) (mask end : ℕ) (c : Cell F) : Type 0 where
    pub prev : ℕ
    pub below : prev < m.size
    pub visited : bit (flip mask end) prev ≡ true
    pub road : (m.cell prev end <f o.zero_f) ≡ false
    pub reached : ((dp (flip mask end) prev).dist <f o.inf) ≡ true
    pub parent : c.parent ≡ some prev
    pub dist : c.dist ≡ (dp (flip mask end) prev).dist +f m.cell prev end

  pub IsVia-agree :
      (dp dp' : Table F) (mask end : ℕ) (c : Cell F)
      → ((p : ℕ) → dp' (flip mask end) p ≡ dp (flip mask end) p)
      → IsVia dp mask end c
      → IsVia dp' mask end c
  IsVia-agree dp dp' mask end c agree v = record {
    prev = v.prev;
    below = v.below;
    visited = v.visited;
    road = v.road;
    reached = rw (agree v.prev) v.reached;
    parent = v.parent;
    dist = rw (agree v.prev) v.dist;
  }

  module _ (dp : Table F) (mask end : ℕ) where
    relax_le : (p : ℕ) (c : Cell F) → Le (relax m dp mask end p c).dist c.dist
    unfolding relax
    relax_le p c =
        ground
          (arith, Le_refl c.dist, o.lt_asymm ((dp (flip mask end) p).dist +f m.cell p end) c.dist)

    unreached_sum : (a c x : F) → (a <f o.inf) ≡ false → Le c (a +f x)
    unreached_sum a c x h =
        o.le_trans_f c o.inf (a +f x) (o.le_inf c)
          (o.le_trans_f o.inf (o.inf +f x) (a +f x) (o.inf_add x) (o.add_mono o.inf a x h))

    relax_new :
        (p : ℕ) (c : Cell F)
        → bit (flip mask end) p ≡ true
        → (m.cell p end <f o.zero_f) ≡ false
        → Le (relax m dp mask end p c).dist ((dp (flip mask end) p).dist +f m.cell p end)
    unfolding relax
    relax_new p c b road = ground (
      arith,
      unreached_sum (dp (flip mask end) p).dist c.dist (m.cell p end),
      o.le_inf (dp (flip mask end) p).dist,
      Le_refl ((dp (flip mask end) p).dist +f m.cell p end),
    )

    relax_origin :
        (p : ℕ) (c : Cell F)
        → p < m.size
        → (relax m dp mask end p c ≡ c) ⊎ IsVia dp mask end (relax m dp mask end p c)
    unfolding relax
    relax_origin p c h = elim (Bool-cases (bit (flip mask end) p)) [
      | inl b ↦ elim (Bool-cases ((dp (flip mask end) p).dist <f o.inf)) [
        | inl fin ↦ elim (Bool-cases (m.cell p end <f o.zero_f)) [
          | inl none_there ↦ inl (ground (arith, b))
          | inr road ↦ elim (Bool-cases (((dp (flip mask end) p).dist +f m.cell p end) <f c.dist)) [
            | inl shorter ↦ inr (record {
              prev = p;
              below = h;
              visited = b;
              road = road;
              reached = fin;
              parent = ground arith;
              dist = ground arith;
            })
            | inr longer ↦ inl (ground arith)
          ]
        ]
        | inr far ↦ inl (ground (arith, o.le_inf (dp (flip mask end) p).dist))
      ]
      | inr b ↦ inl (rw b)
    ]

    -- what the loop has done after the rounds below `k`
    pub record IsRelaxed (c₀ : Cell F) (k : ℕ) (c : Cell F) : Type 0 where
      pub least :
          (p : ℕ)
          → p < k
          → bit (flip mask end) p ≡ true
          → (m.cell p end <f o.zero_f) ≡ false
          → Le c.dist ((dp (flip mask end) p).dist +f m.cell p end)
      pub origin : (c ≡ c₀) ⊎ IsVia dp mask end c

    relax-IsRelaxed :
        (c₀ : Cell F) (k : ℕ) (c : Cell F)
        → k < m.size
        → IsRelaxed c₀ k c
        → IsRelaxed c₀ (suc k) (relax m dp mask end k c)
    relax-IsRelaxed c₀ k c h r = record {
      least = λ p lt b road. elim (dec_lt p k) [
        | yes below ↦
            o.le_trans_f (relax m dp mask end k c).dist c.dist _ (relax_le k c)
              (r.least p below b road)
        | no same ↦
            subst
              (λ q. Le (relax m dp mask end k c).dist ((dp (flip mask end) q).dist +f m.cell q end))
              (omega arith)
              (relax_new k c (subst (λ q. bit (flip mask end) q ≡ true) (omega arith) b)
                (subst (λ q. (m.cell q end <f o.zero_f) ≡ false) (omega arith) road))
      ];
      origin = elim (relax_origin k c h) [
        | inl same ↦ elim r.origin [ inl e ↦ inl (same ∙ e) | inr v ↦ inr (rw same v) ]
        | inr v ↦ inr v
      ];
    }

    pub best_cell-IsRelaxed : IsRelaxed (dp mask end) m.size (best_cell m dp mask end)
    unfolding best_cell
    best_cell-IsRelaxed =
        for_range_inv (IsRelaxed (dp mask end)) m.size (relax m dp mask end) m.size 0 (dp mask end)
          (omega arith) (relax-IsRelaxed (dp mask end))
          (record { least = λ p h. absurd (omega arith); origin = inl refl })
