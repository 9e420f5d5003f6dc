-- ===== src/Tsp/HeldKarp/Fill.antt =====
-- The table of `heldKarp`, once filled: every cell has the cheapest walk to its stop.
use native.Mathlib.Decide.{ℕ_discrete}
use mop_backend_api.Base.{
  ℕ, ◌+◌, ◌<◌, ◌≡◌, ◌≢◌, sym, ◌∙◌, true, false, List, [], ◌∷◌, arith, ◌⊎◌, inl, inr, subst, ap,
}
use mathlib.Core.Logic.Dec
use mop_backend_api.Base.Bits.{one_shl, bit, flip, flip-lt, flip-add, bit-add_self, bit-zero}
use mop_backend_api.Tsp.Float.{Float, ◌<f◌, Le, Le_refl}
use mop_backend_api.Tsp.Cost.{Matrix}
use mop_backend_api.Tsp.HeldKarp.{Table, unreached, start_table, best_cell, fill_end}
use mop_backend_api.Tsp.HeldKarp.Walk.{
  mask_of, IsWalk, walk_cost, bit-walk_head, bit-walk_start, walk_to_start, Walk-Fresh,
}
use mop_backend_api.Tsp.HeldKarp.Relax.{IsVia, IsVia-agree, IsRelaxed, best_cell-IsRelaxed}

pub bit-one_shl : (i : ℕ) → bit (one_shl i) i ≡ true
bit-one_shl i = subst (λ k. bit k i ≡ true) (omega arith) (bit-add_self 0 i (bit-zero i))

module _ {F : Type 0} ⦃o : Float F⦄ (m : Matrix F) (start : ℕ) (inside : start < m.size) where
  -- no walk over the stops of `mask` that ends in `e` is cheaper than the cell, and a finite cell
  -- is the start or comes from another cell
  pub record IsBest (dp : Table F) (mask e : ℕ) : Type 0 where
    pub least :
        (r : List ℕ)
        → IsWalk m start (e ∷ r)
        → mask_of (e ∷ r) ≡ mask
        → Le (dp mask e).dist (walk_cost m start (e ∷ r))
    pub origin :
        ((dp mask e).dist <f o.inf) ≡ true
        → ((mask ≡ one_shl start) × (e ≡ start) × ((dp mask e).dist ≡ o.zero_f))
          ⊎ ((bit mask e ≡ true) × (e ≢ start) × IsVia m dp mask e (dp mask e))

  start_cell_other :
      (mask e : ℕ)
      → ¬ ((mask ≡ one_shl start) × (e ≡ start))
      → start_table {F = F} start mask e ≡ unreached
  unfolding start_table
  start_cell_other mask e h = ground (arith, h)

  start_cell_start :
      (mask e : ℕ)
      → mask ≡ one_shl start
      → e ≡ start
      → (start_table {F = F} start mask e).dist ≡ o.zero_f
  unfolding start_table
  start_cell_start mask e p q = ground arith

  walk_back : (e : ℕ) (r : List ℕ) → IsWalk m start (e ∷ r) → e ≡ start → r ≡ []
  walk_back e r w q = walk_to_start m start r (subst (λ k. IsWalk m start (k ∷ r)) q w)

  no_walk :
      (mask e : ℕ) (r : List ℕ)
      → IsWalk m start (e ∷ r)
      → mask_of (e ∷ r) ≡ mask
      → ¬ ((mask ≡ one_shl start) × (e ≡ start))
      → (e ≡ start) ⊎ ((bit mask e ≡ false) ⊎ (bit mask start ≡ false))
      → ⊥
  unfolding mask_of
  no_walk mask e r w covers other (inl q) = other (
    sym covers
        ∙ subst (λ l. mask_of (e ∷ l) ≡ one_shl start) (sym (walk_back e r w q))
            (subst (λ k. one_shl k + 0 ≡ one_shl start) (sym q) (omega arith)),
    q,
  )
  no_walk mask e r w covers other (inr (inl b)) =
      ground (arith, subst (λ k. bit k e ≡ true) covers (bit-walk_head m start e r w))
  no_walk mask e r w covers other (inr (inr b)) =
      ground (arith, subst (λ k. bit k start ≡ true) covers (bit-walk_start m start e r w))

  pub start-IsBest :
      (dp : Table F) (mask e : ℕ)
      → dp mask e ≡ start_table start mask e
      → (e ≡ start) ⊎ ((bit mask e ≡ false) ⊎ (bit mask start ≡ false))
      → IsBest dp mask e
  start-IsBest dp mask e same why =
      elim (Dec.and (ℕ_discrete mask (one_shl start)) (ℕ_discrete e start)) [
        | yes (p, q) ↦
            let zero_dist = ap (λ c. c.dist) same ∙ start_cell_start mask e p q in
            record {
              least = λ r w covers. rw (zero_dist, walk_back e r w q) (Le_refl o.zero_f);
              origin = λ finite. inl (p, q, zero_dist);
            }
        | no other ↦ record {
          least = λ r w covers. absurd (no_walk mask e r w covers other why);
          origin = λ finite. absurd (ground (arith, start_cell_other mask e other, Le_refl o.inf));
        }
      ]

  pub IsBest-agree :
      (dp dp' : Table F) (mask e : ℕ)
      → dp' mask e ≡ dp mask e
      → ((k f : ℕ) → k < mask → dp' k f ≡ dp k f)
      → IsBest dp mask e
      → IsBest dp' mask e
  IsBest-agree dp dp' mask e same agree b = record {
    least = λ r w covers. rw same (b.least r w covers);
    origin = λ finite. elim (b.origin (rw same at finite)) [
      | inl (p, q, z) ↦ inl (p, q, rw same z)
      | inr (set, ne, v) ↦ inr (
        set,
        ne,
        rw same (
            IsVia-agree m dp dp' mask e (dp mask e)
              (λ p. agree (flip mask e) p (flip-lt mask e set)) v),
      )
    ];
  }

  pub fill_end_frame :
      (mask j : ℕ) (dp : Table F) (k f : ℕ)
      → ¬ ((k ≡ mask) × (f ≡ j))
      → fill_end m start mask j dp k f ≡ dp k f
  unfolding fill_end
  fill_end_frame mask j dp k f other = ground (arith, other)

  pub fill_end_skip :
      (mask j : ℕ) (dp : Table F)
      → (j ≡ start) ⊎ (bit mask j ≡ false)
      → fill_end m start mask j dp ≡ dp
  unfolding fill_end
  fill_end_skip mask j dp why = ground arith

  pub fill_end_cell :
      (mask j : ℕ) (dp : Table F)
      → j ≢ start
      → bit mask j ≡ true
      → fill_end m start mask j dp mask j ≡ best_cell m dp mask j
  unfolding fill_end
  fill_end_cell mask j dp ne set = ground arith

  -- the cell that the inner loop has relaxed, over rows that are done
  pub relaxed-IsBest :
      (dp dp' : Table F) (mask e : ℕ)
      → e ≢ start
      → bit mask e ≡ true
      → dp mask e ≡ start_table start mask e
      → dp' mask e ≡ best_cell m dp mask e
      → ((k f : ℕ) → k < mask → dp' k f ≡ dp k f)
      → ((f : ℕ) → f < m.size → IsBest dp (flip mask e) f)
      → IsBest dp' mask e
  unfolding mask_of
  relaxed-IsBest dp dp' mask e ne set fresh cell agree lower = record {
    least = λ r w covers. rw cell (least r w covers);
    origin = λ finite. inr (set, ne, rw cell (origin (rw cell at finite)));
  }
    where
      relaxed : IsRelaxed m dp mask e (dp mask e) m.size (best_cell m dp mask e)
      relaxed = best_cell-IsRelaxed m dp mask e

      least :
          (r : List ℕ)
          → IsWalk m start (e ∷ r)
          → mask_of (e ∷ r) ≡ mask
          → Le (best_cell m dp mask e).dist (walk_cost m start (e ∷ r))
      least [] w covers = absurd (ne w)
      least (x ∷ r) w covers =
          let rest : flip mask e ≡ mask_of (x ∷ r) =
            subst (λ k. flip k e ≡ mask_of (x ∷ r)) covers (flip-add (mask_of (x ∷ r)) e w.1) in
          let inside_x = (Walk-Fresh m start inside x r w.3).0 in
          let visited : bit (flip mask e) x ≡ true = rw rest (bit-walk_head m start x r w.3) in
          let shorter = (lower x inside_x).least r w.3 (sym rest) in
          o.le_trans_f _ _ _ (relaxed.least x inside_x visited w.2) (o.add_mono _ _ _ shorter)

      origin :
          ((best_cell m dp mask e).dist <f o.inf) ≡ true
          → IsVia m dp' mask e (best_cell m dp mask e)
      origin finite = elim relaxed.origin [
        | inl same ↦
            absurd
              (ground (arith, same, fresh, start_cell_other mask e (λ (p, q). ne q), Le_refl o.inf))
        | inr v ↦
            IsVia-agree m dp dp' mask e (best_cell m dp mask e)
              (λ p. agree (flip mask e) p (flip-lt mask e set)) v
      ]
