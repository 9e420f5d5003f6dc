-- ===== src/Tsp/HeldKarp/Table.antt =====
-- The two outer loops of `heldKarp`: when they end, every cell of the table is the best one.
use native.Mathlib.Decide.{ℕ_discrete}
use mop_backend_api.Base.{
  ℕ, suc, ◌<◌, ◌≤◌, ◌≡◌, ◌≢◌, refl, ◌∙◌, true, arith, inl, inr, Bool-cases, for_range_inv, subst,
}
use mop_backend_api.Base.Bits.{one_shl, bit, flip, flip-lt}
use mop_backend_api.Tsp.Float.{Float}
use mop_backend_api.Tsp.Cost.{Matrix}
use mop_backend_api.Tsp.HeldKarp.{Table, start_table, fill_end, fill_mask, fill_table}
use mop_backend_api.Tsp.HeldKarp.Fill.{
  IsBest, start-IsBest, IsBest-agree, fill_end_frame, fill_end_skip, fill_end_cell, relaxed-IsBest,
}

module _ {F : Type 0} ⦃o : Float F⦄ (m : Matrix F) (start : ℕ) (inside : start < m.size) where
  -- the rows below `k` are done and the others are as they were made
  record IsFilled (k : ℕ) (dp : Table F) : Type 0 where
    done : (mask e : ℕ) → mask < k → e < m.size → IsBest m start inside dp mask e
    todo : (mask e : ℕ) → k ≤ mask → dp mask e ≡ start_table start mask e

  module _ (mask : ℕ) (dp₀ : Table F) (before : IsFilled mask dp₀) where
    -- in the row `mask`, the cells below `j` are done and the others are as they were made
    record IsRow (j : ℕ) (dp : Table F) : Type 0 where
      others : (k f : ℕ) → k ≢ mask → dp k f ≡ dp₀ k f
      cells : (e : ℕ) → e < j → IsBest m start inside dp mask e
      rest : (e : ℕ) → j ≤ e → dp mask e ≡ start_table start mask e

    fill_end-IsRow :
        (j : ℕ) (dp : Table F)
        → j < m.size
        → IsRow j dp
        → IsRow (suc j) (fill_end m start mask j dp)
    fill_end-IsRow j dp lt r = record {
      others =
          λ k f ne. fill_end_frame m start inside mask j dp k f (λ (p, q). ne p) ∙ r.others k f ne;
      cells = cells;
      rest = λ e le.
          fill_end_frame m start inside mask j dp mask e (λ (p, q). omega arith)
          ∙ r.rest e (omega arith);
    }
      where
        agree : (k f : ℕ) → k < mask → fill_end m start mask j dp k f ≡ dp k f
        agree k f lt' = fill_end_frame m start inside mask j dp k f (λ (p, q). omega arith)

        lower : bit mask j ≡ true → (f : ℕ) → f < m.size → IsBest m start inside dp (flip mask j) f
        lower set f lt' =
            let down = flip-lt mask j set in
            IsBest-agree m start inside dp₀ dp (flip mask j) f
              (r.others (flip mask j) f (omega arith)) (λ k g lt''. r.others k g (omega arith))
              (before.done (flip mask j) f down lt')

        here : IsBest m start inside (fill_end m start mask j dp) mask j
        here = elim (ℕ_discrete j start) [
          | yes e ↦
              rw (fill_end_skip m start inside mask j dp (inl e))
                (start-IsBest m start inside dp mask j (r.rest j (omega arith)) (inl e))
          | no ne ↦ elim (Bool-cases (bit mask j)) [
            | inl set ↦
                relaxed-IsBest m start inside dp (fill_end m start mask j dp) mask j ne set
                  (r.rest j (omega arith)) (fill_end_cell m start inside mask j dp ne set) agree
                  (lower set)
            | inr unset ↦
                rw (fill_end_skip m start inside mask j dp (inr unset))
                  (start-IsBest m start inside dp mask j (r.rest j (omega arith)) (inr (inl unset)))
          ]
        ]

        cells : (e : ℕ) → e < suc j → IsBest m start inside (fill_end m start mask j dp) mask e
        cells e lt' = elim (ℕ_discrete e j) [
          | yes q ↦
              subst (λ k. IsBest m start inside (fill_end m start mask j dp) mask k) (omega arith)
                here
          | no ne ↦
              IsBest-agree m start inside dp (fill_end m start mask j dp) mask e
                (fill_end_frame m start inside mask j dp mask e (λ (p, q). ne q)) agree
                (r.cells e (omega arith))
        ]

    start-IsRow : IsRow 0 dp₀
    start-IsRow = record {
      others = λ k f ne. refl;
      cells = λ e lt. absurd (omega arith);
      rest = λ e le. before.todo mask e (omega arith);
    }

    row-IsFilled : (dp : Table F) → IsRow m.size dp → IsFilled (suc mask) dp
    row-IsFilled dp r = record {
      done = λ k e lt lt'. elim (ℕ_discrete k mask) [
        | yes q ↦ subst (λ i. IsBest m start inside dp i e) (omega arith) (r.cells e lt')
        | no ne ↦
            IsBest-agree m start inside dp₀ dp k e (r.others k e ne)
              (λ i f lt''. r.others i f (omega arith)) (before.done k e (omega arith) lt')
      ];
      todo = λ k e le. r.others k e (omega arith) ∙ before.todo k e (omega arith);
    }

  fill_mask-IsFilled :
      (mask : ℕ) (dp : Table F) → IsFilled mask dp → IsFilled (suc mask) (fill_mask m start mask dp)
  unfolding fill_mask
  fill_mask-IsFilled mask dp before = elim (Bool-cases (bit mask start)) [
    | inl set ↦ rw set (
        row-IsFilled mask dp before _ (
          for_range_inv (IsRow mask dp before) m.size (fill_end m start mask) m.size 0 dp
            (omega arith) (λ j t lt r. fill_end-IsRow mask dp before j t lt r)
            (start-IsRow mask dp before)))
    | inr unset ↦ rw unset (record {
      done = λ k e lt lt'. elim (ℕ_discrete k mask) [
        | yes q ↦
            subst (λ i. IsBest m start inside dp i e) (omega arith)
              (start-IsBest m start inside dp mask e (before.todo mask e (omega arith))
                (inr (inr unset)))
        | no ne ↦ before.done k e (omega arith) lt'
      ];
      todo = λ k e le. before.todo k e (omega arith);
    })
  ]

  -- Every cell of the filled table has the cheapest walk.
  pub fill_table-IsBest :
      (mask e : ℕ)
      → mask < one_shl m.size
      → e < m.size
      → IsBest m start inside (fill_table m start) mask e
  unfolding fill_table
  fill_table-IsBest mask e lt lt' =
      let filled : IsFilled (one_shl m.size) (fill_table m start) =
        for_range_inv IsFilled (one_shl m.size) (fill_mask m start) (one_shl m.size) 0
          (start_table start) (omega arith) (λ k t h. fill_mask-IsFilled k t)
          (record { done = λ k f h. absurd (omega arith); todo = λ k f h. refl }) in
      filled.done mask e lt lt'
