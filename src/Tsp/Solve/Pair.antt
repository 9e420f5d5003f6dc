-- ===== src/Tsp/Solve/Pair.antt =====
-- Two stops: `heldKarp` answers before it looks at the ends that are asked for.
use mop_backend_api.Base.{ℕ, ◌≡◌, true, false, [], ◌∷◌, Option, some, none, arith, leb, ◌-◌}
use mop_backend_api.Tsp.Float.{Float}
use mop_backend_api.Tsp.Cost.{Matrix}
use mop_backend_api.Tsp.HeldKarp.{held_karp}
use mop_backend_api.Tsp.Solve.{reverse_matrix, reverse_order, solve_order}

module _ {F : Type 0} ⦃o : Float F⦄ where
  pub held_karp_pair :
      (m : Matrix F) (start : ℕ) (fixed_end : Option ℕ)
      → m.size ≡ 2
      → held_karp m start fixed_end
        ≡ some (record { order = 0 ∷ 1 ∷ []; cost = m.cell 0 1; stop = 1 })
  unfolding held_karp
  held_karp_pair m start fixed_end two = ground arith

  -- On two stops, `solveOrder` with a fixed end and a free start puts the stop that was to be last
  -- first. With a fixed start the order stays.
  pub solve_order_pair :
      (m : Matrix F) (fuel : ℕ)
      → m.size ≡ 2
      → (solve_order m fuel false true ≡ some (1 ∷ 0 ∷ []))
        × (solve_order m fuel true true ≡ some (0 ∷ 1 ∷ []))
        × (solve_order m fuel true false ≡ some (0 ∷ 1 ∷ []))
  unfolding solve_order reverse_matrix reverse_order
  solve_order_pair m fuel two =
      let small : leb m.size 25 ≡ true = ground arith in
      (
        simp (small, held_karp_pair (reverse_matrix m) (m.size - 1) none two),
        simp (small, held_karp_pair m 0 (some (m.size - 1)) two),
        simp (small, held_karp_pair m 0 none two),
      )
