-- ===== src/Tsp/Solve.antt =====
-- `solveOrder` of internal/tsp/tsp_solver.go, which sends a matrix to the right solver.
pub mod Orders
pub mod Laws
pub mod Pair
use mop_backend_api.Base.{
  ℕ, ◌-◌, Bool, true, false, List, [], Option, none, some, leb, if◌then◌else◌, ◌>>=◌, rev_onto,
}
use mop_backend_api.Tsp.Float.{Float}
use mop_backend_api.Tsp.Cost.{Matrix}
use mop_backend_api.Tsp.HeldKarp.{held_karp}
use mop_backend_api.Tsp.TwoOpt.{two_opt}
use mop_backend_api.Tsp.Nearest.{nearest_neighbor}

unfoldable pub reverse_matrix : {F : Type 0} → Matrix F → Matrix F
reverse_matrix m = record { size = m.size; cell = λ i j. m.cell j i }

unfoldable pub reverse_order : List ℕ → List ℕ
reverse_order order = rev_onto order []

-- `startIdx` and `fixedEndIdx`, where -1 is `none`
unfoldable pub ends_of : (n : ℕ) (fixed_start fixed_end : Bool) → Option ℕ × Option ℕ
ends_of n true true = (some 0, some (n - 1))
ends_of n true false = (some 0, none)
ends_of n false true = (none, some (n - 1))
ends_of n false false = (none, none)

abbrev pub is_fixed : Option ℕ → Bool
is_fixed none = false
is_fixed (some end) = true

abbrev pub effective_start : Option ℕ → ℕ
effective_start none = 0
effective_start (some start) = start

module _ {F : Type 0} ⦃o : Float F⦄ (m : Matrix F) where
  abbrev pub exact_order : (start fixed_end : Option ℕ) → Option (List ℕ)
  exact_order none none = held_karp m 0 none >>= λ s. some s.order
  exact_order none (some end) =
      held_karp (reverse_matrix m) end none >>= λ s. some (reverse_order s.order)
  exact_order (some start) fixed_end = held_karp m start fixed_end >>= λ s. some s.order

  abbrev pub greedy_order : (fuel : ℕ) (start fixed_end : Option ℕ) → Option (List ℕ)
  greedy_order fuel start fixed_end =
      two_opt m fuel (nearest_neighbor m (effective_start start) fixed_end) (is_fixed fixed_end)
      >>= λ t. some t.order

  -- the fuel is for `twoOpt`
  unfoldable pub solve_order : (fuel : ℕ) (fixed_start fixed_end : Bool) → Option (List ℕ)
  unfolding ends_of
  solve_order fuel fixed_start fixed_end =
      let (start, end) = ends_of m.size fixed_start fixed_end in
      if leb m.size 25 then exact_order start end else greedy_order fuel start end
