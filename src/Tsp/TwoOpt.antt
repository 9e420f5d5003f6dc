-- ===== src/Tsp/TwoOpt.antt =====
-- `twoOpt` of internal/tsp/tsp_solver.go.
pub mod Laws
pub mod Ending
pub mod Local
use mop_backend_api.Base.{
  ℕ, zero, suc, ◌+◌, ◌-◌, Bool, true, false, List, ◌++◌, Option, none, some, if◌then◌else◌,
  for_range, length, take, drop, rev_onto,
}
use mop_backend_api.Tsp.Float.{Float, ◌<f◌}
use mop_backend_api.Tsp.Cost.{Matrix, calculate_tour_distance}

-- `order`, `currentDist` and `improved`
pub record Tour (F : Type 0) : Type 0 where
  pub order : List ℕ
  pub dist : F
  pub improved : Bool

-- `newOrder`: a copy of `order` with the stops from `i` to `j` back to front
unfoldable pub reverse_segment : (i j : ℕ) → List ℕ → List ℕ
reverse_segment i j order =
    take i order ++ rev_onto (take (suc j - i) (drop i order)) (drop (suc j) order)

-- `lastModifiableIdx`; where it is negative in the source there is no round either
unfoldable pub last_modifiable : ℕ → Bool → ℕ
last_modifiable n has_fixed_end = if has_fixed_end then n - 2 else n - 1

module _ {F : Type 0} ⦃o : Float F⦄ (m : Matrix F) where
  unfoldable pub try_reverse : (i j : ℕ) → Tour F → Tour F
  try_reverse i j t =
      let new_order = reverse_segment i j t.order in
      let new_dist = calculate_tour_distance new_order m in
      if new_dist <f t.dist
      then record { order = new_order; dist = new_dist; improved = true }
      else t

  -- one pass of the `for improved` loop
  unfoldable pub sweep : (last : ℕ) → Tour F → Tour F
  sweep last t =
      for_range last 1 (λ i. for_range (last - i) (suc i) (try_reverse i))
        (record t { improved = false })

  -- `none`: the fuel has run out
  unfoldable pub two_opt_loop : (fuel last : ℕ) → Tour F → Option (Tour F)
  two_opt_loop zero last t = none
  two_opt_loop (suc fuel) last t =
      let t' = sweep last t in
      let rest = two_opt_loop fuel last t' in if t'.improved then rest else some t'

  unfoldable pub two_opt : (fuel : ℕ) → List ℕ → (has_fixed_end : Bool) → Option (Tour F)
  two_opt fuel order has_fixed_end =
      two_opt_loop fuel (last_modifiable (length order) has_fixed_end)
        (record { order = order; dist = calculate_tour_distance order m; improved = true })
