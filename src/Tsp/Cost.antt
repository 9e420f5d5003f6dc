-- ===== src/Tsp/Cost.antt =====
-- The cost matrix of internal/tsp/tsp_solver.go, the length of a tour, and what a route is.
use mop_backend_api.Base.{ℕ, ◌<◌, ◌≡◌, false, List, [], ◌∷◌, length, All, Distinct}
use mop_backend_api.Tsp.Float.{Float, ◌<f◌, ◌+f◌}

-- A square `[][]float64`: every matrix of the program is made with `size` rows of `size` cells. An
-- index from `size` on panics in the source; the theorems are about indices below it.
pub record Matrix (F : Type 0) : Type 0 where
  pub size : ℕ
  pub cell : ℕ → ℕ → F

module _ {F : Type 0} ⦃o : Float F⦄ where
  -- the loop of `calculateTourDistance`: `dist` so far, and the stops from `order[i]` on
  unfoldable pub tour_from : Matrix F → F → List ℕ → F
  tour_from m dist [] = dist
  tour_from m dist (x ∷ []) = dist
  tour_from m dist (x ∷ y ∷ rest) = tour_from m (dist +f m.cell x y) (y ∷ rest)

  unfoldable pub calculate_tour_distance : List ℕ → Matrix F → F
  unfolding tour_from
  calculate_tour_distance order m = tour_from m o.zero_f order

  -- the road between each pair of neighbours exists: its cell is not negative
  abbrev pub Drivable : Matrix F → List ℕ → Type 0
  Drivable m [] = Unit
  Drivable m (x ∷ []) = Unit
  Drivable m (x ∷ y ∷ rest) = ((m.cell x y <f o.zero_f) ≡ false) × Drivable m (y ∷ rest)

-- Every number below `n` exactly once.
pub record IsRoute (n : ℕ) (order : List ℕ) : Type 0 where
  pub size : length order ≡ n
  pub below : All (λ x. x < n) order
  pub distinct : Distinct order
