-- ===== src/Tests/Matrices.antt =====
-- The matrices that the tests run on.
use mop_backend_api.Base.{ℕ, ◌+◌, ◌*◌, ◌≡◌, refl, subst, sym, true, List, [], ◌∷◌, get_or, arith}
use mop_backend_api.Base.Int.{ℤ, pos}
use mop_backend_api.Tsp.Float.{◌<f◌}
use mop_backend_api.Tsp.Exact.{Exact, fin, infinite, num, sum, exact_float}
use mop_backend_api.Tsp.Cost.{Matrix, calculate_tour_distance, tour_from}
use mop_backend_api.Tsp.Nearest.Laws.{Reachable}
use mop_backend_api.Tsp.Solve.{reverse_matrix}
use mop_backend_api.Tsp.Solve.Orders.{Connected}
use mop_backend_api.Tsp.Solve.Laws.{Bounded}

-- 0 → 2 → 1 costs 3, and the other way round 10
abbrev pub triangle : Matrix Exact
triangle = record {
  size = 3;
  cell = λ i j.
      get_or
        (get_or
          ((num 0 ∷ num 9 ∷ num 2 ∷ [])
            ∷ (num 4 ∷ num 0 ∷ num 1 ∷ [])
            ∷ (num 3 ∷ num 1 ∷ num 0 ∷ [])
            ∷ [])
          i [])
        j (num 0);
}

-- a road from every place to every place, dearer the later the place
abbrev pub slope : (n : ℕ) → Matrix Exact
slope n = record { size = n; cell = λ i j. num (i + j * j) }

pub slope-Connected : (n : ℕ) → Connected (slope n)
slope-Connected n i j h k ne = ground arith

-- no cost is +Inf
abbrev pub IsFinite : Matrix Exact → Type 0
IsFinite m = (i j : ℕ) → (z : ℤ) × (m.cell i j ≡ fin z)

pub finite-Reachable : (m : Matrix Exact) → IsFinite m → Reachable m
finite-Reachable m f i j h k ne =
    let (z, e) = f i j in subst (λ c. (c <f infinite) ≡ true) (sym e) refl

pub slope-Reachable : (n : ℕ) → Reachable (slope n)
slope-Reachable n i j h k ne = refl

-- A sum of costs that are not +Inf is not +Inf.
tour_from-finite :
    (m : Matrix Exact)
    → IsFinite m
    → (l : List ℕ) (z : ℤ) → (tour_from m (fin z) l <f infinite) ≡ true
unfolding tour_from sum
tour_from-finite m f [] z = refl
tour_from-finite m f (x ∷ []) z = refl
tour_from-finite m f (x ∷ y ∷ l) z =
    let (c, e) = f x y in
    subst (λ k. (tour_from m (sum (fin z) k) (y ∷ l) <f infinite) ≡ true) (sym e)
      (tour_from-finite m f (y ∷ l) _)

pub finite-Bounded : (m : Matrix Exact) → IsFinite m → Bounded m
unfolding calculate_tour_distance
finite-Bounded m f l r = tour_from-finite m f l (pos 0)

pub finite-Bounded_back : (m : Matrix Exact) → IsFinite m → Bounded (reverse_matrix m)
unfolding calculate_tour_distance reverse_matrix
finite-Bounded_back m f l r = tour_from-finite (reverse_matrix m) (λ i j. f j i) l (pos 0)

pub slope-IsFinite : (n : ℕ) → IsFinite (slope n)
slope-IsFinite n i j = (pos (i + j * j), refl)
