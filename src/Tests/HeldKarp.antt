-- ===== src/Tests/HeldKarp.antt =====
-- `heldKarp` on three stops.
use mop_backend_api.Base.{ℕ, ◌≡◌, refl, List, [], ◌∷◌, none, some, true, arith, length}
use mop_backend_api.Base.Bits.{one_shl, bit, flip}
use mop_backend_api.Tsp.Float.{◌<f◌}
use mop_backend_api.Tsp.Exact.{Exact, fin, infinite, num, sum, exact_float}
use mop_backend_api.Tsp.Cost.{Matrix, Drivable, calculate_tour_distance}
use mop_backend_api.Base.Int.{negsuc}
use mop_backend_api.Tsp.HeldKarp.{
  Solution, held_karp, rebuild, choose_end, fill_table, trace_back, fallback,
}
use mop_backend_api.Tsp.HeldKarp.Tour.{IsTour}
use mop_backend_api.Tsp.HeldKarp.Optimal.{IsOptimal, held_karp-IsOptimal, held_karp_no_tour}
use mop_backend_api.Tests.Matrices.{triangle}

held_karp-triangle :
    held_karp triangle 0 none ≡ some (record { order = 0 ∷ 2 ∷ 1 ∷ []; cost = num 3; stop = 1 })
unfolding held_karp rebuild choose_end fill_table trace_back fallback one_shl bit flip sum
held_karp-triangle = refl

held_karp-triangle_fixed :
    held_karp triangle 0 (some 2)
    ≡ some (record { order = 0 ∷ 1 ∷ 2 ∷ []; cost = num 10; stop = 2 })
unfolding held_karp rebuild choose_end fill_table trace_back fallback one_shl bit flip sum
held_karp-triangle_fixed = refl

-- the order of the input, as a tour that ends at 2
triangle-IsTour : IsTour triangle 0 2 (0 ∷ 1 ∷ 2 ∷ [])
triangle-IsTour = record {
  route = record {
    size = refl;
    below = (omega arith, (omega arith, (omega arith, tt)));
    distinct = (
      ((λ e. absurd (omega arith)), ((λ e. absurd (omega arith)), tt)),
      (((λ e. absurd (omega arith)), tt), (tt, tt)),
    );
  };
  drivable = (refl, (refl, tt));
  first = refl;
  last = refl;
}

triangle_finite : (calculate_tour_distance (0 ∷ 1 ∷ 2 ∷ []) triangle <f infinite) ≡ true
unfolding calculate_tour_distance sum
triangle_finite = refl

held_karp-IsOptimal_example :
    (s : Solution Exact) × (held_karp triangle 0 (some 2) ≡ some s)
    × IsOptimal triangle 0 (some 2) s
held_karp-IsOptimal_example =
    held_karp-IsOptimal triangle 0 (omega arith) (omega arith) (some 2) 2 (0 ∷ 1 ∷ 2 ∷ [])
      triangle-IsTour refl triangle_finite

-- no road leads anywhere
abbrev desert : Matrix Exact
desert = record { size = 3; cell = λ i j. fin (negsuc 0) }

desert_undrivable : (order : List ℕ) → length order ≡ 3 → Drivable desert order → ⊥
desert_undrivable [] e h = absurd (omega arith)
desert_undrivable (x ∷ []) e h = absurd (omega arith)
desert_undrivable (x ∷ y ∷ l) e h = absurd (ground (arith, h.0))

held_karp_no_tour_example : held_karp desert 0 none ≡ some (fallback desert)
held_karp_no_tour_example =
    held_karp_no_tour desert 0 (omega arith) (omega arith) none refl
      λ stop order t ends. absurd (desert_undrivable order t.route.size t.drivable)
