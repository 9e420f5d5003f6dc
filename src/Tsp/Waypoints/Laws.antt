-- ===== src/Tsp/Waypoints/Laws.antt =====
-- `SolveWaypoints` returns the waypoints in an order of the solver.
use mop_backend_api.Base.{
  ℕ, zero, suc, ◌-◌, ◌^◌, ◌≤◌, ◌<◌, ◌≡◌, refl, sym, ◌∙◌, ap, subst, Bool, true, false, List, [],
  ◌∷◌, Option, some, length, get_elem?, last?, All, ltb, arith,
}
use mop_backend_api.Tsp.Float.{Float}
use mop_backend_api.Tsp.Cost.{Matrix}
use mop_backend_api.Tsp.Legs.{Waypoint, Distances}
use mop_backend_api.Tsp.Nearest.Laws.{Reachable}
use mop_backend_api.Tsp.Valhalla.{Reply, Mode, build_matrix, build_matrix-Connected}
use mop_backend_api.Tsp.Solve.{reverse_matrix}
use mop_backend_api.Tsp.Solve.Laws.{Bounded, IsAnswer, IsUsable, solve_order_total}
use mop_backend_api.Tsp.Waypoints.{reordered, place_all, co_located_at, solve_waypoints}

elem_below {ℓ} :
    {A : Type ℓ} (xs : List A) (i : ℕ) → i < length xs → (x : A) × (get_elem? xs i ≡ some x)
elem_below [] i h = absurd (omega arith)
elem_below (x ∷ xs) zero h = (x, refl)
elem_below (x ∷ xs) (suc i) h = elem_below xs i (omega arith)

-- a list of waypoints is the waypoints at the indices of an order
unfoldable pub IsPlaced : {A : Type 0} → (ws : List A) → List ℕ → List A → Type 0
IsPlaced ws [] [] = Unit
IsPlaced ws [] (x ∷ out) = ⊥
IsPlaced ws (i ∷ is) [] = ⊥
IsPlaced ws (i ∷ is) (x ∷ out) = (get_elem? ws i ≡ some x) × IsPlaced ws is out

place_all_total :
    {A : Type 0} (ws : List A) (l : List ℕ)
    → All (λ i. i < length ws) l
    → (out : List A) × (place_all ws l ≡ some out) × IsPlaced ws l out
unfolding place_all IsPlaced
place_all_total ws [] h = ([], refl, tt)
place_all_total ws (i ∷ is) h =
    let (x, here) = elem_below ws i h.0 in
    let (out, runs, placed) = place_all_total ws is h.1 in
    (x ∷ out, simp (here, runs), (here, placed))

first-IsPlaced :
    {A : Type 0} (ws out : List A) (l : List ℕ) {i : ℕ}
    → IsPlaced ws l out
    → get_elem? l 0 ≡ some i
    → get_elem? out 0 ≡ get_elem? ws i
unfolding IsPlaced
first-IsPlaced ws [] [] h e = absurd (ground arith)
first-IsPlaced ws (x ∷ out) [] h e = absurd (ground arith)
first-IsPlaced ws [] (j ∷ l) h e = absurd h
first-IsPlaced ws (x ∷ out) (j ∷ l) (here, h) e = sym here ∙ ap (get_elem? ws) (ground arith)

last-IsPlaced :
    {A : Type 0} (ws out : List A) (l : List ℕ) {i : ℕ}
    → IsPlaced ws l out
    → last? l ≡ some i
    → last? out ≡ get_elem? ws i
unfolding IsPlaced
last-IsPlaced ws [] [] h e = absurd (ground arith)
last-IsPlaced ws (x ∷ out) [] h e = absurd (ground arith)
last-IsPlaced ws [] (j ∷ l) h e = absurd h
last-IsPlaced ws (x ∷ []) (j ∷ []) (here, h) e = sym here ∙ ap (get_elem? ws) (ground arith)
last-IsPlaced ws (x ∷ y ∷ out) (j ∷ []) (here, h) e = absurd h
last-IsPlaced ws (x ∷ []) (j ∷ k ∷ l) (here, h) e = absurd h
last-IsPlaced ws (x ∷ y ∷ out) (j ∷ k ∷ l) (here, h) e = last-IsPlaced ws (y ∷ out) (k ∷ l) h e

last_at : {A : Type 0} (x : A) (xs : List A) → get_elem? (x ∷ xs) (length xs) ≡ last? (x ∷ xs)
last_at x [] = refl
last_at x (y ∷ xs) = last_at y xs

last_elem : {A : Type 0} (xs : List A) → get_elem? xs (length xs - 1) ≡ last? xs
last_elem [] = refl
last_elem (x ∷ xs) = ap (get_elem? (x ∷ xs)) (omega arith) ∙ last_at x xs

module _ {F : Type 0} ⦃o : Float F⦄ (d : Distances F) where
  -- the waypoints along a route, with the first and the last in place where they are fixed
  pub record IsSolved (m : Matrix F) (fixed_start fixed_end : Bool) (ws out : List (Waypoint F))
      : Type 0 where
    pub order : List ℕ
    pub answer : IsAnswer m fixed_start fixed_end order
    pub placed : IsPlaced ws order out
    pub first : fixed_start ≡ true → get_elem? out 0 ≡ get_elem? ws 0
    pub last : fixed_end ≡ true → last? out ≡ last? ws

  -- Given three waypoints or more, a matrix of finite costs in which no route overflows, and fuel,
  -- `SolveWaypoints` returns every waypoint once, in the order of a route, and keeps the first
  -- and the last waypoint in place where they are fixed.
  pub solve_waypoints_total :
      (service : ℕ → Option (List (Reply F))) (mode : Mode) (fuel : ℕ) (ws : List (Waypoint F))
      (fixed_start fixed_end : Bool) (m : Matrix F)
      → build_matrix service (length ws) (co_located_at d ws) mode ≡ some m
      → 3 ≤ length ws
      → Reachable m
      → Bounded m
      → Bounded (reverse_matrix m)
      → length ws ^ length ws < fuel
      → (out : List (Waypoint F)) × (solve_waypoints d service mode fuel ws fixed_start fixed_end
          ≡ reordered out)
        × IsSolved m fixed_start fixed_end ws out
  unfolding solve_waypoints
  solve_waypoints_total service mode fuel ws fs fe m built big reachable bounded back enough =
      let (size, connected) =
        build_matrix-Connected service (length ws) (co_located_at d ws) mode m built in
      let usable : IsUsable m = record {
        big = omega arith;
        connected = connected;
        reachable = reachable;
        bounded = bounded;
        bounded_back = back;
      } in
      let (l, runs, answer) =
        solve_order_total m usable fuel fs fe (subst (λ n. n ^ n < fuel) (sym size) enough) in
      let (out, places, placed) =
        place_all_total ws l (subst (λ n. All (λ i. i < n) l) size answer.route.below) in
      let several : ltb (length ws) 2 ≡ false = ground arith in
      (
        out,
        simp (several, built, runs, places),
        record {
          order = l;
          answer = answer;
          placed = placed;
          first = λ e. first-IsPlaced ws out l placed (answer.first e);
          last = λ e.
              last-IsPlaced ws out l placed (answer.last e)
              ∙ ap (λ n. get_elem? ws (n - 1)) size
              ∙ last_elem ws;
        },
      )
