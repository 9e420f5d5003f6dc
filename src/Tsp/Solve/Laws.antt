-- ===== src/Tsp/Solve/Laws.antt =====
-- `solveOrder` on three stops or more: it returns a route with the ends that were asked for.
use mop_backend_api.Base.{
  ℕ, ◌-◌, ◌^◌, ◌≤◌, ◌<◌, ◌≡◌, refl, sym, ◌∙◌, ap, Bool, true, false, List, [], Option, some, none,
  leb, Bool-cases, inl, inr, get_elem?, last?, rev_onto, arith, subst,
}
use mop_backend_api.Tsp.Float.{Float, ◌<f◌}
use mop_backend_api.Tsp.Cost.{Matrix, calculate_tour_distance, IsRoute}
use mop_backend_api.Tsp.Items.{IsRoute-SameItems}
use mop_backend_api.Tsp.HeldKarp.{Solution, held_karp, count_up}
use mop_backend_api.Tsp.HeldKarp.Tour.{IsTour}
use mop_backend_api.Tsp.HeldKarp.Optimal.{EndsAt, IsOptimal, held_karp-IsOptimal}
use mop_backend_api.Tsp.TwoOpt.Laws.{two_opt-Keeps}
use mop_backend_api.Tsp.TwoOpt.Ending.{two_opt_total}
use mop_backend_api.Tsp.Nearest.{nearest_neighbor}
use mop_backend_api.Tsp.Nearest.Laws.{Reachable, nearest_neighbor_free, nearest_neighbor_fixed}
use mop_backend_api.Tsp.Solve.{
  reverse_matrix, reverse_order, solve_order, exact_order, greedy_order, is_fixed, effective_start,
  ends_of,
}
use mop_backend_api.Tsp.Solve.Orders.{
  Connected, Drivable-of_connected, count_up-IsRoute, first-count_up, last-count_up_pred,
  last-reverse, first-reverse, reverse-IsRoute,
}

module _ {F : Type 0} ⦃o : Float F⦄ where
  -- no route's length overflows to +Inf
  abbrev pub Bounded : Matrix F → Type 0
  Bounded m = (l : List ℕ) → IsRoute m.size l → (calculate_tour_distance l m <f o.inf) ≡ true

  -- a route, with the first and the last stop in place where they are fixed
  pub record IsAnswer (m : Matrix F) (fixed_start fixed_end : Bool) (l : List ℕ) : Type 0 where
    pub route : IsRoute m.size l
    pub first : fixed_start ≡ true → get_elem? l 0 ≡ some 0
    pub last : fixed_end ≡ true → last? l ≡ some (m.size - 1)

  -- What a matrix has when every road exists and no sum overflows.
  pub record IsUsable (m : Matrix F) : Type 0 where
    pub big : 3 ≤ m.size
    pub connected : Connected m
    pub reachable : Reachable m
    pub bounded : Bounded m
    pub bounded_back : Bounded (reverse_matrix m)

  module _ (m : Matrix F) (u : IsUsable m) where
    route-IsTour :
        (start stop : ℕ) (l : List ℕ)
        → IsRoute m.size l
        → get_elem? l 0 ≡ some start
        → last? l ≡ some stop
        → IsTour m start stop l
    route-IsTour start stop l r first last = record {
      route = r;
      drivable = Drivable-of_connected m l u.connected r.below r.distinct;
      first = first;
      last = last;
    }

    input-IsTour : IsTour m 0 (m.size - 1) (count_up 0 m.size)
    input-IsTour =
        route-IsTour 0 (m.size - 1) (count_up 0 m.size) (count_up-IsRoute m.size)
          (first-count_up m.size (omega (arith, u.big)))
          (last-count_up_pred m.size (omega (arith, u.big)))

    from_first :
        (fixed_end : Option ℕ)
        → EndsAt fixed_end (m.size - 1)
        → (s : Solution F) × (held_karp m 0 fixed_end ≡ some s) × IsOptimal m 0 fixed_end s
    from_first fixed_end ends =
        held_karp-IsOptimal m 0 u.big (omega (arith, u.big)) fixed_end (m.size - 1)
          (count_up 0 m.size) input-IsTour ends
          (u.bounded (count_up 0 m.size) (count_up-IsRoute m.size))

    reversed-IsRoute : IsRoute m.size (rev_onto (count_up 0 m.size) [])
    reversed-IsRoute = reverse-IsRoute m.size (count_up 0 m.size) (count_up-IsRoute m.size)

    from_last :
        (s : Solution F) × (held_karp (reverse_matrix m) (m.size - 1) none ≡ some s)
        × IsOptimal (reverse_matrix m) (m.size - 1) none s
    unfolding reverse_matrix
    from_last =
        held_karp-IsOptimal (reverse_matrix m) (m.size - 1) u.big (omega (arith, u.big)) none 0
          (rev_onto (count_up 0 m.size) [])
          (record {
            route = reversed-IsRoute;
            drivable =
                Drivable-of_connected (reverse_matrix m) (rev_onto (count_up 0 m.size) [])
                  (λ i j h k ne. u.connected j i k h (λ e. ne (sym e))) reversed-IsRoute.below
                  reversed-IsRoute.distinct;
            first =
                first-reverse (count_up 0 m.size)
                ∙ last-count_up_pred m.size (omega (arith, u.big));
            last = last-reverse (count_up 0 m.size) ∙ first-count_up m.size (omega (arith, u.big));
          })
          tt (u.bounded_back (rev_onto (count_up 0 m.size) []) reversed-IsRoute)

    reversed-IsAnswer :
        (s : Solution F)
        → IsOptimal (reverse_matrix m) (m.size - 1) none s
        → IsAnswer m false true (reverse_order s.order)
    unfolding reverse_matrix reverse_order
    reversed-IsAnswer s opt = record {
      route = reverse-IsRoute m.size s.order opt.tour.route;
      first = λ e. absurd (ground (arith, e));
      last = λ e. last-reverse s.order ∙ opt.tour.first;
    }

    exact-IsAnswer :
        (fs fe : Bool)
        → (l : List ℕ) × (exact_order m (ends_of m.size fs fe).0 (ends_of m.size fs fe).1 ≡ some l)
          × IsAnswer m fs fe l
    unfolding ends_of
    exact-IsAnswer true true =
        let (s, runs, opt) = from_first (some (m.size - 1)) refl in
        (
          s.order,
          rw runs,
          record {
            route = opt.tour.route;
            first = λ e. opt.tour.first;
            last = λ e. opt.tour.last ∙ ap some opt.ends;
          },
        )
    exact-IsAnswer true false =
        let (s, runs, opt) = from_first none tt in
        (
          s.order,
          rw runs,
          record {
            route = opt.tour.route;
            first = λ e. opt.tour.first;
            last = λ e. absurd (ground (arith, e));
          },
        )
    exact-IsAnswer false true =
        let (s, runs, opt) = from_last in (reverse_order s.order, rw runs, reversed-IsAnswer s opt)
    exact-IsAnswer false false =
        let (s, runs, opt) = from_first none tt in
        (
          s.order,
          rw runs,
          record {
            route = opt.tour.route;
            first = λ e. absurd (ground (arith, e));
            last = λ e. absurd (ground (arith, e));
          },
        )

    -- the order that `nearestNeighbor` hands to `twoOpt`
    greedy_start :
        (fs fe : Bool)
        → let (start, end) = ends_of m.size fs fe in
          let l = nearest_neighbor m (effective_start start) end in
          IsRoute m.size l
          × (get_elem? l 0 ≡ some 0)
          × (is_fixed end ≡ true → last? l ≡ some (m.size - 1))
          × (fe ≡ true → is_fixed end ≡ true)
    unfolding ends_of
    greedy_start true true =
        let (r, f, l) =
          nearest_neighbor_fixed m 0 u.reachable (omega (arith, u.big)) (m.size - 1)
            (omega (arith, u.big)) (λ e. omega (arith, u.big, e)) in
        (r, f, λ e. l, λ e. refl)
    greedy_start true false =
        let free = nearest_neighbor_free m 0 u.reachable (omega (arith, u.big)) in
        (free.0, free.1, λ e. absurd (ground (arith, e)), λ e. absurd (ground (arith, e)))
    greedy_start false true =
        let (r, f, l) =
          nearest_neighbor_fixed m 0 u.reachable (omega (arith, u.big)) (m.size - 1)
            (omega (arith, u.big)) (λ e. omega (arith, u.big, e)) in
        (r, f, λ e. l, λ e. refl)
    greedy_start false false =
        let free = nearest_neighbor_free m 0 u.reachable (omega (arith, u.big)) in
        (free.0, free.1, λ e. absurd (ground (arith, e)), λ e. absurd (ground (arith, e)))

    greedy-IsAnswer :
        (fuel : ℕ) (fs fe : Bool)
        → m.size ^ m.size < fuel
        → (l : List ℕ) × (greedy_order m fuel (ends_of m.size fs fe).0 (ends_of m.size fs fe).1
            ≡ some l)
          × IsAnswer m fs fe l
    greedy-IsAnswer fuel fs fe enough =
        let (start, end) = ends_of m.size fs fe in
        let l = nearest_neighbor m (effective_start start) end in
        let (route, first, last, fixed) = greedy_start fs fe in
        let (t, runs) =
          two_opt_total m l (is_fixed end) m.size fuel route.below
            (subst (λ k. m.size ^ k < fuel) (sym route.size) enough) in
        let kept = two_opt-Keeps m l (is_fixed end) fuel t runs in
        (
          t.order,
          rw runs,
          record {
            route = IsRoute-SameItems m.size l t.order kept.items kept.size route;
            first = λ e. kept.first ∙ first;
            last = λ e. kept.last (fixed e) ∙ last (fixed e);
          },
        )

    -- On a matrix of three stops or more, with finite costs that are not negative and no route that
    -- overflows, and with fuel for `twoOpt`, `solveOrder` returns a route of every stop, with the first
    -- stop first and the last one last where they are fixed.
    pub solve_order_total :
        (fuel : ℕ) (fixed_start fixed_end : Bool)
        → m.size ^ m.size < fuel
        → (l : List ℕ) × (solve_order m fuel fixed_start fixed_end ≡ some l)
          × IsAnswer m fixed_start fixed_end l
    unfolding solve_order
    solve_order_total fuel fs fe enough = elim (Bool-cases (leb m.size 25)) [
      | inl small ↦ let (l, runs, answer) = exact-IsAnswer fs fe in (l, simp (small, runs), answer)
      | inr large ↦
          let (l, runs, answer) = greedy-IsAnswer fuel fs fe enough in
          (l, simp (large, runs), answer)
    ]
