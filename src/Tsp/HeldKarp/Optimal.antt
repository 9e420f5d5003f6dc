-- ===== src/Tsp/HeldKarp/Optimal.antt =====
-- What `heldKarp` returns.
use mop_backend_api.Base.{
  ℕ, suc, ◌-◌, ◌<◌, ◌≤◌, ◌≡◌, ◌≢◌, refl, sym, ◌∙◌, ap, true, false, List, [], ◌∷◌, Option, none,
  some, length, last?, arith, subst, inl, inr, Bool-cases,
}
use mop_backend_api.Base.Bits.{one_shl, one_shl_pos, count_bits, count_bits-full, bit-zero}
use mop_backend_api.Tsp.Float.{Float, ◌<f◌, Le, Le_refl, lt_of_le}
use mop_backend_api.Tsp.Cost.{Matrix, calculate_tour_distance}
use mop_backend_api.Tsp.HeldKarp.{
  Table, Best, Solution, fill_table, choose_end, trace_back, rebuild, fallback, held_karp,
  end_out_of_range,
}
use mop_backend_api.Tsp.HeldKarp.Walk.{
  mask_of, IsWalk, Walk-Fresh, mask_of-full, count_bits-mask_of, walk_to_start,
}
use mop_backend_api.Tsp.HeldKarp.Fill.{IsBest}
use mop_backend_api.Tsp.HeldKarp.Table.{fill_table-IsBest}
use mop_backend_api.Tsp.HeldKarp.Tour.{
  IsTour, walk-IsTour, IsWalkOf-tour, tour_distance-walk, length-rev_onto,
}
use mop_backend_api.Tsp.HeldKarp.Choose.{choose_end-IsChosen}
use mop_backend_api.Tsp.HeldKarp.Trace.{IsTraced, traced, trace_back-Follows}

-- the last stop is the fixed one, if there is one
abbrev pub EndsAt : Option ℕ → ℕ → Type 0
EndsAt none stop = Unit
EndsAt (some end) stop = stop ≡ end

module _ {F : Type 0} ⦃o : Float F⦄ (m : Matrix F) (start : ℕ) where
  -- The answer is a tour that ends as asked, costs what it says, and no other such tour is cheaper.
  pub record IsOptimal (fixed_end : Option ℕ) (s : Solution F) : Type 0 where
    pub tour : IsTour m start s.stop s.order
    pub ends : EndsAt fixed_end s.stop
    pub cost : s.cost ≡ calculate_tour_distance s.order m
    pub least :
        (stop : ℕ) (order : List ℕ)
        → IsTour m start stop order
        → EndsAt fixed_end stop
        → Le s.cost (calculate_tour_distance order m)

  module _ (big : 3 ≤ m.size) (inside : start < m.size) where
    rebuild_runs :
        (dp : Table F) (b : Best F) (e : ℕ) (l : List ℕ)
        → b.stop ≡ some e
        → (b.cost <f o.inf) ≡ true
        → trace_back dp (m.size - 2) (one_shl m.size - 1) e (e ∷ []) ≡ some l
        → rebuild m dp start b ≡ some (record { order = start ∷ l; cost = b.cost; stop = e })
    unfolding rebuild
    rebuild_runs dp b e l stops finite runs = ground arith

    abbrev filled : Table F
    filled = fill_table m start

    abbrev full : ℕ
    full = one_shl m.size - 1

    best : (mask e : ℕ) → mask < one_shl m.size → e < m.size → IsBest m start inside filled mask e
    best = fill_table-IsBest m start inside

    full-lt : full < one_shl m.size
    full-lt = omega (arith, one_shl_pos m.size)

    tour_bound :
        (stop : ℕ) (order : List ℕ)
        → IsTour m start stop order
        → (stop < m.size)
          × (stop ≢ start)
          × Le (filled full stop).dist (calculate_tour_distance order m)
    tour_bound stop order t =
        let (z, q, w) = IsWalkOf-tour m start stop order t in
        let fresh = Walk-Fresh m start inside z q w.walk in
        let long : length (z ∷ q) ≡ m.size =
          omega (arith, length-rev_onto (z ∷ q) [], ap (λ l. length l) w.same, t.route.size) in
        let covers = mask_of-full m.size (z ∷ q) fresh long in
        let back = walk-IsTour m start z q inside w.walk covers in
        let at_end : stop ≡ z = ground (arith, t.last, back.last, ap (λ l. last? l) w.same) in
        let not_start : z ≢ start = λ e.
          let alone = walk_to_start m start q (subst (λ k. IsWalk m start (k ∷ q)) e w.walk) in
          absurd (omega (arith, ap (λ l. length l) alone)) in
        let bound =
          subst (λ d. Le (filled full z).dist d) (sym (tour_distance-walk m start z q))
            ((best full z full-lt fresh.0).least q w.walk covers) in
        rw at_end (
          fresh.0,
          not_start,
          subst (λ l. Le (filled full z).dist (calculate_tour_distance l m)) w.same bound,
        )

    rebuild_finite :
        (b : Best F) (e : ℕ)
        → b.stop ≡ some e
        → b.cost ≡ (filled full e).dist
        → e < m.size
        → (b.cost <f o.inf) ≡ true
        → (s : Solution F) × (rebuild m filled start b ≡ some s)
          × (s.stop ≡ e)
          × (s.cost ≡ b.cost)
          × IsTour m start s.stop s.order
          × (s.cost ≡ calculate_tour_distance s.order m)
    unfolding mask_of
    rebuild_finite b e stops costs below finite =
        let (r, t) =
          traced m start inside filled (suc full) full e (omega arith) full-lt below best
            (rw costs at finite) in
        go r t
      where
        go :
            (r : List ℕ)
            → IsTraced m start inside filled full e r
            → (s : Solution F) × (rebuild m filled start b ≡ some s)
              × (s.stop ≡ e)
              × (s.cost ≡ b.cost)
              × IsTour m start s.stop s.order
              × (s.cost ≡ calculate_tour_distance s.order m)
        go [] t = absurd (
            omega (
              arith,
              count_bits-mask_of m.size (e ∷ []) (below, bit-zero e, tt),
              ap (λ k. count_bits m.size k) t.covers,
              count_bits-full m.size,
            ))
        go (p ∷ r) t =
            let (l, runs, same) =
              trace_back-Follows m start filled p r full e (e ∷ []) t.walk.3 t.follows in
            let tour = walk-IsTour m start e (p ∷ r) inside t.walk t.covers in
            let long : length r ≡ m.size - 2 =
              omega (arith, tour.route.size, length-rev_onto (e ∷ p ∷ r) []) in
            (
              record { order = start ∷ l; cost = b.cost; stop = e },
              rebuild_runs filled b e l stops finite
                  (subst (λ k. trace_back filled k full e (e ∷ []) ≡ some l) long runs),
              refl,
              refl,
              subst (λ k. IsTour m start e k) (sym same) tour,
              costs
                  ∙ t.cost
                  ∙ sym (tour_distance-walk m start e (p ∷ r))
                  ∙ ap (λ k. calculate_tour_distance k m) (sym same),
            )

    held_karp_step :
        (fixed_end : Option ℕ)
        → end_out_of_range m.size fixed_end ≡ false
        → held_karp m start fixed_end
          ≡ rebuild m filled start (choose_end m (filled full) start fixed_end)
    unfolding held_karp
    held_karp_step fixed_end h = ground arith

    chosen-IsOptimal :
        (fixed_end : Option ℕ) (b : Best F) (e : ℕ)
        → end_out_of_range m.size fixed_end ≡ false
        → choose_end m (filled full) start fixed_end ≡ b
        → b.stop ≡ some e
        → b.cost ≡ (filled full e).dist
        → e < m.size
        → EndsAt fixed_end e
        → (b.cost <f o.inf) ≡ true
        → ((stop : ℕ) (order : List ℕ)
            → IsTour m start stop order
            → EndsAt fixed_end stop
            → Le b.cost (calculate_tour_distance order m))
        → (s : Solution F) × (held_karp m start fixed_end ≡ some s) × IsOptimal fixed_end s
    chosen-IsOptimal fixed_end b e ranged chosen stops costs below ends finite least =
        let (s, runs, at_e, cost, tour, total) = rebuild_finite b e stops costs below finite in
        (
          s,
          held_karp_step fixed_end ranged ∙ rw chosen runs,
          record {
            tour = tour;
            ends = rw at_e ends;
            cost = total;
            least = λ stop order t q. rw cost (least stop order t q);
          },
        )

    -- On three stops or more, with a start in range, if there is a drivable tour of finite length that
    -- ends as asked, `heldKarp` returns a drivable tour of every stop from the start that ends as
    -- asked, its cost is the length of that tour, and no drivable tour that ends as asked is shorter.
    pub held_karp-IsOptimal :
        (fixed_end : Option ℕ) (stop : ℕ) (order : List ℕ)
        → IsTour m start stop order
        → EndsAt fixed_end stop
        → (calculate_tour_distance order m <f o.inf) ≡ true
        → (s : Solution F) × (held_karp m start fixed_end ≡ some s) × IsOptimal fixed_end s
    unfolding choose_end
    held_karp-IsOptimal none stop order t ends finite =
        let chosen = choose_end-IsChosen m start (filled full) in
        let b = choose_end m (filled full) start none in
        let (below, ne, bound) = tour_bound stop order t in
        let least : (z : ℕ) (l : List ℕ)
            → IsTour m start z l
            → Unit {0}
            → Le b.cost (calculate_tour_distance l m) =
          λ z l t' q.
            let (below', ne', bound') = tour_bound z l t' in
            o.le_trans_f _ _ _ (chosen.least z below' ne') bound' in
        let is_finite : (b.cost <f o.inf) ≡ true =
          lt_of_le b.cost (calculate_tour_distance order m) (least stop order t tt) finite in
        elim chosen.origin [
          | inl (nowhere, q) ↦ absurd (ground (arith, q, is_finite, Le_refl o.inf))
          | inr (e, below', ne', stops, costs) ↦
              chosen-IsOptimal none b e refl refl stops costs below' tt is_finite least
        ]
    held_karp-IsOptimal (some end) stop order t ends finite =
        let (below, ne, bound) = tour_bound stop order t in
        let bound' : Le (filled full end).dist (calculate_tour_distance order m) =
          subst (λ k. Le (filled full k).dist (calculate_tour_distance order m)) ends bound in
        chosen-IsOptimal (some end) (record { cost = (filled full end).dist; stop = some end }) end
          (ground arith) refl refl refl (omega arith) refl
          (lt_of_le (filled full end).dist (calculate_tour_distance order m) bound' finite)
          (λ z l t' q.
            subst (λ k. Le (filled full k).dist (calculate_tour_distance l m)) q
              (tour_bound z l t').2)

    rebuild_infinite :
        (dp : Table F) (b : Best F)
        → (b.cost <f o.inf) ≡ false
        → rebuild m dp start b ≡ some (fallback m)
    unfolding rebuild
    rebuild_infinite dp b far = ground (arith, o.le_inf b.cost)

    choose_end-below :
        (fixed_end : Option ℕ)
        → end_out_of_range m.size fixed_end ≡ false
        → (choose_end m (filled full) start fixed_end).cost <f o.inf ≡ true
        → (e : ℕ) × (e < m.size)
          × EndsAt fixed_end e
          × ((choose_end m (filled full) start fixed_end).stop ≡ some e)
          × ((choose_end m (filled full) start fixed_end).cost ≡ (filled full e).dist)
    unfolding choose_end
    choose_end-below none ranged finite = elim (choose_end-IsChosen m start (filled full)).origin [
      | inl (nowhere, q) ↦ absurd (ground (arith, q, Le_refl o.inf))
      | inr (e, below, ne, stops, costs) ↦ (e, below, tt, stops, costs)
    ]
    choose_end-below (some end) ranged finite = (end, ground arith, refl, refl, refl)

    -- On three stops or more, with the start and a fixed end in range, if no drivable tour of finite
    -- length ends as asked, `heldKarp` returns the order of the input, with the cost of the road from
    -- the first stop to the last.
    pub held_karp_no_tour :
        (fixed_end : Option ℕ)
        → end_out_of_range m.size fixed_end ≡ false
        → ((stop : ℕ) (order : List ℕ)
            → IsTour m start stop order
            → EndsAt fixed_end stop
            → (calculate_tour_distance order m <f o.inf) ≡ false)
        → held_karp m start fixed_end ≡ some (fallback m)
    held_karp_no_tour fixed_end ranged none_finite =
        let b = choose_end m (filled full) start fixed_end in
        elim (Bool-cases (b.cost <f o.inf)) [
          | inr far ↦ held_karp_step fixed_end ranged ∙ rebuild_infinite filled b far
          | inl near ↦
              let (e, below, ends, stops, costs) = choose_end-below fixed_end ranged near in
              let (s, runs, at_e, cost, tour, total) = rebuild_finite b e stops costs below near in
              let far = none_finite s.stop s.order tour (rw at_e ends) in
              absurd (ground (arith, far, total, cost, near))
        ]
