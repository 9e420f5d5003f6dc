-- ===== src/Tsp/Nearest/Laws.antt =====
-- `nearestNeighbor` returns a route, from the start, with a fixed end to that end, and goes to the
-- nearest stop that is left each time.
use mop_backend_api.Base.{
  ℕ, zero, suc, ◌-◌, ◌<◌, ◌≤◌, ◌≡◌, ◌≢◌, refl, ap, Bool, true, false, List, [], ◌∷◌, ◌++◌, none,
  some, length, length-append, All, Distinct, get_elem?, last?, arith,
}
use mop_backend_api.Tsp.Float.{Float, ◌<f◌, Le}
use mop_backend_api.Tsp.Cost.{Matrix, IsRoute}
use mop_backend_api.Tsp.Nearest.{visit, go_on, nearest_neighbor}
use mop_backend_api.Tsp.Nearest.Pick.{unvisited, unvisited-visit, unvisited_none, pick_nearest}

abbrev pub Unseen : (ℕ → Bool) → List ℕ → Type 0
Unseen visited = All (λ j. visited j ≡ false)

Unseen-visit :
    (visited : ℕ → Bool) (i : ℕ) (l : List ℕ)
    → Unseen (visit visited i) l
    → Unseen visited l × All (λ j. j ≢ i) l
unfolding visit
Unseen-visit visited i [] u = (tt, tt)
Unseen-visit visited i (x ∷ l) u =
    let rest = Unseen-visit visited i l u.1 in
    ((ground (arith, u.0), rest.0), (λ e. ground (arith, u.0), rest.1))

visit_self : (visited : ℕ → Bool) (i : ℕ) → visit visited i i ≡ true
unfolding visit
visit_self visited i = ground arith

visit_other : (visited : ℕ → Bool) (i j : ℕ) → j ≢ i → visited j ≡ false → visit visited i j ≡ false
unfolding visit
visit_other visited i j ne f = ground (arith, f)

visit_kept : (visited : ℕ → Bool) (i j : ℕ) → visited j ≡ true → visit visited i j ≡ true
unfolding visit
visit_kept visited i j h = ground (arith, h)

Distinct-snoc : (l : List ℕ) (x : ℕ) → Distinct l → All (λ j. j ≢ x) l → Distinct (l ++ (x ∷ []))
Distinct-snoc [] x d h = (tt, tt)
Distinct-snoc (y ∷ l) x d h =
    (All-snoc l x y d.0 (λ e. h.0 (ground arith)), Distinct-snoc l x d.1 h.1)
  where
    All-snoc :
        (l : List ℕ) (x y : ℕ) → All (λ j. j ≢ y) l → x ≢ y → All (λ j. j ≢ y) (l ++ (x ∷ []))
    All-snoc [] x y a ne = (ne, tt)
    All-snoc (z ∷ l) x y a ne = (a.0, All-snoc l x y a.1 ne)

All-below_snoc :
    (n : ℕ) (l : List ℕ) (x : ℕ) → All (λ j. j < n) l → x < n → All (λ j. j < n) (l ++ (x ∷ []))
All-below_snoc n [] x a h = (h, tt)
All-below_snoc n (z ∷ l) x a h = (a.0, All-below_snoc n l x a.1 h)

last-snoc : (l : List ℕ) (x : ℕ) → last? (l ++ (x ∷ [])) ≡ some x
last-snoc [] x = refl
last-snoc (y ∷ []) x = refl
last-snoc (y ∷ z ∷ l) x = last-snoc (z ∷ l) x

module _ {F : Type 0} ⦃o : Float F⦄ (m : Matrix F) where
  -- each stop of the list is the nearest one, from the stop before, of those not visited by then
  abbrev pub IsGreedy : (ℕ → Bool) → ℕ → List ℕ → Type 0
  IsGreedy visited current [] = Unit
  IsGreedy visited current (x ∷ l) =
      ((i : ℕ) → i < m.size → visited i ≡ false → Le (m.cell current x) (m.cell current i))
      × IsGreedy (visit visited x) x l

  -- every stop can be reached from every other at a finite cost
  abbrev pub Reachable : Type 0
  Reachable = (i j : ℕ) → i < m.size → j < m.size → i ≢ j → (m.cell i j <f o.inf) ≡ true

  record IsContinued (rounds : ℕ) (visited : ℕ → Bool) (current : ℕ) (l : List ℕ) : Type 0 where
    size : length l ≡ rounds
    below : All (λ j. j < m.size) l
    unseen : Unseen visited l
    distinct : Distinct l
    greedy : IsGreedy visited current l

  go_on-IsContinued :
      (rounds : ℕ) (visited : ℕ → Bool) (current : ℕ)
      → Reachable
      → current < m.size
      → visited current ≡ true
      → rounds ≤ unvisited m.size visited
      → IsContinued rounds visited current (go_on m rounds visited current)
  unfolding go_on
  go_on-IsContinued zero visited current reach here seen h = record {
    size = refl;
    below = tt;
    unseen = tt;
    distinct = tt;
    greedy = tt;
  }
  go_on-IsContinued (suc rounds) visited current reach here seen h =
      let (j, lt, f, next, near) =
        pick_nearest m visited current (omega arith)
          (λ i lt free. reach current i here lt (λ e. ground (arith, seen, free, ap visited e))) in
      let r =
        go_on-IsContinued rounds (visit visited j) j reach lt (visit_self visited j)
          (omega (arith, unvisited-visit m.size j visited lt f)) in
      let parts = Unseen-visit visited j (go_on m rounds (visit visited j) j) r.unseen in
      rw (next, go_on)
        (record {
          size = ap suc r.size;
          below = (lt, r.below);
          unseen = (f, parts.0);
          distinct = (parts.1, r.distinct);
          greedy = (near, r.greedy);
        })

  abbrev pub start_visited : ℕ → ℕ → Bool
  start_visited start = visit (λ _. false) start

  module _ (start : ℕ) (reach : Reachable) (inside : start < m.size) where
    -- With a start in range, a finite cost between any two stops and a free end, `nearestNeighbor`
    -- returns a route of every stop from the start, in which each next stop is a nearest one of those
    -- not yet visited.
    pub nearest_neighbor_free :
        IsRoute m.size (nearest_neighbor m start none)
        × (get_elem? (nearest_neighbor m start none) 0 ≡ some start)
        × ((l : List ℕ) × (nearest_neighbor m start none ≡ start ∷ l)
            × IsGreedy (start_visited start) start l)
    unfolding nearest_neighbor
    nearest_neighbor_free =
        let c =
          go_on-IsContinued (m.size - 1) (start_visited start) start reach inside
            (visit_self (λ _. false) start)
            (omega (
              arith,
              unvisited-visit m.size start (λ _. false) inside refl,
              unvisited_none m.size,
            )) in
        let parts = Unseen-visit (λ _. false) start _ c.unseen in
        (
          record {
            size = omega (arith, c.size);
            below = (inside, c.below);
            distinct = (parts.1, c.distinct);
          },
          refl,
          (_, refl, c.greedy),
        )

    -- With a start in range, a finite cost between any two stops and a fixed end in range other than the
    -- start, `nearestNeighbor` returns a route of every stop from the start to that end.
    pub nearest_neighbor_fixed :
        (end : ℕ)
        → end < m.size
        → end ≢ start
        → IsRoute m.size (nearest_neighbor m start (some end))
          × (get_elem? (nearest_neighbor m start (some end)) 0 ≡ some start)
          × (last? (nearest_neighbor m start (some end)) ≡ some end)
    unfolding nearest_neighbor
    nearest_neighbor_fixed end lt ne =
        let free : start_visited start end ≡ false = unseen_end in
        let c =
          go_on-IsContinued (m.size - 2) (visit (start_visited start) end) start reach inside
            seen_start
            (omega (
              arith,
              unvisited-visit m.size start (λ _. false) inside refl,
              unvisited-visit m.size end (start_visited start) lt free,
              unvisited_none m.size,
            )) in
        let l = go_on m (m.size - 2) (visit (start_visited start) end) start in
        let ends = Unseen-visit (start_visited start) end l c.unseen in
        let starts = Unseen-visit (λ _. false) start l ends.0 in
        let distinct : Distinct (start ∷ l) = (starts.1, c.distinct) in
        let apart : All (λ j. j ≢ end) (start ∷ l) = ((λ e. ne (ground arith)), ends.1) in
        (
          record {
            size = omega (arith, c.size, length-append l (end ∷ []));
            below = All-below_snoc m.size (start ∷ l) end (inside, c.below) lt;
            distinct = Distinct-snoc (start ∷ l) end distinct apart;
          },
          refl,
          last-snoc (start ∷ l) end,
        )
      where
        unseen_end : start_visited start end ≡ false
        unseen_end = visit_other (λ _. false) start end ne refl

        seen_start : visit (start_visited start) end start ≡ true
        seen_start = visit_kept (start_visited start) end start (visit_self (λ _. false) start)
