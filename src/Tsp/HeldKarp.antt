-- ===== src/Tsp/HeldKarp.antt =====
-- `heldKarp` of internal/tsp/tsp_solver.go. A row of the table is a word: the set of the stops
-- visited so far. What the code leaves as -1 is `none`.
pub mod Walk
pub mod Relax
pub mod Fill
pub mod Table
pub mod Tour
pub mod Trace
pub mod Choose
pub mod Optimal
use mop_backend_api.Base.{
  ℕ, zero, suc, ◌+◌, ◌-◌, Bool, true, false, not, ◌&&◌, ◌||◌, List, [], ◌∷◌, Option, none, some,
  leb, ◌==◌, if◌then◌else◌, ◌>>=◌, for_range,
}
use mop_backend_api.Base.Bits.{one_shl, bit, flip}
use mop_backend_api.Tsp.Float.{Float, ◌<f◌, ◌+f◌, eq_f}
use mop_backend_api.Tsp.Cost.{Matrix}

-- `dp[mask][end]` and `parent[mask][end]`
pub record Cell (F : Type 0) : Type 0 where
  pub dist : F
  pub parent : Option ℕ

abbrev pub Table : Type 0 → Type 0
Table F = ℕ → ℕ → Cell F

-- `minCost` and `bestEnd`
pub record Best (F : Type 0) : Type 0 where
  pub cost : F
  pub stop : Option ℕ

-- the three results of `heldKarp`
pub record Solution (F : Type 0) : Type 0 where
  pub order : List ℕ
  pub cost : F
  pub stop : ℕ

unfoldable pub set_cell : {F : Type 0} → Table F → ℕ → ℕ → Cell F → Table F
set_cell dp mask end c m e = if m == mask && e == end then c else dp m e

abbrev pub end_out_of_range : ℕ → Option ℕ → Bool
end_out_of_range n none = false
end_out_of_range n (some end) = leb n end

-- `order[i] = i`
unfoldable pub count_up : ℕ → ℕ → List ℕ
count_up i zero = []
count_up i (suc n) = i ∷ count_up (suc i) n

module _ {F : Type 0} ⦃o : Float F⦄ where
  abbrev pub unreached : Cell F
  unreached = record { dist = o.inf; parent = none }

  unfoldable pub start_table : ℕ → Table F
  unfolding set_cell
  start_table start =
      set_cell (λ _ _. unreached) (one_shl start) start (record { dist = o.zero_f; parent = none })

  module _ (m : Matrix F) where
    -- One round of the loop over `prev`. It reads the row of `prevMask`, another row than the one
    -- it improves, so the cell `[mask][end]` is passed along.
    unfoldable pub relax : Table F → ℕ → ℕ → ℕ → Cell F → Cell F
    relax dp mask end prev best =
        let prev_mask = flip mask end in
        let new_dist = (dp prev_mask prev).dist +f m.cell prev end in
        if not (bit prev_mask prev)
        then best
        else if eq_f (dp prev_mask prev).dist o.inf
        then best
        else if m.cell prev end <f o.zero_f
        then best
        else if new_dist <f best.dist
        then record { dist = new_dist; parent = some prev }
        else best

    unfoldable pub best_cell : Table F → ℕ → ℕ → Cell F
    unfolding for_range relax
    best_cell dp mask end = for_range m.size 0 (relax dp mask end) (dp mask end)

    unfoldable pub fill_end : (start mask end : ℕ) → Table F → Table F
    unfolding best_cell set_cell
    fill_end start mask end dp =
        if end == start
        then dp
        else if not (bit mask end)
        then dp
        else set_cell dp mask end (best_cell dp mask end)

    unfoldable pub fill_mask : (start mask : ℕ) → Table F → Table F
    unfolding fill_end for_range
    fill_mask start mask dp =
        if not (bit mask start) then dp else for_range m.size 0 (fill_end start mask) dp

    unfoldable pub fill_table : ℕ → Table F
    unfolding fill_mask start_table for_range
    fill_table start = for_range (one_shl m.size) 0 (fill_mask start) (start_table start)

    -- the search for the cheapest last stop
    unfoldable pub try_end : (row : ℕ → Cell F) (start end : ℕ) → Best F → Best F
    try_end row start end best =
        if end == start
        then best
        else if (row end).dist <f best.cost
        then record { cost = (row end).dist; stop = some end }
        else best

    unfoldable pub choose_end : (row : ℕ → Cell F) (start : ℕ) → Option ℕ → Best F
    unfolding try_end for_range
    choose_end row start none =
        for_range m.size 0 (try_end row start) (record { cost = o.inf; stop = none })
    choose_end row start (some end) = record { cost = (row end).dist; stop = some end }

  -- The way back through `parent`, which fills `order` from its end. A -1 there leads to a read
  -- out of range, `none`.
  unfoldable pub trace_back : Table F → ℕ → (mask city : ℕ) → List ℕ → Option (List ℕ)
  trace_back dp zero mask city order = some order
  trace_back dp (suc rounds) mask city order =
      (dp mask city).parent >>= λ prev. trace_back dp rounds (flip mask city) prev (prev ∷ order)

  module _ (m : Matrix F) where
    unfoldable pub fallback : Solution F
    unfolding count_up
    fallback = record { order = count_up 0 m.size; cost = m.cell 0 (m.size - 1); stop = m.size - 1 }

    unfoldable pub rebuild : Table F → ℕ → Best F → Option (Solution F)
    rebuild dp start best = elim best.stop [
      | none ↦ some fallback
      | some end ↦
          if eq_f best.cost o.inf
          then some fallback
          else trace_back dp (m.size - 2) (one_shl m.size - 1) end (end ∷ []) >>= λ order.
              some (record { order = start ∷ order; cost = best.cost; stop = end })
    ]

    -- `none` where an index out of range panics: an empty matrix, `startIdx` or `fixedEndIdx` past
    -- the end. A matrix of one or two stops is answered without a look at either.
    unfoldable pub held_karp : (start : ℕ) (fixed_end : Option ℕ) → Option (Solution F)
    held_karp start fixed_end =
        let dp = fill_table m start in
        if m.size == 0
        then none
        else if m.size == 1
        then some (record { order = 0 ∷ []; cost = o.zero_f; stop = 0 })
        else if m.size == 2
        then some (record { order = 0 ∷ 1 ∷ []; cost = m.cell 0 1; stop = 1 })
        else if leb m.size start || end_out_of_range m.size fixed_end
        then none
        else rebuild dp start (choose_end m (dp (one_shl m.size - 1)) start fixed_end)
