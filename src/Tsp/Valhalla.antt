-- ===== src/Tsp/Valhalla.antt =====
-- The cost matrix as internal/tsp/tsp_solver.go makes it from Valhalla's answer. The service and the
-- test for two places being one are parameters.
use mop_backend_api.Base.{
  ℕ, zero, suc, ◌<◌, ◌≡◌, ◌≢◌, refl, Bool, false, not, ◌&&◌, ◌||◌, List, [], ◌∷◌, Option, none,
  some, leb, ◌==◌, if◌then◌else◌, ◌>>=◌, arith, Bool-cases, inl, inr, subst, sym, Option-cases,
}
use native.Mathlib.Decide.{ℕ_discrete}
use mop_backend_api.Tsp.Float.{Float, ◌<f◌, eq_f}
use mop_backend_api.Tsp.Cost.{Matrix}
use mop_backend_api.Tsp.Solve.Orders.{Connected}

-- a cell of `sources_to_targets`
pub record Reply (F : Type 0) : Type 0 where
  pub from_index : ℕ
  pub to_index : ℕ
  pub distance : F
  pub time : F

pub data Mode : Type 0 where
  by_time by_distance : Mode

unfoldable pub set_entry : {F : Type 0} → (ℕ → ℕ → F) → ℕ → ℕ → F → ℕ → ℕ → F
set_entry cell i j v a b = if a == i && b == j then v else cell a b

module _ {F : Type 0} ⦃o : Float F⦄ where
  -- the value for a pair that is not in one place
  unfoldable pub cost_of : Mode → Reply F → F
  cost_of by_time r = if o.zero_f <f r.time then r.time else o.neg r.distance
  cost_of by_distance r = if o.zero_f <f r.distance then r.distance else o.neg r.distance

  -- the loop over the cells, on a matrix of `n` zeros by `n`
  unfoldable pub fill_cells :
      (n : ℕ) (co_located : ℕ → ℕ → Bool) → Mode → List (Reply F) → (ℕ → ℕ → F) → ℕ → ℕ → F
  unfolding set_entry cost_of
  fill_cells n co_located mode [] cell = cell
  fill_cells n co_located mode (r ∷ rs) cell = fill_cells n co_located mode rs (
      if leb n r.from_index || leb n r.to_index
      then cell
      else if co_located r.from_index r.to_index
      then set_entry cell r.from_index r.to_index o.zero_f
      else set_entry cell r.from_index r.to_index (cost_of mode r))

  unfoldable pub matrix_of : (n : ℕ) (co_located : ℕ → ℕ → Bool) → Mode → List (Reply F) → Matrix F
  unfolding fill_cells
  matrix_of n co_located mode rs = record {
    size = n;
    cell = fill_cells n co_located mode rs (λ _ _. o.zero_f);
  }

  -- `matrix[i][j] < 0`, or -0
  abbrev pub is_unreachable : F → Bool
  is_unreachable x = (x <f o.zero_f) || (eq_f x o.zero_f && o.signbit x)

  unfoldable pub row_has_unreachable : Matrix F → (i : ℕ) → ℕ → Bool
  row_has_unreachable m i zero = false
  row_has_unreachable m i (suc j) =
      (not (i == j) && is_unreachable (m.cell i j)) || row_has_unreachable m i j

  unfoldable pub rows_have_unreachable : Matrix F → ℕ → Bool
  unfolding row_has_unreachable
  rows_have_unreachable m zero = false
  rows_have_unreachable m (suc i) = row_has_unreachable m i m.size || rows_have_unreachable m i

  unfoldable pub has_unreachable_pair : Matrix F → Bool
  unfolding rows_have_unreachable
  has_unreachable_pair m = rows_have_unreachable m m.size

  -- `service radius`: the cells, or an error of the request
  unfoldable pub try_radii :
      (service : ℕ → Option (List (Reply F))) (n : ℕ) (co_located : ℕ → ℕ → Bool)
      → Mode
      → List ℕ
      → Option (Matrix F)
  unfolding has_unreachable_pair matrix_of
  try_radii service n co_located mode [] = none
  try_radii service n co_located mode (radius ∷ radii) =
      let rest = try_radii service n co_located mode radii in
      service radius >>= λ rs.
      if not (has_unreachable_pair (matrix_of n co_located mode rs))
      then some (matrix_of n co_located mode rs)
      else rest

  unfoldable pub build_matrix :
      (service : ℕ → Option (List (Reply F))) (n : ℕ) (co_located : ℕ → ℕ → Bool)
      → Mode
      → Option (Matrix F)
  unfolding try_radii
  build_matrix service n co_located mode =
      try_radii service n co_located mode (50 ∷ 200 ∷ 400 ∷ 800 ∷ [])

  row_sound :
      (m : Matrix F) (i k j : ℕ)
      → row_has_unreachable m i k ≡ false
      → j < k
      → i ≢ j
      → (m.cell i j <f o.zero_f) ≡ false
  unfolding row_has_unreachable
  row_sound m i zero j h lt ne = absurd (omega arith)
  row_sound m i (suc k) j h lt ne = elim (ℕ_discrete j k) [
    | yes e ↦
        let ne' : i ≢ k = λ q. ne (omega arith) in
        subst (λ x. (m.cell i x <f o.zero_f) ≡ false) (sym e) (ground arith)
    | no other ↦ row_sound m i k j (ground arith) (omega arith) ne
  ]

  rows_sound :
      (m : Matrix F) (k i : ℕ)
      → rows_have_unreachable m k ≡ false
      → i < k
      → row_has_unreachable m i m.size ≡ false
  unfolding rows_have_unreachable
  rows_sound m zero i h lt = absurd (omega arith)
  rows_sound m (suc k) i h lt = elim (ℕ_discrete i k) [
    | yes e ↦ subst (λ x. row_has_unreachable m x m.size ≡ false) (sym e) (ground arith)
    | no other ↦ rows_sound m k i (ground arith) (omega arith)
  ]

  pub no_unreachable-Connected : (m : Matrix F) → has_unreachable_pair m ≡ false → Connected m
  unfolding has_unreachable_pair
  no_unreachable-Connected m h i j li lj ne =
      row_sound m i m.size j (rows_sound m m.size i h li) lj ne

  module _ (service : ℕ → Option (List (Reply F))) (n : ℕ) (co_located : ℕ → ℕ → Bool)
      (mode : Mode) where
    size_of : (rs : List (Reply F)) → (matrix_of n co_located mode rs).size ≡ n
    unfolding matrix_of
    size_of rs = refl

    try_radii-Connected :
        (radii : List ℕ) (m : Matrix F)
        → try_radii service n co_located mode radii ≡ some m
        → (m.size ≡ n) × Connected m
    unfolding try_radii
    try_radii-Connected [] m e = absurd (ground arith)
    try_radii-Connected (radius ∷ radii) m e = elim (Option-cases (service radius)) [
      | inl q ↦ absurd (ground (arith, q))
      | inr (rs, q) ↦ elim (Bool-cases (has_unreachable_pair (matrix_of n co_located mode rs))) [
        | inl missing ↦ try_radii-Connected radii m (ground (arith, q))
        | inr complete ↦
            let result : matrix_of n co_located mode rs ≡ m = ground (arith, q) in
            subst (λ r. (r.size ≡ n) × Connected r) result
              (size_of rs, no_unreachable-Connected (matrix_of n co_located mode rs) complete)
      ]
    ]

    -- A matrix that `BuildMatrix` returns has a row and a column for each place, and no negative cell
    -- between two places.
    pub build_matrix-Connected :
        (m : Matrix F)
        → build_matrix service n co_located mode ≡ some m
        → (m.size ≡ n) × Connected m
    unfolding build_matrix
    build_matrix-Connected m e = try_radii-Connected (50 ∷ 200 ∷ 400 ∷ 800 ∷ []) m e
