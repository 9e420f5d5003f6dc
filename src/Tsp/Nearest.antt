-- ===== src/Tsp/Nearest.antt =====
-- `nearestNeighbor` of internal/tsp/tsp_solver.go, for two stops or more.
pub mod Pick
pub mod Laws
use mop_backend_api.Base.{
  ℕ, zero, suc, ◌-◌, Bool, true, false, not, ◌&&◌, ◌||◌, List, [], ◌∷◌, ◌++◌, Option, none, some,
  ◌==◌, if◌then◌else◌, for_range, replicate,
}
use mop_backend_api.Tsp.Float.{Float, ◌<f◌}
use mop_backend_api.Tsp.Cost.{Matrix}

-- `bestNext` and `bestDist`
pub record Candidate (F : Type 0) : Type 0 where
  pub next : Option ℕ
  pub dist : F

-- `visited[i] = true`
unfoldable pub visit : (ℕ → Bool) → ℕ → ℕ → Bool
visit visited i j = i == j || visited j

module _ {F : Type 0} ⦃o : Float F⦄ (m : Matrix F) where
  unfoldable pub consider : (visited : ℕ → Bool) (current j : ℕ) → Candidate F → Candidate F
  consider visited current j best =
      if not (visited j) && (m.cell current j <f best.dist)
      then record { next = some j; dist = m.cell current j }
      else best

  unfoldable pub pick : (visited : ℕ → Bool) (current : ℕ) → Candidate F
  pick visited current =
      for_range m.size 0 (consider visited current) (record { next = none; dist = o.inf })

  -- The rounds that fill `order` from its second place on. After a `break` the places that are left
  -- keep the 0 that they were made with.
  unfoldable pub go_on : (rounds : ℕ) (visited : ℕ → Bool) (current : ℕ) → List ℕ
  go_on zero visited current = []
  go_on (suc rounds) visited current = elim ((pick visited current).next) [
    | none ↦ replicate (suc rounds) 0
    | some next ↦ next ∷ go_on rounds (visit visited next) next
  ]

  unfoldable pub nearest_neighbor : (start : ℕ) → Option ℕ → List ℕ
  nearest_neighbor start none = start ∷ go_on (m.size - 1) (visit (λ _. false) start) start
  nearest_neighbor start (some end) =
      start ∷ go_on (m.size - 2) (visit (visit (λ _. false) start) end) start ++ (end ∷ [])
