-- ===== src/Tsp/HeldKarp/Walk.antt =====
-- Walks from the start that visit no stop twice: what a cell of the table is about.
use mop_backend_api.Base.{
  ℕ, suc, ◌+◌, ◌-◌, ◌<◌, ◌≡◌, refl, sym, ◌∙◌, ap, true, false, List, [], ◌∷◌, length, arith, subst,
}
use mop_backend_api.Base.Bits.{
  one_shl, bit, one_shl_pos, bit-add_self, bit-add_other, bit-zero, count_bits, count_bits-zero,
  count_bits-add, full_of_count, add-lt,
}
use mop_backend_api.Tsp.Float.{Float, ◌<f◌, ◌+f◌}
use mop_backend_api.Tsp.Cost.{Matrix}

-- the word of the stops in a list
unfoldable pub mask_of : List ℕ → ℕ
mask_of [] = 0
mask_of (x ∷ l) = one_shl x + mask_of l

-- the stops of the list, each below `n` and met once
abbrev pub Fresh : ℕ → List ℕ → Type 0
Fresh n [] = Unit
Fresh n (x ∷ l) = (x < n) × (bit (mask_of l) x ≡ false) × Fresh n l

pub mask_of-lt : (n : ℕ) (l : List ℕ) → Fresh n l → mask_of l < one_shl n
unfolding mask_of
mask_of-lt n [] f = omega (arith, one_shl_pos n)
mask_of-lt n (x ∷ l) f = add-lt n (mask_of l) x f.0 f.1 (mask_of-lt n l f.2)

pub count_bits-mask_of : (n : ℕ) (l : List ℕ) → Fresh n l → count_bits n (mask_of l) ≡ length l
unfolding mask_of
count_bits-mask_of n [] f = count_bits-zero n
count_bits-mask_of n (x ∷ l) f =
    count_bits-add n (mask_of l) x f.0 f.1 ∙ ap suc (count_bits-mask_of n l f.2)

-- `n` different stops below `n` are all of them
pub mask_of-full : (n : ℕ) (l : List ℕ) → Fresh n l → length l ≡ n → mask_of l ≡ one_shl n - 1
mask_of-full n l f e = full_of_count n (mask_of l) (mask_of-lt n l f) (count_bits-mask_of n l f ∙ e)

module _ {F : Type 0} ⦃o : Float F⦄ where
  module _ (m : Matrix F) (start : ℕ) where
    -- the stops visited, the last one first: from `start`, by roads that exist
    abbrev pub IsWalk : List ℕ → Type 0
    IsWalk [] = ⊥
    IsWalk (x ∷ []) = x ≡ start
    IsWalk (y ∷ x ∷ r) =
        (y < m.size)
        × (bit (mask_of (x ∷ r)) y ≡ false)
        × ((m.cell x y <f o.zero_f) ≡ false)
        × IsWalk (x ∷ r)

    abbrev pub walk_cost : List ℕ → F
    walk_cost [] = o.zero_f
    walk_cost (x ∷ []) = o.zero_f
    walk_cost (y ∷ x ∷ r) = walk_cost (x ∷ r) +f m.cell x y

    pub bit-walk_head : (y : ℕ) (r : List ℕ) → IsWalk (y ∷ r) → bit (mask_of (y ∷ r)) y ≡ true
    unfolding mask_of
    bit-walk_head y [] w = bit-add_self 0 y (bit-zero y)
    bit-walk_head y (x ∷ r) w = bit-add_self (mask_of (x ∷ r)) y w.1

    pub bit-walk_start : (y : ℕ) (r : List ℕ) → IsWalk (y ∷ r) → bit (mask_of (y ∷ r)) start ≡ true
    unfolding mask_of
    bit-walk_start y [] w =
        subst (λ k. bit (one_shl y + 0) k ≡ true) w (bit-add_self 0 y (bit-zero y))
    bit-walk_start y (x ∷ r) w =
        let before = bit-walk_start x r w.3 in
        bit-add_other (mask_of (x ∷ r)) y start w.1 (λ e. ground (arith, w.1)) ∙ before

    -- a walk is back at its start only before its first step
    pub walk_to_start : (r : List ℕ) → IsWalk (start ∷ r) → r ≡ []
    walk_to_start [] w = refl
    walk_to_start (x ∷ r) w = ground (arith, bit-walk_start x r w.3)

    pub Walk-Fresh : start < m.size → (y : ℕ) (r : List ℕ) → IsWalk (y ∷ r) → Fresh m.size (y ∷ r)
    unfolding mask_of
    Walk-Fresh h y [] w = (subst (λ k. k < m.size) (sym w) h, bit-zero y, tt)
    Walk-Fresh h y (x ∷ r) w = (w.0, w.1, Walk-Fresh h x r w.3)
