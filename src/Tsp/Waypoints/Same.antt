-- ===== src/Tsp/Waypoints/Same.antt =====
-- The waypoints that `SolveWaypoints` returns are those it was called with.
use mathlib.Core.List.{Mem, Perm, Subset, mem-cons_self, mem-cons, mem-map_of_mem, map-map}
use mathlib.Core.List as Lists
use mathlib.Core.List.Perm
use mathlib.Core.List.Subperm
use mathlib.Core.List.Nodup
use mathlib.Core.Logic.Or
use mathlib.Core.Nat.{le_of_eq}
use native.Mathlib.Bridge.{le_prop}
use mathlib.Core.Nat as Unary
use mop_backend_api.Base.Perms.{Distinct-Nodup, mem_All}
use mop_backend_api.Base.{
  ℕ, zero, suc, ◌<◌, ◌≡◌, refl, sym, ◌∙◌, ap, subst, List, [], ◌∷◌, Option, none, some, map, length,
  get_elem?, All, arith,
}
use mop_backend_api.Tsp.Cost.{IsRoute}
use mop_backend_api.Tsp.Waypoints.Laws.{IsPlaced}

-- the numbers below one
up_to : ℕ → List ℕ
up_to zero = []
up_to (suc n) = 0 ∷ map suc (up_to n)

length-map : {A B : Type 0} (f : A → B) (l : List A) → length (map f l) ≡ length l
length-map f [] = refl
length-map f (x ∷ l) = let rest = length-map f l in omega arith

length-up_to : (n : ℕ) → length (up_to n) ≡ n
unfolding up_to
length-up_to zero = refl
length-up_to (suc n) =
    let rest = length-up_to n in let same = length-map suc (up_to n) in omega arith

mem-up_to : (n i : ℕ) → i < n → Mem i (up_to n)
unfolding up_to
mem-up_to zero i h = absurd (omega arith)
mem-up_to (suc n) zero h = mem-cons_self
mem-up_to (suc n) (suc i) h = mem-cons.1 (Or.inr (mem-map_of_mem suc (mem-up_to n i (omega arith))))

-- lists of one length have one length over the unary numbers too
same_length :
    {A B : Type 0} (l : List A) (r : List B) → length l ≡ length r → Lists.length l ≡ Lists.length r
same_length [] [] h = refl
same_length [] (y ∷ r) h = absurd (omega arith)
same_length (x ∷ l) [] h = absurd (omega arith)
same_length (x ∷ l) (y ∷ r) h = ap Unary.suc (same_length l r (omega arith))

All-Subset : (n : ℕ) (l : List ℕ) → All (λ i. i < n) l → Subset l (up_to n)
All-Subset n l h i m = mem-up_to n i (mem_All (λ j. le_prop) i l h m)

-- a route is the numbers below its length in some order
route-Perm : (n : ℕ) (l : List ℕ) → IsRoute n l → Perm l (up_to n)
route-Perm n l r =
    Subperm.perm_of_length_le (Nodup.subperm (Distinct-Nodup l r.distinct) (All-Subset n l r.below))
      (le_of_eq (same_length (up_to n) l (length-up_to n ∙ sym r.size)))

module _ {A : Type 0} where
  map-get_elem? : (ws : List A) → map (get_elem? ws) (up_to (length ws)) ≡ map some ws
  unfolding up_to
  map-get_elem? [] = refl
  map-get_elem? (w ∷ ws) =
      ap {B = List (Option A)} (λ r. some w ∷ r)
        (map-map (get_elem? (w ∷ ws)) suc (up_to (length ws)) ∙ map-get_elem? ws)

  IsPlaced-map :
      (ws : List A) (l : List ℕ) (out : List A)
      → IsPlaced ws l out
      → map (get_elem? ws) l ≡ map some out
  unfolding IsPlaced
  IsPlaced-map ws [] [] h = refl
  IsPlaced-map ws [] (x ∷ out) h = absurd h
  IsPlaced-map ws (i ∷ l) [] h = absurd h
  IsPlaced-map ws (i ∷ l) (x ∷ out) h = rw (h.0, IsPlaced-map ws l out h.1) refl

  -- what is placed along a route is what was there
  pub placed-Perm :
      {B : Type 0} (f : A → B) (d : B) (ws out : List A) (l : List ℕ)
      → IsRoute (length ws) l
      → IsPlaced ws l out
      → Perm (map f out) (map f ws)
  placed-Perm {B} f d ws out l r h =
      let read : Option A → B = λ a. elim a [ none ↦ d | some x ↦ f x ] in
      let chosen : Perm (map some out) (map some ws) =
        subst (λ u. Perm u (map some ws)) (IsPlaced-map ws l out h)
          (subst (Perm (map (get_elem? ws) l)) (map-get_elem? ws)
            (Perm.map (get_elem? ws) (route-Perm (length ws) l r))) in
      subst (λ u. Perm u (map f ws)) (map-map read some out)
        (subst (Perm (map read (map some out))) (map-map read some ws) (Perm.map read chosen))
