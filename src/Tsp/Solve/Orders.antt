-- ===== src/Tsp/Solve/Orders.antt =====
-- Orders of all stops: the input order, and an order read from its end.
use mop_backend_api.Base.{
  ℕ, zero, suc, ◌+◌, ◌-◌, ◌≤◌, ◌<◌, ◌≡◌, ◌≢◌, refl, sym, ap, false, List, [], ◌∷◌, some, length,
  length-rev_onto, All, Distinct, get_elem?, last?, rev_onto, arith,
}
use mop_backend_api.Tsp.Float.{Float, ◌<f◌}
use mop_backend_api.Tsp.Cost.{Matrix, Drivable, IsRoute}
use mop_backend_api.Tsp.Items.{IsRoute-SameItems, count-rev_onto}
use mop_backend_api.Tsp.HeldKarp.{count_up}

length-count_up : (i n : ℕ) → length (count_up i n) ≡ n
unfolding count_up
length-count_up i zero = refl
length-count_up i (suc n) = ap suc (length-count_up (suc i) n)

count_up_bounds : (i n k : ℕ) → i + n ≡ k → All (λ x. (i ≤ x) × (x < k)) (count_up i n)
unfolding count_up
count_up_bounds i zero k e = tt
count_up_bounds i (suc n) k e =
    (omega arith, weaken i k (count_up (suc i) n) (count_up_bounds (suc i) n k (omega arith)))
  where
    weaken :
        (i k : ℕ) (l : List ℕ) → All (λ x. (suc i ≤ x) × (x < k)) l → All (λ x. (i ≤ x) × (x < k)) l
    weaken i k [] a = tt
    weaken i k (x ∷ l) a = (omega arith, weaken i k l a.1)

All-bounds_lt : (i k : ℕ) (l : List ℕ) → All (λ x. (i ≤ x) × (x < k)) l → All (λ x. x < k) l
All-bounds_lt i k [] a = tt
All-bounds_lt i k (x ∷ l) a = (omega arith, All-bounds_lt i k l a.1)

All-bounds_ne : (i k : ℕ) (l : List ℕ) → All (λ x. (suc i ≤ x) × (x < k)) l → All (λ x. x ≢ i) l
All-bounds_ne i k [] a = tt
All-bounds_ne i k (x ∷ l) a = (omega arith, All-bounds_ne i k l a.1)

Distinct-count_up : (i n : ℕ) → Distinct (count_up i n)
unfolding count_up
Distinct-count_up i zero = tt
Distinct-count_up i (suc n) = (
  All-bounds_ne i (suc i + n) (count_up (suc i) n) (count_up_bounds (suc i) n _ refl),
  Distinct-count_up (suc i) n,
)

pub count_up-IsRoute : (n : ℕ) → IsRoute n (count_up 0 n)
count_up-IsRoute n = record {
  size = length-count_up 0 n;
  below = All-bounds_lt 0 n (count_up 0 n) (count_up_bounds 0 n n (omega arith));
  distinct = Distinct-count_up 0 n;
}

pub last-count_up : (i n k : ℕ) → i + n ≡ k → last? (count_up i (suc n)) ≡ some k
unfolding count_up
last-count_up i zero k e = ap some (omega arith)
last-count_up i (suc n) k e = last-count_up (suc i) n k (omega arith)

last-rev_onto : (l : List ℕ) (y : ℕ) (s : List ℕ) → last? (rev_onto l (y ∷ s)) ≡ last? (y ∷ s)
last-rev_onto [] y s = refl
last-rev_onto (x ∷ l) y s = last-rev_onto l x (y ∷ s)

pub last-reverse : (l : List ℕ) → last? (rev_onto l []) ≡ get_elem? l 0
last-reverse [] = refl
last-reverse (x ∷ l) = last-rev_onto l x []

first-rev_onto : (x : ℕ) (l s : List ℕ) → get_elem? (rev_onto (x ∷ l) s) 0 ≡ last? (x ∷ l)
first-rev_onto x [] s = refl
first-rev_onto x (y ∷ l) s = first-rev_onto y l (x ∷ s)

pub first-reverse : (l : List ℕ) → get_elem? (rev_onto l []) 0 ≡ last? l
first-reverse [] = refl
first-reverse (x ∷ l) = first-rev_onto x l []

pub reverse-IsRoute : (n : ℕ) (l : List ℕ) → IsRoute n l → IsRoute n (rev_onto l [])
reverse-IsRoute n l r =
    IsRoute-SameItems n l (rev_onto l []) (λ a. omega (arith, count-rev_onto a l []))
      (omega (arith, length-rev_onto l [])) r

module _ {F : Type 0} ⦃o : Float F⦄ (m : Matrix F) where
  -- there is a road between any two stops
  abbrev pub Connected : Type 0
  Connected = (i j : ℕ) → i < m.size → j < m.size → i ≢ j → (m.cell i j <f o.zero_f) ≡ false

  pub Drivable-of_connected :
      (l : List ℕ) → Connected → All (λ x. x < m.size) l → Distinct l → Drivable m l
  Drivable-of_connected [] c b d = tt
  Drivable-of_connected (x ∷ []) c b d = tt
  Drivable-of_connected (x ∷ y ∷ l) c b d =
      (c x y b.0 b.1.0 (λ e. d.0.0 (sym e)), Drivable-of_connected (y ∷ l) c b.1 d.1)

pub first-count_up : (n : ℕ) → 0 < n → get_elem? (count_up 0 n) 0 ≡ some 0
unfolding count_up
first-count_up zero h = absurd (omega arith)
first-count_up (suc n) h = refl

pub last-count_up_pred : (n : ℕ) → 0 < n → last? (count_up 0 n) ≡ some (n - 1)
last-count_up_pred zero h = absurd (omega arith)
last-count_up_pred (suc n) h = last-count_up 0 n (suc n - 1) (omega arith)
