-- ===== src/Tsp/HeldKarp/Tour.antt =====
-- A walk read from its start is a route, and each route is a walk read back to front.
use mop_backend_api.Base.{
  ℕ, ◌+◌, ◌-◌, ◌<◌, ◌≡◌, ◌≢◌, refl, sym, ◌∙◌, ap, false, List, [], ◌∷◌, some, length, All, Distinct,
  rev_onto, get_elem?, last?, arith, subst,
}
use mop_backend_api.Base.Bits.{one_shl, bit, bit-add_other, bit-add_self, bit-zero, count_bits-full}
use mop_backend_api.Tsp.Float.{Float}
use mop_backend_api.Tsp.Cost.{Matrix, tour_from, calculate_tour_distance, Drivable, IsRoute}
use mop_backend_api.Tsp.HeldKarp.Walk.{
  mask_of, IsWalk, walk_cost, Fresh, Walk-Fresh, count_bits-mask_of,
}

pub length-rev_onto : (l s : List ℕ) → length (rev_onto l s) ≡ length l + length s
length-rev_onto [] s = omega arith
length-rev_onto (x ∷ l) s = omega (arith, length-rev_onto l (x ∷ s))

pub All-rev_onto : (P : ℕ → Type 0) (l s : List ℕ) → All P l → All P s → All P (rev_onto l s)
All-rev_onto P [] s a b = b
All-rev_onto P (x ∷ l) s a b = All-rev_onto P l (x ∷ s) a.1 (a.0, b)

pub All-map : (P Q : ℕ → Type 0) (l : List ℕ) → ((x : ℕ) → P x → Q x) → All P l → All Q l
All-map P Q [] f a = tt
All-map P Q (x ∷ l) f a = (f x a.0, All-map P Q l f a.1)

-- the stops of a list that are not in the word of another
abbrev pub Outside : ℕ → List ℕ → Type 0
Outside mask = All (λ z. bit mask z ≡ false)

Outside-cons :
    (mask x : ℕ) (s : List ℕ)
    → bit mask x ≡ false
    → All (λ z. z ≢ x) s
    → Outside mask s
    → Outside (one_shl x + mask) s
Outside-cons mask x [] b ne out = tt
Outside-cons mask x (z ∷ s) b ne out =
    (bit-add_other mask x z b ne.0 ∙ out.0, Outside-cons mask x s b ne.1 out.1)

Outside-uncons :
    (mask x : ℕ) (s : List ℕ)
    → bit mask x ≡ false
    → Outside (one_shl x + mask) s
    → All (λ z. z ≢ x) s × Outside mask s
Outside-uncons mask x [] b out = (tt, tt)
Outside-uncons mask x (z ∷ s) b out =
    let rest = Outside-uncons mask x s b out.1 in
    let ne : z ≢ x = λ e.
      ground
        (arith, subst (λ k. bit (one_shl x + mask) k ≡ false) e out.0, bit-add_self mask x b) in
    ((ne, rest.0), (sym (bit-add_other mask x z b ne) ∙ out.0, rest.1))

Fresh-below : (n : ℕ) (l : List ℕ) → Fresh n l → All (λ x. x < n) l
Fresh-below n [] f = tt
Fresh-below n (x ∷ l) f = (f.0, Fresh-below n l f.2)

Fresh-Distinct :
    (n : ℕ) (l s : List ℕ)
    → Fresh n l
    → Distinct s
    → Outside (mask_of l) s
    → Distinct (rev_onto l s)
unfolding mask_of
Fresh-Distinct n [] s f d out = d
Fresh-Distinct n (x ∷ l) s f d out =
    let parts = Outside-uncons (mask_of l) x s f.1 out in
    Fresh-Distinct n l (x ∷ s) f.2 (parts.0, d) (f.1, parts.1)

Outside-zero : (s : List ℕ) → Outside 0 s
Outside-zero [] = tt
Outside-zero (x ∷ s) = (bit-zero x, Outside-zero s)

module _ {F : Type 0} ⦃o : Float F⦄ (m : Matrix F) (start : ℕ) where
  -- the code's sum, from the front, is the sum along the walk
  pub tour_from-rev_onto :
      (y : ℕ) (r s : List ℕ)
      → tour_from m o.zero_f (rev_onto (y ∷ r) s) ≡ tour_from m (walk_cost m start (y ∷ r)) (y ∷ s)
  unfolding tour_from
  tour_from-rev_onto y [] [] = refl
  tour_from-rev_onto y [] (z ∷ s) = refl
  tour_from-rev_onto y (x ∷ r) s = tour_from-rev_onto x r (y ∷ s)

  pub tour_distance-walk :
      (y : ℕ) (r : List ℕ)
      → calculate_tour_distance (rev_onto (y ∷ r) []) m ≡ walk_cost m start (y ∷ r)
  unfolding calculate_tour_distance
  tour_distance-walk y r = tour_from-rev_onto y r []

  Drivable-rev_onto :
      (y : ℕ) (r s : List ℕ)
      → IsWalk m start (y ∷ r)
      → Drivable m (y ∷ s)
      → Drivable m (rev_onto (y ∷ r) s)
  Drivable-rev_onto y [] s w d = d
  Drivable-rev_onto y (x ∷ r) s w d = Drivable-rev_onto x r (y ∷ s) w.3 (w.2, d)

  first-rev_onto :
      (y : ℕ) (r s : List ℕ)
      → IsWalk m start (y ∷ r)
      → get_elem? (rev_onto (y ∷ r) s) 0 ≡ some start
  first-rev_onto y [] s w = ap some w
  first-rev_onto y (x ∷ r) s w = first-rev_onto x r (y ∷ s) w.3

  last-rev_onto : (r s : List ℕ) (y : ℕ) → last? (rev_onto r (y ∷ s)) ≡ last? (y ∷ s)
  last-rev_onto [] s y = refl
  last-rev_onto (x ∷ r) s y = last-rev_onto r (y ∷ s) x

  -- a walk over all stops is a route along roads that exist
  pub record IsTour (stop : ℕ) (order : List ℕ) : Type 0 where
    pub route : IsRoute m.size order
    pub drivable : Drivable m order
    pub first : get_elem? order 0 ≡ some start
    pub last : last? order ≡ some stop

  pub walk-IsTour :
      (y : ℕ) (r : List ℕ)
      → start < m.size
      → IsWalk m start (y ∷ r)
      → mask_of (y ∷ r) ≡ one_shl m.size - 1
      → IsTour y (rev_onto (y ∷ r) [])
  walk-IsTour y r h w full =
      let fresh = Walk-Fresh m start h y r w in
      let counted : length (y ∷ r) ≡ m.size =
        sym (count_bits-mask_of m.size (y ∷ r) fresh) ∙ (rw full (count_bits-full m.size)) in
      record {
        route = record {
          size = length-rev_onto (y ∷ r) [] ∙ (omega arith);
          below = All-rev_onto (λ x. x < m.size) (y ∷ r) [] (Fresh-below m.size (y ∷ r) fresh) tt;
          distinct = Fresh-Distinct m.size (y ∷ r) [] fresh tt tt;
        };
        drivable = Drivable-rev_onto y r [] w tt;
        first = first-rev_onto y r [] w;
        last = last-rev_onto r [] y;
      }

  -- the other way round, with the walk so far and the stops still ahead
  pub record IsWalkOf (order : List ℕ) (y : ℕ) (r : List ℕ) : Type 0 where
    pub walk : IsWalk m start (y ∷ r)
    pub same : rev_onto (y ∷ r) [] ≡ order

  extend :
      (y : ℕ) (r s order : List ℕ)
      → IsWalk m start (y ∷ r)
      → Drivable m (y ∷ s)
      → All (λ x. x < m.size) s
      → Distinct s
      → Outside (mask_of (y ∷ r)) s
      → rev_onto (y ∷ r) s ≡ order
      → (z : ℕ) × (q : List ℕ) × IsWalkOf order z q
  unfolding mask_of
  extend y r [] order w d b u out e = (y, r, record { walk = w; same = e })
  extend y r (z ∷ s) order w d b u out e =
      extend z (y ∷ r) s order (b.0, out.0, d.0, w) d.1 b.1 u.1
        (Outside-cons (mask_of (y ∷ r)) z s out.0 u.0 out.1) e

  pub IsWalkOf-tour :
      (stop : ℕ) (order : List ℕ) → IsTour stop order → (z : ℕ) × (q : List ℕ) × IsWalkOf order z q
  unfolding mask_of
  IsWalkOf-tour stop [] t = absurd (ground (arith, t.first))
  IsWalkOf-tour stop (x ∷ s) t =
      let e : x ≡ start = ground (arith, t.first) in
      extend x [] s (x ∷ s) e t.drivable t.route.below.1 t.route.distinct.1
        (Outside-cons 0 x s (bit-zero x) t.route.distinct.0 (Outside-zero s)) refl
