-- ===== src/Tsp/TwoOpt/Laws.antt =====
-- `twoOpt` rearranges the stops, keeps its ends, and never makes the tour longer.
use mop_backend_api.Base.{
  ℕ, zero, suc, ◌+◌, ◌-◌, ◌≤◌, ◌<◌, ◌≡◌, refl, sym, ◌∙◌, ap, Bool, true, false, List, [], ◌∷◌, ◌++◌,
  some, Bool-cases, inl, inr, ◌⊎◌, for_range, for_range_inv, length, take, drop, rev_onto,
  length-rev_onto, take-nil, take-append-drop, length-append, length-take, length-drop, get_elem?,
  last?, arith, subst,
}
use mop_backend_api.Tsp.Float.{Float, ◌<f◌, Le, Le_refl}
use mop_backend_api.Tsp.Cost.{Matrix, calculate_tour_distance}
use mop_backend_api.Tsp.Items.{count, SameItems, count-append, count-rev_onto}
use mop_backend_api.Tsp.TwoOpt.{
  Tour, reverse_segment, last_modifiable, try_reverse, sweep, two_opt_loop, two_opt,
}

drop-nil : (k : ℕ) → drop {A = ℕ} k [] ≡ []
drop-nil zero = refl
drop-nil (suc k) = refl

drop-drop : (i k : ℕ) (l : List ℕ) → drop k (drop i l) ≡ drop (i + k) l
drop-drop zero k l = ap (λ j. drop j l) (omega arith)
drop-drop (suc i) k [] = drop-nil k ∙ sym (drop-nil (suc i + k))
drop-drop (suc i) k (x ∷ l) =
    let e : suc (i + k) ≡ suc i + k = omega arith in drop-drop i k l ∙ ap (λ j. drop j (x ∷ l)) e

pub reverse_segment-SameItems :
    (i j : ℕ) (l : List ℕ) → i ≤ suc j → SameItems (reverse_segment i j l) l
unfolding reverse_segment
reverse_segment-SameItems i j l h a =
    let e : i + (suc j - i) ≡ suc j = omega arith in
    let tail : drop (suc j - i) (drop i l) ≡ drop (suc j) l =
      drop-drop i (suc j - i) l ∙ ap (λ k. drop k l) e in
    omega (
      arith,
      ap (count a) (take-append-drop i l),
      ap (count a) (take-append-drop (suc j - i) (drop i l)),
      ap (count a) tail,
      count-append a (take i l) (drop i l),
      count-append a (take (suc j - i) (drop i l)) (drop (suc j - i) (drop i l)),
      count-append a (take i l) (rev_onto (take (suc j - i) (drop i l)) (drop (suc j) l)),
      count-rev_onto a (take (suc j - i) (drop i l)) (drop (suc j) l),
    )

pub length-reverse_segment :
    (i j : ℕ) (l : List ℕ) → i ≤ suc j → length (reverse_segment i j l) ≡ length l
unfolding reverse_segment
length-reverse_segment i j l h = omega (
  arith,
  length-append (take i l) (rev_onto (take (suc j - i) (drop i l)) (drop (suc j) l)),
  length-rev_onto (take (suc j - i) (drop i l)) (drop (suc j) l),
  length-take i l,
  length-take (suc j - i) (drop i l),
  length-drop i l,
  length-drop (suc j) l,
)

first-reverse_segment :
    (i j : ℕ) (l : List ℕ) → 1 ≤ i → i ≤ suc j → get_elem? (reverse_segment i j l) 0 ≡ get_elem? l 0
unfolding reverse_segment
first-reverse_segment zero j l h le = absurd (omega arith)
first-reverse_segment (suc i) j [] h le = rw (take-nil {A = ℕ} (suc j - suc i))
first-reverse_segment (suc i) j (x ∷ l) h le = refl

last-cons : (x v : ℕ) (s : List ℕ) → last? s ≡ some v → last? (x ∷ s) ≡ some v
last-cons x v [] h = absurd (ground arith)
last-cons x v (y ∷ s) h = h

last-append : (l s : List ℕ) (v : ℕ) → last? s ≡ some v → last? (l ++ s) ≡ some v
last-append [] s v h = h
last-append (x ∷ l) s v h = last-cons x v (l ++ s) (last-append l s v h)

last-rev_onto : (l s : List ℕ) (v : ℕ) → last? s ≡ some v → last? (rev_onto l s) ≡ some v
last-rev_onto [] s v h = h
last-rev_onto (x ∷ l) s v h = last-rev_onto l (x ∷ s) v (last-cons x v s h)

last-some : (y : ℕ) (r : List ℕ) → (v : ℕ) × (last? (y ∷ r) ≡ some v)
last-some y [] = (y, refl)
last-some y (x ∷ r) = last-some x r

-- what stands behind the reversed stops, when it is not empty, ends as the whole does
last-reverse_segment :
    (i j : ℕ) (l : List ℕ) → suc j < length l → last? (reverse_segment i j l) ≡ last? l
unfolding reverse_segment
last-reverse_segment i j l h = go (drop (suc j) l) refl
  where
    go : (r : List ℕ) → drop (suc j) l ≡ r → last? (reverse_segment i j l) ≡ last? l
    go [] e = absurd (omega (arith, ap (λ k. length k) e, length-drop (suc j) l))
    go (y ∷ r) e =
        let whole : take (suc j) l ++ (y ∷ r) ≡ l =
          subst (λ k. take (suc j) l ++ k ≡ l) e (take-append-drop (suc j) l) in
        let (v, q) = last-some y r in
        rw e (
          last-append (take i l) _ v (last-rev_onto (take (suc j - i) (drop i l)) (y ∷ r) v q)
          ∙ sym (subst (λ k. last? k ≡ some v) whole (last-append (take (suc j) l) (y ∷ r) v q)))

module _ {F : Type 0} ⦃o : Float F⦄ (m : Matrix F) (order : List ℕ) (fixed : Bool) where
  -- what holds of the tour at every moment of the run that began with `order`
  pub record Keeps (t : Tour F) : Type 0 where
    pub items : SameItems t.order order
    pub size : length t.order ≡ length order
    pub first : get_elem? t.order 0 ≡ get_elem? order 0
    pub last : fixed ≡ true → last? t.order ≡ last? order
    pub total : t.dist ≡ calculate_tour_distance t.order m
    pub shorter : Le t.dist (calculate_tour_distance order m)

  abbrev pub last_index : ℕ
  last_index = last_modifiable (length order) fixed

  pub try_reverse_cases :
      (i j : ℕ) (t : Tour F)
      → (try_reverse m i j t ≡ t)
        ⊎ ((calculate_tour_distance (reverse_segment i j t.order) m <f t.dist) ≡ true)
          × (try_reverse m i j t ≡ record {
            order = reverse_segment i j t.order;
            dist = calculate_tour_distance (reverse_segment i j t.order) m;
            improved = true;
          })
  unfolding try_reverse
  try_reverse_cases i j t = ground arith

  pub try_reverse-Keeps :
      (i j : ℕ) (t : Tour F)
      → 1 ≤ i
      → i ≤ j
      → j ≤ last_index
      → Keeps t
      → Keeps (try_reverse m i j t)
  unfolding last_modifiable
  try_reverse-Keeps i j t pos le top k = elim (try_reverse_cases i j t) [
    | inl same ↦ rw same k
    | inr (better, new) ↦ rw new (record {
      items = λ a. reverse_segment-SameItems i j t.order (omega arith) a ∙ k.items a;
      size = length-reverse_segment i j t.order (omega arith) ∙ k.size;
      first = first-reverse_segment i j t.order pos (omega arith) ∙ k.first;
      last = λ f. last-reverse_segment i j t.order (ground (arith, k.size, f)) ∙ k.last f;
      total = refl;
      shorter = o.le_trans_f _ t.dist _ (o.lt_asymm _ t.dist better) k.shorter;
    })
  ]

  pub sweep-Keeps : (t : Tour F) → Keeps t → Keeps (sweep m last_index t)
  unfolding sweep
  sweep-Keeps t k =
      (for_range_inv (λ i s. (1 ≤ i) × Keeps s) (suc last_index) _ last_index 1
        (record t { improved = false }) (omega arith)
        (λ i s lt (pos, h). (omega arith, inner i s lt pos h))
        (
          omega arith,
          record {
            items = k.items;
            size = k.size;
            first = k.first;
            last = k.last;
            total = k.total;
            shorter = k.shorter;
          },
        )).1
    where
      inner :
          (i : ℕ) (s : Tour F)
          → i < suc last_index
          → 1 ≤ i
          → Keeps s
          → Keeps (for_range (last_index - i) (suc i) (try_reverse m i) s)
      inner i s lt pos h =
          (for_range_inv (λ j r. (i < j) × Keeps r) (suc last_index) (try_reverse m i)
            (last_index - i) (suc i) s (omega arith)
            (λ j r lt' (up, q).
              (omega arith, try_reverse-Keeps i j r pos (omega arith) (omega arith) q))
            (omega arith, h)).1

  two_opt_loop-Keeps :
      (fuel : ℕ) (t t' : Tour F) → two_opt_loop m fuel last_index t ≡ some t' → Keeps t → Keeps t'
  unfolding two_opt_loop
  two_opt_loop-Keeps zero t t' e k = absurd (ground arith)
  two_opt_loop-Keeps (suc fuel) t t' e k = elim (Bool-cases (sweep m last_index t).improved) [
    | inl more ↦ two_opt_loop-Keeps fuel (sweep m last_index t) t' (ground arith) (sweep-Keeps t k)
    | inr settled ↦ subst Keeps (ground arith) (sweep-Keeps t k)
  ]

  pub start-Keeps :
      Keeps (record { order = order; dist = calculate_tour_distance order m; improved = true })
  start-Keeps = record {
    items = λ a. refl;
    size = refl;
    first = refl;
    last = λ f. refl;
    total = refl;
    shorter = Le_refl (calculate_tour_distance order m);
  }

  -- Whatever the fuel, a result keeps the stops, the first one, with a fixed end the last one, and is
  -- no longer than the order that it began with.
  pub two_opt-Keeps : (fuel : ℕ) (t : Tour F) → two_opt m fuel order fixed ≡ some t → Keeps t
  unfolding two_opt
  two_opt-Keeps fuel t e = two_opt_loop-Keeps fuel _ t e start-Keeps
