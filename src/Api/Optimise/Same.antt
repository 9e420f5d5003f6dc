-- ===== src/Api/Optimise/Same.antt =====
-- `optimizeSegmented` of api/v1_routing.go keeps the visits of a group.
use mathlib.Core.List.{Perm, perm_middle, append-nil}
use mathlib.Core.List.Perm
use native.Mathlib.Nat.{ℕ_set}
use mop_backend_api.Base.Perms.{All-Perm}
use mop_backend_api.Base.{
  ℕ, zero, suc, ◌-◌, ◌≤◌, ◌≡◌, ◌≢◌, refl, sym, ◌∙◌, ap, subst, Bool, true, false, not, List, [],
  ◌∷◌, ◌++◌, Option, some, ◌==◌, ltb, if◌then◌else◌, All, map, length, take, last?, arith, inl, inr,
  Bool-cases, length-append,
}
use mop_backend_api.Api.Visits.{Visit}
use mop_backend_api.Api.Rows.{ids_of}
use mop_backend_api.Api.Optimise.{
  group_segments, borrow_anchors, by_id, no_visit, solved_segment, optimize_segment,
  optimize_segmented,
}
use mop_backend_api.Api.Optimise.Partition.{concat, group_segments_filled, group_segments-Perm}

ids_of-append : (l r : List Visit) → ids_of (l ++ r) ≡ ids_of l ++ ids_of r
ids_of-append [] r = refl
ids_of-append (v ∷ l) r = ap {B = List ℕ} (λ k. v.id ∷ k) (ids_of-append l r)

-- the map of a list has the ids of the list
by_id_kept : (d : Visit) (l : List Visit) (i : ℕ) → d.id ≡ i → (by_id d l i).id ≡ i
by_id_kept d [] i h = h
by_id_kept d (v ∷ l) i h = elim (Bool-cases (v.id == i)) [
  | inl e ↦
      subst (λ b. (by_id (if b then v else d) l i).id ≡ i) (sym e) (by_id_kept v l i (ground arith))
  | inr e ↦ subst (λ b. (by_id (if b then v else d) l i).id ≡ i) (sym e) (by_id_kept d l i h)
]

by_id_later :
    (d v : Visit) (l : List Visit) (ks : List ℕ)
    → ((e : Visit) → All (λ i. (by_id e l i).id ≡ i) ks)
    → All (λ i. (by_id d (v ∷ l) i).id ≡ i) ks
by_id_later d v l [] h = tt
by_id_later d v l (i ∷ ks) h =
    ((h (if v.id == i then v else d)).0, by_id_later d v l ks (λ e. (h e).1))

by_id_found : (l : List Visit) (d : Visit) → All (λ i. (by_id d l i).id ≡ i) (ids_of l)
by_id_found [] d = tt
by_id_found (v ∷ l) d = (
  subst (λ b. (by_id (if b then v else d) l v.id).id ≡ v.id)
      (let same : true ≡ (v.id == v.id) = ground arith in same) (by_id_kept v l v.id refl),
  by_id_later d v l (ids_of l) (λ e. by_id_found l e),
)

ids_of-map : (f : ℕ → Visit) (ks : List ℕ) → All (λ i. (f i).id ≡ i) ks → ids_of (map f ks) ≡ ks
ids_of-map f [] h = refl
ids_of-map f (i ∷ ks) h = rw (h.0, ids_of-map f ks h.1) refl

All-take : (P : ℕ → Type 0) (n : ℕ) (l : List ℕ) → All P l → All P (take n l)
All-take P zero l h = tt
All-take P (suc n) [] h = tt
All-take P (suc n) (x ∷ l) h = (h.0, All-take P n l h.1)

take_all : (l : List ℕ) → take (length l) l ≡ l
take_all [] = refl
take_all (x ∷ l) = ap {B = List ℕ} (λ r. x ∷ r) (take_all l)

init_last : (x : ℕ) (l : List ℕ) → last? l ≡ some x → l ≡ take (length l - 1) l ++ (x ∷ [])
init_last x [] h = absurd (ground arith)
init_last x (y ∷ []) h = let same : y ≡ x = ground arith in rw same refl
init_last x (y ∷ z ∷ l) h =
    subst (λ k. y ∷ z ∷ l ≡ take k (y ∷ z ∷ l) ++ (x ∷ []))
      (let same : suc (length (z ∷ l) - 1) ≡ length (y ∷ z ∷ l) - 1 = omega arith in same)
      (ap {B = List ℕ} (λ r. y ∷ r) (init_last x (z ∷ l) h))

last?-append : (l : List ℕ) (x : ℕ) → last? (l ++ (x ∷ [])) ≡ some x
last?-append [] x = refl
last?-append (y ∷ []) x = refl
last?-append (y ∷ z ∷ l) x = last?-append (z ∷ l) x

cancel_last : (l r : List ℕ) (x : ℕ) → Perm (l ++ (x ∷ [])) (r ++ (x ∷ [])) → Perm l r
cancel_last l r x p =
    subst (λ u. Perm u r) (append-nil l)
      (subst (Perm (l ++ [])) (append-nil r) (
        Perm.cons_inv
          (Perm.trans (Perm.symm (perm_middle l [])) (Perm.trans p (perm_middle r [])))))

joined :
    (l l' r r' : List Visit)
    → Perm (ids_of l) (ids_of l')
    → Perm (ids_of r) (ids_of r')
    → Perm (ids_of (l ++ r)) (ids_of (l' ++ r'))
joined l l' r r' p q =
    subst (λ u. Perm u (ids_of (l' ++ r'))) (sym (ids_of-append l r))
      (subst (Perm (ids_of l ++ ids_of r)) (sym (ids_of-append l' r')) (Perm.append p q))

-- What `SolveWaypoints` with a fixed start answers for the waypoints of two visits or more, if it
-- does not fail: their ids in another order, and with a fixed end the same last one.
-- the answer for a list is its visits in some order, with a fixed last one in its place
abbrev pub Solves : (List Visit → (fixed_end : Bool) → Option (List ℕ)) → List Visit → Bool → Type 0
Solves solve s fixed_end =
    (ids : List ℕ) × (solve s fixed_end ≡ some ids)
    × Perm ids (ids_of s)
    × (fixed_end ≡ true → last? ids ≡ last? (ids_of s))

-- so it is for each segment of two visits or more
abbrev pub SolvesAll :
    (List Visit → (fixed_end : Bool) → Option (List ℕ)) → List (List Visit × Bool) → Type 0
SolvesAll solve segs = All (λ (s, is_last). 2 ≤ length s → Solves solve s (not is_last)) segs

two_long : (s : List Visit) (a : Visit) → s ≢ [] → 2 ≤ length (s ++ (a ∷ []))
two_long [] a ne = absurd (ne refl)
two_long (v ∷ s) a ne = let l = length-append s (a ∷ []) in omega arith

module _ (solve : List Visit → (fixed_end : Bool) → Option (List ℕ)) where
  -- the ids that are read back from the map
  read_back :
      (s : List Visit) (ids : List ℕ) (n : ℕ)
      → Perm ids (ids_of s)
      → ids_of (map (by_id no_visit s) (take n ids)) ≡ take n ids
  read_back s ids n p = ids_of-map (by_id no_visit s) (take n ids) (
      All-take (λ i. (by_id no_visit s i).id ≡ i) n ids
        (All-Perm (λ i. ℕ_set (by_id no_visit s i).id i) ids (ids_of s) p (by_id_found s no_visit)))

  solve_long :
      (s : List Visit) (is_last : Bool)
      → 2 ≤ length s
      → optimize_segment solve s is_last ≡ solved_segment solve s is_last (solve s (not is_last))
  unfolding optimize_segment
  solve_long s is_last h =
      let long : ltb (length s) 2 ≡ false = ground arith in
      ap (λ b. if b then s else solved_segment solve s is_last (solve s (not is_last))) long

  -- the last segment, which has no anchor
  last_segment :
      (s : List Visit)
      → (2 ≤ length s → Solves solve s false)
      → Perm (ids_of (optimize_segment solve s true)) (ids_of s)
  unfolding optimize_segment solved_segment
  last_segment s solver = elim (Bool-cases (ltb (length s) 2)) [
    | inl e ↦
        subst
          (λ b.
            Perm (ids_of (if b then s else solved_segment solve s true (solve s false))) (ids_of s))
          (sym e) (Perm.refl (ids_of s))
    | inr e ↦
        let (ids, answer, perm, ends) = solver (ground arith) in
        subst (λ u. Perm (ids_of u) (ids_of s))
          (sym (solve_long s true (ground arith) ∙ ap (solved_segment solve s true) answer))
          (subst (λ r. Perm r (ids_of s))
            (sym (
              read_back s ids (length ids - 0) perm
              ∙ ap (λ n. take n ids) (let same : length ids - 0 ≡ length ids = omega arith in same)
              ∙ take_all ids))
            perm)
  ]

  -- a segment with the anchor of the next, which is dropped again
  anchored_segment :
      (s : List Visit) (a : Visit)
      → s ≢ []
      → (2 ≤ length (s ++ (a ∷ [])) → Solves solve (s ++ (a ∷ [])) true)
      → Perm (ids_of (optimize_segment solve (s ++ (a ∷ [])) false)) (ids_of s)
  unfolding solved_segment
  anchored_segment s a ne solver =
      let long = two_long s a ne in
      let (ids, answer, perm, ends) = solver long in
      let whole = ids_of-append s (a ∷ []) in
      let end : last? ids ≡ some a.id = ends refl ∙ ap last? whole ∙ last?-append (ids_of s) a.id in
      let kept = take (length ids - 1) ids in
      let same : Perm kept (ids_of s) = cancel_last kept (ids_of s) a.id (
        subst (λ r. Perm r (ids_of s ++ (a.id ∷ []))) (init_last a.id ids end)
          (subst (Perm ids) whole perm)) in
      subst (λ u. Perm (ids_of u) (ids_of s))
        (sym (
          solve_long (s ++ (a ∷ [])) false long
          ∙ ap (solved_segment solve (s ++ (a ∷ [])) false) answer))
        (subst (λ r. Perm r (ids_of s)) (sym (read_back (s ++ (a ∷ [])) ids (length ids - 1) perm))
          same)

  segments_same :
      (segs : List (List Visit))
      → All (λ s. s ≢ []) segs
      → SolvesAll solve (borrow_anchors segs)
      → Perm (ids_of (optimize_segmented solve (borrow_anchors segs))) (ids_of (concat segs))
  unfolding optimize_segmented
  segments_same [] h k = Perm.refl []
  segments_same (s ∷ []) h k =
      joined (optimize_segment solve s true) s [] [] (last_segment s k.0) (Perm.refl [])
  segments_same (s ∷ [] ∷ ts) h k = absurd (h.1.0 refl)
  segments_same (s ∷ (a ∷ t) ∷ ts) h k =
      joined (optimize_segment solve (s ++ (a ∷ [])) false) s
        (optimize_segmented solve (borrow_anchors ((a ∷ t) ∷ ts))) (concat ((a ∷ t) ∷ ts))
        (anchored_segment s a h.0 k.0) (segments_same ((a ∷ t) ∷ ts) h.1 k.1)

  pub optimized-Perm :
      (sorted : List Visit)
      → SolvesAll solve (borrow_anchors (group_segments sorted))
      → Perm
          (ids_of (optimize_segmented solve (borrow_anchors (group_segments sorted))))
          (ids_of sorted)
  optimized-Perm sorted k =
      Perm.trans (segments_same (group_segments sorted) (group_segments_filled sorted) k)
        (Perm.map (λ v. v.id) (group_segments-Perm sorted))
