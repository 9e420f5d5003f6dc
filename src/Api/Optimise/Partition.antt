-- ===== src/Api/Optimise/Partition.antt =====
-- `groupSegments` of api/v1_routing.go splits the visits of a group.
use mathlib.Core.List.{Perm, perm_middle}
use mathlib.Core.List.Perm
use mathlib.Core.HLevel.{¬_prop}
use mop_backend_api.Base.{
  ℕ, ◌≡◌, ◌≢◌, refl, sym, ◌∙◌, ap, subst, true, false, List, [], ◌∷◌, ◌++◌, ◌==◌, All, Distinct,
  map, arith, inl, inr, Bool-cases,
}
use mop_backend_api.Base.Perms.{Distinct-Perm, All-Perm}
use mop_backend_api.Api.Visits.{Visit, select}
use mop_backend_api.Api.Rows.{cons_ne, select_yes, select_no}
use mop_backend_api.Api.Groups.{holds}
use mop_backend_api.Api.Optimise.{index_of, first_met, sort_indices, of_index, group_segments}
use mop_backend_api.Api.Optimise.Indices.{
  absent-holds, first_met-holds, first_met-Distinct, first_met-All, sort_indices-Perm,
  sort_indices-holds,
}

abbrev pub concat : List (List Visit) → List Visit
concat [] = []
concat (s ∷ ss) = s ++ concat ss

-- the visits of some indices
abbrev with_index : List ℕ → List Visit → List Visit
with_index is = select (λ v. holds is (index_of v))

Perm-of_eqs :
    {a a' b b' c c' : List Visit} → a ≡ a' → b ≡ b' → c ≡ c' → Perm (a' ++ b') c' → Perm (a ++ b) c
Perm-of_eqs p q r h = rw (p, q, r) h

-- one index more
one_index :
    (i : ℕ) (is : List ℕ) (l : List Visit)
    → holds is i ≡ false
    → Perm (of_index l i ++ with_index is l) (with_index (i ∷ is) l)
one_index i is [] h = Perm.refl []
one_index i is (v ∷ l) h = elim (Bool-cases (index_of v == i)) [
  | inl e ↦
      let same : index_of v ≡ i = ground arith in
      let out : holds is (index_of v) ≡ false = ap (holds is) same ∙ h in
      Perm-of_eqs (select_yes (λ u. index_of u == i) v l e)
        (select_no (λ u. holds is (index_of u)) v l out)
        (select_yes (λ u. holds (i ∷ is) (index_of u)) v l (ground arith))
        (Perm.cons v (one_index i is l h))
  | inr e ↦ elim (Bool-cases (holds is (index_of v))) [
    | inl k ↦
        Perm-of_eqs (select_no (λ u. index_of u == i) v l e)
          (select_yes (λ u. holds is (index_of u)) v l k)
          (select_yes (λ u. holds (i ∷ is) (index_of u)) v l (ground arith))
          (Perm.trans (perm_middle (of_index l i) (with_index is l))
            (Perm.cons v (one_index i is l h)))
    | inr k ↦
        Perm-of_eqs (select_no (λ u. index_of u == i) v l e)
          (select_no (λ u. holds is (index_of u)) v l k)
          (select_no (λ u. holds (i ∷ is) (index_of u)) v l (ground arith)) (one_index i is l h)
  ]
]

with_no_index : (l : List Visit) → with_index [] l ≡ []
with_no_index [] = refl
with_no_index (v ∷ l) = with_no_index l

with_every_index :
    (is : List ℕ) (l : List Visit) → All (λ v. holds is (index_of v) ≡ true) l → with_index is l ≡ l
with_every_index is [] h = refl
with_every_index is (v ∷ l) h =
    select_yes (λ u. holds is (index_of u)) v l h.0
    ∙ ap {B = List Visit} (λ r. v ∷ r) (with_every_index is l h.1)

partition :
    (is : List ℕ) (l : List Visit)
    → Distinct is
    → Perm (concat (map (of_index l) is)) (with_index is l)
partition [] l d = subst (Perm []) (sym (with_no_index l)) (Perm.refl [])
partition (i ∷ is) l d =
    Perm.trans (Perm.append_left (of_index l i) (partition is l d.1))
      (one_index i is l (absent-holds i is d.0))

All-held :
    (is js : List ℕ) (l : List Visit)
    → ((x : ℕ) → holds is x ≡ true → holds js x ≡ true)
    → All (λ v. holds is (index_of v) ≡ true) l
    → All (λ v. holds js (index_of v) ≡ true) l
All-held is js [] f h = tt
All-held is js (v ∷ l) f h = (f (index_of v) h.0, All-held is js l f h.1)

-- The segments of `groupSegments` together are the visits, each as often as it was there.
pub group_segments-Perm : (sorted : List Visit) → Perm (concat (group_segments sorted)) sorted
unfolding group_segments
group_segments-Perm l =
    let order = sort_indices (first_met [] l) in
    let apart =
      Distinct-Perm order (first_met [] l) (sort_indices-Perm (first_met [] l))
        (first_met-Distinct [] l tt) in
    let all =
      All-held (first_met [] l) order l (λ x. sort_indices-holds x (first_met [] l))
        (first_met-holds [] l) in
    subst (Perm (concat (map (of_index l) order))) (with_every_index order l all)
      (partition order l apart)

-- a row more leaves the visits of an index
of_index_more : (i : ℕ) (v : Visit) (l : List Visit) → of_index l i ≢ [] → of_index (v ∷ l) i ≢ []
of_index_more i v l ne h = elim (Bool-cases (index_of v == i)) [
  | inl e ↦ cons_ne (sym (select_yes (λ u. index_of u == i) v l e) ∙ h)
  | inr e ↦ ne (sym (select_no (λ u. index_of u == i) v l e) ∙ h)
]

of_index_all_more :
    (v : Visit) (l m : List Visit)
    → All (λ u. of_index l (index_of u) ≢ []) m
    → All (λ u. of_index (v ∷ l) (index_of u) ≢ []) m
of_index_all_more v l [] h = tt
of_index_all_more v l (u ∷ m) h = (of_index_more (index_of u) v l h.0, of_index_all_more v l m h.1)

own_index : (l : List Visit) → All (λ v. of_index l (index_of v) ≢ []) l
own_index [] = tt
own_index (v ∷ l) = (
  (λ h. cons_ne (
      sym (
        select_yes (λ u. index_of u == index_of v) v l
          (let same : (index_of v == index_of v) ≡ true = ground arith in same))
      ∙ h)),
  of_index_all_more v l l (own_index l),
)

All_map :
    (l : List Visit) (is : List ℕ)
    → All (λ i. of_index l i ≢ []) is
    → All (λ s. s ≢ []) (map (of_index l) is)
All_map l [] h = tt
All_map l (i ∷ is) h = (h.0, All_map l is h.1)

-- No segment is empty.
pub group_segments_filled : (sorted : List Visit) → All (λ s. s ≢ []) (group_segments sorted)
unfolding group_segments
group_segments_filled l = All_map l (sort_indices (first_met [] l)) (
    All-Perm (λ i. ¬_prop) (sort_indices (first_met [] l)) (first_met [] l)
      (sort_indices-Perm (first_met [] l))
      (first_met-All (λ i. of_index l i ≢ []) [] l tt (own_index l)))
