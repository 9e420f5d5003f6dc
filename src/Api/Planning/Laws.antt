-- ===== src/Api/Planning/Laws.antt =====
-- `mergeByGeocode` of api/v1_visitCreationPlanning.go: what becomes of the debtors.
use mathlib.Core.List.{append_assoc, append-nil}
use mop_backend_api.Base.{
  ℕ, ◌≡◌, ◌≢◌, refl, sym, ◌∙◌, ap, subst, Bool, true, false, ◌&&◌, List, [], ◌∷◌, ◌++◌,
  if◌then◌else◌, All, Distinct, map, arith, inl, inr, Bool-cases, ◌==◌,
}
use mop_backend_api.Base.Int.{ℤ, pos}
use mop_backend_api.Api.Planning.{
  Text, Debtor, VisitData, Key, key, same_number, same_text, same_key, with_debtors, key_of,
  merge_one, merge_all, merge_by_geocode,
}

same_number_sound : (m n : ℤ) → same_number m n ≡ true → m ≡ n
same_number_sound m n h = ground arith

same_number_refl : (m : ℤ) → same_number m m ≡ true
same_number_refl m = ground arith

&&-true : (a b : Bool) → (a && b) ≡ true → (a ≡ true) × (b ≡ true)
&&-true a b h = ground arith

pub same_text_sound : (s t : Text) → same_text s t ≡ true → s ≡ t
same_text_sound [] [] h = refl
same_text_sound [] (y ∷ ys) h = absurd (ground arith)
same_text_sound (x ∷ xs) [] h = absurd (ground arith)
same_text_sound (x ∷ xs) (y ∷ ys) h =
    let (one, others) = &&-true (x == y) (same_text xs ys) h in
    let same : x ≡ y = ground arith in rw (same, same_text_sound xs ys others) refl

pub same_text_refl : (s : Text) → same_text s s ≡ true
same_text_refl [] = refl
same_text_refl (x ∷ xs) =
    let same : (x == x) ≡ true = ground arith in rw (same, same_text_refl xs) refl

same_key_sound : (k l : Key) → same_key k l ≡ true → k ≡ l
same_key_sound (key m s) (key n t) h =
    let (one, other) = &&-true (same_number m n) (same_text s t) h in
    rw (same_number_sound m n one, same_text_sound s t other) refl

same_key_refl : (k : Key) → same_key k k ≡ true
same_key_refl (key m s) = rw (same_number_refl m, same_text_refl s) refl

different_keys : (k l : Key) → same_key k l ≡ false → k ≢ l
different_keys k l h e =
    let same : same_key k l ≡ true = subst (λ j. same_key k j ≡ true) e (same_key_refl k) in
    ground arith

module _ (is_space : ℕ → Bool) (to_lower : Text → Text) where
  -- the keys of visits
  abbrev keys : List VisitData → List Key
  keys l = map (key_of is_space to_lower) l

  -- the debtors of the visits with a key, in the order of the visits
  unfoldable pub debtors_of : Key → List VisitData → List Debtor
  debtors_of k [] = []
  debtors_of k (v ∷ vs) =
      (if same_key (key_of is_space to_lower v) k then v.debtors else []) ++ debtors_of k vs

  debtors_of_absent :
      (k : Key) (l : List VisitData) → All (λ j. j ≢ k) (keys l) → debtors_of k l ≡ []
  unfolding debtors_of
  debtors_of_absent k [] h = refl
  debtors_of_absent k (v ∷ l) h = elim (Bool-cases (same_key (key_of is_space to_lower v) k)) [
    | inl e ↦ absurd (h.0 (same_key_sound (key_of is_space to_lower v) k e))
    | inr e ↦ rw (e, debtors_of_absent k l h.1) refl
  ]

  -- the debtors that a visit adds for a key
  abbrev own : Key → VisitData → List Debtor
  own k v = if same_key (key_of is_space to_lower v) k then v.debtors else []

  merged_key :
      (e v : VisitData) → key_of is_space to_lower (with_debtors e v) ≡ key_of is_space to_lower e
  unfolding key_of
  merged_key e v = refl

  -- a visit that is merged into the only one with its key
  debtors_of-merged :
      (k : Key) (e v : VisitData) (es : List VisitData)
      → same_key (key_of is_space to_lower e) (key_of is_space to_lower v) ≡ true
      → All (λ j. j ≢ key_of is_space to_lower e) (keys es)
      → debtors_of k (with_debtors e v ∷ es) ≡ debtors_of k (e ∷ es) ++ own k v
  unfolding debtors_of
  debtors_of-merged k e v es s h =
      let q : key_of is_space to_lower e ≡ key_of is_space to_lower v =
        same_key_sound (key_of is_space to_lower e) (key_of is_space to_lower v) s in
      elim (Bool-cases (same_key (key_of is_space to_lower e) k)) [
        | inl t ↦
            let same : key_of is_space to_lower e ≡ k =
              same_key_sound (key_of is_space to_lower e) k t in
            let none_left : debtors_of k es ≡ [] =
              debtors_of_absent k es (subst (λ j. All (λ i. i ≢ j) (keys es)) same h) in
            rw
              (
                merged_key e v,
                sym q,
                t,
                none_left,
                append-nil (e.debtors ++ v.debtors),
                append-nil e.debtors,
              )
              refl
        | inr f ↦ rw (merged_key e v, sym q, f, append-nil (debtors_of k es)) refl
      ]

  merge_one-keys :
      (v : VisitData) (es : List VisitData) (k : Key)
      → All (λ j. j ≢ k) (keys es)
      → key_of is_space to_lower v ≢ k
      → All (λ j. j ≢ k) (keys (merge_one is_space to_lower es v))
  merge_one-keys v [] k h n = (n, tt)
  merge_one-keys v (e ∷ es) k h n =
      elim (Bool-cases (same_key (key_of is_space to_lower e) (key_of is_space to_lower v))) [
        | inl s ↦ rw s (λ q. h.0 (sym (merged_key e v) ∙ q), h.1)
        | inr s ↦ rw s (h.0, merge_one-keys v es k h.1 n)
      ]

  merge_one-Distinct :
      (es : List VisitData) (v : VisitData)
      → Distinct (keys es)
      → Distinct (keys (merge_one is_space to_lower es v))
  merge_one-Distinct [] v d = (tt, tt)
  merge_one-Distinct (e ∷ es) v d =
      elim (Bool-cases (same_key (key_of is_space to_lower e) (key_of is_space to_lower v))) [
        | inl s ↦ rw s (subst (λ j. All (λ i. i ≢ j) (keys es)) (sym (merged_key e v)) d.0, d.1)
        | inr s ↦ rw s (
          merge_one-keys v es (key_of is_space to_lower e) d.0 (λ q.
              different_keys (key_of is_space to_lower e) (key_of is_space to_lower v) s (sym q)),
          merge_one-Distinct es v d.1,
        )
      ]

  debtors_of-merge_one :
      (k : Key) (es : List VisitData) (v : VisitData)
      → Distinct (keys es)
      → debtors_of k (merge_one is_space to_lower es v) ≡ debtors_of k es ++ own k v
  unfolding debtors_of
  debtors_of-merge_one k [] v d = append-nil (own k v)
  debtors_of-merge_one k (e ∷ es) v d =
      elim (Bool-cases (same_key (key_of is_space to_lower e) (key_of is_space to_lower v))) [
        | inl s ↦ rw s (debtors_of-merged k e v es s d.0)
        | inr s ↦
            rw (s, debtors_of-merge_one k es v d.1)
              (sym (append_assoc (own k e) (debtors_of k es) (own k v)))
      ]

  debtors_of-merge_all :
      (k : Key) (es vs : List VisitData)
      → Distinct (keys es)
      → (debtors_of k (merge_all is_space to_lower es vs) ≡ debtors_of k es ++ debtors_of k vs)
        × Distinct (keys (merge_all is_space to_lower es vs))
  unfolding debtors_of
  debtors_of-merge_all k es [] d = (sym (append-nil (debtors_of k es)), d)
  debtors_of-merge_all k es (v ∷ vs) d =
      let (rest, distinct) =
        debtors_of-merge_all k (merge_one is_space to_lower es v) vs (merge_one-Distinct es v d) in
      (
        rest
            ∙ ap (λ l. l ++ debtors_of k vs) (debtors_of-merge_one k es v d)
            ∙ append_assoc (debtors_of k es) (own k v) (debtors_of k vs),
        distinct,
      )

  -- No two visits of `mergeByGeocode` have the same case number and normalised address, and the debtors
  -- with a case number and address are those of the request, in its order.
  pub merge_by_geocode_lem :
      (visits : List VisitData)
      → Distinct (keys (merge_by_geocode is_space to_lower visits))
        × ((k : Key)
            → debtors_of k (merge_by_geocode is_space to_lower visits) ≡ debtors_of k visits)
  unfolding merge_by_geocode debtors_of
  merge_by_geocode_lem visits = (
    (debtors_of-merge_all (key (pos 0) []) [] visits tt).1,
    λ k. (debtors_of-merge_all k [] visits tt).0,
  )
