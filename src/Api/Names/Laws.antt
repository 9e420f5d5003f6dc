-- ===== src/Api/Names/Laws.antt =====
-- `sanitizeAndDeduplicateNames` of api/v1_visitReview.go: which names are left.
use mathlib.Core.List.{reverse, reverse_perm}
use mathlib.Core.Bool.{Bool-set}
use mop_backend_api.Base.Perms.{All-Perm}
use mop_backend_api.Base.{
  ℕ, ◌≡◌, ◌≢◌, refl, sym, ◌∙◌, subst, Bool, true, false, ◌||◌, List, [], ◌∷◌, All, Distinct, map,
  arith, inl, inr, Bool-cases,
}
use mop_backend_api.Api.Planning.{Text, same_text, trim_left, trim_space}
use mop_backend_api.Api.Planning.Laws.{same_text_refl}
use mop_backend_api.Api.Names.{
  is_invalid, without_invalid, is_empty, is_seen, cleaned, names_of_parts, all_parts,
  sanitize_and_deduplicate_names,
}

||-false : (a b : Bool) → (a || b) ≡ false → (a ≡ false) × (b ≡ false)
||-false a b h = ground arith

||-true : (a b : Bool) → (b ≡ true) → (a || b) ≡ true
||-true a b h = ground arith

or_last : (s a b : Bool) → ((s || a) || b) ≡ true → (a || (s || b)) ≡ true
or_last s a b h = ground arith

or_second : (a b c : Bool) → (a || b) ≡ true → a ≡ false → (b || c) ≡ true
or_second a b c h k = ground arith

first_seen : (k : Text) (seen : List Text) → is_seen (k ∷ seen) k ≡ true
first_seen k seen = rw (same_text_refl k) refl

without_invalid_lem : (s : Text) → All (λ c. is_invalid c ≡ false) (without_invalid s)
without_invalid_lem [] = tt
without_invalid_lem (c ∷ s) = elim (Bool-cases (is_invalid c)) [
  | inl e ↦ rw e (without_invalid_lem s)
  | inr e ↦ rw e (e, without_invalid_lem s)
]

module _ (is_space : ℕ → Bool) where
  trim_left_lem : (P : ℕ → Type 0) (s : Text) → All P s → All P (trim_left is_space s)
  trim_left_lem P [] h = tt
  trim_left_lem P (c ∷ s) h = elim (Bool-cases (is_space c)) [
    | inl e ↦ rw e (trim_left_lem P s h.1)
    | inr e ↦ rw e h
  ]

  abbrev AllLegal : Text → Type 0
  AllLegal = All (λ c. is_invalid c ≡ false)

  reverse-AllLegal : (s : Text) → AllLegal s → AllLegal (reverse s)
  reverse-AllLegal s h =
      All-Perm {P = λ c. is_invalid c ≡ false} (λ c. Bool-set (is_invalid c) false) (reverse s) s
        (reverse_perm s) h

  trimmed-AllLegal : (s : Text) → AllLegal s → AllLegal (trim_left is_space s)
  trimmed-AllLegal s h = trim_left_lem (λ c. is_invalid c ≡ false) s h

  cleaned-AllLegal : (part : Text) → AllLegal (cleaned is_space part)
  unfolding cleaned trim_space
  cleaned-AllLegal part =
      let start = trimmed-AllLegal (without_invalid part) (without_invalid_lem part) in
      let turned = reverse-AllLegal (trim_left is_space (without_invalid part)) start in
      reverse-AllLegal (trim_left is_space (reverse (trim_left is_space (without_invalid part))))
        (trimmed-AllLegal (reverse (trim_left is_space (without_invalid part))) turned)

-- a name of a file: not empty, and without the characters that are not allowed
abbrev pub IsClean : Text → Type 0
IsClean n = (is_empty n ≡ false) × All (λ c. is_invalid c ≡ false) n

module _ (is_space : ℕ → Bool) (to_lower : Text → Text) where
  abbrev names : List Text → List Text → List Text
  names seen parts = names_of_parts is_space to_lower seen parts

  -- a part is left out: it is empty or its key has been seen
  abbrev skipped : List Text → Text → Bool
  skipped seen p = is_empty (cleaned is_space p) || is_seen seen (to_lower (cleaned is_space p))

  -- a key that has been seen does not come again
  names-unseen :
      (seen parts : List Text) (k : Text)
      → is_seen seen k ≡ true
      → All (λ n. n ≢ k) (map to_lower (names seen parts))
  names-unseen seen [] k h = tt
  names-unseen seen (p ∷ ps) k h = elim (Bool-cases (skipped seen p)) [
    | inl e ↦ rw e (names-unseen seen ps k h)
    | inr e ↦ rw e (
      (λ q.
          let unseen =
            (||-false (is_empty (cleaned is_space p)) (is_seen seen (to_lower (cleaned is_space p)))
              e).1 in
          let seen_too : is_seen seen (to_lower (cleaned is_space p)) ≡ true =
            subst (λ j. is_seen seen j ≡ true) (sym q) h in
          absurd (let clash : true ≡ false = sym seen_too ∙ unseen in ground arith)),
      names-unseen (to_lower (cleaned is_space p) ∷ seen) ps k
          (||-true (same_text (to_lower (cleaned is_space p)) k) (is_seen seen k) h),
    )
  ]

  names-Distinct : (seen parts : List Text) → Distinct (map to_lower (names seen parts))
  names-Distinct seen [] = tt
  names-Distinct seen (p ∷ ps) = elim (Bool-cases (skipped seen p)) [
    | inl e ↦ rw e (names-Distinct seen ps)
    | inr e ↦ rw e (
      names-unseen (to_lower (cleaned is_space p) ∷ seen) ps (to_lower (cleaned is_space p))
          (first_seen (to_lower (cleaned is_space p)) seen),
      names-Distinct (to_lower (cleaned is_space p) ∷ seen) ps,
    )
  ]

  names-IsClean : (seen parts : List Text) → All IsClean (names seen parts)
  names-IsClean seen [] = tt
  names-IsClean seen (p ∷ ps) = elim (Bool-cases (skipped seen p)) [
    | inl e ↦ rw e (names-IsClean seen ps)
    | inr e ↦ rw e (
      (
        (||-false (is_empty (cleaned is_space p)) (is_seen seen (to_lower (cleaned is_space p)))
            e).0,
        cleaned-AllLegal is_space p,
      ),
      names-IsClean (to_lower (cleaned is_space p) ∷ seen) ps,
    )
  ]

  -- a part that is not empty has a name with its key
  abbrev pub IsCovered : (seen out : List Text) → Text → Type 0
  IsCovered seen out p =
      is_empty (cleaned is_space p) ≡ false
      → (is_seen seen (to_lower (cleaned is_space p))
          || is_seen (map to_lower out) (to_lower (cleaned is_space p)))
        ≡ true

  IsCovered-later :
      (n : Text) (seen out parts : List Text)
      → All (IsCovered (to_lower n ∷ seen) out) parts
      → All (IsCovered seen (n ∷ out)) parts
  IsCovered-later n seen out [] h = tt
  IsCovered-later n seen out (p ∷ ps) h = (
    λ filled.
        or_last (same_text (to_lower n) (to_lower (cleaned is_space p)))
          (is_seen seen (to_lower (cleaned is_space p)))
          (is_seen (map to_lower out) (to_lower (cleaned is_space p))) (h.0 filled),
    IsCovered-later n seen out ps h.1,
  )

  names-skipped :
      (seen : List Text) (p : Text) (ps : List Text)
      → skipped seen p ≡ true
      → names seen ps ≡ names seen (p ∷ ps)
  names-skipped seen p ps e = rw e refl

  names_added :
      (seen : List Text) (p : Text) (ps : List Text)
      → skipped seen p ≡ false
      → cleaned is_space p ∷ names (to_lower (cleaned is_space p) ∷ seen) ps ≡ names seen (p ∷ ps)
  names_added seen p ps e = rw e refl

  names-IsCovered : (seen parts : List Text) → All (IsCovered seen (names seen parts)) parts
  names-IsCovered seen [] = tt
  names-IsCovered seen (p ∷ ps) = elim (Bool-cases (skipped seen p)) [
    | inl e ↦
        subst (λ out. All (IsCovered seen out) (p ∷ ps)) (names-skipped seen p ps e)
          (
            (λ filled.
                or_second (is_empty (cleaned is_space p))
                  (is_seen seen (to_lower (cleaned is_space p)))
                  (is_seen (map to_lower (names seen ps)) (to_lower (cleaned is_space p))) e
                  filled),
            names-IsCovered seen ps,
          )
    | inr e ↦
        let k = to_lower (cleaned is_space p) in
        let rest = names (k ∷ seen) ps in
        subst (λ out. All (IsCovered seen out) (p ∷ ps)) (names_added seen p ps e)
          (
            (λ filled.
                ||-true (is_seen seen k) (is_seen (k ∷ map to_lower rest) k)
                  (first_seen k (map to_lower rest))),
            IsCovered-later (cleaned is_space p) seen rest ps (names-IsCovered (k ∷ seen) ps),
          )
  ]

  -- The names differ in their lower case, none is empty or has one of the characters that are not
  -- allowed, and each part of a raw name that is not empty after the cleaning has a name with its
  -- lower case.
  pub sanitize_and_deduplicate_names_lem :
      (split : Text → List Text) (raw_names : List Text)
      → Distinct (map to_lower (sanitize_and_deduplicate_names is_space to_lower split raw_names))
        × All IsClean (sanitize_and_deduplicate_names is_space to_lower split raw_names)
        × All
            (IsCovered [] (sanitize_and_deduplicate_names is_space to_lower split raw_names))
            (all_parts split raw_names)
  unfolding sanitize_and_deduplicate_names
  sanitize_and_deduplicate_names_lem split raw_names = (
    names-Distinct [] (all_parts split raw_names),
    names-IsClean [] (all_parts split raw_names),
    names-IsCovered [] (all_parts split raw_names),
  )
