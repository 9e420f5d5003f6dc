-- ===== src/Tests/Names.antt =====
-- The names of two debtors through `sanitizeAndDeduplicateNames`.
use mop_backend_api.Base.{
  ℕ, ◌≡◌, refl, Bool, List, [], ◌∷◌, map, ◌==◌, ltb, leb, if◌then◌else◌, ◌+◌, Distinct, All,
}
use mop_backend_api.Api.Planning.{Text, trim_space}
use mop_backend_api.Api.Names.{is_invalid, cleaned, all_parts, sanitize_and_deduplicate_names}
use mop_backend_api.Api.Names.Laws.{IsClean, IsCovered, sanitize_and_deduplicate_names_lem}

-- on ASCII texts, split at each 43
abbrev blank : ℕ → Bool
blank c = c == 32

abbrev lower : Text → Text
lower s = map (λ c. if leb 65 c then if ltb c 91 then c + 32 else c else c) s

abbrev prefixed : ℕ → List Text → List Text
prefixed c [] = (c ∷ []) ∷ []
prefixed c (s ∷ ss) = (c ∷ s) ∷ ss

abbrev at_plus : Text → List Text
at_plus [] = [] ∷ []
at_plus (c ∷ cs) = let rest = at_plus cs in if c == 43 then [] ∷ rest else prefixed c rest

-- "Ab + c*d" and " aB+?"
abbrev raw : List Text
raw = (65 ∷ 98 ∷ 32 ∷ 43 ∷ 32 ∷ 99 ∷ 42 ∷ 100 ∷ []) ∷ (32 ∷ 97 ∷ 66 ∷ 43 ∷ 63 ∷ []) ∷ []

left_names :
    sanitize_and_deduplicate_names blank lower at_plus raw ≡ (65 ∷ 98 ∷ []) ∷ (99 ∷ 100 ∷ []) ∷ []
unfolding sanitize_and_deduplicate_names cleaned trim_space is_invalid
left_names = refl

sanitize_and_deduplicate_names_lem_example :
    Distinct (map lower (sanitize_and_deduplicate_names blank lower at_plus raw))
    × All IsClean (sanitize_and_deduplicate_names blank lower at_plus raw)
    × All
        (IsCovered blank lower [] (sanitize_and_deduplicate_names blank lower at_plus raw))
        (all_parts at_plus raw)
sanitize_and_deduplicate_names_lem_example =
    sanitize_and_deduplicate_names_lem blank lower at_plus raw
