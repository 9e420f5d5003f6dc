-- ===== src/Api/Names.antt =====
-- `sanitizeAndDeduplicateNames` of api/v1_visitReview.go. The regular expression that splits a name is a
-- parameter, as are the tables of unicode.
pub mod Laws
use mop_backend_api.Base.{ℕ, Bool, true, false, ◌||◌, List, [], ◌∷◌, ◌++◌, ◌==◌, if◌then◌else◌}
use mop_backend_api.Api.Planning.{Text, same_text, trim_space}

-- the characters \ / * ? : " < > |
unfoldable pub is_invalid : ℕ → Bool
is_invalid c =
    c == 92 || c == 47 || c == 42 || c == 63 || c == 58 || c == 34 || c == 60 || c == 62 || c == 124

-- `invalidCharsRegex.ReplaceAllString(part, "")`
abbrev pub without_invalid : Text → Text
without_invalid [] = []
without_invalid (c ∷ cs) = let rest = without_invalid cs in if is_invalid c then rest else c ∷ rest

abbrev pub is_empty : Text → Bool
is_empty [] = true
is_empty (c ∷ cs) = false

-- `seen[key]`
abbrev pub is_seen : List Text → Text → Bool
is_seen [] k = false
is_seen (s ∷ seen) k = same_text s k || is_seen seen k

unfoldable pub cleaned : (is_space : ℕ → Bool) → Text → Text
cleaned is_space part = trim_space is_space (without_invalid part)

abbrev pub all_parts : (split : Text → List Text) → List Text → List Text
all_parts split [] = []
all_parts split (raw ∷ raws) = split raw ++ all_parts split raws

module _ (is_space : ℕ → Bool) (to_lower : Text → Text) where
  -- the names that are appended for the parts, after those whose keys have been seen
  abbrev pub names_of_parts : (seen : List Text) → List Text → List Text
  names_of_parts seen [] = []
  names_of_parts seen (p ∷ ps) =
      let skipped = names_of_parts seen ps in
      let added = names_of_parts (to_lower (cleaned is_space p) ∷ seen) ps in
      if is_empty (cleaned is_space p) || is_seen seen (to_lower (cleaned is_space p))
      then skipped
      else cleaned is_space p ∷ added

  unfoldable pub sanitize_and_deduplicate_names : (split : Text → List Text) → List Text → List Text
  sanitize_and_deduplicate_names split raw_names = names_of_parts [] (all_parts split raw_names)
