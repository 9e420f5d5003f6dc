-- ===== src/Api/Planning.antt =====
-- `mergeByGeocode` of api/v1_visitCreationPlanning.go, on the visits of a request. A text is the list of
-- its code points; what is a space and the lower case of a text come from the tables of unicode.
pub mod Laws
use mathlib.Core.List.{reverse}
use mop_backend_api.Base.{
  ℕ, Bool, true, false, ◌&&◌, List, [], ◌∷◌, ◌++◌, Option, ◌==◌, if◌then◌else◌,
}
use mop_backend_api.Base.Int.{ℤ, pos, negsuc}

abbrev pub Text : Type 0
Text = List ℕ

pub data Debtor : Type 0 where
  debtor : (debitor_id : ℤ) (navn : Text) → Debtor

-- less the dates that gorm keeps
pub record VisitType : Type 0 where
  pub id : ℕ
  pub text : Text
  pub description : Text

pub record VisitData : Type 0 where
  pub sagsnr : ℤ
  pub adresse : Text
  pub postnr : Text
  pub bynavn : Text
  pub noter : Option Text
  pub debtors : List Debtor
  pub visit_type : VisitType
  pub klient_ref : Text
  pub klientnavn : Text
  pub klientnr : ℤ
  pub sagvedr : Text
  pub frist_dato : Text
  pub latitude : Text
  pub longitude : Text
  pub geocoding_address : Text

abbrev pub same_number : ℤ → ℤ → Bool
same_number (pos m) (pos n) = m == n
same_number (pos m) (negsuc n) = false
same_number (negsuc m) (pos n) = false
same_number (negsuc m) (negsuc n) = m == n

abbrev pub same_text : Text → Text → Bool
same_text [] [] = true
same_text [] (y ∷ ys) = false
same_text (x ∷ xs) [] = false
same_text (x ∷ xs) (y ∷ ys) = (x == y) && same_text xs ys

-- The two parts of the key, which the text `%d_%s` determines: a number has no `_`.
pub data Key : Type 0 where
  key : (sagsnr : ℤ) (address : Text) → Key

abbrev pub same_key : Key → Key → Bool
same_key (key m s) (key n t) = same_number m n && same_text s t

-- `existing.Debtors = append(existing.Debtors, v.Debtors...)`
abbrev pub with_debtors : VisitData → VisitData → VisitData
with_debtors e v = record e { debtors = e.debtors ++ v.debtors }

abbrev pub join : List Text → Text
join [] = []
join (s ∷ []) = s
join (s ∷ t ∷ ts) = s ++ 32 ∷ join (t ∷ ts)

module _ (is_space : ℕ → Bool) where
  abbrev pub trim_left : Text → Text
  trim_left [] = []
  trim_left (c ∷ cs) = let rest = trim_left cs in if is_space c then rest else c ∷ cs

  unfoldable pub trim_space : Text → Text
  trim_space s = reverse (trim_left (reverse (trim_left s)))

  -- the fields of a text after `word`, which has begun but not ended
  abbrev fields_after : (word : Text) → Text → List Text
  fields_after [] [] = []
  fields_after (w ∷ ws) [] = (w ∷ ws) ∷ []
  fields_after [] (c ∷ cs) =
      let rest = fields_after [] cs in
      let grown = fields_after (c ∷ []) cs in if is_space c then rest else grown
  fields_after (w ∷ ws) (c ∷ cs) =
      let rest = fields_after [] cs in
      let grown = fields_after (w ∷ ws ++ (c ∷ [])) cs in
      if is_space c then (w ∷ ws) ∷ rest else grown

  unfoldable pub fields : Text → List Text
  fields s = fields_after [] s

module _ (is_space : ℕ → Bool) (to_lower : Text → Text) where
  unfoldable pub normalize : Text → Text
  normalize s = join (fields is_space (to_lower (trim_space is_space s)))

  unfoldable pub key_of : VisitData → Key
  key_of v = key v.sagsnr (normalize v.geocoding_address)

  -- The visits merged so far, in the order of `order`. A merged visit keeps the case number and the
  -- address of its first one, so that `merged` finds it by its own key.
  abbrev pub merge_one : List VisitData → VisitData → List VisitData
  merge_one [] v = v ∷ []
  merge_one (e ∷ es) v =
      let rest = merge_one es v in
      if same_key (key_of e) (key_of v) then with_debtors e v ∷ es else e ∷ rest

  abbrev pub merge_all : List VisitData → List VisitData → List VisitData
  merge_all merged [] = merged
  merge_all merged (v ∷ vs) = merge_all (merge_one merged v) vs

  unfoldable pub merge_by_geocode : List VisitData → List VisitData
  merge_by_geocode visits = merge_all [] visits
