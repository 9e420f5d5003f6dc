-- ===== src/Tests/Planning.antt =====
-- The visits of a request through `mergeByGeocode`, as in api/v1_visitCreationPlanning_test.go.
use mop_backend_api.Base.{
  ℕ, ◌≡◌, refl, Bool, List, [], ◌∷◌, none, map, ◌==◌, ltb, leb, if◌then◌else◌, ◌+◌, Distinct,
}
use mop_backend_api.Base.Int.{pos}
use mop_backend_api.Api.Planning.{
  Text, Debtor, debtor, VisitData, Key, key_of, trim_space, fields, normalize, merge_by_geocode,
}
use mop_backend_api.Api.Planning.Laws.{debtors_of, merge_by_geocode_lem}

-- on ASCII texts
abbrev blank : ℕ → Bool
blank c = c == 32

abbrev lower : Text → Text
lower s = map (λ c. if leb 65 c then if ltb c 91 then c + 32 else c else c) s

abbrev requested : (number debitor : ℕ) → Text → VisitData
requested number debitor address = record {
  sagsnr = pos number;
  adresse = [];
  postnr = [];
  bynavn = [];
  noter = none;
  debtors = debtor (pos debitor) [] ∷ [];
  visit_type = record { id = 1; text = []; description = [] };
  klient_ref = [];
  klientnavn = [];
  klientnr = pos 7;
  sagvedr = [];
  frist_dato = [];
  latitude = [];
  longitude = [];
  geocoding_address = address;
}

-- "Ab 1" and " ab  1", with another place between them
abbrev request : List VisitData
request =
    requested 1 11 (65 ∷ 98 ∷ 32 ∷ 49 ∷ [])
    ∷ requested 1 12 (65 ∷ 98 ∷ 50 ∷ [])
    ∷ requested 1 13 (32 ∷ 97 ∷ 98 ∷ 32 ∷ 32 ∷ 49 ∷ [])
    ∷ []

abbrev ids_of_debtors : VisitData → List Debtor
ids_of_debtors v = v.debtors

merged_request :
    map ids_of_debtors (merge_by_geocode blank lower request)
    ≡ (debtor (pos 11) [] ∷ debtor (pos 13) [] ∷ []) ∷ (debtor (pos 12) [] ∷ []) ∷ []
unfolding merge_by_geocode key_of normalize fields trim_space
merged_request = refl

merge_by_geocode_lem_example :
    Distinct (map (key_of blank lower) (merge_by_geocode blank lower request))
    × ((k : Key)
        → debtors_of blank lower k (merge_by_geocode blank lower request)
          ≡ debtors_of blank lower k request)
merge_by_geocode_lem_example = merge_by_geocode_lem blank lower request
