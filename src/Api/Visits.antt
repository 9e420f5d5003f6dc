-- ===== src/Api/Visits.antt =====
-- The rows of models/structs.go that planning changes, and the database behind an interface.
use mop_backend_api.Base.{
  ℕ, ◌≡◌, Bool, true, false, List, [], ◌∷◌, Option, none, some, map, if◌then◌else◌, All, ◌==◌, ◌++◌,
  ◌≤◌, ◌⊎◌, length,
}
use mathlib.Core.List.{Perm}

pub record Visit : Type 0 where
  pub id : ℕ
  pub user_id : ℕ
  pub visit_date : ℕ
  pub visit_time : ℕ
  pub status_id : ℕ
  pub group_id : Option ℕ
  pub segment_index : Option ℕ
  pub stop_nr : Option ℕ

-- the columns that `UpdateVisitValue` is called for, and those that its switch names
pub data Field : Type 0 where
  group_id user_id visit_date visit_time stop_nr segment_index : Field

-- `models.VisitLog`; an empty `previous` is the empty string, an empty
-- `new_val` the text "NULL"
pub record VisitLog : Type 0 where
  pub visit_id : ℕ
  pub previous : Option ℕ
  pub new_val : Option ℕ
  pub val_type : Field
  pub changed_by : ℕ

-- `models.VisitStatusLog`
pub record VisitStatusLog : Type 0 where
  pub visit_id : ℕ
  pub old_status_id : ℕ
  pub new_status_id : ℕ
  pub changed_by_id : ℕ

unfoldable pub deref_uint : Option ℕ → ℕ
deref_uint none = 0
deref_uint (some n) = n

abbrev pub in_group : ℕ → Visit → Bool
in_group g v = elim v.group_id [ none ↦ false | some h ↦ h == g ]

-- the rows that a test holds of
abbrev pub select : (Visit → Bool) → List Visit → List Visit
select p [] = []
select p (v ∷ vs) = if p v then v ∷ select p vs else select p vs

abbrev pub rewrite : (Visit → Bool) → (Visit → Visit) → List Visit → List Visit
rewrite p f = map (λ v. if p v then f v else v)

-- the visit is one of the list
abbrev pub Among : Visit → List Visit → Type 0
Among v [] = ⊥
Among v (w ∷ ws) = (v ≡ w) ⊎ Among v ws

-- the stop of the first is not after that of the second
abbrev pub Rises : Visit → Visit → Type 0
Rises v w = deref_uint v.stop_nr ≤ deref_uint w.stop_nr

abbrev pub Falls : Visit → Visit → Type 0
Falls v w = deref_uint w.stop_nr ≤ deref_uint v.stop_nr

abbrev pub GroupFalls : Visit → Visit → Type 0
GroupFalls v w = deref_uint w.group_id ≤ deref_uint v.group_id

-- what `First` answers by an order: a row before all others, or no row where there is none
abbrev pub IsFirst : (Visit → Visit → Type 0) → List Visit → Option Visit → Type 0
IsFirst before l none = l ≡ []
IsFirst before l (some v) = Among v l × All (before v) l

abbrev pub has_stop : Visit → Bool
has_stop v = elim v.stop_nr [ none ↦ false | some s ↦ true ]

abbrev pub has_group : Visit → Bool
has_group v = elim v.group_id [ none ↦ false | some g ↦ true ]

-- What the handlers use of gorm, in a transaction over the tables `S`. A `none` is an error of the
-- database. A query reads the rows, an update rewrites those that its condition holds of, and
-- neither a log entry nor a stored route changes a visit.
pub record Database (S : Type 0) : Type 0 where
  pub visits : S → List Visit
  pub routes : S → List ℕ
  -- the entries of `visit_logs`, the oldest first
  pub logs : S → List VisitLog
  pub status_logs : S → List VisitStatusLog
  pub find : (Visit → Bool) → S → Option (List Visit)
  -- `Order("stop_nr ASC").First` and `Order("stop_nr DESC").First`
  pub first_asc : (Visit → Bool) → S → Option (Option Visit)
  pub first_desc : (Visit → Bool) → S → Option (Option Visit)
  -- `Order("stop_nr ASC").Find`
  pub find_asc : (Visit → Bool) → S → Option (List Visit)
  -- `Where("group_id IS NOT NULL").Order("group_id DESC").First`
  pub first_group : S → Option (Option Visit)
  pub count : (Visit → Bool) → S → Option ℕ
  pub update : (Visit → Bool) → (Visit → Visit) → S → Option S
  pub create_log : VisitLog → S → Option S
  pub create_status_log : VisitStatusLog → S → Option S
  pub delete_route : ℕ → S → Option S
  -- `sort.Slice` by `stop_nr`
  pub sort : List Visit → List Visit
  pub find_rows :
      (p : Visit → Bool) (s : S) (l : List Visit) → find p s ≡ some l → l ≡ select p (visits s)
  pub update_rows :
      (p : Visit → Bool) (f : Visit → Visit) (s s' : S)
      → update p f s ≡ some s'
      → visits s' ≡ rewrite p f (visits s)
  pub update_routes :
      (p : Visit → Bool) (f : Visit → Visit) (s s' : S)
      → update p f s ≡ some s'
      → routes s' ≡ routes s
  pub log_rows : (e : VisitLog) (s s' : S) → create_log e s ≡ some s' → visits s' ≡ visits s
  pub log_entry :
      (e : VisitLog) (s s' : S) → create_log e s ≡ some s' → logs s' ≡ logs s ++ (e ∷ [])
  pub update_logs :
      (p : Visit → Bool) (f : Visit → Visit) (s s' : S) → update p f s ≡ some s' → logs s' ≡ logs s
  pub status_log_entry :
      (e : VisitStatusLog) (s s' : S)
      → create_status_log e s ≡ some s'
      → status_logs s' ≡ status_logs s ++ (e ∷ [])
  pub status_log_rows :
      (e : VisitStatusLog) (s s' : S) → create_status_log e s ≡ some s' → visits s' ≡ visits s
  pub update_status_logs :
      (p : Visit → Bool) (f : Visit → Visit) (s s' : S)
      → update p f s ≡ some s'
      → status_logs s' ≡ status_logs s
  pub route_rows : (g : ℕ) (s s' : S) → delete_route g s ≡ some s' → visits s' ≡ visits s
  pub route_gone :
      (g : ℕ) (s s' : S) → delete_route g s ≡ some s' → All (λ h. (h == g) ≡ false) (routes s')
  -- NULL is not ordered with the numbers as `Rises` has it, hence the condition
  pub first_asc_rows :
      (p : Visit → Bool) (s : S) (o : Option Visit)
      → first_asc p s ≡ some o
      → All (λ v. has_stop v ≡ true) (select p (visits s))
      → IsFirst Rises (select p (visits s)) o
  pub first_desc_rows :
      (p : Visit → Bool) (s : S) (o : Option Visit)
      → first_desc p s ≡ some o
      → All (λ v. has_stop v ≡ true) (select p (visits s))
      → IsFirst Falls (select p (visits s)) o
  pub find_asc_rows :
      (p : Visit → Bool) (s : S) (l : List Visit)
      → find_asc p s ≡ some l
      → Perm l (select p (visits s))
  pub first_group_rows :
      (s : S) (o : Option Visit)
      → first_group s ≡ some o
      → IsFirst GroupFalls (select has_group (visits s)) o
  pub count_rows :
      (p : Visit → Bool) (s : S) (n : ℕ) → count p s ≡ some n → n ≡ length (select p (visits s))
  pub sort_perm : (l : List Visit) → Perm (sort l) l
