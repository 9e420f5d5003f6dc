-- ===== src/Api/Accounts.antt =====
-- The users of models/structs.go as api/v1_user.go changes them, and their table behind an interface.
use Prim.Native.String.{String, len}
use mop_backend_api.Base.{
  ℕ, ◌≡◌, Bool, List, [], ◌∷◌, ◌++◌, Option, none, some, map, ◌==◌, if◌then◌else◌, ◌⊎◌,
}

-- the columns of `models.User`
pub record Account : Type 0 where
  pub id : ℕ
  pub initials : String
  pub name : String
  pub username : String
  pub password : String
  pub rights : String
  pub email : String
  pub phone : String

-- `models.User{}`, and the user of a request without one
abbrev pub no_account : Account
no_account = record {
  id = 0;
  initials = "";
  name = "";
  username = "";
  password = "";
  rights = "";
  email = "";
  phone = "";
}

abbrev pub acting_user : Option Account → Account
acting_user none = no_account
acting_user (some u) = u

-- the body of `CreateUser`
pub record NewUser : Type 0 where
  pub initials : String
  pub full_name : String
  pub username : String
  pub password : String
  pub email : String
  pub rights : String

-- the body of `Patch`
pub record UserPatch : Type 0 where
  pub initials : String
  pub username : String
  pub name : String
  pub rights : String
  pub email : String
  pub phone : String

-- an entry of `internal.LogUserCreate`, `LogUserPatch` and `LogUserDelete`
pub data Action : Type 0 where
  create_user_entry patch_user_entry delete_user_entry : Action

-- `models.ActivityLog`, with the users that its texts print
pub record Activity : Type 0 where
  pub acting : ℕ
  pub target : ℕ
  pub action : Action
  pub prev_val : Option Account
  pub current_val : Option Account

abbrev pub has_key : ℕ → Account → Bool
has_key i u = u.id == i

-- the row of a new user: its key, and the default of a column that is empty
abbrev pub stored : (id : ℕ) → Account → Account
stored id u = record u { id = id; rights = if len u.rights == 0 then "user" else u.rights }

abbrev pub rewrite_account : ℕ → (Account → Account) → List Account → List Account
rewrite_account i f = map (λ u. if has_key i u then f u else u)

abbrev pub without_account : ℕ → List Account → List Account
without_account i [] = []
without_account i (u ∷ us) =
    let rest = without_account i us in if has_key i u then rest else u ∷ rest

abbrev pub AmongUsers : Account → List Account → Type 0
AmongUsers u [] = ⊥
AmongUsers u (v ∷ vs) = (u ≡ v) ⊎ AmongUsers u vs

-- What the handlers use of gorm. A `none` is an error of the database, a missing row of `first` one as
-- well. The insert of a log entry is tried, and its error dropped.
pub record UserTable (S : Type 0) : Type 0 where
  pub users : S → List Account
  pub first : ℕ → S → Option Account
  pub first_by_name : String → S → Option Account
  -- the key of the new row
  pub create : Account → S → Option (ℕ × S)
  pub update : ℕ → (Account → Account) → S → Option S
  pub delete : ℕ → S → Option S
  pub note : Activity → S → S
  -- the failure reason of the attempt of a login, and that it was successful
  pub mark : (reason : String) → (successful : Bool) → S → S
  pub first_row :
      (i : ℕ) (s : S) (u : Account) → first i s ≡ some u → AmongUsers u (users s) × (u.id ≡ i)
  pub first_by_name_row :
      (n : String) (s : S) (u : Account)
      → first_by_name n s ≡ some u
      → AmongUsers u (users s) × (u.username ≡ n)
  pub create_rows :
      (u : Account) (s : S) (i : ℕ) (s' : S)
      → create u s ≡ some (i, s')
      → users s' ≡ users s ++ (stored i u ∷ [])
  pub update_rows :
      (i : ℕ) (f : Account → Account) (s s' : S)
      → update i f s ≡ some s'
      → users s' ≡ rewrite_account i f (users s)
  pub delete_rows :
      (i : ℕ) (s s' : S) → delete i s ≡ some s' → users s' ≡ without_account i (users s)
  pub note_rows : (e : Activity) (s : S) → users (note e s) ≡ users s
  pub mark_rows : (r : String) (b : Bool) (s : S) → users (mark r b s) ≡ users s
