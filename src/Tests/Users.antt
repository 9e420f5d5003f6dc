-- ===== src/Tests/Users.antt =====
-- The handlers of users over a list of accounts.
use Prim.Native.String.{String}
use text.Mathlib.Text.{◌==◌}
use text.Mathlib.TextEquality.{eq_iff}
use mop_backend_api.Base.{
  ℕ, ◌≡◌, ◌≢◌, refl, sym, ap, subst, List, [], ◌∷◌, ◌++◌, Option, none, some, ◌∙◌, if◌then◌else◌,
  arith, inl, inr, Bool-cases,
}
use mop_backend_api.Api.Accounts.{
  Account, NewUser, UserPatch, UserTable, no_account, has_key, stored, rewrite_account,
  without_account, AmongUsers,
}
use mop_backend_api.Api.Users.{
  Crypto, create_user, user_hashed, user_inserted, patch_user, change_password, password_found,
  password_hashed, user_updated, login, user_created, no_content, refused, logged_in,
}
use mop_backend_api.Api.Users.Create.{CreateOutcome, create_user_lem}
use mop_backend_api.Api.Users.Privileges.{PatchOutcome, patch_user_lem}
use mop_backend_api.Api.Users.Passwords.{
  PasswordOutcome, change_password_lem, login-change_password,
}

wrapped_user : {A : Type 0} {a b : A} → some a ≡ some b → a ≡ b
wrapped_user e = ground arith

abbrev first_account : ℕ → List Account → Option Account
first_account i [] = none
first_account i (u ∷ us) = let rest = first_account i us in if has_key i u then some u else rest

abbrev named_account : String → List Account → Option Account
named_account n [] = none
named_account n (u ∷ us) = let rest = named_account n us in if u.username == n then some u else rest

first_account-found :
    (i : ℕ) (l : List Account) (u : Account)
    → first_account i l ≡ some u
    → AmongUsers u l × (u.id ≡ i)
first_account-found i [] u h = absurd (ground arith)
first_account-found i (v ∷ l) u h = elim (Bool-cases (has_key i v)) [
  | inl e ↦
      let same : v ≡ u =
        wrapped_user (sym (ap (λ b. if b then some v else first_account i l) e) ∙ h) in
      (inl (sym same), subst (λ w. w.id ≡ i) same (ground arith))
  | inr e ↦
      let (a, k) =
        first_account-found i l u (sym (ap (λ b. if b then some v else first_account i l) e) ∙ h) in
      (inr a, k)
]

named_account-found :
    (n : String) (l : List Account) (u : Account)
    → named_account n l ≡ some u
    → AmongUsers u l × (u.username ≡ n)
named_account-found n [] u h = absurd (ground arith)
named_account-found n (v ∷ l) u h = elim (Bool-cases (v.username == n)) [
  | inl e ↦
      let same : v ≡ u =
        wrapped_user (sym (ap (λ b. if b then some v else named_account n l) e) ∙ h) in
      (inl (sym same), subst (λ w. w.username ≡ n) same ((eq_iff v.username n).0 e))
  | inr e ↦
      let (a, k) =
        named_account-found n l u (sym (ap (λ b. if b then some v else named_account n l) e) ∙ h) in
      (inr a, k)
]

abbrev inserted : Account → List Account → Option (ℕ × List Account)
inserted u s = some (9, s ++ (stored 9 u ∷ []))

created_rows :
    (u : Account) (s : List Account) (i : ℕ) (s' : List Account)
    → inserted u s ≡ some (i, s')
    → s' ≡ s ++ (stored i u ∷ [])
created_rows u s i s' e =
    let same = wrapped_user e in sym (ap (λ p. p.1) same) ∙ ap (λ p. s ++ (stored p.0 u ∷ [])) same

abbrev accounts : UserTable (List Account)
accounts = record {
  users = λ s. s;
  first = first_account;
  first_by_name = named_account;
  create = inserted;
  update = λ i f s. some (rewrite_account i f s);
  delete = λ i s. some (without_account i s);
  note = λ e s. s;
  mark = λ r b s. s;
  first_row = λ i s u e. first_account-found i s u e;
  first_by_name_row = λ n s u e. named_account-found n s u e;
  create_rows = created_rows;
  update_rows = λ i f s s' e. sym (wrapped_user e);
  delete_rows = λ i s s' e. sym (wrapped_user e);
  note_rows = λ e s. refl;
  mark_rows = λ r b s. refl;
}

-- a hash that is the password, and one token
abbrev plain_crypto : Crypto
plain_crypto = record {
  size = λ p. 9;
  generate_hash = λ p. some p;
  compare_hash = λ h p. h == p;
  sign = λ sub exp. some "token";
  generate_compare = λ p h e. (eq_iff h p).1 (sym (wrapped_user e));
}

abbrev worker : (id : ℕ) → (username rights : String) → Account
worker id username rights = record no_account {
  id = id;
  username = username;
  password = "old";
  rights = rights;
}

abbrev two_accounts : List Account
two_accounts = worker 3 "ida" "office" ∷ worker 4 "bo" "admin" ∷ []

abbrev wanted : (rights : String) → NewUser
wanted rights = record {
  initials = "EV";
  full_name = "Eva";
  username = "eva";
  password = "secret-one";
  email = "";
  rights = rights;
}

-- an office worker may not create an auditor
office_creates_nobody :
    (create_user accounts plain_crypto
      (some (worker 3 "ida" "office"))
      (some (wanted "auditor"))
      two_accounts).0
    ≡ refused
unfolding create_user user_hashed
office_creates_nobody = refl

-- and an administrator may create a developer
admin_creates_developer :
    (create_user accounts plain_crypto
      (some (worker 4 "bo" "admin"))
      (some (wanted "developer"))
      two_accounts).0
    ≡ user_created
unfolding create_user user_hashed user_inserted
admin_creates_developer = refl

abbrev after_change : List Account
after_change = record (worker 3 "ida" "office") { password = "new" } ∷ worker 4 "bo" "admin" ∷ []

ida_changes :
    change_password accounts plain_crypto
      (some (worker 3 "ida" "office"))
      3
      (some "new")
      two_accounts
    ≡ (no_content, after_change)
unfolding change_password password_found password_hashed user_updated
ida_changes = refl

create_user_lem_example :
    CreateOutcome accounts plain_crypto
      (some (worker 4 "bo" "admin"))
      (some (wanted "user"))
      two_accounts
      (create_user accounts plain_crypto
        (some (worker 4 "bo" "admin"))
        (some (wanted "user"))
        two_accounts)
create_user_lem_example =
    create_user_lem accounts plain_crypto (some (worker 4 "bo" "admin")) (some (wanted "user"))
      two_accounts

abbrev renamed : UserPatch
renamed = record {
  initials = "IK";
  username = "ida";
  name = "Ida K";
  rights = "developer";
  email = "";
  phone = "";
}

patch_user_lem_example :
    PatchOutcome accounts plain_crypto
      (some (worker 4 "bo" "admin"))
      3
      (some renamed)
      two_accounts
      (patch_user accounts plain_crypto
        (some (worker 4 "bo" "admin"))
        3
        (some renamed)
        two_accounts)
patch_user_lem_example =
    patch_user_lem accounts plain_crypto (some (worker 4 "bo" "admin")) 3 (some renamed)
      two_accounts

change_password_lem_example :
    PasswordOutcome accounts plain_crypto
      (some (worker 4 "bo" "admin"))
      3
      (some "new")
      two_accounts
      (change_password accounts plain_crypto
        (some (worker 4 "bo" "admin"))
        3
        (some "new")
        two_accounts)
change_password_lem_example =
    change_password_lem accounts plain_crypto (some (worker 4 "bo" "admin")) 3 (some "new")
      two_accounts

three_ne_zero : (let three : ℕ = 3 in three ≢ 0)
three_ne_zero e = absurd (ground arith)

login-change_password_example :
    (login accounts plain_crypto 100 "ida" "new" after_change).0 ≡ logged_in "token"
login-change_password_example =
    login-change_password accounts plain_crypto (some (worker 3 "ida" "office")) 3 100 "new" "ida"
      "token" (record (worker 3 "ida" "office") { password = "new" }) two_accounts after_change
      ida_changes refl refl three_ne_zero refl
