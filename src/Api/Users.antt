-- ===== src/Api/Users.antt =====
-- api/v1_user.go: the handlers that create, change and delete users, and the login. bcrypt and the
-- signing of tokens are parameters. The user id of a path is taken to be a number.
pub mod Create
pub mod Privileges
pub mod Passwords
use Prim.Native.String.{String}
use text.Mathlib.Text.{◌==◌}
use mop_backend_api.Base.{
  ℕ, ◌+◌, ◌≡◌, Bool, true, false, not, ◌&&◌, Option, none, some, ltb, if◌then◌else◌,
}
use mop_backend_api.Api.Accounts.{
  Account, NewUser, UserPatch, Activity, no_account, acting_user, has_key, UserTable, stored,
  create_user_entry, patch_user_entry, delete_user_entry,
}

-- The library functions that the handlers call. `len` is the length of a text in bytes, `sign` the
-- token for a user id and a time of expiry, each failing as documented.
pub record Crypto : Type 0 where
  pub size : String → ℕ
  pub generate_hash : String → Option String
  pub compare_hash : (hash password : String) → Bool
  pub sign : (sub exp : ℕ) → Option String
  pub generate_compare :
      (password hash : String)
      → generate_hash password ≡ some hash
      → compare_hash hash password ≡ true

pub data UserReply : Type 0 where
  bad_payload refused missing_user failed_update : UserReply
  user_created user_patched no_content : UserReply
  invalid_credentials no_token : UserReply
  logged_in : (token : String) → UserReply

-- the check of `CreateUser` on the rights of the two users
abbrev pub may_create : (acting new : String) → Bool
may_create acting new =
    if acting == "office"
    then new == "auditor"
    else (if acting == "admin" then not (new == "developer") else acting == "developer")

abbrev pub account_of : NewUser → (hash : String) → Account
account_of body hash = record no_account {
  initials = body.initials;
  name = body.full_name;
  username = body.username;
  email = body.email;
  rights = body.rights;
  password = hash;
}

-- the columns that `Patch` updates
abbrev pub patched : (acting : Account) → UserPatch → Account → Account
patched acting body u = record u {
  email = body.email;
  phone = body.phone;
  name = body.name;
  initials = body.initials;
  username = body.username;
  rights =
      if acting.rights == "developer" && not (body.rights == "") then body.rights else u.rights;
}

abbrev pub with_password : String → Account → Account
with_password hash u = record u { password = hash }

module _ {S : Type 0} (t : UserTable S) (k : Crypto) where
  -- `CreateUser` from the answer of the insert on
  unfoldable pub user_inserted : (acting new : Account) → S → Option (ℕ × S) → UserReply × S
  user_inserted acting new s none = (bad_payload, s)
  user_inserted acting new s (some (i, s')) = (
    user_created,
    t.note
        (record {
          acting = acting.id;
          target = i;
          action = create_user_entry;
          prev_val = none;
          current_val = some (stored i new);
        })
        s',
  )

  -- from the hash on; `new` are the rights of the user that is still empty
  unfoldable pub user_hashed :
      (acting : Account) → NewUser → (new : String) → Option String → S → UserReply × S
  user_hashed acting body new none s = (bad_payload, s)
  user_hashed acting body new (some hash) s =
      if may_create acting.rights new
      then user_inserted acting (account_of body hash) s (t.create (account_of body hash) s)
      else (refused, s)

  -- The body is `none` where it cannot be bound, or comes in another form.
  unfoldable pub create_user : Option Account → Option NewUser → S → UserReply × S
  create_user user none s = (bad_payload, s)
  create_user user (some body) s =
      if ltb (k.size body.password) 8
      then (bad_payload, s)
      else user_hashed (acting_user user) body no_account.rights (k.generate_hash body.password) s

  -- `Patch` and `ChangePassword` from the answer of the update on
  unfoldable pub user_updated :
      (acting old new : Account) → (failure success : UserReply) → S → Option S → UserReply × S
  user_updated acting old new failure success s none = (failure, s)
  user_updated acting old new failure success s (some s') = (
    success,
    t.note
        (record {
          acting = acting.id;
          target = old.id;
          action = patch_user_entry;
          prev_val = some old;
          current_val = some new;
        })
        s',
  )

  unfoldable pub patch_found : (acting : Account) → UserPatch → S → Option Account → UserReply × S
  patch_found acting body s none = (missing_user, s)
  patch_found acting body s (some u) =
      user_updated acting u (patched acting body u) failed_update user_patched s
        (t.update u.id (patched acting body) s)

  unfoldable pub patch_user : Option Account → (id : ℕ) → Option UserPatch → S → UserReply × S
  patch_user user id none s = (bad_payload, s)
  patch_user user id (some body) s = patch_found (acting_user user) body s (t.first id s)

  -- `Find` leaves the user empty where there is none
  unfoldable pub delete_user : Option Account → (id : ℕ) → S → UserReply × S
  delete_user user id s = elim (t.delete id s) [
    | none ↦ (failed_update, s)
    | some s' ↦ (
      no_content,
      t.note
          (record {
            acting = (acting_user user).id;
            target = (acting_user (t.first id s)).id;
            action = delete_user_entry;
            prev_val = some (acting_user (t.first id s));
            current_val = none;
          })
          s',
    )
  ]

  unfoldable pub password_hashed : (acting u : Account) → Option String → S → UserReply × S
  password_hashed acting u none s = (bad_payload, s)
  password_hashed acting u (some hash) s =
      user_updated acting u (with_password hash u) bad_payload no_content s
        (t.update u.id (with_password hash) s)

  unfoldable pub password_found :
      (acting : Account) → (password : String) → S → Option Account → UserReply × S
  password_found acting password s none = (failed_update, s)
  password_found acting password s (some u) =
      if not (has_key u.id acting) && not (acting.rights == "developer")
      then (refused, s)
      else password_hashed acting u (k.generate_hash password) s

  unfoldable pub change_password :
      Option Account → (id : ℕ) → (password : Option String) → S → UserReply × S
  change_password user id none s = (bad_payload, s)
  change_password user id (some password) s =
      password_found (acting_user user) password s (t.first id s)

  -- `Login` from the token on
  unfoldable pub token_made : Option String → S → UserReply × S
  token_made none s = (no_token, s)
  token_made (some token) s = (logged_in token, t.mark "None" true s)

  unfoldable pub login_found : (now : ℕ) → (password : String) → Option Account → S → UserReply × S
  login_found now password none s = (invalid_credentials, s)
  login_found now password (some u) s =
      if has_key 0 u
      then (invalid_credentials, s)
      else (let s₁ = t.mark "Incorrect password" false s in
          if k.compare_hash u.password password
          then token_made (k.sign u.id (now + 43200)) (t.mark "failure to create token" false s₁)
          else (invalid_credentials, s₁))

  unfoldable pub login : (now : ℕ) → (username password : String) → S → UserReply × S
  login now username password s =
      let s₁ = t.mark "User does not exist" false s in
      login_found now password (t.first_by_name username s₁) s₁
