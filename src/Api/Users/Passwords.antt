-- ===== src/Api/Users/Passwords.antt =====
-- Whose password `ChangePassword` of api/v1_user.go changes, and that `Login` accepts the new one.
use Prim.Native.String.{String}
use text.Mathlib.Text.{◌==◌}
use text.Mathlib.TextEquality.{eq_iff}
use mop_backend_api.Base.{
  ℕ, ◌+◌, ◌≡◌, ◌≢◌, refl, sym, ◌∙◌, ap, subst, Bool, true, false, not, ◌&&◌, List, [], ◌∷◌, Option,
  none, some, if◌then◌else◌, arith, ◌⊎◌, inl, inr, Bool-cases, Option-cases,
}
use mop_backend_api.Api.Accounts.{
  Account, acting_user, has_key, UserTable, rewrite_account, AmongUsers,
}
use mop_backend_api.Api.Users.{
  Crypto, UserReply, no_content, bad_payload, refused, with_password, user_updated, password_hashed,
  password_found, change_password, logged_in, login, login_found, token_made,
}

some_eq : {x y : String} → some x ≡ some y → x ≡ y
some_eq e = ground arith

one_holds : (a b : Bool) → (not a && not b) ≡ false → (a ≡ true) ⊎ (b ≡ true)
one_holds true b h = inl refl
one_holds false true h = inr refl
one_holds false false h = absurd (ground arith)

module _ {S : Type 0} (t : UserTable S) (k : Crypto) where
  pub record IsChanged (acting : Account) (id : ℕ) (password : String) (s s' : S) : Type 0 where
    pub hash : String
    pub hashed : k.compare_hash hash password ≡ true
    pub permitted : (acting.id ≡ id) ⊎ (acting.rights ≡ "developer")
    pub rows : t.users s' ≡ rewrite_account id (with_password hash) (t.users s)

  pub PasswordOutcome :
      Option Account → (id : ℕ) → (password : Option String) → S → UserReply × S → Type 0
  PasswordOutcome user id password s (r, s') =
      ((r ≢ no_content) × (t.users s' ≡ t.users s))
      ⊎ ((p : String) × (password ≡ some p)
          × (r ≡ no_content)
          × IsChanged (acting_user user) id p s s')

  allowed :
      (acting : Account) (id : ℕ)
      → (not (has_key id acting) && not (acting.rights == "developer")) ≡ false
      → (acting.id ≡ id) ⊎ (acting.rights ≡ "developer")
  allowed acting id h = elim (one_holds (has_key id acting) (acting.rights == "developer") h) [
    | inl e ↦ inl (ground arith)
    | inr d ↦ inr ((eq_iff acting.rights "developer").0 d)
  ]

  hash_outcome :
      (user : Option Account) (id : ℕ) (password : String) (u : Account) (s : S) (o : Option String)
      → k.generate_hash password ≡ o
      → u.id ≡ id
      → ((acting_user user).id ≡ id) ⊎ ((acting_user user).rights ≡ "developer")
      → PasswordOutcome user id (some password) s (password_hashed t k (acting_user user) u o s)
  unfolding PasswordOutcome password_hashed user_updated
  hash_outcome user id password u s none e own p = inl ((λ q. absurd (ground arith)), refl)
  hash_outcome user id password u s (some hash) e own p =
      elim (Option-cases (t.update u.id (with_password hash) s)) [
        | inl none_left ↦
            subst
              (λ o. PasswordOutcome user id (some password) s (
                user_updated t k (acting_user user) u (with_password hash u) bad_payload no_content
                  s o))
              (sym none_left) (inl ((λ q. absurd (ground arith)), refl))
        | inr (s', written) ↦
            subst
              (λ o. PasswordOutcome user id (some password) s (
                user_updated t k (acting_user user) u (with_password hash u) bad_payload no_content
                  s o))
              (sym written)
              (inr (
                password,
                refl,
                refl,
                record {
                  hash = hash;
                  hashed = k.generate_compare password hash e;
                  permitted = p;
                  rows =
                      t.note_rows _ s'
                      ∙ t.update_rows u.id (with_password hash) s s' written
                      ∙ ap (λ i. rewrite_account i (with_password hash) (t.users s)) own;
                },
              ))
      ]

  account_outcome :
      (user : Option Account) (id : ℕ) (password : String) (s : S) (o : Option Account)
      → t.first id s ≡ o
      → PasswordOutcome user id
          (some password)
          s
          (password_found t k (acting_user user) password s o)
  unfolding PasswordOutcome password_found
  account_outcome user id password s none e = inl ((λ q. absurd (ground arith)), refl)
  account_outcome user id password s (some u) e =
      let own = (t.first_row id s u e).1 in
      elim (Bool-cases
        (not (has_key u.id (acting_user user)) && not ((acting_user user).rights == "developer"))) [
          | inl denied ↦
              subst
                (λ b. PasswordOutcome user id (some password) s (
                  if b
                  then (refused, s)
                  else password_hashed t k (acting_user user) u (k.generate_hash password) s))
                (sym denied) (inl ((λ q. absurd (ground arith)), refl))
          | inr free ↦
              subst
                (λ b. PasswordOutcome user id (some password) s (
                  if b
                  then (refused, s)
                  else password_hashed t k (acting_user user) u (k.generate_hash password) s))
                (sym free)
                (hash_outcome user id password u s _ refl own (
                  subst
                    (λ i. ((acting_user user).id ≡ i) ⊎ ((acting_user user).rights ≡ "developer"))
                    own (allowed (acting_user user) u.id free)))
        ]

  -- `ChangePassword` either does not answer that it has changed the password and leaves the users as
  -- they were, or the acting user is the user of the path or a developer, and then the password of
  -- exactly that user is a hash that accepts the given one.
  pub change_password_lem :
      (user : Option Account) (id : ℕ) (password : Option String) (s : S)
      → PasswordOutcome user id password s (change_password t k user id password s)
  unfolding PasswordOutcome change_password
  change_password_lem user id none s = inl ((λ q. absurd (ground arith)), refl)
  change_password_lem user id (some p) s = account_outcome user id p s (t.first id s) refl

  -- the row that was rewritten
  rewritten_password :
      (id : ℕ) (hash : String) (u : Account) (l : List Account)
      → AmongUsers u (rewrite_account id (with_password hash) l)
      → u.id ≡ id
      → u.password ≡ hash
  rewritten_password id hash u [] a e = absurd a
  rewritten_password id hash u (v ∷ l) (inl same) e = elim (Bool-cases (has_key id v)) [
    | inl at_row ↦
        ap (λ w. w.password) (same ∙ ap (λ b. if b then with_password hash v else v) at_row)
    | inr off_row ↦
        (let other = same ∙ ap (λ b. if b then with_password hash v else v) off_row in
          let key = sym (ap (λ w. w.id) other) ∙ e in absurd (ground arith))
  ]
  rewritten_password id hash u (v ∷ l) (inr a) e = rewritten_password id hash u l a e

  login_accepted :
      (now : ℕ) (password : String) (u : Account) (token : String) (s : S)
      → k.compare_hash u.password password ≡ true
      → u.id ≢ 0
      → k.sign u.id (now + 43200) ≡ some token
      → (login_found t k now password (some u) s).0 ≡ logged_in token
  unfolding login_found token_made
  login_accepted now password u token s c ne signed =
      let other : has_key 0 u ≡ false = ground arith in rw (other, c, signed) refl

  -- After a `ChangePassword` that has succeeded, `Login` with the new password and the name of that
  -- user, whose key is not 0, answers with the token that is made for the user and 12 hours, if the
  -- table finds the user by the name and the token can be made.
  pub login-change_password :
      (user : Option Account) (id now : ℕ) (password username token : String) (u : Account)
      (s s' : S)
      → change_password t k user id (some password) s ≡ (no_content, s')
      → t.first_by_name username (t.mark "User does not exist" false s') ≡ some u
      → u.id ≡ id
      → id ≢ 0
      → k.sign id (now + 43200) ≡ some token
      → (login t k now username password s').0 ≡ logged_in token
  unfolding login PasswordOutcome
  login-change_password user id now password username token u s s' changed found own ne signed =
      let outcome =
        subst (PasswordOutcome user id (some password) s) changed
          (change_password_lem user id (some password) s) in
      elim outcome [
        | inl (failed, same) ↦ absurd (failed refl)
        | inr (p, given, done, c) ↦
            let s₁ = t.mark "User does not exist" false s' in
            let row = (t.first_by_name_row username s₁ u found).0 in
            let stored_rows = t.mark_rows "User does not exist" false s' ∙ c.rows in
            let same =
              rewritten_password id c.hash u (t.users s) (subst (AmongUsers u) stored_rows row)
                own in
            let accepts : k.compare_hash u.password password ≡ true =
              ap (λ h. k.compare_hash h password) same
              ∙ ap (k.compare_hash c.hash) (some_eq given)
              ∙ c.hashed in
            subst (λ o. (login_found t k now password o s₁).0 ≡ logged_in token) (sym found)
              (login_accepted now password u token s₁ accepts (λ z. ne (sym own ∙ z))
                (ap (λ i. k.sign i (now + 43200)) own ∙ signed))
      ]
