-- ===== src/Api/Users/Create.antt =====
-- Whom `CreateUser` of api/v1_user.go creates, and for whom.
use Prim.Native.String.{String}
use text.Mathlib.Text.{◌==◌}
use text.Mathlib.TextEquality.{eq_iff}
use mop_backend_api.Base.{
  ℕ, ◌≤◌, ◌≡◌, ◌≢◌, refl, sym, ◌∙◌, subst, Bool, true, false, not, [], ◌∷◌, ◌++◌, Option, none,
  some, ltb, if◌then◌else◌, arith, ◌⊎◌, inl, inr, Bool-cases,
}
use mop_backend_api.Api.Accounts.{Account, NewUser, acting_user, UserTable, stored}
use mop_backend_api.Api.Users.{
  Crypto, UserReply, user_created, bad_payload, refused, may_create, account_of, user_inserted,
  user_hashed, create_user,
}

false_ne_true : false ≢ true
false_ne_true e = absurd (ground arith)

-- the check for an empty user, by its comparisons
abbrev chosen : (office admin developer : Bool) → Bool
chosen office admin developer =
    if office then "" == "auditor" else (if admin then not ("" == "developer") else developer)

-- Since the rights that are checked are those of the user that is still empty, an office worker may
-- create nobody.
may_create_empty :
    (acting : String) → may_create acting "" ≡ true → (acting ≡ "admin") ⊎ (acting ≡ "developer")
may_create_empty acting h = elim (Bool-cases (acting == "office")) [
  | inl e ↦
      let none_allowed : ("" == "auditor") ≡ true =
        subst (λ b. chosen b (acting == "admin") (acting == "developer") ≡ true) e h in
      absurd (false_ne_true none_allowed)
  | inr e ↦
      let other = subst (λ b. chosen b (acting == "admin") (acting == "developer") ≡ true) e h in
      elim (Bool-cases (acting == "admin")) [
        | inl k ↦ inl ((eq_iff acting "admin").0 k)
        | inr k ↦ inr (
            (eq_iff acting "developer").0
              (subst (λ b. chosen false b (acting == "developer") ≡ true) k other))
      ]
]

module _ {S : Type 0} (t : UserTable S) (k : Crypto) where
  pub record IsCreated (acting : Account) (body : NewUser) (s s' : S) : Type 0 where
    pub id : ℕ
    pub hash : String
    pub permitted : (acting.rights ≡ "admin") ⊎ (acting.rights ≡ "developer")
    pub long : 8 ≤ k.size body.password
    pub hashed : k.compare_hash hash body.password ≡ true
    pub rows : t.users s' ≡ t.users s ++ (stored id (account_of body hash) ∷ [])

  pub CreateOutcome : Option Account → Option NewUser → S → UserReply × S → Type 0
  CreateOutcome user body s (r, s') =
      ((r ≢ user_created) × (t.users s' ≡ t.users s))
      ⊎ ((b : NewUser) × (body ≡ some b) × (r ≡ user_created) × IsCreated (acting_user user) b s s')

  inserted_outcome :
      (user : Option Account) (body : NewUser) (hash : String) (s : S) (o : Option (ℕ × S))
      → t.create (account_of body hash) s ≡ o
      → k.generate_hash body.password ≡ some hash
      → 8 ≤ k.size body.password
      → may_create (acting_user user).rights "" ≡ true
      → CreateOutcome user
          (some body)
          s
          (user_inserted t k (acting_user user) (account_of body hash) s o)
  unfolding CreateOutcome user_inserted
  inserted_outcome user body hash s none e h long p = inl ((λ q. absurd (ground arith)), refl)
  inserted_outcome user body hash s (some (i, s')) e h long p = inr (
    body,
    refl,
    refl,
    record {
      id = i;
      hash = hash;
      permitted = may_create_empty (acting_user user).rights p;
      long = long;
      hashed = k.generate_compare body.password hash h;
      rows = t.note_rows _ s' ∙ t.create_rows (account_of body hash) s i s' e;
    },
  )

  hashed_outcome :
      (user : Option Account) (body : NewUser) (s : S) (o : Option String)
      → k.generate_hash body.password ≡ o
      → 8 ≤ k.size body.password
      → CreateOutcome user (some body) s (user_hashed t k (acting_user user) body "" o s)
  unfolding CreateOutcome user_hashed
  hashed_outcome user body s none e long = inl ((λ q. absurd (ground arith)), refl)
  hashed_outcome user body s (some hash) e long =
      elim (Bool-cases (may_create (acting_user user).rights "")) [
        | inl p ↦
            subst
              (λ b. CreateOutcome user (some body) s (
                if b
                then user_inserted t k (acting_user user) (account_of body hash) s
                    (t.create (account_of body hash) s)
                else (refused, s)))
              (sym p) (inserted_outcome user body hash s _ refl e long p)
        | inr p ↦
            subst
              (λ b. CreateOutcome user (some body) s (
                if b
                then user_inserted t k (acting_user user) (account_of body hash) s
                    (t.create (account_of body hash) s)
                else (refused, s)))
              (sym p) (inl ((λ q. absurd (ground arith)), refl))
      ]

  -- `CreateUser` either does not answer that a user was created and leaves the users as they were, or
  -- the acting user is an administrator or a developer, never an office worker, the password has at
  -- least 8 bytes, and one user more is stored: with a hash that accepts the password, and with the
  -- rights of the request, any of them, or "user" where they are empty.
  pub create_user_lem :
      (user : Option Account) (body : Option NewUser) (s : S)
      → CreateOutcome user body s (create_user t k user body s)
  unfolding CreateOutcome create_user
  create_user_lem user none s = inl ((λ q. absurd (ground arith)), refl)
  create_user_lem user (some body) s = elim (Bool-cases (ltb (k.size body.password) 8)) [
    | inl e ↦
        subst
          (λ b. CreateOutcome user (some body) s (
            if b
            then (bad_payload, s)
            else user_hashed t k (acting_user user) body "" (k.generate_hash body.password) s))
          (sym e) (inl ((λ q. absurd (ground arith)), refl))
    | inr e ↦
        subst
          (λ b. CreateOutcome user (some body) s (
            if b
            then (bad_payload, s)
            else user_hashed t k (acting_user user) body "" (k.generate_hash body.password) s))
          (sym e) (hashed_outcome user body s _ refl (ground arith))
  ]
