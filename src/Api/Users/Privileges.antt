-- ===== src/Api/Users/Privileges.antt =====
-- Whose rights `Patch` of api/v1_user.go changes.
use Prim.Native.String.{String}
use text.Mathlib.Text.{◌==◌}
use text.Mathlib.TextEquality.{eq_iff}
use mop_backend_api.Base.{
  ℕ, ◌≡◌, ◌≢◌, refl, ◌∙◌, ap, subst, not, ◌&&◌, List, [], ◌∷◌, Option, none, some, map,
  if◌then◌else◌, arith, ◌⊎◌, inl, inr, Bool-cases,
}
use mop_backend_api.Api.Accounts.{
  Account, UserPatch, acting_user, has_key, UserTable, rewrite_account,
}
use mop_backend_api.Api.Users.{
  Crypto, UserReply, user_patched, failed_update, patched, user_updated, patch_found, patch_user,
}

abbrev rights_of : List Account → List String
rights_of = map (λ u. u.rights)

rights_kept :
    (i : ℕ) (f : Account → Account) (l : List Account)
    → ((u : Account) → (f u).rights ≡ u.rights)
    → rights_of (rewrite_account i f l) ≡ rights_of l
rights_kept i f [] h = refl
rights_kept i f (u ∷ l) h = elim (Bool-cases (has_key i u)) [
  | inl e ↦ rw (e, h u, rights_kept i f l h) refl
  | inr e ↦ rw (e, rights_kept i f l h) refl
]

-- only a developer changes rights
patched_rights :
    (acting : Account) (body : UserPatch)
    → (acting.rights ≡ "developer") ⊎ ((u : Account) → (patched acting body u).rights ≡ u.rights)
patched_rights acting body = elim (Bool-cases (acting.rights == "developer")) [
  | inl e ↦ inl ((eq_iff acting.rights "developer").0 e)
  | inr e ↦ inr λ u. ap (λ b. if b && not (body.rights == "") then body.rights else u.rights) e
]

module _ {S : Type 0} (t : UserTable S) (k : Crypto) where
  pub PatchOutcome : Option Account → (id : ℕ) → Option UserPatch → S → UserReply × S → Type 0
  PatchOutcome user id body s (r, s') =
      ((r ≢ user_patched) × (t.users s' ≡ t.users s))
      ⊎ ((b : UserPatch) × (body ≡ some b)
          × (r ≡ user_patched)
          × (t.users s' ≡ rewrite_account id (patched (acting_user user) b) (t.users s))
          × (((acting_user user).rights ≡ "developer")
              ⊎ (rights_of (t.users s') ≡ rights_of (t.users s))))

  updated_outcome :
      (user : Option Account) (id : ℕ) (body : UserPatch) (u : Account) (s : S) (o : Option S)
      → t.update id (patched (acting_user user) body) s ≡ o
      → PatchOutcome user id (some body) s (
          user_updated t k
            (acting_user user)
            u
            (patched (acting_user user) body u)
            failed_update
            user_patched
            s
            o)
  unfolding PatchOutcome user_updated
  updated_outcome user id body u s none e = inl ((λ q. absurd (ground arith)), refl)
  updated_outcome user id body u s (some s') e =
      let rows = t.note_rows _ s' ∙ t.update_rows id (patched (acting_user user) body) s s' e in
      inr (
        body,
        refl,
        refl,
        rows,
        elim (patched_rights (acting_user user) body) [
          | inl d ↦ inl d
          | inr h ↦
              inr
                (ap rights_of rows ∙ rights_kept id (patched (acting_user user) body) (t.users s) h)
        ],
      )

  found_outcome :
      (user : Option Account) (id : ℕ) (body : UserPatch) (s : S) (o : Option Account)
      → t.first id s ≡ o
      → PatchOutcome user id (some body) s (patch_found t k (acting_user user) body s o)
  unfolding PatchOutcome patch_found
  found_outcome user id body s none e = inl ((λ q. absurd (ground arith)), refl)
  found_outcome user id body s (some u) e =
      let own = (t.first_row id s u e).1 in
      subst
        (λ i. PatchOutcome user i (some body) s (
          user_updated t k (acting_user user) u (patched (acting_user user) body u) failed_update
            user_patched s (t.update u.id (patched (acting_user user) body) s)))
        own (updated_outcome user u.id body u s _ refl)

  -- `Patch` either does not answer that the user was patched and leaves the users as they were, or it
  -- has changed the columns of the request for exactly the user of the path, and then the rights
  -- of all users are as they were unless the acting user is a developer.
  pub patch_user_lem :
      (user : Option Account) (id : ℕ) (body : Option UserPatch) (s : S)
      → PatchOutcome user id body s (patch_user t k user id body s)
  unfolding PatchOutcome patch_user
  patch_user_lem user id none s = inl ((λ q. absurd (ground arith)), refl)
  patch_user_lem user id (some body) s = found_outcome user id body s (t.first id s) refl
