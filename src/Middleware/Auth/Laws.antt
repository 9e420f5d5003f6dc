-- ===== src/Middleware/Auth/Laws.antt =====
-- Whom the guards of middleware/auth.go let through.
use Prim.Native.String.{String, len}
use mop_backend_api.Base.{
  ℕ, ◌≤◌, ◌≡◌, ◌≢◌, refl, ◌∙◌, ap, subst, Bool, true, false, List, Option, none, some, ltb, ◌==◌,
  ◌⊎◌, inl, inr, ◌↔◌, Option-cases, Bool-cases, arith,
}
use mop_backend_api.Middleware.Auth.{
  Rights, User, Store, Claims, Parsed, expired, malformed, parsed, Request, next, Refusals, plain,
  by_key, named_user, first_user, has_id, check_claims, require_rights, is_office_worker,
  is_auditor, is_admin, is_anyone, require_auth_office_worker, require_auth_auditor,
  require_auth_admin, require_auth_user,
}

-- the row of a user that a claim names: by its key, or, where the claim is missing, as `First` chooses
pub IsNamed : Request → List User → (sub : Option ℕ) → User → Type 0
IsNamed r users none u = r.without_key users ≡ some u
IsNamed r users (some sub) u = by_key users sub ≡ some u

-- the claims are those of a user that is stored, with rights that are permitted, and in time, and the
-- database answers
pub record IsAdmitted (permitted : Rights → Bool) (r : Request) (s : Store) (u : User) (c : Claims)
    : Type 0 where
  pub exp : ℕ
  pub expires : c.exp ≡ some exp
  pub in_time : r.now ≤ exp
  pub answered : r.answers ≡ true
  pub found : IsNamed r s.users c.sub u
  pub real : u.id ≢ 0
  pub rights : permitted u.rights ≡ true

first_user-eq-some :
    (r : Request) (users : List User) (sub : Option ℕ) (u : User)
    → first_user r users sub ≡ some u
    → (r.answers ≡ true) × IsNamed r users sub u
unfolding first_user named_user IsNamed
first_user-eq-some r users none u h = elim (Bool-cases r.answers) [
  | inl e ↦ (e, ground arith)
  | inr e ↦ absurd (ground arith)
]
first_user-eq-some r users (some k) u h = elim (Bool-cases r.answers) [
  | inl e ↦ (e, ground arith)
  | inr e ↦ absurd (ground arith)
]

named-first_user :
    (r : Request) (users : List User) (sub : Option ℕ) (u : User)
    → r.answers ≡ true
    → IsNamed r users sub u
    → first_user r users sub ≡ some u
unfolding first_user named_user IsNamed
named-first_user r users none u e h = ground arith
named-first_user r users (some k) u e h = ground arith

has_id-eq-some : (o : Option User) (u : User) → has_id o ≡ some u → (o ≡ some u) × (u.id ≢ 0)
unfolding has_id
has_id-eq-some none u h = absurd (ground arith)
has_id-eq-some (some v) u h = elim (Bool-cases (v.id == 0)) [
  | inl e ↦ absurd (ground arith)
  | inr e ↦
      (let q : v ≡ u = ground arith in (ap some q, subst (λ w. w.id ≢ 0) q (λ z. ground arith)))
]

some-has_id : (u : User) → u.id ≢ 0 → has_id (some u) ≡ some u
unfolding has_id
some-has_id u ne = ground arith

check_claims-next :
    (permitted : Rights → Bool) (r : Request) (s : Store) (c : Claims) (u : User)
    → (check_claims permitted r s c).0 ≡ next u
    → IsAdmitted permitted r s u c
unfolding check_claims
check_claims-next permitted r s c u h = elim (Option-cases c.exp) [
  | inl e ↦ absurd (ground arith)
  | inr (exp, e) ↦ elim (Bool-cases (ltb exp r.now)) [
    | inl late ↦ absurd (ground arith)
    | inr in_time ↦ elim (Option-cases (has_id (first_user r s.users c.sub))) [
      | inl gone ↦ absurd (ground arith)
      | inr (v, found) ↦ elim (Bool-cases (permitted v.rights)) [
        | inl good ↦
            (let q : v ≡ u = ground arith in
              let (stored, real) = has_id-eq-some (first_user r s.users c.sub) v found in
              let (answered, named) = first_user-eq-some r s.users c.sub v stored in
              subst (λ w. IsAdmitted permitted r s w c) q
                (record {
                  exp = exp;
                  expires = e;
                  in_time = ground arith;
                  answered = answered;
                  found = named;
                  real = real;
                  rights = good;
                }))
        | inr bad ↦ absurd (ground arith)
      ]
    ]
  ]
]

admitted-next :
    (permitted : Rights → Bool) (r : Request) (s : Store) (c : Claims) (u : User)
    → IsAdmitted permitted r s u c
    → check_claims permitted r s c ≡ (next u, s)
unfolding check_claims
admitted-next permitted r s c u a =
    let found : has_id (first_user r s.users c.sub) ≡ some u =
      ap has_id (named-first_user r s.users c.sub u a.answered a.found) ∙ some-has_id u a.real in
    let in_time : ltb a.exp r.now ≡ false = ground (arith, a.in_time) in
    let expires = a.expires in let rights = a.rights in ground arith

-- a request is let through for a user when it carries a verified token of theirs
pub record IsGranted (permitted : Rights → Bool) (parse : String → Parsed) (r : Request) (s : Store)
    (u : User) : Type 0 where
  pub token : String
  pub claims : Claims
  pub cookie : r.cookie ≡ some token
  pub given : (len token == 0) ≡ false
  pub verified : parse token ≡ parsed true (some claims)
  pub admitted : IsAdmitted permitted r s u claims

Parsed-cases :
    (p : Parsed)
    → ((c : Claims) × (p ≡ parsed true (some c)))
      ⊎ (p ≡ expired)
      ⊎ (p ≡ malformed)
      ⊎ (p ≡ parsed true none)
      ⊎ ((o : Option Claims) × (p ≡ parsed false o))
Parsed-cases expired = inr (inl refl)
Parsed-cases malformed = inr (inr (inl refl))
Parsed-cases (parsed true none) = inr (inr (inr (inl refl)))
Parsed-cases (parsed true (some c)) = inl (c, refl)
Parsed-cases (parsed false o) = inr (inr (inr (inr (o, refl))))

module _ (f : Refusals) (permitted : Rights → Bool) (parse : String → Parsed) (r : Request)
    (s : Store) where
  require_rights-next :
      (u : User)
      → (require_rights f permitted parse r s).0 ≡ next u
      → IsGranted permitted parse r s u
  unfolding require_rights
  require_rights-next u h = elim (Option-cases r.cookie) [
    | inl e ↦ absurd (ground arith)
    | inr (t, e) ↦ elim (Bool-cases (len t == 0)) [
      | inl empty ↦ absurd (ground arith)
      | inr given ↦ elim (Parsed-cases (parse t)) [
        | inl (c, verified) ↦
            (let passes : (check_claims permitted r s c).0 ≡ next u = ground arith in
              record {
                token = t;
                claims = c;
                cookie = e;
                given = given;
                verified = verified;
                admitted = check_claims-next permitted r s c u passes;
              })
        | inr other ↦ absurd (ground arith)
      ]
    ]
  ]

  granted-next :
      (u : User)
      → IsGranted permitted parse r s u
      → require_rights f permitted parse r s ≡ (next u, s)
  unfolding require_rights
  granted-next u g =
      let cookie = g.cookie in
      let given = g.given in
      let verified = g.verified in
      let passes = admitted-next permitted r s g.claims u g.admitted in ground arith

  require_rights_iff :
      (u : User)
      → ((require_rights f permitted parse r s).0 ≡ next u) ↔ IsGranted permitted parse r s u
  require_rights_iff u = (require_rights-next u, λ g. ap (λ x. x.0) (granted-next u g))

-- Each of the four guards hands a request on for a user exactly when its cookie is a verified token,
-- not past its `exp`, the database answers the query of the user, the `sub` is the key of a stored
-- user, or is missing and the user is the row that gorm finds without a key, that key is not 0,
-- and the user's rights are those the guard is for: any for `RequireAuthUser`, admin and developer for the others, with
-- the office workers or the auditors for theirs.
pub guards-IsGranted :
    (parse : String → Parsed) (r : Request) (s : Store) (u : User)
    → (((require_auth_user parse r s).0 ≡ next u) ↔ IsGranted is_anyone parse r s u)
      × (((require_auth_office_worker parse r s).0 ≡ next u)
          ↔ IsGranted is_office_worker parse r s u)
      × (((require_auth_auditor parse r s).0 ≡ next u) ↔ IsGranted is_auditor parse r s u)
      × (((require_auth_admin parse r s).0 ≡ next u) ↔ IsGranted is_admin parse r s u)
unfolding require_auth_user require_auth_office_worker require_auth_auditor require_auth_admin
guards-IsGranted parse r s u = (
  require_rights_iff _ is_anyone parse r s u,
  require_rights_iff plain is_office_worker parse r s u,
  require_rights_iff plain is_auditor parse r s u,
  require_rights_iff plain is_admin parse r s u,
)

widen :
    (p q : Rights → Bool) (parse : String → Parsed) (r : Request) (s : Store) (u : User)
    → (p u.rights ≡ true → q u.rights ≡ true)
    → IsGranted p parse r s u
    → IsGranted q parse r s u
widen p q parse r s u h g = record {
  token = g.token;
  claims = g.claims;
  cookie = g.cookie;
  given = g.given;
  verified = g.verified;
  admitted = record {
    exp = g.admitted.exp;
    expires = g.admitted.expires;
    in_time = g.admitted.in_time;
    answered = g.admitted.answered;
    found = g.admitted.found;
    real = g.admitted.real;
    rights = h g.admitted.rights;
  };
}

admin_is_office_worker : (x : Rights) → is_admin x ≡ true → is_office_worker x ≡ true
admin_is_office_worker x h = ground arith

admin_is_auditor : (x : Rights) → is_admin x ≡ true → is_auditor x ≡ true
admin_is_auditor x h = ground arith

-- A request that `RequireAuthAdmin` hands on, the other three guards hand on as well, for the same user.
pub require_auth_admin-highest :
    (parse : String → Parsed) (r : Request) (s : Store) (u : User)
    → (require_auth_admin parse r s).0 ≡ next u
    → ((require_auth_office_worker parse r s).0 ≡ next u)
      × ((require_auth_auditor parse r s).0 ≡ next u)
      × ((require_auth_user parse r s).0 ≡ next u)
require_auth_admin-highest parse r s u h =
    let (any, office, audit, adm) = guards-IsGranted parse r s u in
    let g = adm.0 h in
    (
      office.1 (widen is_admin is_office_worker parse r s u (admin_is_office_worker u.rights) g),
      audit.1 (widen is_admin is_auditor parse r s u (admin_is_auditor u.rights) g),
      any.1 (widen is_admin is_anyone parse r s u (λ e. refl) g),
    )
