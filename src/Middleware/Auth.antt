-- ===== src/Middleware/Auth.antt =====
-- middleware/auth.go: the four guards in front of the handlers. The JWT library is a parameter, the
-- tables of users and of failed attempts are the state.
pub mod Laws
use Prim.Native.String.{String, len}
use mop_backend_api.Base.{
  ℕ, Bool, true, false, not, ◌&&◌, List, [], ◌∷◌, Option, none, some, ltb, ◌==◌, if◌then◌else◌,
}

-- `models.UserRights`
pub data Rights : Type 0 where
  admin developer office_worker auditor user_rights no_rights : Rights

pub record User : Type 0 where
  pub id : ℕ
  pub rights : Rights

pub record AuthAttempt : Type 0 where
  pub ip : String
  pub created_at : ℕ

pub record Store : Type 0 where
  pub users : List User
  pub attempts : List AuthAttempt

-- An `exp` that is missing, or not of the type asserted, is `none`, and so is a `sub` that is missing.
pub record Claims : Type 0 where
  pub exp : Option ℕ
  pub sub : Option ℕ

-- what `jwt.Parse` returns: an error, or a token with its `Valid` and, if they are a map, its claims
pub data Parsed : Type 0 where
  expired malformed : Parsed
  parsed : (valid : Bool) → Option Claims → Parsed

-- The request and what surrounds it: the cookie, the client's address, the clock in seconds, whether
-- the database answers the query of the user and accepts a new row, and the row that `First`
-- finds for a `sub` that is nil, which is no key.
pub record Request : Type 0 where
  pub cookie : Option String
  pub client_ip : String
  pub now : ℕ
  pub answers : Bool
  pub accepts : Bool
  pub without_key : List User → Option User

-- the status 401, with its error if it has one
pub data Refusal : Type 0 where
  no_token token_expired token_invalid unauthorized low_rights : Refusal

-- how a guard ends: a refusal, a panic, or the handlers after it for a user
pub data Answer : Type 0 where
  refused : Refusal → Answer
  panicked : Answer
  next : User → Answer

-- the user with a primary key
unfoldable pub by_key : List User → ℕ → Option User
by_key [] sub = none
by_key (u ∷ us) sub = let rest = by_key us sub in if u.id == sub then some u else rest

-- the row that the claim `sub` stands for
unfoldable pub named_user : Request → List User → (sub : Option ℕ) → Option User
named_user r users none = r.without_key users
named_user r users (some sub) = by_key users sub

-- `DB.First(&user, claims["sub"])`; a query that fails leaves the user empty
unfoldable pub first_user : Request → List User → (sub : Option ℕ) → Option User
first_user r users sub = if r.answers then named_user r users sub else none

-- `user.ID == 0`, of a row that was not found or of one with that key
unfoldable pub has_id : Option User → Option User
has_id none = none
has_id (some u) = if u.id == 0 then none else some u

unfoldable pub log_attempt : Request → Store → Store
log_attempt r s =
    if r.accepts
    then record s { attempts = record { ip = r.client_ip; created_at = r.now } ∷ s.attempts }
    else s

-- from the check of the claims on, which the four guards share but for the rights
unfoldable pub check_claims :
    (permitted : Rights → Bool) → Request → Store → Claims → Answer × Store
check_claims permitted r s c = elim c.exp [
  | none ↦ (panicked, s)
  | some exp ↦
      if ltb exp r.now
      then (refused unauthorized, s)
      else elim (has_id (first_user r s.users c.sub)) [
        | none ↦ (refused unauthorized, log_attempt r s)
        | some u ↦ if permitted u.rights then (next u, s) else (refused low_rights, s)
      ]
]

-- what a guard refuses a missing cookie, an expired token, and another token with
pub record Refusals : Type 0 where
  pub absent : Refusal
  pub late : Refusal
  pub wrong : Refusal

-- A guard, from the cookie on.
unfoldable pub require_rights :
    Refusals
    → (permitted : Rights → Bool) (parse : String → Parsed) → Request
    → Store
    → Answer × Store
require_rights f permitted parse r s = elim r.cookie [
  | none ↦ (refused f.absent, s)
  | some t ↦ if len t == 0 then (refused f.absent, s) else elim (parse t) [
    | expired ↦ (refused f.late, s)
    | malformed ↦ (refused f.wrong, s)
    | parsed true (some c) ↦ check_claims permitted r s c
    | parsed true none ↦ (refused unauthorized, s)
    | parsed false c ↦ (refused f.wrong, s)
  ]
]

abbrev pub plain : Refusals
plain = record { absent = unauthorized; late = unauthorized; wrong = unauthorized }

abbrev pub is_office_worker : Rights → Bool
is_office_worker admin = true
is_office_worker developer = true
is_office_worker office_worker = true
is_office_worker auditor = false
is_office_worker user_rights = false
is_office_worker no_rights = false

abbrev pub is_auditor : Rights → Bool
is_auditor admin = true
is_auditor developer = true
is_auditor office_worker = false
is_auditor auditor = true
is_auditor user_rights = false
is_auditor no_rights = false

abbrev pub is_admin : Rights → Bool
is_admin admin = true
is_admin developer = true
is_admin office_worker = false
is_admin auditor = false
is_admin user_rights = false
is_admin no_rights = false

abbrev pub is_anyone : Rights → Bool
is_anyone _ = true

unfoldable pub require_auth_office_worker :
    (parse : String → Parsed) → Request → Store → Answer × Store
require_auth_office_worker = require_rights plain is_office_worker

unfoldable pub require_auth_auditor : (parse : String → Parsed) → Request → Store → Answer × Store
require_auth_auditor = require_rights plain is_auditor

unfoldable pub require_auth_admin : (parse : String → Parsed) → Request → Store → Answer × Store
require_auth_admin = require_rights plain is_admin

unfoldable pub require_auth_user : (parse : String → Parsed) → Request → Store → Answer × Store
require_auth_user =
    require_rights (record { absent = no_token; late = token_expired; wrong = token_invalid })
      is_anyone
