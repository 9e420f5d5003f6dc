-- ===== src/Middleware/GeoBlock/Ban.antt =====
-- A token of nobody bans its sender.
use Prim.Native.String.{String, len}
use text.Mathlib.Text.{◌==◌}
use text.Mathlib.TextEquality.{eq_iff}
use mop_backend_api.Base.{
  ℕ, ◌+◌, ◌≤◌, ◌<◌, ◌≡◌, refl, Bool, true, false, List, [], ◌∷◌, ◌++◌, none, some, ltb, arith,
}
use mop_backend_api.Middleware.Auth.{
  Rights, AuthAttempt, Store, Claims, Parsed, parsed, Request, Refusals, first_user, has_id,
  log_attempt, check_claims, require_rights,
}
use mop_backend_api.Middleware.GeoBlock.{
  Network, Visitor, forbidden, ban, has_recent, is_local_ip, is_banned_ip, address_of,
  geo_ip_blocker,
}

-- a verified token in time, for which the query finds no user
pub record IsForged (parse : String → Parsed) (r : Request) (s : Store) : Type 0 where
  pub token : String
  pub claims : Claims
  pub exp : ℕ
  pub cookie : r.cookie ≡ some token
  pub given : 0 < len token
  pub verified : parse token ≡ parsed true (some claims)
  pub expires : claims.exp ≡ some exp
  pub in_time : r.now ≤ exp
  pub nobody : first_user r s.users claims.sub ≡ none

forged_logged :
    (f : Refusals) (permitted : Rights → Bool) (parse : String → Parsed) (r : Request) (s : Store)
    → IsForged parse r s
    → (require_rights f permitted parse r s).1 ≡ log_attempt r s
unfolding require_rights check_claims has_id first_user
forged_logged f permitted parse r s h =
    let cookie = h.cookie in
    let given = h.given in
    let verified = h.verified in
    let expires = h.expires in let in_time = h.in_time in let nobody = h.nobody in ground arith

logged_recent :
    (r : Request) (s : Store) (now : ℕ)
    → r.accepts ≡ true
    → now < r.now + ban
    → has_recent r.client_ip now (log_attempt r s).attempts ≡ true
unfolding has_recent log_attempt
logged_recent r s now accepts soon =
    let same : (r.client_ip == r.client_ip) ≡ true = (eq_iff r.client_ip r.client_ip).1 refl in
    let fresh : ltb now (r.now + ban) ≡ true = ground arith in simp (accepts, same, fresh)

has_recent-append :
    (ip : String) (now : ℕ) (later rows : List AuthAttempt)
    → has_recent ip now rows ≡ true
    → has_recent ip now (later ++ rows) ≡ true
unfolding has_recent
has_recent-append ip now [] rows h = h
has_recent-append ip now (a ∷ later) rows h =
    let rest = has_recent-append ip now later rows h in ground arith

module _ {Address : Type 0} (net : Network Address) where
  -- After any of the guards has seen a verified token, in time, for which the query finds no user, and
  -- the database has recorded it, every request from the same address in the next twelve hours is
  -- forbidden before it reaches a route, whatever attempts are recorded in between, if the database
  -- answers the query for a ban and the address is not a local one, prints as it was sent and is
  -- the one that counts.
  pub geo_ip_blocker-require_rights :
      (allowed : String) (f : Refusals) (permitted : Rights → Bool) (parse : String → Parsed)
      (r : Request) (s : Store) (later : List AuthAttempt) (v : Visitor)
      → IsForged parse r s
      → r.accepts ≡ true
      → v.answers ≡ true
      → v.now < r.now + ban
      → net.show_ip (address_of net v) ≡ r.client_ip
      → is_local_ip net (address_of net v) ≡ false
      → geo_ip_blocker net allowed v (later ++ (require_rights f permitted parse r s).1.attempts)
        ≡ forbidden
  unfolding geo_ip_blocker is_banned_ip
  geo_ip_blocker-require_rights allowed f permitted parse r s later v forged accepts answers soon
        shown foreign =
      let logged = forged_logged f permitted parse r s forged in
      let recent =
        has_recent-append r.client_ip v.now later (log_attempt r s).attempts
          (logged_recent r s v.now accepts soon) in
      simp (foreign, shown, logged, recent, answers)
