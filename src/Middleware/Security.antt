-- ===== src/Middleware/Security.antt =====
-- middleware/security.go: the limit on logins. Times are in seconds.
pub mod Limit
use Prim.Native.String.{String}
use text.Mathlib.Text.{◌==◌}
use mop_backend_api.Base.{
  ℕ, suc, ◌+◌, ◌*◌, ◌/◌, Bool, true, false, ◌&&◌, ◌||◌, List, [], ◌∷◌, Option, none, some, ltb, leb,
  if◌then◌else◌,
}

-- the columns of `models.LoginAttempt` that the limit reads, and the reason
pub data Reason : Type 0 where
  failed_to_bind too_many_requests : Reason

pub record LoginAttempt : Type 0 where
  pub username : String
  pub ip : String
  pub created_at : ℕ
  pub reason : Reason

pub record Tier : Type 0 where
  pub limit : ℕ
  pub window : ℕ

abbrev pub tiers : List Tier
tiers =
    record { limit = 5; window = 60 }
    ∷ record { limit = 10; window = 300 }
    ∷ record { limit = 15; window = 1800 }
    ∷ record { limit = 20; window = 43200 }
    ∷ []

-- `Count`, over the rows that a condition holds of
unfoldable pub count_rows : (LoginAttempt → Bool) → List LoginAttempt → ℕ
count_rows p [] = 0
count_rows p (a ∷ rows) = let rest = count_rows p rows in if p a then suc rest else rest

-- `username = ? AND created_at > ?`, with `now - window` for the second
abbrev pub by_user : (username : String) (now window : ℕ) → LoginAttempt → Bool
by_user username now window a = (a.username == username) && ltb now (a.created_at + window)

abbrev pub by_ip : (ip : String) (now window : ℕ) → LoginAttempt → Bool
by_ip ip now window a = (a.ip == ip) && ltb now (a.created_at + window)

-- which of the queries of a tier the database answers
pub record Answers : Type 0 where
  pub by_name : Tier → Bool
  pub by_address : Tier → Bool

-- the variable of a `Count`, which stays 0 where the query fails, since its error is not read
abbrev pub counted : (answered : Bool) → ℕ → ℕ
counted answered n = if answered then n else 0

-- the body of the loop; `int64(float64(limit) * 1.5)` is `limit * 3 / 2`
unfoldable pub is_over :
    Answers → (username ip : String) (now : ℕ) → Tier → List LoginAttempt → Bool
is_over answers username ip now t rows =
    leb t.limit (counted (answers.by_name t) (count_rows (by_user username now t.window) rows))
    || leb (t.limit * 3 / 2)
        (counted (answers.by_address t) (count_rows (by_ip ip now t.window) rows))

unfoldable pub is_over_any :
    Answers → (username ip : String) (now : ℕ) → List Tier → List LoginAttempt → Bool
is_over_any answers username ip now [] rows = false
is_over_any answers username ip now (t ∷ ts) rows =
    let rest = is_over_any answers username ip now ts rows in
    if is_over answers username ip now t rows then true else rest

unfoldable pub is_rate_limited :
    Answers → (username ip : String) (now : ℕ) → List LoginAttempt → Bool
is_rate_limited answers username ip now = is_over_any answers username ip now tiers

-- A login: the user name of the body, where it can be bound, the address, the clock, which counts the
-- database answers, and whether it accepts a new row.
pub record Login : Type 0 where
  pub username : Option String
  pub ip : String
  pub now : ℕ
  pub answers : Answers
  pub accepts : Bool

pub data Verdict : Type 0 where
  bad_request too_many next : Verdict

unfoldable pub log_row : Login → String → Reason → List LoginAttempt → List LoginAttempt
log_row l username reason rows =
    if l.accepts
    then record { username = username; ip = l.ip; created_at = l.now; reason = reason } ∷ rows
    else rows

unfoldable pub login_attempt_log : Login → List LoginAttempt → Verdict × List LoginAttempt
login_attempt_log l rows = elim l.username [
  | none ↦ (bad_request, rows)
  | some username ↦
      if is_rate_limited l.answers username l.ip l.now rows
      then (too_many, log_row l username too_many_requests rows)
      else (next, log_row l username failed_to_bind rows)
]

-- how many of a sequence of logins reach the handler
unfoldable pub let_through : List Login → List LoginAttempt → ℕ
let_through [] rows = 0
let_through (l ∷ ls) rows =
    let (verdict, rows') = login_attempt_log l rows in
    let rest = let_through ls rows' in
    elim verdict [ next ↦ suc rest | too_many ↦ rest | bad_request ↦ rest ]
