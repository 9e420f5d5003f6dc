-- ===== src/Middleware/Security/Limit.antt =====
-- How many logins for one user name get through in a window.
use Prim.Native.String.{String}
use text.Mathlib.Text.{◌==◌}
use text.Mathlib.TextEquality.{eq_iff}
use mop_backend_api.Base.{
  ℕ, suc, ◌+◌, ◌-◌, ◌≤◌, ◌<◌, ◌≡◌, refl, sym, subst, Bool, true, false, ◌&&◌, List, [], ◌∷◌, some,
  leb, All, ◌⊎◌, inl, inr, Bool-cases, arith,
}
use mop_backend_api.Middleware.Security.{
  LoginAttempt, Answers, Tier, tiers, count_rows, by_user, is_over, is_over_any, is_rate_limited,
  Login, log_row, login_attempt_log, let_through, failed_to_bind, too_many_requests, Reason,
}

-- a tier of a list
abbrev pub Listed : Tier → List Tier → Type 0
Listed t [] = ⊥
Listed t (x ∷ xs) = (t ≡ x) ⊎ Listed t xs

not_over :
    (answers : Answers) (username ip : String) (now : ℕ) (t : Tier) (ts : List Tier)
    (rows : List LoginAttempt)
    → answers.by_name t ≡ true
    → Listed t ts
    → is_over_any answers username ip now ts rows ≡ false
    → count_rows (by_user username now t.window) rows < t.limit
unfolding is_over_any is_over
not_over answers username ip now t [] rows a h e = absurd h
not_over answers username ip now t (x ∷ ts) rows a (inl q) e =
    let answered : answers.by_name x ≡ true = subst (λ u. answers.by_name u ≡ true) q a in
    subst (λ x. count_rows (by_user username now x.window) rows < x.limit) (sym q) (ground arith)
not_over answers username ip now t (x ∷ ts) rows a (inr h) e =
    not_over answers username ip now t ts rows a h (ground arith)

-- the rows of a user from a time on
since : (username : String) (start : ℕ) → LoginAttempt → Bool
since username start a = (a.username == username) && leb start a.created_at

count-le :
    (p q : LoginAttempt → Bool) (rows : List LoginAttempt)
    → ((a : LoginAttempt) → p a ≡ true → q a ≡ true)
    → count_rows p rows ≤ count_rows q rows
unfolding count_rows
count-le p q [] h = omega arith
count-le p q (a ∷ rows) h = let ih = count-le p q rows h in let ha = h a in ground arith

since-by_user :
    (username : String) (start now window : ℕ)
    → now < start + window
    → (a : LoginAttempt) → since username start a ≡ true
    → by_user username now window a ≡ true
unfolding since
since-by_user username start now window h a e = ground arith

-- A login for a user name, in the window of a tier from a start, that is recorded, and for which the
-- count of the tier's attempts for the name is answered.
pub record IsTry (username : String) (t : Tier) (start : ℕ) (l : Login) : Type 0 where
  pub name : l.username ≡ some username
  pub from_start : start ≤ l.now
  pub in_window : l.now < start + t.window
  pub recorded : l.accepts ≡ true
  pub answered : l.answers.by_name t ≡ true

same_name : (s : String) → (s == s) ≡ true
same_name s = (eq_iff s s).1 refl

count-log_row :
    (username : String) (t : Tier) (start : ℕ) (l : Login) (reason : Reason)
    (rows : List LoginAttempt)
    → IsTry username t start l
    → count_rows (since username start) (log_row l username reason rows)
      ≡ suc (count_rows (since username start) rows)
unfolding count_rows log_row since
count-log_row username t start l reason rows h =
    let low = h.from_start in
    let kept = h.recorded in
    let same = same_name username in
    let after : leb start l.now ≡ true = ground arith in simp (kept, same, after)

through_limited :
    (username : String) (l : Login) (ls : List Login) (rows : List LoginAttempt)
    → l.username ≡ some username
    → is_rate_limited l.answers username l.ip l.now rows ≡ true
    → let_through (l ∷ ls) rows ≡ let_through ls (log_row l username too_many_requests rows)
unfolding let_through login_attempt_log
through_limited username l ls rows name over = ground arith

through_free :
    (username : String) (l : Login) (ls : List Login) (rows : List LoginAttempt)
    → l.username ≡ some username
    → is_rate_limited l.answers username l.ip l.now rows ≡ false
    → let_through (l ∷ ls) rows ≡ suc (let_through ls (log_row l username failed_to_bind rows))
unfolding let_through login_attempt_log
through_free username l ls rows name free = ground arith

module _ (username : String) (t : Tier) (start : ℕ) where
  abbrev seen : List LoginAttempt → ℕ
  seen rows = count_rows (since username start) rows

  limited_try :
      (l : Login) (rows : List LoginAttempt)
      → IsTry username t start l
      → Listed t tiers
      → is_rate_limited l.answers username l.ip l.now rows ≡ false
      → seen rows < t.limit
  unfolding is_rate_limited
  limited_try l rows h listed e =
      let fewer = not_over l.answers username l.ip l.now t tiers rows h.answered listed e in
      let more =
        count-le (since username start) (by_user username l.now t.window) rows
          (since-by_user username start l.now t.window h.in_window) in
      omega arith

  let_through_bound :
      (ls : List Login) (rows : List LoginAttempt)
      → Listed t tiers
      → All (IsTry username t start) ls
      → let_through ls rows ≤ t.limit - seen rows
  unfolding let_through
  let_through_bound [] rows listed h = omega arith
  let_through_bound (l ∷ ls) rows listed (h, hs) =
      let name = h.name in
      elim (Bool-cases (is_rate_limited l.answers username l.ip l.now rows)) [
        | inl over ↦
            (let more = count-log_row username t start l too_many_requests rows h in
              let ih = let_through_bound ls (log_row l username too_many_requests rows) listed hs in
              let step = through_limited username l ls rows name over in omega arith)
        | inr free ↦
            (let more = count-log_row username t start l failed_to_bind rows h in
              let ih = let_through_bound ls (log_row l username failed_to_bind rows) listed hs in
              let few = limited_try l rows h listed free in
              let step = through_free username l ls rows name free in omega arith)
      ]

-- For each tier, of 5 logins in a minute, 10 in five minutes, 15 in half an hour and 20 in twelve
-- hours: of a sequence of logins for one user name in a window of that length, from any addresses and
-- whatever was recorded before, at most that many reach the handler, if the database
-- records each and answers the count of the tier for the name.
pub let_through_limit :
    (username : String) (t : Tier) (start : ℕ) (ls : List Login) (rows : List LoginAttempt)
    → Listed t tiers
    → All (IsTry username t start) ls
    → let_through ls rows ≤ t.limit
let_through_limit username t start ls rows listed h =
    let bound = let_through_bound username t start ls rows listed h in omega arith
