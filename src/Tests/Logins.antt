-- ===== src/Tests/Logins.antt =====
-- The limit on logins, and the ban after a token of nobody.
use Prim.Native.String.{String}
use text.Mathlib.Text.{◌==◌}
use mop_backend_api.Base.{
  map, ℕ, ◌≤◌, ◌<◌, ◌≡◌, refl, true, false, List, [], ◌∷◌, none, some, inl, arith,
}
use mop_backend_api.Middleware.Auth.{
  Store, Parsed, parsed, Request, plain, is_admin, require_rights, first_user, named_user, by_key,
}
use mop_backend_api.Middleware.Security.{
  Answers, Tier, Login, let_through, login_attempt_log, is_rate_limited, is_over_any, is_over,
  count_rows, log_row,
}
use mop_backend_api.Middleware.Security.Limit.{IsTry, let_through_limit}
use mop_backend_api.Middleware.GeoBlock.{
  Network, Visitor, forbidden, geo_ip_blocker, address_of, is_local_ip,
}
use mop_backend_api.Middleware.GeoBlock.Ban.{IsForged, geo_ip_blocker-require_rights}

abbrev answering : Answers
answering = record { by_name = λ t. true; by_address = λ t. true }

abbrev login : ℕ → Login
login now = record {
  username = some "anna";
  ip = "1.2.3.4";
  now = now;
  answers = answering;
  accepts = true;
}

abbrev unanswered : Login → Login
unanswered l = record l { answers = record { by_name = λ t. false; by_address = λ t. false } }

abbrev seven : List Login
seven = login 1 ∷ login 2 ∷ login 3 ∷ login 4 ∷ login 5 ∷ login 6 ∷ login 7 ∷ []

-- the first five of seven logins in a minute
five_of_seven : let_through seven [] ≡ 5
unfolding let_through login_attempt_log is_rate_limited is_over_any is_over count_rows log_row
five_of_seven = refl

-- without an answer of the database all of them
seven_of_seven : let_through (map unanswered seven) [] ≡ 7
unfolding let_through login_attempt_log is_rate_limited is_over_any is_over count_rows log_row
seven_of_seven = refl

abbrev minute : Tier
minute = record { limit = 5; window = 60 }

login-IsTry : (now : ℕ) → now < 60 → IsTry "anna" minute 0 (login now)
login-IsTry now h = record {
  name = refl;
  from_start = omega arith;
  in_window = omega arith;
  recorded = refl;
  answered = refl;
}

let_through_limit_example : let_through seven [] ≤ 5
let_through_limit_example = let_through_limit "anna" minute 0 seven [] (inl refl) (
  login-IsTry 1 (omega arith),
  (
    login-IsTry 2 (omega arith),
    (
      login-IsTry 3 (omega arith),
      (
        login-IsTry 4 (omega arith),
        (
          login-IsTry 5 (omega arith),
          (login-IsTry 6 (omega arith), (login-IsTry 7 (omega arith), tt)),
        ),
      ),
    ),
  ),
)

abbrev net : Network String
net = record {
  parse_ip = λ s. some s;
  show_ip = λ a. elim a [ none ↦ "<nil>" | some s ↦ s ];
  is_loopback = λ a. a == "127.0.0.1";
  is_private = λ a. a == "10.0.0.1";
  is_link_local = λ a. a == "169.254.0.1";
  country = λ a. some (some "DK");
}

abbrev empty_store : Store
empty_store = record { users = []; attempts = [] }

abbrev nobody : String → Parsed
nobody t = parsed true (some (record { exp = some 100; sub = some 7 }))

abbrev request : Request
request = record {
  cookie = some "token";
  client_ip = "1.2.3.4";
  now = 60;
  answers = true;
  accepts = true;
  without_key = λ users. none;
}

abbrev visitor : Visitor
visitor = record {
  production = true;
  client_ip = "1.2.3.4";
  real_ip = "";
  now = 1000;
  answers = true;
}

request-IsForged : IsForged nobody request empty_store
unfolding first_user named_user by_key
request-IsForged = record {
  token = "token";
  claims = record { exp = some 100; sub = some 7 };
  exp = 100;
  cookie = refl;
  given = omega arith;
  verified = refl;
  expires = refl;
  in_time = omega arith;
  nobody = refl;
}

visitor_address : address_of net visitor ≡ some "1.2.3.4"
unfolding address_of
visitor_address = refl

visitor_foreign : is_local_ip net (address_of net visitor) ≡ false
unfolding address_of is_local_ip
visitor_foreign = refl

visitor_shown : net.show_ip (address_of net visitor) ≡ "1.2.3.4"
unfolding address_of
visitor_shown = refl

geo_ip_blocker-require_rights_example :
    geo_ip_blocker net "DK" visitor (
      record { ip = "5.6.7.8"; created_at = 500 }
      ∷ (require_rights plain is_admin nobody request empty_store).1.attempts)
    ≡ forbidden
geo_ip_blocker-require_rights_example =
    geo_ip_blocker-require_rights net "DK" plain is_admin nobody request empty_store
      (record { ip = "5.6.7.8"; created_at = 500 } ∷ []) visitor request-IsForged refl refl
      (omega arith) visitor_shown visitor_foreign
