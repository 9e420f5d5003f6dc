-- ===== src/Tests/Auth.antt =====
-- The guards on a request with a token that the library accepts.
use Prim.Native.String.{String}
use mop_backend_api.Base.{◌≡◌, refl, ◌↔◌, true, false, none, [], ◌∷◌, some}
use mop_backend_api.Middleware.Auth.{
  User, Store, Parsed, parsed, Request, next, admin, is_anyone, is_office_worker, is_auditor,
  is_admin, require_auth_user, require_auth_office_worker, require_auth_auditor, require_auth_admin,
  require_rights, check_claims, refused, unauthorized, log_attempt, first_user, named_user, by_key,
  has_id,
}
use mop_backend_api.Middleware.Auth.Laws.{IsGranted, guards-IsGranted, require_auth_admin-highest}

abbrev chief : User
chief = record { id = 7; rights = admin }

abbrev store : Store
store = record { users = chief ∷ []; attempts = [] }

-- every token is that of user 7, until the time 100
abbrev accepts_all : String → Parsed
accepts_all t = parsed true (some (record { exp = some 100; sub = some 7 }))

abbrev request : Request
request = record {
  cookie = some "token";
  client_ip = "1.2.3.4";
  now = 60;
  answers = true;
  accepts = true;
  without_key = λ users. none;
}

admin_passes : (require_auth_admin accepts_all request store).0 ≡ next chief
unfolding require_auth_admin require_rights check_claims first_user named_user by_key has_id
admin_passes = refl

-- a query of the user that fails is taken for a token of nobody
unanswered_logged : require_auth_admin accepts_all (record request { answers = false }) store ≡ (
  refused unauthorized,
  record store { attempts = record { ip = "1.2.3.4"; created_at = 60 } ∷ [] },
)
unfolding require_auth_admin require_rights check_claims first_user has_id log_attempt
unanswered_logged = refl

guards-IsGranted_example :
    (((require_auth_user accepts_all request store).0 ≡ next chief)
      ↔ IsGranted is_anyone accepts_all request store chief)
    × (((require_auth_office_worker accepts_all request store).0 ≡ next chief)
        ↔ IsGranted is_office_worker accepts_all request store chief)
    × (((require_auth_auditor accepts_all request store).0 ≡ next chief)
        ↔ IsGranted is_auditor accepts_all request store chief)
    × (((require_auth_admin accepts_all request store).0 ≡ next chief)
        ↔ IsGranted is_admin accepts_all request store chief)
guards-IsGranted_example = guards-IsGranted accepts_all request store chief

require_auth_admin-highest_example :
    ((require_auth_office_worker accepts_all request store).0 ≡ next chief)
    × ((require_auth_auditor accepts_all request store).0 ≡ next chief)
    × ((require_auth_user accepts_all request store).0 ≡ next chief)
require_auth_admin-highest_example =
    require_auth_admin-highest accepts_all request store chief admin_passes
