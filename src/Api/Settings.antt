-- ===== src/Api/Settings.antt =====
-- The settings of routes: `getRouteSetting` and `PatchRouteSettings` of api/v1_route.go, over the
-- one row that is stored. `time.Parse("15:04", …)` is a parameter.
pub mod Laws
use Prim.Native.String.{String}
use text.Mathlib.Text.{◌==◌}
use mop_backend_api.Base.{ℕ, Bool, true, false, ◌||◌, Option, none, some, if◌then◌else◌, ◌>>=◌}

-- `models.RouteSetting`
pub record RouteSetting : Type 0 where
  pub start_time : String
  pub service_minutes : ℕ
  pub end_time : String
  pub anchor : String

-- the body of the request, where a field may be missing
pub record Patch : Type 0 where
  pub start_time : Option String
  pub service_minutes : Option ℕ
  pub end_time : Option String
  pub anchor : Option String

-- which of the calls of the database succeed
pub record Calls : Type 0 where
  pub first : Bool
  pub create : Bool
  pub save : Bool

abbrev pub default_setting : RouteSetting
default_setting = record {
  start_time = "13:00";
  service_minutes = 15;
  end_time = "20:00";
  anchor = "start";
}

-- the setting, if it can be had, and the stored row after the call
unfoldable pub get_route_setting :
    Calls → Option RouteSetting → Option RouteSetting × Option RouteSetting
get_route_setting c row =
    if c.first
    then elim row [
      | some s ↦ (some s, some s)
      | none ↦ if c.create then (some default_setting, some default_setting) else (none, none)
    ]
    else (none, row)

unfoldable pub patch_start :
    (parses : String → Bool) → Option String → RouteSetting → Option RouteSetting
patch_start parses none s = some s
patch_start parses (some t) s = if parses t then some (record s { start_time = t }) else none

unfoldable pub patch_minutes : Option ℕ → RouteSetting → RouteSetting
patch_minutes none s = s
patch_minutes (some n) s = record s { service_minutes = n }

unfoldable pub patch_end :
    (parses : String → Bool) → Option String → RouteSetting → Option RouteSetting
patch_end parses none s = some s
patch_end parses (some t) s = if parses t then some (record s { end_time = t }) else none

unfoldable pub patch_anchor : Option String → RouteSetting → Option RouteSetting
patch_anchor none s = some s
patch_anchor (some a) s =
    if (a == "start") || (a == "end") then some (record s { anchor = a }) else none

-- the fields one after the other; `none` is the status 400
unfoldable pub patch_all : (parses : String → Bool) → Patch → RouteSetting → Option RouteSetting
patch_all parses p s = patch_start parses p.start_time s >>= λ s₁.
    patch_end parses p.end_time (patch_minutes p.service_minutes s₁) >>= patch_anchor p.anchor

pub data PatchReply : Type 0 where
  bad_request internal_error : PatchReply
  saved : RouteSetting → PatchReply

-- from the setting on that was read, or not
unfoldable pub patch_read :
    (parses : String → Bool)
    → Calls
    → Patch
    → (setting row : Option RouteSetting) → PatchReply × Option RouteSetting
patch_read parses c p none row = (internal_error, row)
patch_read parses c p (some s) row = elim (patch_all parses p s) [
  | none ↦ (bad_request, row)
  | some s' ↦ if c.save then (saved s', some s') else (internal_error, row)
]

-- `none` for a body that cannot be bound
unfoldable pub patch_route_settings :
    (parses : String → Bool)
    → Calls
    → Option Patch
    → Option RouteSetting
    → PatchReply × Option RouteSetting
patch_route_settings parses c none row = (bad_request, row)
patch_route_settings parses c (some p) row =
    let (setting, row') = get_route_setting c row in patch_read parses c p setting row'
