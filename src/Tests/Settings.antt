-- ===== src/Tests/Settings.antt =====
-- A change of the settings on a table that is still empty.
use Prim.Native.String.{String, len}
use mop_backend_api.Base.{◌≡◌, refl, Bool, true, none, some, leb}
use mop_backend_api.Api.Settings.{
  RouteSetting, Patch, Calls, saved, default_setting, patch_route_settings, get_route_setting,
  patch_read, patch_all, patch_start, patch_minutes, patch_end, patch_anchor,
}
use mop_backend_api.Api.Settings.Laws.{IsPatched, IsWellFormed, patch_route_settings-IsPatched}

-- five characters or more
abbrev parses : String → Bool
parses t = leb 5 (len t)

abbrev calls : Calls
calls = record { first = true; create = true; save = true }

abbrev to_end : Patch
to_end = record {
  start_time = some "08:30";
  service_minutes = some 20;
  end_time = none;
  anchor = some "end";
}

abbrev morning : RouteSetting
morning = record { start_time = "08:30"; service_minutes = 20; end_time = "20:00"; anchor = "end" }

patch_route_settings-empty :
    patch_route_settings parses calls (some to_end) none ≡ (saved morning, some morning)
unfolding patch_route_settings get_route_setting patch_read patch_all patch_start patch_minutes
    patch_end patch_anchor
patch_route_settings-empty = refl

default-IsWellFormed : IsWellFormed parses default_setting
default-IsWellFormed = record { start_parses = refl; end_parses = refl; anchored = refl }

patch_route_settings-IsPatched_example :
    IsPatched parses refl refl
      (some default_setting)
      (patch_route_settings parses calls (some to_end) (some default_setting))
patch_route_settings-IsPatched_example =
    patch_route_settings-IsPatched parses refl refl calls (some to_end) (some default_setting)
      default-IsWellFormed
