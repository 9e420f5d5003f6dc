-- ===== src/Api/Settings/Laws.antt =====
-- The stored settings stay well formed.
use Prim.Native.String.{String}
use text.Mathlib.Text.{◌==◌}
use mop_backend_api.Base.{
  ℕ, ◌≡◌, refl, sym, subst, Bool, true, false, ◌||◌, Option, none, some, ◌⊎◌, inl, inr, Bool-cases,
  Option-cases, arith,
}
use mop_backend_api.Api.Settings.{
  RouteSetting, Patch, Calls, default_setting, get_route_setting, patch_start, patch_minutes,
  patch_end, patch_anchor, patch_all, patch_read, PatchReply, saved, bad_request, internal_error,
  patch_route_settings,
}

wrapped : {A : Type 0} {a b : A} → some a ≡ some b → a ≡ b
wrapped e = ground arith

module _ (parses : String → Bool) where
  -- both times parse, and the anchor is one of the two
  pub record IsWellFormed (s : RouteSetting) : Type 0 where
    pub start_parses : parses s.start_time ≡ true
    pub end_parses : parses s.end_time ≡ true
    pub anchored : ((s.anchor == "start") || (s.anchor == "end")) ≡ true

  -- a row, if there is one, is well formed
  abbrev pub IsWellStored : Option RouteSetting → Type 0
  IsWellStored none = Unit
  IsWellStored (some s) = IsWellFormed s

  patch_start-IsWellFormed :
      (o : Option String) (s s' : RouteSetting)
      → IsWellFormed s
      → patch_start parses o s ≡ some s'
      → IsWellFormed s'
  unfolding patch_start
  patch_start-IsWellFormed none s s' h e = subst IsWellFormed (wrapped e) h
  patch_start-IsWellFormed (some t) s s' h e = elim (Bool-cases (parses t)) [
    | inl good ↦
        (let q : record s { start_time = t } ≡ s' = ground arith in
          subst IsWellFormed q
            (record { start_parses = good; end_parses = h.end_parses; anchored = h.anchored }))
    | inr bad ↦ absurd (ground arith)
  ]

  patch_end-IsWellFormed :
      (o : Option String) (s s' : RouteSetting)
      → IsWellFormed s
      → patch_end parses o s ≡ some s'
      → IsWellFormed s'
  unfolding patch_end
  patch_end-IsWellFormed none s s' h e = subst IsWellFormed (wrapped e) h
  patch_end-IsWellFormed (some t) s s' h e = elim (Bool-cases (parses t)) [
    | inl good ↦
        (let q : record s { end_time = t } ≡ s' = ground arith in
          subst IsWellFormed q
            (record { start_parses = h.start_parses; end_parses = good; anchored = h.anchored }))
    | inr bad ↦ absurd (ground arith)
  ]

  patch_anchor-IsWellFormed :
      (o : Option String) (s s' : RouteSetting)
      → IsWellFormed s
      → patch_anchor o s ≡ some s'
      → IsWellFormed s'
  unfolding patch_anchor
  patch_anchor-IsWellFormed none s s' h e = subst IsWellFormed (wrapped e) h
  patch_anchor-IsWellFormed (some a) s s' h e = elim (Bool-cases ((a == "start") || (a == "end"))) [
    | inl good ↦
        (let q : record s { anchor = a } ≡ s' = ground arith in
          subst IsWellFormed q
            (record { start_parses = h.start_parses; end_parses = h.end_parses; anchored = good }))
    | inr bad ↦ absurd (ground arith)
  ]

  patch_minutes-IsWellFormed :
      (o : Option ℕ) (s : RouteSetting) → IsWellFormed s → IsWellFormed (patch_minutes o s)
  unfolding patch_minutes
  patch_minutes-IsWellFormed none s h = h
  patch_minutes-IsWellFormed (some n) s h = record {
    start_parses = h.start_parses;
    end_parses = h.end_parses;
    anchored = h.anchored;
  }

  patch_all-IsWellFormed :
      (p : Patch) (s s' : RouteSetting)
      → IsWellFormed s
      → patch_all parses p s ≡ some s'
      → IsWellFormed s'
  unfolding patch_all
  patch_all-IsWellFormed p s s' h e = elim (Option-cases (patch_start parses p.start_time s)) [
    | inl bad ↦ absurd (ground arith)
    | inr (s₁, e₁) ↦
        (let h₁ = patch_start-IsWellFormed p.start_time s s₁ h e₁ in
          let minutes = patch_minutes p.service_minutes s₁ in
          elim (Option-cases (patch_end parses p.end_time minutes)) [
            | inl bad ↦ absurd (ground arith)
            | inr (s₂, e₂) ↦
                (let h₂ =
                    patch_end-IsWellFormed p.end_time minutes s₂
                      (patch_minutes-IsWellFormed p.service_minutes s₁ h₁) e₂ in
                  patch_anchor-IsWellFormed p.anchor s₂ s' h₂ (ground arith))
          ])
  ]

  -- How the stored row may differ: not at all, or by the defaults where none was stored.
  IsRead : (row row' : Option RouteSetting) → Type 0
  IsRead row row' = (row' ≡ row) ⊎ ((row ≡ none) × (row' ≡ some default_setting))

  get_route_setting-IsRead :
      (c : Calls) (row : Option RouteSetting)
      → let (setting, row') = get_route_setting c row in
        IsRead row row' × ((setting ≡ none) ⊎ (setting ≡ row'))
  unfolding IsRead get_route_setting
  get_route_setting-IsRead c none = elim (Bool-cases c.first) [
    | inl e ↦ elim (Bool-cases c.create) [ inl e' ↦ ground arith | inr e' ↦ ground arith ]
    | inr e ↦ ground arith
  ]
  get_route_setting-IsRead c (some s) = elim (Bool-cases c.first) [
    | inl e ↦ ground arith
    | inr e ↦ ground arith
  ]

  patch_bad :
      (c : Calls) (p : Patch) (s : RouteSetting) (row : Option RouteSetting)
      → patch_all parses p s ≡ none
      → patch_read parses c p (some s) row ≡ (bad_request, row)
  unfolding patch_read
  patch_bad c p s row e = ground arith

  patch_saved :
      (c : Calls) (p : Patch) (s s' : RouteSetting) (row : Option RouteSetting)
      → patch_all parses p s ≡ some s'
      → c.save ≡ true
      → patch_read parses c p (some s) row ≡ (saved s', some s')
  unfolding patch_read
  patch_saved c p s s' row e k = ground arith

  patch_unsaved :
      (c : Calls) (p : Patch) (s s' : RouteSetting) (row : Option RouteSetting)
      → patch_all parses p s ≡ some s'
      → c.save ≡ false
      → patch_read parses c p (some s) row ≡ (internal_error, row)
  unfolding patch_read
  patch_unsaved c p s s' row e k = ground arith

  module _ (start_default : parses "13:00" ≡ true) (end_default : parses "20:00" ≡ true) where
    read-IsWellStored :
        (row row' : Option RouteSetting) → IsRead row row' → IsWellStored row → IsWellStored row'
    unfolding IsRead
    read-IsWellStored row row' (inl e) h = subst IsWellStored (sym e) h
    read-IsWellStored row row' (inr (e, d)) h =
        subst IsWellStored (sym d)
          (record { start_parses = start_default; end_parses = end_default; anchored = refl })

    -- What `PatchRouteSettings` leaves: the row that it answers with, or else the row as it was, with
    -- the defaults where there was none.
    pub IsPatched : (row : Option RouteSetting) → PatchReply × Option RouteSetting → Type 0
    IsPatched row (r, row') =
        IsWellStored row'
        × (((s : RouteSetting) × (r ≡ saved s) × (row' ≡ some s))
            ⊎ ((r ≡ bad_request) ⊎ (r ≡ internal_error)) × IsRead row row')

    patch_read-IsPatched :
        (c : Calls) (p : Patch) (row setting row' : Option RouteSetting)
        → IsRead row row'
        → IsWellStored row'
        → (setting ≡ none) ⊎ (setting ≡ row')
        → IsPatched row (patch_read parses c p setting row')
    unfolding IsPatched patch_read
    patch_read-IsPatched c p row none row' read h from = (h, inr (inr refl, read))
    patch_read-IsPatched c p row (some s) row' read h (inl e) = absurd (ground arith)
    patch_read-IsPatched c p row (some s) row' read h (inr e) =
        let before : IsWellFormed s = subst IsWellStored (sym e) h in
        elim (Option-cases (patch_all parses p s)) [
          | inl bad ↦
              subst (IsPatched row) (sym (patch_bad c p s row' bad)) (h, inr (inl refl, read))
          | inr (s', good) ↦ elim (Bool-cases c.save) [
            | inl saves ↦
                subst (IsPatched row) (sym (patch_saved c p s s' row' good saves))
                  (patch_all-IsWellFormed p s s' before good, inl (s', refl, refl))
            | inr fails ↦
                subst (IsPatched row) (sym (patch_unsaved c p s s' row' good fails))
                  (h, inr (inr refl, read))
          ]
        ]

    -- If the defaults parse and the stored row, if any, has times that parse and an anchor that is
    -- `start` or `end`, then so has the row after `PatchRouteSettings`, whatever it is called with
    -- and whichever calls of the database fail. An answer with a setting is the stored row, and with
    -- any other answer the row is as it was, or the defaults where there was none.
    pub patch_route_settings-IsPatched :
        (c : Calls) (p : Option Patch) (row : Option RouteSetting)
        → IsWellStored row
        → IsPatched row (patch_route_settings parses c p row)
    unfolding IsPatched patch_route_settings IsRead
    patch_route_settings-IsPatched c none row h = (h, inr (inl refl, inl refl))
    patch_route_settings-IsPatched c (some p) row h =
        let (setting, row') = get_route_setting c row in
        let (read, from) = get_route_setting-IsRead c row in
        patch_read-IsPatched c p row setting row' read (read-IsWellStored row row' read h) from
