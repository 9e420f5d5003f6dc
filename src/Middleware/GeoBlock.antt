-- ===== src/Middleware/GeoBlock.antt =====
-- `GeoIPBlocker`, `isLocalIP` and `isBannedIP` of middleware/security.go, in front of every route.
pub mod Ban
use Prim.Native.String.{String, len}
use text.Mathlib.Text.{◌==◌}
use mop_backend_api.Base.{
  ℕ, ◌+◌, Bool, true, false, not, ◌&&◌, ◌||◌, List, [], ◌∷◌, Option, none, some, ltb, if◌then◌else◌,
}
use mop_backend_api.Middleware.Auth.{AuthAttempt}

-- What the handler uses of the package net and of the country database: an address that cannot be
-- parsed is nil, a lookup can fail, and its record can be nil.
pub record Network (Address : Type 0) : Type 0 where
  pub parse_ip : String → Option Address
  pub show_ip : Option Address → String
  pub is_loopback : Address → Bool
  pub is_private : Address → Bool
  pub is_link_local : Address → Bool
  pub country : Option Address → Option (Option String)

pub record Visitor : Type 0 where
  pub production : Bool
  pub client_ip : String
  -- the header REAL-IP, empty where it is missing
  pub real_ip : String
  pub now : ℕ
  -- whether the database answers the query for a ban
  pub answers : Bool

pub data Passage : Type 0 where
  passed forbidden lookup_failed : Passage

-- twelve hours
abbrev pub ban : ℕ
ban = 43200

-- the query finds a row
unfoldable pub has_recent : (ip : String) (now : ℕ) → List AuthAttempt → Bool
has_recent ip now [] = false
has_recent ip now (a ∷ rows) =
    ((a.ip == ip) && ltb now (a.created_at + ban)) || has_recent ip now rows

module _ {Address : Type 0} (net : Network Address) where
  unfoldable pub is_local_ip : Option Address → Bool
  is_local_ip none = false
  is_local_ip (some a) = net.is_loopback a || (net.is_private a || net.is_link_local a)

  -- A query that fails leaves the id 0, which is no ban.
  unfoldable pub is_banned_ip :
      (answers : Bool) → Option Address → (now : ℕ) → List AuthAttempt → Bool
  is_banned_ip answers ip now rows = answers && has_recent (net.show_ip ip) now rows

  -- the address that counts: outside production the header can set it
  unfoldable pub address_of : Visitor → Option Address
  address_of v =
      if not v.production && ltb 4 (len v.real_ip)
      then net.parse_ip v.real_ip
      else net.parse_ip v.client_ip

  unfoldable pub geo_ip_blocker : (allowed_country : String) → Visitor → List AuthAttempt → Passage
  geo_ip_blocker allowed v rows =
      let ip = address_of v in
      if is_local_ip ip
      then passed
      else if is_banned_ip v.answers ip v.now rows
      then forbidden
      else elim (net.country ip) [
        | none ↦ lookup_failed
        | some none ↦ forbidden
        | some (some code) ↦ if code == allowed then passed else forbidden
      ]
