-- ===== src/Lifecycle/Served.antt =====
-- Which servers a client of kazenai/lifecycle_config.py accepts.
use kazenai_core.Base.{◌≡◌, Bool, true, String, Option, none, some}
use kazenai_core.Lifecycle.Server.{
  ServerCapabilities, supports_control, server_lifecycle, is_served_version,
}

-- The server says that it settles reservations: under `capabilities`, where it says anything there, and
-- at the top otherwise.
pub data Settles (caps : ServerCapabilities) : Type 0 where
  says_inside : caps.inner ≡ some true → Settles caps
  says_outside : caps.inner ≡ none → caps.outer ≡ true → Settles caps

-- The server names no version, the empty one, or that of the Control lifecycle.
pub data Speaks (caps : ServerCapabilities) : Type 0 where
  names_none : caps.lifecycle_version ≡ none → Speaks caps
  names_empty : caps.lifecycle_version ≡ some "" → Speaks caps
  names_control : caps.lifecycle_version ≡ some "reservation.lifecycle.v1" → Speaks caps

abbrev pub IsServing : ServerCapabilities → Type 0
IsServing caps = Settles caps × Speaks caps

-- What the code asks of the server.
abbrev IsTaken : ServerCapabilities → Type 0
IsTaken caps = (supports_control caps ≡ true) × (is_served_version (server_lifecycle caps) ≡ true)

module _ (inner : Option Bool) (outer : Bool) where
  abbrev with_version : Option String → ServerCapabilities
  with_version version = record { inner = inner; outer = outer; lifecycle_version = version }
