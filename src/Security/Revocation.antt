-- ===== src/Security/Revocation.antt =====
-- klauthed-security/src/revocation/memory.rs: `InMemoryTokenDenylist`.
pub mod Denylist
use rust_libraries.Prelude.{
  ℕ, String, Bool, true, false, Option, none, some, List, [], leb, if◌then◌else◌, string_eq,
}
use rust_libraries.Prelude.Map.{Map, get, insert, remove}
use rust_libraries.Time.{Timestamp}

-- A token's `jti` and the instant from which its entry may be dropped.
abbrev pub Entries : Type 0
Entries = Map String Timestamp

unfoldable pub new : Entries
new = []

unfoldable pub revoke : Entries → String → Timestamp → Entries
revoke m jti expires_at = insert jti expires_at m

abbrev look : Entries → Timestamp → String → Option Timestamp → Entries × Bool
look m now jti none = (m, false)
look m now jti (some expires_at) = if leb expires_at now then (remove jti m, false) else (m, true)

unfoldable pub is_revoked : Entries → Timestamp → String → Entries × Bool
is_revoked m now jti = look m now jti (get jti m)
