-- ===== src/Security/Recovery.antt =====
-- klauthed-security/src/mfa/recovery.rs: the stored set of one-time recovery codes. A text is the
-- list of its characters' codes, and the hex SHA-256 of a text, which the crates `ring` and `hex`
-- compute, is the parameter `sha256_hex`. `generate`, which draws random bytes and formats them, is
-- left out.
pub mod Spent
use rust_libraries.Prelude.{
  ℕ, zero, suc, ◌+◌, Bool, true, false, ◌&&◌, ◌||◌, Option, none, some, List, [], ◌∷◌, length, map,
  keep, leb, if◌then◌else◌,
}
use rust_libraries.Security.Compare.{SubtleApi, constant_time_eq}

abbrev within : ℕ → ℕ → ℕ → Bool
within lo hi c = leb lo c && leb c hi

-- `char::is_ascii_alphanumeric`.
abbrev is_alphanumeric : ℕ → Bool
is_alphanumeric c = within b'0' b'9' c || (within b'A' b'Z' c || within b'a' b'z' c)

-- `to_ascii_lowercase`.
abbrev lowercase : ℕ → ℕ
lowercase c = if within b'A' b'Z' c then c + 32 else c

unfoldable pub normalize : List ℕ → List ℕ
normalize code = map lowercase (keep is_alphanumeric code)

abbrev pub RecoveryCodeSet : Type 0
RecoveryCodeSet = List (List ℕ)

unfoldable pub from_hashes : List (List ℕ) → RecoveryCodeSet
from_hashes hashes = hashes

unfoldable pub remaining : RecoveryCodeSet → ℕ
remaining s = length s

abbrev next_index : Option ℕ → Option ℕ
next_index none = none
next_index (some i) = some (suc i)

-- `iter().position(p)`.
unfoldable pub position : (List ℕ → Bool) → RecoveryCodeSet → Option ℕ
position p [] = none
position p (h ∷ hs) = let rest = position p hs in if p h then some zero else next_index rest

-- The list with its last element moved to the front, whose place it takes.
unfoldable pub last_first : List ℕ → RecoveryCodeSet → RecoveryCodeSet
last_first h [] = h ∷ []
last_first h (g ∷ gs) = elim (last_first g gs) [ [] ↦ h ∷ [] | l ∷ front ↦ l ∷ h ∷ front ]

-- `Vec::swap_remove`: the last element takes the place of the removed one.
unfoldable pub swap_remove : RecoveryCodeSet → ℕ → RecoveryCodeSet
unfolding last_first
swap_remove [] i = []
swap_remove (h ∷ []) zero = []
swap_remove (h ∷ g ∷ gs) zero = last_first g gs
swap_remove (h ∷ hs) (suc i) = h ∷ swap_remove hs i

unfoldable pub candidate : (List ℕ → List ℕ) → List ℕ → List ℕ
unfolding normalize
candidate sha256_hex presented = sha256_hex (normalize presented)

module _ ⦃subtle : SubtleApi⦄ (sha256_hex : List ℕ → List ℕ) where
  unfoldable pub verify_and_consume : RecoveryCodeSet → List ℕ → RecoveryCodeSet × Bool
  unfolding position swap_remove candidate
  verify_and_consume s presented =
      elim (position (λ stored. constant_time_eq (candidate sha256_hex presented) stored) s) [
        | none ↦ (s, false)
        | some i ↦ (swap_remove s i, true)
      ]
