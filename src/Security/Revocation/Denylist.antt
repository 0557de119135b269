-- ===== src/Security/Revocation/Denylist.antt =====
-- A revoked token stays revoked until its entry expires.
use rust_libraries.Prelude.{
  ◌≤◌, ◌<◌, String, true, false, some, List, [], ◌∷◌, ◌≡◌, inl, inr, arith, All, string_eq,
  Option-cases, Bool-cases, eq_of_==,
}
use rust_libraries.Prelude.Map.{get, remove, get-insert, get-insert_self, get-remove}
use rust_libraries.Time.{Timestamp}
use rust_libraries.Security.Revocation.{Entries, revoke, is_revoked}

pub data Call : Type 0 where
  revokes : String → Timestamp → Call
  asks : String → Call

pub perform : Entries → Timestamp × Call → Entries
perform m (now, revokes jti expiry) = revoke m jti expiry
perform m (now, asks jti) = (is_revoked m now jti).0

pub perform_all : Entries → List (Timestamp × Call) → Entries
perform_all m [] = m
perform_all m (c ∷ rest) = perform_all (perform m c) rest

-- A call at an instant before the expiry that does not revoke the token anew for a shorter time.
abbrev pub Upholds : String → Timestamp → Timestamp × Call → Type 0
Upholds jti expiry (now, revokes k x) = (k ≡ jti) → expiry ≤ x
Upholds jti expiry (now, asks k) = now < expiry

-- The entry of the token lasts at least until the expiry.
abbrev Lasts : Entries → String → Timestamp → Type 0
Lasts m jti expiry = (x : Timestamp) × (get jti m ≡ some x) × (expiry ≤ x)

perform-Lasts :
    (m : Entries) (c : Timestamp × Call) (jti : String) (expiry : Timestamp)
    → Upholds jti expiry c
    → Lasts m jti expiry
    → Lasts (perform m c) jti expiry
unfolding perform revoke is_revoked
perform-Lasts m (now, revokes k y) jti expiry u (x, g, le) =
    elim (Bool-cases (string_eq.beq k jti)) [
      | inl e ↦ (y, ground (arith, get-insert k jti y m), u (eq_of_== k jti e))
      | inr e ↦ (x, ground (arith, get-insert k jti y m), le)
    ]
perform-Lasts m (now, asks k) jti expiry u (x, g, le) =
    (x, ground (arith, get-remove k jti m, string_eq.beq_iff k jti, Option-cases (get k m)), le)

pub perform_all-Lasts :
    (m : Entries) (calls : List (Timestamp × Call)) (jti : String) (expiry : Timestamp)
    → All (Upholds jti expiry) calls
    → Lasts m jti expiry
    → Lasts (perform_all m calls) jti expiry
unfolding perform_all
perform_all-Lasts m [] jti expiry u l = l
perform_all-Lasts m (c ∷ rest) jti expiry (u, us) l =
    perform_all-Lasts (perform m c) rest jti expiry us (perform-Lasts m c jti expiry u l)

-- After a revocation, whatever calls follow before the expiry, the token is still revoked at every
-- instant before the expiry, provided no later revocation of the token shortens it.
pub revoked_until_expiry :
    (m : Entries) (jti : String) (expiry now : Timestamp) (calls : List (Timestamp × Call))
    → All (Upholds jti expiry) calls
    → now < expiry
    → (is_revoked (perform_all (revoke m jti expiry) calls) now jti).1 ≡ true
unfolding is_revoked
revoked_until_expiry m jti expiry now calls u lt =
    let start : Lasts (revoke m jti expiry) jti expiry =
      (expiry, unfold revoke in get-insert_self jti expiry m, omega arith) in
    let (x, g, le) = perform_all-Lasts (revoke m jti expiry) calls jti expiry u start in
    ground arith

-- A look at or after the expiry finds the token not revoked and drops its entry; one before it
-- leaves every entry as it is.
pub is_revoked_lem :
    (m : Entries) (jti : String) (expiry now : Timestamp)
    → get jti m ≡ some expiry
    → (now < expiry → is_revoked m now jti ≡ (m, true))
      × (expiry ≤ now → is_revoked m now jti ≡ (remove jti m, false))
unfolding is_revoked
is_revoked_lem m jti expiry now g = (λ lt. ground arith, λ le. ground arith)
