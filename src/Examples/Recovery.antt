-- ===== src/Examples/Recovery.antt =====
-- Recovery codes at a concrete input.
use rust_libraries.Prelude.{ℕ, ◌≡◌, refl, true, false, List, [], ◌∷◌}
use rust_libraries.Security.Recovery.{RecoveryCodeSet, normalize, candidate, verify_and_consume}
use rust_libraries.Security.Compare.{constant_time_eq}
use rust_libraries.Security.Authz.Permission.{text_eq}
use rust_libraries.Security.Recovery.Spent.{uses, verify_all, accepted_once}
use rust_libraries.Examples.Clock.{plain_bytes}

-- A stand-in for the digest.
abbrev digest : List ℕ → List ℕ
digest c = 7 ∷ c

-- The hashes of `ab` and `cd`.
abbrev hashes : RecoveryCodeSet
hashes = (7 ∷ b'a' ∷ b'b' ∷ []) ∷ (7 ∷ b'c' ∷ b'd' ∷ []) ∷ []

-- `A-B` and `cd`, as typed.
abbrev typed : List ℕ
typed = b'A' ∷ b'-' ∷ b'B' ∷ []

abbrev another : List ℕ
another = b'c' ∷ b'd' ∷ []

stands_once : uses digest hashes typed ≡ 1
unfolding candidate normalize constant_time_eq text_eq
stands_once = refl

accepted_once_example :
    ((verify_and_consume digest hashes typed).1 ≡ true)
    × ((verify_and_consume digest
          (verify_all digest (verify_and_consume digest hashes typed).0 (another ∷ typed ∷ []))
          typed).1
        ≡ false)
accepted_once_example = accepted_once digest hashes typed (another ∷ typed ∷ []) stands_once
