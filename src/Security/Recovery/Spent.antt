-- ===== src/Security/Recovery/Spent.antt =====
-- A recovery code works once.
use rust_libraries.Prelude.{
  ℕ, zero, suc, ◌+◌, ◌-◌, ◌≤◌, ◌≡◌, refl, sym, ◌∙◌, ap, Bool, true, false, none, some, List, [],
  ◌∷◌, if◌then◌else◌, Option-cases, Bool-cases, inl, inr, arith, eqb,
}
use rust_libraries.Prelude.Sort.{tally}
use rust_libraries.Security.Compare.{SubtleApi, constant_time_eq}
use rust_libraries.Security.Recovery.{
  RecoveryCodeSet, position, last_first, swap_remove, candidate, verify_and_consume,
}

tally-last_first :
    (p : List ℕ → Bool) (h : List ℕ) (hs : RecoveryCodeSet)
    → tally p (last_first h hs) ≡ tally p (h ∷ hs)
unfolding last_first
tally-last_first p h [] = refl
tally-last_first p h (g ∷ gs) = ground (arith, tally-last_first p g gs)

position-none : (p : List ℕ → Bool) (hs : RecoveryCodeSet) → position p hs ≡ none → tally p hs ≡ 0
unfolding position
position-none p [] e = refl
position-none p (h ∷ hs) e = ground (arith, position-none p hs)

abbrev counted : (List ℕ → Bool) → List ℕ → ℕ
counted q h = if q h then 1 else 0

-- `swap_remove` at the position found takes out one element that passes the test, and no other.
taken_out :
    (p : List ℕ → Bool) (hs : RecoveryCodeSet) (i : ℕ)
    → position p hs ≡ some i
    → (h : List ℕ) × (p h ≡ true)
      × ((q : List ℕ → Bool) → tally q hs ≡ counted q h + tally q (swap_remove hs i))
unfolding position swap_remove
taken_out p [] i e = absurd (ground arith)
taken_out p (h ∷ hs) i e = elim (Bool-cases (p h)) [
  | inl a ↦
      let here : zero ≡ i = ground arith in
      (h, a, λ q. front_out q hs ∙ ap (λ n. counted q h + tally q (swap_remove (h ∷ hs) n)) here)
  | inr a ↦ elim (Option-cases (position p hs)) [
    | inl f ↦ absurd (ground arith)
    | inr (j, f) ↦
        let (g, b, rest) = taken_out p hs j f in
        let next : suc j ≡ i = ground arith in
        (
          g,
          b,
          λ q.
              behind q j g (rest q) ∙ ap (λ n. counted q g + tally q (swap_remove (h ∷ hs) n)) next,
        )
  ]
]
  where
    front_out :
        (q : List ℕ → Bool) (rest : RecoveryCodeSet)
        → tally q (h ∷ rest) ≡ counted q h + tally q (swap_remove (h ∷ rest) zero)
    front_out q [] = refl
    front_out q (g ∷ gs) = ap (λ n. counted q h + n) (sym (tally-last_first q g gs))

    behind :
        (q : List ℕ → Bool) (j : ℕ) (g : List ℕ)
        → tally q hs ≡ counted q g + tally q (swap_remove hs j)
        → tally q (h ∷ hs) ≡ counted q g + tally q (swap_remove (h ∷ hs) (suc j))
    behind q j g same = later hs same
      where
        later :
            (rest : RecoveryCodeSet)
            → tally q rest ≡ counted q g + tally q (swap_remove rest j)
            → tally q (h ∷ rest) ≡ counted q g + tally q (swap_remove (h ∷ rest) (suc j))
        later [] e = omega (arith, e)
        later (x ∷ xs) e = omega (arith, e)

module _ ⦃subtle : SubtleApi⦄ (sha256_hex : List ℕ → List ℕ) where
  -- How often the set still accepts what was presented.
  abbrev pub uses : RecoveryCodeSet → List ℕ → ℕ
  uses s presented = tally (λ stored. constant_time_eq (candidate sha256_hex presented) stored) s

  pub verify_all : RecoveryCodeSet → List (List ℕ) → RecoveryCodeSet
  verify_all s [] = s
  verify_all s (p ∷ ps) = verify_all (verify_and_consume sha256_hex s p).0 ps

  verify_lem :
      (s : RecoveryCodeSet) (presented : List ℕ)
      → ((verify_and_consume sha256_hex s presented).1
          ≡ (if eqb (uses s presented) 0 then false else true))
        × (uses (verify_and_consume sha256_hex s presented).0 presented ≡ uses s presented - 1)
        × ((other : List ℕ)
            → uses (verify_and_consume sha256_hex s presented).0 other ≤ uses s other)
  unfolding verify_and_consume
  verify_lem s presented =
      let p : List ℕ → Bool = λ stored. constant_time_eq (candidate sha256_hex presented) stored in
      elim (Option-cases (position p s)) [
        | inl e ↦
            let zero_uses = position-none p s e in
            rw (e, verify_and_consume)
              (ground (arith, zero_uses), omega (arith, zero_uses), λ other. omega arith)
        | inr (i, e) ↦
            let (h, passes, out) = taken_out p s i e in
            rw (e, verify_and_consume)
              (
                ground (arith, out p),
                ground (arith, out p),
                λ other. omega (arith, out (λ x. constant_time_eq (candidate sha256_hex other) x)),
              )
      ]

  uses-verify_all :
      (s : RecoveryCodeSet) (history : List (List ℕ)) (other : List ℕ)
      → uses (verify_all s history) other ≤ uses s other
  unfolding verify_all
  uses-verify_all s [] other = omega arith
  uses-verify_all s (p ∷ ps) other = omega (
    arith,
    uses-verify_all (verify_and_consume sha256_hex s p).0 ps other,
    (verify_lem s p).2 other,
  )

  -- A code whose hash stands once in the set is accepted, and never again afterwards, whatever is
  -- presented in between.
  pub accepted_once :
      (s : RecoveryCodeSet) (presented : List ℕ) (history : List (List ℕ))
      → uses s presented ≡ 1
      → ((verify_and_consume sha256_hex s presented).1 ≡ true)
        × ((verify_and_consume sha256_hex
              (verify_all (verify_and_consume sha256_hex s presented).0 history)
              presented).1
            ≡ false)
  accepted_once s presented history once =
      let first = verify_lem s presented in
      let after = (verify_and_consume sha256_hex s presented).0 in
      let spent : uses (verify_all after history) presented ≡ 0 =
        omega (arith, uses-verify_all after history presented, first.1) in
      (first.0 ∙ rw once refl, (verify_lem (verify_all after history) presented).0 ∙ rw spent refl)
