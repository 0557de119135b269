-- ===== src/Platform/Cron/Bits.antt =====
-- The bit masks of the cron fields.
use rust_libraries.Prelude.{
  ℕ, zero, suc, ◌+◌, ◌*◌, ◌/◌, ◌%◌, ◌≡◌, refl, ◌∙◌, ap, Bool, true, ◌||◌, eqb, arith, ◌≤◌, ◌<◌,
  some, ◌↔◌, ◌⊎◌, inl, inr, eqb_iff, Bool-cases, sym, dec_lt,
}
use rust_libraries.Platform.Cron.{test_bit, set_bit, bit_of, fill, fill_fuel}

-- A set bit is found, and every other bit is as it was.
pub test_bit-set_bit : (mask v w : ℕ) → test_bit (set_bit mask v) w ≡ (eqb v w || test_bit mask w)
unfolding test_bit set_bit
test_bit-set_bit mask zero zero = ground arith
test_bit-set_bit mask zero (suc w) =
    let e : (mask / 2 * 2 + 1) / 2 ≡ mask / 2 = omega arith in
    ground (arith, ap (λ m. test_bit m w) e)
test_bit-set_bit mask (suc v) zero =
    let e : (set_bit (mask / 2) v * 2 + mask % 2) % 2 ≡ mask % 2 = omega arith in ground arith
test_bit-set_bit mask (suc v) (suc w) =
    let e : (set_bit (mask / 2) v * 2 + mask % 2) / 2 ≡ set_bit (mask / 2) v = omega arith in
    ground (arith, ap (λ m. test_bit m w) e, test_bit-set_bit (mask / 2) v w)

-- The loop reaches a value from `v` on, in steps, whose bit this is.
abbrev pub Reached : Bool → ℕ → ℕ → ℕ → ℕ → Type 0
Reached wrap step hi v w = (k : ℕ) × (v + k * step ≤ hi) × (bit_of wrap (v + k * step) ≡ w)

Reached-next :
    (wrap : Bool) (step hi v w : ℕ) → Reached wrap step hi (v + step) w → Reached wrap step hi v w
Reached-next wrap step hi v w (k, le, e) =
    let same : v + step + k * step ≡ v + suc k * step = omega arith in
    (suc k, omega arith, ap (bit_of wrap) (sym same) ∙ e)

Reached-cases :
    (wrap : Bool) (step hi v w : ℕ)
    → Reached wrap step hi v w
    → (bit_of wrap v ≡ w) ⊎ Reached wrap step hi (v + step) w
Reached-cases wrap step hi v w (zero, le, e) =
    let same : v + zero * step ≡ v = omega arith in inl (ap (bit_of wrap) (sym same) ∙ e)
Reached-cases wrap step hi v w (suc k, le, e) =
    let same : v + step + k * step ≡ v + suc k * step = omega arith in
    inr (k, omega arith, ap (bit_of wrap) same ∙ e)

Reached-le : (wrap : Bool) (step hi v w : ℕ) → Reached wrap step hi v w → v ≤ hi
Reached-le wrap step hi v w (k, le, e) = omega arith

-- What is set at the end: the bits of the mask, and the reached ones.
abbrev Sets : Bool → ℕ → ℕ → ℕ → ℕ → ℕ → Type 0
Sets wrap step hi v mask out =
    (w : ℕ) → (test_bit out w ≡ true) ↔ ((test_bit mask w ≡ true) ⊎ Reached wrap step hi v w)

Sets-step :
    (wrap : Bool) (step hi v mask out : ℕ)
    → v ≤ hi
    → Sets wrap step hi (v + step) (set_bit mask (bit_of wrap v)) out
    → Sets wrap step hi v mask out
Sets-step wrap step hi v mask out le s w =
    let b = bit_of wrap v in
    let bits = test_bit-set_bit mask b w in
    (
      λ h. elim ((s w).0 h) [
        | inl old ↦ elim (Bool-cases (eqb b w)) [
          | inl e ↦ inr (reached_now e)
          | inr n ↦ inl (sym (bits ∙ rw n refl) ∙ old)
        ]
        | inr r ↦ inr (Reached-next wrap step hi v w r)
      ],
      λ h. elim h [
        | inl m ↦ (s w).1 (inl (kept m))
        | inr r ↦ elim (Reached-cases wrap step hi v w r) [
          | inl e ↦ (s w).1 (inl (set_now e))
          | inr later ↦ (s w).1 (inr later)
        ]
      ],
    )
  where
    reached_now : eqb (bit_of wrap v) w ≡ true → Reached wrap step hi v w
    reached_now e =
        let same : v + zero * step ≡ v = omega arith in
        (zero, omega arith, ap (bit_of wrap) same ∙ (eqb_iff (bit_of wrap v) w).0 e)

    kept : test_bit mask w ≡ true → test_bit (set_bit mask (bit_of wrap v)) w ≡ true
    kept m = ground (arith, test_bit-set_bit mask (bit_of wrap v) w)

    set_now : bit_of wrap v ≡ w → test_bit (set_bit mask (bit_of wrap v)) w ≡ true
    set_now e =
        let found = (eqb_iff (bit_of wrap v) w).1 e in
        test_bit-set_bit mask (bit_of wrap v) w ∙ rw found refl

Sets-end : (wrap : Bool) (step hi v mask : ℕ) → hi < v → Sets wrap step hi v mask mask
Sets-end wrap step hi v mask lt w = (
  λ h. inl h,
  λ h. elim h [ inl m ↦ m | inr r ↦ absurd (omega (arith, Reached-le wrap step hi v w r)) ],
)

fill_from :
    (fuel : ℕ) (wrap : Bool) (step hi v mask : ℕ)
    → 1 ≤ step
    → hi + step ≤ 255
    → hi < v + fuel
    → (out : ℕ) × (fill (suc fuel) wrap step hi v mask ≡ some out) × Sets wrap step hi v mask out
unfolding fill
fill_from zero wrap step hi v mask pos fits enough =
    (mask, ground arith, Sets-end wrap step hi v mask (omega arith))
fill_from (suc fuel) wrap step hi v mask pos fits enough = elim (dec_lt hi v) [
  | yes lt ↦ (mask, ground arith, Sets-end wrap step hi v mask lt)
  | no ge ↦
      let (out, e, s) =
        fill_from fuel wrap step hi (v + step) (set_bit mask (bit_of wrap v)) pos fits
          (omega arith) in
      (out, ground arith, Sets-step wrap step hi v mask out (omega arith) s)
]

-- For a range `lo..=hi` and a positive step that cannot take a `u8` past 255, the loop ends without
-- an overflow, and the mask then has exactly the bits it had and those of `lo`, `lo + step`, … up to
-- `hi`.
pub fill_sets :
    (wrap : Bool) (step hi lo mask : ℕ)
    → 1 ≤ step
    → hi + step ≤ 255
    → (out : ℕ) × (fill fill_fuel wrap step hi lo mask ≡ some out)
      × ((w : ℕ) → (test_bit out w ≡ true) ↔ ((test_bit mask w ≡ true) ⊎ Reached wrap step hi lo w))
fill_sets wrap step hi lo mask pos fits = fill_from 256 wrap step hi lo mask pos fits (omega arith)
