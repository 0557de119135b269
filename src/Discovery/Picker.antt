-- ===== src/Discovery/Picker.antt =====
-- klauthed-discovery/src/picker.rs: `RoundRobin`. The counter is a `usize` of 64 bits, and the
-- picks are in the order of their `fetch_add`.
use native.Mathlib.Nat.{mul-add-mod_self_left, mod-eq_of_lt}
use rust_libraries.Prelude.{
  ℕ, zero, suc, ◌+◌, ◌*◌, ◌%◌, ◌<◌, ◌≡◌, refl, ◌∙◌, ap, Option, none, some, List, [], ◌∷◌, ◌++◌,
  map, length, get_elem?, length-append, arith,
}
use rust_libraries.Discovery.Instance.{ServiceInstance}

abbrev pub RoundRobin : Type 0
RoundRobin = ℕ

abbrev pub usize_mod : ℕ
usize_mod = 18446744073709551616

unfoldable pub new : RoundRobin
new = 0

unfoldable pub pick : RoundRobin → List ServiceInstance → RoundRobin × Option ServiceInstance
pick next [] = (next, none)
pick next (i ∷ rest) = ((next + 1) % usize_mod, get_elem? (i ∷ rest) (next % length (i ∷ rest)))

-- This many picks from one slice, one after the other.
pub picks : ℕ → RoundRobin → List ServiceInstance → RoundRobin × List (Option ServiceInstance)
picks zero next list = (next, [])
picks (suc n) next list =
    let (later, picked) = pick next list in
    let (last, rest) = picks n later list in (last, picked ∷ rest)

elem_behind :
    (before : List ServiceInstance) (i : ServiceInstance) (behind : List ServiceInstance)
    → get_elem? (before ++ i ∷ behind) (length before) ≡ some i
elem_behind [] i behind = refl
elem_behind (x ∷ before) i behind = elem_behind before i behind

pick-some :
    (next : ℕ) (list : List ServiceInstance) (i : ServiceInstance)
    → get_elem? list (next % length list) ≡ some i
    → next + 1 < usize_mod
    → pick next list ≡ (next + 1, some i)
unfolding pick
pick-some next [] i h fits = absurd (ground arith)
pick-some next (x ∷ rest) i h fits = ground (arith, mod-eq_of_lt fits)

pick_at :
    (rounds : ℕ) (list before : List ServiceInstance) (i : ServiceInstance)
    (behind : List ServiceInstance)
    → list ≡ before ++ i ∷ behind
    → length list * rounds + length list < usize_mod
    → pick (length list * rounds + length before) list
      ≡ (length list * rounds + length before + 1, some i)
pick_at rounds list before i behind e fits =
    let sizes : length list ≡ length before + length (i ∷ behind) =
      ap length e ∙ length-append before (i ∷ behind) in
    let place : (length list * rounds + length before) % length list ≡ length before =
      mul-add-mod_self_left (length list) rounds (length before) ∙ mod-eq_of_lt (omega arith) in
    pick-some (length list * rounds + length before) list i
      (rw place (rw e (elem_behind before i behind))) (omega arith)

move_on :
    (before : List ServiceInstance) (i : ServiceInstance) (behind : List ServiceInstance)
    → before ++ i ∷ behind ≡ (before ++ i ∷ []) ++ behind
move_on [] i behind = refl
move_on (x ∷ before) i behind = ap (λ l. x ∷ l) (move_on before i behind)

pick_round :
    (rounds : ℕ) (list before behind : List ServiceInstance)
    → list ≡ before ++ behind
    → length list * rounds + length list < usize_mod
    → (picks (length behind) (length list * rounds + length before) list).1 ≡ map some behind
unfolding picks
pick_round rounds list before [] e fits = refl
pick_round rounds list before (i ∷ behind) e fits =
    let here = pick_at rounds list before i behind e fits in
    let next : length list * rounds + length before + 1
        ≡ length list * rounds + length (before ++ i ∷ []) =
      omega (arith, length-append before (i ∷ [])) in
    rw here (
      ap (λ l. some i ∷ l)
        (ap (λ n. (picks (length behind) n list).1) next
          ∙ pick_round rounds list (before ++ i ∷ []) behind (e ∙ move_on before i behind) fits))

-- A round of picks returns every instance once, in the order of the slice, whichever round it is,
-- while the counter stays below 2^64.
pub picks_in_turn :
    (rounds : ℕ) (list : List ServiceInstance)
    → length list * rounds + length list < usize_mod
    → (picks (length list) (length list * rounds) list).1 ≡ map some list
picks_in_turn rounds list fits =
    ap (λ n. (picks (length list) n list).1) (omega arith)
    ∙ pick_round rounds list [] list refl fits
