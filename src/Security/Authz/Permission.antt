-- ===== src/Security/Authz/Permission.antt =====
-- klauthed-security/src/authz/permission.rs. A permission is the list of its characters' codes.
use rust_libraries.Prelude.{
  ℕ, ◌+◌, ◌-◌, Bool, true, false, ◌&&◌, ◌||◌, none, some, List, [], ◌∷◌, ◌≡◌, refl, ◌↔◌, arith,
  length, get_elem?, ltb, eqb, eqb_iff, if◌then◌else◌, Eq, ◌==◌, subst,
}

abbrev pub Text : Type 0
Text = List ℕ

unfoldable pub text_eq : Text → Text → Bool
text_eq [] [] = true
text_eq (a ∷ s) (b ∷ t) = eqb a b && text_eq s t
text_eq _ _ = false

text_eq_refl : (s : Text) → text_eq s s ≡ true
unfolding text_eq
text_eq_refl [] = refl
text_eq_refl (a ∷ s) = ground (arith, text_eq_refl s, eqb_iff a a)

text_eq_sound : (s t : Text) → text_eq s t ≡ true → s ≡ t
unfolding text_eq
text_eq_sound [] [] h = refl
text_eq_sound [] (b ∷ t) h = ground arith
text_eq_sound (a ∷ s) [] h = ground arith
text_eq_sound (a ∷ s) (b ∷ t) h = ground (arith, text_eq_sound s t, eqb_iff a b)

pub text_eq_iff : (s t : Text) → (text_eq s t ≡ true) ↔ (s ≡ t)
text_eq_iff s t = (text_eq_sound s t, λ e. subst (λ u. text_eq s u ≡ true) e (text_eq_refl s))

instance abbrev pub text_instance : Eq Text
text_instance = record { beq = text_eq; beq_iff = text_eq_iff }

abbrev pub Permission : Type 0
Permission = Text

abbrev pub colon : ℕ
colon = b':'

abbrev pub star : Text
star = b'*' ∷ []

abbrev pub push_front : ℕ → List Text → List Text
push_front c [] = (c ∷ []) ∷ []
push_front c (s ∷ ss) = (c ∷ s) ∷ ss

-- `self.0.split(':')`: one segment more than there are colons.
unfoldable pub split : Text → List Text
split [] = [] ∷ []
split (c ∷ cs) = let rest = split cs in if eqb c colon then [] ∷ rest else push_front c rest

-- The loop over `granted.iter().enumerate()`, at the index `i`.
unfoldable pub grants_from : List Text → List Text → ℕ → List Text → Bool
grants_from granted needed i [] = eqb (length granted) (length needed)
grants_from granted needed i (g ∷ rest) =
    if g == star && eqb i (length granted - 1)
    then ltb i (length needed)
    else elim (get_elem? needed i) [
      | none ↦ false
      | some n ↦ if g == star || g == n then grants_from granted needed (i + 1) rest else false
    ]

unfoldable pub grants : Permission → Permission → Bool
grants self required =
    if self == star then true else grants_from (split self) (split required) 0 (split self)
