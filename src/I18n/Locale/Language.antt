-- ===== src/I18n/Locale/Language.antt =====
-- The language of a locale tag.
use rust_libraries.Prelude.{
  Bool, true, false, ◌||◌, Option, none, some, List, [], ◌∷◌, ◌++◌, ◌≡◌, ◌⊎◌, inl, inr, refl, ap,
  sym, subst, All, eqb, Bool-cases,
}
use Prim.Native.Char.{Char, code}
use rust_libraries.Prelude.Text.{chars, chars-of_chars}
use rust_libraries.I18n.Locale.{Locale, ends, split_once, language_or, primary}

-- `-` or `_`.
abbrev pub separates : Char → Bool
separates c = eqb (code c) b'-' || eqb (code c) b'_'

-- A tag without a separator is its own language; otherwise the language stands before the first.
abbrev pub IsLanguage : Locale → Locale → Type 0
IsLanguage locale language =
    (All (λ c. separates c ≡ false) (chars locale) × (language ≡ locale))
    ⊎ ((c : Char) × (rest : List Char) × (chars locale ≡ chars language ++ (c ∷ rest))
        × (separates c ≡ true)
        × All (λ d. separates d ≡ false) (chars language))

-- The two answers of `split_once`.
Parted : List Char → Option (List Char) → Type 0
Parted cs none = All (λ c. separates c ≡ false) cs
Parted cs (some before) =
    (c : Char) × (rest : List Char) × (cs ≡ before ++ (c ∷ rest))
    × (separates c ≡ true)
    × All (λ d. separates d ≡ false) before

ends-Parted :
    (c : Char) (cs : List Char) (o : Option (List Char))
    → separates c ≡ false
    → Parted cs o
    → Parted (c ∷ cs) (ends c o)
unfolding Parted
ends-Parted c cs none e h = (e, h)
ends-Parted c cs (some before) e (d, rest, split, sep, apart) =
    (d, rest, ap (λ x. c ∷ x) split, sep, (e, apart))

split_once-Parted : (cs : List Char) → Parted cs (split_once cs)
unfolding split_once Parted
split_once-Parted [] = tt
split_once-Parted (c ∷ cs) = elim (Bool-cases (separates c)) [
  | inl e ↦ rw e (c, cs, refl, e, tt)
  | inr e ↦ rw e (ends-Parted c cs (split_once cs) e (split_once-Parted cs))
]

language_or-IsLanguage :
    (locale : Locale) (o : Option (List Char))
    → Parted (chars locale) o
    → IsLanguage locale (language_or locale o)
unfolding Parted
language_or-IsLanguage locale none h = inl (h, refl)
language_or-IsLanguage locale (some before) h = inr (
    subst
      (λ x.
        (c : Char) × (rest : List Char) × (chars locale ≡ x ++ (c ∷ rest))
        × (separates c ≡ true)
        × All (λ d. separates d ≡ false) x)
      (sym (chars-of_chars before)) h)

pub primary-IsLanguage : (locale : Locale) → IsLanguage locale (primary locale)
unfolding primary
primary-IsLanguage locale =
    language_or-IsLanguage locale (split_once (chars locale)) (split_once-Parted (chars locale))
