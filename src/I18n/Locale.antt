-- ===== src/I18n/Locale.antt =====
-- klauthed-i18n/src/locale.rs: normalized locale tags.
pub mod Language
use rust_libraries.Prelude.{
  String, Bool, false, ◌||◌, Option, none, some, List, [], ◌∷◌, map, if◌then◌else◌, eqb,
}
use Prim.Native.Char.{Char, code}
use rust_libraries.Prelude.Text.{chars, of_chars, trim, to_ascii_lowercase}

abbrev pub Locale : Type 0
Locale = String

-- `replace('_', "-")`.
abbrev dashed : Char → Char
dashed c = if eqb (code c) b'_' then "-" else c

unfoldable pub normalize : String → String
normalize tag = of_chars (map dashed (map to_ascii_lowercase (trim (chars tag))))

unfoldable pub new : String → Locale
new tag = normalize tag

abbrev is_separator : Char → Bool
is_separator c = eqb (code c) b'-' || eqb (code c) b'_'

abbrev pub ends : Char → Option (List Char) → Option (List Char)
ends c none = none
ends c (some before) = some (c ∷ before)

-- The part of `split_once(['-', '_'])` before the separator.
unfoldable pub split_once : List Char → Option (List Char)
split_once [] = none
split_once (c ∷ cs) = let rest = split_once cs in if is_separator c then some [] else ends c rest

abbrev pub language_or : Locale → Option (List Char) → Locale
language_or locale none = locale
language_or locale (some lang) = of_chars lang

unfoldable pub primary : Locale → Locale
primary locale = language_or locale (split_once (chars locale))

abbrev any_separator : List Char → Bool
any_separator [] = false
any_separator (c ∷ cs) = is_separator c || any_separator cs

unfoldable pub has_region : Locale → Bool
has_region locale = any_separator (chars locale)
