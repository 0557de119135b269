-- ===== src/I18n/Messages.antt =====
-- klauthed-i18n/src/lib.rs: the catalogs of all locales, their builder, and the fallback.
pub mod Fallback
use rust_libraries.Prelude.{
  String, Bool, true, false, not, ◌&&◌, Option, none, some, List, [], ◌∷◌, if◌then◌else◌, ◌==◌,
  string_eq, Result, ok, err, is_some, ◌>>=◌,
}
use rust_libraries.Prelude.Map.{Map, get, insert}
use rust_libraries.I18n.Locale
use rust_libraries.I18n.Catalog.{Catalog, TomlTable, I18nError, from_toml_str, get_message, merge}
use rust_libraries.I18n.Format.{Args, no_args, interpolate}

-- The builder has the same two fields, and `build` passes them on.
pub record I18n : Type 0 where
  pub catalogs : Map Locale.Locale Catalog
  pub default : Locale.Locale

unfoldable pub new : I18n
new = record { catalogs = []; default = Locale.new "en" }

unfoldable pub default_locale : I18n → String → I18n
default_locale i18n locale = record i18n { default = Locale.new locale }

abbrev pub entry_or_default : Option Catalog → Catalog
entry_or_default none = []
entry_or_default (some catalog) = catalog

unfoldable pub merge_into : I18n → Locale.Locale → Catalog → I18n
merge_into i18n locale catalog = record i18n {
  catalogs =
      insert locale (merge (entry_or_default (get locale i18n.catalogs)) catalog) i18n.catalogs;
}

abbrev pub with_catalog : I18n → Locale.Locale → Result I18nError Catalog → Result I18nError I18n
with_catalog i18n locale (err e) = err e
with_catalog i18n locale (ok catalog) = ok (merge_into i18n locale catalog)

-- `read` is the parser of the crate toml.
unfoldable pub add_catalog :
    (String → Result String TomlTable) → I18n → String → String → Result I18nError I18n
add_catalog read i18n tag toml_str =
    with_catalog i18n (Locale.new tag) (from_toml_str read (Locale.new tag) toml_str)

-- The loop of `embedded_defaults`, over the pairs of EMBEDDED.
unfoldable pub add_catalogs :
    (String → Result String TomlTable) → List (String × String) → I18n → Result I18nError I18n
add_catalogs read [] i18n = ok i18n
add_catalogs read ((tag, toml_str) ∷ rest) i18n = do
  added ← add_catalog read i18n tag toml_str
  add_catalogs read rest added

abbrev pub has_locale : I18n → Locale.Locale → Bool
has_locale i18n locale = is_some (get locale i18n.catalogs)

abbrev pub message_of : String → Option Catalog → Option String
message_of key none = none
message_of key (some catalog) = get_message catalog key

-- A message that a step of the fallback finds, or else what the later steps find.
abbrev pub found_or : Option String → Option String → Option String
found_or (some message) later = some message
found_or none later = later

unfoldable pub resolve : I18n → Locale.Locale → String → Option String
resolve i18n locale key = found_or (message_of key (get locale i18n.catalogs)) (
    found_or
      (if not (Locale.primary locale == locale)
        then message_of key (get (Locale.primary locale) i18n.catalogs)
        else none)
      (message_of key (get i18n.default i18n.catalogs)))

abbrev pub message : I18n → Locale.Locale → String → Option String
message i18n locale key = resolve i18n locale key

abbrev pub text_of : String → Args → Option String → String
text_of key args (some template) = interpolate template args
text_of key args none = key

unfoldable pub translate_with : I18n → Locale.Locale → String → Args → String
translate_with i18n locale key args = text_of key args (resolve i18n locale key)

unfoldable pub translate : I18n → Locale.Locale → String → String
translate i18n locale key = translate_with i18n locale key no_args
