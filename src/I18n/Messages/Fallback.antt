-- ===== src/I18n/Messages/Fallback.antt =====
-- What a catalog that is added changes in the translations.
use rust_libraries.Prelude.{
  String, Bool, true, not, Option, none, some, List, [], ◌∷◌, ◌≡◌, refl, ap, ◌∙◌, arith, Bool-cases,
  inl, inr, if◌then◌else◌, ◌==◌, string_eq, Result, ok, eq_of_==,
}
use rust_libraries.Prelude.Map.{get, IsMap, get-insert}
use rust_libraries.I18n.Locale
use rust_libraries.I18n.Locale.Language.{IsLanguage, primary-IsLanguage}
use rust_libraries.I18n.Catalog.Leaves.{leaves, laid, flatten-laid}
use rust_libraries.I18n.Catalog.{
  Catalog, TomlTable, catalog_of, from_toml_str, get_message, merge, get-merge, or_else,
  flatten-IsMap, flatten,
}
use rust_libraries.I18n.Format.{Args, interpolate}
use rust_libraries.I18n.Messages.{
  I18n, entry_or_default, merge_into, with_catalog, add_catalog, message_of, found_or, resolve,
  text_of, translate_with,
}

-- The message of one locale's own catalog.
abbrev pub own_message : I18n → String → Locale.Locale → Option String
own_message i18n key locale = message_of key (get locale i18n.catalogs)

abbrev pub first_of {ℓ κ} : {A : Type ℓ} {B : Type κ} → (A → Option B) → List A → Option B
first_of f [] = none
first_of f (a ∷ rest) = or_else (f a) (first_of f rest)

-- The locales that are asked, in this order, with the language of the first.
abbrev pub chain : I18n → Locale.Locale → Locale.Locale → List Locale.Locale
chain i18n locale language = locale ∷ language ∷ i18n.default ∷ []

-- The answer for a key: its message with the arguments put in, or the key itself.
abbrev pub shown : String → Args → Option String → String
shown key args none = key
shown key args (some template) = interpolate template args

text_of-shown :
    (key : String) (args : Args) (o : Option String) → text_of key args o ≡ shown key args o
text_of-shown key args none = refl
text_of-shown key args (some template) = refl

-- The same locale is not asked twice, which makes no difference.
fallback_twice :
    (here there last : Option String) (same : Bool)
    → (same ≡ true → there ≡ here)
    → found_or here (found_or (if not same then there else none) last)
      ≡ or_else here (or_else there (or_else last none))
fallback_twice here there last same h = ground (arith, h)

resolve-first :
    (i18n : I18n) (locale : Locale.Locale) (key : String)
    → resolve i18n locale key
      ≡ first_of (own_message i18n key) (chain i18n locale (Locale.primary locale))
unfolding resolve
resolve-first i18n locale key =
    fallback_twice (own_message i18n key locale) (own_message i18n key (Locale.primary locale))
      (own_message i18n key i18n.default) (Locale.primary locale == locale)
      (λ same. ap (own_message i18n key) (eq_of_== (Locale.primary locale) locale same))

first_of-agree :
    (f g : Locale.Locale → Option String) (locales : List Locale.Locale)
    → ((l : Locale.Locale) → f l ≡ g l)
    → first_of f locales ≡ first_of g locales
first_of-agree f g [] h = refl
first_of-agree f g (l ∷ rest) h = rw (h l, first_of-agree f g rest h) refl

-- The message of a locale when the messages of a table are laid over those of one locale.
abbrev pub layered : I18n → Locale.Locale → Catalog → String → Locale.Locale → Option String
layered i18n changed own key locale =
    if changed == locale
    then or_else (get_message own key) (own_message i18n key locale)
    else own_message i18n key locale

entry-message :
    (key : String) (o : Option Catalog) → get key (entry_or_default o) ≡ message_of key o
unfolding get
entry-message key none = refl
entry-message key (some catalog) = refl

merge_into-own :
    (i18n : I18n) (changed : Locale.Locale) (own : Catalog) (key : String) (locale : Locale.Locale)
    → IsMap own
    → own_message (merge_into i18n changed own) key locale ≡ layered i18n changed own key locale
unfolding merge_into
merge_into-own i18n changed own key locale h =
    let before = entry_or_default (get changed i18n.catalogs) in
    elim (Bool-cases (changed == locale)) [
      | inl same ↦
          rw (get-insert changed locale (merge before own) i18n.catalogs, same)
            (get-merge before own key h
              ∙ ap (or_else (get key own)) (
                  entry-message key (get changed i18n.catalogs)
                  ∙ ap (own_message i18n key) (eq_of_== changed locale same)))
      | inr apart ↦ rw (get-insert changed locale (merge before own) i18n.catalogs, apart) refl
    ]

-- After a catalog is added, every translation takes the first message that the locale, its language
-- (what stands before the first `-` or `_`) and the default locale have, in this order. The texts of
-- the added table, each under the dotted key of its path, come before the messages that its locale
-- had, and no other locale's messages change. Without a message the key is answered. The parser has
-- read the added text as a table.
pub add_catalog-translate :
    (read : String → Result String TomlTable) (i18n : I18n) (tag toml_str : String)
    (table : TomlTable) (locale : Locale.Locale) (key : String) (args : Args)
    → read toml_str ≡ ok table
    → (added : I18n) × (language : Locale.Locale) × (add_catalog read i18n tag toml_str ≡ ok added)
      × IsLanguage locale language
      × (translate_with added locale key args
          ≡ shown key args (
              first_of
                (layered i18n (Locale.new tag) (laid (leaves table) []) key)
                (chain i18n locale language)))
unfolding add_catalog from_toml_str translate_with merge_into
add_catalog-translate read i18n tag toml_str table locale key args parsed =
    let changed = Locale.new tag in
    let own = flatten table "" [] in
    let added = merge_into i18n changed own in
    (
      added,
      Locale.primary locale,
      ap (λ t. with_catalog i18n changed (catalog_of changed t)) parsed,
      primary-IsLanguage locale,
      ap (text_of key args) (
            resolve-first added locale key
            ∙ first_of-agree (own_message added key) (layered i18n changed own key)
                (chain i18n locale (Locale.primary locale))
                (λ l. merge_into-own i18n changed own key l (flatten-IsMap table "" [] tt)))
          ∙ text_of-shown key args
              (first_of (layered i18n changed own key) (chain i18n locale (Locale.primary locale)))
          ∙ ap
              (λ c.
                shown key args (
                  first_of (layered i18n changed c key)
                    (chain i18n locale (Locale.primary locale))))
              (flatten-laid table),
    )
