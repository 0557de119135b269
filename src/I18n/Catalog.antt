-- ===== src/I18n/Catalog.antt =====
-- klauthed-i18n/src/catalog.rs and error.rs: the messages of a locale under dotted keys. The parser
-- of the crate toml is an argument; a table of that crate is given by its entries in the order in
-- which they are iterated.
pub mod Leaves
use rust_libraries.Prelude.{
  ℕ, String, Bool, Option, [], ◌∷◌, ◌≡◌, refl, if◌then◌else◌, ◌==◌, string_eq, Result, ok, err,
  length, eqb, arith, none, some,
}
use Prim.Native.String.{◌++◌ as append}
use rust_libraries.Prelude.Map.{Map, get, insert, IsMap, insert-IsMap, get-insert}

mutual
  pub data TomlValue : Type 0 where
    text : String → TomlValue
    child : TomlTable → TomlValue
    other : TomlValue

  pub data TomlTable : Type 0 where
    empty : TomlTable
    entry : String → TomlValue → TomlTable → TomlTable

pub data I18nError : Type 0 where
  parse : (locale message : String) → I18nError
  io : (path message : String) → I18nError

abbrev pub Catalog : Type 0
Catalog = Map String String

unfoldable pub new : Catalog
new = []

abbrev pub full_key : String → String → String
full_key prefix key = if prefix == "" then key else append prefix (append "." key)

unfoldable mutual
  pub flatten : TomlTable → String → Catalog → Catalog
  flatten empty prefix out = out
  flatten (entry key value rest) prefix out =
      flatten rest prefix (flatten_value value (full_key prefix key) out)

  pub flatten_value : TomlValue → String → Catalog → Catalog
  flatten_value (text message) full out = insert full message out
  flatten_value (child table) full out = flatten table full out
  flatten_value other full out = out

abbrev pub catalog_of : String → Result String TomlTable → Result I18nError Catalog
catalog_of locale (err message) = err (parse locale message)
catalog_of locale (ok table) = ok (flatten table "" [])

-- `read` is the parser of the crate toml.
unfoldable pub from_toml_str :
    (String → Result String TomlTable) → String → String → Result I18nError Catalog
from_toml_str read locale toml_str = catalog_of locale (read toml_str)

abbrev pub get_message : Catalog → String → Option String
get_message catalog key = get key catalog

abbrev pub len : Catalog → ℕ
len catalog = length catalog

abbrev pub is_empty : Catalog → Bool
is_empty catalog = eqb (length catalog) 0

-- `extend` with the entries of the other catalog.
unfoldable pub merge : Catalog → Catalog → Catalog
merge catalog [] = catalog
merge catalog ((key, message) ∷ others) = merge (insert key message catalog) others

mutual
  unfolding flatten flatten_value

  pub flatten-IsMap :
      (table : TomlTable) (prefix : String) (out : Catalog)
      → IsMap out
      → IsMap (flatten table prefix out)
  flatten-IsMap empty prefix out h = h
  flatten-IsMap (entry key value rest) prefix out h =
      flatten-IsMap rest prefix (flatten_value value (full_key prefix key) out)
        (flatten_value-IsMap value (full_key prefix key) out h)

  pub flatten_value-IsMap :
      (value : TomlValue) (full : String) (out : Catalog)
      → IsMap out
      → IsMap (flatten_value value full out)
  flatten_value-IsMap (text message) full out h = insert-IsMap full message out h
  flatten_value-IsMap (child table) full out h = flatten-IsMap table full out h
  flatten_value-IsMap other full out h = h

-- The first value, or else the second.
abbrev pub or_else {ℓ} : {A : Type ℓ} → Option A → Option A → Option A
or_else (some a) o = some a
or_else none o = o

-- The other catalog's messages override, and all else stays.
pub get-merge :
    (catalog others : Catalog) (key : String)
    → IsMap others
    → get key (merge catalog others) ≡ or_else (get key others) (get key catalog)
unfolding merge get
get-merge catalog [] key h = refl
get-merge catalog ((k, message) ∷ others) key h = ground (
  arith,
  string_eq.beq_iff k key,
  get-insert k key message catalog,
  get-merge (insert k message catalog) others key h.1,
)
