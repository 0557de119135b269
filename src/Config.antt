-- ===== src/Config.antt =====
-- klauthed-core/src/config/map.rs: the map of configuration keys to JSON values, with the layering
-- of providers. A value of serde_json is an object or anything else, which is given by its text.
pub mod Layers
use rust_libraries.Prelude.{
  ℕ, String, Bool, true, false, Option, none, some, List, [], ◌∷◌, map, if◌then◌else◌, eqb, ◌==◌,
  string_eq,
}
use Prim.Native.Char.{Char, code}
use rust_libraries.Prelude.Text.{chars, of_chars}

mutual
  pub data Value : Type 0 where
    leaf : String → Value
    object : Fields → Value

  -- The entries of an object, or of a `ConfigMap`, in the order in which they are iterated.
  pub data Fields : Type 0 where
    end : Fields
    field : String → Value → Fields → Fields

abbrev pub ConfigMap : Type 0
ConfigMap = Fields

unfoldable pub new : ConfigMap
new = end

abbrev null : Value
null = leaf "null"

unfoldable pub lookup : String → Fields → Option Value
lookup key end = none
lookup key (field k v rest) = let below = lookup key rest in if k == key then some v else below

-- A key that stands in the map keeps its place.
unfoldable pub put : String → Value → Fields → Fields
put key value end = field key value end
put key value (field k v rest) =
    let below = put key value rest in if k == key then field k value rest else field k v below

unfoldable mutual
  pub merge_value : Value → Value → Value
  merge_value base (leaf y) = leaf y
  merge_value (leaf x) (object overlay) = object overlay
  merge_value (object base) (object overlay) = object (merge_fields base overlay)

  -- The loop over the entries of the overlay, also that of `ConfigMap::merge`.
  pub merge_fields : Fields → Fields → Fields
  merge_fields base end = base
  merge_fields base (field key value rest) =
      merge_fields
        (put key
          (elim (lookup key base) [ none ↦ value | some existing ↦ merge_value existing value ])
          base)
        rest

unfoldable pub merge : ConfigMap → ConfigMap → ConfigMap
merge base other = merge_fields base other

abbrev cons_segment : Char → List (List Char) → List (List Char)
cons_segment c [] = (c ∷ []) ∷ []
cons_segment c (s ∷ ss) = (c ∷ s) ∷ ss

-- The heads that `split_once('.')` takes off a path one after the other, and what is left.
abbrev segments_of : List Char → List (List Char)
segments_of [] = [] ∷ []
segments_of (c ∷ cs) =
    let rest = segments_of cs in if eqb (code c) b'.' then [] ∷ rest else cons_segment c rest

unfoldable pub segments : String → List String
segments path = map of_chars (segments_of (chars path))

abbrev pub fields_of : Value → Fields
fields_of (leaf x) = end
fields_of (object fs) = fs

abbrev pub or_value : Value → Option Value → Value
or_value otherwise none = otherwise
or_value otherwise (some v) = v

-- A target that is not an object becomes an empty one.
unfoldable pub insert_nested : Value → List String → Value → Value
insert_nested target [] value = target
insert_nested target (key ∷ []) value =
    let fs = fields_of target in
    object (put key (merge_value (or_value null (lookup key fs)) value) fs)
insert_nested target (head ∷ next ∷ tail) value =
    let fs = fields_of target in
    object
      (put head (insert_nested (or_value (object end) (lookup head fs)) (next ∷ tail) value) fs)

-- One entry of `expand_dotted`.
abbrev pub expand_entry : ConfigMap → List String → Value → ConfigMap
expand_entry root [] value = root
expand_entry root (key ∷ []) value =
    put key (merge_value (or_value null (lookup key root)) value) root
expand_entry root (head ∷ next ∷ tail) value =
    put head (insert_nested (or_value (object end) (lookup head root)) (next ∷ tail) value) root

unfoldable pub expand_from : ConfigMap → Fields → ConfigMap
expand_from root end = root
expand_from root (field key value rest) = expand_from (expand_entry root (segments key) value) rest

unfoldable pub expand_dotted : ConfigMap → ConfigMap
expand_dotted flat = expand_from end flat
