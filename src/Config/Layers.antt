-- ===== src/Config/Layers.antt =====
-- What stands at each path when one configuration is laid over another.
use rust_libraries.Prelude.{
  String, Bool, true, false, Option, none, some, List, [], ◌∷◌, ◌≡◌, refl, ap, ◌∙◌, arith,
  if◌then◌else◌, ◌==◌, string_eq, Bool-cases, inl, inr,
}
use rust_libraries.Config.{
  Value, leaf, object, Fields, end, field, lookup, put, merge_value, merge_fields,
}

-- No key stands twice in an object.
unfoldable mutual
  pub IsValue : Value → Type 0
  IsValue (leaf x) = Unit
  IsValue (object fs) = IsFields fs

  pub IsFields : Fields → Type 0
  IsFields end = Unit
  IsFields (field k v rest) = (lookup k rest ≡ none) × IsValue v × IsFields rest

lookup-put :
    (key k : String) (v : Value) (fs : Fields)
    → lookup k (put key v fs) ≡ (if key == k then some v else lookup k fs)
unfolding lookup put
lookup-put key k v end = refl
lookup-put key k v (field i w rest) = ground (
  arith,
  string_eq.beq_iff key k,
  string_eq.beq_iff i key,
  string_eq.beq_iff i k,
  lookup-put key k v rest,
)

merge_entry : Option Value → Value → Value
merge_entry base v = elim base [ none ↦ v | some existing ↦ merge_value existing v ]

-- Both maps at one key.
abbrev merged : Option Value → Option Value → Option Value
merged base none = base
merged base (some v) = some (elim base [ none ↦ v | some existing ↦ merge_value existing v ])

lookup-merge_fields :
    (base overlay : Fields) (k : String)
    → IsFields overlay
    → lookup k (merge_fields base overlay) ≡ merged (lookup k base) (lookup k overlay)
unfolding lookup merge_fields IsFields merge_entry
lookup-merge_fields base end k h = refl
lookup-merge_fields base (field key v rest) k h = ground (
  arith,
  string_eq.beq_iff key k,
  h.0,
  lookup-put key k (merge_entry (lookup key base) v) base,
  lookup-merge_fields (put key (merge_entry (lookup key base) v) base) rest k h.2,
)

IsEntry : Option Value → Type 0
IsEntry none = Unit
IsEntry (some v) = IsValue v

lookup-IsEntry : (fs : Fields) (k : String) → IsFields fs → IsEntry (lookup k fs)
unfolding lookup IsFields IsEntry
lookup-IsEntry end k h = tt
lookup-IsEntry (field i v rest) k h = elim (Bool-cases (i == k)) [
  | inl same ↦ rw same h.1
  | inr apart ↦ rw apart (lookup-IsEntry rest k h.2)
]

-- The text at a path of keys, if a value that is no object stands there.
unfoldable pub leaf_at : Value → List String → Option String
leaf_at (leaf x) [] = some x
leaf_at (object fs) [] = none
leaf_at (leaf x) (k ∷ path) = none
leaf_at (object fs) (k ∷ path) = elim (lookup k fs) [ none ↦ none | some v ↦ leaf_at v path ]

abbrev leaf_at_entry : Option Value → List String → Option String
leaf_at_entry o path = elim o [ none ↦ none | some v ↦ leaf_at v path ]

-- A value does not reach a path if a key of the path is missing in one of its objects.
unfoldable pub misses : Value → List String → Bool
misses v [] = false
misses (leaf y) (k ∷ path) = false
misses (object fs) (k ∷ path) = elim (lookup k fs) [ none ↦ true | some v ↦ misses v path ]

abbrev misses_entry : Option Value → List String → Bool
misses_entry o path = elim o [ none ↦ true | some v ↦ misses v path ]

misses_entry-leaf_at :
    (o : Option Value) (path : List String)
    → ((v : Value) → misses v path ≡ true → leaf_at v path ≡ none)
    → misses_entry o path ≡ true
    → leaf_at_entry o path ≡ none
misses_entry-leaf_at none path below h = refl
misses_entry-leaf_at (some v) path below h = below v h

misses-leaf_at : (v : Value) (path : List String) → misses v path ≡ true → leaf_at v path ≡ none
unfolding misses leaf_at
misses-leaf_at v [] h = ground arith
misses-leaf_at (leaf y) (k ∷ path) h = refl
misses-leaf_at (object fs) (k ∷ path) h =
    misses_entry-leaf_at (lookup k fs) path (λ v. misses-leaf_at v path) h

-- Without a value below, what the overlay misses is missing.
over_nothing :
    (v : Value) (path : List String)
    → leaf_at v path ≡ (if misses v path then none else leaf_at v path)
over_nothing v path = ground (arith, misses-leaf_at v path)

-- What is read at a path, of two layers.
abbrev pub top_leaf : Value → Value → List String → Option String
top_leaf base overlay path = if misses overlay path then leaf_at base path else leaf_at overlay path

merged-top_leaf :
    (base overlay : Option Value) (path : List String)
    → ((b v : Value) → IsValue v → leaf_at (merge_value b v) path ≡ top_leaf b v path)
    → IsEntry overlay
    → leaf_at_entry (merged base overlay) path
      ≡ (if misses_entry overlay path then leaf_at_entry base path else leaf_at_entry overlay path)
unfolding IsEntry
merged-top_leaf base none path below h = refl
merged-top_leaf none (some v) path below h = over_nothing v path
merged-top_leaf (some b) (some v) path below h = below b v h

-- When one value is laid over another, each path reads the overlay's value that is no object, or
-- the lower one's where the overlay does not reach. No key stands twice in an object of the
-- overlay.
pub merge_value-top_leaf :
    (base overlay : Value) (path : List String)
    → IsValue overlay
    → leaf_at (merge_value base overlay) path ≡ top_leaf base overlay path
unfolding merge_value leaf_at misses IsValue
merge_value-top_leaf base (leaf y) [] h = refl
merge_value-top_leaf (leaf z) (object o) [] h = refl
merge_value-top_leaf (object b) (object o) [] h = refl
merge_value-top_leaf base (leaf y) (k ∷ path) h = refl
merge_value-top_leaf (leaf z) (object o) (k ∷ path) h = over_nothing (object o) (k ∷ path)
merge_value-top_leaf (object b) (object o) (k ∷ path) h =
    ap (λ e. leaf_at_entry e path) (lookup-merge_fields b o k h)
    ∙ merged-top_leaf (lookup k b) (lookup k o) path
        (λ base v g. merge_value-top_leaf base v path g) (lookup-IsEntry o k h)
