-- ===== src/I18n/Catalog/Leaves.antt =====
-- The messages of a table by their paths: what `flatten` puts into a catalog, said without prefixes.
use rust_libraries.Prelude.{
  String, false, List, [], ◌∷◌, ◌++◌, ◌≡◌, refl, ap, ◌∙◌, sym, map, arith, if◌then◌else◌, ◌==◌,
  string_eq, Bool-cases, inl, inr, ==_of_ne,
}
use Prim.Native.String.{◌++◌ as append}
use Prim.Native.String as Str
use package.text.Mathlib.TextLemmas.{append_assoc, cons≢nil}
use rust_libraries.Prelude.Map.{insert}
use rust_libraries.Prelude.Text.{join}
use rust_libraries.I18n.Catalog.{
  Catalog, TomlTable, TomlValue, text, child, other, empty, entry, full_key, flatten, flatten_value,
}

abbrev pub under : String → List String × String → List String × String
under key (path, message) = (key ∷ path, message)

-- Every text in a table, under the keys that lead to it.
unfoldable mutual
  pub leaves : TomlTable → List (List String × String)
  leaves empty = []
  leaves (entry key value rest) = leaves_value key value ++ leaves rest

  pub leaves_value : String → TomlValue → List (List String × String)
  leaves_value key (text message) = (key ∷ [], message) ∷ []
  leaves_value key (child table) = map (under key) (leaves table)
  leaves_value key other = []

-- The key of a path: its parts with dots between them; empty parts in front are left out, since the
-- code takes an empty prefix for none.
unfoldable pub dotted : List String → String
dotted [] = ""
dotted (k ∷ []) = k
dotted (k ∷ l ∷ path) = if k == "" then dotted (l ∷ path) else join "." (k ∷ l ∷ path)

-- The messages are put in one after the other.
unfoldable pub laid : List (List String × String) → Catalog → Catalog
laid [] out = out
laid ((path, message) ∷ more) out = laid more (insert (dotted path) message out)

-- The key that the code builds from a prefix.
prefixed : String → List String → String
prefixed prefix [] = prefix
prefixed prefix (k ∷ path) = prefixed (full_key prefix k) path

put_all : String → List (List String × String) → Catalog → Catalog
put_all prefix [] out = out
put_all prefix ((path, message) ∷ more) out =
    put_all prefix more (insert (prefixed prefix path) message out)

put_all-append :
    (prefix : String) (xs ys : List (List String × String)) (out : Catalog)
    → put_all prefix (xs ++ ys) out ≡ put_all prefix ys (put_all prefix xs out)
unfolding put_all
put_all-append prefix [] ys out = refl
put_all-append prefix ((path, message) ∷ xs) ys out =
    put_all-append prefix xs ys (insert (prefixed prefix path) message out)

put_all-under :
    (prefix key : String) (xs : List (List String × String)) (out : Catalog)
    → put_all prefix (map (under key) xs) out ≡ put_all (full_key prefix key) xs out
unfolding put_all prefixed
put_all-under prefix key [] out = refl
put_all-under prefix key ((path, message) ∷ xs) out =
    put_all-under prefix key xs (insert (prefixed (full_key prefix key) path) message out)

mutual
  unfolding flatten flatten_value leaves leaves_value put_all prefixed

  flatten-put_all :
      (table : TomlTable) (prefix : String) (out : Catalog)
      → flatten table prefix out ≡ put_all prefix (leaves table) out
  flatten-put_all empty prefix out = refl
  flatten-put_all (entry key value rest) prefix out =
      flatten-put_all rest prefix (flatten_value value (full_key prefix key) out)
      ∙ ap (put_all prefix (leaves rest)) (flatten_value-put_all key value prefix out)
      ∙ sym (put_all-append prefix (leaves_value key value) (leaves rest) out)

  flatten_value-put_all :
      (key : String) (value : TomlValue) (prefix : String) (out : Catalog)
      → flatten_value value (full_key prefix key) out ≡ put_all prefix (leaves_value key value) out
  flatten_value-put_all key (text message) prefix out = refl
  flatten_value-put_all key (child table) prefix out =
      flatten-put_all table (full_key prefix key) out
      ∙ sym (put_all-under prefix key (leaves table) out)
  flatten_value-put_all key other prefix out = refl

nonempty-append : (p s : String) → (p == "") ≡ false → (append p s == "") ≡ false
nonempty-append Str.[] s h = ground arith
nonempty-append (Str.◌∷◌ c p) s h =
    rw (Str.append.cons c p s) (==_of_ne (Str.◌∷◌ c (append p s)) "" cons≢nil)

-- Behind a prefix that is not empty, every part follows a dot.
prefixed-join :
    (p k : String) (path : List String)
    → (p == "") ≡ false
    → prefixed (append p (append "." k)) path ≡ append p (append "." (join "." (k ∷ path)))
unfolding prefixed join
prefixed-join p k [] h = refl
prefixed-join p k (l ∷ path) h =
    let longer = nonempty-append p (append "." k) h in
    rw longer (
      prefixed-join (append p (append "." k)) l path longer
      ∙ append_assoc p (append "." k) (append "." (join "." (l ∷ path)))
      ∙ ap (append p) (append_assoc "." k (append "." (join "." (l ∷ path)))))

no_prefix : (path : List String) → prefixed "" path ≡ dotted path
unfolding prefixed dotted
no_prefix [] = refl
no_prefix (k ∷ []) = refl
no_prefix (k ∷ l ∷ path) = elim (Bool-cases (k == "")) [
  | inl e ↦ rw e (no_prefix (l ∷ path))
  | inr e ↦ rw e (prefixed-join k l path e ∙ unfold join in refl)
]

put_all-laid : (xs : List (List String × String)) (out : Catalog) → put_all "" xs out ≡ laid xs out
unfolding put_all laid
put_all-laid [] out = refl
put_all-laid ((path, message) ∷ xs) out =
    put_all-laid xs (insert (prefixed "" path) message out)
    ∙ ap (λ k. laid xs (insert k message out)) (no_prefix path)

-- The catalog of a table holds each text of the table under the dotted key of its path.
pub flatten-laid : (table : TomlTable) → flatten table "" [] ≡ laid (leaves table) []
flatten-laid table = flatten-put_all table "" [] ∙ put_all-laid (leaves table) []
