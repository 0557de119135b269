-- ===== src/Web/OAuth/Url/Parse.antt =====
-- A reader of query strings, for what the redirects carry: pairs between `&`, a name before `=`,
-- and escapes of two hexadecimal digits.
use rust_libraries.Prelude.{
  ℕ, ◌+◌, ◌-◌, ◌*◌, Option, none, some, List, [], ◌∷◌, ◌&&◌, leb, eqb, if◌then◌else◌,
}

abbrev pub hex_value : ℕ → Option ℕ
hex_value b =
    if leb b'0' b && leb b b'9'
    then some (b - b'0')
    else if leb b'A' b && leb b b'F'
    then some (b - b'A' + 10)
    else none

-- Where the reader stands in an escape.
pub data Place : Type 0 where
  outside escaped : Place
  half : ℕ → Place

abbrev pub put : ℕ → Option (List ℕ) → Option (List ℕ)
put b none = none
put b (some bs) = some (b ∷ bs)

abbrev pub decode_half : ℕ → Option ℕ → Option (List ℕ) → Option (List ℕ)
decode_half high none rest = none
decode_half high (some low) rest = put (16 * high + low) rest

unfoldable pub percent_decode : Place → List ℕ → Option (List ℕ)
percent_decode outside [] = some []
percent_decode escaped [] = none
percent_decode (half high) [] = none
percent_decode outside (b ∷ bs) =
    let after_sign = percent_decode escaped bs in
    let rest = percent_decode outside bs in if eqb b b'%' then after_sign else put b rest
percent_decode escaped (b ∷ bs) = elim (hex_value b) [
  | none ↦ none
  | some high ↦ percent_decode (half high) bs
]
percent_decode (half high) (b ∷ bs) = decode_half high (hex_value b) (percent_decode outside bs)

abbrev cons_part : ℕ → List (List ℕ) → List (List ℕ)
cons_part b [] = (b ∷ []) ∷ []
cons_part b (part ∷ more) = (b ∷ part) ∷ more

unfoldable pub split_on : ℕ → List ℕ → List (List ℕ)
split_on sep [] = [] ∷ []
split_on sep (b ∷ bs) =
    let rest = split_on sep bs in if eqb b sep then [] ∷ rest else cons_part b rest

abbrev pub with_value : List ℕ → Option (List ℕ) → Option (List ℕ × List ℕ)
with_value k none = none
with_value k (some v) = some (k, v)

abbrev pub pair_of : List (List ℕ) → Option (List ℕ × List ℕ)
pair_of (k ∷ v ∷ []) = with_value k (percent_decode outside v)
pair_of _ = none

abbrev pub add_pair :
    Option (List ℕ × List ℕ) → Option (List (List ℕ × List ℕ)) → Option (List (List ℕ × List ℕ))
add_pair (some p) (some ps) = some (p ∷ ps)
add_pair (some p) none = none
add_pair none ps = none

unfoldable pub read_pairs : List (List ℕ) → Option (List (List ℕ × List ℕ))
read_pairs [] = some []
read_pairs (part ∷ more) = add_pair (pair_of (split_on b'=' part)) (read_pairs more)

unfoldable pub parse_query : List ℕ → Option (List (List ℕ × List ℕ))
parse_query query = read_pairs (split_on b'&' query)
