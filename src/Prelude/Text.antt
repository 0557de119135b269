-- ===== src/Prelude/Text.antt =====
-- Texts of the standard library: their characters, the bytes of their UTF-8 form,
-- `split_whitespace` and `join`.
use Prim.Native.Nat.{ℕ, ◌+◌, ◌/◌, ◌%◌}
use Prim.Native.String.{String, ◌++◌ as append}
use Prim.Native.Char.{Char, code}
use mathlib.Core.Path.{◌≡◌, refl, ap}
use mathlib.Core.Bool.{Bool, ◌&&◌, ◌||◌}
use mathlib.Core.List.{List, [], ◌∷◌, ◌++◌}
use rust_libraries.Prelude.Tests.{ltb, leb, eqb, if◌then◌else◌}

abbrev pub chars : String → List Char
chars String.[] = []
chars (String.◌∷◌ c s) = c ∷ chars s

-- `String::from_iter`.
unfoldable pub of_chars : List Char → String
of_chars [] = String.[]
of_chars (c ∷ cs) = String.◌∷◌ c (of_chars cs)

pub chars-of_chars : (cs : List Char) → chars (of_chars cs) ≡ cs
unfolding of_chars
chars-of_chars [] = refl
chars-of_chars (c ∷ cs) = ap (λ rest. c ∷ rest) (chars-of_chars cs)

-- `char::is_whitespace`: the Unicode property White_Space.
abbrev pub is_whitespace : ℕ → Bool
is_whitespace c =
    (leb 9 c && leb c 13)
    || eqb c 32
    || eqb c 133
    || eqb c 160
    || eqb c 5760
    || (leb 8192 c && leb c 8202)
    || eqb c 8232
    || eqb c 8233
    || eqb c 8239
    || eqb c 8287
    || eqb c 12288

-- `str::trim_start`, `str::trim_end` and `str::trim`.
abbrev pub trim_start : List Char → List Char
trim_start [] = []
trim_start (c ∷ cs) = let rest = trim_start cs in if is_whitespace (code c) then rest else c ∷ cs

abbrev pub or_blank : Char → List Char → List Char
or_blank c [] = if is_whitespace (code c) then [] else c ∷ []
or_blank c (d ∷ cs) = c ∷ d ∷ cs

abbrev pub trim_end : List Char → List Char
trim_end [] = []
trim_end (c ∷ cs) = or_blank c (trim_end cs)

unfoldable pub trim : List Char → List Char
trim cs = trim_end (trim_start cs)

-- `char::to_ascii_lowercase`.
abbrev replaced_by : List Char → List Char → Char → Char
replaced_by [] to c = c
replaced_by (f ∷ from) [] c = c
replaced_by (f ∷ from) (t ∷ to) c =
    let rest = replaced_by from to c in if eqb (code f) (code c) then t else rest

abbrev pub to_ascii_lowercase : Char → Char
to_ascii_lowercase =
    replaced_by (chars "ABCDEFGHIJKLMNOPQRSTUVWXYZ") (chars "abcdefghijklmnopqrstuvwxyz")

-- The UTF-8 form of a code point.
abbrev pub utf8 : ℕ → List ℕ
utf8 c =
    if ltb c 128
    then c ∷ []
    else if ltb c 2048
    then (192 + c / 64) ∷ (128 + c % 64) ∷ []
    else if ltb c 65536
    then (224 + c / 4096) ∷ (128 + c / 64 % 64) ∷ (128 + c % 64) ∷ []
    else (240 + c / 262144) ∷ (128 + c / 4096 % 64) ∷ (128 + c / 64 % 64) ∷ (128 + c % 64) ∷ []

-- `str::as_bytes`.
unfoldable pub as_bytes : String → List ℕ
as_bytes String.[] = []
as_bytes (String.◌∷◌ c s) = utf8 (code c) ++ as_bytes s

-- A character in front of the first word, or as a word of its own.
abbrev cons_word : Char → List String → List String
cons_word c [] = (String.◌∷◌ c String.[]) ∷ []
cons_word c (w ∷ ws) = (String.◌∷◌ c w) ∷ ws

-- The words with an empty one wherever a white space starts the rest.
abbrev split_spaces : String → List String
split_spaces String.[] = String.[] ∷ []
split_spaces (String.◌∷◌ c s) =
    let rest = split_spaces s in
    if is_whitespace (code c) then String.[] ∷ rest else cons_word c rest

abbrev nonempty_words : List String → List String
nonempty_words [] = []
nonempty_words (String.[] ∷ ws) = nonempty_words ws
nonempty_words ((String.◌∷◌ c w) ∷ ws) = (String.◌∷◌ c w) ∷ nonempty_words ws

-- `str::split_whitespace`.
unfoldable pub split_whitespace : String → List String
split_whitespace s = nonempty_words (split_spaces s)

-- `words.join(separator)`.
unfoldable pub join : String → List String → String
join separator [] = ""
join separator (w ∷ []) = w
join separator (w ∷ x ∷ ws) = append w (append separator (join separator (x ∷ ws)))
