-- ===== src/I18n/Format.antt =====
-- klauthed-i18n/src/format.rs: the interpolation of named placeholders. The loop is a run of
-- `turn` over the characters: each turn sees one character and the one behind it, and answers with
-- the mode of the next turn and with what it writes.
pub mod Pieces
use rust_libraries.Prelude.{
  ℕ, String, Bool, true, false, ◌&&◌, Option, none, some, List, [], ◌∷◌, ◌++◌, if◌then◌else◌, eqb,
  string_eq,
}
use Prim.Native.Char.{Char, code}
use rust_libraries.Prelude.Map.{Map, get, insert}
use rust_libraries.Prelude.Text.{chars, of_chars, trim}

abbrev pub Args : Type 0
Args = Map String String

abbrev pub no_args : Args
no_args = []

unfoldable pub set : Args → String → String → Args
set args key value = insert key value args

-- `Args::get`.
abbrev pub get_arg : Args → String → Option String
get_arg args key = get key args

abbrev pub open_brace : Char
open_brace = "{"

abbrev pub close_brace : Char
close_brace = "}"

-- Whether a character is `'{'`, or `'}'`.
abbrev pub opens : Char → Bool
opens c = eqb (code c) 123

abbrev pub closes : Char → Bool
closes c = eqb (code c) 125

-- `chars.peek() == Some(&…)`.
abbrev pub peeks : (Char → Bool) → List Char → Bool
peeks test [] = false
peeks test (c ∷ cs) = test c

-- What the loop is about to read: a character of the text, the second brace of an escaped one, or
-- the rest of a placeholder whose name starts like this.
pub data Mode : Type 0 where
  outside : Mode
  escaped : Mode
  naming : List Char → Mode

-- What stands in the text for a closed placeholder.
abbrev pub substituted : List Char → Option String → List Char
substituted name (some value) = chars value
substituted name none = open_brace ∷ (name ++ (close_brace ∷ []))

unfoldable pub turn : Args → Mode → Char → List Char → Mode × List Char
turn args outside c rest =
    if opens c && peeks opens rest
    then (escaped, open_brace ∷ [])
    else if closes c && peeks closes rest
    then (escaped, close_brace ∷ [])
    else if opens c
    then (naming [], [])
    else (outside, c ∷ [])
turn args escaped c rest = (outside, [])
turn args (naming name) c rest =
    if closes c
    then (outside, substituted name (get_arg args (of_chars (trim name))))
    else (naming (name ++ (c ∷ [])), [])

-- An unterminated placeholder stands for itself.
abbrev pub unterminated : Mode → List Char
unterminated outside = []
unterminated escaped = []
unterminated (naming name) = open_brace ∷ name

unfoldable pub run : Args → Mode → List Char → List Char
run args mode [] = unterminated mode
run args mode (c ∷ rest) =
    let (next, written) = turn args mode c rest in written ++ run args next rest

unfoldable pub interpolate : String → Args → String
interpolate template args = of_chars (run args outside (chars template))
