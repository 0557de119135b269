-- ===== src/I18n/Format/Pieces.antt =====
-- A template that is put together from pieces is interpolated piece by piece.
use rust_libraries.Prelude.{
  string_eq, String, Option, none, some, true, false, List, [], ◌∷◌, ◌++◌, ◌≡◌, refl, ap, ◌∙◌, sym,
  All, Bool-cases, inl, inr, eqb_iff, if◌then◌else◌,
}
use mathlib.Core.List.{append_assoc, append-nil}
use Prim.Native.Char.{Char, code}
use text.Mathlib.TextEquality.{Char-path}
use rust_libraries.Prelude.Map.{get}
use rust_libraries.Prelude.Text.{chars, of_chars, chars-of_chars, trim}
use rust_libraries.I18n.Format.{
  Args, get_arg, open_brace, close_brace, opens, closes, peeks, outside, naming, substituted, turn,
  run, interpolate,
}

-- A text that stands for itself, or the name of a placeholder.
pub data Piece : Type 0 where
  literal : List Char → Piece
  placeholder : List Char → Piece

-- Braces of a literal text are doubled.
abbrev pub doubled : List Char → List Char
doubled [] = []
doubled (c ∷ cs) =
    let rest = doubled cs in
    if opens c
    then open_brace ∷ open_brace ∷ rest
    else if closes c
    then close_brace ∷ close_brace ∷ rest
    else c ∷ rest

abbrev pub written : List Piece → List Char
written [] = []
written (literal text ∷ ps) = doubled text ++ written ps
written (placeholder name ∷ ps) = open_brace ∷ (name ++ (close_brace ∷ written ps))

-- What a reader sees of a placeholder: the value of its name, or its own text.
abbrev pub shown : List Char → Option String → List Char
shown name (some value) = chars value
shown name none = open_brace ∷ (name ++ (close_brace ∷ []))

abbrev pub meaning : Args → List Piece → List Char
meaning args [] = []
meaning args (literal text ∷ ps) = text ++ meaning args ps
meaning args (placeholder name ∷ ps) =
    shown name (get (of_chars (trim name)) args) ++ meaning args ps

-- A name has no closing brace, and an opening one does not come first.
abbrev pub IsName : List Char → Type 0
IsName name = All (λ c. closes c ≡ false) name × (peeks opens name ≡ false)

abbrev pub IsPiece : Piece → Type 0
IsPiece (literal text) = Unit
IsPiece (placeholder name) = IsName name

is_open : (c : Char) → opens c ≡ true → c ≡ open_brace
is_open c e = Char-path c open_brace ((eqb_iff (code c) 123).0 e)

is_close : (c : Char) → closes c ≡ true → c ≡ close_brace
is_close c e = Char-path c close_brace ((eqb_iff (code c) 125).0 e)

module _ (args : Args) where
  plain_turn :
      (c : Char) (rest : List Char)
      → opens c ≡ false
      → closes c ≡ false
      → turn args outside c rest ≡ (outside, c ∷ [])
  unfolding turn
  plain_turn c rest o k = rw (o, k) refl

  -- A literal text comes out of the loop as it was before its braces were doubled.
  run-doubled :
      (text rest : List Char)
      → run args outside (doubled text ++ rest) ≡ text ++ run args outside rest
  unfolding run turn
  run-doubled [] rest = refl
  run-doubled (c ∷ text) rest =
      let below = run-doubled text rest in
      elim (Bool-cases (opens c)) [
        | inl o ↦ rw o (
            ap (λ x. x ∷ run args outside (doubled text ++ rest)) (sym (is_open c o))
            ∙ ap (λ x. c ∷ x) below)
        | inr o ↦ elim (Bool-cases (closes c)) [
          | inl k ↦
              rw (o, k)
                (ap (λ x. x ∷ run args outside (doubled text ++ rest)) (sym (is_close c k))
                  ∙ ap (λ x. c ∷ x) below)
          | inr k ↦
              rw (o, k)
                (ap (λ out. out.1 ++ run args out.0 (doubled text ++ rest))
                    (plain_turn c (doubled text ++ rest) o k)
                  ∙ ap (λ x. c ∷ x) below)
        ]
      ]

  -- Inside a placeholder the loop collects the name up to the closing brace.
  run-naming :
      (before name rest : List Char)
      → All (λ c. closes c ≡ false) name
      → run args (naming before) (name ++ (close_brace ∷ rest))
        ≡ substituted (before ++ name) (get_arg args (of_chars (trim (before ++ name))))
          ++ run args outside rest
  unfolding run turn
  run-naming before [] rest h = rw (append-nil before) refl
  run-naming before (c ∷ name) rest h =
      rw (h.0, run-naming (before ++ (c ∷ [])) name rest h.1, append_assoc before (c ∷ []) name)
        refl

  enters :
      (name rest : List Char)
      → peeks opens name ≡ false
      → run args outside (open_brace ∷ (name ++ (close_brace ∷ rest)))
        ≡ run args (naming []) (name ++ (close_brace ∷ rest))
  unfolding run turn
  enters [] rest h = refl
  enters (c ∷ name) rest h = rw h refl

  substituted-shown : (name : List Char) (o : Option String) → substituted name o ≡ shown name o
  substituted-shown name none = refl
  substituted-shown name (some value) = refl

  run-written : (ps : List Piece) → All IsPiece ps → run args outside (written ps) ≡ meaning args ps
  unfolding run
  run-written [] h = refl
  run-written (literal text ∷ ps) h =
      run-doubled text (written ps) ∙ ap (λ x. text ++ x) (run-written ps h.1)
  run-written (placeholder name ∷ ps) ((closed, first), h) =
      enters name (written ps) first
      ∙ run-naming [] name (written ps) closed
      ∙ ap (λ x. substituted name (get_arg args (of_chars (trim name))) ++ x) (run-written ps h)
      ∙ ap (λ x. x ++ meaning args ps)
          (substituted-shown name (get_arg args (of_chars (trim name))))

  -- A template that is written from pieces, with the braces of the literal ones doubled, is
  -- interpolated to the literal texts and, for each placeholder, to the argument of its trimmed
  -- name, or to the placeholder itself where there is no such argument. A name has no closing brace
  -- and does not start with an opening one.
  pub interpolate-written :
      (ps : List Piece)
      → All IsPiece ps
      → interpolate (of_chars (written ps)) args ≡ of_chars (meaning args ps)
  unfolding interpolate
  interpolate-written ps h =
      ap (λ t. of_chars (run args outside t)) (chars-of_chars (written ps))
      ∙ ap of_chars (run-written ps h)
