-- ===== src/Web/OAuth/Url/Encoding.antt =====
-- The parameters of a redirect are read back as they were given.
use rust_libraries.Prelude.{
  ℕ, ◌+◌, ◌*◌, ◌/◌, ◌%◌, ◌<◌, Bool, true, false, Option, none, some, List, [], ◌∷◌, ◌++◌, ◌≡◌, refl,
  ap, ◌∙◌, sym, arith, All, Bool-cases, inl, inr, eqb, eqb_iff, passes_below, passes_below_sound,
  All-append,
}
use mathlib.Core.List.{append_assoc, append-nil}
use rust_libraries.Web.OAuth.Url.{
  is_unreserved, hex_digit, percent_encode, append_params, redirect_url,
}
use rust_libraries.Web.OAuth.Url.Parse.{
  hex_value, outside, put, decode_half, percent_decode, split_on, with_value, pair_of, read_pairs,
  parse_query,
}

-- Both digits of an escaped byte are read back, for every byte.
abbrev digits_read : ℕ → Option ℕ → Option ℕ → Bool
digits_read b none low = false
digits_read b (some high) none = false
digits_read b (some high) (some low) = eqb (16 * high + low) b

abbrev escape_reads : ℕ → Bool
escape_reads b = digits_read b (hex_value (hex_digit (b / 16))) (hex_value (hex_digit (b % 16)))

bytes_read : passes_below escape_reads 256 ≡ true
unfolding passes_below
bytes_read = refl

digits_half :
    (b : ℕ) (high low : Option ℕ) (rest : Option (List ℕ))
    → digits_read b high low ≡ true
    → elim high [ none ↦ none | some h ↦ decode_half h low rest ] ≡ put b rest
digits_half b none low rest e = ground arith
digits_half b (some h) none rest e = ground arith
digits_half b (some h) (some l) rest e =
    let same : 16 * h + l ≡ b = ground arith in ap (λ x. put x rest) same

digits_decode :
    (b high low : ℕ) (bs : List ℕ)
    → digits_read b (hex_value high) (hex_value low) ≡ true
    → percent_decode outside (b'%' ∷ high ∷ low ∷ bs) ≡ put b (percent_decode outside bs)
unfolding percent_decode
digits_decode b high low bs e =
    digits_half b (hex_value high) (hex_value low) (percent_decode outside bs) e

-- An unreserved byte is none of the signs that structure a query.
unreserved_apart :
    (b : ℕ)
    → is_unreserved b ≡ true
    → (eqb b b'%' ≡ false) × (eqb b b'&' ≡ false) × (eqb b b'=' ≡ false)
unreserved_apart b u = ground arith

percent_encode-decode :
    (bs : List ℕ) → All (λ b. b < 256) bs → percent_decode outside (percent_encode bs) ≡ some bs
unfolding percent_encode percent_decode
percent_encode-decode [] h = refl
percent_encode-decode (b ∷ bs) h =
    let below = percent_encode-decode bs h.1 in
    elim (Bool-cases (is_unreserved b)) [
      | inl u ↦ rw u (rw ((unreserved_apart b u).0, percent_decode) (rw below refl))
      | inr u ↦ rw u (
          digits_decode b (hex_digit (b / 16)) (hex_digit (b % 16)) (percent_encode bs)
            (passes_below_sound escape_reads 256 b bytes_read h.0)
          ∙ rw below refl)
    ]

-- A byte of an encoded text: unreserved, or the sign of an escape.
abbrev pub Encoded : ℕ → Type 0
Encoded b = (eqb b b'&' ≡ false) × (eqb b b'=' ≡ false)

hex_digit-Encoded : (n : ℕ) → Encoded (hex_digit n)
hex_digit-Encoded n = ground arith

percent_encode-Encoded : (bs : List ℕ) → All Encoded (percent_encode bs)
unfolding percent_encode
percent_encode-Encoded [] = tt
percent_encode-Encoded (b ∷ bs) =
    let below = percent_encode-Encoded bs in
    elim (Bool-cases (is_unreserved b)) [
      | inl u ↦ let (p, q, r) = unreserved_apart b u in rw u ((q, r), below)
      | inr u ↦
          rw u ((refl, refl), (hex_digit-Encoded (b / 16), (hex_digit-Encoded (b % 16), below)))
    ]

-- A text between two separators.
Free : ℕ → List ℕ → Type 0
Free sep bs = All (λ b. eqb b sep ≡ false) bs

split_on-Free : (sep : ℕ) (bs : List ℕ) → Free sep bs → split_on sep bs ≡ bs ∷ []
unfolding split_on Free
split_on-Free sep [] h = refl
split_on-Free sep (b ∷ bs) h = rw (h.0, split_on) (rw (split_on-Free sep bs h.1) refl)

split_on-append :
    (sep : ℕ) (bs cs : List ℕ)
    → Free sep bs
    → split_on sep (bs ++ (sep ∷ cs)) ≡ bs ∷ split_on sep cs
unfolding split_on Free
split_on-append sep [] cs h = rw ((eqb_iff sep sep).1 refl, split_on) refl
split_on-append sep (b ∷ bs) cs h = rw (h.0, split_on) (rw (split_on-append sep bs cs h.1) refl)

-- A parameter that the redirects carry: the name is unreserved and the value is made of bytes.
abbrev pub IsParam : List ℕ × List ℕ → Type 0
IsParam (k, v) = All (λ b. is_unreserved b ≡ true) k × All (λ b. b < 256) v

pair : List ℕ × List ℕ → List ℕ
pair (k, v) = k ++ (b'=' ∷ percent_encode v)

unreserved-Free : (k : List ℕ) → All (λ b. is_unreserved b ≡ true) k → Free b'=' k × Free b'&' k
unfolding Free
unreserved-Free [] h = (tt, tt)
unreserved-Free (b ∷ bs) h =
    let (p, q, r) = unreserved_apart b h.0 in
    let (f, g) = unreserved-Free bs h.1 in ((r, f), (q, g))

Encoded-Free : (bs : List ℕ) → All Encoded bs → Free b'=' bs × Free b'&' bs
unfolding Free
Encoded-Free [] h = (tt, tt)
Encoded-Free (b ∷ bs) ((p, q), h) = let (f, g) = Encoded-Free bs h in ((q, f), (p, g))

pair-Free : (k v : List ℕ) → IsParam (k, v) → Free b'&' (pair (k, v))
unfolding Free pair
pair-Free k v h =
    All-append (λ b. eqb b b'&' ≡ false) k (b'=' ∷ percent_encode v) (unreserved-Free k h.0).1
      (refl, (Encoded-Free (percent_encode v) (percent_encode-Encoded v)).1)

pair_of-pair : (k v : List ℕ) → IsParam (k, v) → pair_of (split_on b'=' (pair (k, v))) ≡ some (k, v)
unfolding pair
pair_of-pair k v h =
    let parts : split_on b'=' (pair (k, v)) ≡ k ∷ percent_encode v ∷ [] =
      split_on-append b'=' k (percent_encode v) (unreserved-Free k h.0).0
      ∙ ap (λ r. k ∷ r)
          (split_on-Free b'=' (percent_encode v)
            (Encoded-Free (percent_encode v) (percent_encode-Encoded v)).0) in
    ap pair_of parts ∙ ap (with_value k) (percent_encode-decode v h.1)

-- The parameters after the first one.
more : List (List ℕ × List ℕ) → List ℕ
more [] = []
more (p ∷ ps) = b'&' ∷ (pair p ++ more ps)

append_params-more :
    (url : List ℕ) (i : ℕ) (ps : List (List ℕ × List ℕ))
    → eqb i 0 ≡ false
    → append_params url i ps ≡ url ++ more ps
unfolding append_params more pair
append_params-more url i [] h = sym (append-nil url)
append_params-more url i ((k, v) ∷ ps) h = rw h (
    append_params-more (url ++ (b'&' ∷ pair (k, v))) (i + 1) ps (ground arith)
    ∙ append_assoc url (b'&' ∷ pair (k, v)) (more ps))

query-parse :
    (p : List ℕ × List ℕ) (ps : List (List ℕ × List ℕ))
    → All IsParam (p ∷ ps)
    → parse_query (pair p ++ more ps) ≡ some (p ∷ ps)
unfolding parse_query read_pairs more
query-parse (k, v) [] h =
    ap read_pairs (
      ap (split_on b'&') (append-nil (pair (k, v)))
      ∙ split_on-Free b'&' (pair (k, v)) (pair-Free k v h.0))
    ∙ rw (pair_of-pair k v h.0) refl
query-parse (k, v) (q ∷ ps) h =
    ap read_pairs (split_on-append b'&' (pair (k, v)) (pair q ++ more ps) (pair-Free k v h.0))
    ∙ rw (pair_of-pair k v h.0) (rw (query-parse q ps h.1) refl)

-- A redirect appends a query that reads back as exactly the given parameters, whatever bytes their
-- values have.
pub redirect_url-parse_query :
    (base : List ℕ) (p : List ℕ × List ℕ) (ps : List (List ℕ × List ℕ))
    → All IsParam (p ∷ ps)
    → (query : List ℕ) × (redirect_url base (p ∷ ps) ≡ base ++ (b'?' ∷ query))
      × (parse_query query ≡ some (p ∷ ps))
unfolding redirect_url append_params pair
redirect_url-parse_query base (k, v) ps h = (
  pair (k, v) ++ more ps,
  append_params-more (base ++ (b'?' ∷ pair (k, v))) 1 ps refl
      ∙ append_assoc base (b'?' ∷ pair (k, v)) (more ps),
  query-parse (k, v) ps h,
)
