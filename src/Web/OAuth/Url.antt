-- ===== src/Web/OAuth/Url.antt =====
-- klauthed-web/src/oauth/util.rs: the redirects and their percent-encoded parameters.
pub mod Parse
pub mod Encoding
use rust_libraries.Prelude.{
  ℕ, ◌+◌, ◌-◌, ◌/◌, ◌%◌, String, Bool, Option, none, some, List, [], ◌∷◌, ◌++◌, ◌&&◌, ◌||◌, leb,
  eqb, ltb, if◌then◌else◌,
}
use rust_libraries.Prelude.Text.{as_bytes}
use rust_libraries.Web.OAuth.Messages.{OAuth2ErrorCode, wire_name, HttpResponse, found}

-- `b.is_ascii_alphanumeric() || matches!(b, b'-' | b'_' | b'.' | b'~')`.
abbrev pub is_unreserved : ℕ → Bool
is_unreserved b =
    (leb b'0' b && leb b b'9')
    || (leb b'A' b && leb b b'Z')
    || (leb b'a' b && leb b b'z')
    || eqb b b'-'
    || eqb b b'_'
    || eqb b b'.'
    || eqb b b'~'

-- An upper-case hexadecimal digit, by its byte.
abbrev pub hex_digit : ℕ → ℕ
hex_digit n = if ltb n 10 then b'0' + n else b'A' + (n - 10)

-- `percent_encode`, on the bytes of the text and with the bytes of the result.
unfoldable pub percent_encode : List ℕ → List ℕ
percent_encode [] = []
percent_encode (b ∷ bs) =
    let rest = percent_encode bs in
    if is_unreserved b then b ∷ rest else b'%' ∷ hex_digit (b / 16) ∷ hex_digit (b % 16) ∷ rest

-- The loop of `redirect_url` from its parameter `i` on; every text by its bytes.
unfoldable pub append_params : List ℕ → ℕ → List (List ℕ × List ℕ) → List ℕ
append_params url i [] = url
append_params url i ((k, v) ∷ rest) =
    append_params (url ++ ((if eqb i 0 then b'?' else b'&') ∷ k ++ (b'=' ∷ percent_encode v)))
      (i + 1) rest

unfoldable pub redirect_url : List ℕ → List (List ℕ × List ℕ) → List ℕ
redirect_url base params = append_params base 0 params

abbrev pub redirect : List ℕ → HttpResponse
redirect location = found location

abbrev pub with_state : Option String → List (List ℕ × List ℕ)
with_state none = []
with_state (some s) = (as_bytes "state", as_bytes s) ∷ []

unfoldable pub error_redirect : String → OAuth2ErrorCode → String → Option String → HttpResponse
error_redirect redirect_uri error description state = redirect (
    redirect_url (as_bytes redirect_uri) (
      (as_bytes "error", as_bytes (wire_name error))
      ∷ (as_bytes "error_description", as_bytes description)
      ∷ with_state state))
