-- ===== src/Security/AuthCode.antt =====
-- klauthed-security/src/authz_code: authorization codes (code.rs), their in-memory store (store.rs)
-- and PKCE (pkce.rs). The clock's reading and the result of `random_token` are arguments, and so is
-- `base64url(sha256(verifier))`.
pub mod Exchange
use rust_libraries.Prelude.{
  ℕ, String, Bool, true, false, Option, none, some, List, [], ◌∷◌, Result, ok, err, ◌>>=◌, ok_or,
  leb, if◌then◌else◌, string_eq,
}
use rust_libraries.Prelude.Map.{Map, get, insert, remove}
use rust_libraries.Time.{Timestamp, Duration, TimeApi, checked_add}
use rust_libraries.Security.Error.{SecurityError, token_ttl_overflow}
use rust_libraries.Security.Compare.{SubtleApi, constant_time_eq}

pub data PkceMethod : Type 0 where
  plain s256 : PkceMethod

pub record AuthCode : Type 0 where
  pub code : String
  pub client_id : String
  pub subject : String
  pub redirect_uri : Option String
  pub scope : List String
  pub nonce : Option String
  pub pkce_challenge : Option String
  pub pkce_method : Option PkceMethod
  pub issued_at : Timestamp
  pub expires_at : Timestamp

unfoldable pub is_expired : AuthCode → Timestamp → Bool
is_expired c now = leb c.expires_at now

pub record AuthCodeBuilder : Type 0 where
  pub client_id : String
  pub subject : String
  pub redirect_uri : Option String
  pub scope : List String
  pub nonce : Option String
  pub pkce_challenge : Option String
  pub pkce_method : Option PkceMethod

unfoldable pub new_builder : String → String → AuthCodeBuilder
new_builder client_id subject = record {
  client_id = client_id;
  subject = subject;
  redirect_uri = none;
  scope = [];
  nonce = none;
  pkce_challenge = none;
  pkce_method = none;
}

unfoldable pub with_redirect_uri : AuthCodeBuilder → String → AuthCodeBuilder
with_redirect_uri b uri = record b { redirect_uri = some uri }

unfoldable pub with_scope : AuthCodeBuilder → List String → AuthCodeBuilder
with_scope b scope = record b { scope = scope }

unfoldable pub with_nonce : AuthCodeBuilder → String → AuthCodeBuilder
with_nonce b nonce = record b { nonce = some nonce }

unfoldable pub with_pkce : AuthCodeBuilder → String → PkceMethod → AuthCodeBuilder
with_pkce b challenge method = record b {
  pkce_challenge = some challenge;
  pkce_method = some method;
}

unfoldable pub build :
    ⦃time : TimeApi⦄
    → AuthCodeBuilder
    → Result SecurityError String
    → Timestamp
    → Duration
    → Result SecurityError AuthCode
build b random_token now ttl = do
  code ← random_token
  expires_at ← ok_or (token_ttl_overflow "auth code") (checked_add now ttl)
  ok (record {
    code = code;
    client_id = b.client_id;
    subject = b.subject;
    redirect_uri = b.redirect_uri;
    scope = b.scope;
    nonce = b.nonce;
    pkce_challenge = b.pkce_challenge;
    pkce_method = b.pkce_method;
    issued_at = now;
    expires_at = expires_at;
  })

abbrev pub CodeStore : Type 0
CodeStore = Map String AuthCode

unfoldable pub new : CodeStore
new = []

unfoldable pub store : CodeStore → AuthCode → CodeStore
store m code = insert code.code code m

-- The `match` on what `remove` returned.
abbrev pub in_time : Timestamp → Option AuthCode → Option AuthCode
in_time now none = none
in_time now (some c) = if is_expired c now then none else some c

unfoldable pub consume : CodeStore → Timestamp → String → CodeStore × Option AuthCode
consume m now code = (remove code m, in_time now (get code m))

module _ ⦃subtle : SubtleApi⦄ (sha256_base64url : List ℕ → List ℕ) where
  -- The verifier and the challenge are byte strings.
  unfoldable pub verify_pkce : List ℕ → List ℕ → PkceMethod → Bool
  verify_pkce verifier challenge plain = constant_time_eq verifier challenge
  verify_pkce verifier challenge s256 = constant_time_eq (sha256_base64url verifier) challenge
