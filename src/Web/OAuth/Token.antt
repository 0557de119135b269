-- ===== src/Web/OAuth/Token.antt =====
-- klauthed-web/src/oauth/handlers.rs: the token endpoint. A body that ends with `ok` answers 200
-- with the tokens; one that ends with `err` returned that answer early.
pub mod Grants
pub mod Refresh
use rust_libraries.Prelude.{
  ℕ, String, Bool, true, false, Option, none, some, List, [], ◌∷◌, Result, ok, err, all, contains,
  ◌==◌, string_eq, if◌then◌else◌,
}
use rust_libraries.Prelude.Text.{as_bytes, split_whitespace, join}
use rust_libraries.Time.{Timestamp, TimeApi}
use rust_libraries.Security.Error.{SecurityError}
use rust_libraries.Security.Compare.{SubtleApi}
use rust_libraries.Security.Client as Clients
use rust_libraries.Security.Claims.{UnixApi}
use rust_libraries.Security.AuthCode.{AuthCode, PkceMethod, verify_pkce}
use rust_libraries.Security.RefreshToken.{
  RefreshToken, ConsumeResult, valid, expired, compromised, not_found,
}
use rust_libraries.Web.OAuth.Messages.{
  HttpResponse, TokenRequest, TokenResponse, GrantType, default_token_type, token_error,
  internal_error, token_json, invalid_request, invalid_grant, invalid_scope, unauthorized_client,
  unsupported_grant_type,
}
use rust_libraries.Web.OAuth.Config.{OAuthConfig, RefreshTokenStore}
use rust_libraries.Web.OAuth.Flow.{Flow, ◌>>=◌, pure, stop, required, ensure, lift, read, run}
use rust_libraries.Web.OAuth.Client.{
  CryptoApi, Readings, authenticate_client, has_openid_scope, mint_access_token, mint_id_token,
  issue_refresh_token,
}

abbrev pub redirect_matches : Option String → Option String → Bool
redirect_matches none requested = true
redirect_matches (some stored) none = false
redirect_matches (some stored) (some requested) = requested == stored

abbrev pub nonempty : String → Option String
nonempty s = if s == "" then none else some s

-- The match on the answer of the code store.
abbrev pub found_code :
    {S : Type 0} → S × Result SecurityError (Option AuthCode) → S × Result HttpResponse AuthCode
found_code (t, ok (some c)) = (t, ok c)
found_code (t, ok none) =
    (t, err (token_error invalid_grant "authorization code is invalid, expired, or already used"))
found_code (t, err e) = (t, err (internal_error "could not retrieve authorization code"))

-- The match on the answer of the refresh token store.
abbrev pub found_token :
    {S : Type 0} → S × Result SecurityError ConsumeResult → S × Result HttpResponse RefreshToken
found_token (t, ok (valid rt)) = (t, ok rt)
found_token (t, ok (expired rt)) = (t, err (token_error invalid_grant "refresh token has expired"))
found_token (t, ok (compromised family)) = (
  t,
  err (
      token_error invalid_grant
        "refresh token reuse detected; all tokens in this session have been revoked"),
)
found_token (t, ok not_found) =
    (t, err (token_error invalid_grant "refresh token is invalid or already used"))
found_token (t, err e) = (t, err (internal_error "could not retrieve refresh token"))

module _ ⦃crypto : CryptoApi⦄ ⦃subtle : SubtleApi⦄ where
  -- Whether a verifier answers a challenge, over the texts' bytes.
  abbrev pub answers_challenge : String → String → PkceMethod → Bool
  answers_challenge verifier challenge method =
      verify_pkce crypto.sha256_base64url (as_bytes verifier) (as_bytes challenge) method

  abbrev pub check_pkce :
      Option String → Option PkceMethod → Option String → Result HttpResponse (Unit {0})
  check_pkce none method verifier = ok tt
  check_pkce (some challenge) none verifier = ok tt
  check_pkce (some challenge) (some method) none =
      err (token_error invalid_request "code_verifier is required for PKCE")
  check_pkce (some challenge) (some method) (some verifier) =
      if answers_challenge verifier challenge method
      then ok tt
      else err (token_error invalid_grant "PKCE code_verifier does not match code_challenge")

-- The scope of the new tokens: the requested one, if it is within the original.
abbrev pub narrowed : Option String → List String → Result HttpResponse (List String)
narrowed none original = ok original
narrowed (some requested) original =
    if all (λ s. contains s original) (split_whitespace requested)
    then ok (split_whitespace requested)
    else err (
        token_error invalid_scope "requested scope exceeds the scope of the original refresh token")

abbrev pub answer_tokens : {S : Type 0} → S × Result HttpResponse TokenResponse → S × HttpResponse
answer_tokens (t, ok response) = (t, token_json response)
answer_tokens (t, err early) = (t, early)

module _ {S : Type 0} ⦃time : TimeApi⦄ ⦃unix : UnixApi⦄ ⦃subtle : SubtleApi⦄ ⦃crypto : CryptoApi⦄
    (config : OAuthConfig S) (readings : Readings) where
  abbrev pub optional_id_token :
      List String → String → String → Option String → Flow S (Option String)
  optional_id_token scope subject client_id nonce =
      if has_openid_scope scope
      then (do
        id_token ← lift (mint_id_token config subject client_id nonce readings.id_now)
        pure (some id_token))
      else pure none

  -- The end of both exchanges: the access token, the refresh token, then the id token.
  unfoldable pub issue :
      String → String → List String → Option String → Option String → Flow S TokenResponse
  issue client_id subject scope family_id nonce = do
    let scope_str = join " " scope
    access_token ←
        lift (mint_access_token config subject scope_str client_id readings.access_now readings.jti)
    refresh_token ← run (issue_refresh_token config client_id subject scope family_id readings)
    id_token ← optional_id_token scope subject client_id nonce
    pure (record {
      access_token = access_token;
      token_type = default_token_type;
      expires_in = some (unix.whole_seconds config.access_token_ttl);
      scope = nonempty scope_str;
      refresh_token = refresh_token;
      id_token = id_token;
    })

  unfoldable pub exchange_authorization_code : TokenRequest → Flow S TokenResponse
  exchange_authorization_code req = do
    code_str ← required (token_error invalid_request "code is required") req.code
    client_id ← required (token_error invalid_request "client_id is required") req.client_id
    client ← read (authenticate_client config client_id req.client_secret)
    auth_code ← (λ s. found_code (config.code_store.consume s readings.consume_now code_str))
    same_client ←
        ensure (token_error invalid_grant "authorization code was issued to a different client")
          (auth_code.client_id == client_id)
    same_uri ←
        ensure
          (token_error invalid_grant
            "redirect_uri does not match the one used in the authorization request")
          (redirect_matches auth_code.redirect_uri req.redirect_uri)
    proved ← lift (check_pkce auth_code.pkce_challenge auth_code.pkce_method req.code_verifier)
    issue client_id auth_code.subject auth_code.scope none auth_code.nonce

  unfoldable pub exchange_refresh_token : TokenRequest → Flow S TokenResponse
  exchange_refresh_token req = do
    token_str ← required (token_error invalid_request "refresh_token is required") req.refresh_token
    store ←
        required (token_error unsupported_grant_type "refresh_token grant is not configured")
          config.refresh_token_store
    client_id ← required (token_error invalid_request "client_id is required") req.client_id
    client ← read (authenticate_client config client_id req.client_secret)
    may_refresh ←
        ensure (token_error unauthorized_client "client is not authorized for refresh_token grant")
          (Clients.allows_grant client Clients.refresh_token)
    rt ← (λ s. found_token (store.consume s readings.consume_now token_str))
    same_client ←
        ensure (token_error invalid_grant "refresh token was issued to a different client")
          (rt.client_id == client_id)
    scope ← lift (narrowed req.scope rt.scope)
    issue client_id rt.subject scope (some rt.family_id) none

  -- The match on the grant type.
  abbrev pub exchange : GrantType → TokenRequest → Flow S TokenResponse
  exchange GrantType.authorization_code req = exchange_authorization_code req
  exchange GrantType.refresh_token req = exchange_refresh_token req
  exchange _ req = stop (
      token_error unsupported_grant_type
        "only authorization_code and refresh_token grant types are supported")

  unfoldable pub token : TokenRequest → S → S × HttpResponse
  token req s = answer_tokens (exchange req.grant_type req s)
