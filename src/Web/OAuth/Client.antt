-- ===== src/Web/OAuth/Client.antt =====
-- klauthed-web/src/oauth/handlers.rs: the helpers that the token, revocation and introspection
-- endpoints share.
pub mod Minted
pub mod Issued
use rust_libraries.Prelude.{
  ℕ, String, Bool, true, false, Option, none, some, List, Result, ok, err, ◌>>=◌, any, ◌==◌,
  string_eq,
}
use rust_libraries.Time.{Timestamp, TimeApi}
use rust_libraries.Security.Error.{SecurityError}
use rust_libraries.Security.Client.{OAuth2Client}
use rust_libraries.Security.Claims.{
  Claims, UnixApi, builder, issuer, audience, random_jwt_id, claim,
}
use rust_libraries.Security.RefreshToken.{
  RefreshToken, RefreshTokenBuilder, new_builder, with_scope, with_family_id, build,
}
use rust_libraries.Web.OAuth.Messages.{HttpResponse, internal_error, token_error, invalid_client}
use rust_libraries.Web.OAuth.Config.{OAuthConfig, RefreshTokenStore}

-- What the code uses of the `argon2`, `sha2` and `base64` crates: `verify_password` of
-- klauthed-security and `base64url(sha256(verifier))`.
pub record CryptoApi : Type 0 where
  pub verify_password : String → String → Result SecurityError Bool
  pub sha256_base64url : List ℕ → List ℕ

-- What a request of the token endpoint reads outside the stores, one reading for each place of the
-- code: the clocks and the results of `random_token`.
pub record Readings : Type 0 where
  pub consume_now : Timestamp
  pub access_now : Timestamp
  pub jti : Result SecurityError String
  pub refresh_now : Timestamp
  pub refresh_token : Result SecurityError String
  pub refresh_family : Result SecurityError String
  pub id_now : Timestamp

abbrev pub check_secret :
    ⦃crypto : CryptoApi⦄
    → OAuth2Client
    → Option String
    → Option String
    → Result HttpResponse OAuth2Client
check_secret client none submitted = ok client
check_secret client (some secret_hash) none =
    err (token_error invalid_client "client_secret is required for confidential clients")
check_secret ⦃crypto⦄ client (some secret_hash) (some s) =
    elim (crypto.verify_password s secret_hash) [
      | ok true ↦ ok client
      | ok false ↦ err (token_error invalid_client "invalid client_secret")
      | err e ↦ err (internal_error "could not verify client credentials")
    ]

module _ {S : Type 0} ⦃crypto : CryptoApi⦄ where
  unfoldable pub authenticate_client :
      OAuthConfig S → String → Option String → S → Result HttpResponse OAuth2Client
  authenticate_client config client_id client_secret s =
      elim (config.client_store.get s client_id) [
        | ok (some client) ↦ check_secret client client.client_secret_hash client_secret
        | ok none ↦ err (token_error invalid_client "unknown client_id")
        | err e ↦ err (internal_error "client store unavailable")
      ]

-- `map_err`.
abbrev answer_with : {A : Type 0} → HttpResponse → Result SecurityError A → Result HttpResponse A
answer_with answer (ok a) = ok a
answer_with answer (err e) = err answer

unfoldable pub has_openid_scope : List String → Bool
has_openid_scope scope = any (λ s. s == "openid") scope

abbrev pub with_nonce : Claims → Option String → Claims
with_nonce claims none = claims
with_nonce claims (some n) = claim claims "nonce" n

abbrev pub with_family : RefreshTokenBuilder → Option String → RefreshTokenBuilder
with_family b none = b
with_family b (some id) = with_family_id b id

module _ {S : Type 0} ⦃unix : UnixApi⦄ where
  -- The claims of an access token before its identifier is drawn.
  unfoldable pub access_claims : OAuthConfig S → String → String → String → Timestamp → Claims
  access_claims config subject scope client_id now =
      claim
        (claim (issuer (builder subject now config.access_token_ttl) config.issuer) "scope" scope)
        "client_id" client_id

  unfoldable pub mint_access_token :
      OAuthConfig S
      → String
      → String
      → String
      → Timestamp
      → Result SecurityError String
      → Result HttpResponse String
  mint_access_token config subject scope client_id now jti = do
    claims ←
        answer_with (internal_error "could not generate access token")
          (random_jwt_id (access_claims config subject scope client_id now) jti)
    answer_with (internal_error "could not sign access token") (config.encode claims)

  unfoldable pub id_claims : OAuthConfig S → String → String → Option String → Timestamp → Claims
  id_claims config subject client_id nonce now =
      with_nonce
        (audience (issuer (builder subject now config.access_token_ttl) config.issuer) client_id)
        nonce

  unfoldable pub mint_id_token :
      OAuthConfig S → String → String → Option String → Timestamp → Result HttpResponse String
  mint_id_token config subject client_id nonce now =
      answer_with (internal_error "could not sign id token")
        (config.encode (id_claims config subject client_id nonce now))

abbrev pub stored :
    {S : Type 0} → RefreshToken → S × Result SecurityError (Unit {0}) → S × Option String
stored rt (t, ok _) = (t, some rt.token)
stored rt (t, err _) = (t, none)

module _ {S : Type 0} ⦃time : TimeApi⦄ where
  abbrev pub issue_in :
      RefreshTokenStore S → Result SecurityError RefreshToken → S → S × Option String
  issue_in store (ok rt) s = stored rt (store.store s rt)
  issue_in store (err e) s = (s, none)

  unfoldable pub issue_refresh_token :
      OAuthConfig S
      → String
      → String
      → List String
      → Option String
      → Readings
      → S
      → S × Option String
  issue_refresh_token config client_id subject scope family_id readings s =
      elim config.refresh_token_store [
        | none ↦ (s, none)
        | some store ↦
            issue_in store
              (build (with_family (with_scope (new_builder client_id subject) scope) family_id)
                readings.refresh_token readings.refresh_family readings.refresh_now
                config.refresh_token_ttl)
              s
      ]
