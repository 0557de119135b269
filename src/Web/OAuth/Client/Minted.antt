-- ===== src/Web/OAuth/Client/Minted.antt =====
-- What a minted token says, field by field, and what an authenticated client has shown.
use rust_libraries.Prelude.{
  String, Bool, true, false, Option, none, some, Result, ok, err, ◌≡◌, refl, arith, string_eq, ap,
  subst,
}
use rust_libraries.Prelude.Map.{get, insert}
use rust_libraries.Time.{Timestamp}
use rust_libraries.Security.Error.{SecurityError}
use rust_libraries.Security.Client.{OAuth2Client}
use rust_libraries.Security.Claims.{
  Claims, UnixApi, builder, issuer, audience, claim, random_jwt_id, checked_add_i64,
}
use rust_libraries.Web.OAuth.Messages.{HttpResponse, internal_error, token_error, invalid_client}
use rust_libraries.Web.OAuth.Config.{OAuthConfig}
use rust_libraries.Web.OAuth.Client.{
  CryptoApi, check_secret, authenticate_client, access_claims, mint_access_token, id_claims,
  mint_id_token,
}

-- The subject, the issuer and the times that every token of the server carries.
abbrev pub Issued :
    {S : Type 0} ⦃unix : UnixApi⦄ → OAuthConfig S → String → Timestamp → Claims → Type 0
Issued ⦃unix⦄ config subject now claims =
    (claims.sub ≡ some subject)
    × (claims.iss ≡ some config.issuer)
    × (claims.iat ≡ some (unix.unix_timestamp now))
    × (claims.exp
        ≡ checked_add_i64 (unix.unix_timestamp now) (unix.whole_seconds config.access_token_ttl))

-- An access token: it names the scope and the client, and has an identifier of its own.
abbrev pub IsAccess :
    {S : Type 0} ⦃unix : UnixApi⦄
    → OAuthConfig S
    → String
    → String
    → String
    → String
    → Timestamp
    → Claims
    → Type 0
IsAccess config subject scope client_id id now claims =
    Issued config subject now claims
    × (get "scope" claims.custom ≡ some scope)
    × (get "client_id" claims.custom ≡ some client_id)
    × (claims.jti ≡ some id)

-- An id token: it is for the client, and echoes the nonce.
abbrev pub IsId :
    {S : Type 0} ⦃unix : UnixApi⦄
    → OAuthConfig S
    → String
    → String
    → Option String
    → Timestamp
    → Claims
    → Type 0
IsId config subject client_id echoed now claims =
    Issued config subject now claims
    × (claims.aud ≡ some client_id)
    × (get "nonce" claims.custom ≡ echoed)

module _ {S : Type 0} ⦃unix : UnixApi⦄ (config : OAuthConfig S) where
  access_claims-IsAccess :
      (subject scope client_id id : String) (now : Timestamp)
      → IsAccess config subject scope client_id id now
          (record (access_claims config subject scope client_id now) { jti = some id })
  unfolding access_claims builder issuer claim get insert
  access_claims-IsAccess subject scope client_id id now =
      ((refl, refl, refl, refl), refl, refl, refl)

  pub mint_access_token-IsAccess :
      (subject scope client_id token : String) (now : Timestamp) (jti : Result SecurityError String)
      → mint_access_token config subject scope client_id now jti ≡ ok token
      → (id : String) × (claims : Claims) × (jti ≡ ok id)
        × IsAccess config subject scope client_id id now claims
        × (config.encode claims ≡ ok token)
  unfolding mint_access_token random_jwt_id
  mint_access_token-IsAccess subject scope client_id token now (ok id) e = (
    id,
    record (access_claims config subject scope client_id now) { jti = some id },
    refl,
    access_claims-IsAccess subject scope client_id id now,
    ground arith,
  )
  mint_access_token-IsAccess subject scope client_id token now (err x) e = ground arith

  id_claims-IsId :
      (subject client_id : String) (echoed : Option String) (now : Timestamp)
      → IsId config subject client_id echoed now (id_claims config subject client_id echoed now)
  unfolding id_claims builder issuer audience claim get insert
  id_claims-IsId subject client_id none now = ((refl, refl, refl, refl), refl, refl)
  id_claims-IsId subject client_id (some n) now = ((refl, refl, refl, refl), refl, refl)

  pub mint_id_token-IsId :
      (subject client_id token : String) (echoed : Option String) (now : Timestamp)
      → mint_id_token config subject client_id echoed now ≡ ok token
      → (claims : Claims) × IsId config subject client_id echoed now claims
        × (config.encode claims ≡ ok token)
  unfolding mint_id_token
  mint_id_token-IsId subject client_id token echoed now e = (
    id_claims config subject client_id echoed now,
    id_claims-IsId subject client_id echoed now,
    ground arith,
  )

module _ ⦃crypto : CryptoApi⦄ where
  -- A client that has a secret presents it; one that has none need not.
  abbrev pub Secret : Option String → Option String → Type 0
  Secret none submitted = Unit
  Secret (some secret_hash) none = ⊥
  Secret (some secret_hash) (some s) = crypto.verify_password s secret_hash ≡ ok true

  verified :
      (client shown : OAuth2Client) (secret_hash s : String) (r : Result SecurityError Bool)
      → crypto.verify_password s secret_hash ≡ r
      → ◌≡◌ {A = Result HttpResponse OAuth2Client}
          (elim r [
            | ok true ↦ ok client
            | ok false ↦ err (token_error invalid_client "invalid client_secret")
            | err e ↦ err (internal_error "could not verify client credentials")
          ])
          (ok shown)
      → (client ≡ shown) × (crypto.verify_password s secret_hash ≡ ok true)
  verified client shown secret_hash s (ok true) g e = (ground arith, g)
  verified client shown secret_hash s (ok false) g e = ground arith
  verified client shown secret_hash s (err x) g e = ground arith

  check_secret-ok :
      (client shown : OAuth2Client) (secret_hash submitted : Option String)
      → check_secret client secret_hash submitted ≡ ok shown
      → (client ≡ shown) × Secret secret_hash submitted
  check_secret-ok client shown none submitted e = (ground arith, tt)
  check_secret-ok client shown (some h) none e = ground arith
  check_secret-ok client shown (some h) (some s) e = verified client shown h s _ refl e

  found_client :
      (shown : OAuth2Client) (submitted : Option String)
      (r : Result SecurityError (Option OAuth2Client))
      → elim r [
        | ok (some client) ↦ check_secret client client.client_secret_hash submitted
        | ok none ↦ err (token_error invalid_client "unknown client_id")
        | err e ↦ err (internal_error "client store unavailable")
      ]
        ≡ ok shown
      → (r ≡ ok (some shown)) × Secret shown.client_secret_hash submitted
  found_client shown submitted (ok (some client)) e =
      let (same, secret) = check_secret-ok client shown client.client_secret_hash submitted e in
      (ap (λ c. ok (some c)) same, subst (λ c. Secret c.client_secret_hash submitted) same secret)
  found_client shown submitted (ok none) e = ground arith
  found_client shown submitted (err x) e = ground arith

  pub authenticate_client-ok :
      {S : Type 0} (config : OAuthConfig S) (client_id : String) (submitted : Option String) (s : S)
      (client : OAuth2Client)
      → authenticate_client config client_id submitted s ≡ ok client
      → (config.client_store.get s client_id ≡ ok (some client))
        × Secret client.client_secret_hash submitted
  unfolding authenticate_client
  authenticate_client-ok config client_id submitted s client e =
      found_client client submitted (config.client_store.get s client_id) e
