-- ===== src/Web/OAuth/Config.antt =====
-- klauthed-web/src/oauth/config.rs: `OAuthConfig` and its builder. A store behind `Arc<dyn …>` is the
-- record of its operations on a state S that all of them share; the clock's readings are arguments
-- of the handlers.
use rust_libraries.Prelude.{ℕ, ◌*◌, String, Bool, Option, none, some, Result}
use rust_libraries.Prelude.Int.{pos}
use rust_libraries.Time.{Timestamp, Duration}
use rust_libraries.Security.Error.{SecurityError}
use rust_libraries.Security.Client.{OAuth2Client}
use rust_libraries.Security.Claims.{Claims}
use rust_libraries.Security.AuthCode.{AuthCode}
use rust_libraries.Security.RefreshToken.{RefreshToken, ConsumeResult}

pub record ClientStore (S : Type 0) : Type 0 where
  pub get : S → String → Result SecurityError (Option OAuth2Client)

pub record AuthCodeStore (S : Type 0) : Type 0 where
  pub store : S → AuthCode → S × Result SecurityError (Unit {0})
  pub consume : S → Timestamp → String → S × Result SecurityError (Option AuthCode)

pub record RefreshTokenStore (S : Type 0) : Type 0 where
  pub store : S → RefreshToken → S × Result SecurityError (Unit {0})
  pub consume : S → Timestamp → String → S × Result SecurityError ConsumeResult
  pub revoke_family : S → String → S × Result SecurityError (Unit {0})

pub record TokenDenylist (S : Type 0) : Type 0 where
  pub revoke : S → String → Timestamp → S × Result SecurityError (Unit {0})
  pub is_revoked : S → Timestamp → String → S × Result SecurityError Bool

-- `JwtSigner::encode` and `JwtVerifier::decode` are fields, since the `jsonwebtoken` crate does
-- their work.
pub record OAuthConfig (S : Type 0) : Type 0 where
  pub client_store : ClientStore S
  pub code_store : AuthCodeStore S
  pub refresh_token_store : Option (RefreshTokenStore S)
  pub encode : Claims → Result SecurityError String
  pub decode : Option (Timestamp → String → Result SecurityError Claims)
  pub token_denylist : Option (TokenDenylist S)
  pub issuer : String
  pub access_token_ttl : Duration
  pub code_ttl : Duration
  pub refresh_token_ttl : Duration

pub record OAuthConfigBuilder (S : Type 0) : Type 0 where
  pub client_store : Option (ClientStore S)
  pub code_store : Option (AuthCodeStore S)
  pub refresh_token_store : Option (RefreshTokenStore S)
  pub encode : Option (Claims → Result SecurityError String)
  pub decode : Option (Timestamp → String → Result SecurityError Claims)
  pub token_denylist : Option (TokenDenylist S)
  pub issuer : Option String
  pub access_token_ttl : Option Duration
  pub code_ttl : Option Duration
  pub refresh_token_ttl : Option Duration

-- `OAuthConfig::builder()`.
unfoldable pub builder : (S : Type 0) → OAuthConfigBuilder S
builder S = record {
  client_store = none;
  code_store = none;
  refresh_token_store = none;
  encode = none;
  decode = none;
  token_denylist = none;
  issuer = none;
  access_token_ttl = none;
  code_ttl = none;
  refresh_token_ttl = none;
}

module _ {S : Type 0} where
  unfoldable pub with_client_store : OAuthConfigBuilder S → ClientStore S → OAuthConfigBuilder S
  with_client_store b x = record b { client_store = some x }

  unfoldable pub with_code_store : OAuthConfigBuilder S → AuthCodeStore S → OAuthConfigBuilder S
  with_code_store b x = record b { code_store = some x }

  unfoldable pub with_refresh_token_store :
      OAuthConfigBuilder S → RefreshTokenStore S → OAuthConfigBuilder S
  with_refresh_token_store b x = record b { refresh_token_store = some x }

  unfoldable pub with_token_denylist : OAuthConfigBuilder S → TokenDenylist S → OAuthConfigBuilder S
  with_token_denylist b x = record b { token_denylist = some x }

  unfoldable pub with_issuer : OAuthConfigBuilder S → String → OAuthConfigBuilder S
  with_issuer b x = record b { issuer = some x }

  unfoldable pub with_access_token_ttl : OAuthConfigBuilder S → Duration → OAuthConfigBuilder S
  with_access_token_ttl b x = record b { access_token_ttl = some x }

  unfoldable pub with_code_ttl : OAuthConfigBuilder S → Duration → OAuthConfigBuilder S
  with_code_ttl b x = record b { code_ttl = some x }

  unfoldable pub with_refresh_token_ttl : OAuthConfigBuilder S → Duration → OAuthConfigBuilder S
  with_refresh_token_ttl b x = record b { refresh_token_ttl = some x }

  unfoldable pub with_signer :
      OAuthConfigBuilder S → (Claims → Result SecurityError String) → OAuthConfigBuilder S
  with_signer b x = record b { encode = some x }

  unfoldable pub with_verifier :
      OAuthConfigBuilder S
      → (Timestamp → String → Result SecurityError Claims)
      → OAuthConfigBuilder S
  with_verifier b x = record b { decode = some x }

abbrev unwrap_or {ℓ} : {A : Type ℓ} → Option A → A → A
unwrap_or (some a) default = a
unwrap_or none default = default

-- `Duration::seconds`, as nanoseconds.
abbrev seconds : ℕ → Duration
seconds n = pos (n * 1000000000)

-- None where `expect` panics.
unfoldable pub build : {S : Type 0} → OAuthConfigBuilder S → Option (OAuthConfig S)
build b = elim b.client_store [
  | none ↦ none
  | some clients ↦ elim b.code_store [
    | none ↦ none
    | some codes ↦ elim b.encode [
      | none ↦ none
      | some encode ↦ elim b.issuer [
        | none ↦ none
        | some issuer ↦ some (record {
          client_store = clients;
          code_store = codes;
          refresh_token_store = b.refresh_token_store;
          encode = encode;
          decode = b.decode;
          token_denylist = b.token_denylist;
          issuer = issuer;
          access_token_ttl = unwrap_or b.access_token_ttl (seconds 3600);
          code_ttl = unwrap_or b.code_ttl (seconds 300);
          refresh_token_ttl = unwrap_or b.refresh_token_ttl (seconds 2592000);
        })
      ]
    ]
  ]
]
