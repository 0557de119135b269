-- ===== src/Examples/OAuth.antt =====
-- The endpoints of the OAuth server at concrete requests.
use rust_libraries.Prelude.{String, none, some, List, [], ◌∷◌, ok, ◌≡◌, refl, ◌==◌, string_eq}
use rust_libraries.Prelude.Int.{pos, negsuc}
use rust_libraries.Prelude.Map.{get, insert, remove}
use rust_libraries.Prelude.Text.{as_bytes, join}
use rust_libraries.Security.Client as Clients
use rust_libraries.Security.Claims.{Claims, UnixApi}
use rust_libraries.Security.Claims as Claiming
use rust_libraries.Security.AuthCode as Codes
use rust_libraries.Security.RefreshToken as Refresh
use rust_libraries.Web.OAuth.Messages.{TokenRequest, TokenResponse, GrantType, default_token_type}
use rust_libraries.Web.OAuth.Client.{CryptoApi, Readings}
use rust_libraries.Web.OAuth.Client as Client
use rust_libraries.Web.OAuth.Flow.{◌>>=◌, pure, required, ensure, lift, read, run}
use rust_libraries.Web.OAuth.Token as Token
use rust_libraries.Web.OAuth.Token.Grants as Grants
use rust_libraries.Security.Authz.Permission.{text_eq}
use rust_libraries.Web.OAuth.Config.{RefreshTokenStore}
use rust_libraries.Web.OAuth.Token.Refresh as Refreshing
use rust_libraries.Web.OAuth.Memory.{Stores, Settings, config_of}
use rust_libraries.Security.Compare.{constant_time_eq}
use rust_libraries.Examples.Clock.{utc, plain_bytes}

instance abbrev pub seconds : UnixApi
seconds = record {
  unix_timestamp = λ t. pos t;
  from_unix_timestamp = λ z. elim z [ pos n ↦ some n | negsuc n ↦ none ];
  latest = 1000000000000000000000;
  earliest = 0;
  whole_seconds = λ d. d;
}

instance abbrev pub plain_crypto : CryptoApi
plain_crypto = record { verify_password = λ s hash. ok (s == hash); sha256_base64url = λ bs. bs }

abbrev pub app : Clients.OAuth2Client
app = record {
  client_id = "app";
  client_type = Clients.confidential;
  client_secret_hash = some "pw";
  redirect_uris = "https://a/cb" ∷ [];
  allowed_grant_types = Clients.authorization_code ∷ Clients.refresh_token ∷ [];
  allowed_scopes = "openid" ∷ "mail" ∷ [];
  token_endpoint_auth_method = Clients.client_secret_post;
  client_name = none;
  created_at = 0;
}

abbrev pub ann_code : Codes.AuthCode
ann_code = record {
  code = "c1";
  client_id = "app";
  subject = "ann";
  redirect_uri = some "https://a/cb";
  scope = "mail" ∷ [];
  nonce = none;
  pkce_challenge = some "v";
  pkce_method = some Codes.plain;
  issued_at = 0;
  expires_at = 60;
}

abbrev pub ann_token : Refresh.RefreshToken
ann_token = record {
  token = "r1";
  family_id = "f1";
  client_id = "app";
  subject = "ann";
  scope = "mail" ∷ [];
  issued_at = 0;
  expires_at = 90;
}

abbrev pub ann_claims : Claims
ann_claims = record {
  sub = some "ann";
  iss = none;
  aud = none;
  exp = some (pos 80);
  iat = none;
  nbf = none;
  jti = some "j1";
  custom = [];
}

abbrev pub stores : Stores
stores = record {
  clients = ("app", app) ∷ [];
  codes = ("c1", ann_code) ∷ [];
  refresh_tokens = record { active = ("r1", ann_token) ∷ []; consumed = []; revoked_families = [] };
  denylist = [];
}

abbrev pub settings : Settings
settings = record {
  encode = λ c. ok "jwt";
  decode = λ now t. ok ann_claims;
  issuer = "i";
  access_token_ttl = pos 10;
  code_ttl = pos 10;
  refresh_token_ttl = pos 20;
}

abbrev pub readings : Readings
readings = record {
  consume_now = 5;
  access_now = 5;
  jti = ok "j1";
  refresh_now = 5;
  refresh_token = ok "r2";
  refresh_family = ok "f2";
  id_now = 5;
}

abbrev pub asked : TokenRequest
asked = record {
  grant_type = GrantType.authorization_code;
  code = some "c1";
  redirect_uri = some "https://a/cb";
  client_id = some "app";
  client_secret = some "pw";
  refresh_token = some "r1";
  code_verifier = some "v";
  scope = none;
  username = none;
  password = none;
}

abbrev pub response : TokenResponse
response = record {
  access_token = "jwt";
  token_type = default_token_type;
  expires_in = some (pos 10);
  refresh_token = some "r2";
  id_token = none;
  scope = some "mail";
}

-- The refresh token that the server issues for this family.
abbrev pub issued : String → Refresh.RefreshToken
issued family = record ann_token {
  token = "r2";
  family_id = family;
  issued_at = 5;
  expires_at = 25;
}

abbrev pub exchanged : Stores
exchanged = record stores {
  codes = [];
  refresh_tokens = record {
    active = ("r1", ann_token) ∷ ("r2", issued "f2") ∷ [];
    consumed = [];
    revoked_families = [];
  };
}

pub granted :
    Token.exchange_authorization_code (config_of settings) readings asked stores
    ≡ (exchanged, ok response)
unfolding Token.exchange_authorization_code ◌>>=◌ required read Client.authenticate_client
    Clients.find get Codes.consume Codes.is_expired ensure lift Codes.verify_pkce constant_time_eq
    as_bytes text_eq Token.issue Client.mint_access_token Claiming.random_jwt_id insert remove join
    Claiming.builder Claiming.checked_add_i64 Claiming.claim Claiming.issuer Refresh.build
    Refresh.new_builder Refresh.with_family_id Refresh.with_scope Refresh.store Client.access_claims
    Client.has_openid_scope Client.issue_refresh_token pure run
granted = refl

exchange_authorization_code_sound_example :
    (client_id : String) × (c : Codes.AuthCode) × (u : Stores) × Grants.CodeChecked
      (config_of settings)
      readings
      asked
      stores
      u
      client_id
      c
    × Grants.Grants
        (config_of settings)
        readings
        client_id
        c.subject
        c.scope
        none
        c.nonce
        u
        exchanged
        response
exchange_authorization_code_sound_example =
    Grants.exchange_authorization_code_sound (config_of settings) readings asked stores exchanged
      response granted

abbrev pub refreshed : Stores
refreshed = record stores {
  refresh_tokens = record {
    active = ("r2", issued "f1") ∷ [];
    consumed = ("r1", ("f1", 90)) ∷ [];
    revoked_families = [];
  };
}

rotated :
    Token.exchange_refresh_token (config_of settings) readings asked stores
    ≡ (refreshed, ok response)
unfolding Token.exchange_refresh_token Refresh.consume Refresh.consume_active Refresh.is_expired
    Clients.allows_grant ◌>>=◌ required read Client.authenticate_client Clients.find get ensure lift
    Token.issue Client.mint_access_token Claiming.random_jwt_id insert remove join Claiming.builder
    Claiming.checked_add_i64 Claiming.claim Claiming.issuer Refresh.build Refresh.new_builder
    Refresh.with_family_id Refresh.with_scope Refresh.store Client.access_claims
    Client.has_openid_scope Client.issue_refresh_token pure run
rotated = refl

exchange_refresh_token_sound_example :
    (client_id : String) × (store : RefreshTokenStore Stores) × (rt : Refresh.RefreshToken)
    × (scope : List String) × (u : Stores) × Refreshing.RefreshChecked
        (config_of settings)
        readings
        asked
        stores
        u
        client_id
        store
        rt
        scope
    × Grants.Grants
        (config_of settings)
        readings
        client_id
        rt.subject
        scope
        (some rt.family_id)
        none
        u
        refreshed
        response
    × ((value : String)
        → response.refresh_token ≡ some value
        → Refreshing.Rotated
            (config_of settings)
            readings
            client_id
            rt.subject
            rt.family_id
            value
            scope
            u
            refreshed)
exchange_refresh_token_sound_example =
    Refreshing.exchange_refresh_token_sound (config_of settings) readings asked stores refreshed
      response rotated
