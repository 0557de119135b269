-- ===== src/Web/OAuth/Memory.antt =====
-- The in-memory stores of klauthed-security, filled in as the stores of an `OAuthConfig`: one
-- shared state with a part for each store. None of their operations fails.
use rust_libraries.Prelude.{String, some, Result, ok}
use rust_libraries.Time.{Timestamp, Duration}
use rust_libraries.Security.Error.{SecurityError}
use rust_libraries.Security.Client.{Clients, find}
use rust_libraries.Security.Claims.{Claims}
use rust_libraries.Security.AuthCode as Codes
use rust_libraries.Security.RefreshToken as Refresh
use rust_libraries.Security.Revocation as Denied
use rust_libraries.Web.OAuth.Config.{
  ClientStore, AuthCodeStore, RefreshTokenStore, TokenDenylist, OAuthConfig,
}

pub record Stores : Type 0 where
  pub clients : Clients
  pub codes : Codes.CodeStore
  pub refresh_tokens : Refresh.StoreState
  pub denylist : Denied.Entries

abbrev pub client_store : ClientStore Stores
client_store = record { get = λ s client_id. ok (find s.clients client_id) }

abbrev pub code_store : AuthCodeStore Stores
code_store = record {
  store = λ s c. (record s { codes = Codes.store s.codes c }, ok tt);
  consume = λ s now code. (
    record s { codes = (Codes.consume s.codes now code).0 },
    ok (Codes.consume s.codes now code).1,
  );
}

abbrev pub refresh_token_store : RefreshTokenStore Stores
refresh_token_store = record {
  store = λ s rt. (record s { refresh_tokens = Refresh.store s.refresh_tokens rt }, ok tt);
  consume = λ s now token. (
    record s { refresh_tokens = (Refresh.consume s.refresh_tokens now token).0 },
    ok (Refresh.consume s.refresh_tokens now token).1,
  );
  revoke_family = λ s family.
      (record s { refresh_tokens = Refresh.revoke_family s.refresh_tokens family }, ok tt);
}

abbrev pub token_denylist : TokenDenylist Stores
token_denylist = record {
  revoke =
      λ s jti expires_at. (record s { denylist = Denied.revoke s.denylist jti expires_at }, ok tt);
  is_revoked = λ s now jti. (
    record s { denylist = (Denied.is_revoked s.denylist now jti).0 },
    ok (Denied.is_revoked s.denylist now jti).1,
  );
}

-- A configuration over the in-memory stores.
pub record Settings : Type 0 where
  pub encode : Claims → Result SecurityError String
  pub decode : Timestamp → String → Result SecurityError Claims
  pub issuer : String
  pub access_token_ttl : Duration
  pub code_ttl : Duration
  pub refresh_token_ttl : Duration

abbrev pub config_of : Settings → OAuthConfig Stores
config_of c = record {
  client_store = client_store;
  code_store = code_store;
  refresh_token_store = some refresh_token_store;
  encode = c.encode;
  decode = some c.decode;
  token_denylist = some token_denylist;
  issuer = c.issuer;
  access_token_ttl = c.access_token_ttl;
  code_ttl = c.code_ttl;
  refresh_token_ttl = c.refresh_token_ttl;
}
