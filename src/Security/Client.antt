-- ===== src/Security/Client.antt =====
-- klauthed-security/src/oauth2_client: the registered client (client.rs) and `InMemoryClientStore`
-- (store.rs).
use rust_libraries.Prelude.{
  String, Bool, true, false, Option, List, ◌≡◌, ◌↔◌, arith, any, all, ◌==◌, string_eq, contains, Eq,
}
use rust_libraries.Prelude.Map.{Map, get, insert, remove}
use rust_libraries.Time.{Timestamp}

pub data ClientType : Type 0 where
  confidential public : ClientType

pub data ClientGrantType : Type 0 where
  authorization_code refresh_token client_credentials : ClientGrantType

abbrev same_grant : ClientGrantType → ClientGrantType → Bool
same_grant authorization_code authorization_code = true
same_grant refresh_token refresh_token = true
same_grant client_credentials client_credentials = true
same_grant _ _ = false

pub same_grant_iff : (a b : ClientGrantType) → (same_grant a b ≡ true) ↔ (a ≡ b)
same_grant_iff a b = ground arith

instance abbrev pub grant_eq : Eq ClientGrantType
grant_eq = record { beq = same_grant; beq_iff = same_grant_iff }

pub data TokenEndpointAuthMethod : Type 0 where
  client_secret_basic client_secret_post no_method : TokenEndpointAuthMethod

-- The two sets are lists.
pub record OAuth2Client : Type 0 where
  pub client_id : String
  pub client_type : ClientType
  pub client_secret_hash : Option String
  pub redirect_uris : List String
  pub allowed_grant_types : List ClientGrantType
  pub allowed_scopes : List String
  pub token_endpoint_auth_method : TokenEndpointAuthMethod
  pub client_name : Option String
  pub created_at : Timestamp

unfoldable pub allows_redirect_uri : OAuth2Client → String → Bool
allows_redirect_uri client redirect_uri = any (λ u. u == redirect_uri) client.redirect_uris

unfoldable pub allows_grant : OAuth2Client → ClientGrantType → Bool
allows_grant client grant_type = contains grant_type client.allowed_grant_types

unfoldable pub allows_scopes : OAuth2Client → List String → Bool
allows_scopes client requested = all (λ s. contains s client.allowed_scopes) requested

abbrev pub Clients : Type 0
Clients = Map String OAuth2Client

unfoldable pub find : Clients → String → Option OAuth2Client
find clients client_id = get client_id clients

unfoldable pub register : Clients → OAuth2Client → Clients
register clients client = insert client.client_id client clients

unfoldable pub delete : Clients → String → Clients
delete clients client_id = remove client_id clients
