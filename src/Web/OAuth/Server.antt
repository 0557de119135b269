-- ===== src/Web/OAuth/Server.antt =====
-- klauthed-web/src/oauth: the endpoints together, over the in-memory stores. A request carries what
-- it reads outside the stores.
pub mod Steps
pub mod Endpoints
pub mod Sessions
use rust_libraries.Prelude.{String, Option, List, [], ◌∷◌, Result}
use rust_libraries.Time.{Timestamp, TimeApi}
use rust_libraries.Security.Error.{SecurityError}
use rust_libraries.Security.Compare.{SubtleApi}
use rust_libraries.Security.Claims.{UnixApi}
use rust_libraries.Web.OAuth.Messages.{
  HttpResponse, AuthorizationRequest, TokenRequest, RevocationRequest, IntrospectionRequest,
}
use rust_libraries.Web.OAuth.Client as Client
use rust_libraries.Web.OAuth.Client.{CryptoApi}
use rust_libraries.Web.OAuth.Token.{token}
use rust_libraries.Web.OAuth.Authorize.{authorize, answer}
use rust_libraries.Web.OAuth.Manage as Manage
use rust_libraries.Web.OAuth.Memory.{Stores, Settings, config_of}

pub data Request : Type 0 where
  authorizes :
      Timestamp → Result SecurityError String → AuthorizationRequest → Option String → Request
  exchanges : Client.Readings → TokenRequest → Request
  revokes : Manage.Readings → RevocationRequest → Request
  introspects : Manage.Readings → IntrospectionRequest → Request

module _ ⦃time : TimeApi⦄ ⦃unix : UnixApi⦄ ⦃subtle : SubtleApi⦄ ⦃crypto : CryptoApi⦄
    (settings : Settings) where
  unfoldable pub handle : Stores → Request → Stores × HttpResponse
  handle s (authorizes now random_token req sub) =
      answer (authorize (config_of settings) now random_token req sub s)
  handle s (exchanges readings req) = token (config_of settings) readings req s
  handle s (revokes readings req) = answer (Manage.revoke (config_of settings) readings req s)
  handle s (introspects readings req) =
      answer (Manage.introspect (config_of settings) readings req s)

  unfoldable pub handle_all : Stores → List Request → Stores
  handle_all s [] = s
  handle_all s (r ∷ rest) = handle_all (handle s r).0 rest
