-- ===== src/Web/OAuth/Messages.antt =====
-- klauthed-protocol/src/oauth2: the requests and answers (messages.rs) and their values (params.rs),
-- with the response and grant types of klauthed-protocol/src/oidc/metadata.rs, and the answers that
-- klauthed-web/src/oauth gives, as `HttpResponse` values.
use rust_libraries.Prelude.{ℕ, List, String, Bool, false, Option, none, some}
use rust_libraries.Prelude.Int.{ℤ}

pub data ResponseType : Type 0 where
  code id_token id_token_token code_id_token code_token code_id_token_token no_type : ResponseType

pub data GrantType : Type 0 where
  authorization_code implicit refresh_token client_credentials password device_code jwt_bearer :
      GrantType
  token_exchange : GrantType

pub data CodeChallengeMethod : Type 0 where
  plain s256 : CodeChallengeMethod

pub data KnownTokenType : Type 0 where
  bearer dpop : KnownTokenType

pub data TokenType : Type 0 where
  known : KnownTokenType → TokenType
  other : String → TokenType

-- `TokenType::default()`.
abbrev pub default_token_type : TokenType
default_token_type = known bearer

pub record AuthorizationRequest : Type 0 where
  pub response_type : ResponseType
  pub client_id : String
  pub redirect_uri : Option String
  pub scope : Option String
  pub state : Option String
  pub nonce : Option String
  pub code_challenge : Option String
  pub code_challenge_method : Option CodeChallengeMethod
  pub response_mode : Option String
  pub prompt : Option String
  pub max_age : Option ℤ
  pub acr_values : Option String
  pub login_hint : Option String
  pub ui_locales : Option String

pub record TokenRequest : Type 0 where
  pub grant_type : GrantType
  pub code : Option String
  pub redirect_uri : Option String
  pub client_id : Option String
  pub client_secret : Option String
  pub refresh_token : Option String
  pub code_verifier : Option String
  pub scope : Option String
  pub username : Option String
  pub password : Option String

pub record TokenResponse : Type 0 where
  pub access_token : String
  pub token_type : TokenType
  pub expires_in : Option ℤ
  pub refresh_token : Option String
  pub id_token : Option String
  pub scope : Option String

pub data OAuth2ErrorCode : Type 0 where
  invalid_request invalid_client invalid_grant unauthorized_client unsupported_grant_type :
      OAuth2ErrorCode
  invalid_scope access_denied unsupported_response_type server_error temporarily_unavailable :
      OAuth2ErrorCode

-- The name under which serde writes an error code.
abbrev pub wire_name : OAuth2ErrorCode → String
wire_name invalid_request = "invalid_request"
wire_name invalid_client = "invalid_client"
wire_name invalid_grant = "invalid_grant"
wire_name unauthorized_client = "unauthorized_client"
wire_name unsupported_grant_type = "unsupported_grant_type"
wire_name invalid_scope = "invalid_scope"
wire_name access_denied = "access_denied"
wire_name unsupported_response_type = "unsupported_response_type"
wire_name server_error = "server_error"
wire_name temporarily_unavailable = "temporarily_unavailable"

pub record TokenErrorResponse : Type 0 where
  pub error : OAuth2ErrorCode
  pub error_description : Option String
  pub error_uri : Option String

unfoldable pub new : OAuth2ErrorCode → TokenErrorResponse
new error = record { error = error; error_description = none; error_uri = none }

abbrev pub with_description : OAuth2ErrorCode → String → TokenErrorResponse
with_description error description = record {
  error = error;
  error_description = some description;
  error_uri = none;
}

pub data TokenTypeHint : Type 0 where
  access_token refresh_token : TokenTypeHint

pub record RevocationRequest : Type 0 where
  pub token : String
  pub token_type_hint : Option TokenTypeHint
  pub client_id : Option String
  pub client_secret : Option String

pub record IntrospectionRequest : Type 0 where
  pub token : String
  pub token_type_hint : Option TokenTypeHint
  pub client_id : Option String
  pub client_secret : Option String

pub record IntrospectionResponse : Type 0 where
  pub active : Bool
  pub scope : Option String
  pub client_id : Option String
  pub sub : Option String
  pub token_type : Option TokenType
  pub exp : Option ℤ
  pub iat : Option ℤ
  pub iss : Option String
  pub jti : Option String

abbrev pub inactive : IntrospectionResponse
inactive = record {
  active = false;
  scope = none;
  client_id = none;
  sub = none;
  token_type = none;
  exp = none;
  iat = none;
  iss = none;
  jti = none;
}

-- The answers, by status and body: 400 with an error, the answer of `AppError::internal`, 302 with
-- the bytes of its `Location`, and 200 with a token, with an introspection or with no body.
pub data HttpResponse : Type 0 where
  bad_request : TokenErrorResponse → HttpResponse
  internal_error : String → HttpResponse
  found : List ℕ → HttpResponse
  token_json : TokenResponse → HttpResponse
  introspection_json : IntrospectionResponse → HttpResponse
  finished : HttpResponse

unfoldable pub token_error : OAuth2ErrorCode → String → HttpResponse
token_error error description = bad_request (with_description error description)
