-- ===== src/Web/OAuth/Authorize.antt =====
-- klauthed-web/src/oauth/handlers.rs: the authorization endpoint. A body that ends with `ok`
-- redirects with a code; one that ends with `err` returned that answer early.
pub mod Issue
pub mod Redirects
use rust_libraries.Prelude.{
  ℕ, String, Bool, true, false, Option, none, some, List, [], ◌∷◌, Result, ok, err, string_eq,
  if◌then◌else◌,
}
use rust_libraries.Prelude.Text.{as_bytes, split_whitespace}
use rust_libraries.Time.{Timestamp, TimeApi}
use rust_libraries.Security.Error.{SecurityError}
use rust_libraries.Security.Client.{OAuth2Client, allows_redirect_uri, allows_grant, allows_scopes}
use rust_libraries.Security.Client as Clients
use rust_libraries.Security.AuthCode as Codes
use rust_libraries.Security.AuthCode.{
  AuthCode, AuthCodeBuilder, new_builder, with_redirect_uri, with_scope, with_nonce, with_pkce,
  build,
}
use rust_libraries.Web.OAuth.Messages.{
  HttpResponse, AuthorizationRequest, ResponseType, CodeChallengeMethod, TokenErrorResponse,
  with_description, bad_request, internal_error, invalid_client, invalid_request, invalid_scope,
  unauthorized_client, unsupported_response_type, server_error,
}
use rust_libraries.Web.OAuth.Url.{redirect, redirect_url, with_state, error_redirect}
use rust_libraries.Web.OAuth.Config.{OAuthConfig}
use rust_libraries.Web.OAuth.Flow.{Flow, ◌>>=◌, pure, ensure, lift, read}

abbrev pub known_client :
    Result SecurityError (Option OAuth2Client) → Result HttpResponse OAuth2Client
known_client (ok (some client)) = ok client
known_client (ok none) = err (bad_request (with_description invalid_client "unknown client_id"))
known_client (err e) = err (internal_error "client store unavailable")

-- `match client.redirect_uris.as_slice()`.
abbrev pub only_uri : List String → Result HttpResponse String
only_uri (only ∷ []) = ok only
only_uri _ = err (
    bad_request (
      with_description invalid_request "redirect_uri is required when more than one is registered"))

unfoldable pub resolve_redirect_uri : OAuth2Client → Option String → Result HttpResponse String
resolve_redirect_uri client none = only_uri client.redirect_uris
resolve_redirect_uri client (some uri) =
    if allows_redirect_uri client uri
    then ok uri
    else err (
        bad_request
          (with_description invalid_request "redirect_uri is not registered for this client"))

abbrev pub is_code : ResponseType → Bool
is_code ResponseType.code = true
is_code _ = false

abbrev pub requested_scopes : Option String → List String
requested_scopes none = []
requested_scopes (some s) = split_whitespace s

abbrev pub nonced : Option String → AuthCodeBuilder → AuthCodeBuilder
nonced none b = b
nonced (some n) b = with_nonce b n

abbrev pub pkce_method : CodeChallengeMethod → Codes.PkceMethod
pkce_method CodeChallengeMethod.plain = Codes.plain
pkce_method CodeChallengeMethod.s256 = Codes.s256

abbrev pub challenged :
    Option String → Option CodeChallengeMethod → AuthCodeBuilder → AuthCodeBuilder
challenged (some challenge) (some method) b = with_pkce b challenge (pkce_method method)
challenged (some challenge) none b = b
challenged none method b = b

-- `user.sub().unwrap_or("")`.
abbrev pub subject_of : Option String → String
subject_of none = ""
subject_of (some sub) = sub

abbrev pub code_builder : AuthorizationRequest → Option String → String → AuthCodeBuilder
code_builder req sub redirect_uri = challenged req.code_challenge req.code_challenge_method (
    nonced req.nonce (
      with_scope (with_redirect_uri (new_builder req.client_id (subject_of sub)) redirect_uri)
        (requested_scopes req.scope)))

abbrev pub or_answer : {A : Type 0} → HttpResponse → Result SecurityError A → Result HttpResponse A
or_answer answer (ok a) = ok a
or_answer answer (err e) = err answer

abbrev pub stored_or :
    {S : Type 0}
    → HttpResponse
    → S × Result SecurityError (Unit {0})
    → S × Result HttpResponse (Unit {0})
stored_or answer (t, r) = (t, or_answer answer r)

-- `sub` is the subject of the authenticated user, `now` the clock and `random_token` the code.
unfoldable pub authorize :
    {S : Type 0} ⦃time : TimeApi⦄
    → OAuthConfig S
    → Timestamp
    → Result SecurityError String
    → AuthorizationRequest
    → Option String
    → Flow S HttpResponse
authorize config now random_token req sub = do
  client ← read (λ s. known_client (config.client_store.get s req.client_id))
  redirect_uri ← lift (resolve_redirect_uri client req.redirect_uri)
  typed ←
      ensure
        (error_redirect redirect_uri unsupported_response_type
          "only response_type=code is supported" req.state)
        (is_code req.response_type)
  may_authorize ←
      ensure
        (error_redirect redirect_uri unauthorized_client
          "client is not authorized for authorization_code grant" req.state)
        (allows_grant client Clients.authorization_code)
  in_scope ←
      ensure
        (error_redirect redirect_uri invalid_scope
          "one or more requested scopes are not allowed for this client" req.state)
        (allows_scopes client (requested_scopes req.scope))
  code ← lift (
      or_answer
        (error_redirect redirect_uri server_error "could not generate authorization code" req.state)
        (build (code_builder req sub redirect_uri) random_token now config.code_ttl))
  kept ← (λ s.
      stored_or
        (error_redirect redirect_uri server_error "could not store authorization code" req.state)
        (config.code_store.store s code))
  pure (
      redirect (
        redirect_url (as_bytes redirect_uri)
          ((as_bytes "code", as_bytes code.code) ∷ with_state req.state)))

-- The answer of a body, given early or at its end.
abbrev pub answer : {S : Type 0} → S × Result HttpResponse HttpResponse → S × HttpResponse
answer (t, ok response) = (t, response)
answer (t, err early) = (t, early)
