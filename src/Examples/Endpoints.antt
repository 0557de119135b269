-- ===== src/Examples/Endpoints.antt =====
-- The endpoints of the OAuth server over sequences of requests, at concrete inputs.
use rust_libraries.Prelude.{
  ℕ, ◌<◌, String, none, some, List, [], ◌∷◌, ◌++◌, Result, ok, ◌≡◌, ◌≢◌, refl, ap, subst, arith,
  All, string_eq, ne_of_==,
}
use rust_libraries.Prelude.Int.{pos}
use rust_libraries.Prelude.Map.{get, insert, remove, retain}
use rust_libraries.Prelude.Text.{as_bytes, split_whitespace, join}
use rust_libraries.Security.Error.{SecurityError}
use rust_libraries.Security.Client as Clients
use rust_libraries.Security.Claims.{Claims, UnixApi}
use rust_libraries.Security.Claims as Claiming
use rust_libraries.Security.AuthCode as Codes
use rust_libraries.Security.RefreshToken as Refresh
use rust_libraries.Security.Revocation as Denied
use rust_libraries.Web.OAuth.Messages.{
  AuthorizationRequest, TokenRequest, TokenResponse, HttpResponse, RevocationRequest, GrantType,
  ResponseType, default_token_type, finished, found, inactive,
}
use rust_libraries.Web.OAuth.Messages as Messages
use rust_libraries.Web.OAuth.Client.{CryptoApi, Readings}
use rust_libraries.Web.OAuth.Client as Client
use rust_libraries.Web.OAuth.Flow.{◌>>=◌, pure, required, ensure, lift, read, run}
use rust_libraries.Web.OAuth.Token as Token
use rust_libraries.Security.Revocation.Denylist as Denylist
use rust_libraries.Web.OAuth.Manage as Manage
use rust_libraries.Web.OAuth.Manage.Revoked as Revoked
use rust_libraries.Web.OAuth.Authorize.{authorize, answer, resolve_redirect_uri}
use rust_libraries.Web.OAuth.Authorize.Issue as Issue
use rust_libraries.Web.OAuth.Authorize.Redirects as Redirects
use rust_libraries.Web.OAuth.Url.{redirect_url, append_params, percent_encode}
use rust_libraries.Web.OAuth.Url.Parse as Parse
use rust_libraries.Web.OAuth.Url.Encoding as Encoding
use rust_libraries.Web.OAuth.Server.{Request, authorizes, introspects, handle_all}
use rust_libraries.Web.OAuth.Server.Sessions as Sessions
use rust_libraries.Web.OAuth.Memory.{Stores, config_of}
use rust_libraries.Examples.Clock.{utc, plain_bytes}
use rust_libraries.Examples.OAuth.{
  seconds, plain_crypto, ann_code, ann_token, ann_claims, stores, settings, readings, asked,
  response, issued, exchanged, granted,
}

abbrev manage_readings : Manage.Readings
manage_readings = record { consume_now = 6; decode_now = 6; denylist_now = 6 }

abbrev introspection : Messages.IntrospectionRequest
introspection = record {
  token = "jwt";
  token_type_hint = none;
  client_id = some "app";
  client_secret = some "pw";
}

abbrev wanted : AuthorizationRequest
wanted = record {
  response_type = ResponseType.code;
  client_id = "app";
  redirect_uri = some "https://a/cb";
  scope = some "mail";
  state = some "x&y";
  nonce = none;
  code_challenge = some "v";
  code_challenge_method = some Messages.plain;
  response_mode = none;
  prompt = none;
  max_age = none;
  acr_values = none;
  login_hint = none;
  ui_locales = none;
}

abbrev requests : List Request
requests =
    introspects manage_readings introspection ∷ authorizes 7 (ok "c9") wanted (some "ann") ∷ []

c9_apart : ◌≢◌ {A = String} "c9" "c1"
c9_apart = ne_of_== "c9" "c1" refl

fresh_c9 : (c : String) → ◌≡◌ {A = Result SecurityError String} (ok "c9") (ok c) → c ≢ "c1"
fresh_c9 c e =
    let same : ◌≡◌ {A = String} "c9" c = ground arith in subst (λ x. x ≢ "c1") same c9_apart

code_exchanged_once_example :
    Token.exchange_authorization_code
      (config_of settings)
      readings
      asked
      (handle_all settings exchanged requests)
    ≢ (exchanged, ok response)
code_exchanged_once_example =
    Sessions.code_exchanged_once settings readings readings asked asked stores exchanged exchanged
      response response "c1" requests granted refl refl (tt, ((λ c e. fresh_c9 c e), tt))

abbrev revocation : String → RevocationRequest
revocation token = record {
  token = token;
  token_type_hint = none;
  client_id = some "app";
  client_secret = some "pw";
}

-- The token of another session.
abbrev other_token : Refresh.RefreshToken
other_token = record ann_token { token = "u1"; family_id = "g1" }

abbrev two_sessions : Stores
two_sessions = record stores {
  refresh_tokens = record {
    active = ("r1", ann_token) ∷ ("u1", other_token) ∷ [];
    consumed = [];
    revoked_families = [];
  };
}

abbrev one_left : Stores
one_left = record stores {
  refresh_tokens = record {
    active = ("u1", other_token) ∷ [];
    consumed = ("r1", ("f1", 90)) ∷ [];
    revoked_families = "f1" ∷ [];
  };
}

active_r1 : get "r1" two_sessions.refresh_tokens.active ≡ some ann_token
unfolding get
active_r1 = refl

session_revoked :
    Manage.revoke (config_of settings) manage_readings (revocation "r1") two_sessions
    ≡ (one_left, ok finished)
unfolding Manage.revoke Manage.revoke_token ◌>>=◌ required read Client.authenticate_client
    Clients.find get insert remove Refresh.consume Refresh.consume_active Refresh.is_expired
    Refresh.revoke_family retain
session_revoked = refl

abbrev other_asked : TokenRequest
other_asked = record asked { refresh_token = some "u1" }

abbrev other_left : Stores
other_left = record stores {
  refresh_tokens = record {
    active = ("r2", issued "g1") ∷ [];
    consumed = ("r1", ("f1", 90)) ∷ ("u1", ("g1", 90)) ∷ [];
    revoked_families = "f1" ∷ [];
  };
}

other_rotated :
    Token.exchange_refresh_token
      (config_of settings)
      readings
      other_asked
      (handle_all settings one_left [])
    ≡ (other_left, ok response)
unfolding handle_all Token.exchange_refresh_token Refresh.consume Refresh.consume_active
    Refresh.is_expired Clients.allows_grant ◌>>=◌ required read Client.authenticate_client
    Clients.find get ensure lift Token.issue Client.mint_access_token Claiming.random_jwt_id insert
    remove join Claiming.builder Claiming.checked_add_i64 Claiming.claim Claiming.issuer
    Refresh.build Refresh.new_builder Refresh.with_family_id Refresh.with_scope Refresh.store
    Client.access_claims Client.has_openid_scope Client.issue_refresh_token pure run
other_rotated = refl

revoked_session_over_example :
    (token : String) × (w : Refresh.RefreshToken) × (other_asked.refresh_token ≡ some token)
    × (get token (handle_all settings one_left []).refresh_tokens.active ≡ some w)
    × (w.family_id ≢ "f1")
revoked_session_over_example =
    Sessions.revoked_session_over settings manage_readings readings (revocation "r1") other_asked
      two_sessions one_left other_left finished response ann_token [] session_revoked refl active_r1
      other_rotated

abbrev denied : Stores
denied = record stores { denylist = ("j1", 80) ∷ [] }

access_revoked :
    Manage.revoke (config_of settings) manage_readings (revocation "jwt") stores
    ≡ (denied, ok finished)
unfolding Manage.revoke Manage.revoke_token ◌>>=◌ required read Client.authenticate_client
    Clients.find get insert Refresh.consume Refresh.consume_replayed Refresh.evict_expired_consumed
    retain Denied.revoke Claiming.from_unix_seconds
access_revoked = refl

abbrev later : Manage.Readings
later = record { consume_now = 60; decode_now = 60; denylist_now = 60 }

no_refresh : get "jwt" stores.refresh_tokens.active ≡ none
unfolding get
no_refresh = refl

in_time : 60 < Claiming.from_unix_seconds (pos 80)
unfolding Claiming.from_unix_seconds
in_time = omega arith

revoked_inactive_example :
    (Manage.introspect_token
      (config_of settings)
      later
      "jwt"
      (record denied { denylist = Denylist.perform_all denied.denylist [] })).1
    ≡ inactive
revoked_inactive_example =
    Revoked.revoked_inactive settings manage_readings (revocation "jwt") stores denied finished
      later ann_claims "j1" (pos 80) [] access_revoked refl no_refresh refl refl refl refl tt
      in_time

abbrev new_code : Codes.AuthCode
new_code = record ann_code { code = "c9"; issued_at = 7; expires_at = 17 }

abbrev with_code : Stores
with_code = record stores { codes = ("c1", ann_code) ∷ ("c9", new_code) ∷ [] }

abbrev location : List ℕ
location = as_bytes "https://a/cb?code=c9&state=x%26y"

redirected :
    authorize (config_of settings) 7 (ok "c9") wanted (some "ann") stores
    ≡ (with_code, ok (found location))
unfolding authorize ◌>>=◌ read Clients.find get lift resolve_redirect_uri
    Clients.allows_redirect_uri ensure Clients.allows_grant Clients.allows_scopes split_whitespace
    Codes.build pure Codes.store as_bytes redirect_url insert append_params Codes.with_pkce
    percent_encode Codes.with_scope Codes.new_builder Codes.with_redirect_uri
redirected = refl

redirects-Registered_example :
    Redirects.Registered (config_of settings) 7 (ok "c9") wanted (some "ann") stores location
redirects-Registered_example =
    Redirects.redirects-Registered (config_of settings) 7 (ok "c9") wanted (some "ann") stores
      with_code location (ap answer redirected)

abbrev params : List (List ℕ × List ℕ)
params = (b'k' ∷ [], b'&' ∷ 200 ∷ []) ∷ []

params_fit : All Encoding.IsParam params
params_fit = (((refl, tt), (omega arith, (omega arith, tt))), tt)

redirect_url-parse_query_example :
    (query : List ℕ) × (redirect_url (b'u' ∷ []) params ≡ (b'u' ∷ []) ++ (b'?' ∷ query))
    × (Parse.parse_query query ≡ some params)
redirect_url-parse_query_example =
    Encoding.redirect_url-parse_query (b'u' ∷ []) (b'k' ∷ [], b'&' ∷ 200 ∷ []) [] params_fit
