-- ===== src/Web/OAuth/Manage.antt =====
-- klauthed-web/src/oauth/manage.rs: the revocation and introspection endpoints.
pub mod Revoked
use rust_libraries.Prelude.{
  ℕ, String, Bool, true, false, Option, none, some, Result, ok, err, string_eq, if◌then◌else◌,
}
use rust_libraries.Prelude.Int.{ℤ}
use rust_libraries.Prelude.Map.{get}
use rust_libraries.Time.{Timestamp}
use rust_libraries.Security.Error.{SecurityError}
use rust_libraries.Security.Claims.{Claims, UnixApi, from_unix_seconds}
use rust_libraries.Security.RefreshToken.{ConsumeResult, valid, expired, compromised, not_found}
use rust_libraries.Web.OAuth.Messages.{
  HttpResponse, RevocationRequest, IntrospectionRequest, IntrospectionResponse, TokenTypeHint,
  inactive, default_token_type, token_error, invalid_request, finished, introspection_json,
}
use rust_libraries.Web.OAuth.Config.{OAuthConfig, RefreshTokenStore, TokenDenylist}
use rust_libraries.Web.OAuth.Flow.{Flow, ◌>>=◌, pure, required, read, run}
use rust_libraries.Web.OAuth.Client.{CryptoApi, authenticate_client}

-- What a request reads outside the stores: the clocks of the refresh token store, of the verifier
-- and of the denylist.
pub record Readings : Type 0 where
  pub consume_now : Timestamp
  pub decode_now : Timestamp
  pub denylist_now : Timestamp

-- `!matches!(hint, Some(TokenTypeHint::AccessToken))`, and for `RefreshToken`.
abbrev pub may_be_refresh : Option TokenTypeHint → Bool
may_be_refresh (some TokenTypeHint.access_token) = false
may_be_refresh _ = true

abbrev pub may_be_access : Option TokenTypeHint → Bool
may_be_access (some TokenTypeHint.refresh_token) = false
may_be_access _ = true

abbrev pub active_response : Claims → IntrospectionResponse
active_response claims = record {
  active = true;
  scope = get "scope" claims.custom;
  client_id = get "client_id" claims.custom;
  sub = claims.sub;
  token_type = some default_token_type;
  exp = claims.exp;
  iat = claims.iat;
  iss = claims.iss;
  jti = claims.jti;
}

module _ {S : Type 0} ⦃unix : UnixApi⦄ where
  -- Whether the token was a refresh token, which ends `revoke_token`.
  abbrev pub revoke_consumed :
      RefreshTokenStore S → S × Result SecurityError ConsumeResult → S × Bool
  revoke_consumed store (t, ok (valid rt)) = ((store.revoke_family t rt.family_id).0, true)
  revoke_consumed store (t, ok (expired rt)) = ((store.revoke_family t rt.family_id).0, true)
  revoke_consumed store (t, ok (compromised family)) = (t, false)
  revoke_consumed store (t, ok not_found) = (t, false)
  revoke_consumed store (t, err e) = (t, false)

  abbrev pub revoke_refresh :
      Option (RefreshTokenStore S) → Bool → Timestamp → String → S → S × Bool
  revoke_refresh none may now token s = (s, false)
  revoke_refresh (some store) false now token s = (s, false)
  revoke_refresh (some store) true now token s = revoke_consumed store (store.consume s now token)

  abbrev pub denied_by : TokenDenylist S → Option String → Option ℤ → S → S
  denied_by denylist none exp s = s
  denied_by denylist (some jti) none s = s
  denied_by denylist (some jti) (some exp) s = (denylist.revoke s jti (from_unix_seconds exp)).0

  abbrev pub denied : TokenDenylist S → Result SecurityError Claims → S → S
  denied denylist (err e) s = s
  denied denylist (ok claims) s = denied_by denylist claims.jti claims.exp s

  abbrev pub revoke_access :
      Option (Timestamp → String → Result SecurityError Claims)
      → Option (TokenDenylist S)
      → Timestamp
      → String
      → S
      → S
  revoke_access none denylist now token s = s
  revoke_access (some decode) none now token s = s
  revoke_access (some decode) (some denylist) now token s = denied denylist (decode now token) s

  unfoldable pub revoke_token : OAuthConfig S → Readings → String → Option TokenTypeHint → S → S
  revoke_token config readings token hint s =
      let (t, done) =
        revoke_refresh config.refresh_token_store (may_be_refresh hint) readings.consume_now token
          s in
      if done
      then t
      else if may_be_access hint
      then revoke_access config.decode config.token_denylist readings.decode_now token t
      else t

  abbrev pub is_denied : Option (TokenDenylist S) → Option String → Timestamp → S → S × Bool
  is_denied none jti now s = (s, false)
  is_denied (some denylist) none now s = (s, false)
  is_denied (some denylist) (some jti) now s =
      let (t, r) = denylist.is_revoked s now jti in (t, elim r [ ok b ↦ b | err e ↦ false ])

  abbrev pub introspect_claims :
      Option (TokenDenylist S)
      → Timestamp
      → Result SecurityError Claims
      → S
      → S × IntrospectionResponse
  introspect_claims denylist now (err e) s = (s, inactive)
  introspect_claims denylist now (ok claims) s =
      let (t, b) = is_denied denylist claims.jti now s in
      (t, if b then inactive else active_response claims)

  unfoldable pub introspect_token :
      OAuthConfig S → Readings → String → S → S × IntrospectionResponse
  introspect_token config readings token s = elim config.decode [
    | none ↦ (s, inactive)
    | some decode ↦
        introspect_claims config.token_denylist readings.denylist_now
          (decode readings.decode_now token) s
  ]

module _ {S : Type 0} ⦃unix : UnixApi⦄ ⦃crypto : CryptoApi⦄ (config : OAuthConfig S)
    (readings : Readings) where
  unfoldable pub revoke : RevocationRequest → Flow S HttpResponse
  revoke req = do
    client_id ← required (token_error invalid_request "client_id is required") req.client_id
    client ← read (authenticate_client config client_id req.client_secret)
    (λ s. (revoke_token config readings req.token req.token_type_hint s, ok finished))

  unfoldable pub introspect : IntrospectionRequest → Flow S HttpResponse
  introspect req = do
    client_id ← required (token_error invalid_request "client_id is required") req.client_id
    client ← read (authenticate_client config client_id req.client_secret)
    response ← run (introspect_token config readings req.token)
    pure (introspection_json response)
