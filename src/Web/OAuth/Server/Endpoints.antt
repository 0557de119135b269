-- ===== src/Web/OAuth/Server/Endpoints.antt =====
-- What every sequence of requests keeps of the stores.
use rust_libraries.Prelude.{
  String, Bool, true, false, Option, none, some, List, [], ◌∷◌, Result, ok, err, All, if◌then◌else◌,
}
use rust_libraries.Time.{Timestamp, TimeApi}
use rust_libraries.Security.Error.{SecurityError}
use rust_libraries.Security.Compare.{SubtleApi}
use rust_libraries.Security.Claims.{Claims, UnixApi}
use rust_libraries.Security.RefreshToken.{ConsumeResult, valid, expired, compromised, not_found}
use rust_libraries.Web.OAuth.Messages.{
  HttpResponse, TokenResponse, RevocationRequest, IntrospectionRequest,
}
use rust_libraries.Prelude.Int.{ℤ}
use rust_libraries.Web.OAuth.Flow.{pure}
use rust_libraries.Web.OAuth.Flow.Keeps.{Keeps, required-Keeps, read-Keeps, run-Keeps}
use rust_libraries.Web.OAuth.Client.{CryptoApi}
use rust_libraries.Web.OAuth.Token.{exchange, token, answer_tokens}
use rust_libraries.Web.OAuth.Authorize.{authorize, answer}
use rust_libraries.Security.Claims.{from_unix_seconds}
use rust_libraries.Web.OAuth.Memory.{
  Stores, Settings, config_of, refresh_token_store, token_denylist,
}
use rust_libraries.Web.OAuth.Manage as Manage
use rust_libraries.Web.OAuth.Manage.{
  may_be_refresh, may_be_access, revoke_consumed, revoke_refresh, denied_by, denied, revoke_token,
  revoke, is_denied, introspect_claims, introspect_token, introspect,
}
use rust_libraries.Web.OAuth.Server.{
  Request, authorizes, exchanges, revokes, introspects, handle, handle_all,
}
use rust_libraries.Web.OAuth.Server.Steps.{Kept, FreshRequest, exchange-Keeps, authorize-Keeps}

module _ {κ μ} ⦃time : TimeApi⦄ ⦃unix : UnixApi⦄ ⦃subtle : SubtleApi⦄ ⦃crypto : CryptoApi⦄
    (settings : Settings) (P : Stores → Type κ) (Fresh : String → Type μ)
    (kept : Kept P Fresh) where
  revoke_consumed_keeps :
      (r : Stores × Result SecurityError ConsumeResult)
      → P r.0
      → P (revoke_consumed refresh_token_store r).0
  revoke_consumed_keeps (t, ok (valid rt)) p = kept.revoke_family t rt.family_id p
  revoke_consumed_keeps (t, ok (expired rt)) p = kept.revoke_family t rt.family_id p
  revoke_consumed_keeps (t, ok (compromised family)) p = p
  revoke_consumed_keeps (t, ok not_found) p = p
  revoke_consumed_keeps (t, err x) p = p

  revoke_refresh_keeps :
      (may : Bool) (now : Timestamp) (token : String) (s : Stores)
      → P s
      → P (revoke_refresh (some refresh_token_store) may now token s).0
  revoke_refresh_keeps false now token s p = p
  revoke_refresh_keeps true now token s p =
      revoke_consumed_keeps (refresh_token_store.consume s now token)
        (kept.consume_token s now token p)

  denied_by_keeps :
      (jti : Option String) (exp : Option ℤ) (s : Stores)
      → P s
      → P (denied_by token_denylist jti exp s)
  denied_by_keeps none exp s p = p
  denied_by_keeps (some jti) none s p = p
  denied_by_keeps (some jti) (some exp) s p = kept.deny s jti (from_unix_seconds exp) p

  denied_keeps :
      (r : Result SecurityError Claims) (s : Stores) → P s → P (denied token_denylist r s)
  denied_keeps (ok claims) s p = denied_by_keeps claims.jti claims.exp s p
  denied_keeps (err x) s p = p

  rest_keeps :
      (r : Stores × Bool) (may : Bool) (claims : Result SecurityError Claims)
      → P r.0
      → P (if r.1 then r.0 else if may then denied token_denylist claims r.0 else r.0)
  rest_keeps (t, true) may claims p = p
  rest_keeps (t, false) true claims p = denied_keeps claims t p
  rest_keeps (t, false) false claims p = p

  revoke-Keeps :
      (readings : Manage.Readings) (req : RevocationRequest)
      → Keeps P (revoke (config_of settings) readings req)
  unfolding revoke revoke_token
  revoke-Keeps readings req = required-Keeps P _ _ _ λ client_id e. read-Keeps P _ _ λ client s p.
      rest_keeps
        (revoke_refresh (some refresh_token_store) (may_be_refresh req.token_type_hint)
          readings.consume_now req.token s)
        (may_be_access req.token_type_hint) (settings.decode readings.decode_now req.token)
        (revoke_refresh_keeps (may_be_refresh req.token_type_hint) readings.consume_now req.token s
          p)

  is_denied_keeps :
      (jti : Option String) (now : Timestamp) (s : Stores)
      → P s
      → P (is_denied (some token_denylist) jti now s).0
  is_denied_keeps none now s p = p
  is_denied_keeps (some jti) now s p = kept.look s now jti p

  introspect_claims_keeps :
      (now : Timestamp) (r : Result SecurityError Claims) (s : Stores)
      → P s
      → P (introspect_claims (some token_denylist) now r s).0
  introspect_claims_keeps now (ok claims) s p = is_denied_keeps claims.jti now s p
  introspect_claims_keeps now (err x) s p = p

  introspect-Keeps :
      (readings : Manage.Readings) (req : IntrospectionRequest)
      → Keeps P (introspect (config_of settings) readings req)
  unfolding introspect introspect_token pure
  introspect-Keeps readings req = required-Keeps P _ _ _ λ client_id e. read-Keeps P _ _ λ client.
      run-Keeps P _ _
        (λ s p.
          introspect_claims_keeps readings.denylist_now
            (settings.decode readings.decode_now req.token) s p)
        λ response s p. p

  answer_keeps : (r : Stores × Result HttpResponse HttpResponse) → P r.0 → P (answer r).0
  answer_keeps (t, ok x) p = p
  answer_keeps (t, err x) p = p

  answer_tokens_keeps :
      (r : Stores × Result HttpResponse TokenResponse) → P r.0 → P (answer_tokens r).0
  answer_tokens_keeps (t, ok x) p = p
  answer_tokens_keeps (t, err x) p = p

  handle_keeps : (r : Request) (s : Stores) → FreshRequest Fresh r → P s → P (handle settings s r).0
  unfolding handle token
  handle_keeps (authorizes now random_token req sub) s fresh p =
      answer_keeps (authorize (config_of settings) now random_token req sub s)
        (authorize-Keeps settings P Fresh kept now random_token req sub fresh s p)
  handle_keeps (exchanges readings req) s fresh p =
      answer_tokens_keeps (exchange (config_of settings) readings req.grant_type req s)
        (exchange-Keeps settings P Fresh kept req.grant_type readings req s p)
  handle_keeps (revokes readings req) s fresh p =
      answer_keeps (revoke (config_of settings) readings req s) (revoke-Keeps readings req s p)
  handle_keeps (introspects readings req) s fresh p =
      answer_keeps (introspect (config_of settings) readings req s)
        (introspect-Keeps readings req s p)

  -- Every sequence of requests keeps it.
  pub handle_all_keeps :
      (requests : List Request) (s : Stores)
      → All (FreshRequest Fresh) requests
      → P s
      → P (handle_all settings s requests)
  unfolding handle_all
  handle_all_keeps [] s fresh p = p
  handle_all_keeps (r ∷ rest) s fresh p =
      handle_all_keeps rest (handle settings s r).0 fresh.1 (handle_keeps r s fresh.0 p)
