-- ===== src/Web/OAuth/Server/Steps.antt =====
-- What the authorization and the token endpoint keep of the stores.
use rust_libraries.Prelude.{
  String, Bool, true, false, Option, none, some, List, Result, ok, err, ◌≡◌, subst, arith,
  if◌then◌else◌,
}
use rust_libraries.Time.{Timestamp, TimeApi}
use rust_libraries.Security.Error.{SecurityError}
use rust_libraries.Security.Compare.{SubtleApi}
use rust_libraries.Security.Claims.{UnixApi}
use rust_libraries.Security.AuthCode.{AuthCode}
use rust_libraries.Security.RefreshToken.{
  ConsumeResult, RefreshToken, valid, expired, compromised, not_found,
}
use rust_libraries.Web.OAuth.Messages.{HttpResponse, AuthorizationRequest, TokenRequest, GrantType}
use rust_libraries.Web.OAuth.Flow.{◌>>=◌, pure, stop, lift}
use rust_libraries.Web.OAuth.Flow.Keeps.{
  Keeps, bind-Keeps, lift-Keeps, required-Keeps, read-Keeps, run-Keeps, ensure-Keeps,
}
use rust_libraries.Web.OAuth.Client.{
  CryptoApi, Readings, issue_in, issue_refresh_token, has_openid_scope,
}
use rust_libraries.Web.OAuth.Token.{
  issue, exchange_authorization_code, exchange_refresh_token, exchange, found_code, found_token,
}
use rust_libraries.Web.OAuth.Authorize.{authorize}
use rust_libraries.Web.OAuth.Authorize.Issue.{build-Bound, or_answer-ok}
use rust_libraries.Web.OAuth.Memory.{
  Stores, Settings, config_of, code_store, refresh_token_store, token_denylist,
}
use rust_libraries.Web.OAuth.Server.{Request, authorizes, exchanges, revokes, introspects}

-- A property that every operation of the stores keeps, where the codes that are stored are fresh.
pub record Kept {κ μ} (P : Stores → Type κ) (Fresh : String → Type μ) : Type (κ ⊔ μ) where
  pub store_code : (s : Stores) (c : AuthCode) → Fresh c.code → P s → P (code_store.store s c).0
  pub consume_code :
      (s : Stores) (now : Timestamp) (code : String) → P s → P (code_store.consume s now code).0
  pub store_token : (s : Stores) (rt : RefreshToken) → P s → P (refresh_token_store.store s rt).0
  pub consume_token :
      (s : Stores) (now : Timestamp) (token : String)
      → P s
      → P (refresh_token_store.consume s now token).0
  pub revoke_family :
      (s : Stores) (family : String) → P s → P (refresh_token_store.revoke_family s family).0
  pub deny :
      (s : Stores) (jti : String) (expiry : Timestamp)
      → P s
      → P (token_denylist.revoke s jti expiry).0
  pub look :
      (s : Stores) (now : Timestamp) (jti : String)
      → P s
      → P (token_denylist.is_revoked s now jti).0

-- The code that an authorization draws is fresh.
abbrev pub FreshRequest {μ} : (String → Type μ) → Request → Type μ
FreshRequest Fresh (authorizes now random_token req sub) =
    (c : String) → random_token ≡ ok c → Fresh c
FreshRequest Fresh (exchanges readings req) = Unit
FreshRequest Fresh (revokes readings req) = Unit
FreshRequest Fresh (introspects readings req) = Unit

module _ {κ μ} ⦃time : TimeApi⦄ ⦃unix : UnixApi⦄ ⦃subtle : SubtleApi⦄ ⦃crypto : CryptoApi⦄
    (settings : Settings) (P : Stores → Type κ) (Fresh : String → Type μ)
    (kept : Kept P Fresh) where
  issue_in_keeps :
      (made : Result SecurityError RefreshToken) (s : Stores)
      → P s
      → P (issue_in refresh_token_store made s).0
  issue_in_keeps (ok rt) s p = kept.store_token s rt p
  issue_in_keeps (err x) s p = p

  pub issue_refresh_token_keeps :
      (client_id subject : String) (scope : List String) (family : Option String)
      (readings : Readings) (s : Stores)
      → P s
      → P (issue_refresh_token (config_of settings) client_id subject scope family readings s).0
  unfolding issue_refresh_token
  issue_refresh_token_keeps client_id subject scope family readings s p = issue_in_keeps _ s p

  id_token-Keeps :
      (b : Bool) (r : Result HttpResponse String)
      → Keeps P (if b then (do i ← lift r; pure (some i)) else pure {A = Option String} none)
  unfolding pure
  id_token-Keeps true r = lift-Keeps P r _ λ i e s p. p
  id_token-Keeps false r = λ s p. p

  issue-Keeps :
      (client_id subject : String) (scope : List String) (family echoed : Option String)
      (readings : Readings)
      → Keeps P (issue (config_of settings) readings client_id subject scope family echoed)
  unfolding issue pure
  issue-Keeps client_id subject scope family echoed readings = lift-Keeps P _ _ λ access e.
      run-Keeps P _ _ (issue_refresh_token_keeps client_id subject scope family readings)
        λ rt. bind-Keeps P _ _ (id_token-Keeps (has_openid_scope scope) _) λ i s p. p

  found_code_keeps :
      (r : Stores × Result SecurityError (Option AuthCode)) → P r.0 → P (found_code r).0
  found_code_keeps (t, ok (some c)) p = p
  found_code_keeps (t, ok none) p = p
  found_code_keeps (t, err x) p = p

  found_token_keeps :
      (r : Stores × Result SecurityError ConsumeResult) → P r.0 → P (found_token r).0
  found_token_keeps (t, ok (valid rt)) p = p
  found_token_keeps (t, ok (expired rt)) p = p
  found_token_keeps (t, ok (compromised family)) p = p
  found_token_keeps (t, ok not_found) p = p
  found_token_keeps (t, err x) p = p

  exchange_authorization_code-Keeps :
      (readings : Readings) (req : TokenRequest)
      → Keeps P (exchange_authorization_code (config_of settings) readings req)
  unfolding exchange_authorization_code
  exchange_authorization_code-Keeps readings req = required-Keeps P _ _ _ λ code e1.
      required-Keeps P _ _ _ λ client_id e2. read-Keeps P _ _ λ client.
        bind-Keeps P _ _
          (λ s p.
            found_code_keeps (code_store.consume s readings.consume_now code)
              (kept.consume_code s readings.consume_now code p))
          λ c. ensure-Keeps P _ _ _ λ e3. ensure-Keeps P _ _ _ λ e4.
            lift-Keeps P _ _ λ u e5. issue-Keeps client_id c.subject c.scope none c.nonce readings

  exchange_refresh_token-Keeps :
      (readings : Readings) (req : TokenRequest)
      → Keeps P (exchange_refresh_token (config_of settings) readings req)
  unfolding exchange_refresh_token
  exchange_refresh_token-Keeps readings req = required-Keeps P _ _ _ λ token e1.
      required-Keeps P _ _ _ λ store e2. required-Keeps P _ _ _ λ client_id e3.
        read-Keeps P _ _ λ client. ensure-Keeps P _ _ _ λ e4.
          let same : refresh_token_store ≡ store = ground arith in
          bind-Keeps P _ _
            (λ s p.
              subst (λ st. P (found_token (st.consume s readings.consume_now token)).0) same
                (found_token_keeps (refresh_token_store.consume s readings.consume_now token)
                  (kept.consume_token s readings.consume_now token p)))
            λ rt. ensure-Keeps P _ _ _ λ e5.
              lift-Keeps P _ _
                λ scope e6. issue-Keeps client_id rt.subject scope (some rt.family_id) none readings

  pub exchange-Keeps :
      (grant : GrantType) (readings : Readings) (req : TokenRequest)
      → Keeps P (exchange (config_of settings) readings grant req)
  unfolding stop
  exchange-Keeps GrantType.authorization_code readings req =
      exchange_authorization_code-Keeps readings req
  exchange-Keeps GrantType.refresh_token readings req = exchange_refresh_token-Keeps readings req
  exchange-Keeps GrantType.implicit readings req = λ s p. p
  exchange-Keeps GrantType.client_credentials readings req = λ s p. p
  exchange-Keeps GrantType.password readings req = λ s p. p
  exchange-Keeps GrantType.device_code readings req = λ s p. p
  exchange-Keeps GrantType.jwt_bearer readings req = λ s p. p
  exchange-Keeps GrantType.token_exchange readings req = λ s p. p

  pub authorize-Keeps :
      (now : Timestamp) (random_token : Result SecurityError String) (req : AuthorizationRequest)
      (sub : Option String)
      → ((c : String) → random_token ≡ ok c → Fresh c)
      → Keeps P (authorize (config_of settings) now random_token req sub)
  unfolding authorize pure
  authorize-Keeps now random_token req sub fresh = read-Keeps P _ _ λ client.
      lift-Keeps P _ _ λ uri e1. ensure-Keeps P _ _ _ λ e2. ensure-Keeps P _ _ _ λ e3.
        ensure-Keeps P _ _ _ λ e4. lift-Keeps P _ _ λ c made.
          let (drawn, _, _, _, _, _, _, _, _) =
            build-Bound (config_of settings) now random_token req sub uri c
              (or_answer-ok _ _ c made) in
          bind-Keeps P _ _ (λ s p. kept.store_code s c (fresh c.code drawn) p) λ u s p. p
