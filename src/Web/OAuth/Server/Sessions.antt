-- ===== src/Web/OAuth/Server/Sessions.antt =====
-- What holds of every sequence of requests: a code is exchanged once, and a revoked session is over.
use rust_libraries.Prelude.{
  String, true, false, none, some, List, [], ◌∷◌, ok, ◌≡◌, ◌≢◌, refl, ap, ◌∙◌, sym, subst, arith,
  All, string_eq, ==_refl, contains, contains-set_insert,
}
use rust_libraries.Prelude.Map.{get, get-insert, get-remove}
use rust_libraries.Time.{Timestamp, TimeApi}
use rust_libraries.Security.Compare.{SubtleApi}
use rust_libraries.Security.Claims.{UnixApi}
use rust_libraries.Security.AuthCode as Codes
use rust_libraries.Security.RefreshToken as Refresh
use rust_libraries.Security.RefreshToken.Families as Families
use rust_libraries.Security.RefreshToken.Rotation as Rotation
use rust_libraries.Web.OAuth.Messages.{HttpResponse, TokenRequest, TokenResponse, RevocationRequest}
use rust_libraries.Web.OAuth.Client.{CryptoApi, Readings}
use rust_libraries.Web.OAuth.Token.{exchange_authorization_code, exchange_refresh_token}
use rust_libraries.Web.OAuth.Token.Grants.{exchange_authorization_code_sound}
use rust_libraries.Web.OAuth.Token.Refresh.{exchange_refresh_token_sound}
use rust_libraries.Web.OAuth.Manage as Manage
use rust_libraries.Web.OAuth.Manage.{may_be_refresh, revoke}
use rust_libraries.Web.OAuth.Manage.Revoked.{revoke_lem}
use rust_libraries.Web.OAuth.Memory.{Stores, Settings, config_of, refresh_token_store}
use rust_libraries.Web.OAuth.Server.{
  Request, authorizes, exchanges, revokes, introspects, handle_all,
}
use rust_libraries.Web.OAuth.Server.Endpoints.{handle_all_keeps}
use rust_libraries.Web.OAuth.Server.Steps.{Kept, FreshRequest, issue_refresh_token_keeps}

gone-Kept : (code : String) → Kept (λ s. get code s.codes ≡ none) (λ c. c ≢ code)
unfolding Codes.store Codes.consume
gone-Kept code = record {
  store_code = λ s c fresh p.
      ground (arith, get-insert c.code code c s.codes, string_eq.beq_iff c.code code);
  consume_code = λ s now k p. ground (arith, get-remove k code s.codes);
  store_token = λ s rt p. p;
  consume_token = λ s now token p. p;
  revoke_family = λ s family p. p;
  deny = λ s jti expiry p. p;
  look = λ s now jti p. p;
}

revoked-Kept :
    (family : String)
    → Kept (λ s. contains family s.refresh_tokens.revoked_families ≡ true) (λ c. Unit {0})
unfolding Refresh.store Refresh.revoke_family
revoked-Kept family = record {
  store_code = λ s c fresh p. p;
  consume_code = λ s now k p. p;
  store_token = λ s rt p. p;
  consume_token = λ s now token p. Families.consume-revoked s.refresh_tokens now token family p;
  revoke_family =
      λ s f p. ground (arith, contains-set_insert family f s.refresh_tokens.revoked_families);
  deny = λ s jti expiry p. p;
  look = λ s now jti p. p;
}

all_fresh : (requests : List Request) → All (FreshRequest (λ c. Unit {0})) requests
all_fresh [] = tt
all_fresh (authorizes now random_token req sub ∷ rest) = ((λ c e. tt), all_fresh rest)
all_fresh (exchanges readings req ∷ rest) = (tt, all_fresh rest)
all_fresh (revokes readings req ∷ rest) = (tt, all_fresh rest)
all_fresh (introspects readings req ∷ rest) = (tt, all_fresh rest)

apart :
    (f g : String) (families : List String)
    → f ≡ g
    → contains g families ≡ true
    → contains f families ≡ false
    → ⊥
apart f g families same h k = ground arith

consumed_gone :
    (s : Stores) (now : Timestamp) (code : String)
    → get code (record s { codes = (Codes.consume s.codes now code).0 }).codes ≡ none
unfolding Codes.consume
consumed_gone s now code = get-remove code code s.codes ∙ rw (==_refl code) refl

missing_code :
    (s : Stores) (now : Timestamp) (code : String)
    → get code s.codes ≡ none
    → (Codes.consume s.codes now code).1 ≡ none
unfolding Codes.consume
missing_code s now code g = rw g refl

module _ ⦃time : TimeApi⦄ ⦃unix : UnixApi⦄ ⦃subtle : SubtleApi⦄ ⦃crypto : CryptoApi⦄
    (settings : Settings) where
  exchanged-gone :
      (readings : Readings) (req : TokenRequest) (s t : Stores) (r : TokenResponse) (code : String)
      → exchange_authorization_code (config_of settings) readings req s ≡ (t, ok r)
      → req.code ≡ some code
      → get code t.codes ≡ none
  exchanged-gone readings req s t r code e named =
      let (client_id, c, u, (_, _, (k, has_code, consumed), _, _, _), (_, _, kept, _, _)) =
        exchange_authorization_code_sound (config_of settings) readings req s t r e in
      let same : k ≡ code = ground arith in
      let gone : get code u.codes ≡ none =
        subst (λ v. get code v.codes ≡ none) (ap (λ p. p.0) consumed)
          (subst
            (λ x.
              get code (record s { codes = (Codes.consume s.codes readings.consume_now x).0 }).codes
              ≡ none)
            (sym same) (consumed_gone s readings.consume_now code)) in
      subst (λ v. get code v.codes ≡ none) (ap (λ p. p.0) kept)
        (issue_refresh_token_keeps settings _ _ (gone-Kept code) client_id c.subject c.scope none
          readings u gone)

  gone_refused :
      (readings : Readings) (req : TokenRequest) (s t : Stores) (r : TokenResponse) (code : String)
      → req.code ≡ some code
      → get code s.codes ≡ none
      → exchange_authorization_code (config_of settings) readings req s ≢ (t, ok r)
  gone_refused readings req s t r code named g e =
      let (_, c, u, (_, _, (k, has_code, consumed), _, _, _), _) =
        exchange_authorization_code_sound (config_of settings) readings req s t r e in
      let same : k ≡ code = ground arith in
      let given : (Codes.consume s.codes readings.consume_now k).1 ≡ some c = ground arith in
      let missing : (Codes.consume s.codes readings.consume_now k).1 ≡ none =
        missing_code s readings.consume_now k (ap (λ x. get x s.codes) same ∙ g) in
      ground arith

  -- A code that was exchanged for tokens is never exchanged again, whatever requests of any kind
  -- come in between, provided that no authorization draws the same code anew.
  pub code_exchanged_once :
      (first second : Readings) (req again : TokenRequest) (s t u : Stores) (r r2 : TokenResponse)
      (code : String) (requests : List Request)
      → exchange_authorization_code (config_of settings) first req s ≡ (t, ok r)
      → req.code ≡ some code
      → again.code ≡ some code
      → All (FreshRequest (λ c. c ≢ code)) requests
      → exchange_authorization_code
          (config_of settings)
          second
          again
          (handle_all settings t requests)
        ≢ (u, ok r2)
  code_exchanged_once first second req again s t u r r2 code requests e named named2 fresh f =
      gone_refused second again (handle_all settings t requests) u r2 code named2
        (handle_all_keeps settings (λ v. get code v.codes ≡ none) (λ c. c ≢ code) (gone-Kept code)
          requests t fresh (exchanged-gone first req s t r code e named))
        f

  -- The token that a granted refresh was granted for is active, and its family is not revoked.
  granted_alive :
      (readings : Readings) (req : TokenRequest) (s t : Stores) (r : TokenResponse)
      → exchange_refresh_token (config_of settings) readings req s ≡ (t, ok r)
      → (token : String) × (w : Refresh.RefreshToken) × (req.refresh_token ≡ some token)
        × (get token s.refresh_tokens.active ≡ some w)
        × (contains w.family_id s.refresh_tokens.revoked_families ≡ false)
  granted_alive readings req s t r e =
      let (_, store, w, _, u, (_, _, has_store, (token, has_token, consumed), _, _, _), _, _) =
        exchange_refresh_token_sound (config_of settings) readings req s t r e in
      let same : refresh_token_store ≡ store = ground arith in
      let here : refresh_token_store.consume s readings.consume_now token
          ≡ (u, ok (Refresh.valid w)) =
        subst (λ x. x.consume s readings.consume_now token ≡ (u, ok (Refresh.valid w))) (sym same)
          consumed in
      let given : (Refresh.consume s.refresh_tokens readings.consume_now token).1
          ≡ Refresh.valid w =
        ground arith in
      let (found, alive, _, _) =
        Rotation.consume-valid s.refresh_tokens
          (Refresh.consume s.refresh_tokens readings.consume_now token).0 readings.consume_now token
          w
          (ap (λ x. ((Refresh.consume s.refresh_tokens readings.consume_now token).0, x)) given) in
      (token, w, has_token, found, alive)

  -- After the revocation of an active refresh token by a request whose hint does not say that it
  -- is an access token was answered with 200, no token of its family is ever refreshed again,
  -- whatever requests of any kind come in between.
  pub revoked_session_over :
      (readings : Manage.Readings) (later : Readings) (req : RevocationRequest)
      (refresh : TokenRequest) (s t u : Stores) (response : HttpResponse) (r : TokenResponse)
      (rt : Refresh.RefreshToken) (requests : List Request)
      → revoke (config_of settings) readings req s ≡ (t, ok response)
      → may_be_refresh req.token_type_hint ≡ true
      → get req.token s.refresh_tokens.active ≡ some rt
      → exchange_refresh_token (config_of settings) later refresh (handle_all settings t requests)
        ≡ (u, ok r)
      → (token : String) × (w : Refresh.RefreshToken) × (refresh.refresh_token ≡ some token)
        × (get token (handle_all settings t requests).refresh_tokens.active ≡ some w)
        × (w.family_id ≢ rt.family_id)
  revoked_session_over readings later req refresh s t u response r rt requests e may g f =
      let (_, revoked, _) = revoke_lem settings readings req s t response e in
      let still =
        handle_all_keeps settings
          (λ v. contains rt.family_id v.refresh_tokens.revoked_families ≡ true) (λ c. Unit {0})
          (revoked-Kept rt.family_id) requests t (all_fresh requests) (revoked may rt g) in
      let (token, w, has_token, found, alive) =
        granted_alive later refresh (handle_all settings t requests) u r f in
      (
        token,
        w,
        has_token,
        found,
        λ same.
            apart w.family_id rt.family_id
              (handle_all settings t requests).refresh_tokens.revoked_families same still alive,
      )
