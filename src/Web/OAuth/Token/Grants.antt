-- ===== src/Web/OAuth/Token/Grants.antt =====
-- What a granted exchange has checked and what its tokens say.
use rust_libraries.Prelude.{
  String, Bool, true, false, Option, none, some, List, Result, ok, err, ◌≡◌, ◌⊎◌, inl, inr, refl,
  subst, arith, ap, ◌∙◌, string_eq, eq_of_==, if◌then◌else◌, any, ◌==◌,
}
use rust_libraries.Prelude.Text.{join, as_bytes}
use rust_libraries.Time.{TimeApi}
use rust_libraries.Security.Error.{SecurityError}
use rust_libraries.Security.Compare.{SubtleApi, constant_time_eq_iff}
use rust_libraries.Security.Client as Clients
use rust_libraries.Security.Claims.{Claims, UnixApi}
use rust_libraries.Security.AuthCode.{AuthCode, PkceMethod, verify_pkce}
use rust_libraries.Security.AuthCode as Codes
use rust_libraries.Security.RefreshToken.{
  RefreshToken, ConsumeResult, valid, expired, compromised, not_found,
}
use rust_libraries.Web.OAuth.Messages.{TokenRequest, TokenResponse}
use rust_libraries.Web.OAuth.Config.{OAuthConfig}
use rust_libraries.Web.OAuth.Flow.{
  ◌>>=◌, pure, lift, bind_elim, required_elim, ensure_elim, lift_elim, read_elim, run_elim,
}
use rust_libraries.Web.OAuth.Client.{
  CryptoApi, Readings, has_openid_scope, mint_id_token, issue_refresh_token,
}
use rust_libraries.Web.OAuth.Client.Issued.{RefreshIssued, issue_refresh_token-RefreshIssued}
use rust_libraries.Web.OAuth.Client.Minted.{
  IsAccess, IsId, Secret, mint_access_token-IsAccess, mint_id_token-IsId, authenticate_client-ok,
}
use rust_libraries.Web.OAuth.Token.{
  redirect_matches, found_code, found_token, check_pkce, issue, exchange_authorization_code,
}

found_code-ok :
    {S : Type 0} (r : S × Result SecurityError (Option AuthCode)) (t : S) (c : AuthCode)
    → found_code r ≡ (t, ok c)
    → r ≡ (t, ok (some c))
found_code-ok (u, ok (some d)) t c e = ground arith
found_code-ok (u, ok none) t c e = ground arith
found_code-ok (u, err x) t c e = ground arith

pub found_token-ok :
    {S : Type 0} (r : S × Result SecurityError ConsumeResult) (t : S) (rt : RefreshToken)
    → found_token r ≡ (t, ok rt)
    → r ≡ (t, ok (valid rt))
found_token-ok (u, ok (valid w)) t rt e = ground arith
found_token-ok (u, ok (expired w)) t rt e = ground arith
found_token-ok (u, ok (compromised f)) t rt e = ground arith
found_token-ok (u, ok not_found) t rt e = ground arith
found_token-ok (u, err x) t rt e = ground arith

redirect_matches-cases :
    (stored requested : Option String)
    → redirect_matches stored requested ≡ true
    → (stored ≡ none) ⊎ (requested ≡ stored)
redirect_matches-cases none requested e = inl refl
redirect_matches-cases (some u) none e = ground arith
redirect_matches-cases (some u) (some r) e = inr (ap some (eq_of_== r u e))

module _ {S : Type 0} ⦃time : TimeApi⦄ ⦃unix : UnixApi⦄ (config : OAuthConfig S)
    (readings : Readings) where
  -- The id token of an exchange, by whether `openid` is granted: its claims name the subject, the
  -- client as audience and the echoed nonce.
  abbrev pub IdToken : Bool → String → String → Option String → Option String → Type 0
  IdToken openid subject client_id echoed o =
      ((openid ≡ false) × (o ≡ none))
      ⊎ ((openid ≡ true)
          × ((i : String) × (claims : Claims) × (o ≡ some i)
              × IsId config subject client_id echoed readings.id_now claims
              × (config.encode claims ≡ ok i)))

  -- The tokens of an answer: the claims of the access token name the subject, the scope and the
  -- client, the answer names the scope, and the refresh token is the one that was stored.
  abbrev pub Grants :
      String → String → List String → Option String → Option String → S → S → TokenResponse → Type 0
  Grants client_id subject scope family echoed s t r =
      ((id : String) × (claims : Claims) × (readings.jti ≡ ok id)
        × IsAccess config subject (join " " scope) client_id id readings.access_now claims
        × (config.encode claims ≡ ok r.access_token))
      × (r.scope ≡ (if join " " scope == "" then none else some (join " " scope)))
      × (issue_refresh_token config client_id subject scope family readings s
          ≡ (t, r.refresh_token))
      × RefreshIssued config readings client_id subject scope family s t r.refresh_token
      × IdToken (any (λ s. s == "openid") scope) subject client_id echoed r.id_token

module _ {S : Type 0} ⦃time : TimeApi⦄ ⦃unix : UnixApi⦄ ⦃subtle : SubtleApi⦄ ⦃crypto : CryptoApi⦄
    (config : OAuthConfig S) (readings : Readings) where
  optional-ok :
      (openid : Bool) (subject client_id : String) (echoed : Option String) (s t : S)
      (o : Option String)
      → (if openid
            then (do
              i ← lift (mint_id_token config subject client_id echoed readings.id_now)
              pure (some i))
            else pure none)
          s
        ≡ (t, ok o)
      → (s ≡ t) × IdToken config readings openid subject client_id echoed o
  unfolding pure
  optional-ok true subject client_id echoed s t o e =
      lift_elim (λ i. pure (some i)) e
        λ i minted last. (
          ground arith,
          inr (
            refl,
            let (claims, says, encoded) =
                  mint_id_token-IsId config subject client_id i echoed readings.id_now minted in
                (i, claims, ground arith, says, encoded),
          ),
        )
  optional-ok false subject client_id echoed s t o e = (ground arith, inl (refl, ground arith))

  pub issue-ok :
      (client_id subject : String) (scope : List String) (family echoed : Option String) (s t : S)
      (r : TokenResponse)
      → issue config readings client_id subject scope family echoed s ≡ (t, ok r)
      → Grants config readings client_id subject scope family echoed s t r
  unfolding issue pure has_openid_scope
  issue-ok client_id subject scope family echoed s t r e = lift_elim _ e λ access minted e1.
      run_elim _ _ e1 λ e2. bind_elim _ e2 λ i w signed e3.
        let (same, id_token) =
          optional-ok (any (λ s. s == "openid") scope) subject client_id echoed
            (issue_refresh_token config client_id subject scope family readings s).0 w i signed in
        let (id, claims, drawn, says, encoded) =
          mint_access_token-IsAccess config subject (join " " scope) client_id access
            readings.access_now readings.jti minted in
        let token : access ≡ r.access_token = ground arith in
        let given : i ≡ r.id_token = ground arith in
        let kept : issue_refresh_token config client_id subject scope family readings s
            ≡ (t, r.refresh_token) =
          ground arith in
        (
          (id, claims, drawn, says, encoded ∙ ap ok token),
          ground arith,
          kept,
          issue_refresh_token-RefreshIssued config readings client_id subject scope family
              r.refresh_token s t kept,
          subst (IdToken config readings (any (λ s. s == "openid") scope) subject client_id echoed)
              given id_token,
        )

  -- A code that was issued for a challenge is presented with a verifier that is the challenge, or
  -- whose hash is it, by the method.
  abbrev pub Proved : Option String → Option PkceMethod → Option String → Type 0
  Proved none method verifier = Unit
  Proved (some challenge) none verifier = Unit
  Proved (some challenge) (some method) none = ⊥
  Proved (some challenge) (some Codes.plain) (some verifier) =
      as_bytes verifier ≡ as_bytes challenge
  Proved (some challenge) (some Codes.s256) (some verifier) =
      crypto.sha256_base64url (as_bytes verifier) ≡ as_bytes challenge

  -- What a code exchange has checked: the presented client is registered, and has presented its
  -- secret if it has one, and the code store gave out the code, which was issued to this client,
  -- for the redirect URI of the request if it was issued for one, and for a challenge that the
  -- request's verifier answers if it was issued for one.
  abbrev pub CodeChecked : TokenRequest → S → S → String → AuthCode → Type 0
  CodeChecked req s u client_id c =
      (req.client_id ≡ some client_id)
      × ((client : Clients.OAuth2Client) × (config.client_store.get s client_id ≡ ok (some client))
          × Secret client.client_secret_hash req.client_secret)
      × ((code : String) × (req.code ≡ some code)
          × (config.code_store.consume s readings.consume_now code ≡ (u, ok (some c))))
      × (c.client_id ≡ client_id)
      × ((c.redirect_uri ≡ none) ⊎ (req.redirect_uri ≡ c.redirect_uri))
      × Proved c.pkce_challenge c.pkce_method req.code_verifier

  check_pkce-Proved :
      (o : Option String) (m : Option PkceMethod) (v : Option String) (u : Unit {0})
      → check_pkce o m v ≡ ok u
      → Proved o m v
  unfolding verify_pkce
  check_pkce-Proved none m v u e = tt
  check_pkce-Proved (some c) none v u e = tt
  check_pkce-Proved (some c) (some m) none u e = ground arith
  check_pkce-Proved (some c) (some Codes.plain) (some v) u e =
      ground (arith, constant_time_eq_iff (as_bytes v) (as_bytes c))
  check_pkce-Proved (some c) (some Codes.s256) (some v) u e =
      ground (arith, constant_time_eq_iff (crypto.sha256_base64url (as_bytes v)) (as_bytes c))

  -- A code exchange that answers with tokens has checked the client and the code, and its tokens are
  -- for the code's subject, scope and nonce, and for the client: the claims of the access token and
  -- of the id token, which is there if `openid` is granted, and the stored refresh token say so.
  pub exchange_authorization_code_sound :
      (req : TokenRequest) (s t : S) (r : TokenResponse)
      → exchange_authorization_code config readings req s ≡ (t, ok r)
      → (client_id : String) × (c : AuthCode) × (u : S) × CodeChecked req s u client_id c
        × Grants config readings client_id c.subject c.scope none c.nonce u t r
  unfolding exchange_authorization_code
  exchange_authorization_code_sound req s t r e = required_elim _ _ e λ code has_code e1.
      required_elim _ _ e1 λ client_id has_client e2. read_elim _ _ e2 λ client known e3.
        bind_elim _ e3 λ c u consumed e4. ensure_elim _ _ e4 λ same_client e5.
          ensure_elim _ _ e5 λ same_uri e6. lift_elim _ e6 λ proved_at proved e7. (
            client_id,
            c,
            u,
            let (registered, secret) =
                  authenticate_client-ok config client_id req.client_secret s client known in
                (
                  has_client,
                  (client, registered, secret),
                  (code, has_code, found_code-ok _ u c consumed),
                  eq_of_== c.client_id client_id same_client,
                  redirect_matches-cases c.redirect_uri req.redirect_uri same_uri,
                  check_pkce-Proved c.pkce_challenge c.pkce_method req.code_verifier proved_at
                      proved,
                ),
            issue-ok client_id c.subject c.scope none c.nonce u t r e7,
          )
