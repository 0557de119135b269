-- ===== src/Web/OAuth/Authorize/Issue.antt =====
-- What the code that the authorization endpoint issues is bound to.
use rust_libraries.Prelude.{
  ℕ, String, true, any, all, contains, ◌==◌, sym, subst, Option, none, some, List, [], ◌∷◌, Result,
  ok, err, ◌≡◌, refl, arith, ap, ◌∙◌, string_eq, ==_refl, Bool-cases, Option-cases, inl, inr,
}
use rust_libraries.Prelude.Text.{as_bytes, split_whitespace}
use rust_libraries.Time.{Timestamp, TimeApi, checked_add}
use rust_libraries.Security.Error.{SecurityError}
use rust_libraries.Security.Client.{
  OAuth2Client, grant_eq, allows_redirect_uri, allows_grant, allows_scopes,
}
use rust_libraries.Security.Client as Clients
use rust_libraries.Security.AuthCode as Codes
use rust_libraries.Security.AuthCode.{
  AuthCode, AuthCodeBuilder, new_builder, with_redirect_uri, with_scope, with_nonce, with_pkce,
  build,
}
use rust_libraries.Web.OAuth.Messages.{
  HttpResponse, AuthorizationRequest, CodeChallengeMethod, ResponseType, found,
}
use rust_libraries.Web.OAuth.Url.{redirect_url, with_state}
use rust_libraries.Web.OAuth.Config.{OAuthConfig}
use rust_libraries.Web.OAuth.Flow.{pure, bind_elim, ensure_elim, lift_elim, read_elim}
use rust_libraries.Web.OAuth.Authorize.{
  known_client, resolve_redirect_uri, only_uri, is_code, requested_scopes, code_builder, subject_of,
  challenged, nonced, or_answer, stored_or, authorize,
}

pub known_client-ok :
    (r : Result SecurityError (Option OAuth2Client)) (client : OAuth2Client)
    → known_client r ≡ ok client
    → r ≡ ok (some client)
known_client-ok (ok (some c)) client e = ground arith
known_client-ok (ok none) client e = ground arith
known_client-ok (err x) client e = ground arith

only_uri-allowed :
    (client : OAuth2Client) (uris : List String) (uri : String)
    → client.redirect_uris ≡ uris
    → only_uri uris ≡ ok uri
    → allows_redirect_uri client uri ≡ true
unfolding allows_redirect_uri
only_uri-allowed client [] uri g e = ground arith
only_uri-allowed client (u ∷ []) uri g e = rw g (ground (arith, ==_refl u))
only_uri-allowed client (u ∷ v ∷ more) uri g e = ground arith

pub resolve-allowed :
    (client : OAuth2Client) (requested : Option String) (uri : String)
    → resolve_redirect_uri client requested ≡ ok uri
    → allows_redirect_uri client uri ≡ true
unfolding resolve_redirect_uri
resolve-allowed client none uri e = only_uri-allowed client client.redirect_uris uri refl e
resolve-allowed client (some u) uri e = elim (Bool-cases (allows_redirect_uri client u)) [
  | inl h ↦ ground arith
  | inr h ↦ ground arith
]

pub or_answer-ok :
    {A : Type 0} (x : HttpResponse) (r : Result SecurityError A) (a : A)
    → or_answer x r ≡ ok a
    → r ≡ ok a
or_answer-ok x (ok b) a e = ground arith
or_answer-ok x (err z) a e = ground arith

stored_or-ok :
    {S : Type 0} (x : HttpResponse) (r : S × Result SecurityError (Unit {0})) (t : S)
    → stored_or x r ≡ (t, ok tt)
    → r ≡ (t, ok tt)
stored_or-ok x (u, ok y) t e = ground arith
stored_or-ok x (u, err z) t e = ground arith

-- The scopes that a request asks for, and the subject of its user.
abbrev pub AsksFor : Option String → List String → Type 0
AsksFor none scope = scope ≡ []
AsksFor (some s) scope = scope ≡ split_whitespace s

abbrev pub IsSubject : Option String → String → Type 0
IsSubject none subject = subject ≡ ""
IsSubject (some sub) subject = subject ≡ sub

-- The challenge of a code: the request's, with its method, if it has both.
abbrev pub Challenged :
    Option String → Option CodeChallengeMethod → Option String → Option Codes.PkceMethod → Type 0
Challenged none method c m = (c ≡ none) × (m ≡ none)
Challenged (some challenge) none c m = (c ≡ none) × (m ≡ none)
Challenged (some challenge) (some CodeChallengeMethod.plain) c m =
    (c ≡ some challenge) × (m ≡ some Codes.plain)
Challenged (some challenge) (some CodeChallengeMethod.s256) c m =
    (c ≡ some challenge) × (m ≡ some Codes.s256)

scopes_asked :
    (o : Option String) (scope : List String) → AsksFor o scope → requested_scopes o ≡ scope
scopes_asked none scope e = sym e
scopes_asked (some s) scope e = sym e

-- The state goes back to the client behind the code.
abbrev pub returned : String → Option String → List (List ℕ × List ℕ)
returned code none = (as_bytes "code", as_bytes code) ∷ []
returned code (some state) =
    (as_bytes "code", as_bytes code) ∷ (as_bytes "state", as_bytes state) ∷ []

requested_scopes-AsksFor : (o : Option String) → AsksFor o (requested_scopes o)
requested_scopes-AsksFor none = refl
requested_scopes-AsksFor (some s) = refl

subject_of-IsSubject : (o : Option String) → IsSubject o (subject_of o)
subject_of-IsSubject none = refl
subject_of-IsSubject (some sub) = refl

with_state-returned :
    (code : String) (o : Option String)
    → ((as_bytes "code", as_bytes code) ∷ with_state o) ≡ returned code o
with_state-returned code none = refl
with_state-returned code (some s) = refl

is_code-response_type : (t : ResponseType) → is_code t ≡ true → t ≡ ResponseType.code
is_code-response_type t e = ground arith

-- The optional steps of the builder change only the nonce and the challenge.
challenged_nonced_lem :
    (o challenge : Option String) (method : Option CodeChallengeMethod) (b : AuthCodeBuilder)
    → b.nonce ≡ none
    → b.pkce_challenge ≡ none
    → b.pkce_method ≡ none
    → ((challenged challenge method (nonced o b)).client_id ≡ b.client_id)
      × ((challenged challenge method (nonced o b)).subject ≡ b.subject)
      × ((challenged challenge method (nonced o b)).redirect_uri ≡ b.redirect_uri)
      × ((challenged challenge method (nonced o b)).scope ≡ b.scope)
      × ((challenged challenge method (nonced o b)).nonce ≡ o)
      × Challenged challenge method
          (challenged challenge method (nonced o b)).pkce_challenge
          (challenged challenge method (nonced o b)).pkce_method
unfolding with_nonce with_pkce
challenged_nonced_lem none none method b n c m = (refl, refl, refl, refl, n, (c, m))
challenged_nonced_lem none (some x) none b n c m = (refl, refl, refl, refl, n, (c, m))
challenged_nonced_lem none (some x) (some CodeChallengeMethod.plain) b n c m =
    (refl, refl, refl, refl, n, (refl, refl))
challenged_nonced_lem none (some x) (some CodeChallengeMethod.s256) b n c m =
    (refl, refl, refl, refl, n, (refl, refl))
challenged_nonced_lem (some y) none method b n c m = (refl, refl, refl, refl, refl, (c, m))
challenged_nonced_lem (some y) (some x) none b n c m = (refl, refl, refl, refl, refl, (c, m))
challenged_nonced_lem (some y) (some x) (some CodeChallengeMethod.plain) b n c m =
    (refl, refl, refl, refl, refl, (refl, refl))
challenged_nonced_lem (some y) (some x) (some CodeChallengeMethod.s256) b n c m =
    (refl, refl, refl, refl, refl, (refl, refl))

module _ {S : Type 0} ⦃time : TimeApi⦄ (config : OAuthConfig S) (now : Timestamp)
    (random_token : Result SecurityError String) (req : AuthorizationRequest)
    (sub : Option String) where
  build-fields :
      (b : AuthCodeBuilder) (c : AuthCode) (drawn : Result SecurityError String)
      → build b drawn now config.code_ttl ≡ ok c
      → (drawn ≡ ok c.code)
        × (c.client_id ≡ b.client_id)
        × (c.subject ≡ b.subject)
        × (c.redirect_uri ≡ b.redirect_uri)
        × (c.scope ≡ b.scope)
        × (c.nonce ≡ b.nonce)
        × (c.pkce_challenge ≡ b.pkce_challenge)
        × (c.pkce_method ≡ b.pkce_method)
        × (c.issued_at ≡ now)
        × (checked_add now config.code_ttl ≡ some c.expires_at)
  unfolding build
  build-fields b c (ok code) e = elim (Option-cases (checked_add now config.code_ttl)) [
    | inl h ↦ ground arith
    | inr (x, h) ↦ ground arith
  ]
  build-fields b c (err x) e = ground arith

  -- A code is bound to the request: its client, redirect URI, scope, nonce and PKCE challenge with
  -- its method, and to the user's subject; it lives from now for the configured time.
  abbrev pub Bound : String → AuthCode → Type 0
  Bound uri c =
      (random_token ≡ ok c.code)
      × (c.client_id ≡ req.client_id)
      × IsSubject sub c.subject
      × (c.redirect_uri ≡ some uri)
      × AsksFor req.scope c.scope
      × (c.nonce ≡ req.nonce)
      × Challenged req.code_challenge req.code_challenge_method c.pkce_challenge c.pkce_method
      × (c.issued_at ≡ now)
      × (checked_add now config.code_ttl ≡ some c.expires_at)

  pub build-Bound :
      (uri : String) (c : AuthCode)
      → build (code_builder req sub uri) random_token now config.code_ttl ≡ ok c
      → Bound uri c
  unfolding with_scope with_redirect_uri new_builder with_nonce with_pkce
  build-Bound uri c e =
      let (f0, f1, f2, f3, f4, f5, f6, f7, f8, f9) =
        build-fields (code_builder req sub uri) c random_token e in
      let (g1, g2, g3, g4, g5, g6) =
        challenged_nonced_lem req.nonce req.code_challenge req.code_challenge_method
          (with_scope (with_redirect_uri (new_builder req.client_id (subject_of sub)) uri)
            (requested_scopes req.scope))
          refl refl refl in
      (
        f0,
        f1 ∙ g1,
        subst (IsSubject sub) (sym (f2 ∙ g2)) (subject_of-IsSubject sub),
        f3 ∙ g3,
        subst (AsksFor req.scope) (sym (f4 ∙ g4)) (requested_scopes-AsksFor req.scope),
        f5 ∙ g5,
        subst (λ x. Challenged req.code_challenge req.code_challenge_method x c.pkce_method)
            (sym f6)
            (subst (Challenged req.code_challenge req.code_challenge_method _) (sym f7) g6),
        f8,
        f9,
      )

  -- What a request that is answered with a code has passed.
  abbrev pub Passed : S → OAuth2Client → String → List String → Type 0
  Passed s client uri scope =
      (config.client_store.get s req.client_id ≡ ok (some client))
      × (any (λ u. u == uri) client.redirect_uris ≡ true)
      × (req.response_type ≡ ResponseType.code)
      × (contains Clients.authorization_code client.allowed_grant_types ≡ true)
      × (all (λ s. contains s client.allowed_scopes) scope ≡ true)

  pub authorize_sound :
      (s t : S) (response : HttpResponse)
      → authorize config now random_token req sub s ≡ (t, ok response)
      → (client : OAuth2Client) × (uri : String) × (c : AuthCode) × Passed s client uri c.scope
        × Bound uri c
        × (config.code_store.store s c ≡ (t, ok tt))
        × (found (redirect_url (as_bytes uri) (returned c.code req.state)) ≡ response)
  unfolding authorize pure
  authorize_sound s t response e = read_elim _ _ e λ client known e1.
      lift_elim _ e1 λ uri resolved e2. ensure_elim _ _ e2 λ typed e3.
        ensure_elim _ _ e3 λ allowed e4. ensure_elim _ _ e4 λ in_scope e5.
          lift_elim _ e5 λ c made e6. bind_elim _ e6 λ kept u stored e7.
            let same : u ≡ t = ground arith in
            let bound = build-Bound uri c (or_answer-ok _ _ c made) in
            let (_, _, _, _, asked, _, _, _, _) = bound in
            (
              client,
              uri,
              c,
              (
                known_client-ok (config.client_store.get s req.client_id) client known,
                unfold allows_redirect_uri in resolve-allowed client req.redirect_uri uri resolved,
                is_code-response_type req.response_type typed,
                unfold allows_grant in allowed,
                subst (λ x. all (λ s. contains s client.allowed_scopes) x ≡ true)
                    (scopes_asked req.scope c.scope asked) (unfold allows_scopes in in_scope),
              ),
              bound,
              stored_or-ok _ _ u stored ∙ ap (λ v. (v, ok tt)) same,
              ap (λ params. found (redirect_url (as_bytes uri) params))
                    (sym (with_state-returned c.code req.state))
                  ∙ ground arith,
            )
