-- ===== src/Web/OAuth/Authorize/Redirects.antt =====
-- Where the authorization endpoint redirects to.
use rust_libraries.Prelude.{
  ℕ, String, true, Option, none, some, List, [], ◌∷◌, Result, ok, err, ◌≡◌, refl, arith, ap, ◌∙◌,
  string_eq, Bool-cases, inl, inr,
}
use rust_libraries.Prelude.Text.{as_bytes}
use rust_libraries.Time.{Timestamp, TimeApi}
use rust_libraries.Security.Error.{SecurityError}
use rust_libraries.Security.Client.{OAuth2Client, allows_redirect_uri}
use rust_libraries.Web.OAuth.Messages.{HttpResponse, AuthorizationRequest, found}
use rust_libraries.Web.OAuth.Url.{redirect_url, error_redirect}
use rust_libraries.Web.OAuth.Config.{OAuthConfig}
use rust_libraries.Web.OAuth.Flow.{pure, bind_stop, ensure_stop, lift_stop, read_stop}
use rust_libraries.Web.OAuth.Authorize.{
  known_client, resolve_redirect_uri, only_uri, or_answer, stored_or, authorize, answer,
}
use rust_libraries.Web.OAuth.Authorize.Issue.{
  known_client-ok, resolve-allowed, returned, authorize_sound,
}

only_uri-stop : (uris : List String) (location : List ℕ) → only_uri uris ≡ err (found location) → ⊥
only_uri-stop [] location e = ground arith
only_uri-stop (u ∷ []) location e = ground arith
only_uri-stop (u ∷ v ∷ more) location e = ground arith

resolve-stop :
    (client : OAuth2Client) (requested : Option String) (location : List ℕ)
    → resolve_redirect_uri client requested ≡ err (found location)
    → ⊥
unfolding resolve_redirect_uri
resolve-stop client none location e = only_uri-stop client.redirect_uris location e
resolve-stop client (some u) location e = elim (Bool-cases (allows_redirect_uri client u)) [
  | inl h ↦ ground arith
  | inr h ↦ ground arith
]

known_client-stop :
    (r : Result SecurityError (Option OAuth2Client)) (location : List ℕ)
    → known_client r ≡ err (found location)
    → ⊥
known_client-stop (ok (some c)) location e = ground arith
known_client-stop (ok none) location e = ground arith
known_client-stop (err x) location e = ground arith

or_answer-stop :
    {A : Type 0} (x y : HttpResponse) (r : Result SecurityError A) → or_answer x r ≡ err y → x ≡ y
or_answer-stop x y (ok a) e = ground arith
or_answer-stop x y (err z) e = ground arith

stored_or-stop :
    {S : Type 0} (x y : HttpResponse) (r : S × Result SecurityError (Unit {0})) (t : S)
    → stored_or x r ≡ (t, err y)
    → x ≡ y
stored_or-stop x y (u, r) t e = or_answer-stop x y r (ap (λ p. p.1) e)

module _ {S : Type 0} ⦃time : TimeApi⦄ (config : OAuthConfig S) (now : Timestamp)
    (random_token : Result SecurityError String) (req : AuthorizationRequest)
    (sub : Option String) where
  -- A redirect that keeps to the URIs which the request's client has registered.
  abbrev pub Registered : S → List ℕ → Type 0
  Registered s location =
      (client : OAuth2Client) × (config.client_store.get s req.client_id ≡ ok (some client))
      × ((uri : String) × (allows_redirect_uri client uri ≡ true)
          × ((params : List (List ℕ × List ℕ)) × (redirect_url (as_bytes uri) params ≡ location)))

  redirect_url-Registered :
      (s : S) (location : List ℕ) (client : OAuth2Client) (uri : String)
      (params : List (List ℕ × List ℕ))
      → known_client (config.client_store.get s req.client_id) ≡ ok client
      → resolve_redirect_uri client req.redirect_uri ≡ ok uri
      → found (redirect_url (as_bytes uri) params) ≡ found location
      → Registered s location
  redirect_url-Registered s location client uri params known resolved e = (
    client,
    known_client-ok (config.client_store.get s req.client_id) client known,
    (uri, resolve-allowed client req.redirect_uri uri resolved, (params, ground arith)),
  )

  stopped-Registered :
      (s t : S) (location : List ℕ)
      → authorize config now random_token req sub s ≡ (t, err (found location))
      → Registered s location
  unfolding authorize error_redirect pure
  stopped-Registered s t location e =
      read_stop _ _ e
        (λ unknown.
          absurd (known_client-stop (config.client_store.get s req.client_id) location unknown))
        λ client known e1.
          lift_stop _ e1 (λ no_uri. absurd (resolve-stop client req.redirect_uri location no_uri))
            λ uri resolved e2.
              let there : (params : List (List ℕ × List ℕ))
                  → found (redirect_url (as_bytes uri) params) ≡ found location
                  → Registered s location =
                λ params x. redirect_url-Registered s location client uri params known resolved x in
              ensure_stop _ e2 (λ x. there _ x)
                λ typed e3.
                  ensure_stop _ e3 (λ x. there _ x)
                    λ allowed e4.
                      ensure_stop _ e4 (λ x. there _ x)
                        λ in_scope e5.
                          lift_stop _ e5 (λ x. there _ (or_answer-stop _ _ _ x))
                            λ code made e6.
                              bind_stop _ _ e6 (λ x. there _ (stored_or-stop _ _ _ _ x))
                                λ kept u stored e7. absurd (ground arith)

  answered :
      (r : S × Result HttpResponse HttpResponse) (s t : S) (location : List ℕ)
      → authorize config now random_token req sub s ≡ r
      → answer r ≡ (t, found location)
      → Registered s location
  unfolding allows_redirect_uri
  answered (u, ok response) s t location e f =
      let (client, uri, c, (known, allowed, _, _, _), _, _, same) =
        authorize_sound config now random_token req sub s u response e in
      (client, known, (uri, allowed, (returned c.code req.state, ground arith)))
  answered (u, err x) s t location e f =
      stopped-Registered s u location (e ∙ ap (λ y. (u, err y)) (ground arith))

  -- Whenever the endpoint redirects, with a code or with an error, it redirects to a URI that the
  -- request's client has registered, followed by encoded parameters.
  pub redirects-Registered :
      (s t : S) (location : List ℕ)
      → answer (authorize config now random_token req sub s) ≡ (t, found location)
      → Registered s location
  redirects-Registered s t location e =
      answered (authorize config now random_token req sub s) s t location refl e
