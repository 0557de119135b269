-- ===== src/Web/OAuth/Token/Refresh.antt =====
-- What a granted refresh has checked, and the token that it rotates to.
use rust_libraries.Prelude.{
  String, true, Option, none, some, List, [], ◌∷◌, ok, ◌≡◌, arith, string_eq, eq_of_==, contains,
  All, all, Bool-cases, inl, inr, subst, ==_refl,
}
use rust_libraries.Prelude.Text.{split_whitespace}
use rust_libraries.Time.{TimeApi}
use rust_libraries.Security.Compare.{SubtleApi}
use rust_libraries.Security.Client as Clients
use rust_libraries.Security.Claims.{UnixApi}
use rust_libraries.Security.RefreshToken.{RefreshToken, valid}
use rust_libraries.Web.OAuth.Messages.{TokenRequest, TokenResponse}
use rust_libraries.Web.OAuth.Config.{OAuthConfig, RefreshTokenStore}
use rust_libraries.Web.OAuth.Flow.{bind_elim, required_elim, ensure_elim, lift_elim, read_elim}
use rust_libraries.Web.OAuth.Client.{CryptoApi, Readings, authenticate_client}
use rust_libraries.Web.OAuth.Token.{narrowed, exchange_refresh_token}
use rust_libraries.Web.OAuth.Client.Issued.{RefreshIssued}
use rust_libraries.Web.OAuth.Token.Grants.{Grants, issue-ok, found_token-ok}

all-All :
    (scope original : List String)
    → all (λ s. contains s original) scope ≡ true
    → All (λ s. contains s original ≡ true) scope
all-All [] original e = tt
all-All (s ∷ rest) original e = ground (arith, all-All rest original)

within :
    (xs ys : List String)
    → ((a : String) → contains a xs ≡ true → contains a ys ≡ true)
    → All (λ s. contains s ys ≡ true) xs
within [] ys h = tt
within (x ∷ xs) ys h = (h x (ground (arith, ==_refl x)), within xs ys λ a c. h a (ground arith))

narrowed-none :
    (requested : Option String) (original scope : List String)
    → narrowed requested original ≡ ok scope
    → requested ≡ none
    → scope ≡ original
narrowed-none none original scope e n = ground arith
narrowed-none (some r) original scope e n = ground arith

narrowed-ok :
    (requested : Option String) (original scope : List String)
    → narrowed requested original ≡ ok scope
    → All (λ s. contains s original ≡ true) scope
narrowed-ok none original scope e =
    subst (All (λ s. contains s original ≡ true)) (ground arith) (within original original λ a h. h)
narrowed-ok (some r) original scope e =
    elim (Bool-cases (all (λ s. contains s original) (split_whitespace r))) [
      | inl h ↦
          subst (All (λ s. contains s original ≡ true)) (ground arith)
            (all-All (split_whitespace r) original h)
      | inr h ↦ ground arith
    ]

module _ {S : Type 0} ⦃time : TimeApi⦄ ⦃unix : UnixApi⦄ ⦃subtle : SubtleApi⦄ ⦃crypto : CryptoApi⦄
    (config : OAuthConfig S) (readings : Readings) where
  -- What a refresh has checked: the presented client is registered, authenticated and allowed to
  -- refresh, the store gave out the token, which was issued to this client, and every scope that
  -- is granted is one of the token's.
  abbrev pub RefreshChecked :
      TokenRequest → S → S → String → RefreshTokenStore S → RefreshToken → List String → Type 0
  RefreshChecked req s u client_id store rt scope =
      (req.client_id ≡ some client_id)
      × ((client : Clients.OAuth2Client) × (authenticate_client config client_id req.client_secret s
            ≡ ok client)
          × (Clients.allows_grant client Clients.refresh_token ≡ true))
      × (config.refresh_token_store ≡ some store)
      × ((token : String) × (req.refresh_token ≡ some token)
          × (store.consume s readings.consume_now token ≡ (u, ok (valid rt))))
      × (rt.client_id ≡ client_id)
      × All (λ s. contains s rt.scope ≡ true) scope
      × (req.scope ≡ none → scope ≡ rt.scope)

  -- A refresh token was drawn and stored, in this family, for this client, subject and scope.
  abbrev pub Rotated : String → String → String → String → List String → S → S → Type 0
  Rotated client_id subject family value scope s t =
      (store : RefreshTokenStore S) × (rt : RefreshToken) × (config.refresh_token_store
        ≡ some store)
      × (store.store s rt ≡ (t, ok tt))
      × (readings.refresh_token ≡ ok value)
      × (rt.token ≡ value)
      × (rt.family_id ≡ family)
      × (rt.client_id ≡ client_id)
      × (rt.subject ≡ subject)
      × (rt.scope ≡ scope)

  RefreshIssued-Rotated :
      (client_id subject family value : String) (scope : List String) (s t : S)
      → RefreshIssued config readings client_id subject scope (some family) s t (some value)
      → Rotated client_id subject family value scope s t
  RefreshIssued-Rotated client_id subject family value scope s t
        (store, rt, has_store, kept, drawn, token, client, names, scoped, in_family) =
      (store, rt, has_store, kept, drawn, token, ground arith, client, names, scoped)

  -- A refresh that answers with tokens has checked the presented token, and its tokens are for the
  -- token's subject, with a scope within the token's, which is the token's own if the request names
  -- none; a refresh token that it hands out was stored under the same family, client, subject and
  -- scope.
  pub exchange_refresh_token_sound :
      (req : TokenRequest) (s t : S) (r : TokenResponse)
      → exchange_refresh_token config readings req s ≡ (t, ok r)
      → (client_id : String) × (store : RefreshTokenStore S) × (rt : RefreshToken) × (scope : List
          String)
        × (u : S) × RefreshChecked req s u client_id store rt scope
        × Grants config readings client_id rt.subject scope (some rt.family_id) none u t r
        × ((value : String)
            → r.refresh_token ≡ some value
            → Rotated client_id rt.subject rt.family_id value scope u t)
  unfolding exchange_refresh_token
  exchange_refresh_token_sound req s t r e = required_elim _ _ e λ token has_token e1.
      required_elim _ _ e1 λ store has_store e2. required_elim _ _ e2 λ client_id has_client e3.
        read_elim _ _ e3 λ client known e4. ensure_elim _ _ e4 λ allowed e5.
          bind_elim _ e5 λ rt u consumed e6. ensure_elim _ _ e6 λ same_client e7.
            lift_elim _ e7 λ scope narrow e8.
              let (access, shown, kept, rotated, id) =
                issue-ok config readings client_id rt.subject scope (some rt.family_id) none u t r
                  e8 in
              (
                client_id,
                store,
                rt,
                scope,
                u,
                (
                  has_client,
                  (client, known, allowed),
                  has_store,
                  (token, has_token, found_token-ok _ u rt consumed),
                  eq_of_== rt.client_id client_id same_client,
                  narrowed-ok req.scope rt.scope scope narrow,
                  λ unnamed. narrowed-none req.scope rt.scope scope narrow unnamed,
                ),
                (access, shown, kept, rotated, id),
                λ value given.
                    RefreshIssued-Rotated client_id rt.subject rt.family_id value scope u t (
                      subst
                        (RefreshIssued config readings client_id rt.subject scope
                          (some rt.family_id) u t)
                        given rotated),
              )
