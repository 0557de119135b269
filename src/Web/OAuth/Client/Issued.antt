-- ===== src/Web/OAuth/Client/Issued.antt =====
-- The refresh token that an exchange issues.
use rust_libraries.Prelude.{
  String, Option, none, some, List, Result, ok, err, ◌≡◌, inl, inr, refl, arith, ap, ◌∙◌,
  Option-cases,
}
use rust_libraries.Time.{Timestamp, Duration, TimeApi, checked_add}
use rust_libraries.Security.Error.{SecurityError}
use rust_libraries.Security.RefreshToken.{
  RefreshToken, new_builder, with_scope, with_family_id, build,
}
use rust_libraries.Web.OAuth.Config.{OAuthConfig, RefreshTokenStore}
use rust_libraries.Web.OAuth.Client.{Readings, with_family, stored, issue_in, issue_refresh_token}

module _ {S : Type 0} ⦃time : TimeApi⦄ (config : OAuthConfig S) (readings : Readings) where
  -- A new refresh token was drawn and stored for this client, subject and scope, in the family if
  -- one is given; or none was issued, and the store is as the operations left it.
  abbrev pub RefreshIssued :
      String → String → List String → Option String → S → S → Option String → Type 0
  RefreshIssued client_id subject scope family s t none = Unit
  RefreshIssued client_id subject scope family s t (some value) =
      (store : RefreshTokenStore S) × (rt : RefreshToken) × (config.refresh_token_store
        ≡ some store)
      × (store.store s rt ≡ (t, ok tt))
      × (readings.refresh_token ≡ ok value)
      × (rt.token ≡ value)
      × (rt.client_id ≡ client_id)
      × (rt.subject ≡ subject)
      × (rt.scope ≡ scope)
      × (elim family [ none ↦ readings.refresh_family | some f ↦ ok f ] ≡ ok rt.family_id)

  build-fields :
      (client_id subject : String) (scope : List String) (family : Option String)
      (random_token random_family : Result SecurityError String) (now : Timestamp) (ttl : Duration)
      (rt : RefreshToken)
      → build
          (with_family (with_scope (new_builder client_id subject) scope) family)
          random_token
          random_family
          now
          ttl
        ≡ ok rt
      → (random_token ≡ ok rt.token)
        × (rt.client_id ≡ client_id)
        × (rt.subject ≡ subject)
        × (rt.scope ≡ scope)
        × (elim family [ none ↦ random_family | some f ↦ ok f ] ≡ ok rt.family_id)
  unfolding build with_family_id with_scope new_builder
  build-fields client_id subject scope (some f) (ok token) random_family now ttl rt e =
      elim (Option-cases (checked_add now ttl)) [ inl h ↦ ground arith | inr (x, h) ↦ ground arith ]
  build-fields client_id subject scope none (ok token) (ok f) now ttl rt e =
      elim (Option-cases (checked_add now ttl)) [ inl h ↦ ground arith | inr (x, h) ↦ ground arith ]
  build-fields client_id subject scope none (ok token) (err x) now ttl rt e = ground arith
  build-fields client_id subject scope family (err x) random_family now ttl rt e = ground arith

  pub stored-some :
      (rt : RefreshToken) (r : S × Result SecurityError (Unit {0})) (t : S) (value : String)
      → stored rt r ≡ (t, some value)
      → (r ≡ (t, ok tt)) × (rt.token ≡ value)
  stored-some rt (u, ok x) t value e = (ground arith, ground arith)
  stored-some rt (u, err x) t value e = ground arith

  issue_in-RefreshIssued :
      (client_id subject value : String) (scope : List String) (family : Option String) (s t : S)
      (store : RefreshTokenStore S) (made : Result SecurityError RefreshToken)
      → config.refresh_token_store ≡ some store
      → build
          (with_family (with_scope (new_builder client_id subject) scope) family)
          readings.refresh_token
          readings.refresh_family
          readings.refresh_now
          config.refresh_token_ttl
        ≡ made
      → issue_in store made s ≡ (t, some value)
      → RefreshIssued client_id subject scope family s t (some value)
  issue_in-RefreshIssued client_id subject value scope family s t store (ok rt) g h e =
      let (kept, same) = stored-some rt (store.store s rt) t value e in
      let (drawn, c, u, sc, f) =
        build-fields client_id subject scope family readings.refresh_token readings.refresh_family
          readings.refresh_now config.refresh_token_ttl rt h in
      (store, rt, g, kept, drawn ∙ ap ok same, same, c, u, sc, f)
  issue_in-RefreshIssued client_id subject value scope family s t store (err x) g h e = ground arith

  pub issue_refresh_token-RefreshIssued :
      (client_id subject : String) (scope : List String) (family o : Option String) (s t : S)
      → issue_refresh_token config client_id subject scope family readings s ≡ (t, o)
      → RefreshIssued client_id subject scope family s t o
  unfolding issue_refresh_token
  issue_refresh_token-RefreshIssued client_id subject scope family none s t e = tt
  issue_refresh_token-RefreshIssued client_id subject scope family (some value) s t e =
      elim (Option-cases config.refresh_token_store) [
        | inl g ↦ ground arith
        | inr (store, g) ↦
            issue_in-RefreshIssued client_id subject value scope family s t store _ g refl
              (ground arith)
      ]
