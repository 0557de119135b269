-- ===== src/Web/OAuth/Manage/Revoked.antt =====
-- What the revocation endpoint revokes, over the in-memory stores.
use rust_libraries.Prelude.{
  ◌<◌, String, Bool, true, false, Option, none, some, List, Result, ok, err, ◌≡◌, refl, ◌∙◌, ap,
  subst, arith, inl, inr, All, string_eq, contains, Bool-cases, Option-cases, if◌then◌else◌,
  contains-set_insert_self,
}
use rust_libraries.Prelude.Map.{get}
use rust_libraries.Time.{Timestamp}
use rust_libraries.Prelude.Int.{ℤ}
use rust_libraries.Security.Error.{SecurityError}
use rust_libraries.Security.Claims.{Claims, UnixApi, from_unix_seconds}
use rust_libraries.Security.RefreshToken as Refresh
use rust_libraries.Security.RefreshToken.{
  consume, consume_active, consume_replayed, evict_expired_consumed, is_expired,
}
use rust_libraries.Security.Revocation as Denied
use rust_libraries.Security.Revocation.Denylist
use rust_libraries.Web.OAuth.Messages.{
  TokenTypeHint, HttpResponse, RevocationRequest, inactive, finished,
}
use rust_libraries.Web.OAuth.Flow.{required_elim, read_elim}
use rust_libraries.Web.OAuth.Client.{CryptoApi}
use rust_libraries.Web.OAuth.Memory.{
  Stores, Settings, config_of, refresh_token_store, token_denylist,
}
use rust_libraries.Web.OAuth.Manage.{
  Readings, may_be_refresh, may_be_access, revoke_consumed, revoke_refresh, denied, revoke_access,
  revoke_token, introspect_token, revoke,
}

module _ ⦃unix : UnixApi⦄ where
  replayed_untouched :
      (s : Stores) (u : Refresh.StoreState) (token : String) (o : Option (String × Timestamp))
      → revoke_consumed refresh_token_store (
        record s { refresh_tokens = (consume_replayed u token o).0 },
        ok (consume_replayed u token o).1,
      )
        ≡ (record s { refresh_tokens = (consume_replayed u token o).0 }, false)
  unfolding consume_replayed
  replayed_untouched s u token none = refl
  replayed_untouched s u token (some (family, x)) = refl

  -- A token that is no active refresh token goes on to the access token's part, and the denylist is
  -- as before.
  inactive_untouched :
      (s : Stores) (may : Bool) (now : Timestamp) (token : String)
      → get token s.refresh_tokens.active ≡ none
      → ((revoke_refresh (some refresh_token_store) may now token s).1 ≡ false)
        × ((revoke_refresh (some refresh_token_store) may now token s).0.denylist ≡ s.denylist)
  unfolding consume
  inactive_untouched s false now token g = (refl, refl)
  inactive_untouched s true now token g =
      let u = evict_expired_consumed s.refresh_tokens now in
      let e = replayed_untouched s u token (get token u.consumed) in
      rw (g, consume) (ap (λ r. r.1) e, ap (λ r. r.0.denylist) e)

  active_revoked :
      (s : Stores) (now : Timestamp) (token : String) (rt : Refresh.RefreshToken)
      → get token s.refresh_tokens.active ≡ some rt
      → contains rt.family_id
          (revoke_refresh
            (some refresh_token_store)
            true
            now
            token
            s).0.refresh_tokens.revoked_families
        ≡ true
  unfolding consume consume_active Refresh.revoke_family
  active_revoked s now token rt g =
      let mine = contains-set_insert_self rt.family_id s.refresh_tokens.revoked_families in
      elim (Bool-cases (contains rt.family_id s.refresh_tokens.revoked_families)) [
        | inl b ↦ rw (g, consume) (rw (b, consume_active) b)
        | inr b ↦ elim (Bool-cases (is_expired rt now)) [
          | inl x ↦ rw (g, consume) (rw (b, consume_active) (rw x mine))
          | inr x ↦ rw (g, consume) (rw (b, consume_active) (rw x mine))
        ]
      ]

  denied-refresh :
      (r : Result SecurityError Claims) (s : Stores)
      → (denied token_denylist r s).refresh_tokens ≡ s.refresh_tokens
  denied-refresh (err x) s = refl
  denied-refresh (ok claims) s = ground (arith, Option-cases claims.jti, Option-cases claims.exp)

  -- After the access token's part: the families that are revoked stay so.
  revoke_access-refresh :
      (o : Option (Timestamp → String → Result SecurityError Claims)) (now : Timestamp)
      (token : String) (s : Stores)
      → (revoke_access o (some token_denylist) now token s).refresh_tokens ≡ s.refresh_tokens
  revoke_access-refresh none now token s = refl
  revoke_access-refresh (some decode) now token s = denied-refresh (decode now token) s

  rest-refresh :
      (r : Stores × Bool) (may : Bool)
      (o : Option (Timestamp → String → Result SecurityError Claims)) (now : Timestamp)
      (token : String)
      → (if r.1
          then r.0
          else if may
          then revoke_access o (some token_denylist) now token r.0
          else r.0).refresh_tokens
        ≡ r.0.refresh_tokens
  rest-refresh (t, true) may o now token = refl
  rest-refresh (t, false) true o now token = revoke_access-refresh o now token t
  rest-refresh (t, false) false o now token = refl

  -- A revoked access token is in the denylist until its expiry.
  revoke_access-denylist :
      (decode : Timestamp → String → Result SecurityError Claims) (now : Timestamp)
      (token jti : String) (exp : ℤ) (claims : Claims) (s : Stores)
      → decode now token ≡ ok claims
      → claims.jti ≡ some jti
      → claims.exp ≡ some exp
      → (revoke_access (some decode) (some token_denylist) now token s).denylist
        ≡ Denied.revoke s.denylist jti (from_unix_seconds exp)
  revoke_access-denylist decode now token jti exp claims s d j e = rw d (rw j (rw e refl))

module _ ⦃unix : UnixApi⦄ (settings : Settings) (readings : Readings) where
  -- A presented refresh token that is active, whoever it was issued to: its family is revoked.
  abbrev pub FamilyRevoked : String → Stores → Stores → Type 0
  FamilyRevoked token s t =
      (rt : Refresh.RefreshToken)
      → get token s.refresh_tokens.active ≡ some rt
      → contains rt.family_id t.refresh_tokens.revoked_families ≡ true

  -- A presented access token that is no active refresh token: it is in the denylist until it
  -- expires, and what was in the denylist is else as before.
  abbrev pub AccessRevoked : String → Stores → Stores → Type 0
  AccessRevoked token s t =
      (claims : Claims) (jti : String) (exp : ℤ)
      → get token s.refresh_tokens.active ≡ none
      → settings.decode readings.decode_now token ≡ ok claims
      → claims.jti ≡ some jti
      → claims.exp ≡ some exp
      → t.denylist ≡ Denied.revoke s.denylist jti (from_unix_seconds exp)

  revoke_token-FamilyRevoked :
      (token : String) (hint : Option TokenTypeHint) (s : Stores)
      → may_be_refresh hint ≡ true
      → FamilyRevoked token s (revoke_token (config_of settings) readings token hint s)
  unfolding revoke_token
  revoke_token-FamilyRevoked token hint s may rt g =
      let first =
        revoke_refresh (some refresh_token_store) (may_be_refresh hint) readings.consume_now token
          s in
      ap (λ m. contains rt.family_id m.revoked_families)
        (rest-refresh first (may_be_access hint) (some settings.decode) readings.decode_now token)
      ∙ rw may (active_revoked s readings.consume_now token rt g)

  revoke_token-AccessRevoked :
      (token : String) (hint : Option TokenTypeHint) (s : Stores)
      → may_be_access hint ≡ true
      → AccessRevoked token s (revoke_token (config_of settings) readings token hint s)
  unfolding revoke_token
  revoke_token-AccessRevoked token hint s may claims jti exp g d j e =
      let (none_left, same) =
        inactive_untouched s (may_be_refresh hint) readings.consume_now token g in
      rw none_left (
        rw may (
          revoke_access-denylist settings.decode readings.decode_now token jti exp claims _ d j e
          ∙ ap (λ m. Denied.revoke m jti (from_unix_seconds exp)) same))

module _ ⦃unix : UnixApi⦄ ⦃crypto : CryptoApi⦄ (settings : Settings) (readings : Readings) where
  -- A revocation that is answered with 200 has taken effect: it revoked the family of an active
  -- refresh token, unless the hint says access token, and it put an access token into the denylist
  -- until the token expires, unless the hint says refresh token.
  pub revoke_lem :
      (req : RevocationRequest) (s t : Stores) (response : HttpResponse)
      → revoke (config_of settings) readings req s ≡ (t, ok response)
      → (response ≡ finished)
        × (may_be_refresh req.token_type_hint ≡ true
            → FamilyRevoked settings readings req.token s t)
        × (may_be_access req.token_type_hint ≡ true → AccessRevoked settings readings req.token s t)
  unfolding revoke
  revoke_lem req s t response e = required_elim _ _ e λ client_id has_client e1.
      read_elim _ _ e1 λ client known e2.
        let done : revoke_token (config_of settings) readings req.token req.token_type_hint s ≡ t =
          ap (λ r. r.0) e2 in
        (
          ground arith,
          λ may.
              subst (FamilyRevoked settings readings req.token s) done
                (revoke_token-FamilyRevoked settings readings req.token req.token_type_hint s may),
          λ may.
              subst (AccessRevoked settings readings req.token s) done
                (revoke_token-AccessRevoked settings readings req.token req.token_type_hint s may),
        )

  -- After an access token, which is no active refresh token, was revoked by a request whose hint
  -- does not name refresh tokens, it is introspected as inactive at every instant before it
  -- expires, whatever calls of the denylist come in between that do not shorten its entry, provided
  -- that the verifier reads the same claims, with an identifier and an expiry, from it.
  pub revoked_inactive :
      (req : RevocationRequest) (s t : Stores) (response : HttpResponse) (later : Readings)
      (claims : Claims) (jti : String) (exp : ℤ) (calls : List (Timestamp × Denylist.Call))
      → revoke (config_of settings) readings req s ≡ (t, ok response)
      → may_be_access req.token_type_hint ≡ true
      → get req.token s.refresh_tokens.active ≡ none
      → settings.decode readings.decode_now req.token ≡ ok claims
      → claims.jti ≡ some jti
      → claims.exp ≡ some exp
      → settings.decode later.decode_now req.token ≡ ok claims
      → All (Denylist.Upholds jti (from_unix_seconds exp)) calls
      → later.denylist_now < from_unix_seconds exp
      → (introspect_token
          (config_of settings)
          later
          req.token
          (record t { denylist = Denylist.perform_all t.denylist calls })).1
        ≡ inactive
  unfolding introspect_token
  revoked_inactive req s t response later claims jti exp calls e may g d j x d2 u lt =
      let (_, _, access) = revoke_lem req s t response e in
      let entry = access may claims jti exp g d j x in
      let still : (Denied.is_revoked (Denylist.perform_all t.denylist calls) later.denylist_now
            jti).1
          ≡ true =
        ap (λ m. (Denied.is_revoked (Denylist.perform_all m calls) later.denylist_now jti).1) entry
        ∙ Denylist.revoked_until_expiry s.denylist jti (from_unix_seconds exp) later.denylist_now
            calls u lt in
      rw d2 (rw j (rw still refl))
