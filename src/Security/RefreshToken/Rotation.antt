-- ===== src/Security/RefreshToken/Rotation.antt =====
-- A refresh token is exchanged once, and its replay is detected.
use rust_libraries.Prelude.{
  ◌<◌, String, true, false, not, Option, none, some, ◌≡◌, ◌≢◌, refl, ◌∙◌, ap, inl, inr, arith, ltb,
  ◌==◌, string_eq, contains, Option-cases, lt→ltb, contains-set_insert_self,
}
use rust_libraries.Prelude.Map.{Map, get, insert, remove, get-retain, IsMap}
use rust_libraries.Time.{Timestamp}
use rust_libraries.Security.RefreshToken.{
  RefreshToken, valid, compromised, StoreState, is_expired, consume, consume_replayed,
  evict_expired_consumed, outside,
}

-- No key stands twice in either map.
pub record IsValid (s : StoreState) : Type 0 where
  pub active : IsMap s.active
  pub consumed : IsMap s.consumed

-- The store after a successful exchange of a token.
abbrev pub taken : StoreState → String → RefreshToken → StoreState
taken s token rt = record s {
  active = remove token s.active;
  consumed = insert token (rt.family_id, rt.expires_at) s.consumed;
}

replayed_not_valid :
    (s t : StoreState) (token : String) (o : Option (String × Timestamp)) (rt : RefreshToken)
    → consume_replayed s token o ≡ (t, valid rt)
    → ⊥
unfolding consume_replayed
replayed_not_valid s t token none rt e = ground arith
replayed_not_valid s t token (some (f, x)) rt e = ground arith

pub consume-valid :
    (s t : StoreState) (now : Timestamp) (token : String) (rt : RefreshToken)
    → consume s now token ≡ (t, valid rt)
    → (get token s.active ≡ some rt)
      × (contains rt.family_id s.revoked_families ≡ false)
      × (now < rt.expires_at)
      × (t ≡ taken s token rt)
unfolding consume
consume-valid s t now token rt e = elim (Option-cases (get token s.active)) [
  | inl g ↦ absurd (
      replayed_not_valid (evict_expired_consumed s now) t token
        (get token (evict_expired_consumed s now).consumed) rt (ground arith))
  | inr (w, g) ↦ unfold is_expired in ground arith
]

-- The answer to a presented token, and what is left active.
abbrev pub Detected : StoreState → Timestamp → String → RefreshToken → Type 0
Detected t later token rt =
    ((consume t later token).1 ≡ compromised rt.family_id)
    × (contains rt.family_id (consume t later token).0.revoked_families ≡ true)
    × ((k : String) (w : RefreshToken)
        → get k (consume t later token).0.active ≡ some w
        → w.family_id ≢ rt.family_id)
    × ((k : String) (w : RefreshToken)
        → get k t.active ≡ some w
        → w.family_id ≢ rt.family_id
        → get k (consume t later token).0.active ≡ some w)

consume_found :
    (t : StoreState) (later : Timestamp) (token family : String) (expiry : Timestamp)
    → IsMap t.consumed
    → get token t.active ≡ none
    → get token t.consumed ≡ some (family, expiry)
    → later < expiry
    → consume t later token
      ≡ consume_replayed (evict_expired_consumed t later) token (some (family, expiry))
unfolding consume
consume_found t later token family expiry m g c lt =
    let found : get token (evict_expired_consumed t later).consumed ≡ some (family, expiry) =
      get-retain (λ _ entry. ltb later entry.1) token t.consumed m
      ∙ rw c (rw (lt→ltb later expiry lt) refl) in
    rw (g, consume) (ap (consume_replayed (evict_expired_consumed t later) token) found)

outside-family :
    (family k : String) (m : Map String RefreshToken) (w : RefreshToken)
    → IsMap m
    → get k (outside family m) ≡ some w
    → w.family_id ≢ family
outside-family family k m w v g = ground (
  arith,
  get-retain (λ _ rt. not (rt.family_id == family)) k m v,
  string_eq.beq_iff w.family_id family,
)

outside-other :
    (family k : String) (m : Map String RefreshToken) (w : RefreshToken)
    → IsMap m
    → get k m ≡ some w
    → w.family_id ≢ family
    → get k (outside family m) ≡ some w
outside-other family k m w v g n = ground (
  arith,
  get-retain (λ _ rt. not (rt.family_id == family)) k m v,
  string_eq.beq_iff w.family_id family,
)

pub detect :
    (t : StoreState) (later : Timestamp) (token : String) (rt : RefreshToken)
    → IsMap t.active
    → IsMap t.consumed
    → get token t.active ≡ none
    → get token t.consumed ≡ some (rt.family_id, rt.expires_at)
    → later < rt.expires_at
    → Detected t later token rt
unfolding consume_replayed evict_expired_consumed
detect t later token rt va vc g c lt =
    let e = consume_found t later token rt.family_id rt.expires_at vc g c lt in
    rw e (
      refl,
      contains-set_insert_self rt.family_id t.revoked_families,
      λ k w h. outside-family rt.family_id k t.active w va h,
      λ k w h n. outside-other rt.family_id k t.active w va h n,
    )
