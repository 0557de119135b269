-- ===== src/Security/RefreshToken/Replay.antt =====
-- The replay of a refresh token is detected, whatever other calls came since its exchange.
use rust_libraries.Prelude.{
  ◌<◌, String, not, Option, none, some, List, [], ◌∷◌, ◌≡◌, ◌≢◌, refl, sym, ◌∙◌, subst, inl, inr,
  All, ltb, ◌==◌, string_eq, contains, Option-cases, Bool-cases, ==_refl, lt→ltb, ==_of_ne,
}
use rust_libraries.Prelude.Map.{
  Map, get, get-insert, get-insert_self, get-remove, get-retain, insert-IsMap, remove-IsMap,
  retain-IsMap, get-retain-none,
}
use rust_libraries.Time.{Timestamp}
use rust_libraries.Security.RefreshToken.{
  RefreshToken, valid, StoreState, store, revoke_family, consume, consume_active, consume_replayed,
  evict_expired_consumed, outside,
}
use rust_libraries.Security.RefreshToken.Rotation.{IsValid, taken, Detected, detect, consume-valid}
use rust_libraries.Security.RefreshToken.Families.{
  Call, stores, consumes, revokes, perform, perform_all,
}

-- A call before an instant that neither stores nor presents this token.
abbrev pub LeavesAlone : String → Timestamp → Timestamp × Call → Type 0
LeavesAlone token expiry (now, stores rt) = rt.token ≢ token
LeavesAlone token expiry (now, consumes k) = (k ≢ token) × (now < expiry)
LeavesAlone token expiry (now, revokes family) = Unit

-- The store remembers that this token was exchanged.
record Remembers (s : StoreState) (token family : String) (expiry : Timestamp) : Type 0 where
  valid : IsValid s
  inactive : get token s.active ≡ none
  entry : get token s.consumed ≡ some (family, expiry)

module _ (token family : String) (expiry : Timestamp) where
  outside-inactive :
      (f : String) (m : Map String RefreshToken)
      → get token m ≡ none
      → get token (outside f m) ≡ none
  outside-inactive f m g = get-retain-none (λ _ rt. not (rt.family_id == f)) token m g

  store-Remembers :
      (s : StoreState) (rt : RefreshToken)
      → rt.token ≢ token
      → Remembers s token family expiry
      → Remembers (store s rt) token family expiry
  unfolding store
  store-Remembers s rt n r = record {
    valid = record {
      active = insert-IsMap rt.token rt s.active r.valid.active;
      consumed = r.valid.consumed;
    };
    inactive = get-insert rt.token token rt s.active ∙ rw (==_of_ne rt.token token n) r.inactive;
    entry = r.entry;
  }

  revoke_family-Remembers :
      (s : StoreState) (f : String)
      → Remembers s token family expiry
      → Remembers (revoke_family s f) token family expiry
  unfolding revoke_family
  revoke_family-Remembers s f r = record {
    valid = record {
      active = retain-IsMap (λ _ rt. not (rt.family_id == f)) s.active r.valid.active;
      consumed = r.valid.consumed;
    };
    inactive = outside-inactive f s.active r.inactive;
    entry = r.entry;
  }

  consume_active-Remembers :
      (s : StoreState) (now : Timestamp) (k : String) (rt : RefreshToken)
      → k ≢ token
      → Remembers s token family expiry
      → Remembers (consume_active s now k rt).0 token family expiry
  unfolding consume_active
  consume_active-Remembers s now k rt n r =
      let gone = get-remove k token s.active ∙ rw (==_of_ne k token n) r.inactive in
      elim (Bool-cases (contains rt.family_id s.revoked_families)) [
        | inl b ↦
            rw (b, consume_active)
              (record {
                valid = record {
                  active = remove-IsMap k s.active r.valid.active;
                  consumed = r.valid.consumed;
                };
                inactive = gone;
                entry = r.entry;
              })
        | inr b ↦
            rw (b, consume_active)
              (record {
                valid = record {
                  active = remove-IsMap k s.active r.valid.active;
                  consumed =
                      insert-IsMap k (rt.family_id, rt.expires_at) s.consumed r.valid.consumed;
                };
                inactive = gone;
                entry =
                    get-insert k token (rt.family_id, rt.expires_at) s.consumed
                    ∙ rw (==_of_ne k token n) r.entry;
              })
      ]

  consume_replayed-Remembers :
      (s : StoreState) (k : String) (o : Option (String × Timestamp))
      → k ≢ token
      → Remembers s token family expiry
      → Remembers (consume_replayed s k o).0 token family expiry
  unfolding consume_replayed
  consume_replayed-Remembers s k none n r = r
  consume_replayed-Remembers s k (some (f, x)) n r = record {
    valid = record {
      active = retain-IsMap (λ _ rt. not (rt.family_id == f)) s.active r.valid.active;
      consumed = remove-IsMap k s.consumed r.valid.consumed;
    };
    inactive = outside-inactive f s.active r.inactive;
    entry = get-remove k token s.consumed ∙ rw (==_of_ne k token n) r.entry;
  }

  evict-Remembers :
      (s : StoreState) (now : Timestamp)
      → now < expiry
      → Remembers s token family expiry
      → Remembers (evict_expired_consumed s now) token family expiry
  unfolding evict_expired_consumed
  evict-Remembers s now early r = record {
    valid = record {
      active = r.valid.active;
      consumed = retain-IsMap (λ _ entry. ltb now entry.1) s.consumed r.valid.consumed;
    };
    inactive = r.inactive;
    entry =
        get-retain (λ _ entry. ltb now entry.1) token s.consumed r.valid.consumed
        ∙ rw r.entry (rw (lt→ltb now expiry early) refl);
  }

  consume-Remembers :
      (s : StoreState) (now : Timestamp) (k : String)
      → k ≢ token
      → now < expiry
      → Remembers s token family expiry
      → Remembers (consume s now k).0 token family expiry
  unfolding consume
  consume-Remembers s now k n early r = elim (Option-cases (get k s.active)) [
    | inl g ↦
        rw (g, consume)
          (consume_replayed-Remembers (evict_expired_consumed s now) k
            (get k (evict_expired_consumed s now).consumed) n (evict-Remembers s now early r))
    | inr (rt, g) ↦ rw (g, consume) (consume_active-Remembers s now k rt n r)
  ]

  perform-Remembers :
      (s : StoreState) (c : Timestamp × Call)
      → LeavesAlone token expiry c
      → Remembers s token family expiry
      → Remembers (perform s c) token family expiry
  unfolding perform
  perform-Remembers s (now, stores rt) n r = store-Remembers s rt n r
  perform-Remembers s (now, consumes k) (n, early) r = consume-Remembers s now k n early r
  perform-Remembers s (now, revokes f) n r = revoke_family-Remembers s f r

  perform_all-Remembers :
      (s : StoreState) (calls : List (Timestamp × Call))
      → All (LeavesAlone token expiry) calls
      → Remembers s token family expiry
      → Remembers (perform_all s calls) token family expiry
  unfolding perform_all
  perform_all-Remembers s [] h r = r
  perform_all-Remembers s (c ∷ rest) h r =
      perform_all-Remembers (perform s c) rest h.1 (perform-Remembers s c h.0 r)

taken-Remembers :
    (s : StoreState) (token : String) (rt : RefreshToken)
    → IsValid s
    → Remembers (taken s token rt) token rt.family_id rt.expires_at
taken-Remembers s token rt v = record {
  valid = record {
    active = remove-IsMap token s.active v.active;
    consumed = insert-IsMap token (rt.family_id, rt.expires_at) s.consumed v.consumed;
  };
  inactive = get-remove token token s.active ∙ rw (==_refl token) refl;
  entry = get-insert_self token (rt.family_id, rt.expires_at) s.consumed;
}

-- In a store that holds no key twice, the first time that a token is presented again after its
-- exchange, before its expiry, it is answered as compromised: its family is revoked, no token of
-- the family stays active, and every token of another family stays as it was. Any calls may come
-- in between that neither store nor present this token, and that present others before the token's
-- expiry.
pub replay_revokes_family :
    (s t : StoreState) (now later : Timestamp) (token : String) (rt : RefreshToken)
    (calls : List (Timestamp × Call))
    → IsValid s
    → consume s now token ≡ (t, valid rt)
    → All (LeavesAlone token rt.expires_at) calls
    → later < rt.expires_at
    → Detected (perform_all t calls) later token rt
replay_revokes_family s t now later token rt calls v e alone lt =
    let (_, _, _, same) = consume-valid s t now token rt e in
    let r = perform_all-Remembers token rt.family_id rt.expires_at t calls alone (
      subst (λ u. Remembers u token rt.family_id rt.expires_at) (sym same)
        (taken-Remembers s token rt v)) in
    detect (perform_all t calls) later token rt r.valid.active r.valid.consumed r.inactive r.entry
      lt
