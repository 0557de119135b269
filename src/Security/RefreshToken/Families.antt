-- ===== src/Security/RefreshToken/Families.antt =====
-- Refresh tokens over any history of calls: a token is exchanged once, and a revoked family is dead.
use rust_libraries.Prelude.{
  String, true, not, Option, none, some, List, [], ◌∷◌, ◌≡◌, ◌≢◌, refl, ◌∙◌, ap, inl, inr, arith,
  All, ◌==◌, string_eq, contains, Option-cases, Bool-cases, ==_refl, contains-set_insert,
}
use rust_libraries.Prelude.Map.{Map, get, remove, get-insert, get-remove, get-retain-none}
use rust_libraries.Time.{Timestamp}
use rust_libraries.Security.RefreshToken.{
  RefreshToken, valid, StoreState, store, revoke_family, consume, consume_active, consume_replayed,
  evict_expired_consumed, outside,
}
use rust_libraries.Security.RefreshToken.Rotation.{consume-valid}

pub data Call : Type 0 where
  stores : RefreshToken → Call
  consumes : String → Call
  revokes : String → Call

unfoldable pub perform : StoreState → Timestamp × Call → StoreState
perform s (now, stores rt) = store s rt
perform s (now, consumes token) = (consume s now token).0
perform s (now, revokes family) = revoke_family s family

unfoldable pub perform_all : StoreState → List (Timestamp × Call) → StoreState
perform_all s [] = s
perform_all s (c ∷ rest) = perform_all (perform s c) rest

-- A call that does not store this token again.
abbrev pub Spares : String → Call → Type 0
Spares token (stores rt) = rt.token ≢ token
Spares token (consumes _) = Unit
Spares token (revokes _) = Unit

outside-none :
    (family k : String) (m : Map String RefreshToken)
    → get k m ≡ none
    → get k (outside family m) ≡ none
outside-none family k m g = get-retain-none (λ _ rt. not (rt.family_id == family)) k m g

replayed_none :
    (s : StoreState) (token k : String) (o : Option (String × Timestamp))
    → get k s.active ≡ none
    → get k (consume_replayed s token o).0.active ≡ none
unfolding consume_replayed
replayed_none s token k none g = g
replayed_none s token k (some (f, x)) g = outside-none f k s.active g

consume-none :
    (s : StoreState) (now : Timestamp) (token k : String)
    → get k s.active ≡ none
    → get k (consume s now token).0.active ≡ none
unfolding consume consume_active
consume-none s now token k g = elim (Option-cases (get token s.active)) [
  | inl h ↦
      rw (h, consume)
        (replayed_none (evict_expired_consumed s now) token k
          (get token (evict_expired_consumed s now).consumed) (unfold evict_expired_consumed in g))
  | inr (rt, h) ↦
      let gone : get k (remove token s.active) ≡ none =
        ground (arith, get-remove token k s.active) in
      rw (h, consume)
        (elim (Bool-cases (contains rt.family_id s.revoked_families)) [
          | inl b ↦ rw (b, consume_active) gone
          | inr b ↦ rw (b, consume_active) gone
        ])
]

perform-none :
    (s : StoreState) (c : Timestamp × Call) (token : String)
    → get token s.active ≡ none
    → Spares token c.1
    → get token (perform s c).active ≡ none
unfolding perform store revoke_family
perform-none s (now, stores rt) token g n =
    ground (arith, get-insert rt.token token rt s.active, string_eq.beq_iff rt.token token)
perform-none s (now, consumes k) token g n = consume-none s now k token g
perform-none s (now, revokes family) token g n = outside-none family token s.active g

perform_all-none :
    (s : StoreState) (calls : List (Timestamp × Call)) (token : String)
    → get token s.active ≡ none
    → All (λ c. Spares token c.1) calls
    → get token (perform_all s calls).active ≡ none
unfolding perform_all
perform_all-none s [] token g h = g
perform_all-none s (c ∷ rest) token g h =
    perform_all-none (perform s c) rest token (perform-none s c token g h.0) h.1

-- A token that was exchanged is never exchanged again, whatever calls come in between, unless it is
-- stored anew.
pub exchanged_once :
    (s t u : StoreState) (now later : Timestamp) (token : String) (rt again : RefreshToken)
    (calls : List (Timestamp × Call))
    → consume s now token ≡ (t, valid rt)
    → All (λ c. Spares token c.1) calls
    → consume (perform_all t calls) later token ≢ (u, valid again)
exchanged_once s t u now later token rt again calls e h f =
    let (_, _, _, same) = consume-valid s t now token rt e in
    let start : get token t.active ≡ none =
      ap (λ v. get token v.active) same
      ∙ get-remove token token s.active
      ∙ rw (==_refl token) refl in
    let (g, _, _, _) = consume-valid (perform_all t calls) u later token again f in
    let still = perform_all-none t calls token start h in ground arith

replayed-revoked :
    (s : StoreState) (token family : String) (o : Option (String × Timestamp))
    → contains family s.revoked_families ≡ true
    → contains family (consume_replayed s token o).0.revoked_families ≡ true
unfolding consume_replayed
replayed-revoked s token family none h = h
replayed-revoked s token family (some (f, x)) h =
    ground (arith, contains-set_insert family f s.revoked_families)

pub consume-revoked :
    (s : StoreState) (now : Timestamp) (token family : String)
    → contains family s.revoked_families ≡ true
    → contains family (consume s now token).0.revoked_families ≡ true
unfolding consume consume_active consume_replayed evict_expired_consumed
consume-revoked s now token family h = elim (Option-cases (get token s.active)) [
  | inl g ↦
      rw (g, consume)
        (replayed-revoked (evict_expired_consumed s now) token family
          (get token (evict_expired_consumed s now).consumed) h)
  | inr (rt, g) ↦
      rw (g, consume)
        (elim (Bool-cases (contains rt.family_id s.revoked_families)) [
          | inl b ↦ rw (b, consume_active) h
          | inr b ↦ rw (b, consume_active) h
        ])
]

pub perform-revoked :
    (s : StoreState) (c : Timestamp × Call) (family : String)
    → contains family s.revoked_families ≡ true
    → contains family (perform s c).revoked_families ≡ true
unfolding perform store revoke_family
perform-revoked s (now, stores rt) family h = h
perform-revoked s (now, consumes k) family h = consume-revoked s now k family h
perform-revoked s (now, revokes f) family h =
    ground (arith, contains-set_insert family f s.revoked_families)

perform_all-revoked :
    (s : StoreState) (calls : List (Timestamp × Call)) (family : String)
    → contains family s.revoked_families ≡ true
    → contains family (perform_all s calls).revoked_families ≡ true
unfolding perform_all
perform_all-revoked s [] family h = h
perform_all-revoked s (c ∷ rest) family h =
    perform_all-revoked (perform s c) rest family (perform-revoked s c family h)

-- Once a family is revoked, by a call or by a detected replay, no token of it is ever exchanged,
-- whatever calls come in between, not even one that is stored later.
pub revoked_family_dead :
    (s u : StoreState) (now : Timestamp) (family token : String) (rt : RefreshToken)
    (calls : List (Timestamp × Call))
    → contains family s.revoked_families ≡ true
    → consume (perform_all s calls) now token ≡ (u, valid rt)
    → rt.family_id ≢ family
revoked_family_dead s u now family token rt calls h e same =
    let (_, alive, _, _) = consume-valid (perform_all s calls) u now token rt e in
    let dead = perform_all-revoked s calls family h in ground arith
