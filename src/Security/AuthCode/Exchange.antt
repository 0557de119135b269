-- ===== src/Security/AuthCode/Exchange.antt =====
-- An authorization code is exchanged at most once, before it expires.
use rust_libraries.Prelude.{
  ℕ, ◌<◌, String, true, none, some, List, [], ◌∷◌, ◌≡◌, ◌≢◌, ◌↔◌, refl, ◌∙◌, arith, All, string_eq,
  ==_refl,
}
use rust_libraries.Prelude.Map.{get, remove, get-insert, get-insert_self, get-remove}
use rust_libraries.Time.{Timestamp}
use rust_libraries.Security.Compare.{SubtleApi, constant_time_eq_iff}
use rust_libraries.Security.AuthCode.{
  AuthCode, plain, s256, is_expired, CodeStore, store, consume, verify_pkce,
}

pub data Call : Type 0 where
  stores : AuthCode → Call
  consumes : String → Call

pub perform : CodeStore → Timestamp × Call → CodeStore
perform m (now, stores c) = store m c
perform m (now, consumes code) = (consume m now code).0

pub perform_all : CodeStore → List (Timestamp × Call) → CodeStore
perform_all m [] = m
perform_all m (c ∷ rest) = perform_all (perform m c) rest

-- A call that neither stores nor consumes this code.
abbrev pub Ignores : String → Call → Type 0
Ignores code (stores c) = c.code ≢ code
Ignores code (consumes k) = k ≢ code

-- A call that does not store this code.
abbrev pub NeverStores : String → Call → Type 0
NeverStores code (stores c) = c.code ≢ code
NeverStores code (consumes k) = Unit

perform-Ignores :
    (m : CodeStore) (c : Timestamp × Call) (code : String)
    → Ignores code c.1
    → get code (perform m c) ≡ get code m
unfolding perform store consume
perform-Ignores m (now, stores c) code n =
    ground (arith, get-insert c.code code c m, string_eq.beq_iff c.code code)
perform-Ignores m (now, consumes k) code n =
    ground (arith, get-remove k code m, string_eq.beq_iff k code)

perform_all-Ignores :
    (m : CodeStore) (calls : List (Timestamp × Call)) (code : String)
    → All (λ c. Ignores code c.1) calls
    → get code (perform_all m calls) ≡ get code m
unfolding perform_all
perform_all-Ignores m [] code h = refl
perform_all-Ignores m (c ∷ rest) code h =
    perform_all-Ignores (perform m c) rest code h.1 ∙ perform-Ignores m c code h.0

perform-none :
    (m : CodeStore) (c : Timestamp × Call) (code : String)
    → NeverStores code c.1
    → get code m ≡ none
    → get code (perform m c) ≡ none
unfolding perform store consume
perform-none m (now, stores c) code n g =
    ground (arith, get-insert c.code code c m, string_eq.beq_iff c.code code)
perform-none m (now, consumes k) code n g = ground (arith, get-remove k code m)

perform_all-none :
    (m : CodeStore) (calls : List (Timestamp × Call)) (code : String)
    → All (λ c. NeverStores code c.1) calls
    → get code m ≡ none
    → get code (perform_all m calls) ≡ none
unfolding perform_all
perform_all-none m [] code h g = g
perform_all-none m (c ∷ rest) code h g =
    perform_all-none (perform m c) rest code h.1 (perform-none m c code h.0 g)

-- A stored code that no other call has touched is exchanged exactly before its expiry.
pub store-consume :
    (m : CodeStore) (c : AuthCode) (now : Timestamp) (calls : List (Timestamp × Call))
    → All (λ k. Ignores c.code k.1) calls
    → (now < c.expires_at → (consume (perform_all (store m c) calls) now c.code).1 ≡ some c)
      × (¬ (now < c.expires_at) → (consume (perform_all (store m c) calls) now c.code).1 ≡ none)
unfolding consume store is_expired
store-consume m c now calls h =
    let found = perform_all-Ignores (store m c) calls c.code h ∙ get-insert_self c.code c m in
    (λ lt. ground arith, λ ge. ground arith)

-- After a code was presented, exchanged or not, it is never exchanged again, whatever calls come in
-- between, unless it is stored anew.
pub consumed_once :
    (m : CodeStore) (now later : Timestamp) (code : String) (calls : List (Timestamp × Call))
    → All (λ c. NeverStores code c.1) calls
    → (consume (perform_all (consume m now code).0 calls) later code).1 ≡ none
unfolding consume
consumed_once m now later code calls h =
    let gone =
      perform_all-none (remove code m) calls code h
        (get-remove code code m ∙ rw (==_refl code) refl) in
    rw gone refl

-- PKCE accepts a verifier exactly if it is the challenge (plain), or its digest is (S256).
pub verify_pkce_iff :
    ⦃subtle : SubtleApi⦄ (digest : List ℕ → List ℕ) (verifier challenge : List ℕ)
    → ((verify_pkce digest verifier challenge plain ≡ true) ↔ (verifier ≡ challenge))
      × ((verify_pkce digest verifier challenge s256 ≡ true) ↔ (digest verifier ≡ challenge))
unfolding verify_pkce
verify_pkce_iff digest verifier challenge =
    (constant_time_eq_iff verifier challenge, constant_time_eq_iff (digest verifier) challenge)
