-- ===== src/Security/Session/Lifetime.antt =====
-- How long a session lives.
use rust_libraries.Prelude.{
  ◌<◌, String, Option, none, some, ◌≡◌, ◌≢◌, inl, inr, arith, string_eq, Option-cases, ok,
}
use rust_libraries.Prelude.Map.{Map, get, get-insert, get-insert_self, get-remove}
use rust_libraries.Time.{Timestamp, Duration, TimeApi, checked_add}
use rust_libraries.Security.Session.{
  SessionId, Session, is_expired, SessionStore, create, get_session, deadline,
}

-- A session is found under its id at an instant.
abbrev pub Live : SessionStore → SessionId → Session → Type 0
Live m id s = get id m ≡ some s

-- A stored session is returned exactly before its expiry; a look at it from then on evicts it, and a
-- look never changes any other session.
pub get_session_lem :
    (m : SessionStore) (now : Timestamp) (id other : SessionId) (s : Session)
    → Live m id s
    → (now < s.expires_at → get_session m now id ≡ (m, some s))
      × (¬ (now < s.expires_at)
          → ((get_session m now id).1 ≡ none) × (get id (get_session m now id).0 ≡ none))
      × (id ≢ other → get other (get_session m now id).0 ≡ get other m)
unfolding get_session is_expired
get_session_lem m now id other s g = (
  λ lt. ground arith,
  λ ge. (ground arith, ground (arith, get-remove id id m, string_eq.beq_iff id id)),
  λ n. ground (arith, get-remove id other m, string_eq.beq_iff id other),
)

module _ ⦃time : TimeApi⦄ where
  -- A created session carries the subject, the fresh id and the deadline, and is live under its id;
  -- an overflowing deadline is an error.
  pub create_lem :
      (m : SessionStore) (id : SessionId) (now again : Timestamp) (subject : String)
      (ttl : Duration) (metadata : Option (Map String String)) (t : SessionStore) (s : Session)
      → create m (ok id) now again subject ttl metadata ≡ ok (t, s)
      → (s.id ≡ id)
        × (s.subject ≡ subject)
        × (s.created_at ≡ now)
        × (checked_add again ttl ≡ some s.expires_at)
        × Live t id s
        × ((other : SessionId) → id ≢ other → get other t ≡ get other m)
  unfolding create deadline
  create_lem m id now again subject ttl metadata t s e =
      elim (Option-cases (checked_add again ttl)) [
        | inl g ↦ ground arith
        | inr (x, g) ↦ (
          ground arith,
          ground arith,
          ground arith,
          ground arith,
          ground (arith, get-insert_self id s m),
          λ other n. ground (arith, get-insert id other s m, string_eq.beq_iff id other),
        )
      ]
