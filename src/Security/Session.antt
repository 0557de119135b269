-- ===== src/Security/Session.antt =====
-- klauthed-security/src/session: the session (model.rs) and the in-memory store (store.rs). A
-- `SessionId` is its token. The clock's reading and the result of `SessionId::generate` are
-- arguments; an operation reads the clock once here, and `create` and `touch` twice in the source.
pub mod Lifetime
use rust_libraries.Prelude.{
  ℕ, String, Bool, true, false, Option, none, some, List, [], Result, ok, err, ◌>>=◌, ok_or, leb,
  if◌then◌else◌, string_eq,
}
use rust_libraries.Prelude.Map.{Map, get, insert, remove}
use rust_libraries.Time.{Timestamp, Duration, TimeApi, checked_add}
use rust_libraries.Security.Error.{
  SecurityError, token_ttl_overflow, session_expired, session_not_found,
}

abbrev pub SessionId : Type 0
SessionId = String

pub record Session : Type 0 where
  pub id : SessionId
  pub subject : String
  pub created_at : Timestamp
  pub expires_at : Timestamp
  pub metadata : Map String String

unfoldable pub is_expired : Session → Timestamp → Bool
is_expired s now = leb s.expires_at now

abbrev pub SessionStore : Type 0
SessionStore = Map SessionId Session

unfoldable pub new : SessionStore
new = []

module _ ⦃time : TimeApi⦄ where
  unfoldable pub deadline : Timestamp → Duration → Result SecurityError Timestamp
  deadline now ttl = ok_or (token_ttl_overflow "session") (checked_add now ttl)

  abbrev or_default : Option (Map String String) → Map String String
  or_default none = []
  or_default (some m) = m

  -- The instants are the clock's first and second reading.
  unfoldable pub create :
      SessionStore
      → Result SecurityError SessionId
      → Timestamp
      → Timestamp
      → String
      → Duration
      → Option (Map String String)
      → Result SecurityError (SessionStore × Session)
  unfolding deadline
  create m generated now then_now subject ttl metadata = do
    id ← generated
    expires_at ← deadline then_now ttl
    let session : Session = record {
      id = id;
      subject = subject;
      created_at = now;
      expires_at = expires_at;
      metadata = or_default metadata;
    }
    ok (insert id session m, session)

  -- The branches on the session found.
  abbrev touch_found :
      SessionStore
      → Timestamp
      → SessionId
      → Timestamp
      → Option Session
      → SessionStore × Result SecurityError Session
  touch_found m now id until none = (m, err session_not_found)
  touch_found m now id until (some s) =
      if is_expired s now
      then (remove id m, err session_expired)
      else (insert id (record s { expires_at = until }) m, ok (record s { expires_at = until }))

  unfoldable pub touch :
      SessionStore
      → Timestamp
      → Timestamp
      → SessionId
      → Duration
      → SessionStore × Result SecurityError Session
  unfolding deadline
  touch m now then_now id ttl = elim (deadline then_now ttl) [
    | err e ↦ (m, err e)
    | ok until ↦ touch_found m now id until (get id m)
  ]

abbrev get_found :
    SessionStore → Timestamp → SessionId → Option Session → SessionStore × Option Session
get_found m now id none = (m, none)
get_found m now id (some s) = if is_expired s now then (remove id m, none) else (m, some s)

unfoldable pub get_session : SessionStore → Timestamp → SessionId → SessionStore × Option Session
get_session m now id = get_found m now id (get id m)

unfoldable pub delete : SessionStore → SessionId → SessionStore
delete m id = remove id m
