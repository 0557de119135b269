-- ===== src/Security/RefreshToken.antt =====
-- klauthed-security/src/refresh_token: the rotated token (token.rs) and the in-memory store
-- (store.rs). The clock's reading and the results of `random_token` are arguments.
pub mod Rotation
pub mod Families
pub mod Replay
use rust_libraries.Prelude.{
  ℕ, String, Bool, true, false, not, Option, none, some, List, [], ◌∷◌, Result, ok, err, ◌>>=◌,
  ok_or, leb, ltb, if◌then◌else◌, ◌==◌, string_eq, contains, set_insert,
}
use rust_libraries.Prelude.Map.{Map, get, insert, remove, retain}
use rust_libraries.Time.{Timestamp, Duration, TimeApi, checked_add}
use rust_libraries.Security.Error.{SecurityError, token_ttl_overflow}

pub record RefreshToken : Type 0 where
  pub token : String
  pub family_id : String
  pub client_id : String
  pub subject : String
  pub scope : List String
  pub issued_at : Timestamp
  pub expires_at : Timestamp

unfoldable pub is_expired : RefreshToken → Timestamp → Bool
is_expired rt now = leb rt.expires_at now

pub record RefreshTokenBuilder : Type 0 where
  pub client_id : String
  pub subject : String
  pub scope : List String
  pub family_id : Option String

unfoldable pub new_builder : String → String → RefreshTokenBuilder
new_builder client_id subject = record {
  client_id = client_id;
  subject = subject;
  scope = [];
  family_id = none;
}

unfoldable pub with_scope : RefreshTokenBuilder → List String → RefreshTokenBuilder
with_scope b scope = record b { scope = scope }

unfoldable pub with_family_id : RefreshTokenBuilder → String → RefreshTokenBuilder
with_family_id b id = record b { family_id = some id }

abbrev given_or : Option String → Result SecurityError String → Result SecurityError String
given_or (some id) fresh = ok id
given_or none fresh = fresh

-- The two random tokens are drawn in this order, the second only for a fresh family.
unfoldable pub build :
    ⦃time : TimeApi⦄
    → RefreshTokenBuilder
    → Result SecurityError String
    → Result SecurityError String
    → Timestamp
    → Duration
    → Result SecurityError RefreshToken
build b random_token random_family now ttl = do
  token ← random_token
  family_id ← given_or b.family_id random_family
  expires_at ← ok_or (token_ttl_overflow "refresh token") (checked_add now ttl)
  ok (record {
    token = token;
    family_id = family_id;
    client_id = b.client_id;
    subject = b.subject;
    scope = b.scope;
    issued_at = now;
    expires_at = expires_at;
  })

pub data ConsumeResult : Type 0 where
  valid : RefreshToken → ConsumeResult
  expired : RefreshToken → ConsumeResult
  compromised : String → ConsumeResult
  not_found : ConsumeResult

pub record StoreState : Type 0 where
  pub active : Map String RefreshToken
  pub consumed : Map String (String × Timestamp)
  pub revoked_families : List String

unfoldable pub new : StoreState
new = record { active = []; consumed = []; revoked_families = [] }

unfoldable pub evict_expired_consumed : StoreState → Timestamp → StoreState
evict_expired_consumed s now = record s {
  consumed = retain (λ _ entry. ltb now entry.1) s.consumed;
}

unfoldable pub store : StoreState → RefreshToken → StoreState
store s token = record s { active = insert token.token token s.active }

abbrev pub outside : String → Map String RefreshToken → Map String RefreshToken
outside family m = retain (λ _ rt. not (rt.family_id == family)) m

unfoldable pub revoke_family : StoreState → String → StoreState
revoke_family s family = record s {
  revoked_families = set_insert family s.revoked_families;
  active = outside family s.active;
}

-- Step 1 and 2 of `consume`: the token is in the active set.
unfoldable pub consume_active :
    StoreState → Timestamp → String → RefreshToken → StoreState × ConsumeResult
consume_active s now token rt =
    if contains rt.family_id s.revoked_families
    then (record s { active = remove token s.active }, not_found)
    else (
      record s {
        active = remove token s.active;
        consumed = insert token (rt.family_id, rt.expires_at) s.consumed;
      },
      if is_expired rt now then expired rt else valid rt,
    )

-- Step 3 and 4: a replay, or a token that is not known.
unfoldable pub consume_replayed :
    StoreState → String → Option (String × Timestamp) → StoreState × ConsumeResult
consume_replayed s token none = (s, not_found)
consume_replayed s token (some (family, _)) = (
  record s {
    revoked_families = set_insert family s.revoked_families;
    active = outside family s.active;
    consumed = remove token s.consumed;
  },
  compromised family,
)

unfoldable pub consume : StoreState → Timestamp → String → StoreState × ConsumeResult
unfolding consume_active consume_replayed evict_expired_consumed
consume s now token = elim (get token s.active) [
  | some rt ↦ consume_active s now token rt
  | none ↦ let t = evict_expired_consumed s now in consume_replayed t token (get token t.consumed)
]
