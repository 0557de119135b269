-- ===== src/Security/Claims.antt =====
-- klauthed-security/src/jwt/claims.rs: the claims of a token and their builder. The clock's reading
-- and the result of `random_token` are arguments. A custom claim is a text, as every claim that the
-- code of this development sets or reads is.
use rust_libraries.Prelude.{
  ◌+◌, ◌-◌, ◌^◌, String, Option, none, some, [], Result, ok, ◌>>=◌, string_eq, if◌then◌else◌, ◌&&◌,
}
use rust_libraries.Prelude.Int.{ℤ, pos, negsuc, pos_part, neg_part, sub_ℕ, leb_ℤ}
use rust_libraries.Prelude.Map.{Map, insert}
use rust_libraries.Time.{Timestamp, Duration}
use rust_libraries.Security.Error.{SecurityError}

-- What the code uses of the `time` crate: `unix_timestamp` and `from_unix_timestamp` of
-- `OffsetDateTime`, its two ends, and `whole_seconds` of `Duration`.
pub record UnixApi : Type 0 where
  pub unix_timestamp : Timestamp → ℤ
  pub from_unix_timestamp : ℤ → Option Timestamp
  pub latest : Timestamp
  pub earliest : Timestamp
  pub whole_seconds : Duration → ℤ

abbrev add_ℤ : ℤ → ℤ → ℤ
add_ℤ a b = sub_ℕ (pos_part a + pos_part b) (neg_part a + neg_part b)

-- `i64::checked_add`.
unfoldable pub checked_add_i64 : ℤ → ℤ → Option ℤ
checked_add_i64 a b =
    let sum = add_ℤ a b in
    if leb_ℤ (negsuc (2 ^ 63 - 1)) sum && leb_ℤ sum (pos (2 ^ 63 - 1)) then some sum else none

pub record Claims : Type 0 where
  pub sub : Option String
  pub iss : Option String
  pub aud : Option String
  pub exp : Option ℤ
  pub iat : Option ℤ
  pub nbf : Option ℤ
  pub jti : Option String
  pub custom : Map String String

module _ ⦃unix : UnixApi⦄ where
  -- `Timestamp::from_unix_seconds`, with `saturated`.
  unfoldable pub from_unix_seconds : ℤ → Timestamp
  from_unix_seconds secs = elim (unix.from_unix_timestamp secs) [
    | some t ↦ t
    | none ↦ if leb_ℤ (pos 0) secs then unix.latest else unix.earliest
  ]

  unfoldable pub builder : String → Timestamp → Duration → Claims
  builder subject now ttl =
      let now = unix.unix_timestamp now in
      record {
        sub = some subject;
        iss = none;
        aud = none;
        exp = checked_add_i64 now (unix.whole_seconds ttl);
        iat = some now;
        nbf = some now;
        jti = none;
        custom = [];
      }

unfoldable pub issuer : Claims → String → Claims
issuer claims iss = record claims { iss = some iss }

unfoldable pub audience : Claims → String → Claims
audience claims aud = record claims { aud = some aud }

unfoldable pub jwt_id : Claims → String → Claims
jwt_id claims jti = record claims { jti = some jti }

unfoldable pub random_jwt_id : Claims → Result SecurityError String → Result SecurityError Claims
random_jwt_id claims random_token = do jti ← random_token; ok (record claims { jti = some jti })

unfoldable pub claim : Claims → String → String → Claims
claim claims key value = record claims { custom = insert key value claims.custom }
