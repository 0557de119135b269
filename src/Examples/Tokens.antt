-- ===== src/Examples/Tokens.antt =====
-- Refresh tokens, authorization codes, sessions and the denylist at concrete inputs.
use rust_libraries.Prelude.{
  true, String, none, List, [], ◌∷◌, ◌≡◌, ◌≢◌, refl, arith, string_eq, ne_of_==,
}
use rust_libraries.Prelude.Map.{get, insert, remove}
use rust_libraries.Time.{Timestamp}
use rust_libraries.Security.RefreshToken as Refresh
use rust_libraries.Security.RefreshToken.Rotation
use rust_libraries.Security.RefreshToken.Replay
use rust_libraries.Security.RefreshToken.Families
use rust_libraries.Security.AuthCode as Codes
use rust_libraries.Security.Session as Sessions
use rust_libraries.Security.Session.Lifetime
use rust_libraries.Security.Revocation
use rust_libraries.Security.Revocation.Denylist
use rust_libraries.Examples.Clock.{utc, plain_bytes}

abbrev token_of : String → String → Refresh.RefreshToken
token_of token family = record {
  token = token;
  family_id = family;
  client_id = "app";
  subject = "ann";
  scope = [];
  issued_at = 0;
  expires_at = 100;
}

-- Two tokens of one family and one of another.
abbrev tokens : Refresh.StoreState
tokens = record {
  active = ("t1", token_of "t1" "f") ∷ ("t2", token_of "t2" "f") ∷ ("u1", token_of "u1" "g") ∷ [];
  consumed = [];
  revoked_families = [];
}

tokens-IsValid : Rotation.IsValid tokens
unfolding get
tokens-IsValid = record { active = (refl, (refl, (refl, tt))); consumed = tt }

abbrev after : Refresh.StoreState
after = record {
  active = ("t2", token_of "t2" "f") ∷ ("u1", token_of "u1" "g") ∷ [];
  consumed = ("t1", ("f", 100)) ∷ [];
  revoked_families = [];
}

exchange : Refresh.consume tokens 10 "t1" ≡ (after, Refresh.valid (token_of "t1" "f"))
unfolding Refresh.consume Refresh.consume_active Refresh.is_expired get insert remove
exchange = refl

abbrev rotations : List (Timestamp × Families.Call)
rotations = (20, Families.consumes "t2") ∷ (21, Families.stores (token_of "t3" "f")) ∷ []

apart : ◌≢◌ {A = String} "t3" "t1"
apart = ne_of_== "t3" "t1" refl

others_apart : ◌≢◌ {A = String} "t2" "t1"
others_apart = ne_of_== "t2" "t1" refl

replay_revokes_family_example :
    Rotation.Detected (Families.perform_all after rotations) 30 "t1" (token_of "t1" "f")
replay_revokes_family_example =
    Replay.replay_revokes_family tokens after 10 30 "t1" (token_of "t1" "f") rotations
      tokens-IsValid exchange ((others_apart, omega arith), (apart, tt)) (omega arith)

exchanged_once_example :
    Refresh.consume (Families.perform_all after rotations) 30 "t1"
    ≢ (after, Refresh.valid (token_of "t1" "f"))
exchanged_once_example =
    Families.exchanged_once tokens after after 10 30 "t1" (token_of "t1" "f") (token_of "t1" "f")
      rotations exchange (tt, (apart, tt))

abbrev revoked : Refresh.StoreState
revoked = record tokens { revoked_families = "f" ∷ [] }

abbrev left : Refresh.StoreState
left = record {
  active = ("t1", token_of "t1" "f") ∷ ("t2", token_of "t2" "f") ∷ [];
  consumed = ("u1", ("g", 100)) ∷ [];
  revoked_families = "f" ∷ [];
}

exchange_other :
    Refresh.consume (Families.perform_all revoked []) 30 "u1"
    ≡ (left, Refresh.valid (token_of "u1" "g"))
unfolding Refresh.consume Refresh.consume_active Refresh.is_expired Families.perform_all get insert
    remove
exchange_other = refl

abbrev g_family : String
g_family = "g"

revoked_family_dead_example : g_family ≢ "f"
revoked_family_dead_example =
    Families.revoked_family_dead revoked left 30 "f" "u1" (token_of "u1" "g") [] refl exchange_other

abbrev code : Codes.AuthCode
code = record {
  code = "c1";
  client_id = "app";
  subject = "ann";
  redirect_uri = none;
  scope = [];
  nonce = none;
  pkce_challenge = none;
  pkce_method = none;
  issued_at = 0;
  expires_at = 60;
}

abbrev stored_code : Codes.CodeStore
stored_code = ("c1", code) ∷ []

abbrev session : Sessions.Session
session = record { id = "s1"; subject = "ann"; created_at = 10; expires_at = 30; metadata = [] }

abbrev sessions : Sessions.SessionStore
sessions = ("s1", session) ∷ []

live : Lifetime.Live sessions "s1" session
unfolding get
live = refl

abbrev looks : List (Timestamp × Denylist.Call)
looks =
    (11, Denylist.asks "j1") ∷ (12, Denylist.revokes "j2" 15) ∷ (13, Denylist.revokes "j1" 90) ∷ []

j2_apart : ◌≢◌ {A = String} "j2" "j1"
j2_apart = ne_of_== "j2" "j1" refl

revoked_until_expiry_example :
    (Revocation.is_revoked (Denylist.perform_all (Revocation.revoke [] "j1" 50) looks) 49 "j1").1
    ≡ true
revoked_until_expiry_example =
    Denylist.revoked_until_expiry [] "j1" 50 49 looks
      (omega arith, ((λ e. absurd (j2_apart e)), ((λ e. omega arith), tt))) (omega arith)
