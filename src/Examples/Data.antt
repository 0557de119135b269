-- ===== src/Examples/Data.antt =====
-- Locks, idempotency keys and the rate limiter at concrete inputs.
use rust_libraries.Prelude.{
  ℕ, false, String, none, some, List, [], ◌∷◌, ◌≡◌, ◌≢◌, refl, arith, ok, string_eq, ne_of_==,
}
use rust_libraries.Prelude.Int.{pos}
use rust_libraries.Prelude.Map.{get, insert, Map}
use rust_libraries.Time.{Timestamp}
use rust_libraries.Data.Locks.{LockTable, LockGuard, acquire, in_memory}
use rust_libraries.Data.Locks.Exclusion.{Action, acquires, perform_all, granted_excludes}
use rust_libraries.Data.Idempotency.{Outcome, Store, begin, complete, claimed, finished}
use rust_libraries.Data.Idempotency.Replay
use rust_libraries.Data.RateLimit.{Window}
use rust_libraries.Examples.Clock.{utc}

abbrev guard : LockGuard
guard = record { key = "job"; token = 1; released = false }

abbrev held : LockTable
held = ("job", (1, 105)) ∷ []

granted : acquire [] 100 1 "job" (pos 5) ≡ ok (held, some guard)
unfolding acquire get insert in_memory
granted = refl

abbrev between : List (Timestamp × Action)
between = (101, acquires 2 "job" (pos 9)) ∷ (102, acquires 3 "mail" (pos 9)) ∷ []

granted_excludes_example :
    acquire (perform_all held between) 104 4 "job" (pos 7) ≡ ok (perform_all held between, none)
granted_excludes_example =
    granted_excludes [] held guard 100 104 1 4 "job" (pos 5) (pos 7) 105 between granted refl
      ((omega arith, tt), ((omega arith, tt), tt)) (omega arith) refl

abbrev nothing : Store ℕ
nothing = []

abbrev paid : Timestamp × Replay.Call ℕ
paid = (11, Replay.begins "refund")

refund_apart : ◌≢◌ {A = String} "refund" "pay"
refund_apart = ne_of_== "refund" "pay" refl

begin_claims_once_example :
    ((begin 0 nothing 10 "pay").1 ≡ Outcome.new)
    × (begin 0 (Replay.perform_all 0 (begin 0 nothing 10 "pay").0 (paid ∷ [])) 12 "pay"
        ≡ (Replay.perform_all 0 (begin 0 nothing 10 "pay").0 (paid ∷ []), Outcome.in_progress))
begin_claims_once_example =
    Replay.begin_claims_once 0 nothing 10 12 "pay" (paid ∷ []) (unfold get in refl) (tt, tt)

abbrev pending : Store ℕ
pending = ("pay", claimed 10 "pay") ∷ []

abbrev settled : Store ℕ
settled = ("pay", finished 11 42 (claimed 10 "pay")) ∷ []

completes_pay : complete pending 11 "pay" 42 ≡ ok settled
unfolding complete get insert
completes_pay = refl

complete-replays_example :
    begin 0 (Replay.perform_all 0 settled ((12, Replay.completes "refund" 9) ∷ [])) 13 "pay"
    ≡ (Replay.perform_all 0 settled ((12, Replay.completes "refund" 9) ∷ []), Outcome.completed 42)
complete-replays_example =
    Replay.complete-replays 0 pending settled 11 13 "pay" 42
      ((12, Replay.completes "refund" 9) ∷ []) completes_pay (refund_apart, tt)

abbrev used : Window
used = record { started = 1000; count = 1 }

abbrev windows : Map String Window
windows = ("ip", used) ∷ []

-- A window of five milliseconds, with room for three.
abbrev times : List Timestamp
times = 2000 ∷ 2500 ∷ 1003000 ∷ 4000000 ∷ []
