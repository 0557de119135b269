-- ===== src/Data/Locks/Exclusion.antt =====
-- Mutual exclusion of the in-memory locks.
use rust_libraries.Prelude.{
  String, ◌<◌, ◌≡◌, ◌≢◌, refl, ◌∙◌, inl, inr, true, false, Option, none, some, List, [], ◌∷◌, All,
  Result, ok, err, arith, eqb_iff, if◌then◌else◌, string_eq, Bool-cases, ◌==◌, lt→ltb, is_some,
  ==_refl,
}
use rust_libraries.Prelude.Map.{get, insert, get-insert, get-insert_self, get-remove}
use rust_libraries.Time.{Timestamp, Duration, TimeApi, checked_add}
use rust_libraries.Data.Locks.{
  LockToken, LockTable, LockGuard, LockError, in_memory, holds, release_in_memory, drop_guard,
  release, live_holder, acquire,
}

-- What a client does with the manager; the guards are those that `acquire` returned.
pub data Action : Type 0 where
  acquires : LockToken → String → Duration → Action
  releases : LockGuard → Action
  drops : LockGuard → Action

module _ ⦃time : TimeApi⦄ where
  abbrev pub table_of : LockTable → Result LockError (LockTable × Option LockGuard) → LockTable
  table_of t (ok (u, g)) = u
  table_of t (err e) = t

  pub perform : LockTable → Timestamp × Action → LockTable
  perform t (now, acquires token key ttl) = table_of t (acquire t now token key ttl)
  perform t (now, releases g) = release t g
  perform t (now, drops g) = drop_guard t g

  pub perform_all : LockTable → List (Timestamp × Action) → LockTable
  perform_all t [] = t
  perform_all t (a ∷ rest) = perform_all (perform t a) rest

-- Releasing a guard frees its key if the guard's token still holds it.
released-get :
    (t : LockTable) (key : String) (token : LockToken) (k : String)
    → get k (release_in_memory t key token)
      ≡ (if holds token (get key t) then (if key == k then none else get k t) else get k t)
unfolding release_in_memory
released-get t key token k = elim (Bool-cases (holds token (get key t))) [
  | inl h ↦ rw h (get-remove key k t)
  | inr h ↦ rw h refl
]

-- Releasing or dropping a guard whose token no longer holds its key changes nothing: a guard that
-- outlived its lock cannot free the lock of the next holder.
pub stale_guard_harmless :
    (t : LockTable) (g : LockGuard)
    → holds g.token (get g.key t) ≡ false
    → (release t g ≡ t) × (drop_guard t g ≡ t)
unfolding release
stale_guard_harmless t g h = ground arith

-- A guard that still holds its key frees it, and no other key, whether it is released or dropped.
pub held_guard_frees :
    (t : LockTable) (g : LockGuard) (k : String)
    → g.released ≡ false
    → holds g.token (get g.key t) ≡ true
    → (get k (release t g) ≡ (if g.key == k then none else get k t))
      × (drop_guard t g ≡ release t g)
unfolding release
held_guard_frees t g k r h = ground (arith, get-remove g.key k t)

abbrev unwrap : Option Timestamp → Timestamp
unwrap none = 0
unwrap (some t) = t

-- Whether an action is a release of this acquisition.
abbrev Spares : String → LockToken → Action → Type 0
Spares key token (acquires _ _ _) = Unit
Spares key token (releases g) = (g.key ≡ key) → (g.token ≢ token)
Spares key token (drops g) = (g.key ≡ key) → (g.token ≢ token)

module _ ⦃time : TimeApi⦄ where
  granted-get :
      (t u : LockTable) (g : LockGuard) (now : Timestamp) (token : LockToken) (key : String)
      (ttl : Duration) (expiry : Timestamp)
      → acquire t now token key ttl ≡ ok (u, some g)
      → checked_add now ttl ≡ some expiry
      → get key u ≡ some (token, expiry)
  unfolding acquire
  granted-get t u g now token key ttl expiry e x =
      ground (arith, get-insert_self key (token, expiry) t)

  refused :
      (t : LockTable) (now : Timestamp) (other : LockToken) (key : String) (ttl : Duration)
      (token : LockToken) (expiry : Timestamp)
      → get key t ≡ some (token, expiry)
      → now < expiry
      → is_some (checked_add now ttl) ≡ true
      → acquire t now other key ttl ≡ ok (t, none)
  unfolding acquire
  refused t now other key ttl token expiry h lt fits = ground arith

  perform-keeps :
      (t : LockTable) (a : Timestamp × Action) (key : String) (token : LockToken)
      (expiry : Timestamp)
      → get key t ≡ some (token, expiry)
      → a.0 < expiry
      → Spares key token a.1
      → get key (perform t a) ≡ some (token, expiry)
  unfolding perform acquire release
  perform-keeps t (now, acquires w k ttl) key token expiry h lt s = ground (
    arith,
    get-insert k key (w, unwrap (checked_add now ttl)) t,
    string_eq.beq_iff k key,
    lt→ltb now expiry lt,
  )
  perform-keeps t (now, releases g) key token expiry h lt s =
      ground (
        arith,
        released-get t g.key g.token key,
        string_eq.beq_iff g.key key,
        eqb_iff token g.token,
      )
  perform-keeps t (now, drops g) key token expiry h lt s =
      ground (
        arith,
        released-get t g.key g.token key,
        string_eq.beq_iff g.key key,
        eqb_iff token g.token,
      )

  perform_all-keeps :
      (t : LockTable) (calls : List (Timestamp × Action)) (key : String) (token : LockToken)
      (expiry : Timestamp)
      → get key t ≡ some (token, expiry)
      → All (λ a. (a.0 < expiry) × Spares key token a.1) calls
      → get key (perform_all t calls) ≡ some (token, expiry)
  unfolding perform_all
  perform_all-keeps t [] key token expiry h ok_all = h
  perform_all-keeps t (a ∷ rest) key token expiry h ok_all =
      perform_all-keeps (perform t a) rest key token expiry
        (perform-keeps t a key token expiry h ok_all.0.0 ok_all.0.1) ok_all.1

  -- Once `acquire` has granted a key, every later `acquire` of it before the expiry, with a TTL
  -- that can be represented, is refused and changes nothing, whatever else was acquired, released
  -- or dropped before the expiry in between, as long as no guard of the key with the granted
  -- token was.
  pub granted_excludes :
      (t u : LockTable) (g : LockGuard) (now later : Timestamp) (token other : LockToken)
      (key : String) (ttl again : Duration) (expiry : Timestamp)
      (between : List (Timestamp × Action))
      → acquire t now token key ttl ≡ ok (u, some g)
      → checked_add now ttl ≡ some expiry
      → All (λ a. (a.0 < expiry) × Spares key token a.1) between
      → later < expiry
      → is_some (checked_add later again) ≡ true
      → acquire (perform_all u between) later other key again ≡ ok (perform_all u between, none)
  granted_excludes t u g now later token other key ttl again expiry between e x s lt fits =
      refused (perform_all u between) later other key again token expiry
        (perform_all-keeps u between key token expiry
          (granted-get t u g now token key ttl expiry e x) s)
        lt fits

  -- An `acquire` whose TTL can be represented grants a free or expired key, with a guard for the
  -- key and the fresh token; and after that guard's release the key is free again.
  pub acquire-release :
      (t : LockTable) (now : Timestamp) (token : LockToken) (key : String) (ttl : Duration)
      (expiry : Timestamp)
      → checked_add now ttl ≡ some expiry
      → live_holder now (get key t) ≡ false
      → (u : LockTable) × (g : LockGuard) × (acquire t now token key ttl ≡ ok (u, some g))
        × (g.token ≡ token)
        × (get key u ≡ some (token, expiry))
        × (get key (release u g) ≡ none)
  unfolding acquire
  acquire-release t now token key ttl expiry x free =
      let u = insert key (token, expiry) t in
      let g = in_memory key token in
      let stored = get-insert_self key (token, expiry) t in
      (
        u,
        g,
        ground arith,
        unfold in_memory in refl,
        stored,
        (held_guard_frees u g key (unfold in_memory in refl)
              (unfold in_memory in rw stored ((eqb_iff token token).1 refl))).0
            ∙ unfold in_memory in rw (==_refl key) refl,
      )
