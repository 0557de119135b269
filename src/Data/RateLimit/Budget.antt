-- ===== src/Data/RateLimit/Budget.antt =====
-- How many requests a fixed window admits.
use rust_libraries.Prelude.{
  ℕ, ◌+◌, ◌-◌, ◌≤◌, min, max, ◌≡◌, ◌≢◌, refl, ◌∙◌, ap, inl, inr, String, true, false, none, some,
  ◌⊎◌, List, [], ◌∷◌, length, All, arith, leb, if◌then◌else◌, string_eq, Bool-cases, ==_of_ne,
  leb→le, le→leb, leb→gt,
}
use rust_libraries.Prelude.Int.{◌<ℤ◌}
use rust_libraries.Prelude.Map.{Map, get, get-insert, get-insert_self}
use rust_libraries.Time.{Timestamp, Duration, TimeApi, duration_since}
use rust_libraries.Data.RateLimit.{
  Window, is_allowed, window_core, or_insert, refresh, admit, check,
}

module _ ⦃time : TimeApi⦄ where
  -- The requests of one key at these instants: the limiter after them, and how many it allowed.
  pub requests : Map String Window → List Timestamp → String → ℕ → ℕ → Map String Window × ℕ
  requests s [] key limit window = (s, 0)
  requests s (now ∷ later) key limit window =
      let (t, outcome) = check s now key limit window in
      let (u, n) = requests t later key limit window in (u, if is_allowed outcome then n + 1 else n)

  refresh_inside :
      (now : Timestamp) (span : Duration) (w : Window)
      → duration_since now w.started <ℤ span
      → refresh now span w ≡ w
  unfolding refresh
  refresh_inside now span w h = ground arith

  admit-window :
      (now : Timestamp) (limit : ℕ) (span : Duration) (w : Window)
      → (admit now limit span w).0
        ≡ (if leb limit w.count then w else record w { count = w.count + 1 })
  unfolding admit
  admit-window now limit span w = ground arith

  admit-is_allowed :
      (now : Timestamp) (limit : ℕ) (span : Duration) (w : Window)
      → is_allowed (admit now limit span w).1 ≡ (if leb limit w.count then false else true)
  unfolding admit is_allowed
  admit-is_allowed now limit span w = ground arith

  check_inside :
      (s : Map String Window) (now : Timestamp) (key : String) (limit window : ℕ) (w : Window)
      → get key s ≡ some w
      → duration_since now w.started <ℤ window_core window
      → (get key (check s now key limit window).0
          ≡ some (if leb (max limit 1) w.count then w else record w { count = w.count + 1 }))
        × (is_allowed (check s now key limit window).1
            ≡ (if leb (max limit 1) w.count then false else true))
  unfolding check is_allowed
  check_inside s now key limit window w g inside =
      let e : refresh now (window_core window) (or_insert now (get key s)) ≡ w =
        rw g (refresh_inside now (window_core window) w inside) in
      (
        get-insert_self key _ s
            ∙ ap some (rw e (admit-window now (max limit 1) (window_core window) w)),
        rw (e, check) (admit-is_allowed now (max limit 1) (window_core window) w),
      )

  requests_full :
      (s : Map String Window) (times : List Timestamp) (key : String) (limit window : ℕ)
      (w : Window)
      → get key s ≡ some w
      → max limit 1 ≤ w.count
      → All (λ now. duration_since now w.started <ℤ window_core window) times
      → (requests s times key limit window).1 ≡ 0
  unfolding requests
  requests_full s [] key limit window w g c inside = refl
  requests_full s (now ∷ later) key limit window w g c inside =
      let (h, a) = check_inside s now key limit window w g inside.0 in
      let full : leb (max limit 1) w.count ≡ true = le→leb (max limit 1) w.count c in
      rw (a, full)
        (requests_full (check s now key limit window).0 later key limit window w (h ∙ rw full refl)
          c inside.1)

  -- Inside one window, a key with `count` requests admitted is allowed exactly as many more as its
  -- budget leaves, however many come and whenever they come.
  pub requests_budget :
      (s : Map String Window) (times : List Timestamp) (key : String) (limit window : ℕ)
      (w : Window)
      → get key s ≡ some w
      → w.count ≤ max limit 1
      → All (λ now. duration_since now w.started <ℤ window_core window) times
      → (requests s times key limit window).1 ≡ min (length times) (max limit 1 - w.count)
  unfolding requests
  requests_budget s [] key limit window w g c inside = omega arith
  requests_budget s (now ∷ later) key limit window w g c inside =
      let (h, a) = check_inside s now key limit window w g inside.0 in
      elim (Bool-cases (leb (max limit 1) w.count)) [
        | inl full ↦
            let used = leb→le (max limit 1) w.count full in
            requests_full s (now ∷ later) key limit window w g used inside ∙ omega arith
        | inr room ↦
            let rest =
              requests_budget (check s now key limit window).0 later key limit window
                (record w { count = w.count + 1 }) (h ∙ rw room refl)
                (omega (arith, leb→gt (max limit 1) w.count room)) inside.1 in
            rw (a, room) (omega (arith, rest, leb→gt (max limit 1) w.count room))
      ]

  -- No window of the key runs at this instant: the key is new, or a whole window has passed since
  -- its window started.
  abbrev pub NoneRuns : Map String Window → Timestamp → String → ℕ → Type 0
  NoneRuns s now key window =
      (get key s ≡ none)
      ⊎ ((w : Window) × (get key s ≡ some w)
          × ¬ (duration_since now w.started <ℤ window_core window))

  -- A check of one key leaves the window of every other key as it is.
  pub check-other :
      (s : Map String Window) (now : Timestamp) (key other : String) (limit window : ℕ)
      → key ≢ other
      → get other (check s now key limit window).0 ≡ get other s
  unfolding check
  check-other s now key other limit window n =
      get-insert key other _ s ∙ rw (==_of_ne key other n) refl
