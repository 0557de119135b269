-- ===== src/Web/OAuth/Flow.antt =====
-- A handler's body: a run over the state of the stores that goes on with a value or returns early
-- with an answer.
pub mod Keeps
use rust_libraries.Prelude.{
  Bool, true, false, Option, none, some, Result, ok, err, ◌≡◌, refl, ap, ◌∙◌, arith,
}
use rust_libraries.Web.OAuth.Messages.{HttpResponse}

abbrev pub Flow {ℓ} : Type 0 → Type ℓ → Type ℓ
Flow S A = S → S × Result HttpResponse A

abbrev pub after {ℓ κ} :
    {S : Type 0} {A : Type ℓ} {B : Type κ}
    → (A → Flow S B)
    → S × Result HttpResponse A
    → S × Result HttpResponse B
after f (t, ok a) = f a t
after f (t, err e) = (t, err e)

infixl 5 ◌>>=◌
unfoldable pub ◌>>=◌ {ℓ κ} :
    {S : Type 0} {A : Type ℓ} {B : Type κ} → Flow S A → (A → Flow S B) → Flow S B
(m >>= f) s = after f (m s)

module _ {ℓ} {S : Type 0} {A : Type ℓ} where
  unfoldable pub pure : A → Flow S A
  pure a s = (s, ok a)

  -- `return answer`.
  unfoldable pub stop : HttpResponse → Flow S A
  stop answer s = (s, err answer)

  -- `match o { Some(a) => a, None => return answer }`.
  unfoldable pub required : HttpResponse → Option A → Flow S A
  required answer (some a) s = (s, ok a)
  required answer none s = (s, err answer)

-- `if !b { return answer }`.
unfoldable pub ensure : {S : Type 0} → HttpResponse → Bool → Flow S (Unit {0})
ensure answer true s = (s, ok tt)
ensure answer false s = (s, err answer)

module _ {ℓ} {S : Type 0} {A : Type ℓ} where
  unfoldable pub lift : Result HttpResponse A → Flow S A
  lift r s = (s, r)

  -- A call that reads the stores.
  unfoldable pub read : (S → Result HttpResponse A) → Flow S A
  read f s = (s, f s)

  -- A call that cannot stop the handler.
  unfoldable pub run : (S → S × A) → Flow S A
  run f s = let (t, a) = f s in (t, ok a)

-- A run that goes on to its end goes on at its first step.
module _ {ℓ κ μ} {S : Type 0} {A : Type ℓ} {B : Type κ} {P : Type μ} {t : S} {b : B} where
  after_elim :
      (f : A → Flow S B) (r : S × Result HttpResponse A)
      → after f r ≡ (t, ok b)
      → ((a : A) (u : S) → r ≡ (u, ok a) → f a u ≡ (t, ok b) → P)
      → P
  after_elim f (u, ok a) e k = k a u refl e
  after_elim f (u, err x) e k = ground arith

  pub bind_elim :
      (m : Flow S A) {f : A → Flow S B} {s : S}
      → (m >>= f) s ≡ (t, ok b)
      → ((a : A) (u : S) → m s ≡ (u, ok a) → f a u ≡ (t, ok b) → P)
      → P
  unfolding ◌>>=◌
  bind_elim m {f} {s} e k = after_elim f (m s) e k

  pub required_elim :
      (x : HttpResponse) {o : Option A} (f : A → Flow S B) {s : S}
      → (required x o >>= f) s ≡ (t, ok b)
      → ((a : A) → o ≡ some a → f a s ≡ (t, ok b) → P)
      → P
  unfolding ◌>>=◌ required
  required_elim x {o = some a} f e k = k a refl e
  required_elim x {o = none} f e k = ground arith

  after_read :
      {r : Result HttpResponse A} (f : A → Flow S B) {s : S}
      → after f (s, r) ≡ (t, ok b)
      → ((a : A) → r ≡ ok a → f a s ≡ (t, ok b) → P)
      → P
  after_read {r = ok a} f e k = k a refl e
  after_read {r = err x} f e k = ground arith

  pub lift_elim :
      {r : Result HttpResponse A} (f : A → Flow S B) {s : S}
      → (lift r >>= f) s ≡ (t, ok b)
      → ((a : A) → r ≡ ok a → f a s ≡ (t, ok b) → P)
      → P
  unfolding ◌>>=◌ lift
  lift_elim f e k = after_read f e k

  pub read_elim :
      (g : S → Result HttpResponse A) (f : A → Flow S B) {s : S}
      → (read g >>= f) s ≡ (t, ok b)
      → ((a : A) → g s ≡ ok a → f a s ≡ (t, ok b) → P)
      → P
  unfolding ◌>>=◌ read
  read_elim g f e k = after_read f e k

  pub run_elim :
      (g : S → S × A) (f : A → Flow S B) {s : S}
      → (run g >>= f) s ≡ (t, ok b)
      → (f (g s).1 (g s).0 ≡ (t, ok b) → P)
      → P
  unfolding ◌>>=◌ run
  run_elim g f e k = k e

module _ {κ μ} {S : Type 0} {B : Type κ} {P : Type μ} {t : S} {b : B} where
  pub ensure_elim :
      (x : HttpResponse) {c : Bool} (f : Unit {0} → Flow S B) {s : S}
      → (ensure x c >>= f) s ≡ (t, ok b)
      → (c ≡ true → f tt s ≡ (t, ok b) → P)
      → P
  unfolding ◌>>=◌ ensure
  ensure_elim x {c = true} f e k = k refl e
  ensure_elim x {c = false} f e k = ground arith

-- A run that returns early does so at its first step or after it.
module _ {ℓ κ μ} {S : Type 0} {A : Type ℓ} {B : Type κ} {P : Type μ} {t : S}
    {x : HttpResponse} where
  after_stop :
      (f : A → Flow S B) (r : S × Result HttpResponse A)
      → after f r ≡ (t, err x)
      → (r ≡ (t, err x) → P)
      → ((a : A) (u : S) → r ≡ (u, ok a) → f a u ≡ (t, err x) → P)
      → P
  after_stop f (u, ok a) e h k = k a u refl e
  after_stop f (u, err y) e h k = h (ground arith)

  pub bind_stop :
      (m : Flow S A) (f : A → Flow S B) {s : S}
      → (m >>= f) s ≡ (t, err x)
      → (m s ≡ (t, err x) → P)
      → ((a : A) (u : S) → m s ≡ (u, ok a) → f a u ≡ (t, err x) → P)
      → P
  unfolding ◌>>=◌
  bind_stop m f {s} e h k = after_stop f (m s) e h k

  pub lift_stop :
      {r : Result HttpResponse A} (f : A → Flow S B) {s : S}
      → (lift r >>= f) s ≡ (t, err x)
      → (r ≡ err x → P)
      → ((a : A) → r ≡ ok a → f a s ≡ (t, err x) → P)
      → P
  unfolding ◌>>=◌ lift
  lift_stop {r = ok a} f e h k = k a refl e
  lift_stop {r = err y} f e h k = h (ground arith)

module _ {κ μ} {S : Type 0} {B : Type κ} {P : Type μ} {t : S} {x : HttpResponse} where
  pub ensure_stop :
      {y : HttpResponse} {c : Bool} (f : Unit {0} → Flow S B) {s : S}
      → (ensure y c >>= f) s ≡ (t, err x)
      → (y ≡ x → P)
      → (c ≡ true → f tt s ≡ (t, err x) → P)
      → P
  unfolding ◌>>=◌ ensure
  ensure_stop {c = true} f e h k = k refl e
  ensure_stop {c = false} f e h k = h (ground arith)

module _ {ℓ κ μ} {S : Type 0} {A : Type ℓ} {B : Type κ} {P : Type μ} {t : S}
    {x : HttpResponse} where
  pub read_stop :
      (g : S → Result HttpResponse A) (f : A → Flow S B) {s : S}
      → (read g >>= f) s ≡ (t, err x)
      → (g s ≡ err x → P)
      → ((a : A) → g s ≡ ok a → f a s ≡ (t, err x) → P)
      → P
  unfolding read
  read_stop g f {s} e h k =
      bind_stop (read g) f e (λ e1. h (ap (λ r. r.1) e1))
        λ a u e1 e2. k a (ap (λ r. r.1) e1) (ap (f a) (ap (λ r. r.0) e1) ∙ e2)
