-- ===== src/Web/OAuth/Flow/Keeps.antt =====
-- A property of the state that every step of a handler's body keeps.
use rust_libraries.Prelude.{Bool, true, false, Option, none, some, Result, ok, err, ◌≡◌, refl}
use rust_libraries.Web.OAuth.Messages.{HttpResponse}
use rust_libraries.Web.OAuth.Flow.{Flow, ◌>>=◌, after, lift, required, read, run, ensure}

-- A property of the state that every step keeps.
abbrev pub Keeps {ℓ κ} : {S : Type 0} {A : Type ℓ} → (S → Type κ) → Flow S A → Type κ
Keeps {S = S} P m = (s : S) → P s → P (m s).0

module _ {ℓ κ μ} {S : Type 0} {A : Type ℓ} {B : Type κ} (P : S → Type μ) where
  after_keeps :
      (f : A → Flow S B) (r : S × Result HttpResponse A)
      → ((a : A) → Keeps P (f a))
      → P r.0
      → P (after f r).0
  after_keeps f (t, ok a) k p = k a t p
  after_keeps f (t, err x) k p = p

  pub bind-Keeps :
      (m : Flow S A) (f : A → Flow S B) → Keeps P m → ((a : A) → Keeps P (f a)) → Keeps P (m >>= f)
  unfolding ◌>>=◌
  bind-Keeps m f h k s p = after_keeps f (m s) k (h s p)

  pub lift-Keeps :
      (r : Result HttpResponse A) (f : A → Flow S B)
      → ((a : A) → r ≡ ok a → Keeps P (f a))
      → Keeps P (lift r >>= f)
  unfolding ◌>>=◌ lift
  lift-Keeps (ok a) f k s p = k a refl s p
  lift-Keeps (err x) f k s p = p

  pub required-Keeps :
      (x : HttpResponse) (o : Option A) (f : A → Flow S B)
      → ((a : A) → o ≡ some a → Keeps P (f a))
      → Keeps P (required x o >>= f)
  unfolding ◌>>=◌ required
  required-Keeps x (some a) f k s p = k a refl s p
  required-Keeps x none f k s p = p

  pub read-Keeps :
      (g : S → Result HttpResponse A) (f : A → Flow S B)
      → ((a : A) → Keeps P (f a))
      → Keeps P (read g >>= f)
  unfolding read
  read-Keeps g f k = bind-Keeps (read g) f (λ s p. p) k

  pub run-Keeps :
      (g : S → S × A) (f : A → Flow S B)
      → ((s : S) → P s → P (g s).0)
      → ((a : A) → Keeps P (f a))
      → Keeps P (run g >>= f)
  unfolding run
  run-Keeps g f h k = bind-Keeps (run g) f h k

module _ {κ μ} {S : Type 0} {B : Type κ} (P : S → Type μ) where
  pub ensure-Keeps :
      (x : HttpResponse) (c : Bool) (f : Unit {0} → Flow S B)
      → (c ≡ true → Keeps P (f tt))
      → Keeps P (ensure x c >>= f)
  unfolding ◌>>=◌ ensure
  ensure-Keeps x true f k s p = k refl s p
  ensure-Keeps x false f k s p = p
