-- ===== src/Security/Authz/Covers.antt =====
-- What a permission grants, segment by segment.
use rust_libraries.Prelude.{
  ℕ, zero, suc, ◌+◌, ◌≤◌, ◌<◌, Bool, true, false, ◌&&◌, ◌||◌, none, some, List, [], ◌∷◌, ◌≡◌, ◌≢◌,
  refl, ◌∙◌, ap, subst, inl, inr, ◌↔◌, ◌⊎◌, arith, length, get_elem?, drop, eqb, ◌==◌, Bool-cases,
}
use rust_libraries.Security.Authz.Permission.{
  Text, text_eq_iff, text_instance, Permission, star, colon, split, push_front, grants_from, grants,
}

-- The specification: a last `*` covers one or more segments, any other `*` covers one, and any other
-- segment covers itself.
abbrev pub Covers : List Text → List Text → Type 0
Covers [] [] = Unit
Covers [] (n ∷ ns) = ⊥
Covers (g ∷ gs) [] = ⊥
Covers (g ∷ gs) (n ∷ ns) = ((g ≡ star) × (gs ≡ [])) ⊎ (((g ≡ star) ⊎ (g ≡ n)) × Covers gs ns)

-- The same by a recursion over both lists.
covers : List Text → List Text → Bool
covers [] [] = true
covers [] (n ∷ ns) = false
covers (g ∷ gs) [] = false
covers (g ∷ []) (n ∷ ns) = g == star || (g == n && covers [] ns)
covers (g ∷ h ∷ gs) (n ∷ ns) = (g == star || g == n) && covers (h ∷ gs) ns

covers_iff : (gs ns : List Text) → (covers gs ns ≡ true) ↔ Covers gs ns
unfolding covers
covers_iff [] [] = (λ h. tt, λ h. refl)
covers_iff [] (n ∷ ns) = (λ h. cc, λ h. absurd h)
covers_iff (g ∷ []) [] = (λ h. cc, λ h. absurd h)
covers_iff (g ∷ h ∷ gs) [] = (λ h. cc, λ h. absurd h)
covers_iff (g ∷ []) (n ∷ ns) = (
  λ h. ground (arith, text_eq_iff g star, text_eq_iff g n, covers_iff [] ns),
  λ h. ground (arith, text_eq_iff g star, text_eq_iff g n, covers_iff [] ns),
)
covers_iff (g ∷ h ∷ gs) (n ∷ ns) = (
  λ c. ground (arith, text_eq_iff g star, text_eq_iff g n, covers_iff (h ∷ gs) ns),
  λ c. ground (arith, text_eq_iff g star, text_eq_iff g n, covers_iff (h ∷ gs) ns),
)

module _ {A : Type 0} where
  drop_nil : (i : ℕ) (l : List A) → drop i l ≡ [] → (length l ≤ i) × (get_elem? l i ≡ none)
  drop_nil zero [] e = (omega arith, refl)
  drop_nil zero (x ∷ l) e = absurd (ground arith)
  drop_nil (suc i) [] e = (omega arith, refl)
  drop_nil (suc i) (x ∷ l) e = let (h, g) = drop_nil i l e in (omega arith, g)

  drop_cons :
      (i : ℕ) (l : List A) (n : A) (ns : List A)
      → drop i l ≡ n ∷ ns
      → (get_elem? l i ≡ some n) × (drop (suc i) l ≡ ns) × (i < length l)
  drop_cons zero [] n ns e = absurd (ground arith)
  drop_cons zero (x ∷ l) n ns e = (ground arith, ground arith, omega arith)
  drop_cons (suc i) [] n ns e = absurd (ground arith)
  drop_cons (suc i) (x ∷ l) n ns e = let (g, d, h) = drop_cons i l n ns e in (g, d, omega arith)

-- The loop at an index agrees with the recursion on what is left of both lists.
loop-covers :
    (granted needed gs ns : List Text) (i : ℕ)
    → length granted ≡ i + length gs
    → drop i needed ≡ ns
    → i ≤ length needed
    → grants_from granted needed i gs ≡ covers gs ns
unfolding grants_from covers
loop-covers granted needed [] [] i e d b = ground (arith, drop_nil i needed d)
loop-covers granted needed [] (n ∷ ns) i e d b = ground (arith, drop_cons i needed n ns d)
loop-covers granted needed (g ∷ []) [] i e d b = ground (arith, drop_nil i needed d)
loop-covers granted needed (g ∷ h ∷ gs) [] i e d b = ground (arith, drop_nil i needed d)
loop-covers granted needed (g ∷ []) (n ∷ ns) i e d b =
    let (f, r, lt) = drop_cons i needed n ns d in
    let ih = loop-covers granted needed [] ns (i + 1) (omega arith) (rw next r) (omega arith) in
    ground (arith, f, ih)
  where
    next : i + 1 ≡ suc i
    next = omega arith
loop-covers granted needed (g ∷ h ∷ gs) (n ∷ ns) i e d b =
    let (f, r, lt) = drop_cons i needed n ns d in
    let ih =
      loop-covers granted needed (h ∷ gs) ns (i + 1) (omega arith) (rw next r) (omega arith) in
    ground (arith, f, ih)
  where
    next : i + 1 ≡ suc i
    next = omega arith

grants-Covers : (p q : Permission) → (grants p q ≡ true) ↔ ((p ≡ star) ⊎ Covers (split p) (split q))
unfolding grants
grants-Covers p q = (
  λ h. ground (
    arith,
    text_eq_iff p star,
    loop-covers (split p) (split q) (split p) (split q) 0 (omega arith) refl (omega arith),
    covers_iff (split p) (split q),
  ),
  λ h. ground (
    arith,
    text_eq_iff p star,
    loop-covers (split p) (split q) (split p) (split q) 0 (omega arith) refl (omega arith),
    covers_iff (split p) (split q),
  ),
)

Covers-refl : (gs : List Text) → Covers gs gs
Covers-refl [] = tt
Covers-refl (g ∷ gs) = inr (inr refl, Covers-refl gs)

Covers-nothing : (xs : List Text) → Covers xs [] → xs ≡ []
Covers-nothing [] h = refl
Covers-nothing (x ∷ xs) h = absurd h

Covers-trans : (xs ys zs : List Text) → Covers xs ys → Covers ys zs → Covers xs zs
Covers-trans [] [] [] h k = tt
Covers-trans [] [] (z ∷ zs) h k = k
Covers-trans [] (y ∷ ys) zs h k = absurd h
Covers-trans (x ∷ xs) [] zs h k = absurd h
Covers-trans (x ∷ xs) (y ∷ ys) [] h k = absurd k
Covers-trans (x ∷ xs) (y ∷ ys) (z ∷ zs) (inl (a, b)) k = inl (a, b)
Covers-trans (x ∷ xs) (y ∷ ys) (z ∷ zs) (inr (c, t)) (inl (a, b)) =
    inl (ground arith, Covers-nothing xs (subst (Covers xs) b t))
Covers-trans (x ∷ xs) (y ∷ ys) (z ∷ zs) (inr (c, t)) (inr (d, u)) =
    inr (ground arith, Covers-trans xs ys zs t u)

split_nonempty : (p : Text) → split p ≢ []
unfolding split
split_nonempty [] e = ground arith
split_nonempty (c ∷ cs) e = push_nonempty (split cs) (ground arith)
  where
    push_nonempty : (ss : List Text) → push_front c ss ≢ []
    push_nonempty [] f = ground arith
    push_nonempty (s ∷ ss) f = ground arith

push_single :
    (c : ℕ) (ss : List Text) (s : Text)
    → push_front c ss ≡ s ∷ []
    → ss ≢ []
    → (t : Text) × (ss ≡ t ∷ []) × (c ∷ t ≡ s)
push_single c [] s e n = absurd (n refl)
push_single c (t ∷ ss) s e n = (t, ground arith, ground arith)

-- A permission of one segment has no colon.
split_single : (p s : Text) → split p ≡ s ∷ [] → p ≡ s
unfolding split
split_single [] s e = ground arith
split_single (c ∷ cs) s e = elim (Bool-cases (eqb c colon)) [
  | inl h ↦ absurd (split_nonempty cs (ground arith))
  | inr h ↦
      let (t, f, g) = push_single c (split cs) s (ground arith) (split_nonempty cs) in
      ap (λ u. c ∷ u) (split_single cs t f) ∙ g
]

only_star : (gs : List Text) → Covers gs (star ∷ []) → gs ≡ star ∷ []
only_star [] h = absurd h
only_star (g ∷ gs) (inl (a, b)) = ground arith
only_star (g ∷ gs) (inr (c, t)) = let e = Covers-nothing gs t in ground arith

Covers-star : (p : Permission) → Covers (split p) (split star) → p ≡ star
unfolding split
Covers-star p h = split_single p star (only_star (split p) h)

-- `grants` decides the specification: `*` grants everything, and otherwise the segments of the
-- granted permission cover those of the required one, a last `*` covering one or more.
pub grants_iff :
    (p q : Permission) → (grants p q ≡ true) ↔ ((p ≡ star) ⊎ Covers (split p) (split q))
grants_iff p q = grants-Covers p q

-- Every permission grants itself, and granting is transitive: what a granted permission covers as a
-- permission of its own, it covers.
pub grants_preorder :
    (p q r : Permission)
    → (grants p p ≡ true) × (grants p q ≡ true → grants q r ≡ true → grants p r ≡ true)
grants_preorder p q r = (
  (grants_iff p p).1 (inr (Covers-refl (split p))),
  λ h k. (grants_iff p r).1 (compose ((grants_iff p q).0 h) ((grants_iff q r).0 k)),
)
  where
    compose :
        (p ≡ star) ⊎ Covers (split p) (split q)
        → (q ≡ star) ⊎ Covers (split q) (split r)
        → (p ≡ star) ⊎ Covers (split p) (split r)
    compose (inl a) k = inl a
    compose (inr a) (inl b) = inl (Covers-star p (subst (λ u. Covers (split p) (split u)) b a))
    compose (inr a) (inr b) = inr (Covers-trans (split p) (split q) (split r) a b)
