-- ===== src/Data/Outbox/Relay.antt =====
-- One pass of the relay over an outbox.
use rust_libraries.Prelude.{
  ℕ, ◌≤◌, ◌≡◌, refl, sym, ◌∙◌, ap, inl, inr, Bool, true, false, not, List, [], ◌∷◌, ◌++◌, map,
  length, keep, if◌then◌else◌, contains, nat_eq, All, All-take, All-keep, arith, Bool-cases,
  length-map, length-take,
}
use rust_libraries.Prelude.Sort.{sort_by, IsSorted, sort_by-IsSorted, take-IsSorted, All-sort_by}
use rust_libraries.Time.{Timestamp}
use rust_libraries.Data.Outbox.{
  OutboxId, OutboxEntry, InMemoryOutbox, OutboxRelay, id_le, is_unpublished, fetch_unpublished,
  mark_published, publish_all, drain, is_nil,
}

module _ {P : Type 0} where
  -- The entries that none of these ids names.
  abbrev pub unnamed : List OutboxId → List (OutboxEntry P) → List (OutboxEntry P)
  unnamed ids = keep (λ e. not (contains e.id ids))

  abbrev pub ids_of : List (OutboxEntry P) → List OutboxId
  ids_of = map (λ e. e.id)

  id_le_trans : (a b c : OutboxEntry P) → id_le a b ≡ true → id_le b c ≡ true → id_le a c ≡ true
  id_le_trans a b c h k = ground arith

  id_le_total : (a b : OutboxEntry P) → id_le a b ≡ false → id_le b a ≡ true
  id_le_total a b h = ground arith

  -- The fetched entries are unpublished, ordered by id, and at most `limit`.
  pub fetch_unpublished_lem :
      (outbox : InMemoryOutbox P) (limit : ℕ)
      → All (λ e. is_unpublished e ≡ true) (fetch_unpublished outbox limit)
        × IsSorted id_le (fetch_unpublished outbox limit)
        × (length (fetch_unpublished outbox limit) ≤ limit)
  unfolding fetch_unpublished
  fetch_unpublished_lem outbox limit =
      let waiting = keep is_unpublished outbox in
      (
        All-take _ limit (sort_by id_le waiting)
            (All-sort_by _ id_le waiting (All-keep is_unpublished outbox)),
        take-IsSorted id_le limit (sort_by id_le waiting)
            (sort_by-IsSorted id_le id_le_trans id_le_total waiting),
        omega (arith, length-take limit (sort_by id_le waiting)),
      )

  -- Marking ids published takes exactly their entries out of the unpublished ones.
  pub mark_published-unpublished :
      (outbox : InMemoryOutbox P) (now : Timestamp) (ids : List OutboxId)
      → keep is_unpublished (mark_published outbox now ids)
        ≡ unnamed ids (keep is_unpublished outbox)
  unfolding mark_published
  mark_published-unpublished [] now ids = refl
  mark_published-unpublished (e ∷ outbox) now ids =
      ground (arith, mark_published-unpublished outbox now ids)

  unnamed_nil : (es : List (OutboxEntry P)) → unnamed [] es ≡ es
  unnamed_nil [] = refl
  unnamed_nil (e ∷ es) = ap (λ r. e ∷ r) (unnamed_nil es)

  module _ {W : Type 0} (publish : W → OutboxEntry P → W × Bool) where
    -- The publisher accepts these entries one after the other.
    abbrev pub Accepts : W → List (OutboxEntry P) → W → Type 0
    Accepts w [] v = w ≡ v
    Accepts w (e ∷ es) v = (u : W) × (publish w e ≡ (u, true)) × Accepts u es v

    -- Nothing is left, or the publisher refuses the first of what is left.
    abbrev pub Stops : W → List (OutboxEntry P) → W → Type 0
    Stops v [] u = v ≡ u
    Stops v (e ∷ es) u = publish v e ≡ (u, false)

    accepted :
        (w u : W) (e : OutboxEntry P) (es : List (OutboxEntry P))
        → publish w e ≡ (u, true)
        → publish_all publish w (e ∷ es)
          ≡ ((publish_all publish u es).0, e.id ∷ (publish_all publish u es).1)
    unfolding publish_all
    accepted w u e es h = ground arith

    refused :
        (w u : W) (e : OutboxEntry P) (es : List (OutboxEntry P))
        → publish w e ≡ (u, false)
        → publish_all publish w (e ∷ es) ≡ (u, [])
    unfolding publish_all
    refused w u e es h = ground arith

    publish_all_lem :
        (w : W) (entries : List (OutboxEntry P))
        → (shipped left : List (OutboxEntry P)) × (v u : W) × (entries ≡ shipped ++ left)
          × Accepts w shipped v
          × Stops v left u
          × (publish_all publish w entries ≡ (u, ids_of shipped))
    unfolding publish_all
    publish_all_lem w [] = ([], [], w, w, refl, refl, refl, refl)
    publish_all_lem w (e ∷ es) = elim (Bool-cases (publish w e).1) [
      | inl h ↦
          let u = (publish w e).0 in
          let s : publish w e ≡ (u, true) = ground arith in
          let (shipped, left, v, x, cut, acc, stop, same) = publish_all_lem u es in
          (
            e ∷ shipped,
            left,
            v,
            x,
            ap (λ r. e ∷ r) cut,
            (u, s, acc),
            stop,
            accepted w u e es s ∙ ap (λ r. (r.0, e.id ∷ r.1)) same,
          )
      | inr h ↦
          let u = (publish w e).0 in
          let s : publish w e ≡ (u, false) = ground arith in
          ([], e ∷ es, w, u, refl, refl, s, refused w u e es s)
    ]

    left_after :
        (outbox : InMemoryOutbox P) (now : Timestamp) (ids : List OutboxId)
        → keep is_unpublished (if is_nil ids then outbox else mark_published outbox now ids)
          ≡ unnamed ids (keep is_unpublished outbox)
    left_after outbox now [] = sym (unnamed_nil (keep is_unpublished outbox))
    left_after outbox now (i ∷ ids) = mark_published-unpublished outbox now (i ∷ ids)

    -- A pass publishes a prefix of the fetched entries, in their order: it ends at the end of them
    -- or at the first that the publisher refuses. It returns the length of the prefix, and exactly
    -- the entries with the ids of the prefix leave the unpublished ones; all others are retried.
    pub drain_lem :
        (r : OutboxRelay) (outbox : InMemoryOutbox P) (now : Timestamp) (w : W)
        → (shipped left : List (OutboxEntry P)) × (v u : W) × (after : InMemoryOutbox P)
          × (fetch_unpublished outbox r.batch_size ≡ shipped ++ left)
          × Accepts w shipped v
          × Stops v left u
          × (drain publish r outbox now w ≡ (after, u, length shipped))
          × (keep is_unpublished after ≡ unnamed (ids_of shipped) (keep is_unpublished outbox))
    unfolding drain
    drain_lem r outbox now w =
        let (shipped, left, v, u, cut, acc, stop, same) =
          publish_all_lem w (fetch_unpublished outbox r.batch_size) in
        let ids = ids_of shipped in
        (
          shipped,
          left,
          v,
          u,
          if is_nil ids then outbox else mark_published outbox now ids,
          cut,
          acc,
          stop,
          ap (λ s. (if is_nil s.1 then outbox else mark_published outbox now s.1, s.0, length s.1))
                same
              ∙ ap (λ n. (if is_nil ids then outbox else mark_published outbox now ids, u, n))
                  (length-map (λ e. e.id) shipped),
          left_after outbox now ids,
        )
