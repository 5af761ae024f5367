-- ===== src/State/Ownership.antt =====
-- The state lock: whoever took it keeps it until its own `unlock`, whatever the other State objects
-- of the process do meanwhile.
use django_logic.Prelude.{
  ℕ, ◌<◌, suc, update_self, ==_refl, ◌⊎◌, ◌≡◌, true, false, none, some, ◌==◌, ==_iff, update, arith,
  Bool-cases, Option-cases, inl, inr, ◌∙◌, ap, sym,
}
use django_logic.Exec.{ok}
use django_logic.Django.{Django, State}
use django_logic.World.{World}
use django_logic.State.{may_release, lock, unlock}

module _ {d : Django} where
  -- Tokens are fresh: below the supply, and no two State objects have the same one.
  pub record IsFresh (w : World d) : Type 0 where
    pub below : (a t : ℕ) → w.tokens a ≡ some t → t < w.supply
    pub distinct : (a b t : ℕ) → w.tokens a ≡ some t → w.tokens b ≡ some t → a ≡ b

  -- The State object holds the lock: the cache has its token.
  pub record Holds (s : State) (w : World d) : Type 0 where
    pub token : ℕ
    pub kept : w.tokens s.ref ≡ some token
    pub stored : d.get s.instance_key w.cache ≡ some token

  pub lock-held :
      (s : State) (w : World d) (u : ℕ)
      → d.get s.instance_key w.cache ≡ some u
      → lock s w ≡ (ok false, record w { supply = suc w.supply })
  unfolding lock
  lock-held s w u e = rw (d.add_held s.instance_key w.supply d.settings.lock_timeout w.cache e)

  pub lock-free :
      (s : State) (w : World d)
      → d.get s.instance_key w.cache ≡ none
      → lock s w ≡ (
        ok true,
        record w {
          cache = (d.add s.instance_key w.supply d.settings.lock_timeout w.cache).1;
          supply = suc w.supply;
          tokens = update w.tokens s.ref (some w.supply);
        },
      )
  unfolding lock
  lock-free s w e = rw (d.add_free s.instance_key w.supply d.settings.lock_timeout w.cache e).0

  lock-taken : (s : State) (w : World d) → (lock s w).0 ≡ ok true → Holds s (lock s w).1
  lock-taken s w e = elim (Option-cases (d.get s.instance_key w.cache)) [
    | inl free ↦ rw (lock-free s w free) (record {
      token = w.supply;
      kept = update_self w.tokens s.ref (some w.supply);
      stored = (d.add_free s.instance_key w.supply d.settings.lock_timeout w.cache free).1;
    })
    | inr (u, held) ↦ cc (e, lock-held s w u held)
  ]

  -- `lock` keeps tokens fresh, taken or refused.
  lock-IsFresh : (s : State) (w : World d) → IsFresh w → IsFresh (lock s w).1
  lock-IsFresh s w f = elim (Option-cases (d.get s.instance_key w.cache)) [
    | inl free ↦ rw (lock-free s w free) (record {
      below = λ a t e. ground (arith, f.below a t);
      distinct = λ a b t e e'. ground (arith, f.distinct a b t, f.below a t, f.below b t);
    })
    | inr (u, held) ↦
        rw (lock-held s w u held)
          (record { below = λ a t e. ground (arith, f.below a t e); distinct = f.distinct })
  ]

  -- `unlock` removes the token of its own State object, or one that was never taken; a token of
  -- another object stays.
  pub unlock-stale :
      (s : State) (w : World d) (t u : ℕ)
      → w.tokens s.ref ≡ some t
      → d.get s.instance_key w.cache ≡ some u
      → (u == t) ≡ false
      → unlock s w ≡ (ok tt, w)
  unfolding unlock
  unlock-stale s w t u a b e = rw (a, b, e)

  pub unlock-held :
      (s : State) (w : World d) (t : ℕ)
      → w.tokens s.ref ≡ some t
      → d.get s.instance_key w.cache ≡ some t
      → unlock s w ≡ (ok tt, record w { cache = d.delete s.instance_key w.cache })
  unfolding unlock
  unlock-held s w t a b = rw (a, b, ==_refl t)

  pub unlock-shape :
      (s : State) (w : World d)
      → (unlock s w ≡ (ok tt, w))
        ⊎ (unlock s w ≡ (ok tt, record w { cache = d.delete s.instance_key w.cache }))
  unfolding unlock
  unlock-shape s w =
      elim (Bool-cases (may_release (w.tokens s.ref) (d.get s.instance_key w.cache))) [
        | inl e ↦ inr (rw e)
        | inr e ↦ inl (rw e)
      ]

  unlock-IsFresh : (s : State) (w : World d) → IsFresh w → IsFresh (unlock s w).1
  unlock-IsFresh s w f = elim (unlock-shape s w) [
    | inl e ↦ rw e f
    | inr e ↦ rw e (record { below = f.below; distinct = f.distinct })
  ]

  module _ (s other : State) (differs : (s.ref == other.ref) ≡ false) (w : World d) where
    -- A `lock` by another State object leaves the holder its lock.
    lock-Holds : Holds s w → Holds s (lock other w).1
    lock-Holds h = elim (Option-cases (d.get other.instance_key w.cache)) [
      | inl free ↦
          let apart : (s.instance_key == other.instance_key) ≡ false =
            elim (Bool-cases (s.instance_key == other.instance_key)) [
              | inl same ↦ cc (h.stored, free, (==_iff s.instance_key other.instance_key).0 same)
              | inr b ↦ b
            ] in
          rw (lock-free other w free) (record {
            token = h.token;
            kept = rw (differs) h.kept;
            stored =
                d.add_other other.instance_key s.instance_key w.supply d.settings.lock_timeout
                  w.cache apart
                ∙ h.stored;
          })
      | inr (u, held) ↦
          rw (lock-held other w u held)
            (record { token = h.token; kept = h.kept; stored = h.stored })
    ]

    -- So does an `unlock` by another State object that has locked before.
    unlock-Holds :
        (t : ℕ) → IsFresh w → w.tokens other.ref ≡ some t → Holds s w → Holds s (unlock other w).1
    unlock-Holds t f e h = elim (Bool-cases (s.instance_key == other.instance_key)) [
      | inl same ↦
          let key = (==_iff s.instance_key other.instance_key).0 same in
          elim (Bool-cases (h.token == t)) [
            | inl mine ↦ cc (
              differs,
              ==_refl s.ref,
              f.distinct s.ref other.ref t (h.kept ∙ ap some ((==_iff h.token t).0 mine)) e,
            )
            | inr b ↦ rw (unlock-stale other w t h.token e (rw key at h.stored) b) h
          ]
      | inr apart ↦ elim (unlock-shape other w) [
        | inl k ↦ rw k h
        | inr k ↦ rw k (record {
          token = h.token;
          kept = h.kept;
          stored = rw (d.get-delete other.instance_key s.instance_key w.cache, apart) h.stored;
        })
      ]
    ]

  -- What the State objects other than `s` do with their locks: any sequence of `lock` and `unlock`,
  -- of the same key or another, an `unlock` only after a `lock` that was taken.
  pub data Others (s : State) (w' : World d) : World d → Type 0 where
    done : Others s w' w'
    locks :
        {w : World d} (other : State)
        → (s.ref == other.ref) ≡ false
        → Others s w' (lock other w).1
        → Others s w' w
    unlocks :
        {w : World d} (other : State) (t : ℕ)
        → (s.ref == other.ref) ≡ false
        → w.tokens other.ref ≡ some t
        → Others s w' (unlock other w).1
        → Others s w' w

  Others-Holds : (s : State) {w' w : World d} → IsFresh w → Holds s w → Others s w' w → Holds s w'
  Others-Holds s f h done = h
  Others-Holds s {w = w} f h (locks other b rest) =
      Others-Holds s (lock-IsFresh other w f) (lock-Holds s other b w h) rest
  Others-Holds s {w = w} f h (unlocks other t b e rest) =
      Others-Holds s (unlock-IsFresh other w f) (unlock-Holds s other b w t f e h) rest

  -- `unlock` by a State object that never locked, the forced release.
  unlock-forced :
      (s : State) (w : World d)
      → w.tokens s.ref ≡ none
      → unlock s w ≡ (ok tt, record w { cache = d.delete s.instance_key w.cache })
  unfolding unlock
  unlock-forced s w e = rw e

  -- A deleted key is free for the next `lock`.
  lock-deleted :
      (s next : State) (w : World d)
      → next.instance_key ≡ s.instance_key
      → (lock next (record w { cache = d.delete s.instance_key w.cache })).0 ≡ ok true
  lock-deleted s next w same =
      ap (λ r. r.0)
        (lock-free next (record w { cache = d.delete s.instance_key w.cache })
          (d.get-delete s.instance_key next.instance_key w.cache
            ∙ rw (same, ==_refl s.instance_key)))

  -- Mutual exclusion: once a State object has taken the lock, whatever sequence of `lock` and
  -- `unlock` the other State objects run, each `unlock` by an object that has taken a lock before,
  -- every `lock` of the same key is refused and leaves the cache as it is. The next `lock`
  -- succeeds after the `unlock` of the holder, and after that of an object that never took a
  -- lock, which releases by force.
  pub lock-excludes :
      (s : State) (w w' : World d)
      → IsFresh w
      → (lock s w).0 ≡ ok true
      → Others s w' (lock s w).1
      → (next : State) → next.instance_key ≡ s.instance_key
      → (lock next w' ≡ (ok false, record w' { supply = suc w'.supply }))
        × ((lock next (unlock s w').1).0 ≡ ok true)
        × ((stranger : State)
            → stranger.instance_key ≡ s.instance_key
            → w'.tokens stranger.ref ≡ none
            → (lock next (unlock stranger w').1).0 ≡ ok true)
  lock-excludes s w w' f taken others next same =
      let h = Others-Holds s (lock-IsFresh s w f) (lock-taken s w taken) others in
      (
        lock-held next w' h.token (ap (λ k. d.get k w'.cache) same ∙ h.stored),
        rw (unlock-held s w' h.token h.kept h.stored) (lock-deleted s next w' same),
        λ stranger key never.
            rw (unlock-forced stranger w' never) (lock-deleted stranger next w' (same ∙ sym key)),
      )
