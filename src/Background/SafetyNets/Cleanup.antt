-- ===== src/Background/SafetyNets/Cleanup.antt =====
-- What the cleanup sweep leaves: for each parked instance, the newest failure that parked it.
use django_logic.Prelude.{
  ℕ, ◌+◌, ◌≡◌, refl, ap, ◌∙◌, fun_ext, Bool, true, false, not, ◌&&◌, Option, none, some, List, [],
  ◌∷◌, filter, Among, Among-filter, Among-of-filter, Bool-cases, ==_refl, subst⁻¹, inl, inr, arith,
}
use django_logic.Exec.{ok}
use django_logic.Django.{Django, Settings, Message}
use django_logic.World.{World, sees}
use django_logic.Atomic.Laws.{
  IsHealthy, entered, query-healthy, change_rows-healthy, with_atomic-kept, sees-entered,
}
use django_logic.Background.SafetyNets.{
  length, days, ltb, is_after, is_newer, newer_of, first_of, is_failure_of, has_pk_of, is_swept,
  delete_rows, cleanup_completed_transitions,
}

is_after_irreflexive : (a : Option ℕ) (x : ℕ) → is_after a x a x ≡ false
is_after_irreflexive none x = ground arith
is_after_irreflexive (some a) x = ground arith

is_after_asymmetric :
    (a b : Option ℕ) (x y : ℕ) → is_after a x b y ≡ true → is_after b y a x ≡ false
is_after_asymmetric none none x y h = ground arith
is_after_asymmetric none (some b) x y h = refl
is_after_asymmetric (some a) none x y h = cc
is_after_asymmetric (some a) (some b) x y h = ground arith

is_after_transitive :
    (a b c : Option ℕ) (x y z : ℕ)
    → is_after a x b y ≡ false
    → is_after b y c z ≡ false
    → is_after a x c z ≡ false
is_after_transitive none none none x y z h k = ground arith
is_after_transitive none none (some c) x y z h k = cc
is_after_transitive none (some b) c x y z h k = cc
is_after_transitive (some a) none none x y z h k = refl
is_after_transitive (some a) none (some c) x y z h k = cc
is_after_transitive (some a) (some b) none x y z h k = refl
is_after_transitive (some a) (some b) (some c) x y z h k = ground arith

newer_of_newer :
    (m k : Message) (o : Option Message) → o ≡ some k → is_newer k m ≡ true → newer_of m o ≡ k
newer_of_newer m k o e b = rw (e, b) refl

newer_of_older :
    (m k : Message) (o : Option Message) → o ≡ some k → is_newer k m ≡ false → newer_of m o ≡ m
newer_of_older m k o e b = rw (e, b) refl

-- The first row of the order is no older than any.
first_of_lem :
    (xs : List Message) (r : Message)
    → Among r xs
    → (k : Message) × (first_of xs ≡ some k) × Among k xs × (is_newer r k ≡ false)
unfolding first_of
first_of_lem [] r a = absurd a
first_of_lem (m ∷ []) r (inl e) = (
  m,
  refl,
  inl refl,
  subst⁻¹ (λ x. is_newer x m ≡ false) e (is_after_irreflexive m.completed_at m.pk),
)
first_of_lem (m ∷ n ∷ ms) r (inl e) =
    let (k, h, among, _) = first_of_lem (n ∷ ms) n (inl refl) in
    elim (Bool-cases (is_newer k m)) [
      | inl b ↦ (
        k,
        ap some (newer_of_newer m k (first_of (n ∷ ms)) h b),
        inr among,
        subst⁻¹ (λ x. is_newer x k ≡ false) e
            (is_after_asymmetric k.completed_at m.completed_at k.pk m.pk b),
      )
      | inr b ↦ (
        m,
        ap some (newer_of_older m k (first_of (n ∷ ms)) h b),
        inl refl,
        subst⁻¹ (λ x. is_newer x m ≡ false) e (is_after_irreflexive m.completed_at m.pk),
      )
    ]
first_of_lem (m ∷ ms) r (inr a) =
    let (k, h, among, newest) = first_of_lem ms r a in
    elim (Bool-cases (is_newer k m)) [
      | inl b ↦ (k, ap some (newer_of_newer m k (first_of ms) h b), inr among, newest)
      | inr b ↦ (
        m,
        ap some (newer_of_older m k (first_of ms) h b),
        inl refl,
        is_after_transitive r.completed_at k.completed_at m.completed_at r.pk k.pk m.pk newest b,
      )
    ]

-- A failure of the same instance and process.
pub record SameParking (r k : Message) : Type 0 where
  pub is_completed : k.is_completed ≡ true
  pub ended_in_failure : k.ended_in_failure ≡ true
  pub instance_of : k.instance ≡ r.instance
  pub process_name : k.process_name ≡ r.process_name

SameParking-is_failure_of : (r k : Message) → is_failure_of r k ≡ true → SameParking r k
unfolding is_failure_of
SameParking-is_failure_of r k h = record {
  is_completed = ground (arith, h);
  ended_in_failure = ground (arith, h);
  instance_of = ground (arith, h);
  process_name = ground (arith, h);
}

is_failure_of-same : (r k : Message) → SameParking r k → is_failure_of k ≡ is_failure_of r
unfolding is_failure_of
is_failure_of-same r k s = fun_ext λ m. rw (s.instance_of, s.process_name) refl

-- The newest failure is not swept.
spared :
    (old failed : Bool) (o : Option Message) (k : Message)
    → failed ≡ true
    → o ≡ some k
    → not (old && not (failed && has_pk_of o k)) ≡ true
spared true failed o k f e = rw (f, e, ==_refl k.pk) refl
spared false failed o k f e = refl

is_failure_of_self :
    (r : Message) → r.is_completed ≡ true → r.ended_in_failure ≡ true → is_failure_of r r ≡ true
unfolding is_failure_of
is_failure_of_self r c f = rw (c, f, ==_refl r.instance, ==_refl r.process_name) refl

module _ (settings : Settings) (now : ℕ) (rows : List Message) where
  abbrev pub swept_rows : List Message
  swept_rows = filter (λ m. not (is_swept settings now rows m)) rows

  swept_rows-parked :
      (r : Message)
      → Among r rows
      → r.is_completed ≡ true
      → r.ended_in_failure ≡ true
      → (k : Message) × Among k swept_rows × SameParking r k × (is_newer r k ≡ false)
  unfolding is_swept
  swept_rows-parked r a c f =
      let (k, h, among, newest) =
        first_of_lem (filter (is_failure_of r) rows) r
          (Among-filter (is_failure_of r) rows r a (is_failure_of_self r c f)) in
      let (stored, failure) = Among-of-filter (is_failure_of r) rows k among in
      let same = SameParking-is_failure_of r k failure in
      (
        k,
        Among-filter (λ m. not (is_swept settings now rows m)) rows k stored
            (spared (k.is_completed && ltb (k.modified + days settings.cleanup_days) now)
              k.ended_in_failure (first_of (filter (is_failure_of k) rows)) k same.ended_in_failure
              (ap (λ p. first_of (filter p rows)) (is_failure_of-same r k same) ∙ h)),
        same,
        newest,
      )

module _ {d : Django} (w : World d) (healthy : IsHealthy w) where
  abbrev deleted : World d
  deleted = record (entered w) {
    conn = d.put_rows (swept_rows d.settings w.now (sees w).rows) (entered w).conn;
  }

  entered-IsHealthy : IsHealthy (entered w)
  entered-IsHealthy = rw (sees-entered w healthy) healthy

  delete_rows-eq :
      delete_rows (is_swept d.settings w.now) (entered w)
      ≡ (ok (length (filter (is_swept d.settings w.now (sees w).rows) (sees w).rows)), deleted)
  unfolding delete_rows
  delete_rows-eq =
      let e = sees-entered w healthy in
      rw
        (
          query-healthy (entered w) entered-IsHealthy,
          change_rows-healthy (λ rows. filter (λ m. not (is_swept d.settings w.now rows m)) rows)
              (entered w) entered-IsHealthy,
          e,
        )
        refl

  cleanup-rows :
      ((cleanup_completed_transitions w).0
        ≡ ok (length (filter (is_swept d.settings w.now (sees w).rows) (sees w).rows)))
      × ((sees (cleanup_completed_transitions w).1).rows
          ≡ swept_rows d.settings w.now (sees w).rows)
  unfolding cleanup_completed_transitions
  cleanup-rows =
      let put = d.put_rows_lem (swept_rows d.settings w.now (sees w).rows) (entered w).conn in
      let h : IsHealthy deleted = rw put entered-IsHealthy in
      let kept =
        with_atomic-kept (delete_rows (is_swept d.settings w.now)) w _ deleted delete_rows-eq h in
      (kept.0, kept.1 ∙ ap (λ v. v.rows) put)

  -- On a healthy connection, after the sweep there is, for each completed failure that was
  -- stored, a completed failure of the same instance and process that is no older than it.
  pub cleanup-parked :
      (r : Message)
      → Among r (sees w).rows
      → r.is_completed ≡ true
      → r.ended_in_failure ≡ true
      → (k : Message) × Among k (sees (cleanup_completed_transitions w).1).rows
        × SameParking r k
        × (is_newer r k ≡ false)
  cleanup-parked r a c f =
      let (k, among, same, newest) = swept_rows-parked d.settings w.now (sees w).rows r a c f in
      (k, subst⁻¹ (Among k) cleanup-rows.1 among, same, newest)

  -- A row that is uncompleted, or written within `CLEANUP_DAYS`, stays.
  pub cleanup-recent :
      (r : Message)
      → Among r (sees w).rows
      → (r.is_completed && ltb (r.modified + days d.settings.cleanup_days) w.now) ≡ false
      → Among r (sees (cleanup_completed_transitions w).1).rows
  unfolding is_swept
  cleanup-recent r a young = subst⁻¹ (Among r) cleanup-rows.1 (
      Among-filter (λ m. not (is_swept d.settings w.now (sees w).rows m)) (sees w).rows r a
        (rw young refl))
