-- ===== src/Background/Engine/Lifecycle.antt =====
-- A background transition from the call of its name to the commit of the attempt that finishes it.
use django_logic.Prelude.{
  ℕ, zero, suc, ◌-◌, subst, ◌≡◌, refl, sym, ap, ◌∙◌, inl, inr, Bool, true, false, none, some, List,
  [], ◌∷◌, ◌++◌, any, elem, find, truthy, update_self, Bool-cases, ==_refl, arith, if◌then◌else◌,
  Option,
}
use django_logic.Exec.{ok}
use django_logic.Values.{Entries}
use django_logic.Django.{Django, Name, State, Message}
use django_logic.World.{World, sees}
use django_logic.Atomic.Laws.{IsHealthy, entered}
use django_logic.Message.{stamp, stamp_attempt_started}
use django_logic.Message.Stamping.{stamp_attempt_started-Stamped}
use django_logic.Message.Rows.{has_pk, row_of}
use django_logic.Serializers.Kwargs.{deserialize_kwargs}
use django_logic.Process.{
  Declared, in_background, resolve_transition_with_owner, validate_unique_background_action_names,
}
use django_logic.Process.Validation.{IsFinite}
use django_logic.Transition.{Transition}
use django_logic.Background.Deployment.{Work}
use django_logic.Background.Handlers.{execute_attempt, is_background_action, guard_accepts}
use django_logic.Background.Runner.{run_atomic}
use django_logic.Background.Enqueue.{Submission, new_row, enqueue_atomic}
use django_logic.Background.Enqueue.Acceptance.{added, inserted, in_progress_or}
use django_logic.Background.Enqueue.Admission.{
  submitted, after_wait, is_taken, enqueue_atomic-accepted,
}
use django_logic.Background.Restoration.{restore}
use django_logic.Background.Restoration.Owner.{
  HasPaths, IsVersion, stamp-IsVersion, restore-resolve,
}
use django_logic.Background.Whole.{IsRunnable, through, run_atomic-finished}
use django_logic.Background.Engine.{Installation, accessor, deployment_by, deployment}

find-append :
    {A : Type 0} (p : A → Bool) (xs ys : List A) → any p xs ≡ false → find p (xs ++ ys) ≡ find p ys
find-append p [] ys h = refl
find-append p (x ∷ xs) ys h = ground (arith, find-append p xs ys, h)

module _ {d : Django} (site : Installation d) where
  -- A row that is restored gives its transition, on the State object of its own process.
  abbrev pub work_of : ℕ → Declared d → Message → Work d
  work_of c t m = record {
    transition = t.transition;
    state = site.state_of m;
    process =
        accessor site site.program.depth c (site.state_of m) (site.user_of m) (site.kwargs_of m);
  }

  restoring :
      (m : Message) (c : ℕ) (t : Declared d) (w : World d)
      → restore site.program site.answers m ≡ ok (c, t)
      → (deployment site).restore m w ≡ (ok (work_of c t m), w)
  unfolding deployment deployment_by
  restoring m c t w e = rw e refl

  decoding :
      (m : Message) (w : World d) (kwargs : Entries)
      → deserialize_kwargs site.python site.find_user (site.column m) ≡ ok kwargs
      → (deployment site).decode m w ≡ (ok tt, w)
  unfolding deployment deployment_by
  decoding m w kwargs e = rw e refl

-- The state in which an accepted enqueue leaves the instance.
abbrev pub placed : Name → Name → Name
placed in_progress current = if truthy in_progress then in_progress else current

placed-guarded :
    (in_progress : Name) (sources : List Name) (current : Name)
    → elem current sources ≡ true
    → guard_accepts in_progress sources (placed in_progress current) ≡ true
placed-guarded zero sources current h = h
placed-guarded (suc n) sources current h = ==_refl (suc n)

module _ {d : Django} (t : Transition d) (s : State) where
  column-placed :
      (columns : ℕ → Option Name) (current : Name)
      → columns s.instance_key ≡ some current
      → in_progress_or t s columns s.instance_key ≡ some (placed t.in_progress_state current)
  column-placed columns current h = elim (Bool-cases (truthy t.in_progress_state)) [
    | inl e ↦ rw e (update_self columns s.instance_key (some t.in_progress_state))
    | inr e ↦ rw e h
  ]

  module _ (sub : Submission d) (w : World d) (kwargs : List ℕ) where
    -- The row that enqueue inserts.
    abbrev pub enqueued : Message
    enqueued = inserted (entered w) (submitted t s sub w kwargs)

    -- The instance is in a source state and without an uncompleted row once the insert has
    -- waited for other connections, and its in-progress state is saved.
    pub record IsAdmitted (current : Name) : Type 0 where
      pub serializes : sub.serialized ≡ ok kwargs
      pub healthy : IsHealthy w
      pub free : is_taken t s sub w kwargs ≡ false
      pub persisted : (sees (after_wait t s sub w kwargs)).columns s.instance_key ≡ some current
      pub is_source : elem current t.sources ≡ true
      pub saves :
          (d.save s.instance_key t.in_progress_state
            (added (entered w) (submitted t s sub w kwargs)).conn).0
          ≡ none

    enqueued-found :
        row_of enqueued.pk ((sees (after_wait t s sub w kwargs)).rows ++ enqueued ∷ [])
        ≡ some enqueued
    enqueued-found =
        find-append (has_pk enqueued.pk) (sees (after_wait t s sub w kwargs)).rows (enqueued ∷ [])
          (d.next_pk_fresh (after_wait t s sub w kwargs).conn)
        ∙ rw (==_refl enqueued.pk) refl

module _ {d : Django} (site : Installation d) (root : ℕ) (m : Message) (s : State)
    (w' w : World d) where
  -- A worker in the world `w` on what was committed in `w'`: nobody has locked the row, neither when
  -- the attempt is stamped on it nor after that. With the stamp, its arguments decode, its model,
  -- its instance and the process of the recorded class are there, and the instance that the worker
  -- loads is that of `s`.
  pub record IsClaimed : Type 0 where
    pub healthy : IsHealthy w
    pub rows : (sees w).rows ≡ (sees w').rows
    pub columns : (sees w).columns ≡ (sees w').columns
    pub unlocked : d.row_locked m.pk (entered w).conn ≡ false
    pub still_unlocked : d.row_locked m.pk (entered (stamp_attempt_started m.pk w).1).conn ≡ false
    pub raw : Entries
    pub decodes :
        deserialize_kwargs site.python site.find_user (site.column (stamp w.now m)) ≡ ok raw
    pub installed : site.answers.installed (stamp w.now m) ≡ true
    pub exists : site.answers.exists (stamp w.now m) ≡ true
    pub attribute : site.answers.attribute (stamp w.now m) ≡ some root
    pub recorded : site.answers.process_class (stamp w.now m) ≡ (site.program.classes root).path
    pub same_instance : (site.state_of (stamp w.now m)).instance_key ≡ s.instance_key

module _ {d : Django} (site : Installation d) (all : List ℕ) (root : ℕ)
    (finite : IsFinite site.program all root) (paths : HasPaths site.program root)
    (valid : validate_unique_background_action_names site.program root ≡ ok tt) where
  -- A call by name that resolves to a background transition which is no action, its enqueue, where it
  -- is admitted, the stamp of a worker's attempt on the new row, and that attempt, where the
  -- side-effects and the target write of that very transition return and leave the row as it is: what
  -- is committed in the end is the target in the state column, and the row completed, without errors
  -- and with the time since the stamp as its duration.
  pub run_atomic-enqueue_atomic :
      (s : State) (user : Option ℕ) (name : Name) (w w' : World d) (t : Declared d) (c : ℕ)
      (sub : Submission d) (kwargs : List ℕ) (w₁ : World d) (current : Name) (w₂ : World d)
      → resolve_transition_with_owner site.program s user name root w ≡ (ok (t, c), w')
      → in_background t ≡ true
      → is_background_action t.transition.kind ≡ false
      → truthy (site.program.classes c).path ≡ true
      → sub.owning_process_class ≡ (site.program.classes c).path
      → IsAdmitted t.transition s sub w₁ kwargs current
      → let m = enqueued t.transition s sub w₁ kwargs in
        let stamped = stamp w₂.now m in
        let w₃ = (stamp_attempt_started m.pk w₂).1 in
        let state = site.state_of stamped in
        let attempt = execute_attempt t.transition state (through (through (entered w₃))) in
        IsClaimed site root m s (enqueue_atomic t.transition s sub w₁).1 w₂
        → attempt.0 ≡ ok tt
        → row_of m.pk (sees attempt.1).rows ≡ some stamped
        → let w₄ = (run_atomic (deployment site) m.pk w₃).1 in
          ((enqueue_atomic t.transition s sub w₁).0 ≡ ok m)
          × ((stamp_attempt_started m.pk w₂).0 ≡ ok true)
          × ((sees w₄).columns s.instance_key ≡ some t.transition.target)
          × (row : Message) × (row_of m.pk (sees w₄).rows ≡ some row)
          × (row.is_completed ≡ true)
          × (row.ended_in_failure ≡ false)
          × (row.errors_count ≡ 0)
          × (row.duration_ms ≡ some (attempt.1.now - w₂.now))
  run_atomic-enqueue_atomic s user name w w' t c sub kwargs w₁ current w₂ h b na p owner admitted
        claimed done there =
      let tr = t.transition in
      let m = enqueued tr s sub w₁ kwargs in
      let (accepted, rows, columns) =
        enqueue_atomic-accepted tr s sub w₁ kwargs admitted.serializes admitted.healthy current
          admitted.persisted admitted.free admitted.is_source admitted.saves in
      let row : m ≡ new_row tr s (site.program.classes c).path kwargs w₁.now m.pk =
        ap (λ q. new_row tr s q kwargs w₁.now m.pk) owner in
      let stamped = stamp w₂.now m in
      let at_stamp : row_of m.pk (sees w₂).rows ≡ some m =
        ap (row_of m.pk) (claimed.rows ∙ rows) ∙ enqueued-found tr s sub w₁ kwargs in
      let (stamps, v) =
        stamp_attempt_started-Stamped m w₂ claimed.healthy at_stamp refl claimed.unlocked in
      let w₃ = (stamp_attempt_started m.pk w₂).1 in
      let version : IsVersion stamped
          (new_row tr s (site.program.classes c).path kwargs w₁.now m.pk) =
        subst (IsVersion stamped) row (stamp-IsVersion w₂.now m) in
      let restored =
        restore-resolve site.program all root finite paths valid s user name w t c w' kwargs w₁.now
          m.pk site.answers stamped h b p version claimed.installed claimed.exists claimed.attribute
          claimed.recorded in
      let work = work_of site root t stamped in
      let state = site.state_of stamped in
      let now = placed tr.in_progress_state current in
      let guarded = placed-guarded tr.in_progress_state tr.sources current admitted.is_source in
      let there_now : (sees w₃).columns state.instance_key ≡ some now =
        ap (sees w₃).columns claimed.same_instance
        ∙ ap (λ k. k s.instance_key) (v.columns ∙ claimed.columns ∙ columns)
        ∙ column-placed tr s (sees (after_wait tr s sub w₁ kwargs)).columns current
            admitted.persisted in
      let runnable : IsRunnable (deployment site) stamped work w₃ now guarded = record {
        healthy = v.healthy;
        found = v.row;
        uncompleted = refl;
        unlocked = claimed.still_unlocked;
        decodes = decoding site stamped (entered (entered w₃)) claimed.raw claimed.decodes;
        restores = restoring site stamped root t (entered (through (entered w₃))) restored;
        placed = there_now;
      } in
      let (column, _, completed) =
        run_atomic-finished (deployment site) stamped work w₃ now guarded stamped runnable done na
          there in
      (
        accepted,
        stamps,
        sym (ap (sees (run_atomic (deployment site) m.pk w₃).1).columns claimed.same_instance)
            ∙ column,
        _,
        completed,
        refl,
        refl,
        refl,
        refl,
      )
