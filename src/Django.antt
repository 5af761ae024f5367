-- ===== src/Django.antt =====
-- What the code uses of Django, as a parameter: the cache, and the database connection with its
-- transactions, queries and rows. The types are abstract. `view` says what the connection shows,
-- and the laws are the documented behaviour that the code relies on.
mod Data
pub use Data.*
use django_logic.Prelude.{
  ℕ, ◌≡◌, Bool, true, false, ◌||◌, Option, none, some, List, [], ◌∷◌, ◌++◌, any, ◌==◌, update,
  if◌then◌else◌,
}
use django_logic.Errors.{Error}

-- The tables and the transaction flags as one connection sees them.
pub record View : Type 0 where
  -- the `TransitionMessage` rows
  pub rows : List Message
  -- the state columns of the model rows; `none` where there is no such row
  pub columns : ℕ → Option Name
  -- `run_on_commit`
  pub hooks : List OnCommit
  pub in_atomic_block : Bool
  pub needs_rollback : Bool

pub record Django : Type 1 where
  pub settings : Settings
  -- django.core.cache: `cache.add(key, token, timeout)`, `cache.get`, `cache.delete`
  pub Cache : Type 0
  pub add : ℕ → ℕ → ℕ → Cache → Bool × Cache
  pub get : ℕ → Cache → Option ℕ
  pub delete : ℕ → Cache → Cache
  pub add_free :
      (k t n : ℕ) (c : Cache)
      → get k c ≡ none
      → ((add k t n c).0 ≡ true) × (get k (add k t n c).1 ≡ some t)
  pub add_held : (k t n : ℕ) (c : Cache) {u : ℕ} → get k c ≡ some u → add k t n c ≡ (false, c)
  pub add_other : (k j t n : ℕ) (c : Cache) → (j == k) ≡ false → get j (add k t n c).1 ≡ get j c
  pub get-delete : (k j : ℕ) (c : Cache) → get j (delete k c) ≡ (if j == k then none else get j c)
  pub Conn : Type 0
  pub view : Conn → View
  -- `transaction.atomic()`: `__enter__`, and `__exit__` with whether an exception leaves the block,
  -- the connection at entry and at the end of the block; `fired` are the hooks that exit runs.
  pub enter : Conn → Conn
  pub exit : Bool → Conn → Conn → Conn
  pub fired : Bool → Conn → Conn → List OnCommit
  pub enter_lem :
      (c : Conn)
      → (view c).needs_rollback ≡ false
      → view (enter c) ≡ record (view c) { in_atomic_block = true }
  -- The law of a rollback speaks of the connection's own writes: a commit of another connection that
  -- `wait` made visible inside the block is not followed through the rollback.
  pub exit_rollback :
      (r : Bool) (c c' : Conn)
      → (view c).needs_rollback ≡ false
      → (r || (view c').needs_rollback) ≡ true
      → (view (exit r c c') ≡ view c) × (fired r c c' ≡ [])
  pub exit_commit :
      (c c' : Conn)
      → (view c').needs_rollback ≡ false
      → (view (exit false c c') ≡ record (view c') {
        in_atomic_block = (view c).in_atomic_block;
        hooks = if (view c).in_atomic_block then (view c').hooks else [];
      })
        × (fired false c c' ≡ (if (view c).in_atomic_block then [] else (view c').hooks))
  -- `transaction.on_commit` inside a block
  pub on_commit : OnCommit → Conn → Conn
  pub on_commit_lem :
      (h : OnCommit) (c : Conn)
      → view (on_commit h c) ≡ record (view c) { hooks = (view c).hooks ++ h ∷ [] }
  -- What a query raises on this connection, if anything.
  pub ready : Conn → Option Error
  pub ready_lem : (c : Conn) → (view c).needs_rollback ≡ false → ready c ≡ none
  -- `instance.save(update_fields=[field_name])`: what it raises, if anything
  pub save : ℕ → Name → Conn → Option Error × Conn
  pub save_ok :
      (k : ℕ) (n : Name) (c : Conn)
      → (save k n c).0 ≡ none
      → view (save k n c).1 ≡ record (view c) { columns = update (view c).columns k (some n) }
  pub save_refused :
      (k : ℕ) (n : Name) (c : Conn) {e : Error}
      → (save k n c).0 ≡ some e
      → view (save k n c).1
        ≡ record (view c) { needs_rollback = (view (save k n c).1).needs_rollback }
  -- A statement that writes the rows of `TransitionMessage`.
  pub put_rows : List Message → Conn → Conn
  pub put_rows_lem :
      (ms : List Message) (c : Conn) → view (put_rows ms c) ≡ record (view c) { rows = ms }
  -- `mark_for_rollback_on_error`
  pub mark_for_rollback : Conn → Conn
  pub mark_for_rollback_lem :
      (c : Conn)
      → view (mark_for_rollback c) ≡ record (view c) { needs_rollback = (view c).in_atomic_block }
  -- An insert that conflicts with another connection's open transaction waits for it: the
  -- connection after that wait, in which the other's writes are visible.
  pub wait : Message → Conn → Conn
  pub wait_lem :
      (m : Message) (c : Conn)
      → view (wait m c)
        ≡ record (view c) { rows = (view (wait m c)).rows; columns = (view (wait m c)).columns }
  -- The primary key that the next insert is given.
  pub next_pk : Conn → ℕ
  pub next_pk_fresh : (c : Conn) → any (λ m. m.pk == next_pk c) (view c).rows ≡ false
  -- Whether another connection holds the lock of a `TransitionMessage` row.
  pub row_locked : ℕ → Conn → Bool
