-- ===== src/Sample.antt =====
-- An in-memory Django that meets the laws: a cache as a function, and a connection whose blocks
-- keep the view at their entry. `refuses` is the database's or the model's refusal of a write, and
-- `lands` what another connection commits while an insert waits.
pub mod Site
pub mod Tree
use django_logic.Prelude.{
  ℕ, zero, suc, ◌+◌, ◌≤◌, ◌<◌, max, ◌≡◌, refl, Bool, true, false, ◌||◌, Option, none, some, List,
  [], ◌∷◌, ◌++◌, any, ◌==◌, update, arith, if◌then◌else◌,
}
use django_logic.Errors.{Error, transaction_management}
use django_logic.Django.{Django, View, Name, Message, OnCommit, Settings}

pub record Connection : Type 0 where
  pub seen : View
  pub refuses : ℕ → Name → Option Error
  pub locked : ℕ → Bool

abbrev pub Cells : Type 0
Cells = ℕ → Option ℕ

abbrev pub add_cell : ℕ → ℕ → ℕ → Cells → Bool × Cells
add_cell k t n c = elim (c k) [ none ↦ (true, update c k (some t)) | some _ ↦ (false, c) ]

abbrev pub delete_cell : ℕ → Cells → Cells
delete_cell k c j = if j == k then none else c j

abbrev pub rolled_back : Bool → Connection → Bool
rolled_back raised c = raised || c.seen.needs_rollback

abbrev pub leave : Bool → Connection → Connection → Connection
leave raised c c' = record c' {
  seen = if rolled_back raised c' then c.seen else record c'.seen {
    in_atomic_block = c.seen.in_atomic_block;
    hooks = if c.seen.in_atomic_block then c'.seen.hooks else [];
  };
}

abbrev pub leaving : Bool → Connection → Connection → List OnCommit
leaving raised c c' = if rolled_back raised c' || c.seen.in_atomic_block then [] else c'.seen.hooks

abbrev pub write : ℕ → Name → Connection → Option Error × Connection
write k n c = elim (c.refuses k n) [
  | none ↦ (none, record c { seen = record c.seen { columns = update c.seen.columns k (some n) } })
  | some e ↦ (some e, record c { seen = record c.seen { needs_rollback = true } })
]

abbrev pub top : List Message → ℕ
top [] = 0
top (m ∷ ms) = max m.pk (top ms)

above_top : (n : ℕ) (ms : List Message) → top ms < n → any (λ m. m.pk == n) ms ≡ false
above_top n [] h = refl
above_top n (m ∷ ms) h = ground (arith, above_top n ms)

pub next_pk_fresh : (c : Connection) → any (λ m. m.pk == suc (top c.seen.rows)) c.seen.rows ≡ false
next_pk_fresh c = above_top (suc (top c.seen.rows)) c.seen.rows (omega arith)

pub add_free :
    (k t n : ℕ) (c : Cells)
    → c k ≡ none
    → ((add_cell k t n c).0 ≡ true) × ((add_cell k t n c).1 k ≡ some t)
add_free k t n c h = ground arith

pub add_held : (k t n : ℕ) (c : Cells) {u : ℕ} → c k ≡ some u → add_cell k t n c ≡ (false, c)
add_held k t n c h = rw (h, add_cell)

pub add_other : (k j t n : ℕ) (c : Cells) → (j == k) ≡ false → (add_cell k t n c).1 j ≡ c j
add_other k j t n c h = ground arith

pub exit_rollback :
    (r : Bool) (c c' : Connection)
    → c.seen.needs_rollback ≡ false
    → (r || c'.seen.needs_rollback) ≡ true
    → ((leave r c c').seen ≡ c.seen) × (leaving r c c' ≡ [])
exit_rollback r c c' h b = (rw b, rw b)

pub exit_commit :
    (c c' : Connection)
    → c'.seen.needs_rollback ≡ false
    → ((leave false c c').seen ≡ record c'.seen {
      in_atomic_block = c.seen.in_atomic_block;
      hooks = if c.seen.in_atomic_block then c'.seen.hooks else [];
    })
      × (leaving false c c' ≡ (if c.seen.in_atomic_block then [] else c'.seen.hooks))
exit_commit c c' h = (rw h, rw h)

pub save_ok :
    (k : ℕ) (n : Name) (c : Connection)
    → (write k n c).0 ≡ none
    → (write k n c).1.seen ≡ record c.seen { columns = update c.seen.columns k (some n) }
save_ok k n c h = ground arith

pub save_refused :
    (k : ℕ) (n : Name) (c : Connection) {e : Error}
    → (write k n c).0 ≡ some e
    → (write k n c).1.seen ≡ record c.seen { needs_rollback = (write k n c).1.seen.needs_rollback }
save_refused k n c h = ground arith

module _ (settings : Settings) (lands : Message → View → View) where
  abbrev pub in_memory : Django
  in_memory = record {
    settings = settings;
    Cache = Cells;
    add = add_cell;
    get = λ k c. c k;
    delete = delete_cell;
    add_free = add_free;
    add_held = add_held;
    add_other = add_other;
    get-delete = λ k j c. refl;
    Conn = Connection;
    view = λ c. c.seen;
    enter = λ c. record c { seen = record c.seen { in_atomic_block = true } };
    exit = leave;
    fired = leaving;
    enter_lem = λ c h. refl;
    exit_rollback = exit_rollback;
    exit_commit = exit_commit;
    on_commit = λ h c. record c { seen = record c.seen { hooks = c.seen.hooks ++ h ∷ [] } };
    on_commit_lem = λ h c. refl;
    ready = λ c. if c.seen.needs_rollback then some transaction_management else none;
    ready_lem = λ c h. rw h;
    save = write;
    save_ok = save_ok;
    save_refused = save_refused;
    put_rows = λ ms c. record c { seen = record c.seen { rows = ms } };
    put_rows_lem = λ ms c. refl;
    mark_for_rollback =
        λ c. record c { seen = record c.seen { needs_rollback = c.seen.in_atomic_block } };
    mark_for_rollback_lem = λ c. refl;
    wait = λ m c. record c {
      seen = record c.seen { rows = (lands m c.seen).rows; columns = (lands m c.seen).columns };
    };
    wait_lem = λ m c. refl;
    next_pk = λ c. suc (top c.seen.rows);
    next_pk_fresh = next_pk_fresh;
    row_locked = λ pk c. c.locked pk;
  }
