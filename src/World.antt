-- ===== src/World.antt =====
-- What one process of the program works on: Django's cache and connection, the Python objects that
-- the engine changes, the clock and the supply of `uuid4`.
use django_logic.Prelude.{ℕ, Option, none, some, List, update}
use django_logic.Exec.{ok, err, Exec, ◌>>=◌, modify}
use django_logic.Django.{Django, View, Name, State, Message}

pub record World (d : Django) : Type 0 where
  pub cache : d.Cache
  pub conn : d.Conn
  -- `State._lock_token` of each State object
  pub tokens : ℕ → Option ℕ
  -- the attribute `field_name` of each instance object
  pub memory : ℕ → Name
  -- `conn._dl_deferred_unlocks`
  pub registry : List State
  -- the next `uuid4().hex`
  pub supply : ℕ
  -- `timezone.now()`, in milliseconds
  pub now : ℕ

abbrev pub M : Django → Type 0 → Type 0
M d A = Exec (World d) A

module _ {d : Django} where
  -- What the connection shows.
  abbrev pub sees : World d → View
  sees w = d.view w.conn

  -- A query runs, or raises what the connection makes it raise.
  unfoldable pub query : M d View
  query w = elim (d.ready w.conn) [ none ↦ (ok (sees w), w) | some e ↦ (err e, w) ]

  -- A statement on the rows of `TransitionMessage`.
  unfoldable pub change_rows : (List Message → List Message) → M d Unit
  unfolding query
  change_rows f = do v ← query; modify λ w. record w { conn = d.put_rows (f v.rows) w.conn }

  -- `setattr(instance, field_name, value)`
  unfoldable pub put_attribute : State → Name → M d Unit
  put_attribute s n = modify λ w. record w { memory = update w.memory s.attribute n }
