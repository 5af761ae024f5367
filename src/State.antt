-- ===== src/State.antt =====
-- state.py: `class State`, the state field of one instance and its lock in the cache.
pub mod Writing
mod Tests
pub mod Ownership
use django_logic.Prelude.{
  ℕ, suc, Bool, true, false, Option, none, some, update, is_some, ◌==◌, if◌then◌else◌,
}
use django_logic.Errors.{does_not_exist}
use django_logic.Exec.{ok, err, pure, raise, ◌>>=◌, ◌>>◌, catch}
use django_logic.Django.{Django, Name, State}
use django_logic.World.{World, M, query, put_attribute}

-- `token is None or cache.get(key) == token`
abbrev pub may_release : Option ℕ → Option ℕ → Bool
may_release none stored = true
may_release (some token) none = false
may_release (some token) (some stored) = stored == token

module _ {d : Django} where
  unfoldable pub get_state : State → M d Name
  get_state s w = (ok (w.memory s.attribute), w)

  -- The state column, read from the row itself.
  unfoldable pub get_persisted_state : State → M d Name
  unfolding query
  get_persisted_state s = do
    v ← query
    elim (v.columns s.instance_key) [ none ↦ raise does_not_exist | some n ↦ pure n ]

  -- `self.instance.save(update_fields=[self.field_name])`, with the value now in the attribute
  unfoldable pub save_field : State → M d Unit
  save_field s w =
      let (o, c) = d.save s.instance_key (w.memory s.attribute) w.conn in
      (elim o [ none ↦ ok tt | some e ↦ err e ], record w { conn = c })

  -- `self.instance.refresh_from_db(fields=[self.field_name])`
  unfoldable pub refresh_field : State → M d Unit
  unfolding get_persisted_state put_attribute
  refresh_field s = do put_attribute s (← get_persisted_state s)

  unfoldable pub set_state : State → Name → M d Unit
  unfolding get_state put_attribute save_field refresh_field
  set_state s n = do
    previous ← get_state s
    put_attribute s n
    catch (save_field s) (λ e. put_attribute s previous >> raise e)
    refresh_field s

  -- `cache.add` of a fresh token; the token is kept only if the key was free.
  unfoldable pub lock : State → M d Bool
  lock s w =
      let token = w.supply in
      let (added, c) = d.add s.instance_key token d.settings.lock_timeout w.cache in
      let w' : World d = record w { cache = c; supply = suc token } in
      if added
      then (ok true, record w' { tokens = update w.tokens s.ref (some token) })
      else (ok false, w')

  unfoldable pub unlock : State → M d Unit
  unlock s w =
      if may_release (w.tokens s.ref) (d.get s.instance_key w.cache)
      then (ok tt, record w { cache = d.delete s.instance_key w.cache })
      else (ok tt, w)

  unfoldable pub is_locked : State → M d Bool
  is_locked s w = (ok (is_some (d.get s.instance_key w.cache)), w)
