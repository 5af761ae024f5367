-- ===== src/Process/Actions.antt =====
-- process.py: `get_available_actions`, the names of the available transitions.
use django_logic.Prelude.{
  ℕ, ◌≡◌, refl, true, Option, List, map, elem, Among, sorted_set, elem-sorted_set,
  sorted_set-IsIncreasing, IsIncreasing, elem-map-Among, sym, ◌∙◌,
}
use django_logic.Exec.{ok, pure, ◌>>=◌}
use django_logic.Django.{Django, Name, State}
use django_logic.World.{World, M}
use django_logic.Process.{Declared, Program, name_of, get_available_transitions}

module _ {d : Django} (program : Program d) (s : State) (user : Option ℕ) where
  unfoldable pub get_available_actions : Option Name → ℕ → M d (List Name)
  get_available_actions action_name root = do
    ts ← get_available_transitions program s user action_name root
    pure (sorted_set (map name_of ts))

  -- Where the walk returns, the actions are the names of the transitions that it finds, in
  -- increasing order.
  pub get_available_actions_lem :
      (action_name : Option Name) (root : ℕ) (w w' : World d) (ts : List (Declared d))
      → get_available_transitions program s user action_name root w ≡ (ok ts, w')
      → (names : List Name) × (get_available_actions action_name root w ≡ (ok names, w'))
        × IsIncreasing names
        × ((n : Name) → elem n names ≡ true → (t : Declared d) × Among t ts × (name_of t ≡ n))
  unfolding get_available_actions
  get_available_actions_lem action_name root w w' ts e = (
    sorted_set (map name_of ts),
    rw e refl,
    sorted_set-IsIncreasing (map name_of ts),
    λ n m. elem-map-Among name_of ts n (sym (elem-sorted_set n (map name_of ts)) ∙ m),
  )
