-- ===== src/Background/Engine.antt =====
-- The engine put together: background/runner.py restores rows through the process tree of process.py
-- and reads their arguments with background/serializers.py, and follow-ups are called by their name
-- on the process that `getattr(state.instance, state.process_name)` gives.
pub mod Lifecycle
mod Tests
use django_logic.Prelude.{
  ℕ, zero, suc, true, false, Option, none, some, List, [], ◌∷◌, map, filter, not, ◌==◌,
  if◌then◌else◌,
}
use django_logic.Errors.{recursion_error}
use django_logic.Exec.{Result, pure, raise, lift, ◌>>=◌, ◌>>◌}
use django_logic.Django.{Django, Name, State, Message}
use django_logic.World.{M}
use django_logic.Commands.{Accessor, request}
use django_logic.Values.{Value, Entries}
use django_logic.Serializers.{Python}
use django_logic.Serializers.Kwargs.{deserialize_kwargs}
use django_logic.Process.{Program, in_background, get_available_transitions, transition_method}
use django_logic.Background.Deployment.{Work, Deployment}
use django_logic.Background.Restoration.{Answers, restore}

-- An installed site: its processes, what the database and the imports answer for a row, the State object
-- that the process of a row makes, the JSON column and what the decoded arguments hold, the lookup
-- of a user, and what `serialize_kwargs` makes of the arguments of a call.
pub record Installation (d : Django) : Type 0 where
  pub program : Program d
  pub answers : Answers
  pub state_of : Message → State
  pub column : Message → Option Entries
  pub user_of : Message → Option ℕ
  pub kwargs_of : Message → List Name
  pub python : Python
  pub find_user : Value → Result Value
  pub serialized : List Name → Result (List ℕ)

module _ {d : Django} (site : Installation d) where
  -- The process of a class over a State object, for a user and keyword arguments.
  abbrev pub Bound : Type 0
  Bound = ℕ → State → Option ℕ → List Name → Accessor d

  -- `_restore` and `deserialize_kwargs`, with the process that the row's class is bound to.
  unfoldable pub deployment_by : Bound → Deployment d
  unfolding restore deserialize_kwargs
  deployment_by bound = record {
    restore = λ m. do
      (c, t) ← lift (restore site.program site.answers m)
      let s = site.state_of m
      pure (record {
        transition = t.transition;
        state = s;
        process = bound c s (site.user_of m) (site.kwargs_of m);
      });
    decode = λ m. lift (deserialize_kwargs site.python site.find_user (site.column m)) >> pure tt;
  }

  -- Follow-ups nest at most as deep as the recursion limit.
  unfoldable pub accessor : ℕ → Bound
  unfolding deployment_by get_available_transitions transition_method
  accessor zero c s user kwargs = record {
    available = λ n. raise recursion_error;
    call = λ without_request n. raise recursion_error;
  }
  accessor (suc fuel) c s user kwargs = record {
    available = λ n. do
      ts ← get_available_transitions site.program s user (some n) c
      pure (map (λ t. record { ref = t.ref; is_background = in_background t }) ts);
    call = λ without_request n.
        let passed = if without_request then filter (λ k. not (k == request)) kwargs else kwargs in
        transition_method site.program s (deployment_by (accessor fuel)) (site.serialized passed)
          (record { kwargs = passed; user = user; process = accessor fuel c s user passed }) false 0
          n c;
  }

  unfoldable pub deployment : Deployment d
  unfolding accessor
  deployment = deployment_by (accessor site.program.depth)
