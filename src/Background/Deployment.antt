-- ===== src/Background/Deployment.antt =====
-- What a worker finds when it restores a row: the deployed model, its process and the transition.
use django_logic.Django.{Django, State, Message}
use django_logic.World.{M}
use django_logic.Commands.{Accessor}
use django_logic.Transition.{Transition}

-- The `process.state` and the transition that `_restore` gives, and the bound process.
pub record Work (d : Django) : Type 0 where
  pub transition : Transition d
  pub state : State
  pub process : Accessor d

-- `restore` is `_restore`, which raises `restore_error` where the row refers to what is gone, and
-- anything else where the consumer's code or the database raises; `decode` is `deserialize_kwargs`.
pub record Deployment (d : Django) : Type 0 where
  pub restore : Message → M d (Work d)
  pub decode : Message → M d Unit
