-- ===== src/Background/Engine/Tests.antt =====
-- A background transition of a nested process, called by its name and run by a worker.
use django_logic.Prelude.{◌≡◌, refl, true, false, none, some, [], ◌∷◌, arith}
use django_logic.Exec.{ok, err}
use django_logic.Django.{Message}
use django_logic.World.{World, sees}
use django_logic.Message.{stamp_attempt_started, occupies}
use django_logic.Message.Rows.{row_of}
use django_logic.Values.{null, opaque, end}
use django_logic.Serializers.{Python, decode_value}
use django_logic.Serializers.Kwargs.{deserialize_kwargs, restore_user}
use django_logic.Background.Enqueue.{Submission, enqueue_atomic}
use django_logic.Background.Handlers.{execute_attempt}
use django_logic.Background.Runner.{run_atomic}
use django_logic.Background.Restoration.Owner.{HasPaths}
use django_logic.Background.Engine.{Installation, deployment}
use django_logic.Background.Engine.Lifecycle.{enqueued, run_atomic-enqueue_atomic}
use django_logic.Errors.{restore_error}
use django_logic.Sample.Site.{site, draft, sent, invoice, start, submission}
use django_logic.Sample.Tree.{
  program, all_classes, program-IsFinite, deliver, program-valid, deliver-resolved, idle,
}

abbrev python : Python
python = record {
  print = λ k n. n ∷ [];
  parse = λ k v. none;
  same = λ v u. false;
  str = λ v. [];
  pk = λ v. null;
}

abbrev installation : Installation site
installation = record {
  program = program;
  answers = record {
    installed = λ m. true;
    exists = λ m. true;
    attribute = λ m. some 0;
    load = λ path. err restore_error;
    process_class = λ m. 50;
  };
  state_of = λ m. invoice;
  column = λ m. none;
  user_of = λ m. none;
  kwargs_of = λ m. [];
  python = python;
  find_user = λ pk. ok (opaque 3);
  serialized = λ kwargs. ok [];
}

abbrev delivery : Submission site
delivery = record submission { owning_process_class = 51 }

abbrev row : Message
row = enqueued (deliver 2).transition invoice delivery idle []

-- A worker of its own on the database that the enqueue has left.
abbrev worker : World site
worker = record (start [] draft false) {
  now = 1000700;
  conn = (enqueue_atomic (deliver 2).transition invoice delivery idle).1.conn;
}

program-HasPaths : HasPaths program 0
program-HasPaths b c _ _ e = omega arith

run_atomic-enqueue_atomic_example :
    let stamped = (stamp_attempt_started 1 worker).1 in
    let w = (run_atomic (deployment installation) 1 stamped).1 in
    ((enqueue_atomic (deliver 2).transition invoice delivery idle).0 ≡ ok row)
    × ((stamp_attempt_started 1 worker).0 ≡ ok true)
    × ((sees w).columns 10 ≡ some sent)
    × (done : Message) × (row_of 1 (sees w).rows ≡ some done)
    × (done.is_completed ≡ true)
    × (done.ended_in_failure ≡ false)
    × (done.errors_count ≡ 0)
    × (done.duration_ms ≡ some 0)
unfolding occupies deserialize_kwargs restore_user decode_value execute_attempt enqueue_atomic
    stamp_attempt_started
run_atomic-enqueue_atomic_example =
    run_atomic-enqueue_atomic installation all_classes 0 program-IsFinite program-HasPaths
      program-valid invoice none 3 idle idle (deliver 2) 1 delivery [] idle draft worker
      deliver-resolved refl refl refl refl
      (record {
        serializes = refl;
        healthy = refl;
        free = refl;
        persisted = refl;
        is_source = refl;
        saves = refl;
      })
      (record {
        healthy = refl;
        rows = refl;
        columns = refl;
        unlocked = refl;
        still_unlocked = refl;
        raw = end;
        decodes = refl;
        installed = refl;
        exists = refl;
        attribute = refl;
        recorded = refl;
        same_instance = refl;
      })
      refl refl
