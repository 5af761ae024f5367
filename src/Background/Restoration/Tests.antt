-- ===== src/Background/Restoration/Tests.antt =====
-- Rows of three process classes, restored.
use django_logic.Prelude.{◌≡◌, refl, true, false, some, none, [], inl, arith}
use django_logic.Errors.{restore_error}
use django_logic.Exec.{ok, err}
use django_logic.Django.{Message}
use django_logic.Background.Enqueue.{new_row}
use django_logic.Process.{tree}
use django_logic.Process.Tree.{iter_process_tree}
use django_logic.Background.Restoration.{
  Answers, restore, find_transition, find_background_transition_in_owner, find_in_path,
}
use django_logic.Background.Restoration.Owner.{HasPaths, restore-resolve}
use django_logic.Background.Restoration.Fallback.{find_transition-ambiguous}
use django_logic.Sample.Site.{draft, invoice, start}
use django_logic.Sample.Tree.{
  program, all_classes, program-IsFinite, deliver, Reaches-one, Reaches-two, program-valid,
  deliver-resolved,
}

program-HasPaths : HasPaths program 0
program-HasPaths b c _ _ e = omega arith

abbrev row : Message
row = new_row (deliver 2).transition invoice 51 [] 1000000 1

abbrev answers : Answers
answers = record {
  installed = λ m. true;
  exists = λ m. true;
  attribute = λ m. some 0;
  load = λ path. err restore_error;
  process_class = λ m. 50;
}

-- The row after two failed attempts, when the third was stamped on it.
abbrev retried : Message
retried = record row { errors_count = 2; started_at = some 1900000; modified = 1900000 }

restore-resolve_example : restore program answers retried ≡ ok (0, deliver 2)
restore-resolve_example =
    restore-resolve program all_classes 0 program-IsFinite program-HasPaths program-valid invoice
      none 3 (start [] draft false) (deliver 2) 1 (start [] draft false) [] 1000000 1 answers
      retried deliver-resolved refl refl
      (record {
        pk = refl;
        instance_ = refl;
        process_name = refl;
        field_name = refl;
        transition_name = refl;
        owning_process_class = refl;
      })
      refl refl refl refl

gone : find_background_transition_in_owner program 0 3 70 ≡ ok none
unfolding find_background_transition_in_owner find_in_path tree iter_process_tree
gone = refl

-- The name is shared and the recorded class is gone.
find_transition-ambiguous_example : find_transition program 0 3 70 ≡ err restore_error
find_transition-ambiguous_example =
    find_transition-ambiguous program 3 all_classes 0 program-IsFinite 70 1 2 (deliver 2)
      (deliver 3) gone Reaches-one Reaches-two (inl refl) (inl refl) refl refl refl
