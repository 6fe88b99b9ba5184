-- ===== src/Tasks/Examples.antt =====
-- An install that is started, and a second task after it.
use adbq.Prelude.{◌≡◌, refl, arith, List, [], ◌∷◌, none, some, Bool, Text, codes, text_eq}
use adbq.Dict.{lookup, insert}
use adbq.Tasks.{TaskState, TaskManager, new_task_manager, running, create, TaskOp, created, run_ops}
use adbq.Tasks.Registry.{create-run_ops}

abbrev install : Text
install = codes "install"

abbrev first_ops : List TaskOp
first_ops = created install install [] ∷ []

abbrev first_task : TaskState
first_task = running (codes "t-1") install install []

first_here : lookup (codes "t-1") (run_ops first_ops new_task_manager).tasks ≡ some first_task
unfolding run_ops lookup insert text_eq
first_here = refl

create-run_ops_example :
    (let (id, m) = create install install [] (run_ops first_ops new_task_manager) in
      (lookup id (run_ops first_ops new_task_manager).tasks ≡ none)
      × (lookup id m.tasks ≡ some (running id install install []))
      × (lookup (codes "t-1") m.tasks ≡ some first_task))
create-run_ops_example =
    create-run_ops first_ops install install [] (codes "t-1") first_task (omega arith) first_here

abbrev one_task : TaskManager
one_task = record {
  tasks = (codes "t-1", first_task) ∷ [];
  cancel = (codes "t-1", codes "t-1") ∷ [];
  cancelled = [];
  seq = 1;
  subscribed = Bool.true;
  sent = [];
}
