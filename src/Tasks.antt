-- ===== src/Tasks.antt =====
-- internal/adb/tasks.go: the registry of long-running operations. The context of a task is named by
-- the id of the task; `cancelled` are the contexts whose cancel function was called. A copy that is
-- sent to the interface is an element of `sent`.
pub mod Registry
mod Examples
use adbq.Prelude.{
  ℕ, ◌+◌, List, [], ◌∷◌, ◌++◌, Option, none, some, Bool, true, false, if◌then◌else◌, Text, codes,
}
use adbq.Prelude.Int.{ℤ, pos, negsuc}
use adbq.Decimal.{decimal}
use adbq.Dict.{Dict, lookup, insert, remove}

pub record TaskState : Type 0 where
  pub id : Text
  pub kind : Text
  pub title : Text
  pub detail : Text
  pub status : Text
  pub progress : ℤ
  pub output : Text
  pub err : Text

pub record TaskManager : Type 0 where
  pub tasks : Dict TaskState
  pub cancel : Dict Text
  pub cancelled : List Text
  pub seq : ℕ
  pub subscribed : Bool
  pub sent : List TaskState

abbrev pub new_task_manager : TaskManager
new_task_manager = record {
  tasks = [];
  cancel = [];
  cancelled = [];
  seq = 0;
  subscribed = false;
  sent = [];
}

pub on_update : TaskManager → TaskManager
on_update m = record m { subscribed = true }

pub emit : TaskState → TaskManager → TaskManager
emit t m = if m.subscribed then record m { sent = m.sent ++ t ∷ [] } else m

pub task_id : ℕ → Text
unfolding decimal
task_id n = codes "t-" ++ decimal n

pub running : Text → Text → Text → Text → TaskState
running id kind title detail = record {
  id = id;
  kind = kind;
  title = title;
  detail = detail;
  status = codes "running";
  progress = negsuc 0;
  output = [];
  err = [];
}

-- the manager and the id
pub create : Text → Text → Text → TaskManager → Text × TaskManager
unfolding emit task_id running
create kind title detail m =
    let id = task_id (m.seq + 1) in
    let t = running id kind title detail in
    (
      id,
      emit t (record m {
        tasks = insert id t m.tasks;
        cancel = insert id id m.cancel;
        seq = m.seq + 1;
      }),
    )

updated : Text → (TaskState → TaskState) → Option TaskState → TaskManager → TaskManager
unfolding emit
updated id mutate none m = m
updated id mutate (some t) m = emit (mutate t) (record m { tasks = insert id (mutate t) m.tasks })

pub update : Text → (TaskState → TaskState) → TaskManager → TaskManager
unfolding updated
update id mutate m = updated id mutate (lookup id m.tasks) m

pub finish : Text → Text → Text → Text → TaskManager → TaskManager
unfolding update
finish id status output err_msg m =
    update id
      (λ t. record t { status = status; output = output; err = err_msg; progress = pos 100 }) m

call_cancel : Option Text → TaskManager → TaskManager
call_cancel none m = m
call_cancel (some ctx) m = record m { cancelled = ctx ∷ m.cancelled }

pub cancel_task : Text → TaskManager → TaskManager
unfolding call_cancel update
cancel_task id m =
    update id (λ t. record t { status = codes "cancelled" }) (call_cancel (lookup id m.cancel) m)

pub remove_task : Text → TaskManager → TaskManager
remove_task id m = record m { tasks = remove id m.tasks; cancel = remove id m.cancel }

pub data TaskOp : Type 0 where
  created : Text → Text → Text → TaskOp
  updated_by : Text → (TaskState → TaskState) → TaskOp
  finished : Text → Text → Text → Text → TaskOp
  cancelled_op removed : Text → TaskOp
  subscribed_op : TaskOp

pub apply_op : TaskOp → TaskManager → TaskManager
unfolding create update finish cancel_task remove_task on_update
apply_op (created kind title detail) m = (create kind title detail m).1
apply_op (updated_by id mutate) m = update id mutate m
apply_op (finished id status output err_msg) m = finish id status output err_msg m
apply_op (cancelled_op id) m = cancel_task id m
apply_op (removed id) m = remove_task id m
apply_op subscribed_op m = on_update m

pub run_ops : List TaskOp → TaskManager → TaskManager
unfolding apply_op
run_ops [] m = m
run_ops (op ∷ ops) m = run_ops ops (apply_op op m)
