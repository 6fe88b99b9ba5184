-- ===== src/Tasks/Registry/Endings.antt =====
-- What becomes of a task that is cancelled or removed.
use adbq.Prelude.{◌≡◌, refl, ◌∙◌, ◌∷◌, Option, none, some, inl, inr, Bool-cases, Text, codes}
use adbq.Prelude.Int.{pos}
use adbq.Dict.{lookup, insert, lookup-insert_self, lookup-remove_self}
use adbq.Tasks.{
  TaskState, TaskManager, emit, updated, update, finish, call_cancel, cancel_task, remove_task,
}
use adbq.Tasks.Registry.{emit-SameTasks, call_cancel-SameTasks}

update-here :
    (id : Text) (mutate : TaskState → TaskState) (m : TaskManager) (t : TaskState)
    → lookup id m.tasks ≡ some t
    → lookup id (update id mutate m).tasks ≡ some (mutate t)
unfolding update updated
update-here id mutate m t here =
    rw (here, (emit-SameTasks (mutate t) (record m { tasks = insert id (mutate t) m.tasks })).tasks)
      (lookup-insert_self id (mutate t) m.tasks)

emit-cancelled : (t : TaskState) (m : TaskManager) → (emit t m).cancelled ≡ m.cancelled
unfolding emit
emit-cancelled t m = elim (Bool-cases m.subscribed) [ inl e ↦ rw e refl | inr e ↦ rw e refl ]

updated-cancelled :
    (id : Text) (mutate : TaskState → TaskState) (o : Option TaskState) (m : TaskManager)
    → (updated id mutate o m).cancelled ≡ m.cancelled
unfolding updated
updated-cancelled id mutate none m = refl
updated-cancelled id mutate (some t) m =
    emit-cancelled (mutate t) (record m { tasks = insert id (mutate t) m.tasks })

-- Cancelling a task that is there calls its cancel function and marks it as cancelled. A `Finish`
-- that comes after that overwrites the mark with its own status. Once the task is removed, an update
-- that comes late changes nothing, and sends nothing.
pub finish-cancel_task :
    (id ctx status output err_msg : Text) (t : TaskState) (m : TaskManager)
    (mutate : TaskState → TaskState)
    → lookup id m.tasks ≡ some t
    → lookup id m.cancel ≡ some ctx
    → ((cancel_task id m).cancelled ≡ ctx ∷ m.cancelled)
      × (lookup id (cancel_task id m).tasks ≡ some (record t { status = codes "cancelled" }))
      × (lookup id (finish id status output err_msg (cancel_task id m)).tasks
          ≡ some (record t { status = status; output = output; err = err_msg; progress = pos 100 }))
      × (update id mutate (remove_task id m) ≡ remove_task id m)
unfolding cancel_task finish call_cancel
finish-cancel_task id ctx status output err_msg t m mutate here ctx_here =
    let mark = λ (t : TaskState). record t { status = codes "cancelled" } in
    let called = call_cancel (lookup id m.cancel) m in
    let there : lookup id called.tasks ≡ some t =
      rw (call_cancel-SameTasks (lookup id m.cancel) m).tasks here in
    let marked = update-here id mark called t there in
    (
      unfold update in
          (updated-cancelled id mark (lookup id called.tasks) called ∙ rw ctx_here refl),
      marked,
      update-here id
          (λ t. record t { status = status; output = output; err = err_msg; progress = pos 100 })
          (update id mark called) (mark t) marked,
      late,
    )
  where
    late : update id mutate (remove_task id m) ≡ remove_task id m
    late = unfold update remove_task in rw (lookup-remove_self id m.tasks) (unfold updated in refl)
