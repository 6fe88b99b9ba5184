-- ===== src/Tasks/Registry.antt =====
-- No task overwrites another, whatever is done in whatever order.
pub mod Endings
use adbq.Prelude.{
  ℕ, ◌+◌, ◌^◌, ◌≤◌, ◌<◌, ◌≡◌, refl, ap, ◌∙◌, sym, arith, List, [], ◌∷◌, Option, none, some, inl,
  inr, Bool-cases, Text, codes, text_eq, text_eq_iff, length,
}
use adbq.Prelude.Int.{pos}
use adbq.Decimal.{decimal, atoi}
use adbq.Decimal.Unsigned.{atoi-decimal}
use adbq.Dict.{lookup, insert, lookup-insert, lookup-insert_self, lookup-remove, lookup-remove_self}
use adbq.Tasks.{
  TaskState, TaskManager, new_task_manager, on_update, emit, task_id, running, create, updated,
  update, finish, call_cancel, cancel_task, remove_task, TaskOp, created, updated_by, finished,
  cancelled_op, removed, subscribed_op, apply_op, run_ops,
}

task_id-injective : (a b : ℕ) → a < 2 ^ 63 → b < 2 ^ 63 → task_id a ≡ task_id b → a ≡ b
unfolding task_id
task_id-injective a b ha hb e =
    let same : decimal a ≡ decimal b = cc in
    let read : some (pos a) ≡ some (pos b) =
      sym (atoi-decimal a ha) ∙ (ap atoi same ∙ atoi-decimal b hb) in
    cc

-- the ids that are still to come are not taken
abbrev Unused : TaskManager → Type 0
Unused m = (k : ℕ) → m.seq < k → k < 2 ^ 63 → lookup (task_id k) m.tasks ≡ none

-- the tasks and the counter are what matters
record SameTasks (m n : TaskManager) : Type 0 where
  tasks : m.tasks ≡ n.tasks
  seq : m.seq ≡ n.seq

emit-SameTasks : (t : TaskState) (m : TaskManager) → SameTasks (emit t m) m
unfolding emit
emit-SameTasks t m = elim (Bool-cases m.subscribed) [
  | inl e ↦ rw e (record { tasks = refl; seq = refl })
  | inr e ↦ rw e (record { tasks = refl; seq = refl })
]

call_cancel-SameTasks : (o : Option Text) (m : TaskManager) → SameTasks (call_cancel o m) m
unfolding call_cancel
call_cancel-SameTasks none m = record { tasks = refl; seq = refl }
call_cancel-SameTasks (some ctx) m = record { tasks = refl; seq = refl }

SameTasks-Unused : (m n : TaskManager) → SameTasks m n → Unused n → Unused m
SameTasks-Unused m n s h k above below = rw s.tasks (h k (rw s.seq at above) below)

updated-Unused :
    (id : Text) (mutate : TaskState → TaskState) (o : Option TaskState) (m : TaskManager)
    → lookup id m.tasks ≡ o
    → Unused m
    → Unused (updated id mutate o m)
unfolding updated
updated-Unused id mutate none m e h = h
updated-Unused id mutate (some t) m e h =
    SameTasks-Unused (emit (mutate t) m') m' (emit-SameTasks (mutate t) m') kept_free
  where
    m' : TaskManager
    m' = record m { tasks = insert id (mutate t) m.tasks }

    kept_free : Unused m'
    kept_free k above below =
        rw (lookup-insert (task_id k) id (mutate t) m.tasks)
          (elim (Bool-cases (text_eq id (task_id k))) [
            | inl same ↦
                let id_k : id ≡ task_id k = (text_eq_iff id (task_id k)).0 same in
                let free = h k above below in cc
            | inr other ↦ rw other (h k above below)
          ])

update-Unused :
    (id : Text) (mutate : TaskState → TaskState) (m : TaskManager)
    → Unused m
    → Unused (update id mutate m)
unfolding update
update-Unused id mutate m h = updated-Unused id mutate (lookup id m.tasks) m refl h

create-Unused :
    (kind title detail : Text) (m : TaskManager)
    → m.seq + 1 < 2 ^ 63
    → Unused m
    → Unused (create kind title detail m).1
unfolding create
create-Unused kind title detail m fits h =
    SameTasks-Unused (emit t m') m' (emit-SameTasks t m') later
  where
    t : TaskState
    t = running (task_id (m.seq + 1)) kind title detail

    m' : TaskManager
    m' = record m {
      tasks = insert (task_id (m.seq + 1)) t m.tasks;
      cancel = insert (task_id (m.seq + 1)) (task_id (m.seq + 1)) m.cancel;
      seq = m.seq + 1;
    }

    later : Unused m'
    later k above below =
        rw (lookup-insert (task_id k) (task_id (m.seq + 1)) t m.tasks)
          (elim (Bool-cases (text_eq (task_id (m.seq + 1)) (task_id k))) [
            | inl same ↦
                let clash =
                  task_id-injective (m.seq + 1) k fits below
                    ((text_eq_iff (task_id (m.seq + 1)) (task_id k)).0 same) in
                absurd (omega (arith, clash, above))
            | inr other ↦ rw other (h k (omega (arith, above)) below)
          ])

remove_task-Unused : (id : Text) (m : TaskManager) → Unused m → Unused (remove_task id m)
unfolding remove_task
remove_task-Unused id m h k above below =
    rw (lookup-remove (task_id k) id m.tasks, h k above below)
      (elim (Bool-cases (text_eq (task_id k) id)) [ inl e ↦ rw e refl | inr e ↦ rw e refl ])

updated-seq :
    (id : Text) (mutate : TaskState → TaskState) (o : Option TaskState) (m : TaskManager)
    → (updated id mutate o m).seq ≡ m.seq
unfolding updated
updated-seq id mutate none m = refl
updated-seq id mutate (some t) m =
    (emit-SameTasks (mutate t) (record m { tasks = insert id (mutate t) m.tasks })).seq

update-seq :
    (id : Text) (mutate : TaskState → TaskState) (m : TaskManager)
    → (update id mutate m).seq ≡ m.seq
unfolding update
update-seq id mutate m = updated-seq id mutate (lookup id m.tasks) m

-- a step keeps the ids to come free, and takes one id at most
apply_op-Unused :
    (op : TaskOp) (m : TaskManager)
    → m.seq + 1 < 2 ^ 63
    → Unused m
    → Unused (apply_op op m) × ((apply_op op m).seq ≤ m.seq + 1)
unfolding apply_op
apply_op-Unused (created kind title detail) m fits h = (
  create-Unused kind title detail m fits h,
  unfold create in omega (arith, (emit-SameTasks t m').seq),
)
  where
    t : TaskState
    t = running (task_id (m.seq + 1)) kind title detail

    m' : TaskManager
    m' = record m {
      tasks = insert (task_id (m.seq + 1)) t m.tasks;
      cancel = insert (task_id (m.seq + 1)) (task_id (m.seq + 1)) m.cancel;
      seq = m.seq + 1;
    }
apply_op-Unused (updated_by id mutate) m fits h =
    (update-Unused id mutate m h, omega (arith, update-seq id mutate m))
apply_op-Unused (finished id status output err_msg) m fits h =
    unfold finish in
    (
      update-Unused id
          (λ t. record t { status = status; output = output; err = err_msg; progress = pos 100 }) m
          h,
      omega (
        arith,
        update-seq id
            (λ t. record t { status = status; output = output; err = err_msg; progress = pos 100 })
            m,
      ),
    )
apply_op-Unused (cancelled_op id) m fits h =
    unfold cancel_task in
    (
      update-Unused id (λ t. record t { status = codes "cancelled" })
          (call_cancel (lookup id m.cancel) m)
          (SameTasks-Unused (call_cancel (lookup id m.cancel) m) m
            (call_cancel-SameTasks (lookup id m.cancel) m) h),
      omega (
        arith,
        update-seq id (λ t. record t { status = codes "cancelled" })
            (call_cancel (lookup id m.cancel) m),
        (call_cancel-SameTasks (lookup id m.cancel) m).seq,
      ),
    )
apply_op-Unused (removed id) m fits h =
    (remove_task-Unused id m h, unfold remove_task in omega arith)
apply_op-Unused subscribed_op m fits h = unfold on_update in (h, omega arith)

run_ops-Unused :
    (ops : List TaskOp) (m : TaskManager)
    → m.seq + length ops + 1 < 2 ^ 63
    → Unused m
    → Unused (run_ops ops m) × ((run_ops ops m).seq ≤ m.seq + length ops)
unfolding run_ops
run_ops-Unused [] m fits h = (h, omega arith)
run_ops-Unused (op ∷ ops) m fits h =
    let (free, next) = apply_op-Unused op m (omega arith) h in
    let (free', last) = run_ops-Unused ops (apply_op op m) (omega (arith, next)) free in
    (free', omega (arith, next, last))

create-tasks :
    (kind title detail : Text) (m : TaskManager)
    → (create kind title detail m).1.tasks
      ≡ insert (task_id (m.seq + 1)) (running (task_id (m.seq + 1)) kind title detail) m.tasks
unfolding create
create-tasks kind title detail m =
    let t = running (task_id (m.seq + 1)) kind title detail in
    (emit-SameTasks t (record m {
      tasks = insert (task_id (m.seq + 1)) t m.tasks;
      cancel = insert (task_id (m.seq + 1)) (task_id (m.seq + 1)) m.cancel;
      seq = m.seq + 1;
    })).tasks

create-id :
    (kind title detail : Text) (m : TaskManager)
    → (create kind title detail m).0 ≡ task_id (m.seq + 1)
unfolding create
create-id kind title detail m = refl

-- A new task never takes the place of another. After fewer than 2^63 - 2 operations on a new manager, in
-- any order, the id that `Create` gives names no task yet; afterwards it names the new, running task,
-- and every task that was there is there as it was.
pub create-run_ops :
    (ops : List TaskOp) (kind title detail other : Text) (t : TaskState)
    → length ops + 1 < 2 ^ 63
    → lookup other (run_ops ops new_task_manager).tasks ≡ some t
    → (let (id, m) = create kind title detail (run_ops ops new_task_manager) in
        (lookup id (run_ops ops new_task_manager).tasks ≡ none)
        × (lookup id m.tasks ≡ some (running id kind title detail))
        × (lookup other m.tasks ≡ some t))
create-run_ops ops kind title detail other t fits here =
    let m = run_ops ops new_task_manager in
    let id = task_id (m.seq + 1) in
    let (free, count) =
      run_ops-Unused ops new_task_manager (omega arith) (λ k above below. unfold lookup in refl) in
    let id_free : lookup id m.tasks ≡ none =
      free (m.seq + 1) (omega arith) (omega (arith, count)) in
    rw (create-id kind title detail m, create-tasks kind title detail m)
      (
        id_free,
        lookup-insert_self id (running id kind title detail) m.tasks,
        lookup-insert other id (running id kind title detail) m.tasks
            ∙ elim (Bool-cases (text_eq id other)) [
              | inl same ↦ let eq = (text_eq_iff id other).0 same in cc
              | inr differs ↦ rw differs here
            ],
      )
