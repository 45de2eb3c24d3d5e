-- ===== src/Task/Run.antt =====
-- The scheduler after create_task.
use fun_size_os.Base.{
  ℕ, ◌+◌, ◌≤◌, ◌<◌, ◌≡◌, ◌≢◌, inl, inr, refl, sym, ◌∙◌, ap, arith, ◌∷◌, length, get_or-set_self,
  get_or-set_ne, some, true, false, ◌==◌, ==_iff, ne→==, Bool-cases,
}
use fun_size_os.Memory.{load32-frame, load32-store32_self}
use fun_size_os.Pages.Inv.{table, page_at}
use fun_size_os.Sched.{
  null, nr_tasks, task_at, state_of, state_code, running, at_state, is_ready, find_ready_task,
  run_next, sched,
}
use fun_size_os.Sched.Ready.{
  find_ready_task_lem, is_ready-true, is_ready-same, find_ready_task-null,
}
use fun_size_os.Task.{Kernel, memory_at, create_task}
use fun_size_os.Task.Life.{Spares, Spares-Elsewhere, CanCreate, Created, create_task_lem}

-- No task of the table is ready, and none has its state where the heap writes.
pub record IsIdle (j : ℕ) (k : Kernel) : Type 0 where
  pub entries : length k.sched.tasks ≡ nr_tasks
  pub none_ready : find_ready_task k.sched ≡ null
  pub away :
      (m : ℕ)
      → m < nr_tasks
      → task_at m k.sched.tasks ≢ null
      → Spares
          (table + j)
          k.free_bucket_desc
          (page_at j)
          (task_at m k.sched.tasks + at_state)
          (task_at m k.sched.tasks + at_state + 4)

module _ (fuel name end fun pid j : ℕ) (k : Kernel) (c : CanCreate fuel name end pid j k)
    (behind_idle : 1 ≤ pid) (idle : IsIdle j k) (k' : Kernel)
    (made : Created name end fun pid j k k') where
  entry : task_at pid k'.sched.tasks ≡ page_at j
  entry =
      ap (λ t. task_at pid t) made.tasks
      ∙ get_or-set_self k.sched.tasks pid (page_at j) null
          (omega (arith, idle.entries, c.slot.upper))

  new_ready : is_ready (task_at pid k'.sched.tasks) (memory_at k'.sched) ≡ true
  new_ready =
      rw entry
        (is_ready-true (page_at j) (memory_at k'.sched) (omega arith) made.task.context.state)

  old_not_ready :
      (m : ℕ)
      → 1 ≤ m
      → m < nr_tasks
      → m ≢ pid
      → is_ready (task_at m k'.sched.tasks) (memory_at k'.sched) ≡ false
  old_not_ready m from until other =
      let same : task_at m k'.sched.tasks ≡ task_at m k.sched.tasks =
        ap (λ t. task_at m t) made.tasks
        ∙ get_or-set_ne k.sched.tasks pid m (page_at j) null (λ e. other (sym e)) in
      rw same (
        is_ready-same (task_at m k.sched.tasks) (memory_at k.sched) (memory_at k'.sched) (λ full.
          load32-frame (memory_at k.sched) (memory_at k'.sched) (task_at m k.sched.tasks + at_state)
            (λ a p q. made.heap.elsewhere a (
              Spares-Elsewhere (table + j) k.free_bucket_desc (page_at j)
                (task_at m k.sched.tasks + at_state) (task_at m k.sched.tasks + at_state + 4) a
                (idle.away m until full) p q)))
        ∙ find_ready_task-null k.sched idle.none_ready m from until)

  pub found : find_ready_task k'.sched ≡ page_at j
  found = elim (find_ready_task_lem k'.sched) [
    | inl (z, none_is) ↦ cc (new_ready, none_is pid behind_idle c.slot.upper)
    | inr (i, f, at) ↦ elim (Bool-cases (i == pid)) [
      | inl same ↦ at ∙ ap (λ n. task_at n k'.sched.tasks) ((==_iff i pid).0 same) ∙ entry
      | inr other ↦ cc (f.is, old_not_ready i f.lower f.upper (ground arith))
    ]
  ]

  -- The new task is started.
  started :
      ((sched k'.sched).current ≡ page_at j)
      × (state_of (page_at j) (memory_at (sched k'.sched)) ≡ state_code running)
      × ((sched k'.sched).dispatched ≡ page_at j ∷ k'.sched.dispatched)
  unfolding sched run_next
  started =
      let full : page_at j ≢ null = omega arith in
      rw (found, ne→== (page_at j) null full)
        (
          refl,
          load32-store32_self (memory_at k'.sched) (page_at j + at_state) (state_code running),
          refl,
        )

-- If create_task can take free page j and the first free entry of a table of 64, which is behind
-- the idle task's, with a name of at most 31 characters, no task of the table is ready, and the
-- name, the current task's pid and the states of the tasks in the table lie away from where the
-- heap writes, create_task returns page j's address, and the scheduler, called next, makes the new
-- task the current one, marks it as running and switches to it.
pub sched-create_task :
    (fuel name end fun priority pid j : ℕ) (k : Kernel)
    → CanCreate fuel name end pid j k
    → 1 ≤ pid
    → IsIdle j k
    → (k' : Kernel) × (create_task fuel name fun priority k ≡ some (page_at j, k'))
      × ((sched k'.sched).current ≡ page_at j)
      × (state_of (page_at j) (memory_at (sched k'.sched)) ≡ state_code running)
      × ((sched k'.sched).dispatched ≡ page_at j ∷ k'.sched.dispatched)
sched-create_task fuel name end fun priority pid j k c behind idle =
    let (k', ends, made) = create_task_lem fuel name end fun priority pid j k c in
    let out = started fuel name end fun pid j k c behind idle k' made in
    (k', ends, out.0, out.1, out.2)
