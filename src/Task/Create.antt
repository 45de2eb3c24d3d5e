-- ===== src/Task/Create.antt =====
-- create_task from the task's page on.
use fun_size_os.Base.{
  ℕ, suc, ◌+◌, ◌-◌, ◌≤◌, ◌<◌, ◌≡◌, ◌⊎◌, inl, inr, refl, sym, ◌∙◌, ap, arith, u8, u32, set, some,
  ◌==◌, if◌then◌else◌, eq→==,
}
use fun_size_os.Memory.{Memory, load32, load32-frame, load32-store32_ne}
use fun_size_os.CString.{memset, memcpy, strcpy, IsString}
use fun_size_os.CString.Block.{memset_lem, memcpy_inside, memcpy_outside}
use fun_size_os.CString.Terminated.{IsString-frame, strcpy-memcpy}
use fun_size_os.Pages.{page_size}
use fun_size_os.Sched.{
  Sched, null, nr_tasks, at_pid, at_ppid, at_name, at_scheduling_times, find_empty_process,
}
use fun_size_os.Sched.Table.{FirstEmpty, find_empty_process-FirstEmpty}
use fun_size_os.Task.{memory_at, with_memory, set_ids, parent_of, set_context, enter, set_up}
use fun_size_os.Task.Context.{
  HasContext, set_context-HasContext, set_context_elsewhere, set_ids_pid, set_ids_parent,
  set_ids_times, set_ids_elsewhere,
}

-- There is a free entry, the name has at most 31 characters and lies outside the page at `task`, as the
-- current task does.
pub record CanSetUp (fuel name end fun task pid : ℕ) (s : Sched) : Type 0 where
  pub slot : FirstEmpty s.tasks 0 nr_tasks pid
  pub string : IsString (memory_at s) name end
  pub short : end ≤ name + 31
  pub rounds : end < name + fuel
  pub name_apart : (end < task) ⊎ (task + 4096 ≤ name)
  pub current_apart :
      (s.current ≡ null) ⊎ (s.current + 112 ≤ task) ⊎ (task + 4096 ≤ s.current + at_pid)

-- The task in its page.
pub record HasTask (name end fun task pid : ℕ) (s s' : Sched) : Type 0 where
  pub pid_is : load32 (memory_at s') (task + at_pid) ≡ pid
  pub ppid_is :
      load32 (memory_at s') (task + at_ppid)
      ≡ u32 (if null == s.current then 0 else load32 (memory_at s) (s.current + at_pid))
  pub times_is : load32 (memory_at s') (task + at_scheduling_times) ≡ 0
  pub name_is :
      (i : ℕ) → i ≤ end - name → memory_at s' (task + at_name + i) ≡ u8 (memory_at s (name + i))
  pub context : HasContext task fun (memory_at s')
  pub rest_is : (a : ℕ) → task + 176 ≤ a → a < task + 4096 → memory_at s' a ≡ 0

-- The task in its page and in the table; nothing else is different.
pub record IsSetUp (name end fun task pid : ℕ) (s s' : Sched) : Type 0 where
  pub task_is : HasTask name end fun task pid s s'
  pub outside : (c : ℕ) → (c < task) ⊎ (task + 4096 ≤ c) → memory_at s' c ≡ memory_at s c
  pub others : s' ≡ record (with_memory (memory_at s') s) { tasks = set s.tasks pid task }

module _ (fuel name end fun task pid : ℕ) (s : Sched)
    (c : CanSetUp fuel name end fun task pid s) where
  cleared : Memory
  cleared = memset (memory_at s) task 0 page_size

  cleared_outside : (a : ℕ) → (a < task) ⊎ (task + 4096 ≤ a) → cleared a ≡ memory_at s a
  unfolding cleared
  cleared_outside a out = ground (arith, memset_lem (memory_at s) task 0 4096 a)

  cleared_inside : (a : ℕ) → task ≤ a → a < task + 4096 → cleared a ≡ 0
  unfolding cleared
  cleared_inside a p q = ground (arith, memset_lem (memory_at s) task 0 4096 a)

  found : find_empty_process (with_memory cleared s) ≡ (pid, with_memory cleared s)
  found = find_empty_process-FirstEmpty (with_memory cleared s) pid c.slot

  ppid : ℕ
  ppid = parent_of task pid s.current cleared

  ppid_lem : ppid ≡ (if null == s.current then 0 else load32 (memory_at s) (s.current + at_pid))
  unfolding ppid parent_of
  ppid_lem = elim c.current_apart [
    | inl idle ↦ rw (eq→== null s.current (sym idle)) refl
    | inr apart ↦
        ap (λ n. if null == s.current then 0 else n)
          (load32-store32_ne cleared (task + at_pid) pid (s.current + at_pid) (omega arith)
            ∙ load32-frame (memory_at s) cleared (s.current + at_pid)
                (λ a p q. cleared_outside a (omega arith)))
  ]

  named : Memory
  named = set_ids task pid ppid cleared

  named_outside : (a : ℕ) → (a < task) ⊎ (task + 4096 ≤ a) → named a ≡ memory_at s a
  unfolding named
  named_outside a out =
      set_ids_elsewhere task pid ppid cleared a (omega arith) ∙ cleared_outside a out

  copied : Memory
  copied = memcpy named (task + at_name) name (suc (end - name))

  copied_elsewhere : (a : ℕ) → (a < task + 116) ⊎ (task + 148 ≤ a) → copied a ≡ named a
  unfolding copied
  copied_elsewhere a out =
      memcpy_outside named (task + at_name) name (suc (end - name)) a
        (omega (arith, c.short, c.string.starts))

  copied_ends : strcpy fuel named (task + at_name) name ≡ some copied
  unfolding copied
  copied_ends =
      strcpy-memcpy fuel named (task + at_name) name end
        (IsString-frame named (λ a p q. named_outside a (omega (arith, c.name_apart))) c.string)
        (omega (arith, c.name_apart, c.string.starts)) c.rounds

  -- A field among the ids, as it is read in the end.
  final : Memory
  final = set_context task fun copied

  id_read :
      (a : ℕ)
      → (a ≡ task + at_pid) ⊎ (a ≡ task + at_ppid) ⊎ (a ≡ task + at_scheduling_times)
      → load32 final a ≡ load32 named a
  unfolding final
  id_read a e =
      load32-frame copied final a (λ b p q. set_context_elsewhere task fun copied b (omega arith))
      ∙ load32-frame named copied a (λ b p q. copied_elsewhere b (omega arith))

  pid_small : u32 pid ≡ pid
  pid_small = omega (arith, c.slot.upper)

  pid_stored : load32 copied (task + at_pid) ≡ pid
  unfolding named
  pid_stored =
      load32-frame named copied (task + at_pid) (λ b p q. copied_elsewhere b (omega arith))
      ∙ set_ids_pid task pid ppid cleared
      ∙ pid_small

  pub ready_task : Sched
  ready_task = enter task fun (with_memory cleared s) copied

  pub set_up-ready_task : set_up fuel name fun task s ≡ some ready_task
  unfolding set_up cleared ready_task named ppid
  set_up-ready_task = rw (found, copied_ends) refl

  ready_task-HasTask : HasTask name end fun task pid s ready_task
  unfolding ready_task enter named final copied
  ready_task-HasTask = record {
    pid_is = id_read (task + at_pid) (inl refl) ∙ set_ids_pid task pid ppid cleared ∙ pid_small;
    ppid_is =
        id_read (task + at_ppid) (inr (inl refl))
        ∙ set_ids_parent task pid ppid cleared
        ∙ ap u32 ppid_lem;
    times_is =
        id_read (task + at_scheduling_times) (inr (inr refl)) ∙ set_ids_times task pid ppid cleared;
    name_is = λ i h.
        set_context_elsewhere task fun copied (task + at_name + i) (omega (arith, c.short))
        ∙ memcpy_inside named (task + at_name) name (suc (end - name)) i (task + at_name + i)
            (name + i) (omega (arith, c.name_apart, c.string.starts)) (omega arith) refl refl
        ∙ ap u8 (named_outside (name + i) (omega (arith, c.name_apart, c.string.starts)));
    context = set_context-HasContext task fun copied;
    rest_is = λ a p q.
        set_context_elsewhere task fun copied a (omega arith)
        ∙ copied_elsewhere a (omega arith)
        ∙ set_ids_elsewhere task pid ppid cleared a (omega arith)
        ∙ cleared_inside a (omega arith) q;
  }

  pub ready_task-IsSetUp : IsSetUp name end fun task pid s ready_task
  unfolding ready_task enter named final copied
  ready_task-IsSetUp = record {
    task_is = ready_task-HasTask;
    outside = λ a out.
        set_context_elsewhere task fun copied a (omega arith)
        ∙ copied_elsewhere a (omega arith)
        ∙ named_outside a out;
    others = ap (λ n. record (with_memory final s) { tasks = set s.tasks n task }) pid_stored;
  }
