-- ===== src/Switch/Birth.antt =====
-- From create_task in the running task to the first instruction of the new one.
use fun_size_os.Base.{
  ℕ, ◌+◌, ◌%◌, ◌≤◌, ◌≡◌, ◌≢◌, inl, inr, refl, ◌∙◌, arith, u32, sym, ◌==◌, ne→==, eq→==, Bool-cases,
  ==_iff, some, get_or-set_self, get_or-set_ne,
}
use fun_size_os.Memory.{load32}
use fun_size_os.Pages.Inv.{page_at}
use fun_size_os.Sched.{null, task_at, at_pid, at_ppid, state_of, state_code, running}
use fun_size_os.Sched.Starve.{IsTable}
use fun_size_os.Task.{Kernel, memory_at, create_task, size_of_task, at_tss_esp0}
use fun_size_os.Task.Life.{CanCreate, Created, create_task_lem}
use fun_size_os.Task.Run.{IsIdle, found}
use fun_size_os.Switch.{Cpu, Core, Linked, interrupt, memory, sched_of, clock_handler_entry}
use fun_size_os.Switch.Stack.{KeepsFrames}
use fun_size_os.Switch.Entry.{OnStack, HasRegisters}
use fun_size_os.Switch.Dispatch.{is_first, IsDispatched, clock_handler_entry_dispatches}

abbrev pub core : Cpu → Kernel → Core
core cpu k = record { cpu = cpu; kernel = k }

-- The new task is about to execute the first instruction of `fun`, on an empty stack that leads back
-- to the exit handler, and the interrupted task's registers are kept.
pub record IsBorn (l : Linked) (fun task : ℕ) (before : Core) (r : Core) : Type 0 where
  pub eip : r.cpu.eip ≡ u32 fun
  pub esp : r.cpu.esp + 4 ≡ task + 4096
  pub handler : load32 (memory r) r.cpu.esp ≡ u32 l.exit_entry
  pub state : state_of task (memory r) ≡ state_code running
  pub current : (sched_of r).current ≡ task
  pub saved : HasRegisters (sched_of before).current before.cpu (memory r)

module _ (fuel name end fun pid j depth : ℕ) (l : Linked) (eflags cs : ℕ) (cpu : Cpu) (k : Kernel)
    (c : CanCreate fuel name end pid j k) (behind : 1 ≤ pid) (idle : IsIdle j k)
    (frames : KeepsFrames depth l) (on : OnStack depth (core cpu k)) (v : IsTable k.sched)
    (top_level : load32 (memory_at k.sched) (k.sched.current + at_pid) ≡ 0)
    (shallow : size_of_task + 8 + depth ≤ 4096) (k' : Kernel)
    (made : Created name end fun pid j k k') where
  on_same : OnStack depth (core cpu k')
  on_same = record {
    full = λ z. on.full (sym made.current ∙ z);
    page = omega (arith, made.current, on.page);
    room = omega (arith, made.current, on.room);
    top = omega (arith, made.current, on.top);
    small = omega (arith, made.current, on.small);
  }

  entry_aligned : (i : ℕ) → task_at i k'.sched.tasks % 4096 ≡ 0
  entry_aligned i = elim (Bool-cases (pid == i)) [
    | inl same ↦
        rw
          (
            made.tasks,
            ← (==_iff pid i).0 same,
            get_or-set_self k.sched.tasks pid (page_at j) null
                (omega (arith, idle.entries, c.slot.upper)),
          )
          (omega arith)
    | inr other ↦
        let ne : pid ≢ i = ground arith in
        rw (made.tasks, get_or-set_ne k.sched.tasks pid i (page_at j) null ne) (v.aligned i)
  ]

  away : page_at j ≢ k'.sched.current
  away same = omega (arith, same, made.current, c.current_away.not_page)

  parent : load32 (memory_at k'.sched) (page_at j + at_ppid) ≡ 0
  parent =
      made.task.ppid_is
      ∙ rw (ne→== null k.sched.current (λ z. on.full (sym z))) (omega (arith, top_level))

  stack_is : load32 (memory_at k'.sched) (page_at j + at_tss_esp0) ≡ page_at j + 4096
  stack_is = made.task.context.tss_esp0 ∙ omega (arith, c.grow.place.page_end)

  first_time : is_first (page_at j) (memory_at k'.sched) ≡ 4
  first_time = rw (eq→== _ 0 parent, eq→== _ 0 made.task.times_is) refl

  dispatched :
      IsDispatched l
        (page_at j)
        (core cpu k')
        (clock_handler_entry l (interrupt eflags cs (core cpu k')))
  dispatched =
      clock_handler_entry_dispatches depth l eflags cs (page_at j) (core cpu k') frames on_same
        (record { aligned = entry_aligned }) (found fuel name end fun pid j k c behind idle k' made)
        (omega arith) away
        (record {
          room = omega (arith, stack_is, shallow);
          top = omega (arith, stack_is);
          small = omega (arith, c.grow.place.page_end);
        })

  born :
      IsBorn l fun
        (page_at j)
        (core cpu k')
        (clock_handler_entry l (interrupt eflags cs (core cpu k')))
  born =
      let d = dispatched in
      record {
        eip = d.registers.eip ∙ made.task.context.eip;
        esp = omega (arith, d.esp, first_time, stack_is);
        handler = d.handler parent made.task.times_is;
        state = d.state;
        current = d.current;
        saved = d.saved;
      }

-- If the current task runs on the stack in its page, with room for the interrupt and for C frames
-- of at most the given depth, its pid is 0, every entry of the task table of 64 is a page address
-- or NULL, no task of it is ready, create_task can take free page j, which has room for the
-- frames, and the first free entry behind the idle task's, with a name of at most 31 characters,
-- and the name, the current pid and the states of the tasks lie away from where the heap writes,
-- then create_task returns page j's address, and a clock interrupt next leaves the processor at
-- the new task's function, with the address of the exit handler on top of a stack that is
-- otherwise empty, the new task current and marked as running, and the interrupted registers but
-- eax in the interrupted task's tss.
pub clock_handler_entry-create_task :
    (fuel name end fun priority pid j depth : ℕ) (l : Linked) (eflags cs : ℕ) (cpu : Cpu)
    (k : Kernel)
    → CanCreate fuel name end pid j k
    → 1 ≤ pid
    → IsIdle j k
    → KeepsFrames depth l
    → OnStack depth (core cpu k)
    → IsTable k.sched
    → load32 (memory_at k.sched) (k.sched.current + at_pid) ≡ 0
    → size_of_task + 8 + depth ≤ 4096
    → (k' : Kernel) × (create_task fuel name fun priority k ≡ some (page_at j, k'))
      × IsBorn l fun
          (page_at j)
          (core cpu k')
          (clock_handler_entry l (interrupt eflags cs (core cpu k')))
clock_handler_entry-create_task fuel name end fun priority pid j depth l eflags cs cpu k c behind
      idle frames on v top_level shallow =
    let (k', ends, made) = create_task_lem fuel name end fun priority pid j k c in
    (
      k',
      ends,
      born fuel name end fun pid j depth l eflags cs cpu k c behind idle frames on v top_level
          shallow k' made,
    )
