-- ===== src/Switch/Dispatch.antt =====
-- A clock interrupt while some task is ready.
use mathlib.Core.Path.{subst}
use fun_size_os.Base.{
  ℕ, ◌+◌, ◌%◌, ◌^◌, ◌≤◌, ◌<◌, ◌≡◌, ◌≢◌, ◌⊎◌, inl, refl, ◌∙◌, ap, arith, u32, add32, sym, true,
  if◌then◌else◌, ◌==◌, ne→==,
}
use fun_size_os.Memory.{Memory, load32, store32, store32_ne, load32-frame, load32-store32_self}
use fun_size_os.Sched.{
  null, find_ready_task, clock_handler, at_ppid, at_state, at_scheduling_times, state_of,
  state_code, running,
}
use fun_size_os.Sched.Starve.{IsTable, find_ready_task-aligned}
use fun_size_os.Task.{size_of_task, at_eip, at_tss_esp0}
use fun_size_os.Switch.{
  at_ecx, at_edx, at_ebx, at_esi, at_edi, at_ebp, Core, Linked, interrupt, memory, sched_of,
  on_sched, switch_task, clock_handler_entry,
}
use fun_size_os.Switch.Stack.{KeepsFrames}
use fun_size_os.Switch.Entry.{
  OnStack, Elsewhere, HasRegisters, called, called_outside, called-HasRegisters, entered,
  called_tasks,
}
use fun_size_os.Switch.Resume.{find_ready_task-same, clock_handler-ready}
use fun_size_os.Switch.Loaded.{HasStack, Loaded, Switched}
use fun_size_os.Switch.Started.{switch_task_lem}
use fun_size_os.Switch.Tick.{HasRegisters-frame}

-- The saved stack pointer of task `n` lies in its page.
pub record IsStartable (depth n : ℕ) (m : Memory) : Type 0 where
  pub room : n + size_of_task + 8 + depth ≤ load32 m (n + at_tss_esp0)
  pub top : load32 m (n + at_tss_esp0) ≤ n + 4096
  pub small : n + 4096 < 2 ^ 32

abbrev pub is_first : ℕ → Memory → ℕ
is_first n m =
    if load32 m (n + at_ppid) == 0
    then (if load32 m (n + at_scheduling_times) == 0 then 4 else 0)
    else 0

-- Task `n` goes on with what its `tss` held, and the interrupted task's registers are kept.
pub record IsDispatched (l : Linked) (n : ℕ) (r r' : Core) : Type 0 where
  pub registers : Loaded n (memory r) r'.cpu
  pub ebp : r'.cpu.ebp ≡ load32 (memory r) (n + at_ebp)
  pub esp : r'.cpu.esp + is_first n (memory r) ≡ load32 (memory r) (n + at_tss_esp0)
  pub handler :
      load32 (memory r) (n + at_ppid) ≡ 0
      → load32 (memory r) (n + at_scheduling_times) ≡ 0
      → load32 (memory r') r'.cpu.esp ≡ u32 l.exit_entry
  pub state : state_of n (memory r') ≡ state_code running
  pub saved : HasRegisters (sched_of r).current r.cpu (memory r')
  pub current : (sched_of r').current ≡ n
  pub tasks : (sched_of r').tasks ≡ (sched_of r).tasks
  pub interrupts : (sched_of r').machine.interrupts ≡ true
  pub elsewhere :
      (a : ℕ)
      → Elsewhere (sched_of r).current a
      → (a < n) ⊎ (n + 4096 ≤ a)
      → memory r' a ≡ memory r a

module _ (depth : ℕ) (l : Linked) (frames : KeepsFrames depth l) (eflags cs : ℕ) (r : Core)
    (on : OnStack depth r) (v : IsTable (sched_of r)) (n : ℕ)
    (found : find_ready_task (sched_of r) ≡ n) (full : n ≢ null) (other : n ≢ (sched_of r).current)
    (able : IsStartable depth n (memory r)) where
  abbrev c : Core
  c = called depth l frames eflags cs r on

  abbrev next : Core
  next = on_sched (clock_handler 0x20) c

  aligned : n % 4096 ≡ 0
  aligned = ap (λ t. t % 4096) (sym found) ∙ find_ready_task-aligned (sched_of r) v

  still_found : find_ready_task (sched_of c) ≡ n
  still_found =
      find_ready_task-same (sched_of r).current (sched_of r) (sched_of c) v on.page
        (called_tasks depth l frames eflags cs r on) (called_outside depth l frames eflags cs r on)
      ∙ found

  entry_is : clock_handler_entry l (interrupt eflags cs r) ≡ switch_task l next
  unfolding clock_handler_entry called entered
  entry_is = rw (still_found, ne→== n null full) refl

  ran :
      (memory next ≡ store32 (memory c) (n + at_state) (state_code running))
      × ((sched_of next).tasks ≡ (sched_of c).tasks)
      × ((sched_of next).current ≡ n)
      × ((sched_of next).cpu_ticks ≡ add32 (sched_of c).cpu_ticks 1)
  ran = clock_handler-ready (sched_of c) n still_found full

  -- In the task's page only its state has changed.
  page_same :
      (a : ℕ)
      → n ≤ a
      → a < n + 4096
      → (a < n + at_state) ⊎ (n + at_state + 4 ≤ a)
      → memory next a ≡ memory r a
  page_same a p q no_state =
      ap (λ m. m a) ran.0
      ∙ store32_ne (memory c) (n + at_state) (state_code running) a no_state
      ∙ called_outside depth l frames eflags cs r on a (omega (arith, aligned, on.page))

  word_same :
      (o : ℕ)
      → o + 4 ≤ 4096
      → (o + 4 ≤ at_state) ⊎ (at_state + 4 ≤ o)
      → load32 (memory next) (n + o) ≡ load32 (memory r) (n + o)
  word_same o low no_state =
      load32-frame (memory r) (memory next) (n + o)
        (λ a p q. page_same a (omega arith) (omega arith) (omega arith))

  next-HasStack : HasStack depth next
  next-HasStack =
      let sp = word_same at_tss_esp0 (omega arith) (omega arith) in
      record {
        room = rw ran.2 (omega (arith, able.room, sp));
        top = rw ran.2 (omega (arith, able.top, sp));
        small = rw ran.2 able.small;
      }

  abbrev after : Core
  after = switch_task l next

  switched : Switched l next after
  switched = switch_task_lem depth l next frames next-HasStack

  -- What switch_task leaves as the clock's handler has left it.
  after_same :
      (a : ℕ)
      → (a < n + at_scheduling_times) ⊎ (n + at_scheduling_times + 4 ≤ a)
      → (a < n + size_of_task) ⊎ (n + 4096 ≤ a)
      → memory after a ≡ memory next a
  after_same a no_count out = switched.outside a (omega (arith, ran.2)) (omega (arith, ran.2))

  after_elsewhere : (a : ℕ) → (a < n) ⊎ (n + 4096 ≤ a) → memory after a ≡ memory c a
  after_elsewhere a out =
      after_same a (omega arith) (omega arith)
      ∙ ap (λ m. m a) ran.0
      ∙ store32_ne (memory c) (n + at_state) (state_code running) a (omega arith)

  after-Loaded : Loaded n (memory r) after.cpu
  after-Loaded =
      let there = subst (λ t. Loaded t (memory next) after.cpu) ran.2 switched.registers in
      record {
        eip = there.eip ∙ word_same at_eip (omega arith) (omega arith);
        ecx = there.ecx ∙ word_same at_ecx (omega arith) (omega arith);
        edx = there.edx ∙ word_same at_edx (omega arith) (omega arith);
        ebx = there.ebx ∙ word_same at_ebx (omega arith) (omega arith);
        esi = there.esi ∙ word_same at_esi (omega arith) (omega arith);
        edi = there.edi ∙ word_same at_edi (omega arith) (omega arith);
      }

  next_word :
      (o : ℕ)
      → o + 4 ≤ 4096
      → (o + 4 ≤ at_state) ⊎ (at_state + 4 ≤ o)
      → load32 (memory next) ((sched_of next).current + o) ≡ load32 (memory r) (n + o)
  next_word o low no_state = ap (λ t. load32 (memory next) (t + o)) ran.2 ∙ word_same o low no_state

  after-IsDispatched : IsDispatched l n r after
  after-IsDispatched =
      let ppid = next_word at_ppid (omega arith) (omega arith) in
      let times = next_word at_scheduling_times (omega arith) (omega arith) in
      record {
        registers = after-Loaded;
        ebp = switched.ebp ∙ next_word at_ebp (omega arith) (omega arith);
        esp =
            rw (← ppid, ← times) (switched.esp ∙ next_word at_tss_esp0 (omega arith) (omega arith));
        handler = λ top_level first. switched.handler (ppid ∙ top_level) (times ∙ first);
        state =
            load32-frame (memory next) (memory after) (n + at_state)
              (λ a p q. after_same a (inl (omega arith)) (inl (omega arith)))
            ∙ ap (λ m. load32 m (n + at_state)) ran.0
            ∙ load32-store32_self (memory c) (n + at_state) (state_code running);
        saved =
            HasRegisters-frame (sched_of r).current r.cpu (memory c) (memory after)
              (λ a p q. after_elsewhere a (omega (arith, on.page, aligned, other)))
              (called-HasRegisters depth l frames eflags cs r on);
        current = switched.current ∙ ran.2;
        tasks = switched.tasks ∙ ran.1 ∙ called_tasks depth l frames eflags cs r on;
        interrupts = switched.interrupts;
        elsewhere =
            λ a own out. after_elsewhere a out ∙ called_outside depth l frames eflags cs r on a own;
      }

-- If the current task runs on the stack in its page, with room for the interrupt and for C frames
-- of at most the given depth, every entry of the table is a page address or NULL, and the
-- scheduler finds a ready task other than the current one whose saved stack pointer lies in its
-- page with room for the frames, a clock interrupt makes that task current and running with the
-- registers that its tss holds, keeps the interrupted registers but eax in the interrupted task's
-- tss, and pushes the exit handler's address exactly if the task's parent and its count of starts
-- are both 0; outside the new task's page only that tss and that stack are written.
pub clock_handler_entry_dispatches :
    (depth : ℕ) (l : Linked) (eflags cs n : ℕ) (r : Core)
    → KeepsFrames depth l
    → OnStack depth r
    → IsTable (sched_of r)
    → find_ready_task (sched_of r) ≡ n
    → n ≢ null
    → n ≢ (sched_of r).current
    → IsStartable depth n (memory r)
    → IsDispatched l n r (clock_handler_entry l (interrupt eflags cs r))
clock_handler_entry_dispatches depth l eflags cs n r frames on v found full other able =
    rw (entry_is depth l frames eflags cs r on v n found full other able)
      (after-IsDispatched depth l frames eflags cs r on v n found full other able)
