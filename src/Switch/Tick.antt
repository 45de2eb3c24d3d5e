-- ===== src/Switch/Tick.antt =====
-- A clock interrupt while no task is ready.
use mathlib.Core.Path.{subst}
use fun_size_os.Base.{ℕ, ◌+◌, ◌≤◌, ◌<◌, ◌≡◌, ◌≢◌, refl, ◌∙◌, ap, arith, add32, sym, true}
use fun_size_os.Memory.{Memory, load32-frame}
use fun_size_os.Machine.{sti}
use fun_size_os.Sched.{null, task_at, find_ready_task, clock_handler}
use fun_size_os.Sched.Starve.{IsTable}
use fun_size_os.Task.{at_eip, at_tss_esp0}
use fun_size_os.Switch.{
  at_ecx, at_edx, at_ebx, at_ebp, at_esi, at_edi, Cpu, Core, Linked, interrupt, memory, sched_of,
  on_sched, recover_env, task_stack, switch_idle_task, clock_handler_entry,
}
use fun_size_os.Switch.Stack.{KeepsFrames}
use fun_size_os.Switch.Entry.{
  OnStack, Elsewhere, HasRegisters, called, called_outside, called-HasRegisters, entered,
  called_tasks, called_ticks,
}
use fun_size_os.Switch.Resume.{
  IsCpu, switch_idle_task_lem, find_ready_task-same, clock_handler-idle,
}

-- Registers in the `tss` of a task that another task's interrupt does not reach.
pub HasRegisters-frame :
    (t : ℕ) (cpu : Cpu) (m m' : Memory)
    → ((a : ℕ) → t ≤ a → a < t + 72 → m' a ≡ m a)
    → HasRegisters t cpu m
    → HasRegisters t cpu m'
HasRegisters-frame t cpu m m' same h =
    let at = λ (o : ℕ) (inside : o + 4 ≤ 72).
      load32-frame m m' (t + o) (λ a p q. same a (omega arith) (omega arith)) in
    record {
      eip_is = at at_eip (omega arith) ∙ h.eip_is;
      esp_is = at at_tss_esp0 (omega arith) ∙ h.esp_is;
      ecx_is = at at_ecx (omega arith) ∙ h.ecx_is;
      edx_is = at at_edx (omega arith) ∙ h.edx_is;
      ebx_is = at at_ebx (omega arith) ∙ h.ebx_is;
      ebp_is = at at_ebp (omega arith) ∙ h.ebp_is;
      esi_is = at at_esi (omega arith) ∙ h.esi_is;
      edi_is = at at_edi (omega arith) ∙ h.edi_is;
    }

-- The idle task goes on with `cpu` but for eax, and the interrupted task's registers are kept.
pub record IsBack (idle : ℕ) (cpu : Cpu) (r r' : Core) : Type 0 where
  pub registers : r'.cpu ≡ record cpu { eax = cpu.eip }
  pub saved : HasRegisters (sched_of r).current r.cpu (memory r')
  pub elsewhere : (a : ℕ) → Elsewhere (sched_of r).current a → memory r' a ≡ memory r a
  pub current : (sched_of r').current ≡ idle
  pub tasks : (sched_of r').tasks ≡ (sched_of r).tasks
  pub ticks : (sched_of r').cpu_ticks ≡ add32 (sched_of r).cpu_ticks 1
  pub interrupts : (sched_of r').machine.interrupts ≡ true

module _ (depth : ℕ) (l : Linked) (frames : KeepsFrames depth l) (eflags cs : ℕ) (r : Core)
    (on : OnStack depth r) (v : IsTable (sched_of r))
    (none_ready : find_ready_task (sched_of r) ≡ null) where
  abbrev c : Core
  c = called depth l frames eflags cs r on

  still_none : find_ready_task (sched_of c) ≡ null
  still_none =
      find_ready_task-same (sched_of r).current (sched_of r) (sched_of c) v on.page
        (called_tasks depth l frames eflags cs r on) (called_outside depth l frames eflags cs r on)
      ∙ none_ready

  entry_is :
      clock_handler_entry l (interrupt eflags cs r)
      ≡ switch_idle_task (on_sched (clock_handler 0x20) c)
  unfolding clock_handler_entry called entered
  entry_is = rw still_none refl

  ran :
      ((clock_handler 0x20 (sched_of c)).machine.memory ≡ memory c)
      × ((clock_handler 0x20 (sched_of c)).tasks ≡ (sched_of c).tasks)
      × ((clock_handler 0x20 (sched_of c)).current ≡ task_at 0 (sched_of c).tasks)
      × ((clock_handler 0x20 (sched_of c)).cpu_ticks ≡ add32 (sched_of c).cpu_ticks 1)
  ran = clock_handler-idle (sched_of c) still_none

  back :
      (idle : ℕ) (cpu : Cpu)
      → task_at 0 (sched_of r).tasks ≡ idle
      → IsCpu cpu
      → HasRegisters idle cpu (memory c)
      → IsBack idle cpu r (clock_handler_entry l (interrupt eflags cs r))
  unfolding switch_idle_task recover_env task_stack sti
  back idle cpu first words h =
      let (kept, tasks, current, ticks) = ran in
      let tasks_kept = called_tasks depth l frames eflags cs r on in
      let now = current ∙ ap (task_at 0) tasks_kept ∙ first in
      rw entry_is (record {
        registers =
            switch_idle_task_lem idle cpu (on_sched (clock_handler 0x20) c) now words
              (subst (HasRegisters idle cpu) (sym kept) h);
        saved =
            subst (HasRegisters (sched_of r).current r.cpu) (sym kept)
              (called-HasRegisters depth l frames eflags cs r on);
        elsewhere =
            λ a out. ap (λ m. m a) kept ∙ called_outside depth l frames eflags cs r on a out;
        current = now;
        tasks = tasks ∙ tasks_kept;
        ticks = ticks ∙ ap (λ n. add32 n 1) (called_ticks depth l frames eflags cs r on);
        interrupts = refl;
      })

  called_back :
      IsCpu r.cpu
      → (sched_of r).current ≡ task_at 0 (sched_of r).tasks
      → IsBack (sched_of r).current r.cpu r (clock_handler_entry l (interrupt eflags cs r))
  called_back words first =
      back (sched_of r).current r.cpu (sym first) words
        (called-HasRegisters depth l frames eflags cs r on)

-- If the current task runs on the stack in its page, with room for the interrupt and for C frames
-- of at most the given depth, every entry of the table is a page address or NULL, no task is
-- ready, the current task is the idle task and its registers are words, a clock interrupt comes
-- back to the interrupted instruction with every register as it was but eax, which holds that
-- instruction's address; the tick is counted, interrupts are on, and no byte but those of the tss
-- and of the stack is different.
pub clock_handler_entry_resumes :
    (depth : ℕ) (l : Linked) (eflags cs : ℕ) (r : Core)
    → KeepsFrames depth l
    → OnStack depth r
    → IsTable (sched_of r)
    → IsCpu r.cpu
    → find_ready_task (sched_of r) ≡ null
    → (sched_of r).current ≡ task_at 0 (sched_of r).tasks
    → IsBack (sched_of r).current r.cpu r (clock_handler_entry l (interrupt eflags cs r))
clock_handler_entry_resumes depth l eflags cs r frames on v words none_ready first =
    called_back depth l frames eflags cs r on v none_ready words first

-- If the current task runs on the stack in its page, with room for the interrupt and for C frames
-- of at most the given depth, every entry of the table is a page address or NULL, no task is ready
-- and the idle task is another one, whose tss holds the words of some registers, a clock interrupt
-- goes on with those registers but for eax, makes the idle task current and keeps the interrupted
-- registers but eax in the interrupted task's tss; only that tss and that stack are written.
pub clock_handler_entry_returns :
    (depth : ℕ) (l : Linked) (eflags cs idle : ℕ) (cpu : Cpu) (r : Core)
    → KeepsFrames depth l
    → OnStack depth r
    → IsTable (sched_of r)
    → find_ready_task (sched_of r) ≡ null
    → task_at 0 (sched_of r).tasks ≡ idle
    → idle ≢ (sched_of r).current
    → IsCpu cpu
    → HasRegisters idle cpu (memory r)
    → IsBack idle cpu r (clock_handler_entry l (interrupt eflags cs r))
clock_handler_entry_returns depth l eflags cs idle cpu r frames on v none_ready first other words
      h =
    back depth l frames eflags cs r on v none_ready idle cpu first words (
      HasRegisters-frame idle cpu (memory r) (memory (called depth l frames eflags cs r on))
        (λ a p q.
          called_outside depth l frames eflags cs r on a
            (omega (arith, v.aligned 0, first, on.page)))
        h)
