-- ===== src/Start/Idle.antt =====
-- From kernel_main over the first clock interrupt to the idle task.
use fun_size_os.Base.{
  ℕ, suc, ◌+◌, ◌≤◌, ◌≡◌, ◌≢◌, inl, inr, ◌∙◌, ap, arith, true, ◌==◌, u32, Bool-cases, ==_iff, some,
  length, get_or-set_self, get_or-set_ne,
}
use fun_size_os.Pages.Inv.{page_at}
use fun_size_os.Idt.{Entries}
use fun_size_os.Sched.{null, nr_tasks, task_at, find_ready_task}
use fun_size_os.Sched.Ready.{find_ready_task_lem}
use fun_size_os.Switch.{Cpu, Core, Linked, interrupt, sched_of, clock_handler_entry}
use fun_size_os.Switch.Stack.{KeepsFrames}
use fun_size_os.Switch.Birth.{core}
use fun_size_os.Switch.First.{OnBootStack, first-IsEntered}
use fun_size_os.Start.{System, kernel_main}
use fun_size_os.Start.Layout.{IsLoaded, IsStarted}
use fun_size_os.Start.Main.{kernel_main_lem}

-- The table of tasks is empty, and the stack of the boot code lies below 1 MB, with room for the
-- interrupt and for the C frames.
pub record IsCalm (depth : ℕ) (cpu : Cpu) (s : System) : Type 0 where
  pub entries : length s.kernel.sched.tasks ≡ nr_tasks
  pub empty : (i : ℕ) → task_at i s.kernel.sched.tasks ≡ null
  pub room : 24 + depth ≤ cpu.esp
  pub low : cpu.esp ≤ 0x10_0000

-- The processor is at the first instruction of the idle task's function, on its empty stack.
pub record IsIdling (idle : ℕ) (r : Core) : Type 0 where
  pub eip : r.cpu.eip ≡ u32 idle
  pub esp : r.cpu.esp ≡ page_at 1 + 4096
  pub current : (sched_of r).current ≡ page_at 1
  pub interrupts : (sched_of r).machine.interrupts ≡ true

module _ (depth name end idle k : ℕ) (e : Entries) (cpu : Cpu) (s : System)
    (calm : IsCalm depth cpu s) (s' : System) (up : IsStarted name end idle k e s s') where
  first_entry : task_at 0 s'.kernel.sched.tasks ≡ page_at 1
  first_entry =
      ap (task_at 0) up.tasks
      ∙ get_or-set_self s.kernel.sched.tasks 0 (page_at 1) null (omega (arith, calm.entries))

  other_entry : (i : ℕ) → 0 ≢ i → task_at i s'.kernel.sched.tasks ≡ null
  other_entry i ne =
      ap (task_at i) up.tasks
      ∙ get_or-set_ne s.kernel.sched.tasks 0 i (page_at 1) null ne
      ∙ calm.empty i

  under :
      (i : ℕ) → task_at i s'.kernel.sched.tasks ≢ null → cpu.esp ≤ task_at i s'.kernel.sched.tasks
  under i full = elim (Bool-cases (0 == i)) [
    | inl same ↦ omega (
      arith,
      calm.low,
      first_entry,
      ap (λ n. task_at n s'.kernel.sched.tasks) ((==_iff 0 i).0 same),
    )
    | inr other ↦ absurd (full (other_entry i (ground arith)))
  ]

  none_ready : find_ready_task s'.kernel.sched ≡ null
  none_ready = elim (find_ready_task_lem s'.kernel.sched) [
    | inl (z, rest) ↦ z
    | inr (i, f, at) ↦ at ∙ other_entry i (omega (arith, f.lower))
  ]

  on : OnBootStack depth (core cpu s'.kernel)
  on = record {
    none = up.current;
    room = calm.room;
    small = omega (arith, calm.low);
    under = under;
  }

  idling :
      (l : Linked) (eflags cs : ℕ)
      → KeepsFrames depth l
      → IsIdling idle (clock_handler_entry l (interrupt eflags cs (core cpu s'.kernel)))
  idling l eflags cs frames =
      let entered =
        first-IsEntered depth l frames eflags cs (core cpu s'.kernel) on (page_at 1) none_ready
          first_entry (inl (omega (arith, calm.low))) in
      record {
        eip = entered.eip ∙ up.task.context.eip;
        esp = entered.esp ∙ up.task.context.tss_esp0;
        current = entered.current;
        interrupts = entered.interrupts;
      }

-- If the machine is loaded as for kernel_main, the table of 64 tasks is empty, and the boot code's
-- stack lies below 1 MB with room for the interrupt and for C frames of at most the given depth,
-- then kernel_main comes to its endless loop, and the first clock interrupt there leaves the
-- processor at the idle task's function, with the stack pointer at the end of page 1, the idle
-- task current and interrupts on.
pub clock_handler_entry-kernel_main :
    (fuel name end idle k depth eflags cs : ℕ) (e : Entries) (l : Linked) (cpu : Cpu) (s : System)
    → IsLoaded fuel name end k e s
    → IsCalm depth cpu s
    → KeepsFrames depth l
    → (s' : System) × (kernel_main (suc fuel) name idle e s ≡ some s')
      × IsIdling idle (clock_handler_entry l (interrupt eflags cs (core cpu s'.kernel)))
clock_handler_entry-kernel_main fuel name end idle k depth eflags cs e l cpu s loaded calm frames =
    let (s', ends, up) = kernel_main_lem fuel name end idle k e s loaded in
    (s', ends, idling depth name end idle k e cpu s calm s' up l eflags cs frames)
