-- ===== src/Switch.antt =====
-- kernel/kernel/asm/clock_handler.asm and kernel/kernel/asm/sched.asm: what the clock's entry saves of the
-- interrupted task, and how a task is switched to. The functions of C that they call are those of `Sched`
-- and `Task`; the C functions do not return from a switch.
pub mod Words
pub mod Save
pub mod Stack
pub mod Entry
pub mod Resume
pub mod Tick
pub mod Loaded
pub mod Started
pub mod Dispatch
pub mod Birth
pub mod First
pub mod Work
pub mod Samples
mod Tests
use fun_size_os.Base.{
  ℕ, ◌+◌, ◌-◌, ◌*◌, ◌^◌, Option, some, ◌>>=◌, true, false, ◌==◌, if◌then◌else◌, sub32, add32,
}
use fun_size_os.Memory.{Memory, load32, store32}
use fun_size_os.Machine.{Machine, sti}
use fun_size_os.Sched.{
  Sched, null, find_ready_task, sched, clock_handler, inc_scheduling_times, get_task_ppid,
}
use fun_size_os.Task.{Kernel, memory_at, with_memory, at_tss_esp0, at_eip, task_exit}

-- The registers that the two files name. `eip` is where the processor goes on.
pub record Cpu : Type 0 where
  pub eax : ℕ
  pub ecx : ℕ
  pub edx : ℕ
  pub ebx : ℕ
  pub esp : ℕ
  pub ebp : ℕ
  pub esi : ℕ
  pub edi : ℕ
  pub eip : ℕ

pub record Core : Type 0 where
  pub cpu : Cpu
  pub kernel : Kernel

-- What the assembler, the linker and the compiler give: the addresses behind the calls, and what the
-- frames of a C function leave in the memory below the stack pointer that it is called with.
pub record Linked : Type 0 where
  pub exit_entry : ℕ
  pub after_clock_handler : ℕ
  pub after_get_task_ppid : ℕ
  pub after_inc_scheduling_times : ℕ
  pub after_task_exit : ℕ
  pub after_sched : ℕ
  pub leave : ℕ → Memory → Memory

-- The other fields of `tss_t` that are named.
abbrev pub at_eax : ℕ
at_eax = 40

abbrev pub at_ecx : ℕ
at_ecx = 44

abbrev pub at_edx : ℕ
at_edx = 48

abbrev pub at_ebx : ℕ
at_ebx = 52

abbrev pub at_ebp : ℕ
at_ebp = 60

abbrev pub at_esi : ℕ
at_esi = 64

abbrev pub at_edi : ℕ
at_edi = 68

abbrev pub sched_of : Core → Sched
sched_of r = r.kernel.sched

abbrev pub memory : Core → Memory
memory r = memory_at r.kernel.sched

abbrev pub on_sched : (Sched → Sched) → Core → Core
on_sched f r = record r { kernel = record r.kernel { sched = f r.kernel.sched } }

abbrev pub on_memory : (Memory → Memory) → Core → Core
on_memory f r = on_sched (λ s. with_memory (f (memory_at s)) s) r

abbrev pub with_esp : ℕ → Core → Core
with_esp v r = record r { cpu = record r.cpu { esp = v } }

unfoldable pub push : ℕ → Core → Core
push v r = let top = sub32 r.cpu.esp 4 in with_esp top (on_memory (λ m. store32 m top v) r)

-- The stack of a call with the return address `back`, and what the C function's frames leave there.
unfoldable pub enter_c : Linked → ℕ → Core → Core
enter_c l back r = let r1 = push back r in on_memory (l.leave r1.cpu.esp) r1

-- The processor, at an interrupt gate.
unfoldable pub interrupt : (eflags cs : ℕ) → Core → Core
interrupt eflags cs r =
    let r1 = push r.cpu.eip (push cs (push eflags r)) in
    on_sched (λ s. record s { machine = record s.machine { interrupts = false } }) r1

-- The stores into the task's `tss`, in their order; `esp` points at the pushed ecx.
unfoldable pub save_registers : (task : ℕ) → Cpu → Memory → Memory
save_registers task cpu m =
    let m1 = store32 m (task + at_eax) cpu.eax in
    let m2 = store32 m1 (task + at_edx) cpu.edx in
    let m3 = store32 m2 (task + at_ebx) cpu.ebx in
    let m4 = store32 m3 (task + at_ebp) cpu.ebp in
    let m5 = store32 m4 (task + at_esi) cpu.esi in
    let m6 = store32 m5 (task + at_edi) cpu.edi in
    let m7 = store32 m6 (task + at_eip) (load32 m6 (add32 cpu.esp 4)) in
    let m8 = store32 m7 (task + at_tss_esp0) (add32 cpu.esp 0x10) in
    store32 m8 (task + at_ecx) (load32 m8 cpu.esp)

-- clock_handler_entry up to .call_handler; ecx is popped only where there is a current task.
unfoldable pub save_context : Core → Core
save_context r =
    let r1 = push r.cpu.ecx r in
    let task = (sched_of r).current in
    let saved = on_memory (save_registers task r1.cpu) r1 in
    if task == null
    then record r1 { cpu = record r1.cpu { ecx = task } }
    else record saved { cpu = record r1.cpu { eax = task; esp = add32 r1.cpu.esp 4 } }

-- `.recover_env`, with the stack already that of the task.
unfoldable pub recover_env : Core → Core
recover_env r =
    let task = (sched_of r).current in
    let m = memory r in
    on_sched (λ s. record s { machine = sti s.machine })
      (record r {
        cpu = record r.cpu {
          ecx = load32 m (task + at_ecx);
          edx = load32 m (task + at_edx);
          ebx = load32 m (task + at_ebx);
          esi = load32 m (task + at_esi);
          edi = load32 m (task + at_edi);
          eax = load32 m (task + at_eip);
          eip = load32 m (task + at_eip);
        };
      })

unfoldable pub task_stack : Core → Core
task_stack r =
    let task = (sched_of r).current in
    record r {
      cpu = record r.cpu {
        eax = task;
        esp = load32 (memory r) (task + at_tss_esp0);
        ebp = load32 (memory r) (task + at_ebp);
      };
    }

unfoldable pub switch_idle_task : Core → Core
switch_idle_task r = recover_env (task_stack r)

-- A call with one argument, after which the stack pointer is as before.
unfoldable pub called_with : Linked → ℕ → ℕ → Core → Core
called_with l v back r = with_esp r.cpu.esp (enter_c l back (push v r))

-- Both C functions take the task from the stack; `add esp, 4` drops it.
unfoldable pub switch_task : Linked → Core → Core
switch_task l r =
    let r1 = task_stack r in
    let task = (sched_of r).current in
    let r2 = called_with l task l.after_get_task_ppid r1 in
    let r3 = called_with l task l.after_inc_scheduling_times r2 in
    let (times, machine) = inc_scheduling_times task (sched_of r3).machine in
    let r4 = on_sched (λ s. record s { machine = machine }) r3 in
    if get_task_ppid task (sched_of r2).machine == 0
    then recover_env (if times == 0 then push l.exit_entry r4 else r4)
    else recover_env r2

-- sched() with the switch at its end.
unfoldable pub switch : Linked → Core → Core
switch l r =
    let r' = on_sched sched r in
    if find_ready_task (sched_of r) == null then switch_idle_task r' else switch_task l r'

-- clock_handler with the switch at its end; what it prints and counts is in `Sched`.
unfoldable pub clock_handler_entry : Linked → Core → Core
clock_handler_entry l r =
    let called = enter_c l l.after_clock_handler (push 0x20 (save_context r)) in
    let r' = on_sched (clock_handler 0x20) called in
    if find_ready_task (sched_of called) == null then switch_idle_task r' else switch_task l r'

-- A task's function has returned. The stack is in the page that task_exit gives back.
unfoldable pub task_exit_handler : (fuel : ℕ) → Linked → Core → Option Core
task_exit_handler fuel l r =
    let task = (sched_of r).current in
    let r1 = enter_c l l.after_task_exit (push 0 (push task r)) in
    task_exit fuel 0 task r1.kernel >>= λ k.
    some (switch l (enter_c l l.after_sched (with_esp r.cpu.esp (record r1 { kernel = k }))))
