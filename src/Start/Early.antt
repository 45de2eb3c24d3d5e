-- ===== src/Start/Early.antt =====
-- A clock interrupt before task_init: printk has turned interrupts on, and there is no task.
use Prim.Native.String.{String}
use fun_size_os.Base.{ℕ, zero, suc, ◌+◌, ◌≤◌, ◌≡◌, inl, inr, refl, ◌∙◌, arith, true, List, []}
use fun_size_os.Machine.{Machine, Arg, printk, cli, sti}
use fun_size_os.Idt.{Entries}
use fun_size_os.Pages.{Pages, times, print_loop, print_check_memory_info, memory_init}
use fun_size_os.Pages.Zone.{memory_init-interrupts, memory_map_int-interrupts}
use fun_size_os.Sched.{null, task_at, find_ready_task, clock_init}
use fun_size_os.Sched.Ready.{find_ready_task_lem}
use fun_size_os.Switch.{Cpu, Linked, interrupt, clock_handler_entry}
use fun_size_os.Switch.Stack.{KeepsFrames}
use fun_size_os.Switch.Birth.{core}
use fun_size_os.Switch.First.{OnBootStack, IsEntered, first-IsEntered}
use fun_size_os.Start.{
  System, machine_of, on_machine, on_pages, set_up_tables, greet, set_up_memory,
}
use fun_size_os.Start.Idle.{IsCalm}

printk-interrupts :
    (format : String) (args : List Arg) (m : Machine) → (printk format args m).interrupts ≡ true
unfolding printk cli sti
printk-interrupts format args m = refl

print_loop-interrupts :
    (n i : ℕ) (m : Machine) → m.interrupts ≡ true → (print_loop n i m).interrupts ≡ true
unfolding print_loop printk cli sti
print_loop-interrupts zero i m on = on
print_loop-interrupts (suc n) i m on = print_loop-interrupts n (i + 1) _ refl

greet-interrupts : (m : Machine) → (greet m).interrupts ≡ true
unfolding greet print_check_memory_info
greet-interrupts m =
    let told = printk "init idt success ...\n" [] (printk "init gdt success ...\n" [] m) in
    let hello = printk "Hello FunsizeOS ...\n" [] (clock_init told) in
    print_loop-interrupts (times hello.memory) 0 hello
      (printk-interrupts "Hello FunsizeOS ...\n" [] (clock_init told))

set_up_memory-interrupts :
    (s : Pages) → s.machine.interrupts ≡ true → (set_up_memory s).machine.interrupts ≡ true
unfolding set_up_memory
set_up_memory-interrupts s on =
    memory_map_int-interrupts (memory_init s) (memory_init-interrupts s on)

abbrev pub before_tasks : Entries → System → System
before_tasks e s = on_pages set_up_memory (on_machine greet (set_up_tables e s))

module _ (depth : ℕ) (e : Entries) (cpu : Cpu) (s : System) (calm : IsCalm depth cpu s)
    (deep : 96 + depth ≤ cpu.esp) (no_current : s.kernel.sched.current ≡ null) where
  early-OnBootStack : OnBootStack depth (core cpu (before_tasks e s).kernel)
  unfolding set_up_tables
  early-OnBootStack = record {
    none = no_current;
    room = calm.room;
    small = omega (arith, calm.low);
    under = λ i full. absurd (full (calm.empty i));
  }

  early_none_ready : find_ready_task (before_tasks e s).kernel.sched ≡ null
  unfolding set_up_tables
  early_none_ready = elim (find_ready_task_lem (before_tasks e s).kernel.sched) [
    | inl (z, rest) ↦ z
    | inr (i, f, at) ↦ at ∙ calm.empty i
  ]

  early_first : task_at 0 (before_tasks e s).kernel.sched.tasks ≡ null
  unfolding set_up_tables
  early_first = calm.empty 0

  early_interrupts : (machine_of (before_tasks e s)).interrupts ≡ true
  early_interrupts = set_up_memory-interrupts _ (greet-interrupts (machine_of (set_up_tables e s)))

-- The state of kernel_main before task_init: interrupts are on, and a clock interrupt goes on at what
-- the word at 32 says, with the stack that the word at 4 says.
pub record IsLost (e : Entries) (l : Linked) (eflags cs : ℕ) (cpu : Cpu) (s : System) : Type 0 where
  pub interrupts : (machine_of (before_tasks e s)).interrupts ≡ true
  pub lost :
      IsEntered null
        (core cpu (before_tasks e s).kernel)
        (clock_handler_entry l (interrupt eflags cs (core cpu (before_tasks e s).kernel)))

-- If the table of 64 tasks is empty, there is no current task, and the boot code's stack lies
-- below 1 MB and above the first 72 bytes, with room for the interrupt and the C frames, then
-- before task_init interrupts are already on, and a clock interrupt there makes NULL the current
-- task and goes on at the address in the word at 32, with the stack pointer from the word at 4; no
-- byte from the interrupted stack pointer on is different.
pub clock_handler_entry_null :
    (depth eflags cs : ℕ) (e : Entries) (l : Linked) (cpu : Cpu) (s : System)
    → IsCalm depth cpu s
    → s.kernel.sched.current ≡ null
    → 96 + depth ≤ cpu.esp
    → KeepsFrames depth l
    → IsLost e l eflags cs cpu s
clock_handler_entry_null depth eflags cs e l cpu s calm no_current deep frames = record {
  interrupts = early_interrupts depth e cpu s calm deep no_current;
  lost =
      first-IsEntered depth l frames eflags cs (core cpu (before_tasks e s).kernel)
        (early-OnBootStack depth e cpu s calm deep no_current) null
        (early_none_ready depth e cpu s calm deep no_current)
        (early_first depth e cpu s calm deep no_current) (inr (omega arith));
}
