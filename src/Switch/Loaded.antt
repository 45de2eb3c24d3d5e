-- ===== src/Switch/Loaded.antt =====
-- What a task is given with its `tss`, and a call of a C function with one argument.
use fun_size_os.Base.{ℕ, ◌+◌, ◌^◌, ◌≤◌, ◌<◌, ◌≡◌, ◌⊎◌, arith, u32, add32, true, if◌then◌else◌, ◌==◌}
use fun_size_os.Memory.{Memory, load32, load32-frame}
use fun_size_os.Sched.{at_ppid, at_scheduling_times}
use fun_size_os.Task.{size_of_task, at_eip, at_tss_esp0}
use fun_size_os.Switch.{
  at_ecx, at_edx, at_ebx, at_ebp, at_esi, at_edi, Cpu, Core, Linked, push, called_with, memory,
  sched_of, recover_env,
}
use fun_size_os.Switch.Stack.{KeepsFrames, Below, Below-trans, push-Below, enter_c-Below}

abbrev pub ppid_of : Core → ℕ
ppid_of r = load32 (memory r) ((sched_of r).current + at_ppid)

abbrev pub times_of : Core → ℕ
times_of r = load32 (memory r) ((sched_of r).current + at_scheduling_times)

abbrev pub stack_of : Core → ℕ
stack_of r = load32 (memory r) ((sched_of r).current + at_tss_esp0)

-- The current task's saved stack pointer lies in its page.
pub record HasStack (depth : ℕ) (r : Core) : Type 0 where
  pub room : (sched_of r).current + size_of_task + 8 + depth ≤ stack_of r
  pub top : stack_of r ≤ (sched_of r).current + 4096
  pub small : (sched_of r).current + 4096 < 2 ^ 32

-- The registers are those of the `tss` in `m`.
pub record Loaded (task : ℕ) (m : Memory) (cpu : Cpu) : Type 0 where
  pub eip : cpu.eip ≡ load32 m (task + at_eip)
  pub ecx : cpu.ecx ≡ load32 m (task + at_ecx)
  pub edx : cpu.edx ≡ load32 m (task + at_edx)
  pub ebx : cpu.ebx ≡ load32 m (task + at_ebx)
  pub esi : cpu.esi ≡ load32 m (task + at_esi)
  pub edi : cpu.edi ≡ load32 m (task + at_edi)

-- The first time, which is told from a parent 0 and a count 0, the exit handler is pushed. The count
-- goes up for a task whose parent is 0.
pub record Switched (l : Linked) (r r' : Core) : Type 0 where
  pub registers : Loaded (sched_of r).current (memory r) r'.cpu
  pub ebp : r'.cpu.ebp ≡ load32 (memory r) ((sched_of r).current + at_ebp)
  pub esp :
      (r'.cpu.esp + (if ppid_of r == 0 then (if times_of r == 0 then 4 else 0) else 0)) ≡ stack_of r
  pub handler : ppid_of r ≡ 0 → times_of r ≡ 0 → load32 (memory r') r'.cpu.esp ≡ u32 l.exit_entry
  pub times : times_of r' ≡ (if ppid_of r == 0 then u32 (add32 (times_of r) 1) else times_of r)
  pub current : (sched_of r').current ≡ (sched_of r).current
  pub tasks : (sched_of r').tasks ≡ (sched_of r).tasks
  pub interrupts : (sched_of r').machine.interrupts ≡ true
  pub outside :
      (a : ℕ)
      → (a < (sched_of r).current + at_scheduling_times)
        ⊎ ((sched_of r).current + at_scheduling_times + 4 ≤ a)
      → (a < (sched_of r).current + size_of_task) ⊎ ((sched_of r).current + 4096 ≤ a)
      → memory r' a ≡ memory r a

pub recover_env-Loaded :
    (r : Core) (m : Memory)
    → ((a : ℕ) → (sched_of r).current ≤ a → a < (sched_of r).current + 72 → memory r a ≡ m a)
    → Loaded (sched_of r).current m (recover_env r).cpu
unfolding recover_env
recover_env-Loaded r m same =
    let at = λ (o : ℕ) (inside : o + 4 ≤ 72).
      load32-frame m (memory r) ((sched_of r).current + o)
        (λ a p q. same a (omega arith) (omega arith)) in
    record {
      eip = at at_eip (omega arith);
      ecx = at at_ecx (omega arith);
      edx = at at_edx (omega arith);
      ebx = at at_ebx (omega arith);
      esi = at at_esi (omega arith);
      edi = at at_edi (omega arith);
    }

pub called_with-Below :
    (depth : ℕ) (l : Linked) (v back : ℕ) (r : Core)
    → KeepsFrames depth l
    → depth + 8 ≤ r.cpu.esp
    → r.cpu.esp < 2 ^ 32
    → Below 0 (depth + 8) r (called_with l v back r)
unfolding called_with
called_with-Below depth l v back r f low small =
    let p = push-Below v r (omega arith) small in
    let c = enter_c-Below depth l back (push v r) f (omega (arith, p.esp)) (omega (arith, p.esp)) in
    let b = Below-trans (depth + 8) p c (omega arith) (omega arith) in
    record {
      esp = omega arith;
      outside = b.outside;
      tasks = b.tasks;
      current = b.current;
      ticks = b.ticks;
    }
