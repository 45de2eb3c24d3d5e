-- ===== src/Switch/Resume.antt =====
-- What the task goes on with that a switch gives the processor to.
use fun_size_os.Base.{
  ℕ, zero, suc, ◌+◌, ◌-◌, ◌%◌, ◌^◌, ◌<◌, ◌≡◌, ◌≢◌, refl, ◌∙◌, ap, arith, add32, ne→==, List, [],
  ◌∷◌,
}
use fun_size_os.Memory.{Memory, store32, load32-frame}
use fun_size_os.Machine.{num, out_byte, printk, cli, sti}
use fun_size_os.Traps.{send_eoi}
use fun_size_os.Sched.{
  Sched, null, nr_tasks, task_at, at_state, state_code, running, is_ready, find_ready_loop,
  find_ready_task, run_next, sched, do_timer, clock_handler,
}
use fun_size_os.Sched.Ready.{is_ready-same}
use fun_size_os.Sched.Starve.{IsTable}
use fun_size_os.Switch.{Cpu, Core, memory, sched_of, recover_env, task_stack, switch_idle_task}
use fun_size_os.Switch.Entry.{Elsewhere, HasRegisters}

-- Every register is a word.
pub record IsCpu (cpu : Cpu) : Type 0 where
  pub ecx : cpu.ecx < 2 ^ 32
  pub edx : cpu.edx < 2 ^ 32
  pub ebx : cpu.ebx < 2 ^ 32
  pub esp : cpu.esp < 2 ^ 32
  pub ebp : cpu.ebp < 2 ^ 32
  pub esi : cpu.esi < 2 ^ 32
  pub edi : cpu.edi < 2 ^ 32
  pub eip : cpu.eip < 2 ^ 32

-- All registers but eax come back; eax is where the task goes on.
pub switch_idle_task_lem :
    (task : ℕ) (cpu : Cpu) (r : Core)
    → (sched_of r).current ≡ task
    → IsCpu cpu
    → HasRegisters task cpu (memory r)
    → (switch_idle_task r).cpu ≡ record cpu { eax = cpu.eip }
unfolding switch_idle_task recover_env task_stack
switch_idle_task_lem task cpu r at c h = rw at (
    ground (
      arith, h.eip_is, h.esp_is, h.ecx_is, h.edx_is, h.ebx_is, h.ebp_is, h.esi_is, h.edi_is, c.ecx,
      c.edx, c.ebx, c.esp, c.ebp, c.esi, c.edi, c.eip,
    ))

pub find_ready_loop-same :
    (n i : ℕ) (tasks : List ℕ) (m m' : Memory)
    → ((j : ℕ) → is_ready (task_at j tasks) m' ≡ is_ready (task_at j tasks) m)
    → find_ready_loop n i tasks m' ≡ find_ready_loop n i tasks m
unfolding find_ready_loop
find_ready_loop-same zero i tasks m m' same = refl
find_ready_loop-same (suc n) i tasks m m' same =
    rw (same i, find_ready_loop-same n (i + 1) tasks m m' same) refl

-- What an interrupt writes does not make a task ready.
pub find_ready_task-same :
    (task : ℕ) (s s' : Sched)
    → IsTable s
    → task % 4096 ≡ 0
    → s'.tasks ≡ s.tasks
    → ((a : ℕ) → Elsewhere task a → s'.machine.memory a ≡ s.machine.memory a)
    → find_ready_task s' ≡ find_ready_task s
unfolding find_ready_task
find_ready_task-same task s s' v page tasks same =
    ap (λ t. find_ready_loop (nr_tasks - 1) 1 t s'.machine.memory) tasks
    ∙ find_ready_loop-same (nr_tasks - 1) 1 s.tasks s.machine.memory s'.machine.memory (λ j.
      is_ready-same (task_at j s.tasks) s.machine.memory s'.machine.memory (λ full.
        load32-frame s.machine.memory s'.machine.memory (task_at j s.tasks + at_state)
          (λ c p q. same c (omega (arith, v.aligned j)))))

module _ (s : Sched) where
  -- What clock_handler has done when the scheduler runs.
  unfoldable pub told : Sched
  told = record s {
    machine =
        printk "set eoi 0x%x %d\n" (num 0x20 ∷ num s.cpu_ticks ∷ []) (send_eoi 0x20 s.machine);
    cpu_ticks = add32 s.cpu_ticks 1;
  }

  pub told_memory : told.machine.memory ≡ s.machine.memory
  unfolding told printk cli sti send_eoi out_byte
  told_memory = refl

  pub told_found : find_ready_task told ≡ find_ready_task s
  unfolding told find_ready_task printk cli sti send_eoi out_byte
  told_found = refl

  pub clock_handler-told : clock_handler 0x20 s ≡ run_next (find_ready_task told) told
  unfolding clock_handler do_timer sched told
  clock_handler-told = refl

  -- With no ready task the clock makes the idle task current.
  pub clock_handler-idle :
      find_ready_task s ≡ null
      → ((clock_handler 0x20 s).machine.memory ≡ s.machine.memory)
        × ((clock_handler 0x20 s).tasks ≡ s.tasks)
        × ((clock_handler 0x20 s).current ≡ task_at 0 s.tasks)
        × ((clock_handler 0x20 s).cpu_ticks ≡ add32 s.cpu_ticks 1)
  unfolding run_next told
  clock_handler-idle none_ready =
      rw (clock_handler-told, told_found ∙ none_ready) (told_memory, refl, refl, refl)

  -- With a ready task the clock marks it as running and makes it current.
  pub clock_handler-ready :
      (n : ℕ)
      → find_ready_task s ≡ n
      → n ≢ null
      → ((clock_handler 0x20 s).machine.memory
          ≡ store32 s.machine.memory (n + at_state) (state_code running))
        × ((clock_handler 0x20 s).tasks ≡ s.tasks)
        × ((clock_handler 0x20 s).current ≡ n)
        × ((clock_handler 0x20 s).cpu_ticks ≡ add32 s.cpu_ticks 1)
  unfolding run_next told
  clock_handler-ready n found full =
      rw (clock_handler-told, told_found ∙ found, ne→== n null full)
        (ap (λ m. store32 m (n + at_state) (state_code running)) told_memory, refl, refl, refl)
