-- ===== src/Switch/First.antt =====
-- A clock interrupt before there is a current task, on the stack of the boot code.
use fun_size_os.Base.{
  ℕ, ◌+◌, ◌-◌, ◌^◌, ◌≤◌, ◌<◌, ◌≡◌, ◌≢◌, ◌⊎◌, inr, refl, ◌∙◌, ap, arith, true, eq→==,
}
use fun_size_os.Memory.{load32, load32-frame}
use fun_size_os.Machine.{sti}
use fun_size_os.Sched.{
  null, nr_tasks, task_at, at_state, find_ready_loop, find_ready_task, clock_handler,
}
use fun_size_os.Sched.Ready.{is_ready-same}
use fun_size_os.Task.{at_eip, at_tss_esp0}
use fun_size_os.Switch.{
  Core, Linked, push, enter_c, interrupt, memory, sched_of, save_context, recover_env, task_stack,
  switch_idle_task, clock_handler_entry,
}
use fun_size_os.Switch.Stack.{
  KeepsFrames, Below, Below-trans, push-Below, enter_c-Below, interrupt-Below,
}
use fun_size_os.Switch.Resume.{clock_handler-idle, find_ready_loop-same}

-- The stack has room for the interrupt and the C frames, and lies below every task.
pub record OnBootStack (depth : ℕ) (r : Core) : Type 0 where
  pub none : (sched_of r).current ≡ null
  pub room : 24 + depth ≤ r.cpu.esp
  pub small : r.cpu.esp < 2 ^ 32
  pub under :
      (i : ℕ) → task_at i (sched_of r).tasks ≢ null → r.cpu.esp ≤ task_at i (sched_of r).tasks

-- The idle task is entered with its saved stack, and only the boot stack was written.
pub record IsEntered (task : ℕ) (r r' : Core) : Type 0 where
  pub eip : r'.cpu.eip ≡ load32 (memory r) (task + at_eip)
  pub esp : r'.cpu.esp ≡ load32 (memory r) (task + at_tss_esp0)
  pub current : (sched_of r').current ≡ task
  pub interrupts : (sched_of r').machine.interrupts ≡ true
  pub outside : (a : ℕ) → r.cpu.esp ≤ a → memory r' a ≡ memory r a

module _ (depth : ℕ) (l : Linked) (frames : KeepsFrames depth l) (eflags cs : ℕ) (r : Core)
    (on : OnBootStack depth r) where
  abbrev saved : Core
  saved = save_context (interrupt eflags cs r)

  abbrev c : Core
  c = enter_c l l.after_clock_handler (push 0x20 saved)

  gate-Below : Below 12 12 r (interrupt eflags cs r)
  gate-Below = interrupt-Below eflags cs r (omega (arith, on.room)) on.small

  saved-Below : Below 16 16 r saved
  unfolding save_context
  saved-Below =
      let none_yet = gate-Below.current ∙ on.none in
      let p =
        push-Below (interrupt eflags cs r).cpu.ecx (interrupt eflags cs r)
          (omega (arith, on.room, gate-Below.esp)) (omega (arith, on.small, gate-Below.esp)) in
      let b = Below-trans 16 gate-Below p (omega arith) (omega arith) in
      rw (eq→== (sched_of (interrupt eflags cs r)).current null none_yet) (record {
        esp = b.esp;
        outside = b.outside;
        tasks = b.tasks;
        current = b.current;
        ticks = b.ticks;
      })

  c-Below : Below 24 (depth + 24) r c
  c-Below =
      let p =
        push-Below 0x20 saved (omega (arith, on.room, saved-Below.esp))
          (omega (arith, on.small, saved-Below.esp)) in
      let b = Below-trans 20 saved-Below p (omega arith) (omega arith) in
      Below-trans (depth + 24) b
        (enter_c-Below depth l l.after_clock_handler (push 0x20 saved) frames
          (omega (arith, on.room, b.esp)) (omega (arith, on.small, b.esp)))
        (omega arith) (omega arith)

  c_same : (a : ℕ) → r.cpu.esp ≤ a → memory c a ≡ memory r a
  c_same a high = c-Below.outside a (inr high)

  still_none : find_ready_task (sched_of r) ≡ null → find_ready_task (sched_of c) ≡ null
  unfolding find_ready_task
  still_none none_ready =
      ap (λ t. find_ready_loop (nr_tasks - 1) 1 t (memory c)) c-Below.tasks
      ∙ find_ready_loop-same (nr_tasks - 1) 1 (sched_of r).tasks (memory r) (memory c) (λ j.
        is_ready-same (task_at j (sched_of r).tasks) (memory r) (memory c) (λ full.
          load32-frame (memory r) (memory c) (task_at j (sched_of r).tasks + at_state)
            (λ a p q. c_same a (omega (arith, on.under j full)))))
      ∙ none_ready

  pub first-IsEntered :
      (task : ℕ)
      → find_ready_task (sched_of r) ≡ null
      → task_at 0 (sched_of r).tasks ≡ task
      → (r.cpu.esp ≤ task) ⊎ (task + 72 + 24 + depth ≤ r.cpu.esp)
      → IsEntered task r (clock_handler_entry l (interrupt eflags cs r))
  unfolding clock_handler_entry switch_idle_task recover_env task_stack sti
  first-IsEntered task none_ready first apart =
      let still = still_none none_ready in
      let (kept, tasks, current, ticks) = clock_handler-idle (sched_of c) still in
      let now = current ∙ ap (task_at 0) c-Below.tasks ∙ first in
      let word = λ (o : ℕ) (inside : o + 4 ≤ 72).
        ap (λ m. load32 m (task + o)) kept
        ∙ load32-frame (memory r) (memory c) (task + o)
            (λ a p q. c-Below.outside a (omega arith)) in
      rw still (record {
        eip =
            ap (λ t. load32 (clock_handler 0x20 (sched_of c)).machine.memory (t + at_eip)) now
            ∙ word at_eip (omega arith);
        esp =
            ap (λ t. load32 (clock_handler 0x20 (sched_of c)).machine.memory (t + at_tss_esp0)) now
            ∙ word at_tss_esp0 (omega arith);
        current = now;
        interrupts = refl;
        outside = λ a h. ap (λ m. m a) kept ∙ c_same a h;
      })
