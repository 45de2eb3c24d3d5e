-- ===== src/Switch/Started.antt =====
-- switch_task: which registers the task gets, and when the address of task_exit_handler is pushed.
use fun_size_os.Base.{
  ℕ, ◌+◌, ◌≤◌, ◌<◌, ◌≡◌, ◌≢◌, ◌⊎◌, inl, inr, refl, ◌∙◌, ap, arith, u32, add32, if◌then◌else◌, ◌==◌,
  eq→==, ne→==, Bool-cases, ==_iff,
}
use fun_size_os.Memory.{load32, load32-frame, store32_ne, load32-store32_self}
use fun_size_os.Machine.{sti}
use fun_size_os.Sched.{at_ppid, at_scheduling_times, inc_scheduling_times, get_task_ppid}
use fun_size_os.Task.{size_of_task}
use fun_size_os.Switch.{
  Core, Linked, push, enter_c, called_with, on_sched, memory, sched_of, recover_env, task_stack,
  switch_task,
}
use fun_size_os.Switch.Stack.{KeepsFrames, Below, Below-trans, push-Below, push_word}
use fun_size_os.Switch.Loaded.{
  ppid_of, times_of, stack_of, HasStack, Switched, recover_env-Loaded, called_with-Below,
}

module _ (depth : ℕ) (l : Linked) (f : KeepsFrames depth l) (r : Core) (h : HasStack depth r) where
  abbrev t : ℕ
  t = (sched_of r).current

  abbrev r1 : Core
  r1 = task_stack r

  abbrev r2 : Core
  r2 = called_with l t l.after_get_task_ppid r1

  abbrev r3 : Core
  r3 = called_with l t l.after_inc_scheduling_times r2

  abbrev r4 : Core
  r4 = on_sched (λ s. record s { machine = (inc_scheduling_times t s.machine).1 }) r3

  r1_esp : r1.cpu.esp ≡ stack_of r
  unfolding task_stack
  r1_esp = refl

  r1_memory : memory r1 ≡ memory r
  unfolding task_stack
  r1_memory = refl

  r2-Below : Below 0 (depth + 8) r1 r2
  r2-Below =
      called_with-Below depth l t l.after_get_task_ppid r1 f (omega (arith, h.room, r1_esp))
        (omega (arith, h.top, h.small, r1_esp))

  r3-Below : Below 0 (depth + 8) r1 r3
  r3-Below =
      Below-trans (depth + 8) r2-Below
        (called_with-Below depth l t l.after_inc_scheduling_times r2 f
          (omega (arith, h.room, r1_esp, r2-Below.esp))
          (omega (arith, h.top, h.small, r1_esp, r2-Below.esp)))
        (omega arith) (omega arith)

  -- Outside the stack nothing changes before the count does.
  r2_same : (a : ℕ) → (a < t + size_of_task) ⊎ (t + 4096 ≤ a) → memory r2 a ≡ memory r a
  r2_same a out =
      r2-Below.outside a (omega (arith, h.room, h.top, r1_esp)) ∙ ap (λ m. m a) r1_memory

  r3_same : (a : ℕ) → (a < t + size_of_task) ⊎ (t + 4096 ≤ a) → memory r3 a ≡ memory r a
  r3_same a out =
      r3-Below.outside a (omega (arith, h.room, h.top, r1_esp)) ∙ ap (λ m. m a) r1_memory

  ppid_is : get_task_ppid t (sched_of r2).machine ≡ ppid_of r
  unfolding get_task_ppid
  ppid_is =
      load32-frame (memory r) (memory r2) (t + at_ppid) (λ a p q. r2_same a (inl (omega arith)))

  times_same : load32 (memory r3) (t + at_scheduling_times) ≡ times_of r
  times_same =
      load32-frame (memory r) (memory r3) (t + at_scheduling_times)
        (λ a p q. r3_same a (inl (omega arith)))

  times_is : (inc_scheduling_times t (sched_of r3).machine).0 ≡ times_of r
  unfolding inc_scheduling_times
  times_is = times_same

  r4_times : load32 (memory r4) (t + at_scheduling_times) ≡ u32 (add32 (times_of r) 1)
  unfolding inc_scheduling_times
  r4_times =
      load32-store32_self (memory r3) (t + at_scheduling_times)
        (add32 (load32 (memory r3) (t + at_scheduling_times)) 1)
      ∙ ap (λ n. u32 (add32 n 1)) times_same

  r4_same :
      (a : ℕ)
      → (a < t + at_scheduling_times) ⊎ (t + at_scheduling_times + 4 ≤ a)
      → (a < t + size_of_task) ⊎ (t + 4096 ≤ a)
      → memory r4 a ≡ memory r a
  unfolding inc_scheduling_times
  r4_same a no_count out =
      store32_ne (memory r3) (t + at_scheduling_times)
        (add32 (load32 (memory r3) (t + at_scheduling_times)) 1) a no_count
      ∙ r3_same a out

  -- The three ways to the end.
  switch_task_cases : switch_task l r ≡ (
      if ppid_of r == 0
      then recover_env (if times_of r == 0 then push l.exit_entry r4 else r4)
      else recover_env r2)
  unfolding switch_task
  switch_task_cases =
      ap
        (λ p.
          if p == 0
          then recover_env (
              if (inc_scheduling_times t (sched_of r3).machine).0 == 0
              then push l.exit_entry r4
              else r4)
          else recover_env r2)
        ppid_is
      ∙ ap
          (λ n.
            if ppid_of r == 0
            then recover_env (if n == 0 then push l.exit_entry r4 else r4)
            else recover_env r2)
          times_is

  r4_esp : r4.cpu.esp ≡ stack_of r
  r4_esp = omega (arith, r3-Below.esp, r1_esp)

  pushed-Below : Below 4 4 r4 (push l.exit_entry r4)
  pushed-Below =
      push-Below l.exit_entry r4 (omega (arith, h.room, r4_esp))
        (omega (arith, h.top, h.small, r4_esp))

  pushed_same :
      (a : ℕ)
      → (a < t + size_of_task) ⊎ (t + 4096 ≤ a)
      → memory (push l.exit_entry r4) a ≡ memory r4 a
  pushed_same a out = pushed-Below.outside a (omega (arith, h.room, h.top, r4_esp))

  child-Switched : ppid_of r ≢ 0 → Switched l r (recover_env r2)
  unfolding recover_env called_with enter_c push task_stack sti
  child-Switched child =
      let e = ne→== (ppid_of r) 0 child in
      record {
        registers = recover_env-Loaded r2 (memory r) (λ a p q. r2_same a (inl (omega arith)));
        ebp = refl;
        esp = rw e (omega arith);
        handler = λ z. absurd (child z);
        times = rw e (
            load32-frame (memory r) (memory r2) (t + at_scheduling_times)
              (λ a p q. r2_same a (inl (omega arith))));
        current = refl;
        tasks = refl;
        interrupts = refl;
        outside = λ a no_count out. r2_same a out;
      }

  -- The parent is 0, and the task has been started before.
  again-Switched : ppid_of r ≡ 0 → times_of r ≢ 0 → Switched l r (recover_env r4)
  unfolding recover_env called_with enter_c push task_stack sti
  again-Switched top_level later =
      let e = eq→== (ppid_of r) 0 top_level in
      let e' = ne→== (times_of r) 0 later in
      record {
        registers =
            recover_env-Loaded r4 (memory r)
              (λ a p q. r4_same a (inl (omega arith)) (inl (omega arith)));
        ebp = refl;
        esp = rw (e, e') (omega arith);
        handler = λ z first. absurd (later first);
        times = rw e r4_times;
        current = refl;
        tasks = refl;
        interrupts = refl;
        outside = r4_same;
      }

  -- The first time.
  first-Switched :
      ppid_of r ≡ 0 → times_of r ≡ 0 → Switched l r (recover_env (push l.exit_entry r4))
  unfolding recover_env called_with enter_c push task_stack sti
  first-Switched top_level first =
      let e = eq→== (ppid_of r) 0 top_level in
      let e' = eq→== (times_of r) 0 first in
      record {
        registers = recover_env-Loaded (push l.exit_entry r4) (memory r) (λ a p q.
            pushed_same a (inl (omega arith)) ∙ r4_same a (inl (omega arith)) (inl (omega arith)));
        ebp = refl;
        esp = rw (e, e') (pushed-Below.esp ∙ r4_esp);
        handler = λ z y. push_word l.exit_entry r4;
        times = rw e (
            load32-frame (memory r4) (memory (push l.exit_entry r4)) (t + at_scheduling_times)
              (λ a p q. pushed_same a (inl (omega arith)))
            ∙ r4_times);
        current = refl;
        tasks = refl;
        interrupts = refl;
        outside = λ a no_count out. pushed_same a out ∙ r4_same a no_count out;
      }

-- If the current task's saved stack lies in its page, switch_task gives the processor the registers of
-- its `tss`, with the exit handler pushed where `Switched` says.
pub switch_task_lem :
    (depth : ℕ) (l : Linked) (r : Core)
    → KeepsFrames depth l
    → HasStack depth r
    → Switched l r (switch_task l r)
switch_task_lem depth l r f h =
    rw (switch_task_cases depth l f r h) (elim (Bool-cases (ppid_of r == 0)) [
      | inr child ↦ rw child (child-Switched depth l f r h (ground arith))
      | inl top_level ↦ elim (Bool-cases (times_of r == 0)) [
        | inl first ↦
            rw (top_level, first)
              (first-Switched depth l f r h ((==_iff _ _).0 top_level) ((==_iff _ _).0 first))
        | inr later ↦
            rw (top_level, later)
              (again-Switched depth l f r h ((==_iff _ _).0 top_level) (ground arith))
      ]
    ])
