-- ===== src/Sched/Starve.antt =====
-- A task that has been picked is never picked again: the scheduler marks it as running, and nothing
-- marks it as ready when the clock takes the processor away from it.
use fun_size_os.Base.{
  ℕ, zero, suc, ◌+◌, ◌%◌, ◌≡◌, ◌≢◌, ◌⊎◌, inl, inr, refl, sym, arith, false, Bool-cases, ◌∷◌, ◌==◌,
  ==_iff, ne→==, ap, ◌∙◌,
}
use fun_size_os.Memory.{load32-store32_self, load32-store32_ne}
use fun_size_os.Sched.{
  Sched, null, nr_tasks, at_state, task_at, state_of, state_code, ready, running, find_ready_task,
  run_next, sched,
}
use fun_size_os.Sched.Ready.{FirstReady, NoneReady, Picked, find_ready_task_lem, is_ready_iff}

-- The tasks are pages: each entry of the table is NULL or the address of a page.
pub record IsTable (s : Sched) : Type 0 where
  pub aligned : (i : ℕ) → task_at i s.tasks % 4096 ≡ 0

-- What run_next leaves: the table as it was, and the state of each task but the one that it starts.
pub record Ran (s : Sched) (next : ℕ) (s' : Sched) : Type 0 where
  pub tasks : s'.tasks ≡ s.tasks
  pub started : next ≢ null → state_of next s'.machine.memory ≡ state_code running
  pub others :
      (t : ℕ) → t % 4096 ≡ 0 → t ≢ next → state_of t s'.machine.memory ≡ state_of t s.machine.memory

run_next-Ran : (s : Sched) (next : ℕ) → next % 4096 ≡ 0 → Ran s next (run_next next s)
unfolding run_next
run_next-Ran s next aligned = elim (Bool-cases (next == null)) [
  | inl e ↦ rw e (record {
    tasks = refl;
    started = λ ne. absurd (ne ((==_iff _ _).0 e));
    others = λ t a ne. refl;
  })
  | inr e ↦ rw e (record {
    tasks = refl;
    started = λ ne. load32-store32_self s.machine.memory (next + at_state) (state_code running);
    others = λ t a ne.
        load32-store32_ne s.machine.memory (next + at_state) (state_code running) (t + at_state)
          (omega arith);
  })
]

Picked-aligned :
    (s : Sched) {next : ℕ}
    → IsTable s
    → Picked s.tasks s.machine.memory 1 nr_tasks next
    → next % 4096 ≡ 0
Picked-aligned s v (inl (e, rest)) = omega (arith, e)
Picked-aligned s v (inr (i, f, e)) = omega (arith, e, v.aligned i)

Picked-ready :
    (s : Sched) {next : ℕ}
    → Picked s.tasks s.machine.memory 1 nr_tasks next
    → next ≢ null
    → state_of next s.machine.memory ≡ state_code ready
Picked-ready s (inl (e, rest)) ne = absurd (ne e)
Picked-ready s (inr (i, f, e)) ne = rw e (is_ready_iff (task_at i s.tasks) s.machine.memory f.is).1

pub find_ready_task-aligned : (s : Sched) → IsTable s → find_ready_task s % 4096 ≡ 0
find_ready_task-aligned s v = Picked-aligned s v (find_ready_task_lem s)

pub sched-Ran : (s : Sched) → IsTable s → Ran s (find_ready_task s) (sched s)
unfolding sched
sched-Ran s v = run_next-Ran s (find_ready_task s) (find_ready_task-aligned s v)

-- What sched has done: with a ready task behind the idle task, it has started the first one; with none,
-- it has gone back to the idle task and changed no memory.
pub record Scheduled (s : Sched) (s' : Sched) : Type 0 where
  pub picked :
      ((s'.current ≡ task_at 0 s.tasks)
        × NoneReady s.tasks s.machine.memory 1 nr_tasks
        × (s'.machine ≡ s.machine))
      ⊎ ((i : ℕ) × FirstReady s.tasks s.machine.memory 1 nr_tasks i
          × (s'.current ≡ task_at i s.tasks)
          × (state_of s'.current s'.machine.memory ≡ state_code running))
  pub switched : s'.dispatched ≡ s'.current ∷ s.dispatched
  pub others :
      (t : ℕ)
      → t % 4096 ≡ 0
      → t ≢ s'.current
      → state_of t s'.machine.memory ≡ state_of t s.machine.memory

run_next-Scheduled :
    (s : Sched) (next : ℕ)
    → IsTable s
    → Picked s.tasks s.machine.memory 1 nr_tasks next
    → Scheduled s (run_next next s)
unfolding run_next
run_next-Scheduled s next v (inl (e, rest)) =
    rw e (record { picked = inl (refl, rest, refl); switched = refl; others = λ t a ne. refl })
run_next-Scheduled s next v (inr (i, f, e)) =
    let is_task : (task_at i s.tasks == null) ≡ false =
      ne→== _ _ (is_ready_iff (task_at i s.tasks) s.machine.memory f.is).0 in
    rw (e, is_task)
      (record {
        picked = inr (
          i,
          f,
          refl,
          load32-store32_self s.machine.memory (task_at i s.tasks + at_state) (state_code running),
        );
        switched = refl;
        others = λ t a ne.
            load32-store32_ne s.machine.memory (task_at i s.tasks + at_state) (state_code running)
              (t + at_state) (omega (arith, v.aligned i));
      })

-- Where the entries of the task table are page addresses, sched starts the first ready task behind
-- the idle task, marks it as running and makes it current, or, exactly if none is ready, goes back
-- to the idle task with the machine unchanged; no other task's state changes.
pub sched_lem : (s : Sched) → IsTable s → Scheduled s (sched s)
unfolding sched
sched_lem s v = run_next-Scheduled s (find_ready_task s) v (find_ready_task_lem s)

sched-IsTable : (s : Sched) → IsTable s → IsTable (sched s)
sched-IsTable s v = record { aligned = λ i. rw (sched-Ran s v).tasks (v.aligned i) }

-- `t` is a task that has been started.
pub record IsRunning (t : ℕ) (s : Sched) : Type 0 where
  pub page : t % 4096 ≡ 0
  pub task : t ≢ null
  pub state : state_of t s.machine.memory ≡ state_code running

running_not_picked : {t : ℕ} (s : Sched) → IsRunning t s → find_ready_task s ≢ t
running_not_picked {t} s r e = omega (
  arith,
  r.state,
  Picked-ready s (find_ready_task_lem s) (λ z. r.task (sym e ∙ z)),
  ap (λ p. state_of p s.machine.memory) e,
)

sched-IsRunning : {t : ℕ} (s : Sched) → IsTable s → IsRunning t s → IsRunning t (sched s)
sched-IsRunning {t} s v r = record {
  page = r.page;
  task = r.task;
  state = (sched-Ran s v).others t r.page (λ e. running_not_picked s r (sym e)) ∙ r.state;
}

-- `n` further calls of sched.
pub sched_times : ℕ → Sched → Sched
sched_times zero s = s
sched_times (suc n) s = sched_times n (sched s)

never_again :
    {t : ℕ} (n : ℕ) (s : Sched) → IsTable s → IsRunning t s → find_ready_task (sched_times n s) ≢ t
unfolding sched_times
never_again zero s v r = running_not_picked s r
never_again (suc n) s v r = never_again n (sched s) (sched-IsTable s v) (sched-IsRunning s v r)

-- Where the entries of the task table are page addresses, a task that sched has picked is picked
-- by none of the following calls of sched, however many there are.
pub sched_starves :
    (s : Sched) (n : ℕ)
    → IsTable s
    → find_ready_task s ≢ null
    → find_ready_task (sched_times n (sched s)) ≢ find_ready_task s
sched_starves s n v found = never_again n (sched s) (sched-IsTable s v) (record {
  page = Picked-aligned s v (find_ready_task_lem s);
  task = found;
  state = (sched-Ran s v).started found;
})
