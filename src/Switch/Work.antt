-- ===== src/Switch/Work.antt =====
-- The idle task is interrupted, another task works, and the next clock interrupt comes back.
use Prim.Native.String.{String}
use fun_size_os.Base.{
  ℕ, zero, suc, [], ◌+◌, ◌%◌, ◌≤◌, ◌<◌, ◌≡◌, ◌≢◌, ◌⊎◌, inl, inr, refl, ◌∙◌, ap, arith, sym, true,
  false, ◌==◌, Bool-cases, ==_iff, List,
}
use fun_size_os.Memory.{store32, store32_ne, load32-frame}
use fun_size_os.Machine.{Arg, printk, cli, sti}
use fun_size_os.Task.{t1_fun_loop}
use fun_size_os.Sched.{
  Sched, null, nr_tasks, task_at, at_state, state_of, is_ready, find_ready_task,
}
use fun_size_os.Sched.Ready.{find_ready_task_lem, is_ready-same, is_ready_iff}
use fun_size_os.Sched.Starve.{IsTable, find_ready_task-aligned}
use fun_size_os.Switch.{
  Cpu, Core, Linked, interrupt, memory, sched_of, on_sched, on_memory, clock_handler_entry,
}
use fun_size_os.Switch.Stack.{KeepsFrames}
use fun_size_os.Switch.Entry.{OnStack, HasRegisters}
use fun_size_os.Switch.Resume.{IsCpu}
use fun_size_os.Switch.Tick.{HasRegisters-frame, IsBack, clock_handler_entry_returns}
use fun_size_os.Switch.Dispatch.{IsStartable, IsDispatched, clock_handler_entry_dispatches}

-- A step of task `n`: it computes, writes a word of its page that is not its state, or prints.
pub data Step (n : ℕ) : Core → Core → Type 0 where
  compute : (r : Core) (cpu : Cpu) → Step n r (record r { cpu = cpu })
  write :
      (r : Core) (a v : ℕ)
      → n ≤ a
      → a + 4 ≤ n + 4096
      → (a + 4 ≤ n + at_state) ⊎ (n + at_state + 4 ≤ a)
      → Step n r (on_memory (λ m. store32 m a v) r)
  print :
      (r : Core) (format : String) (args : List Arg)
      → Step n r (on_sched (λ s. record s { machine = printk format args s.machine }) r)

pub data Works (n : ℕ) (r : Core) : Core → Type 0 where
  rest : Works n r r
  next : {r' r'' : Core} → Works n r r' → Step n r' r'' → Works n r r''

-- What the steps of task `n` keep.
pub record Keeps (n : ℕ) (r r' : Core) : Type 0 where
  pub tasks : (sched_of r').tasks ≡ (sched_of r).tasks
  pub current : (sched_of r').current ≡ (sched_of r).current
  pub outside :
      (a : ℕ)
      → (a < n) ⊎ (n + 4096 ≤ a) ⊎ ((n + at_state ≤ a) × (a < n + at_state + 4))
      → memory r' a ≡ memory r a

Step-Keeps : {n : ℕ} {r r' : Core} → Step n r r' → Keeps n r r'
unfolding printk cli sti
Step-Keeps (compute r cpu) = record { tasks = refl; current = refl; outside = λ a out. refl }
Step-Keeps (write r a v low high no_state) = record {
  tasks = refl;
  current = refl;
  outside = λ c out. store32_ne (memory r) a v c (omega arith);
}
Step-Keeps (print r format args) = record { tasks = refl; current = refl; outside = λ a out. refl }

Works-Keeps : {n : ℕ} {r r' : Core} → Works n r r' → Keeps n r r'
Works-Keeps rest = record { tasks = refl; current = refl; outside = λ a out. refl }
Works-Keeps (next w s) =
    let before = Works-Keeps w in
    let step = Step-Keeps s in
    record {
      tasks = step.tasks ∙ before.tasks;
      current = step.current ∙ before.current;
      outside = λ a out. step.outside a out ∙ before.outside a out;
    }

-- The rounds of t1_fun are such work.
pub t1_fun_loop-Works :
    {n : ℕ} {r : Core} (k : ℕ) (r' : Core)
    → Works n r r'
    → Works n r (on_sched (λ s. record s { machine = t1_fun_loop k s.machine }) r')
unfolding t1_fun_loop
t1_fun_loop-Works zero r' w = w
t1_fun_loop-Works (suc k) r' w =
    t1_fun_loop-Works k
      (on_sched (λ s. record s { machine = printk "t1 task running...\n" [] s.machine }) r')
      (next w (print r' "t1 task running...\n" []))

-- Task `n` is the only one that is ready.
pub record OnlyReady (n : ℕ) (s : Sched) : Type 0 where
  pub found : find_ready_task s ≡ n
  pub others :
      (i : ℕ)
      → 1 ≤ i
      → i < nr_tasks
      → task_at i s.tasks ≢ n
      → is_ready (task_at i s.tasks) s.machine.memory ≡ false

-- The idle task is current, and task `n`, which has a saved stack, is the only one that is ready.
pub record IsLeaving (depth n : ℕ) (r : Core) : Type 0 where
  pub on : OnStack depth r
  pub aligned : IsTable (sched_of r)
  pub words : IsCpu r.cpu
  pub idle : (sched_of r).current ≡ task_at 0 (sched_of r).tasks
  pub only : OnlyReady n (sched_of r)
  pub full : n ≢ null
  pub other : n ≢ (sched_of r).current
  pub able : IsStartable depth n (memory r)

module _ (depth : ℕ) (l : Linked) (frames : KeepsFrames depth l) (eflags cs n : ℕ) (r : Core)
    (lv : IsLeaving depth n r) (r2 : Core)
    (w : Works n (clock_handler_entry l (interrupt eflags cs r)) r2) where
  abbrev r1 : Core
  r1 = clock_handler_entry l (interrupt eflags cs r)

  left : IsDispatched l n r r1
  left =
      clock_handler_entry_dispatches depth l eflags cs n r frames lv.on lv.aligned lv.only.found
        lv.full lv.other lv.able

  kept : Keeps n r1 r2
  kept = Works-Keeps w

  page : n % 4096 ≡ 0
  page = ap (λ t. t % 4096) (sym lv.only.found) ∙ find_ready_task-aligned (sched_of r) lv.aligned

  tasks_same : (sched_of r2).tasks ≡ (sched_of r).tasks
  tasks_same = kept.tasks ∙ left.tasks

  aligned2 : IsTable (sched_of r2)
  aligned2 = record { aligned = λ i. rw tasks_same (lv.aligned.aligned i) }

  still_running : state_of n (memory r2) ≡ 1
  still_running =
      load32-frame (memory r1) (memory r2) (n + at_state) (λ a p q. kept.outside a (omega arith))
      ∙ left.state

  other_state : (t : ℕ) → t % 4096 ≡ 0 → t ≢ n → state_of t (memory r2) ≡ state_of t (memory r)
  other_state t at_page ne = load32-frame (memory r) (memory r2) (t + at_state) (λ a p q.
      kept.outside a (omega (arith, page))
      ∙ left.elsewhere a (omega (arith, lv.on.page)) (omega (arith, page)))

  not_ready :
      (i : ℕ)
      → 1 ≤ i
      → i < nr_tasks
      → is_ready (task_at i (sched_of r).tasks) (memory r2) ≡ true
      → task_at i (sched_of r2).tasks ≡ null
  not_ready i low high h = elim (Bool-cases (task_at i (sched_of r).tasks == n)) [
    | inl same ↦ absurd (
        omega (
          arith,
          still_running,
          (is_ready_iff (task_at i (sched_of r).tasks) (memory r2) h).1,
          ap (λ t. state_of t (memory r2)) ((==_iff _ n).0 same),
        ))
    | inr different ↦
        let ne : task_at i (sched_of r).tasks ≢ n = ground arith in
        cc (
          h,
          lv.only.others i low high ne,
          is_ready-same (task_at i (sched_of r).tasks) (memory r) (memory r2)
              (λ full. other_state (task_at i (sched_of r).tasks) (lv.aligned.aligned i) ne),
        )
  ]

  none_ready : find_ready_task (sched_of r2) ≡ null
  none_ready = elim (find_ready_task_lem (sched_of r2)) [
    | inl (z, none_is) ↦ z
    | inr (i, f, at) ↦
        at
        ∙ not_ready i f.lower f.upper
            (ap (λ ts. is_ready (task_at i ts) (memory r2)) (sym tasks_same) ∙ f.is)
  ]

  idle_registers : HasRegisters (sched_of r).current r.cpu (memory r2)
  idle_registers =
      HasRegisters-frame (sched_of r).current r.cpu (memory r1) (memory r2)
        (λ a p q. kept.outside a (omega (arith, page, lv.on.page, lv.other))) left.saved

  now : (sched_of r2).current ≡ n
  now = kept.current ∙ left.current

  back :
      (eflags' cs' : ℕ)
      → OnStack depth r2
      → IsBack (sched_of r).current r.cpu r2 (clock_handler_entry l (interrupt eflags' cs' r2))
  back eflags' cs' on2 =
      clock_handler_entry_returns depth l eflags' cs' (sched_of r).current r.cpu r2 frames on2
        aligned2 none_ready (ap (task_at 0) tasks_same ∙ sym lv.idle)
        (λ same. lv.other (sym now ∙ sym same)) lv.words idle_registers

-- If the idle task is current, runs on the stack in its page with room for the interrupt and for C
-- frames of at most the given depth, has words in its registers, every entry of the table is a
-- page address or NULL, and one other task is the only ready one and has a saved stack with that
-- room, then after a clock interrupt, any work of that task that computes, prints, and writes its
-- own page but not its state, as the rounds of t1_fun do, and a second interrupt on its stack, the
-- idle task goes on with the registers that it had at the first interrupt but eax, and the other
-- task's registers but eax are kept in its tss.
pub clock_handler_entry_twice :
    (depth : ℕ) (l : Linked) (eflags cs eflags' cs' n : ℕ) (r r2 : Core)
    → KeepsFrames depth l
    → IsLeaving depth n r
    → Works n (clock_handler_entry l (interrupt eflags cs r)) r2
    → OnStack depth r2
    → IsBack (sched_of r).current r.cpu r2 (clock_handler_entry l (interrupt eflags' cs' r2))
clock_handler_entry_twice depth l eflags cs eflags' cs' n r r2 frames lv w on2 =
    back depth l frames eflags cs n r lv r2 w eflags' cs' on2
