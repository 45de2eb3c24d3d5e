-- ===== src/Sched/Ready.antt =====
-- Which task the scheduler picks.
use fun_size_os.Base.{
  ℕ, zero, suc, ◌+◌, ◌≤◌, ◌<◌, ◌≡◌, ◌≢◌, ◌⊎◌, inl, inr, refl, arith, true, false, Bool-cases, List,
  ◌==◌, ==_iff, ne→==, eq→==, sym, ◌∙◌,
}
use fun_size_os.Memory.{Memory}
use fun_size_os.Sched.{
  Sched, null, nr_tasks, task_at, state_of, state_code, ready, is_ready, find_ready_loop,
  find_ready_task,
}

-- Entry `i` is the first ready task from `from` on, below `until`.
pub record FirstReady (tasks : List ℕ) (m : Memory) (from until i : ℕ) : Type 0 where
  pub lower : from ≤ i
  pub upper : i < until
  pub is : is_ready (task_at i tasks) m ≡ true
  pub earlier : (j : ℕ) → from ≤ j → j < i → is_ready (task_at j tasks) m ≡ false

abbrev pub NoneReady : List ℕ → Memory → ℕ → ℕ → Type 0
NoneReady tasks m from until = (j : ℕ) → from ≤ j → j < until → is_ready (task_at j tasks) m ≡ false

-- The pick `next` of the loop, of either kind.
abbrev pub Picked : List ℕ → Memory → ℕ → ℕ → ℕ → Type 0
Picked tasks m from until next =
    ((next ≡ null) × NoneReady tasks m from until)
    ⊎ ((i : ℕ) × FirstReady tasks m from until i × (next ≡ task_at i tasks))

module _ (tasks : List ℕ) (m : Memory) (until : ℕ) where
  find_ready_loop-Picked :
      (n i : ℕ) → i + n ≡ until → Picked tasks m i until (find_ready_loop n i tasks m)
  unfolding find_ready_loop
  find_ready_loop-Picked zero i e = inl (refl, λ j p q. absurd (omega arith))
  find_ready_loop-Picked (suc n) i e = elim (Bool-cases (is_ready (task_at i tasks) m)) [
    | inl r ↦ rw r (
        inr (
          i,
          record {
            lower = omega arith;
            upper = omega arith;
            is = r;
            earlier = λ j p q. absurd (omega arith);
          },
          refl,
        ))
    | inr r ↦ rw r (later r (find_ready_loop-Picked n (i + 1) (omega arith)))
  ]
    where
      not_before :
          is_ready (task_at i tasks) m ≡ false
          → (k : ℕ) → ((j : ℕ) → i + 1 ≤ j → j < k → is_ready (task_at j tasks) m ≡ false)
          → (j : ℕ) → i ≤ j
          → j < k
          → is_ready (task_at j tasks) m ≡ false
      not_before r k rest j p q = elim (Bool-cases (i == j)) [
        | inl same ↦ rw (← (==_iff i j).0 same) r
        | inr other ↦ rest j (ground arith) q
      ]

      later :
          is_ready (task_at i tasks) m ≡ false
          → Picked tasks m (i + 1) until (find_ready_loop n (i + 1) tasks m)
          → Picked tasks m i until (find_ready_loop n (i + 1) tasks m)
      later r (inl (e', rest)) = inl (e', not_before r until rest)
      later r (inr (k, f, e')) = inr (
        k,
        record {
          lower = omega (arith, f.lower);
          upper = f.upper;
          is = f.is;
          earlier = not_before r k f.earlier;
        },
        e',
      )

-- find_ready_task returns the first ready task behind the idle task, and NULL exactly if there is
-- none.
pub find_ready_task_lem :
    (s : Sched) → Picked s.tasks s.machine.memory 1 nr_tasks (find_ready_task s)
unfolding find_ready_task
find_ready_task_lem s = find_ready_loop-Picked s.tasks s.machine.memory nr_tasks 63 1 refl

-- A ready task is a task in the state TASK_READY.
pub is_ready_iff :
    (task : ℕ) (m : Memory)
    → is_ready task m ≡ true
    → (task ≢ null) × (state_of task m ≡ state_code ready)
unfolding is_ready
is_ready_iff task m h = ground arith

pub is_ready-true :
    (t : ℕ) (m : Memory) → t ≢ null → state_of t m ≡ state_code ready → is_ready t m ≡ true
unfolding is_ready
is_ready-true t m full e = rw (ne→== t null full, eq→== (state_of t m) 2 e) refl

pub is_ready-null : (t : ℕ) (m : Memory) → t ≡ null → is_ready t m ≡ false
unfolding is_ready
is_ready-null t m z = rw (eq→== t null z) refl

pub is_ready-same :
    (t : ℕ) (m m' : Memory)
    → (t ≢ null → state_of t m' ≡ state_of t m)
    → is_ready t m' ≡ is_ready t m
unfolding is_ready
is_ready-same t m m' same = elim (Bool-cases (t == null)) [
  | inl z ↦ rw z refl
  | inr nz ↦ rw (same (ground arith)) refl
]

-- If nothing is found, no entry is ready.
pub find_ready_task-null :
    (s : Sched) → find_ready_task s ≡ null → NoneReady s.tasks s.machine.memory 1 nr_tasks
find_ready_task-null s e = elim (find_ready_task_lem s) [
  | inl (z, rest) ↦ rest
  | inr (i, f, at) ↦ cc (f.is, is_ready-null (task_at i s.tasks) s.machine.memory (sym at ∙ e))
]
