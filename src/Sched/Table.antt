-- ===== src/Sched/Table.antt =====
-- The task table: a free entry is looked for, and the current task gives its entry up.
use fun_size_os.Base.{
  ℕ, zero, suc, ◌+◌, ◌≤◌, ◌<◌, ◌≡◌, ◌≢◌, ◌⊎◌, inl, inr, refl, sym, arith, Bool-cases, List, ◌==◌,
  ==_iff, eq→==, ne→==, ◌∙◌, u32, length, ltb, ltb→lt, ap, get_or-set_self, get_or-set_ne,
}
use fun_size_os.Memory.{load32, load32-store32_self}
use fun_size_os.Machine.{printk, cli, sti}
use fun_size_os.Sched.{
  Sched, null, nr_tasks, minus_one, task_at, at_exit_code, find_empty_loop, find_empty_process,
  exit_at, exit_loop, current_task_exit,
}

-- Entry `i` is the first free one from `from` on, below `until`.
pub record FirstEmpty (tasks : List ℕ) (from until i : ℕ) : Type 0 where
  pub lower : from ≤ i
  pub upper : i < until
  pub empty : task_at i tasks ≡ null
  pub earlier : (j : ℕ) → from ≤ j → j < i → task_at j tasks ≢ null

-- The result of the search, of either kind.
abbrev pub Searched : List ℕ → ℕ → ℕ → ℕ → Type 0
Searched tasks from until found =
    ((found ≡ minus_one) × ((j : ℕ) → from ≤ j → j < until → task_at j tasks ≢ null))
    ⊎ FirstEmpty tasks from until found

module _ (tasks : List ℕ) (until : ℕ) where
  skip :
      (i k : ℕ)
      → task_at i tasks ≢ null
      → ((j : ℕ) → i + 1 ≤ j → j < k → task_at j tasks ≢ null)
      → (j : ℕ) → i ≤ j
      → j < k
      → task_at j tasks ≢ null
  skip i k full rest j p q = elim (Bool-cases (i == j)) [
    | inl same ↦ rw (← (==_iff i j).0 same) full
    | inr other ↦ rest j (ground arith) q
  ]

  Searched-suc :
      (i found : ℕ)
      → task_at i tasks ≢ null
      → Searched tasks (i + 1) until found
      → Searched tasks i until found
  Searched-suc i found full (inl (e, rest)) = inl (e, skip i until full rest)
  Searched-suc i found full (inr f) = inr (record {
    lower = omega (arith, f.lower);
    upper = f.upper;
    empty = f.empty;
    earlier = skip i found full f.earlier;
  })

  find_empty_loop-Searched :
      (n i : ℕ) → i + n ≡ until → Searched tasks i until (find_empty_loop n i tasks)
  unfolding find_empty_loop
  find_empty_loop-Searched zero i e = inl (refl, λ j p q. absurd (omega arith))
  find_empty_loop-Searched (suc n) i e = elim (Bool-cases (0 == task_at i tasks)) [
    | inl z ↦ rw z (
        inr (record {
          lower = omega arith;
          upper = omega arith;
          empty = ground arith;
          earlier = λ j p q. absurd (omega arith);
        }))
    | inr nz ↦ rw nz (
        Searched-suc i (find_empty_loop n (i + 1) tasks) (ground arith)
          (find_empty_loop-Searched n (i + 1) (omega arith)))
  ]

-- find_empty_process returns the first free entry of the task table and changes nothing, or, if
-- all 64 entries are taken, returns -1 and changes only the machine, not its memory.
pub find_empty_process_lem :
    (s : Sched)
    → let (pid, s') = find_empty_process s in
      (FirstEmpty s.tasks 0 nr_tasks pid × (s' ≡ s))
      ⊎ ((pid ≡ minus_one)
          × ((j : ℕ) → j < nr_tasks → task_at j s.tasks ≢ null)
          × (s' ≡ record s { machine = s'.machine })
          × (s'.machine.memory ≡ s.machine.memory))
unfolding find_empty_process printk cli sti
find_empty_process_lem s = elim (find_empty_loop-Searched s.tasks nr_tasks 64 0 refl) [
  | inl (e, full) ↦ rw (eq→== _ _ e) (inr (refl, λ j h. full j (omega arith) h, refl, refl))
  | inr f ↦
      rw (ne→== (find_empty_loop 64 0 s.tasks) minus_one (omega (arith, f.upper))) (inl (f, refl))
]

exit_loop-exit_at :
    (n i k code : ℕ) (s : Sched)
    → i ≤ k
    → k < i + n
    → s.current ≡ task_at k s.tasks
    → ((j : ℕ) → i ≤ j → j < k → s.current ≢ task_at j s.tasks)
    → exit_loop n i code s ≡ exit_at k code s
unfolding exit_loop
exit_loop-exit_at zero i k code s p q e earlier = absurd (omega arith)
exit_loop-exit_at (suc n) i k code s p q e earlier = elim (Bool-cases (i == k)) [
  | inl same ↦ let at : i ≡ k = (==_iff i k).0 same in rw (at, eq→== _ _ e)
  | inr other ↦
      let ne : i ≢ k = ground arith in
      rw (ne→== s.current (task_at i s.tasks) (earlier i (omega arith) (omega arith))) (
        exit_loop-exit_at n (i + 1) k code s (omega arith) (omega arith) e
          (λ j h l. earlier j (omega arith) l))
]

-- The task of entry `k` has left: its exit code is stored, its entry is free, every other entry is as it
-- was, and no task is current.
pub record Exited (s : Sched) (k code : ℕ) (s' : Sched) : Type 0 where
  pub stored : load32 s'.machine.memory (task_at k s.tasks + at_exit_code) ≡ u32 code
  pub freed : task_at k s'.tasks ≡ null
  pub others : (j : ℕ) → k ≢ j → task_at j s'.tasks ≡ task_at j s.tasks
  pub current : s'.current ≡ null

-- If the task table has 64 entries and the current task's first entry behind the idle task's is k,
-- current_task_exit stores the exit code in the task, frees entry k alone, and leaves no task
-- current.
pub current_task_exit_lem :
    (s : Sched) (k code : ℕ)
    → length s.tasks ≡ nr_tasks
    → 1 ≤ k
    → k < nr_tasks
    → s.current ≡ task_at k s.tasks
    → ((j : ℕ) → 1 ≤ j → j < k → s.current ≢ task_at j s.tasks)
    → Exited s k code (current_task_exit code s)
unfolding current_task_exit exit_at printk cli sti
current_task_exit_lem s k code rows p q e earlier =
    rw (exit_loop-exit_at 63 1 k code s p (omega arith) e earlier) (record {
      stored = load32-store32_self s.machine.memory (task_at k s.tasks + at_exit_code) code;
      freed = get_or-set_self s.tasks k null null (omega arith);
      others = λ j ne. get_or-set_ne s.tasks k j null null ne;
      current = refl;
    })

-- With no current task and a free entry behind the idle task's, current_task_exit stores the exit
-- code through the NULL pointer, at address 152.
pub current_task_exit-null :
    (s : Sched) (k code : ℕ)
    → s.current ≡ null
    → FirstEmpty s.tasks 1 nr_tasks k
    → load32 (current_task_exit code s).machine.memory 152 ≡ u32 code
unfolding current_task_exit exit_at printk cli sti
current_task_exit-null s k code none_current f =
    rw
      (
        exit_loop-exit_at 63 1 k code s f.lower (omega (arith, f.upper))
            (none_current ∙ sym f.empty) (λ j p q e. f.earlier j p q (sym e ∙ none_current)),
        f.empty,
      )
      (load32-store32_self s.machine.memory 152 code)

-- There is one first free entry.
FirstEmpty-eq :
    (tasks : List ℕ) (from until i j : ℕ)
    → FirstEmpty tasks from until i
    → FirstEmpty tasks from until j
    → i ≡ j
FirstEmpty-eq tasks from until i j f g = elim (Bool-cases (i == j)) [
  | inl same ↦ (==_iff i j).0 same
  | inr other ↦ elim (Bool-cases (ltb i j)) [
    | inl before ↦ absurd (g.earlier i f.lower (ltb→lt i j before) f.empty)
    | inr after ↦ absurd (f.earlier j g.lower (ground arith) g.empty)
  ]
]

pub find_empty_process-FirstEmpty :
    (s : Sched) (i : ℕ) → FirstEmpty s.tasks 0 nr_tasks i → find_empty_process s ≡ (i, s)
find_empty_process-FirstEmpty s i f = elim (find_empty_process_lem s) [
  | inl (g, same) ↦
      ap (λ p. (p, (find_empty_process s).1)) (FirstEmpty-eq s.tasks 0 nr_tasks _ i g f)
      ∙ ap (λ t. (i, t)) same
  | inr (e, full, only, rest) ↦ absurd (full i f.upper f.empty)
]
