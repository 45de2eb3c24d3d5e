-- ===== src/Task/Exit.antt =====
-- task_exit of a task that create_task has made.
use fun_size_os.Base.{
  ℕ, zero, suc, ◌+◌, ◌≤◌, ◌<◌, ◌≡◌, ◌≢◌, ◌⊎◌, inl, inr, refl, sym, ◌∙◌, ap, arith, length, set,
  get_or-set_self, get_or-set_ne, some, Option, ◌==◌, ==_iff, eq→==, ne→==, Bool-cases, ◌>>=◌,
}
use fun_size_os.Memory.{store32_ne}
use fun_size_os.Machine.{printk, cli, sti}
use fun_size_os.Pages.Inv.{page_at}
use fun_size_os.Heap.{Heap, memory_of, find_bucket, kfree_s}
use fun_size_os.Heap.Buckets.{find_bucket-Picked, set-set, set-get_or}
use fun_size_os.Heap.NewPage.{HasNewPage, HasNewPage-frame}
use fun_size_os.Heap.RoundTrip.{Restored, freed_heap, kfree_s-freed, freed_heap-Restored}
use fun_size_os.Sched.{null, nr_tasks, task_at, at_exit_code, exit_at}
use fun_size_os.Task.{Kernel, heap_of, with_heap, memory_at, create_task, task_exit_loop, task_exit}
use fun_size_os.Task.Life.{CanCreate, Created, single, create_task_lem}

-- Entry `i` given up, and its page given back.
exit_step : (fuel i code : ℕ) → Kernel → Option Kernel
exit_step fuel i code k =
    let exited = record k { sched = exit_at i code k.sched } in
    kfree_s fuel (task_at i k.sched.tasks) 4096 (heap_of exited) >>= λ h. some (with_heap h exited)

-- The loop acts on the first entry that is the task.
task_exit_loop-step :
    (fuel n i code task pid : ℕ) (k : Kernel)
    → i ≤ pid
    → pid < i + n
    → ((m : ℕ) → i ≤ m → m < pid → task_at m k.sched.tasks ≢ task)
    → task_at pid k.sched.tasks ≡ task
    → task_exit_loop fuel n i code task k ≡ exit_step fuel pid code k
unfolding task_exit_loop exit_step
task_exit_loop-step fuel zero i code task pid k from until earlier at = absurd (omega arith)
task_exit_loop-step fuel (suc n) i code task pid k from until earlier at =
    elim (Bool-cases (i == pid)) [
      | inl same ↦
          let here : pid ≡ i = sym ((==_iff i pid).0 same) in
          let hit : task ≡ task_at i k.sched.tasks =
            sym at ∙ ap (λ x. task_at x k.sched.tasks) here in
          rw (here, eq→== task (task_at i k.sched.tasks) hit) refl
      | inr other ↦
          let before : i < pid = ground arith in
          let miss : task ≢ task_at i k.sched.tasks = λ e. earlier i (omega arith) before (sym e) in
          rw (ne→== task (task_at i k.sched.tasks) miss) (
            task_exit_loop-step fuel n (i + 1) code task pid k (omega arith) (omega arith)
              (λ m p q. earlier m (omega arith) q) at)
    ]

-- The task's page is in the table once.
pub record IsNew (pid j : ℕ) (k : Kernel) : Type 0 where
  pub entries : length k.sched.tasks ≡ nr_tasks
  pub behind_idle : 1 ≤ pid
  pub fresh : (m : ℕ) → m < pid → task_at m k.sched.tasks ≢ page_at j

-- What is left: the table and the heap are as they were, and no task is current.
pub record Exited (j : ℕ) (k k' : Kernel) : Type 0 where
  pub tasks : k'.sched.tasks ≡ k.sched.tasks
  pub current : k'.sched.current ≡ null
  pub heap : Restored (heap_of k) j (heap_of k')

module _ (fuel name end fun pid j code : ℕ) (k : Kernel) (c : CanCreate fuel name end pid j k)
    (n : IsNew pid j k) (k' : Kernel) (made : Created name end fun pid j k k') where
  exited : Kernel
  exited = record k' { sched = exit_at pid code k'.sched }

  entry : task_at pid k'.sched.tasks ≡ page_at j
  entry =
      ap (λ t. task_at pid t) made.tasks
      ∙ get_or-set_self k.sched.tasks pid (page_at j) null (omega (arith, n.entries, c.slot.upper))

  others : (m : ℕ) → 1 ≤ m → m < pid → task_at m k'.sched.tasks ≢ page_at j
  others m p q e = n.fresh m q (
      sym (get_or-set_ne k.sched.tasks pid m (page_at j) null (omega arith))
      ∙ ap (λ t. task_at m t) (sym made.tasks)
      ∙ e)

  written :
      (a : ℕ)
      → (a < page_at j) ⊎ (page_at j + 4096 ≤ a)
      → memory_of (heap_of exited) a ≡ memory_at k'.sched a
  unfolding exited exit_at printk cli sti
  written a out =
      store32_ne (memory_at k'.sched) (task_at pid k'.sched.tasks + at_exit_code) code a
        (omega (arith, entry))

  exited-HasNewPage : HasNewPage (heap_of k) (find_bucket 4096 k.bucket_dir) j (heap_of exited)
  unfolding exited
  exited-HasNewPage =
      HasNewPage-frame (heap_of k) (find_bucket 4096 k.bucket_dir) j (heap_of k') (heap_of exited)
        made.heap c.grow.place (single fuel name end fun 0 pid j k c) refl refl refl refl written

  left : Heap
  left =
      freed_heap fuel (heap_of k) (find_bucket 4096 k.bucket_dir) j c.grow (heap_of exited)
        exited-HasNewPage

  freed : kfree_s (suc fuel) (page_at j) 4096 (heap_of exited) ≡ some left
  unfolding left
  freed =
      kfree_s-freed fuel (heap_of k) (find_bucket 4096 k.bucket_dir) j c.grow (heap_of exited)
        exited-HasNewPage 4096 (omega arith) (find_bucket-Picked 4096 k.bucket_dir)

  task_exit-left : task_exit (suc fuel) code (page_at j) k' ≡ some (with_heap left exited)
  unfolding task_exit exit_step exited
  task_exit-left =
      task_exit_loop-step (suc fuel) 63 1 code (page_at j) pid k' n.behind_idle
        (omega (arith, c.slot.upper)) others entry
      ∙ rw (entry, freed) refl

  left-Exited : Exited j k (with_heap left exited)
  unfolding left exited exit_at
  left-Exited = record {
    tasks =
        ap (λ t. set t pid null) made.tasks
        ∙ set-set k.sched.tasks pid (page_at j) null
        ∙ ap (λ e. set k.sched.tasks pid e) (sym c.slot.empty)
        ∙ set-get_or k.sched.tasks pid null;
    current = refl;
    heap =
        freed_heap-Restored fuel (heap_of k) (find_bucket 4096 k.bucket_dir) j c.grow
          (heap_of exited) exited-HasNewPage;
  }

-- If create_task can take free page j and the first free entry of a table of 64, which is behind
-- the idle task's, with a name of at most 31 characters and the current task's pid away from where
-- the heap writes, and no earlier entry is page j, it returns page j's address, and task_exit of
-- that address then ends, with one round of fuel more, with the task table, the page table, the
-- buckets and the list of free descriptors as before, no current task, and no byte of memory
-- changed but in the page and in the descriptor.
pub task_exit-create_task :
    (fuel name end fun priority pid j code : ℕ) (k : Kernel)
    → CanCreate fuel name end pid j k
    → IsNew pid j k
    → (k' k'' : Kernel) × (create_task fuel name fun priority k ≡ some (page_at j, k'))
      × (task_exit (suc fuel) code (page_at j) k' ≡ some k'')
      × Exited j k k''
task_exit-create_task fuel name end fun priority pid j code k c n =
    let (k', ends, made) = create_task_lem fuel name end fun priority pid j k c in
    (
      k',
      with_heap (left fuel name end fun pid j code k c n k' made)
          (exited fuel name end fun pid j code k c n k' made),
      ends,
      task_exit-left fuel name end fun pid j code k c n k' made,
      left-Exited fuel name end fun pid j code k c n k' made,
    )
