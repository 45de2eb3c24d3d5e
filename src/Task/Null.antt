-- ===== src/Task/Null.antt =====
-- create_task when kmalloc has no page: NULL is taken for the task's page.
use fun_size_os.Base.{ℕ, ◌+◌, ◌≤◌, ◌<◌, ◌≡◌, ◌⊎◌, inr, refl, sym, ◌∙◌, ap, arith, u32, set, some}
use fun_size_os.Memory.{load32}
use fun_size_os.CString.Terminated.{IsString-frame}
use fun_size_os.Heap.{Heap, memory_of, find_bucket, kmalloc}
use fun_size_os.Heap.Buckets.{set-get_or}
use fun_size_os.Heap.NoPage.{CannotGrow, Lost, kmalloc_no_page}
use fun_size_os.Sched.{Sched, null}
use fun_size_os.Task.{Kernel, heap_of, with_heap, memory_at, create_task, at_eip}
use fun_size_os.Task.Create.{CanSetUp, IsSetUp, ready_task, set_up-ready_task, ready_task-IsSetUp}

-- The task table as it was, and the start of the memory overwritten.
pub record IsOverwritten (fun : ℕ) (k k' : Kernel) : Type 0 where
  pub tasks : k'.sched.tasks ≡ k.sched.tasks
  pub zeroed : (a : ℕ) → 176 ≤ a → a < 4096 → memory_at k'.sched a ≡ 0
  pub entry : load32 (memory_at k'.sched) at_eip ≡ u32 fun
  pub lost :
      (a : ℕ)
      → 4096 ≤ a
      → (a < k.free_bucket_desc) ⊎ (k.free_bucket_desc + 16 ≤ a)
      → memory_at k'.sched a ≡ memory_at k.sched a

module _ (fuel name end fun priority pid : ℕ) (k : Kernel)
    (c : CanSetUp fuel name end fun null pid k.sched)
    (apart : (end < k.free_bucket_desc) ⊎ (k.free_bucket_desc + 16 ≤ name)) (h : Heap)
    (l : Lost (heap_of k) h) where
  lost_sched : Sched
  lost_sched = (with_heap h k).sched

  lost-CanSetUp : CanSetUp fuel name end fun null pid lost_sched
  unfolding lost_sched
  lost-CanSetUp = record {
    slot = c.slot;
    string = IsString-frame (memory_of h) (λ a p q. l.outside a (omega arith)) c.string;
    short = c.short;
    rounds = c.rounds;
    name_apart = c.name_apart;
    current_apart = c.current_apart;
  }

  null_sched : Sched
  null_sched = ready_task fuel name end fun null pid lost_sched lost-CanSetUp

  null_sched-IsSetUp : IsSetUp name end fun null pid lost_sched null_sched
  unfolding null_sched
  null_sched-IsSetUp = ready_task-IsSetUp fuel name end fun null pid lost_sched lost-CanSetUp

  null_kernel : Kernel
  null_kernel = record (with_heap h k) { sched = null_sched }

  create_task-null_kernel :
      kmalloc fuel 4096 (heap_of k) ≡ some (null, h)
      → create_task fuel name fun priority k ≡ some (null, null_kernel)
  unfolding create_task null_kernel null_sched lost_sched
  create_task-null_kernel e =
      rw (e, set_up-ready_task fuel name end fun null pid lost_sched lost-CanSetUp) refl

  null_kernel-IsOverwritten : IsOverwritten fun k null_kernel
  unfolding null_kernel lost_sched
  null_kernel-IsOverwritten = record {
    tasks =
        ap (λ s. s.tasks) null_sched-IsSetUp.others
        ∙ ap (λ e. set k.sched.tasks pid e) (sym c.slot.empty)
        ∙ set-get_or k.sched.tasks pid null;
    zeroed = λ a p q. null_sched-IsSetUp.task_is.rest_is a (omega arith) (omega arith);
    entry = null_sched-IsSetUp.task_is.context.eip;
    lost = λ a p out. null_sched-IsSetUp.outside a (inr (omega arith)) ∙ l.outside a out;
  }

-- If kmalloc of 4096 bytes has a free descriptor above 1 MB but no page, the table has a free
-- entry, the name has at most 31 characters, lies behind the first 4096 bytes and is away from the
-- descriptor, and there is no current task or its pid lies behind them too, create_task returns
-- NULL all the same as a task: the task table is as it was, the bytes from 176 to 4095 become 0,
-- the entry address is stored at 32, and behind the first 4096 bytes no byte outside the
-- descriptor is changed.
pub create_task-null :
    (fuel name end fun priority pid : ℕ) (k : Kernel)
    → CannotGrow fuel (heap_of k) (find_bucket 4096 k.bucket_dir)
    → CanSetUp fuel name end fun null pid k.sched
    → (end < k.free_bucket_desc) ⊎ (k.free_bucket_desc + 16 ≤ name)
    → (k' : Kernel) × (create_task fuel name fun priority k ≡ some (null, k'))
      × IsOverwritten fun k k'
create_task-null fuel name end fun priority pid k g c apart =
    let (h, e, l) = kmalloc_no_page fuel 4096 (heap_of k) g in
    (
      null_kernel fuel name end fun priority pid k c apart h l,
      create_task-null_kernel fuel name end fun priority pid k c apart h l e,
      null_kernel-IsOverwritten fuel name end fun priority pid k c apart h l,
    )
