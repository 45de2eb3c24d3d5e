-- ===== src/Task/Boot.antt =====
-- The first task, on a heap that has not been used.
use fun_size_os.Base.{
  ℕ, suc, ◌+◌, ◌≤◌, ◌<◌, ◌≡◌, ◌⊎◌, inl, inr, refl, sym, ◌∙◌, ap, arith, set, some, u8, eq→==,
}
use fun_size_os.CString.{IsString}
use fun_size_os.CString.Terminated.{IsString-frame}
use fun_size_os.Pages.Inv.{IsReady, table, page_at, used_pages, total_pages}
use fun_size_os.Heap.{init_bucket_desc, find_bucket, kmalloc}
use fun_size_os.Heap.First.{
  IsUnused, init_bucket_desc-CanGrow, init_bucket_desc-dirs, init_bucket_desc-first,
  init_bucket_desc-outside, init_bucket_desc-total, init_bucket_desc-used, kmalloc-started,
}
use fun_size_os.Sched.{null, nr_tasks}
use fun_size_os.Sched.Table.{FirstEmpty}
use fun_size_os.Task.{Kernel, heap_of, with_heap, memory_at, create_task}
use fun_size_os.Task.Create.{HasTask}
use fun_size_os.Task.Life.{CanCreate, Created, create_task_lem}

-- The kernel with the page of descriptors.
abbrev pub prepared : Kernel → Kernel
prepared k = with_heap (init_bucket_desc (heap_of k)) k

create_task-prepared :
    (fuel name fun priority : ℕ) (k : Kernel)
    → kmalloc fuel 4096 (heap_of k) ≡ kmalloc fuel 4096 (heap_of (prepared k))
    → create_task fuel name fun priority k ≡ create_task fuel name fun priority (prepared k)
unfolding create_task
create_task-prepared fuel name fun priority k e = rw e refl

-- Nothing has been allocated for the heap, there is no task, and the name lies below the page table.
pub record CanBoot (fuel name end pid : ℕ) (k : Kernel) : Type 0 where
  pub unused : IsUnused (heap_of k) (find_bucket 4096 k.bucket_dir)
  pub slot : FirstEmpty k.sched.tasks 0 nr_tasks pid
  pub string : IsString (memory_at k.sched) name end
  pub short : end ≤ name + 31
  pub rounds : end < name + suc fuel
  pub low : end < table
  pub idle : k.sched.current ≡ null

-- The task stands in the second of two new pages.
pub record Booted (name end fun pid : ℕ) (k k' : Kernel) : Type 0 where
  pub task : HasTask name end fun (page_at (used_pages (heap_of k).pages + 1)) pid k.sched k'.sched
  pub tasks : k'.sched.tasks ≡ set k.sched.tasks pid (page_at (used_pages (heap_of k).pages + 1))
  pub current : k'.sched.current ≡ null
  pub ready : IsReady (heap_of k').pages
  pub used : used_pages (heap_of k').pages ≡ used_pages (heap_of k).pages + 2
  pub total : total_pages (heap_of k').pages ≡ total_pages (heap_of k).pages
  pub outside :
      (a : ℕ)
      → (a < table) ⊎ (table + total_pages (heap_of k).pages ≤ a)
      → a < 0x10_0000
      → memory_at k'.sched a ≡ memory_at k.sched a

module _ (fuel name end fun priority pid : ℕ) (k : Kernel) (c : CanBoot fuel name end pid k) where
  same_dirs : (prepared k).bucket_dir ≡ k.bucket_dir
  same_dirs = init_bucket_desc-dirs fuel (heap_of k) (find_bucket 4096 k.bucket_dir) c.unused

  first : (prepared k).free_bucket_desc ≡ page_at (used_pages (heap_of k).pages)
  first = init_bucket_desc-first fuel (heap_of k) (find_bucket 4096 k.bucket_dir) c.unused

  same_below :
      (a : ℕ)
      → (a < table) ⊎ (table + total_pages (heap_of k).pages ≤ a)
      → a < 0x10_0000
      → memory_at (prepared k).sched a ≡ memory_at k.sched a
  same_below a out low =
      init_bucket_desc-outside fuel (heap_of k) (find_bucket 4096 k.bucket_dir) c.unused a
        (omega (arith, c.unused.room)) (inl (omega arith))

  prepared-CanCreate :
      CanCreate (suc fuel) name end pid (used_pages (heap_of k).pages + 1) (prepared k)
  prepared-CanCreate = record {
    grow =
        rw (ap (find_bucket 4096) same_dirs)
          (init_bucket_desc-CanGrow fuel (heap_of k) (find_bucket 4096 k.bucket_dir) c.unused);
    slot = c.slot;
    string =
        IsString-frame (memory_at (prepared k).sched)
          (λ a p q. same_below a (inl (omega (arith, c.low))) (omega (arith, c.low))) c.string;
    short = c.short;
    rounds = c.rounds;
    name_away = record {
      not_flag = inr (omega (arith, c.low));
      not_desc = inl (omega (arith, c.low, first));
      not_page = inl (omega (arith, c.low));
    };
    current_away = record {
      not_flag = inr (omega (arith, c.idle));
      not_desc = inl (omega (arith, c.idle, first));
      not_page = inl (omega (arith, c.idle));
    };
  }

  create_task-boot :
      create_task (suc fuel) name fun priority k
      ≡ create_task (suc fuel) name fun priority (prepared k)
  create_task-boot =
      create_task-prepared (suc fuel) name fun priority k
        (kmalloc-started fuel (heap_of k) (find_bucket 4096 k.bucket_dir) c.unused 4096 refl)

  Created-Booted :
      (k' : Kernel)
      → Created name end fun pid (used_pages (heap_of k).pages + 1) (prepared k) k'
      → Booted name end fun pid k k'
  Created-Booted k' made = record {
    task = record {
      pid_is = made.task.pid_is;
      ppid_is = made.task.ppid_is ∙ rw (eq→== null k.sched.current (sym c.idle)) refl;
      times_is = made.task.times_is;
      name_is = λ i h.
          made.task.name_is i h
          ∙ ap u8 (
              same_below (name + i) (inl (omega (arith, c.low, c.string.starts)))
                (omega (arith, c.low, c.string.starts)));
      context = made.task.context;
      rest_is = made.task.rest_is;
    };
    tasks = made.tasks;
    current = made.current ∙ c.idle;
    ready = made.heap.ready;
    used =
        ap (λ r. r.bitmap_item_used) made.heap.table_map
        ∙ omega (
          arith,
          init_bucket_desc-used fuel (heap_of k) (find_bucket 4096 k.bucket_dir) c.unused,
        );
    total =
        ap (λ r. r.pages_total) made.heap.info
        ∙ init_bucket_desc-total fuel (heap_of k) (find_bucket 4096 k.bucket_dir) c.unused;
    outside = λ a out low.
        made.heap.elsewhere a (record {
          not_flag = omega (arith, out, c.unused.room);
          not_desc = inl (omega (arith, low, first));
          not_page = inl (omega (arith, low));
        })
        ∙ same_below a out low;
  }

-- create_task on a heap that has not been used, for the first free entry of the table.
pub create_task-boot_lem :
    (fuel name end fun priority pid : ℕ) (k : Kernel)
    → CanBoot fuel name end pid k
    → (k' : Kernel) × (create_task (suc fuel) name fun priority k
        ≡ some (page_at (used_pages (heap_of k).pages + 1), k'))
      × Booted name end fun pid k k'
create_task-boot_lem fuel name end fun priority pid k c =
    let (k', ends, made) =
      create_task_lem (suc fuel) name end fun priority pid (used_pages (heap_of k).pages + 1)
        (prepared k) (prepared-CanCreate fuel name end fun priority pid k c) in
    (
      k',
      create_task-boot fuel name end fun priority pid k c ∙ ends,
      Created-Booted fuel name end fun priority pid k c k' made,
    )
