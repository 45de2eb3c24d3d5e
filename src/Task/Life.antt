-- ===== src/Task/Life.antt =====
-- create_task as a whole, on a heap with a free page.
use fun_size_os.Base.{
  ℕ, ◌+◌, ◌≤◌, ◌<◌, ◌≡◌, ◌⊎◌, inr, refl, ◌∙◌, ap, arith, u8, u32, set, some, ◌==◌, if◌then◌else◌,
}
use fun_size_os.Memory.{load32-frame}
use fun_size_os.CString.{IsString}
use fun_size_os.CString.Terminated.{IsString-frame}
use fun_size_os.Pages.Inv.{table, page_at}
use fun_size_os.Heap.{Heap, bucket_at, memory_of, find_bucket}
use fun_size_os.Heap.Fresh.{Elsewhere}
use fun_size_os.Heap.Buckets.{find_bucket-Picked}
use fun_size_os.Heap.Grow.{CanGrow, grown, kmalloc-grown, grown-Grown}
use fun_size_os.Heap.NewPage.{HasNewPage, Grown-HasNewPage, HasNewPage-frame}
use fun_size_os.Sched.{Sched, null, nr_tasks, at_pid}
use fun_size_os.Sched.Table.{FirstEmpty}
use fun_size_os.Task.{Kernel, heap_of, with_heap, memory_at, create_task}
use fun_size_os.Task.Create.{
  CanSetUp, HasTask, IsSetUp, ready_task, set_up-ready_task, ready_task-IsSetUp,
}

-- The bytes from `lo` on, below `hi`, lie outside the flag, the descriptor and the page.
pub record Spares (t d p lo hi : ℕ) : Type 0 where
  pub not_flag : (t < lo) ⊎ (hi ≤ t)
  pub not_desc : (hi ≤ d) ⊎ (d + 16 ≤ lo)
  pub not_page : (hi ≤ p) ⊎ (p + 4096 ≤ lo)

pub Spares-Elsewhere :
    (t d p lo hi a : ℕ) → Spares t d p lo hi → lo ≤ a → a < hi → Elsewhere t d p a
Spares-Elsewhere t d p lo hi a s from until = record {
  not_flag = omega (arith, s.not_flag);
  not_desc = omega (arith, s.not_desc);
  not_page = omega (arith, s.not_page);
}

-- A page is free for the task, an entry of the table, and the name is short; neither the name nor the
-- current task's pid is where the heap writes.
pub record CanCreate (fuel name end pid j : ℕ) (k : Kernel) : Type 0 where
  pub grow : CanGrow fuel (heap_of k) (find_bucket 4096 k.bucket_dir) j
  pub slot : FirstEmpty k.sched.tasks 0 nr_tasks pid
  pub string : IsString (memory_at k.sched) name end
  pub short : end ≤ name + 31
  pub rounds : end < name + fuel
  pub name_away : Spares (table + j) k.free_bucket_desc (page_at j) name (end + 1)
  pub current_away :
      Spares
        (table + j)
        k.free_bucket_desc
        (page_at j)
        (k.sched.current + at_pid)
        (k.sched.current + at_pid + 4)

-- The new task, in the page that the heap gave.
pub record Created (name end fun pid j : ℕ) (k k' : Kernel) : Type 0 where
  pub heap : HasNewPage (heap_of k) (find_bucket 4096 k.bucket_dir) j (heap_of k')
  pub task : HasTask name end fun (page_at j) pid k.sched k'.sched
  pub tasks : k'.sched.tasks ≡ set k.sched.tasks pid (page_at j)
  pub current : k'.sched.current ≡ k.sched.current

module _ (fuel name end fun priority pid j : ℕ) (k : Kernel)
    (c : CanCreate fuel name end pid j k) where
  i : ℕ
  i = find_bucket 4096 k.bucket_dir

  pub single : (bucket_at (find_bucket 4096 k.bucket_dir) k.bucket_dir).size ≡ 4096
  single = omega (arith, (find_bucket-Picked 4096 k.bucket_dir).fits, c.grow.large, c.grow.small)

  given : Heap
  given = grown fuel (heap_of k) (find_bucket 4096 k.bucket_dir) j c.grow

  given-HasNewPage : HasNewPage (heap_of k) (find_bucket 4096 k.bucket_dir) j given
  unfolding given
  given-HasNewPage =
      Grown-HasNewPage fuel (heap_of k) (find_bucket 4096 k.bucket_dir) j c.grow given
        (grown-Grown fuel (heap_of k) (find_bucket 4096 k.bucket_dir) j c.grow)

  given_same :
      (lo hi a : ℕ)
      → Spares (table + j) k.free_bucket_desc (page_at j) lo hi
      → lo ≤ a
      → a < hi
      → memory_of given a ≡ memory_at k.sched a
  given_same lo hi a s from until =
      given-HasNewPage.elsewhere a
        (Spares-Elsewhere (table + j) k.free_bucket_desc (page_at j) lo hi a s from until)

  ready : Sched
  ready = (with_heap given k).sched

  ready-CanSetUp : CanSetUp fuel name end fun (page_at j) pid ready
  unfolding ready
  ready-CanSetUp = record {
    slot = c.slot;
    string =
        IsString-frame (memory_of given)
          (λ a p q. given_same name (end + 1) a c.name_away p (omega arith)) c.string;
    short = c.short;
    rounds = c.rounds;
    name_apart = omega (arith, c.name_away.not_page);
    current_apart = inr (omega (arith, c.current_away.not_page));
  }

  created_sched : Sched
  created_sched = ready_task fuel name end fun (page_at j) pid ready ready-CanSetUp

  created_sched-IsSetUp : IsSetUp name end fun (page_at j) pid ready created_sched
  unfolding created_sched
  created_sched-IsSetUp = ready_task-IsSetUp fuel name end fun (page_at j) pid ready ready-CanSetUp

  created : Kernel
  created = record (with_heap given k) { sched = created_sched }

  create_task-created : create_task fuel name fun priority k ≡ some (page_at j, created)
  unfolding create_task created created_sched ready given
  create_task-created =
      rw
        (
          kmalloc-grown fuel (heap_of k) (find_bucket 4096 k.bucket_dir) j c.grow 4096 refl,
          set_up-ready_task fuel name end fun (page_at j) pid ready ready-CanSetUp,
        )
        refl

  created-HasNewPage : HasNewPage (heap_of k) (find_bucket 4096 k.bucket_dir) j (heap_of created)
  unfolding created ready
  created-HasNewPage =
      HasNewPage-frame (heap_of k) (find_bucket 4096 k.bucket_dir) j given (heap_of created)
        given-HasNewPage c.grow.place single refl refl refl refl created_sched-IsSetUp.outside

  created-HasTask : HasTask name end fun (page_at j) pid k.sched created_sched
  unfolding ready
  created-HasTask =
      let t = created_sched-IsSetUp.task_is in
      record {
        pid_is = t.pid_is;
        ppid_is =
            t.ppid_is
            ∙ ap (λ n. u32 (if null == k.sched.current then 0 else n))
                (load32-frame (memory_at k.sched) (memory_of given) (k.sched.current + at_pid)
                  (λ a p q.
                    given_same (k.sched.current + at_pid) (k.sched.current + at_pid + 4) a
                      c.current_away p q));
        times_is = t.times_is;
        name_is = λ n h.
            t.name_is n h
            ∙ ap u8 (
                given_same name (end + 1) (name + n) c.name_away (omega arith)
                  (omega (arith, c.string.starts)));
        context = t.context;
        rest_is = t.rest_is;
      }

  created-Created : Created name end fun pid j k created
  unfolding created ready
  created-Created = record {
    heap = created-HasNewPage;
    task = created-HasTask;
    tasks = ap (λ s. s.tasks) created_sched-IsSetUp.others;
    current = ap (λ s. s.current) created_sched-IsSetUp.others;
  }

-- If kmalloc of 4096 bytes can take a free descriptor and free page j, as for a bucket without a
-- free object, there is a free table entry, pid the first, and the name has at most 31 characters
-- and, like the pid of the current task, lies away from where the heap writes, create_task returns
-- the address of page j, with the heap as kmalloc promises; the page holds the pid, the current
-- task's pid as the parent's, the name with its zero byte, the entry address, the stack at the
-- page's end and the state ready, and is 0 behind its fields; the table has the page at pid and is
-- otherwise as it was.
pub create_task_lem :
    (fuel name end fun priority pid j : ℕ) (k : Kernel)
    → CanCreate fuel name end pid j k
    → (k' : Kernel) × (create_task fuel name fun priority k ≡ some (page_at j, k'))
      × Created name end fun pid j k k'
create_task_lem fuel name end fun priority pid j k c = (
  created fuel name end fun priority pid j k c,
  create_task-created fuel name end fun priority pid j k c,
  created-Created fuel name end fun priority pid j k c,
)
