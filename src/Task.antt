-- ===== src/Task.antt =====
-- kernel/kernel/task.c: create_task, task_init and task_exit, which take a task's page from the heap and
-- give it back. The rest of that file is in `Sched`.
pub mod Context
pub mod Create
pub mod Life
pub mod Run
pub mod Null
pub mod Exit
pub mod Boot
pub mod Samples
mod Tests
use fun_size_os.Base.{
  ℕ, zero, suc, ◌+◌, ◌-◌, Option, none, some, List, [], ◌==◌, if◌then◌else◌, set, ◌>>=◌,
}
use fun_size_os.Memory.{Memory, load32, store32}
use fun_size_os.Machine.{Machine, printk}
use fun_size_os.CString.{memset, strcpy}
use fun_size_os.Pages.{Pages, PhysicsMemory, PhysicsMemoryMap, page_size}
use fun_size_os.Heap.{Heap, BucketDir, kmalloc, kfree_s}
use fun_size_os.Sched.{
  Sched, TaskState, null, nr_tasks, task_at, state_code, ready, at_pid, at_ppid, at_name, at_state,
  at_scheduling_times, find_empty_process, exit_at,
}

-- The fields of `task_t` that only this part names, and the size of the structure.
abbrev pub at_tss_esp0 : ℕ
at_tss_esp0 = 4

abbrev pub at_cr3 : ℕ
at_cr3 = 28

abbrev pub at_eip : ℕ
at_eip = 32

abbrev pub at_esp0 : ℕ
at_esp0 = 168

abbrev pub at_ebp0 : ℕ
at_ebp0 = 172

abbrev pub size_of_task : ℕ
size_of_task = 188

-- The task table and the heap, which share the machine of `sched`.
pub record Kernel : Type 0 where
  pub sched : Sched
  pub physics_memory : PhysicsMemory
  pub physics_memory_map : PhysicsMemoryMap
  pub bucket_dir : List BucketDir
  pub free_bucket_desc : ℕ

abbrev pub heap_of : Kernel → Heap
heap_of k = record {
  pages = record {
    machine = k.sched.machine;
    physics_memory = k.physics_memory;
    physics_memory_map = k.physics_memory_map;
  };
  bucket_dir = k.bucket_dir;
  free_bucket_desc = k.free_bucket_desc;
}

abbrev pub with_heap : Heap → Kernel → Kernel
with_heap h k = record {
  sched = record k.sched { machine = h.pages.machine };
  physics_memory = h.pages.physics_memory;
  physics_memory_map = h.pages.physics_memory_map;
  bucket_dir = h.bucket_dir;
  free_bucket_desc = h.free_bucket_desc;
}

abbrev pub memory_at : Sched → Memory
memory_at s = s.machine.memory

abbrev pub with_memory : Memory → Sched → Sched
with_memory m s = record s { machine = record s.machine { memory = m } }

-- What is stored in the task before its name, in this order.
unfoldable pub set_ids : (task pid ppid : ℕ) → Memory → Memory
set_ids task pid ppid m =
    store32 (store32 (store32 m (task + at_pid) pid) (task + at_ppid) ppid)
      (task + at_scheduling_times) 0

-- The parent is read once the task's own `pid` is stored.
unfoldable pub parent_of : (task pid current : ℕ) → Memory → ℕ
parent_of task pid current m =
    if null == current then 0 else load32 (store32 m (task + at_pid) pid) (current + at_pid)

-- The execution context.
unfoldable pub set_context : (task fun : ℕ) → Memory → Memory
set_context task fun m =
    let m1 = store32 (store32 m (task + at_cr3) (task + size_of_task)) (task + at_eip) fun in
    let m2 = store32 m1 (task + at_esp0) (task + page_size) in
    let m3 = store32 m2 (task + at_ebp0) (load32 m2 (task + at_esp0)) in
    let m4 = store32 m3 (task + at_tss_esp0) (load32 m3 (task + at_esp0)) in
    store32 m4 (task + at_state) (state_code ready)

-- `tasks[task->task.pid]` is set once the name is stored. With the pid -1 that is the word before the
-- table, which is undefined in C; here the table is left as it is.
unfoldable pub enter : (task fun : ℕ) → Sched → Memory → Sched
enter task fun s m = record (with_memory (set_context task fun m) s) {
  tasks = set s.tasks (load32 m (task + at_pid)) task;
}

unfoldable pub set_up : (fuel name fun task : ℕ) → Sched → Option Sched
set_up fuel name fun task s =
    let (pid, s1) = find_empty_process (with_memory (memset (memory_at s) task 0 page_size) s) in
    let named = set_ids task pid (parent_of task pid s1.current (memory_at s1)) (memory_at s1) in
    strcpy fuel named (task + at_name) name >>= λ m. some (enter task fun s1 m)

-- The priority is not used, and NULL from kmalloc is not noticed.
unfoldable pub create_task : (fuel name fun priority : ℕ) → Kernel → Option (ℕ × Kernel)
create_task fuel name fun priority k = kmalloc fuel 4096 (heap_of k) >>= λ out.
    set_up fuel name fun out.0 (with_heap out.1 k).sched >>= λ s.
    some (out.0, record (with_heap out.1 k) { sched = s })

-- `name` is where the compiler puts "idle", and `idle` the function's address.
unfoldable pub task_init : (fuel name idle : ℕ) → Kernel → Option Kernel
task_init fuel name idle k = create_task fuel name idle 1 k >>= λ out. some out.1

-- The loop of t1_fun with `n` rounds left; it starts with 0xffff_ffff.
unfoldable pub t1_fun_loop : ℕ → Machine → Machine
t1_fun_loop zero m = m
t1_fun_loop (suc n) m = t1_fun_loop n (printk "t1 task running...\n" [] m)

-- The loop of task_exit at index `i`, with `n` rounds left.
unfoldable pub task_exit_loop : (fuel n i code task : ℕ) → Kernel → Option Kernel
task_exit_loop fuel zero i code task k = some k
task_exit_loop fuel (suc n) i code task k =
    let rest = task_exit_loop fuel n (i + 1) code task k in
    let exited = record k { sched = exit_at i code k.sched } in
    if task == task_at i k.sched.tasks
    then (kfree_s fuel (task_at i k.sched.tasks) 4096 (heap_of exited) >>= λ h.
        some (with_heap h exited))
    else rest

unfoldable pub task_exit : (fuel code task : ℕ) → Kernel → Option Kernel
task_exit fuel code task k = task_exit_loop fuel (nr_tasks - 1) 1 code task k
