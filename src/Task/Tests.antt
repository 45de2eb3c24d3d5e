-- ===== src/Task/Tests.antt =====
-- The idle task in page 1, the descriptors in page 0, and page 2 free or in use.
use fun_size_os.Base.{ℕ, zero, suc, ◌<◌, ◌≡◌, ◌≢◌, inl, inr, refl, arith, some}
use fun_size_os.Pages.Inv.{page_at}
use fun_size_os.Heap.{find_bucket, find_space}
use fun_size_os.Heap.NoPage.{CannotGrow}
use fun_size_os.Sched.{null, task_at}
use fun_size_os.Task.{Kernel, heap_of, create_task, task_exit}
use fun_size_os.Task.Create.{CanSetUp}
use fun_size_os.Task.Life.{Created, create_task_lem}
use fun_size_os.Task.Null.{IsOverwritten, create_task-null}
use fun_size_os.Task.Exit.{IsNew, Exited, task_exit-create_task}
use fun_size_os.Task.Samples.{
  kernel2, kernel3, kernel3-IsReady, slot_one, name-IsString3, kernel2-CanCreate,
}

create_task_lem_example :
    (k' : Kernel) × (create_task 3 0x5000 0x3000 1 kernel2 ≡ some (0x10_2000, k'))
    × Created 0x5000 0x5002 0x3000 1 2 kernel2 k'
create_task_lem_example = create_task_lem 3 0x5000 0x5002 0x3000 1 1 2 kernel2 kernel2-CanCreate

kernel2-IsNew : IsNew 1 2 kernel2
kernel2-IsNew = record { entries = refl; behind_idle = omega arith; fresh = not_there }
  where
    not_there : (m : ℕ) → m < 1 → task_at m kernel2.sched.tasks ≢ page_at 2
    not_there zero h = omega arith
    not_there (suc m) h = absurd (omega arith)

task_exit-create_task_example :
    (k' k'' : Kernel) × (create_task 3 0x5000 0x3000 1 kernel2 ≡ some (0x10_2000, k'))
    × (task_exit 4 7 0x10_2000 k' ≡ some k'')
    × Exited 2 kernel2 k''
task_exit-create_task_example =
    task_exit-create_task 3 0x5000 0x5002 0x3000 1 1 2 7 kernel2 kernel2-CanCreate kernel2-IsNew

kernel3-CannotGrow : CannotGrow 3 (heap_of kernel3) (find_bucket 4096 kernel3.bucket_dir)
unfolding find_bucket find_space
kernel3-CannotGrow = record {
  ready = kernel3-IsReady;
  no_space = refl;
  sized = omega arith;
  desc_high = omega arith;
  taken = λ j p q. absurd (omega arith);
}

kernel3-CanSetUp : CanSetUp 3 0x5000 0x5002 0x3000 null 1 kernel3.sched
kernel3-CanSetUp = record {
  slot = slot_one;
  string = name-IsString3;
  short = omega arith;
  rounds = omega arith;
  name_apart = inr (omega arith);
  current_apart = inr (inr (omega arith));
}

create_task-null_example :
    (k' : Kernel) × (create_task 3 0x5000 0x3000 1 kernel3 ≡ some (null, k'))
    × IsOverwritten 0x3000 kernel3 k'
create_task-null_example =
    create_task-null 3 0x5000 0x5002 0x3000 1 1 kernel3 kernel3-CannotGrow kernel3-CanSetUp
      (inl (omega arith))
