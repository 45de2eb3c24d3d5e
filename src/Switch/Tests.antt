-- ===== src/Switch/Tests.antt =====
-- Clock interrupts in the idle task and in another one, with C frames of at most 512 bytes.
use fun_size_os.Base.{
  ◌≤◌, ◌<◌, ◌≢◌, inr, false, ℕ, zero, suc, ◌%◌, ◌≡◌, refl, arith, some, ◌∷◌, get_or,
}
use fun_size_os.Memory.{Memory, store8, store32, load16, load32}
use fun_size_os.Sched.{nr_tasks, null, task_at, find_ready_task, find_ready_loop, is_ready}
use fun_size_os.Sched.Ready.{is_ready-null}
use fun_size_os.Sched.Starve.{IsTable}
use fun_size_os.Task.{Kernel, create_task, t1_fun_loop}
use fun_size_os.Task.Samples.{
  with_two, kernel, kernel2, free_entries, free_entries-null, kernel2-CanCreate, kernel2-IsIdle,
}
use fun_size_os.Switch.{Core, interrupt, sched_of, on_sched, on_memory, clock_handler_entry}
use fun_size_os.Switch.Samples.{linked, linked-KeepsFrames, busy}
use fun_size_os.Switch.Entry.{OnStack}
use fun_size_os.Switch.Resume.{IsCpu}
use fun_size_os.Switch.Tick.{IsBack, clock_handler_entry_resumes}
use fun_size_os.Switch.Dispatch.{IsStartable, IsDispatched, clock_handler_entry_dispatches}
use fun_size_os.Switch.Work.{
  Works, compute, write, t1_fun_loop-Works, OnlyReady, IsLeaving, clock_handler_entry_twice,
}
use fun_size_os.Switch.Birth.{core, IsBorn, clock_handler_entry-create_task}

abbrev interrupted : Core
interrupted = core (busy 0x10_1000) kernel2

interrupted-OnStack : OnStack 512 interrupted
interrupted-OnStack = record {
  full = λ h. omega (arith, h);
  page = refl;
  room = omega arith;
  top = omega arith;
  small = omega arith;
}

free_aligned : (n i : ℕ) → get_or (free_entries n) i null % 4096 ≡ 0
free_aligned n i = omega (arith, free_entries-null n i)

kernel2-IsTable : IsTable kernel2.sched
kernel2-IsTable = record { aligned = aligned }
  where
    aligned : (i : ℕ) → task_at i kernel2.sched.tasks % 4096 ≡ 0
    aligned zero = refl
    aligned (suc i) = free_aligned 63 i

busy-IsCpu : IsCpu (busy 0x10_1000)
busy-IsCpu = record {
  ecx = omega arith;
  edx = omega arith;
  ebx = omega arith;
  esp = omega arith;
  ebp = omega arith;
  esi = omega arith;
  edi = omega arith;
  eip = omega arith;
}

kernel2_none_ready : find_ready_task kernel2.sched ≡ null
kernel2_none_ready = kernel2-IsIdle.none_ready

clock_handler_entry_resumes_example :
    IsBack 0x10_1000
      (busy 0x10_1000)
      interrupted
      (clock_handler_entry linked (interrupt 0x202 8 interrupted))
clock_handler_entry_resumes_example =
    clock_handler_entry_resumes 512 linked 0x202 8 interrupted linked-KeepsFrames
      interrupted-OnStack kernel2-IsTable busy-IsCpu kernel2_none_ready refl

idle_pid : load32 with_two 0x10_106c ≡ 0
unfolding load32 load16 store8
idle_pid = refl

-- The new task is at 0x3000.
clock_handler_entry-create_task_example :
    (k' : Kernel) × (create_task 3 0x5000 0x3000 1 kernel2 ≡ some (0x10_2000, k'))
    × IsBorn linked 0x3000 0x10_2000
        (core (busy 0x10_1000) k')
        (clock_handler_entry linked (interrupt 0x202 8 (core (busy 0x10_1000) k')))
clock_handler_entry-create_task_example =
    clock_handler_entry-create_task 3 0x5000 0x5002 0x3000 1 1 2 512 linked 0x202 8 (busy 0x10_1000)
      kernel2 kernel2-CanCreate (omega arith) kernel2-IsIdle linked-KeepsFrames interrupted-OnStack
      kernel2-IsTable idle_pid (omega arith)

-- A second task, with its stack pointer and its state stored in its page.
abbrev stored : ℕ → Memory
stored state = store32 (store32 (λ _. 0) 0x10_2004 0x10_3000) 0x10_2094 state

abbrev with_second : ℕ → Memory → Kernel
with_second current m = record (kernel m 3) {
  sched = record (kernel m 3).sched {
    tasks = 0x10_1000 ∷ 0x10_2000 ∷ free_entries 62;
    current = current;
  };
}

with_second-IsTable : (current : ℕ) (m : Memory) → IsTable (with_second current m).sched
with_second-IsTable current m = record { aligned = aligned }
  where
    aligned : (i : ℕ) → task_at i (with_second current m).sched.tasks % 4096 ≡ 0
    aligned zero = refl
    aligned (suc zero) = refl
    aligned (suc (suc i)) = free_aligned 62 i

-- The idle task is interrupted while the second task is ready.
abbrev waiting : Core
waiting = core (busy 0x10_1000) (with_second 0x10_1000 (stored 2))

waiting_ready : find_ready_task (sched_of waiting) ≡ 0x10_2000
unfolding find_ready_task find_ready_loop is_ready load32 load16 store32
waiting_ready = refl

waiting-OnStack : OnStack 512 waiting
waiting-OnStack = record {
  full = λ h. omega (arith, h);
  page = refl;
  room = omega arith;
  top = omega arith;
  small = omega arith;
}

second_stack : load32 (stored 2) 0x10_2004 ≡ 0x10_3000
unfolding load32 load16 store32
second_stack = refl

second-IsStartable : IsStartable 512 0x10_2000 (stored 2)
second-IsStartable = record {
  room = omega (arith, second_stack);
  top = omega (arith, second_stack);
  small = omega arith;
}

clock_handler_entry_dispatches_example :
    IsDispatched linked 0x10_2000 waiting (clock_handler_entry linked (interrupt 0x202 8 waiting))
clock_handler_entry_dispatches_example =
    clock_handler_entry_dispatches 512 linked 0x202 8 0x10_2000 waiting linked-KeepsFrames
      waiting-OnStack (with_second-IsTable 0x10_1000 (stored 2)) waiting_ready (omega arith)
      (omega arith) second-IsStartable

waiting-OnlyReady : OnlyReady 0x10_2000 (sched_of waiting)
waiting-OnlyReady = record { found = waiting_ready; others = others }
  where
    others :
        (i : ℕ)
        → 1 ≤ i
        → i < nr_tasks
        → task_at i (sched_of waiting).tasks ≢ 0x10_2000
        → is_ready (task_at i (sched_of waiting).tasks) (stored 2) ≡ false
    others zero low high ne = absurd (omega arith)
    others (suc zero) low high ne = absurd (ne refl)
    others (suc (suc i)) low high ne =
        is_ready-null (task_at i (free_entries 62)) (stored 2) (free_entries-null 62 i)

waiting-IsLeaving : IsLeaving 512 0x10_2000 waiting
waiting-IsLeaving = record {
  on = waiting-OnStack;
  aligned = with_second-IsTable 0x10_1000 (stored 2);
  words = busy-IsCpu;
  idle = refl;
  only = waiting-OnlyReady;
  full = omega arith;
  other = omega arith;
  able = second-IsStartable;
}

abbrev dispatched : Core
dispatched = clock_handler_entry linked (interrupt 0x202 8 waiting)

-- The second task goes down its stack, writes there and prints.
abbrev worked : Core
worked =
    on_sched (λ s. record s { machine = t1_fun_loop 3 s.machine })
      (on_memory (λ m. store32 m 0x10_2fa0 9) (record dispatched { cpu = busy 0x10_2000 }))

worked-Works : Works 0x10_2000 dispatched worked
worked-Works =
    t1_fun_loop-Works 3
      (on_memory (λ m. store32 m 0x10_2fa0 9) (record dispatched { cpu = busy 0x10_2000 }))
      (Works.next (Works.next Works.rest (compute dispatched (busy 0x10_2000))) (
        write (record dispatched { cpu = busy 0x10_2000 }) 0x10_2fa0 9 (omega arith) (omega arith)
          (inr (omega arith))))

second_is_current : (sched_of worked).current ≡ 0x10_2000
second_is_current =
    (clock_handler_entry_dispatches 512 linked 0x202 8 0x10_2000 waiting linked-KeepsFrames
      waiting-OnStack (with_second-IsTable 0x10_1000 (stored 2)) waiting_ready (omega arith)
      (omega arith) second-IsStartable).current

worked-OnStack : OnStack 512 worked
worked-OnStack = record {
  full = λ h. omega (arith, h, second_is_current);
  page = omega (arith, second_is_current);
  room = omega (arith, second_is_current);
  top = omega (arith, second_is_current);
  small = omega (arith, second_is_current);
}

clock_handler_entry_twice_example :
    IsBack 0x10_1000 (busy 0x10_1000) worked (clock_handler_entry linked (interrupt 0x202 8 worked))
clock_handler_entry_twice_example =
    clock_handler_entry_twice 512 linked 0x202 8 0x202 8 0x10_2000 waiting worked linked-KeepsFrames
      waiting-IsLeaving worked-Works worked-OnStack
