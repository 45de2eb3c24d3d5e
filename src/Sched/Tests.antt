-- ===== src/Sched/Tests.antt =====
-- The scheduler with an idle task and one ready task, and its theorems there.
use fun_size_os.Base.{
  ℕ, zero, suc, ◌+◌, ◌%◌, ◌≡◌, ◌≢◌, refl, ap, arith, true, List, [], ◌∷◌, get_or,
}
use fun_size_os.Memory.{load32, store32}
use fun_size_os.Machine.{printk, cli, sti, out_byte}
use fun_size_os.Traps.{send_eoi}
use fun_size_os.Sched.{
  Sched, null, nr_tasks, task_at, at_state, state_code, ready, find_ready_loop, run_next,
  find_ready_task, sched, clock_handler,
}
use fun_size_os.Sched.Starve.{IsTable, Scheduled, sched_lem, sched_times, sched_starves}
use fun_size_os.Sched.Table.{FirstEmpty}

abbrev free_entries : ℕ → List ℕ
free_entries zero = []
free_entries (suc n) = null ∷ free_entries n

-- The idle task's page, one task's page, and free entries.
abbrev two_tasks : List ℕ
two_tasks = 0x10_0000 ∷ 0x10_1000 ∷ free_entries 62

abbrev start : ℕ → Sched
start current = record {
  machine = record {
    memory = store32 (λ _. 0) (0x10_1000 + at_state) (state_code ready);
    ports = [];
    log = [];
    interrupts = true;
  };
  tasks = two_tasks;
  current = current;
  cpu_ticks = 0;
  dispatched = [];
}

free_entries-null : (n i : ℕ) → get_or (free_entries n) i null ≡ 0
free_entries-null zero i = refl
free_entries-null (suc n) zero = refl
free_entries-null (suc n) (suc i) = free_entries-null n i

two_tasks_aligned : (i : ℕ) → task_at i two_tasks % 4096 ≡ 0
two_tasks_aligned zero = refl
two_tasks_aligned (suc zero) = refl
two_tasks_aligned (suc (suc i)) = omega (arith, free_entries-null 62 i)

start-IsTable : IsTable (start null)
start-IsTable = record { aligned = two_tasks_aligned }

start_found : find_ready_task (start null) ≡ 0x10_1000
unfolding find_ready_task find_ready_loop load32 store32
start_found = refl

-- The second tick of the clock already goes back to the idle task.
two_ticks :
    (clock_handler 0x20 (clock_handler 0x20 (start null))).dispatched ≡ 0x10_0000 ∷ 0x10_1000 ∷ []
unfolding clock_handler sched run_next find_ready_task find_ready_loop load32 store32 printk cli sti
    send_eoi out_byte
two_ticks = refl

sched_lem_example : Scheduled (start null) (sched (start null))
sched_lem_example = sched_lem (start null) start-IsTable

sched_starves_example :
    find_ready_task (sched_times 5 (sched (start null))) ≢ find_ready_task (start null)
sched_starves_example = sched_starves (start null) 5 start-IsTable (omega (arith, start_found))

entry_two : FirstEmpty two_tasks 1 nr_tasks 2
entry_two = record {
  lower = omega arith;
  upper = omega arith;
  empty = refl;
  earlier = λ j p q e.
      let one : j ≡ 1 = omega arith in omega (arith, ap (λ i. task_at i two_tasks) one, e);
}
