-- ===== src/Sched.antt =====
-- kernel/kernel/sched.c, the task table of kernel/kernel/task.c, and the clock interrupt of
-- kernel/kernel/chr_drv/clock.c. A task is the address of its `task_t` in the memory; NULL is 0.
-- The switch to a task, which is assembly, is recorded in `dispatched`, the latest first.
pub mod Ready
pub mod Starve
pub mod Table
mod Tests
use fun_size_os.Base.{
  ℕ, zero, suc, ◌+◌, ◌-◌, ◌^◌, ◌≡◌, Bool, true, false, not, ◌&&◌, List, [], ◌∷◌, ◌==◌,
  if◌then◌else◌, add32, get_or, set, shr, ◌%◌, ◌/◌, ◌*◌,
}
use fun_size_os.Memory.{Memory, load32, store32}
use fun_size_os.Machine.{Machine, num, pointer, printk, out_byte}
use fun_size_os.Traps.{send_eoi}

abbrev pub null : ℕ
null = 0

abbrev pub nr_tasks : ℕ
nr_tasks = 64

-- `task_state_t`
pub data TaskState : Type 0 where
  init running ready blocked sleeping waiting died : TaskState

abbrev pub state_code : TaskState → ℕ
state_code init = 0
state_code running = 1
state_code ready = 2
state_code blocked = 3
state_code sleeping = 4
state_code waiting = 5
state_code died = 6

-- Where the fields of `task_t` lie; the packed `tss_t` takes the first 108 bytes.
abbrev pub at_pid : ℕ
at_pid = 108

abbrev pub at_ppid : ℕ
at_ppid = 112

abbrev pub at_name : ℕ
at_name = 116

abbrev pub at_state : ℕ
at_state = 148

abbrev pub at_exit_code : ℕ
at_exit_code = 152

abbrev pub at_scheduling_times : ℕ
at_scheduling_times = 164

pub record Sched : Type 0 where
  pub machine : Machine
  pub tasks : List ℕ
  pub current : ℕ
  pub cpu_ticks : ℕ
  pub dispatched : List ℕ

-- `tasks[i]`
abbrev pub task_at : ℕ → List ℕ → ℕ
task_at i tasks = get_or tasks i null

abbrev pub state_of : ℕ → Memory → ℕ
state_of task m = load32 m (task + at_state)

-- `task->field = v`
abbrev pub assign : ℕ → ℕ → Machine → Machine
assign a v m = record m { memory = store32 m.memory a v }

unfoldable pub is_ready : ℕ → Memory → Bool
is_ready task m = not (task == null) && (state_of task m == state_code ready)

-- The loop of find_ready_task at index `i`, with `n` rounds left.
unfoldable pub find_ready_loop : ℕ → ℕ → List ℕ → Memory → ℕ
unfolding is_ready
find_ready_loop zero i tasks m = null
find_ready_loop (suc n) i tasks m =
    let rest = find_ready_loop n (i + 1) tasks m in
    if is_ready (task_at i tasks) m then task_at i tasks else rest

unfoldable pub find_ready_task : Sched → ℕ
find_ready_task s = find_ready_loop (nr_tasks - 1) 1 s.tasks s.machine.memory

-- With no ready task the idle task is switched to, and otherwise the task that was found.
unfoldable pub run_next : ℕ → Sched → Sched
run_next next s =
    if next == null
    then record s { current = task_at 0 s.tasks; dispatched = task_at 0 s.tasks ∷ s.dispatched }
    else record s {
      machine = assign (next + at_state) (state_code running) s.machine;
      current = next;
      dispatched = next ∷ s.dispatched;
    }

unfoldable pub sched : Sched → Sched
sched s = run_next (find_ready_task s) s

unfoldable pub do_timer : Sched → Sched
unfolding sched
do_timer s = sched s

-- `cpu_ticks++` on an `int`.
unfoldable pub clock_handler : ℕ → Sched → Sched
unfolding do_timer
clock_handler idt_index s =
    let told = send_eoi idt_index s.machine in
    do_timer (record s {
      machine = printk "set eoi 0x%x %d\n" (num idt_index ∷ num s.cpu_ticks ∷ []) told;
      cpu_ticks = add32 s.cpu_ticks 1;
    })

abbrev pub pit_chan0_reg : ℕ
pit_chan0_reg = 0x40

abbrev pub pit_ctrl_reg : ℕ
pit_ctrl_reg = 0x43

abbrev pub hz : ℕ
hz = 100

abbrev pub oscillator : ℕ
oscillator = 1193182

abbrev pub clock_counter : ℕ
clock_counter = oscillator / hz

-- The divisor goes out low byte first.
unfoldable pub clock_init : Machine → Machine
clock_init m =
    out_byte pit_chan0_reg (shr clock_counter 8 % 0x100)
      (out_byte pit_chan0_reg (clock_counter % 0x100) (out_byte pit_ctrl_reg 0b00110100 m))

-- `-1` as an `int`.
abbrev pub minus_one : ℕ
minus_one = 0xffff_ffff

-- The loop of find_empty_process: the first free index, or the rounds' end.
unfoldable pub find_empty_loop : ℕ → ℕ → List ℕ → ℕ
find_empty_loop zero i tasks = minus_one
find_empty_loop (suc n) i tasks =
    let rest = find_empty_loop n (i + 1) tasks in if 0 == task_at i tasks then i else rest

unfoldable pub find_empty_process : Sched → ℕ × Sched
find_empty_process s =
    let found = find_empty_loop nr_tasks 0 s.tasks in
    if found == minus_one
    then (minus_one, record s { machine = printk "no valid pid\n" [] s.machine })
    else (found, s)

-- The table entry `i`, whose task is current, is given up.
unfoldable pub exit_at : ℕ → ℕ → Sched → Sched
exit_at i code s =
    let tmp = task_at i s.tasks in
    record s {
      machine =
          assign (tmp + at_exit_code) code
            (printk "task exit: %s\n" (pointer (tmp + at_name) ∷ []) s.machine);
      tasks = set s.tasks i null;
      current = null;
    }

unfoldable pub exit_loop : ℕ → ℕ → ℕ → Sched → Sched
unfolding exit_at
exit_loop zero i code s = s
exit_loop (suc n) i code s =
    let rest = exit_loop n (i + 1) code s in
    if s.current == task_at i s.tasks then exit_at i code s else rest

unfoldable pub current_task_exit : ℕ → Sched → Sched
current_task_exit code s = exit_loop (nr_tasks - 1) 1 code s

-- `return task->scheduling_times++;`
unfoldable pub inc_scheduling_times : ℕ → Machine → ℕ × Machine
inc_scheduling_times task m =
    let before = load32 m.memory (task + at_scheduling_times) in
    (before, assign (task + at_scheduling_times) (add32 before 1) m)

unfoldable pub get_task_pid : ℕ → Machine → ℕ
get_task_pid task m = load32 m.memory (task + at_pid)

unfoldable pub get_task_ppid : ℕ → Machine → ℕ
get_task_ppid task m = load32 m.memory (task + at_ppid)
