-- ===== src/Switch/Samples.antt =====
-- C frames of at most 512 bytes, and a processor in the middle of a function.
use fun_size_os.Base.{ℕ, ◌+◌, arith, ◌&&◌, ltb, if◌then◌else◌}
use fun_size_os.Switch.{Cpu, Linked}
use fun_size_os.Switch.Stack.{KeepsFrames}

-- Each C function fills its frames with 7.
abbrev pub linked : Linked
linked = record {
  exit_entry = 0x4000;
  after_clock_handler = 0x4100;
  after_get_task_ppid = 0x4200;
  after_inc_scheduling_times = 0x4300;
  after_task_exit = 0x4400;
  after_sched = 0x4500;
  leave = λ esp m a. if ltb a esp && ltb esp (a + 513) then 7 else m a;
}

pub linked-KeepsFrames : KeepsFrames 512 linked
linked-KeepsFrames = record { kept = λ esp m a out. ground arith }

-- The registers in the middle of a function, with the stack in the page at `task`.
abbrev pub busy : ℕ → Cpu
busy task = record {
  eax = 1;
  ecx = 2;
  edx = 3;
  ebx = 4;
  esp = task + 4000;
  ebp = task + 4040;
  esi = 5;
  edi = 6;
  eip = 0x3010;
}
