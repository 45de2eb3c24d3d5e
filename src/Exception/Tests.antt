-- ===== src/Exception/Tests.antt =====
-- A general protection fault.
use fun_size_os.Base.{true, [], true}
use fun_size_os.Machine.{Machine}
use fun_size_os.Exception.{Registers, interrupt_handler}
use fun_size_os.Exception.Frame.{general_protection, Reported, pushed_by, interrupt_handler_lem}

abbrev quiet : Machine
quiet = record { memory = λ a. 0; ports = []; log = []; interrupts = true }

abbrev stopped : Registers
stopped = record { edi = 0; esi = 0; ebp = 0; esp = 0x9_fff0; ebx = 0; edx = 0; ecx = 0; eax = 1 }

-- A general protection fault pushes an error code; here it is 0x10, at 0x8:0x1234.
interrupt_handler_lem_example :
    Reported general_protection 0x9_fff0 0x10 0x1234 8 quiet
      (interrupt_handler 0xd stopped (pushed_by true 0x10 0x1234 8 0x202) quiet)
interrupt_handler_lem_example =
    interrupt_handler_lem general_protection stopped 0x1234 8 0x202 0x10 quiet
