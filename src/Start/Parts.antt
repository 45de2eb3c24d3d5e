-- ===== src/Start/Parts.antt =====
-- The parts of the system as kernel_main calls them.
use fun_size_os.Memory.{Memory}
use fun_size_os.Console.{Console, console_init}
use fun_size_os.Gdt.{Gdt, gdt_init}
use fun_size_os.Idt.{Entries, Idt, idt_init}
use fun_size_os.Pages.{Pages}
use fun_size_os.Task.{Kernel, heap_of, memory_at}
use fun_size_os.Start.{
  System, machine_of, on_machine, on_pages, set_up_tables, greet, set_up_memory,
}

abbrev pub start_memory : System → Memory
start_memory s = memory_at s.kernel.sched

unfoldable pub screen : System → Console
screen s = console_init (record s.console { machine = machine_of s })

unfoldable pub boot_gdt : System → Gdt
boot_gdt s = record s.gdt { machine = (screen s).machine }

unfoldable pub moved_gdt : System → Gdt
moved_gdt s = gdt_init (boot_gdt s)

unfoldable pub boot_idt : System → Idt
boot_idt s = record s.idt { machine = (moved_gdt s).machine }

unfoldable pub filled_idt : Entries → System → Idt
filled_idt e s = idt_init e (boot_idt s)

unfoldable pub with_tables : Entries → System → System
with_tables e s = set_up_tables e s

-- The pages before and after they are counted.
unfoldable pub found : Entries → System → Pages
found e s = (heap_of (on_machine greet (with_tables e s)).kernel).pages

unfoldable pub counted : Entries → System → Pages
counted e s = set_up_memory (found e s)

-- The kernel before the first task is created.
unfoldable pub before : Entries → System → Kernel
before e s = (on_pages set_up_memory (on_machine greet (with_tables e s))).kernel
