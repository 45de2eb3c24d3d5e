-- ===== src/Start.antt =====
-- kernel/init/main.c: kernel_main, up to the endless loop at its end. The lines that are commented out in
-- the source are not there.
pub mod Stages
pub mod Layout
pub mod Parts
pub mod Tables
pub mod Counted
pub mod Main
pub mod Idle
pub mod Early
mod Tests
use fun_size_os.Base.{ℕ, Option, some, [], ◌>>=◌}
use fun_size_os.Machine.{Machine, printk, sti}
use fun_size_os.Console.{Console, console_init}
use fun_size_os.Gdt.{Gdt, gdt_init}
use fun_size_os.Idt.{Entries, Idt, idt_init}
use fun_size_os.Pages.{Pages, print_check_memory_info, memory_init, memory_map_int}
use fun_size_os.Sched.{clock_init}
use fun_size_os.Task.{Kernel, heap_of, task_init}

-- The state of all parts. The machine is that of `kernel`; a part is called with it, and leaves it there.
pub record System : Type 0 where
  pub kernel : Kernel
  pub console : Console
  pub gdt : Gdt
  pub idt : Idt

abbrev pub machine_of : System → Machine
machine_of s = s.kernel.sched.machine

abbrev pub with_machine : Machine → Kernel → Kernel
with_machine m k = record k { sched = record k.sched { machine = m } }

abbrev pub on_machine : (Machine → Machine) → System → System
on_machine f s = record s { kernel = with_machine (f (machine_of s)) s.kernel }

abbrev pub on_console : (Console → Console) → System → System
on_console f s =
    let c = f (record s.console { machine = machine_of s }) in
    record s { console = c; kernel = with_machine c.machine s.kernel }

abbrev pub on_gdt : (Gdt → Gdt) → System → System
on_gdt f s =
    let g = f (record s.gdt { machine = machine_of s }) in
    record s { gdt = g; kernel = with_machine g.machine s.kernel }

abbrev pub on_idt : (Idt → Idt) → System → System
on_idt f s =
    let d = f (record s.idt { machine = machine_of s }) in
    record s { idt = d; kernel = with_machine d.machine s.kernel }

abbrev pub on_pages : (Pages → Pages) → System → System
on_pages f s =
    let p = f (heap_of s.kernel).pages in
    record s {
      kernel = record (with_machine p.machine s.kernel) {
        physics_memory = p.physics_memory;
        physics_memory_map = p.physics_memory_map;
      };
    }

-- The screen and the two descriptor tables.
unfoldable pub set_up_tables : Entries → System → System
set_up_tables e s = on_idt (idt_init e) (on_gdt gdt_init (on_console console_init s))

-- What is printed, and the clock between.
unfoldable pub greet : Machine → Machine
greet m =
    let told = printk "init idt success ...\n" [] (printk "init gdt success ...\n" [] m) in
    print_check_memory_info (printk "Hello FunsizeOS ...\n" [] (clock_init told))

unfoldable pub set_up_memory : Pages → Pages
set_up_memory p = memory_map_int (memory_init p)

-- `name` is where the compiler puts "idle", and `idle` the address of that function.
unfoldable pub kernel_main : (fuel name idle : ℕ) → Entries → System → Option System
kernel_main fuel name idle e s =
    let s1 = on_pages set_up_memory (on_machine greet (set_up_tables e s)) in
    task_init fuel name idle s1.kernel >>= λ k. some (on_machine sti (record s1 { kernel = k }))
