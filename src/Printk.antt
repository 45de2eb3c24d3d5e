-- ===== src/Printk.antt =====
-- kernel/kernel/printk.c in full: the text is formatted into the static buffer and drawn on the console.
-- `buf` is the address that the linker gives to the buffer, and `args` that of the first argument.
pub mod Plain
mod Tests
use fun_size_os.Base.{ℕ, Option, none, some, ◌>>=◌}
use fun_size_os.Machine.{Machine, cli, sti}
use fun_size_os.Memory.{Memory}
use fun_size_os.Console.{Console, console_write}
use fun_size_os.Vsprintf.{vsprintf}

abbrev pub with_memory : Memory → Console → Console
with_memory m c = record c { machine = record c.machine { memory = m } }

-- The number of characters, and the console they are drawn on.
unfoldable pub printk : (fuel buf fmt args : ℕ) → Console → Option (ℕ × Console)
printk fuel buf fmt args c =
    let off : Console = record c { machine = cli c.machine } in
    vsprintf fuel c.machine.memory buf fmt args >>= λ out.
    let shown = console_write buf out.1 (with_memory out.0 off) in
    some (out.1, record shown { machine = sti shown.machine })
