-- ===== src/Start/Stages.antt =====
-- What the stages of kernel_main leave of the memory.
use fun_size_os.Base.{ℕ, zero, suc, ◌+◌, ◌≤◌, ◌<◌, ◌≡◌, ◌⊎◌, refl, []}
use fun_size_os.Machine.{Machine, printk, cli, sti, out_byte}
use fun_size_os.Console.{Console, console_init, mem_base, mem_end}
use fun_size_os.Console.Inv.{IsOnScreen, console_clear-IsOnScreen}
use fun_size_os.Console.Scroll.{console_clear-blank}
use fun_size_os.Pages.{times, print_loop, print_check_memory_info}
use fun_size_os.Sched.{clock_init}
use fun_size_os.Start.{greet}

pub console_init_outside :
    (c : Console) (a : ℕ)
    → (a < mem_base) ⊎ (mem_end ≤ a)
    → (console_init c).machine.memory a ≡ c.machine.memory a
unfolding console_init
console_init_outside c = (console_clear-blank c).1

pub console_init-IsOnScreen : (c : Console) → IsOnScreen (console_init c)
unfolding console_init
console_init-IsOnScreen = console_clear-IsOnScreen

print_loop-memory : (n i : ℕ) (m : Machine) → (print_loop n i m).memory ≡ m.memory
unfolding print_loop printk cli sti
print_loop-memory zero i m = refl
print_loop-memory (suc n) i m = print_loop-memory n (i + 1) _

print_check_memory_info-memory : (m : Machine) → (print_check_memory_info m).memory ≡ m.memory
unfolding print_check_memory_info
print_check_memory_info-memory m = print_loop-memory (times m.memory) 0 m

-- Nothing that is printed changes the memory that the other parts share.
pub greet-memory : (m : Machine) → (greet m).memory ≡ m.memory
unfolding greet printk cli sti clock_init out_byte
greet-memory m =
    let told = printk "init idt success ...\n" [] (printk "init gdt success ...\n" [] m) in
    print_check_memory_info-memory (printk "Hello FunsizeOS ...\n" [] (clock_init told))
