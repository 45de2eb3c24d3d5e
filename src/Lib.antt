-- ===== src/Lib.antt =====
-- FunSizeOS, a small 32-bit x86 kernel in C: a verification library of its core.
--
-- The program. The boot code (kernel/boot) leaves the memory table of the BIOS at 0x1100 and enters
-- kernel_main (kernel/init/main.c), which sets up the console, the descriptor tables, the clock, the
-- page table of the physical memory and the idle task, and then waits for interrupts. The clock
-- interrupt runs the scheduler, the keyboard interrupt prints what is typed, and everything reports
-- through printk, which formats a text (vsprintf) and draws it on the console.
--
-- The files.
--   Base       names, Boolean tests, lists and words that the other files share. An `int` or `uint` is
--              its bit pattern, a number below 2 ^ 32, and every operation writes its wrap-around out.
--   Memory     the flat memory, a function from addresses to bytes, with loads and stores of 8, 16 and
--              32 bits. All components that share memory in C share it here.
--   Machine    the memory, the bytes sent to the ports (kernel/include/asm/io.h), the calls of printk
--              (kernel/kernel/printk.c) and the interrupt flag (kernel/include/asm/system.h).
--   CString    kernel/lib/string.c: strlen, memcpy, memset, strcpy.
--   Pages      kernel/mm/memory.c: print_check_memory_info, memory_init, memory_map_int, get_free_page
--              and free_page, over the two globals g_physics_memory and g_physics_memory_map.
--   Console    kernel/kernel/chr_drv/console.c: every function, over screen, pos, x and y.
--   Traps      kernel/kernel/traps.c: send_eoi and write_xdt_ptr.
--   Keyboard   kernel/kernel/chr_drv/keyboard.c: the enumeration of the keys, the table keymap, the
--              locks and keymap_handler.
--   Sched      kernel/kernel/sched.c, the task table of kernel/kernel/task.c (find_empty_process,
--              current_task_exit, inc_scheduling_times and the two readers), and
--              kernel/kernel/chr_drv/clock.c (clock_init and clock_handler).
--   Number     skip_atoi and number of kernel/kernel/vsprintf.c.
--   Vsprintf   vsprintf of the same file, with the argument list of kernel/include/stdarg.h.
--   Paging     kernel/mm/mm_101012.c and the control registers of kernel/kernel/kernel.c:
--              virtual_memory_init, set_cr3 and enable_page. `|` with the flags of an entry is an
--              addition, since the low 12 bits of a page's address are 0.
--   Gdt        kernel/kernel/gdt.c with the packed gdt_item_t of kernel/include/linux/head.h: gdt_init and
--              the two functions that fill a descriptor.
--   Idt        kernel/kernel/idt.c with interrupt_gate_t: idt_init. The addresses of the entries, which the
--              linker gives, are a parameter.
--   Exception  kernel/kernel/exception.c, and the entry of kernel/kernel/asm/interrupt_handler.asm that
--              calls exception_handler with the words that the processor has pushed.
--   Heap       kernel/mm/malloc.c: kmalloc and kfree_s over the buckets, with the descriptors and the
--              chains of free objects in the flat memory.
--   Task       the rest of kernel/kernel/task.c: create_task, task_init and task_exit, on the heap and the
--              task table together.
--   Switch     kernel/kernel/asm/clock_handler.asm and kernel/kernel/asm/sched.asm: what the clock's entry
--              saves, and the two ways to switch to a task, on a register file. Addresses behind calls and
--              what the frames of C functions leave below the stack pointer are a parameter, `Linked`.
--   Start      kernel/init/main.c: kernel_main up to its endless loop, over the state of all parts. The clock
--              interrupt of Switch is then put behind it, and before task_init.
--   Printk     kernel/kernel/printk.c as the composition of vsprintf and console_write.
-- Each component's functions stand in the file of its name, under their C names; a loop is a function of
-- its own, and the theorems stand in the files below.
--
-- How they interact. A component's state is a record with the C globals as fields and the machine in
-- it. Pages and Task call memset of CString, Console and Gdt its memcpy, and Task its strcpy. Heap
-- takes its pages from Pages, and Task from Heap. Console writes the ports; Keyboard and Sched call
-- send_eoi of Traps. Switch runs clock_handler of Sched between the clock's entry and the switch, and
-- Start calls all the initialisations in turn. A task is the address of its task_t in the flat memory.
--
-- Bounds and fuel. A counted loop recurs on its rounds: the scan of the page table on total minus used,
-- the loops over the 64 task entries on 63 and 64, the loops of the console on 8192 and 80. The two
-- loops of kernel/lib/string.c that end at a zero byte take fuel; the theorems ask for one unit more
-- than the length, and then the loops end. The page table is treated for zones that end below 2 GB,
-- where the signed shift of free_page is that of an unsigned number. The digits of a number are worked
-- out in 32 rounds, as many as a 32-bit number has in base 2. The loops over a format take fuel too:
-- one unit for each plain character, each directive and the zero byte. The walks of a
-- bucket's chain take fuel as well: one unit for each descriptor and one for NULL. create_task passes
-- the same fuel to kmalloc and strcpy.
--
-- The abstract view of the page allocator, a pool of pages that are in use or free, is Pages/Pool.
--
-- Not modelled. The bytes that printk writes to its buffer and, through the console, to the video
-- memory, where a component other than Printk calls it: there the call is recorded with its
-- arguments and its effect on the interrupt flag. The body of idle, and the rest of the assembly:
-- the boot code, the keyboard's entry, and io.asm. The machine words of compiled C functions are
-- not modelled, so a task is followed from one interrupt to the next by its registers and its
-- memory; eflags is a number that an interrupt pushes. What Sched records as dispatched is the task
-- that Switch switches to. The clock interrupts that are followed are those of a task at work, of
-- kernel_main at its end, and of kernel_main before task_init; the C functions run without one.
pub mod Base
pub mod Memory
pub mod Machine
pub mod CString
pub mod Pages
pub mod Console
pub mod Traps
pub mod Keyboard
pub mod Sched
pub mod Number
pub mod Vsprintf
pub mod Paging
pub mod Gdt
pub mod Idt
pub mod Exception
pub mod Heap
pub mod Task
pub mod Printk
pub mod Start
pub mod Switch
