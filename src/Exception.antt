-- ===== src/Exception.antt =====
-- kernel/kernel/exception.c, with the entry of kernel/kernel/asm/interrupt_handler.asm that calls it.
-- The handler's endless loop at its end is left out: what is modelled is what it prints before.
pub mod Frame
mod Tests
use Prim.Native.String.{String}
use fun_size_os.Base.{
  ℕ, ◌+◌, ◌-◌, ◌%◌, ◌^◌, Option, none, some, List, [], ◌∷◌, if◌then◌else◌, ltb, get_elem?, get_or,
  ◌>>=◌,
}
use fun_size_os.Machine.{Machine, num, text, printk}

unfoldable pub messages : List String
messages =
    "#DE Divide Error" ∷ "#DB RESERVED" ∷ "--  NMI Interrupt" ∷ "#BP Breakpoint" ∷ "#OF Overflow"
    ∷ "#BR BOUND Range Exceeded" ∷ "#UD Invalid Opcode (Undefined Opcode)"
    ∷ "#NM Device Not Available (No Math Coprocessor)" ∷ "#DF Double Fault"
    ∷ "    Coprocessor Segment Overrun (reserved)" ∷ "#TS Invalid TSS" ∷ "#NP Segment Not Present"
    ∷ "#SS Stack-Segment Fault" ∷ "#GP General Protection" ∷ "#PF Page Fault"
    ∷ "--  (Intel reserved. Do not use.)" ∷ "#MF x87 FPU Floating-Point Error (Math Fault)"
    ∷ "#AC Alignment Check" ∷ "#MC Machine Check" ∷ "#XF SIMD Floating-Point Exception"
    ∷ "#VE Virtualization Exception" ∷ "#CP Control Protection Exception" ∷ []

-- `none`: the index is outside the table, which is undefined in C.
unfoldable pub print_message : ℕ → Machine → Option Machine
print_message idt_index m = do
  message ← get_elem? messages idt_index
  some (printk "%s\n" (text message ∷ []) m)

unfoldable pub div_zero_exception : ℕ → Machine → Option Machine
div_zero_exception = print_message

unfoldable pub normal_protect_exception : ℕ → Machine → Option Machine
normal_protect_exception = print_message

-- What `pushad` leaves on the stack, the last pushed first.
pub record Registers : Type 0 where
  pub edi : ℕ
  pub esi : ℕ
  pub ebp : ℕ
  pub esp : ℕ
  pub ebx : ℕ
  pub edx : ℕ
  pub ecx : ℕ
  pub eax : ℕ

-- A `char` passed where an `int` is printed: the low byte, with its sign.
unfoldable pub char_to_int : ℕ → ℕ
char_to_int c = if ltb (c % 2 ^ 8) (2 ^ 7) then c % 2 ^ 8 else c % 2 ^ 8 + (2 ^ 32 - 2 ^ 8)

unfoldable pub exception_handler : ℕ → Registers → (eip cs eflags : ℕ) → Machine → Option Machine
exception_handler idt_index regs eip cs eflags m = do
  message ← get_elem? messages idt_index
  let m1 = printk "EXCEPTION : %s \n" (text message ∷ []) m
  let m2 = printk "   VECTOR : 0x%02X\n" (num idt_index ∷ []) m1
  let m3 = printk "   EFLAGS : 0x%08X\n" (num eflags ∷ []) m2
  let m4 = printk "       CS : 0x%02X\n" (num (char_to_int cs) ∷ []) m3
  let m5 = printk "      EIP : 0x%08X\n" (num eip ∷ []) m4
  some (printk "      ESP : 0x%08X\n" (num regs.esp ∷ []) m5)

-- The entry of vector `idt_index`: the parameters behind the registers are the words that the processor
-- has pushed, from the top of the stack.
unfoldable pub interrupt_handler : ℕ → Registers → List ℕ → Machine → Option Machine
interrupt_handler idt_index regs pushed m =
    exception_handler idt_index regs (get_or pushed 0 0) (get_or pushed 1 0) (get_or pushed 2 0) m
