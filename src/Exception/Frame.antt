-- ===== src/Exception/Frame.antt =====
-- Which exceptions find their message, and what is printed of the interrupted code.
use Prim.Native.String.{String}
use fun_size_os.Base.{
  Bool, true, false, ltb, ◌+◌, ◌%◌, if◌then◌else◌, ℕ, ◌≡◌, refl, Option, some, List, [], ◌∷◌, ◌++◌,
  get_elem?,
}
use fun_size_os.Machine.{Machine, Message, num, text, printk, cli, sti}
use fun_size_os.Exception.{messages, exception_handler, interrupt_handler, Registers, char_to_int}

-- The vectors up to 0x15: the exceptions of the processor, and the reserved ones.
pub data Fault : Type 0 where
  divide_error debug non_maskable breakpoint overflow bound_range invalid_opcode
        device_not_available double_fault coprocessor_overrun invalid_tss segment_not_present
        stack_fault general_protection page_fault reserved math_fault alignment_check machine_check
        simd virtualization control_protection :
      Fault

-- The vector at which the processor reports each.
abbrev pub vector : Fault → ℕ
vector divide_error = 0x0
vector debug = 0x1
vector non_maskable = 0x2
vector breakpoint = 0x3
vector overflow = 0x4
vector bound_range = 0x5
vector invalid_opcode = 0x6
vector device_not_available = 0x7
vector double_fault = 0x8
vector coprocessor_overrun = 0x9
vector invalid_tss = 0xa
vector segment_not_present = 0xb
vector stack_fault = 0xc
vector general_protection = 0xd
vector page_fault = 0xe
vector reserved = 0xf
vector math_fault = 0x10
vector alignment_check = 0x11
vector machine_check = 0x12
vector simd = 0x13
vector virtualization = 0x14
vector control_protection = 0x15

-- For which of them it pushes an error code.
abbrev pub has_code : Fault → Bool
has_code double_fault = true
has_code invalid_tss = true
has_code segment_not_present = true
has_code stack_fault = true
has_code general_protection = true
has_code page_fault = true
has_code alignment_check = true
has_code control_protection = true
has_code f = false

-- What the report should call each.
abbrev pub title : Fault → String
title divide_error = "#DE Divide Error"
title debug = "#DB RESERVED"
title non_maskable = "--  NMI Interrupt"
title breakpoint = "#BP Breakpoint"
title overflow = "#OF Overflow"
title bound_range = "#BR BOUND Range Exceeded"
title invalid_opcode = "#UD Invalid Opcode (Undefined Opcode)"
title device_not_available = "#NM Device Not Available (No Math Coprocessor)"
title double_fault = "#DF Double Fault"
title coprocessor_overrun = "    Coprocessor Segment Overrun (reserved)"
title invalid_tss = "#TS Invalid TSS"
title segment_not_present = "#NP Segment Not Present"
title stack_fault = "#SS Stack-Segment Fault"
title general_protection = "#GP General Protection"
title page_fault = "#PF Page Fault"
title reserved = "--  (Intel reserved. Do not use.)"
title math_fault = "#MF x87 FPU Floating-Point Error (Math Fault)"
title alignment_check = "#AC Alignment Check"
title machine_check = "#MC Machine Check"
title simd = "#XF SIMD Floating-Point Exception"
title virtualization = "#VE Virtualization Exception"
title control_protection = "#CP Control Protection Exception"

title_lem : (f : Fault) → get_elem? messages (vector f) ≡ some (title f)
unfolding messages
title_lem divide_error = refl
title_lem debug = refl
title_lem non_maskable = refl
title_lem breakpoint = refl
title_lem overflow = refl
title_lem bound_range = refl
title_lem invalid_opcode = refl
title_lem device_not_available = refl
title_lem double_fault = refl
title_lem coprocessor_overrun = refl
title_lem invalid_tss = refl
title_lem segment_not_present = refl
title_lem stack_fault = refl
title_lem general_protection = refl
title_lem page_fault = refl
title_lem reserved = refl
title_lem math_fault = refl
title_lem alignment_check = refl
title_lem machine_check = refl
title_lem simd = refl
title_lem virtualization = refl
title_lem control_protection = refl

-- The low byte as a signed number of 32 bits.
abbrev pub as_char : ℕ → ℕ
as_char c = if ltb (c % 256) 128 then c % 256 else c % 256 + 0xffff_ff00

char_to_int-as_char : (c : ℕ) → char_to_int c ≡ as_char c
unfolding char_to_int
char_to_int-as_char c = refl

-- The report of an exception at `eip`, the latest line first.
abbrev pub report : ℕ → ℕ → (eip cs eflags : ℕ) → String → List Message
report i esp eip cs eflags message =
    record { format = "      ESP : 0x%08X\n"; args = num esp ∷ [] }
    ∷ record { format = "      EIP : 0x%08X\n"; args = num eip ∷ [] }
    ∷ record { format = "       CS : 0x%02X\n"; args = num (as_char cs) ∷ [] }
    ∷ record { format = "   EFLAGS : 0x%08X\n"; args = num eflags ∷ [] }
    ∷ record { format = "   VECTOR : 0x%02X\n"; args = num i ∷ [] }
    ∷ record { format = "EXCEPTION : %s \n"; args = text message ∷ [] }
    ∷ []

-- The handler ends, and the report with these values stands in front of the log.
abbrev pub Reported : Fault → ℕ → (eip cs eflags : ℕ) → Machine → Option Machine → Type 0
Reported f esp eip cs eflags m out =
    (m' : Machine) × (out ≡ some m')
    × (m'.log ≡ report (vector f) esp eip cs eflags (title f) ++ m.log)
    × (m'.memory ≡ m.memory)

exception_handler-Reported :
    (f : Fault) (regs : Registers) (eip cs eflags : ℕ) (m : Machine)
    → Reported f regs.esp eip cs eflags m (exception_handler (vector f) regs eip cs eflags m)
unfolding exception_handler printk cli sti
exception_handler-Reported f regs eip cs eflags m =
    let m1 = printk "EXCEPTION : %s \n" (text (title f) ∷ []) m in
    let m2 = printk "   VECTOR : 0x%02X\n" (num (vector f) ∷ []) m1 in
    let m3 = printk "   EFLAGS : 0x%08X\n" (num eflags ∷ []) m2 in
    let m4 = printk "       CS : 0x%02X\n" (num (char_to_int cs) ∷ []) m3 in
    let m5 = printk "      EIP : 0x%08X\n" (num eip ∷ []) m4 in
    (
      printk "      ESP : 0x%08X\n" (num regs.esp ∷ []) m5,
      rw (title_lem f) refl,
      rw (char_to_int-as_char cs) refl,
      refl,
    )

-- What the processor pushes, from the top of the stack: where the code was, behind an error code for
-- those that have one.
abbrev pub pushed_by : Bool → (code eip cs eflags : ℕ) → List ℕ
pushed_by true code eip cs eflags = code ∷ eip ∷ cs ∷ eflags ∷ []
pushed_by false code eip cs eflags = eip ∷ cs ∷ eflags ∷ []

handler_reads :
    (b : Bool) (f : Fault) (regs : Registers) (eip cs eflags code : ℕ) (m : Machine)
    → Reported f regs.esp
        (if b then code else eip)
        (if b then eip else cs)
        (if b then cs else eflags)
        m
        (interrupt_handler (vector f) regs (pushed_by b code eip cs eflags) m)
unfolding interrupt_handler
handler_reads true f regs eip cs eflags code m = exception_handler-Reported f regs code eip cs m
handler_reads false f regs eip cs eflags code m = exception_handler-Reported f regs eip cs eflags m

-- For every vector up to 0x15 with its Intel title the handler prints its report in front of the
-- log and changes no memory: ESP as pushed by pushad, and the interrupted EIP, CS as a char, and
-- EFLAGS if the processor pushes no error code, but the error code as EIP, EIP as CS and CS as
-- EFLAGS for the exceptions that push one.
pub interrupt_handler_lem :
    (f : Fault) (regs : Registers) (eip cs eflags code : ℕ) (m : Machine)
    → Reported f regs.esp
        (if has_code f then code else eip)
        (if has_code f then eip else cs)
        (if has_code f then cs else eflags)
        m
        (interrupt_handler (vector f) regs (pushed_by (has_code f) code eip cs eflags) m)
interrupt_handler_lem f = handler_reads (has_code f) f
