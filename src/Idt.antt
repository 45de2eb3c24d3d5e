-- ===== src/Idt.antt =====
-- kernel/kernel/idt.c: the interrupt table, with one gate for each of the 256 vectors. The addresses of
-- the entries, which the assembler and the linker give, are the fields of `Entries`.
pub mod Gates
mod Tests
use fun_size_os.Base.{
  ℕ, zero, suc, ◌+◌, ◌*◌, ◌/◌, ◌%◌, ◌^◌, List, [], ◌∷◌, ◌==◌, if◌then◌else◌, leb,
}
use fun_size_os.Memory.{Memory, store_all}
use fun_size_os.Machine.{Machine}
use fun_size_os.Traps.{XdtPtr, write_xdt_ptr}

abbrev pub interrupt_table_size : ℕ
interrupt_table_size = 256

-- The symbols that idt.c declares extern, and `interrupt_table` itself.
pub record Entries : Type 0 where
  pub interrupt_handler_entry : ℕ
  pub keymap_handler_entry : ℕ
  pub clock_handler_entry : ℕ
  pub interrupt_handler_table : ℕ → ℕ
  pub interrupt_table : ℕ

pub record Idt : Type 0 where
  pub machine : Machine
  pub idtr : XdtPtr
  pub idt_ptr : XdtPtr

-- `interrupt_gate_t`: eight packed bytes.
pub record InterruptGate : Type 0 where
  pub offset0 : ℕ
  pub selector : ℕ
  pub reserved : ℕ
  pub kind : ℕ
  pub segment : ℕ
  pub dpl : ℕ
  pub present : ℕ
  pub offset1 : ℕ

unfoldable pub gate_bytes : InterruptGate → List ℕ
gate_bytes p =
    p.offset0
    ∷ p.offset0 / 2 ^ 8
    ∷ p.selector
    ∷ p.selector / 2 ^ 8
    ∷ p.reserved
    ∷ (p.kind + p.segment * 2 ^ 4 + p.dpl * 2 ^ 5 + p.present * 2 ^ 7)
    ∷ p.offset1
    ∷ p.offset1 / 2 ^ 8
    ∷ []

-- The handler of vector `i`.
unfoldable pub handler_of : Entries → ℕ → ℕ
handler_of e i =
    let handler = if leb i 0x15 then e.interrupt_handler_table i else e.interrupt_handler_entry in
    let handler' = if 0x20 == i then e.clock_handler_entry else handler in
    if 0x21 == i then e.keymap_handler_entry else handler'

unfoldable pub gate_of : ℕ → InterruptGate
gate_of handler = record {
  offset0 = handler % 2 ^ 16;
  offset1 = handler / 2 ^ 16 % 2 ^ 16;
  selector = 1 * 2 ^ 3;
  reserved = 0;
  kind = 0b1110;
  segment = 0;
  dpl = 0;
  present = 1;
}

-- The loop at vector `i`, with `n` rounds left.
unfoldable pub gate_loop : Entries → ℕ → ℕ → Memory → Memory
gate_loop e zero i m = m
gate_loop e (suc n) i m =
    gate_loop e n (suc i)
      (store_all m (e.interrupt_table + 8 * i) (gate_bytes (gate_of (handler_of e i))))

unfoldable pub idt_init : Entries → Idt → Idt
idt_init e d =
    let ptr = write_xdt_ptr d.idt_ptr (interrupt_table_size * 8) e.interrupt_table in
    record {
      machine = record d.machine { memory = gate_loop e interrupt_table_size 0 d.machine.memory };
      idt_ptr = ptr;
      idtr = ptr;
    }
