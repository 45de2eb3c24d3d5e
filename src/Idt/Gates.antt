-- ===== src/Idt/Gates.antt =====
-- Which code each vector runs, as the processor reads the table.
use fun_size_os.Base.{
  ℕ, zero, suc, ◌+◌, ◌*◌, ◌^◌, ◌≤◌, ◌<◌, ◌≡◌, ◌≢◌, ◌⊎◌, arith, refl, inl, inr, u8, get_or, ◌∙◌,
  ◌==◌, Bool-cases, ==_iff, sym,
}
use fun_size_os.Memory.{Memory, store_all, store_all_inside, store_all_outside}
use fun_size_os.Traps.{write_xdt_ptr}
use fun_size_os.Idt.{
  Entries, Idt, gate_bytes, handler_of, gate_of, gate_loop, idt_init, interrupt_table_size,
}

-- The offset, selector and access byte of the gate at `a`.
abbrev pub offset_of : Memory → ℕ → ℕ
offset_of m a = m a + m (a + 1) * 2 ^ 8 + m (a + 6) * 2 ^ 16 + m (a + 7) * 2 ^ 24

abbrev pub selector_of : Memory → ℕ → ℕ
selector_of m a = m (a + 2) + m (a + 3) * 2 ^ 8

-- A present interrupt gate of privilege 0 into the code segment.
pub record IsGate (m : Memory) (a handler : ℕ) : Type 0 where
  pub offset_is : offset_of m a ≡ handler
  pub selector_is : selector_of m a ≡ 8
  pub access_is : m (a + 5) ≡ 0b1000_1110

module _ (m : Memory) (a handler : ℕ) where
  written : Memory
  written = store_all m a (gate_bytes (gate_of handler))

  byte_at : (i : ℕ) → i < 8 → written (a + i) ≡ u8 (get_or (gate_bytes (gate_of handler)) i 0)
  unfolding written gate_bytes
  byte_at i h = store_all_inside m a (gate_bytes (gate_of handler)) i (a + i) h refl

  first_byte : written a ≡ u8 (get_or (gate_bytes (gate_of handler)) 0 0)
  unfolding written gate_bytes
  first_byte = store_all_inside m a (gate_bytes (gate_of handler)) 0 a (omega arith) (omega arith)

  written-IsGate : handler < 2 ^ 32 → IsGate written a handler
  unfolding gate_bytes gate_of
  written-IsGate h = record {
    offset_is = omega (
      arith,
      first_byte,
      byte_at 1 (omega arith),
      byte_at 6 (omega arith),
      byte_at 7 (omega arith),
    );
    selector_is = omega (arith, byte_at 2 (omega arith), byte_at 3 (omega arith));
    access_is = omega (arith, byte_at 5 (omega arith));
  }

pub IsGate-frame :
    (m m' : Memory) (a handler : ℕ)
    → ((c : ℕ) → a ≤ c → c < a + 8 → m' c ≡ m c)
    → IsGate m a handler
    → IsGate m' a handler
IsGate-frame m m' a handler same g =
    let at0 = same a (omega arith) (omega arith) in
    let at1 = same (a + 1) (omega arith) (omega arith) in
    let at2 = same (a + 2) (omega arith) (omega arith) in
    let at3 = same (a + 3) (omega arith) (omega arith) in
    let at5 = same (a + 5) (omega arith) (omega arith) in
    let at6 = same (a + 6) (omega arith) (omega arith) in
    let at7 = same (a + 7) (omega arith) (omega arith) in
    record {
      offset_is = omega (arith, g.offset_is);
      selector_is = omega (arith, g.selector_is);
      access_is = omega (arith, g.access_is);
    }

gate_loop_outside :
    (e : Entries) (n i : ℕ) (m : Memory) (c : ℕ)
    → (c < e.interrupt_table + 8 * i) ⊎ (e.interrupt_table + 8 * (i + n) ≤ c)
    → gate_loop e n i m c ≡ m c
unfolding gate_loop gate_bytes
gate_loop_outside e zero i m c out = refl
gate_loop_outside e (suc n) i m c out =
    let bytes = gate_bytes (gate_of (handler_of e i)) in
    gate_loop_outside e n (suc i) (store_all m (e.interrupt_table + 8 * i) bytes) c (omega arith)
    ∙ store_all_outside m (e.interrupt_table + 8 * i) bytes c (omega arith)

gate_loop-IsGate :
    (e : Entries) (n i : ℕ) (m : Memory) (k : ℕ)
    → i ≤ k
    → k < i + n
    → handler_of e k < 2 ^ 32
    → IsGate (gate_loop e n i m) (e.interrupt_table + 8 * k) (handler_of e k)
unfolding gate_loop written
gate_loop-IsGate e zero i m k from until small = absurd (omega arith)
gate_loop-IsGate e (suc n) i m k from until small =
    let a : ℕ = e.interrupt_table + 8 * i in
    let m' = written m a (handler_of e i) in
    elim (Bool-cases (i == k)) [
      | inl same ↦
          let at : k ≡ i = sym ((==_iff i k).0 same) in
          rw at (
            IsGate-frame m' (gate_loop e n (suc i) m') a (handler_of e i)
              (λ c p q. gate_loop_outside e n (suc i) m' c (inl (omega arith)))
              (written-IsGate m a (handler_of e i) (rw (← at) small)))
      | inr other ↦ gate_loop-IsGate e n (suc i) m' k (ground arith) (omega arith) small
    ]

-- Every entry is a 32-bit address.
pub record IsLinked (e : Entries) : Type 0 where
  pub exceptions : (i : ℕ) → i ≤ 0x15 → e.interrupt_handler_table i < 2 ^ 32
  pub clock : e.clock_handler_entry < 2 ^ 32
  pub keyboard : e.keymap_handler_entry < 2 ^ 32
  pub others : e.interrupt_handler_entry < 2 ^ 32

-- The table at `base`: the exceptions, the clock, the keyboard, and one handler for all other vectors.
pub record HasVectors (e : Entries) (m : Memory) (base : ℕ) : Type 0 where
  pub exceptions : (i : ℕ) → i ≤ 0x15 → IsGate m (base + 8 * i) (e.interrupt_handler_table i)
  pub clock : IsGate m (base + 8 * 0x20) e.clock_handler_entry
  pub keyboard : IsGate m (base + 8 * 0x21) e.keymap_handler_entry
  pub others :
      (i : ℕ)
      → 0x16 ≤ i
      → i < 256
      → i ≢ 0x20
      → i ≢ 0x21
      → IsGate m (base + 8 * i) e.interrupt_handler_entry

-- Each gate in terms of the code's choice of its handler.
pub idt_init-IsGate :
    (e : Entries) (d : Idt)
    → ((i : ℕ) → i < interrupt_table_size → handler_of e i < 2 ^ 32)
    → let d' = idt_init e d in
      ((i : ℕ)
        → i < interrupt_table_size
        → IsGate d'.machine.memory (d'.idtr.base + 8 * i) (handler_of e i))
      × ((c : ℕ)
          → (c < e.interrupt_table) ⊎ (e.interrupt_table + 2048 ≤ c)
          → d'.machine.memory c ≡ d.machine.memory c)
unfolding idt_init write_xdt_ptr
idt_init-IsGate e d small = (
  λ i h. gate_loop-IsGate e 256 0 d.machine.memory i (omega arith) h (small i h),
  λ c out. gate_loop_outside e 256 0 d.machine.memory c (omega arith),
)
