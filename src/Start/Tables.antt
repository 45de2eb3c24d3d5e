-- ===== src/Start/Tables.antt =====
-- The two descriptor tables as kernel_main leaves them.
use fun_size_os.Base.{ℕ, ◌+◌, ◌*◌, ◌≤◌, ◌<◌, ◌≡◌, ◌⊎◌, inl, refl, ◌∙◌, ap, arith}
use fun_size_os.Gdt.Init.{IsMoved, gdt_init_lem}
use fun_size_os.Idt.{Entries, handler_of, idt_init, interrupt_table_size}
use fun_size_os.Idt.Gates.{IsGate, idt_init-IsGate}
use fun_size_os.Traps.{write_xdt_ptr}
use fun_size_os.Pages.Inv.{table}
use fun_size_os.Start.{System, machine_of}
use fun_size_os.Start.Stages.{console_init_outside}
use fun_size_os.Start.Layout.{IsLoaded}
use fun_size_os.Start.Parts.{start_memory, screen, boot_gdt, moved_gdt, boot_idt, filled_idt}

module _ (fuel name end idle k : ℕ) (e : Entries) (s : System)
    (l : IsLoaded fuel name end k e s) where
  pub moved : IsMoved (boot_gdt s) (moved_gdt s)
  unfolding moved_gdt boot_gdt
  moved = gdt_init_lem (boot_gdt s) l.boot_limit l.boot_apart

  pub gates :
      (i : ℕ)
      → i < interrupt_table_size
      → IsGate (filled_idt e s).machine.memory ((filled_idt e s).idtr.base + 8 * i) (handler_of e i)
  unfolding filled_idt
  gates = (idt_init-IsGate e (boot_idt s) l.handlers).0

  pub idt_outside :
      (a : ℕ)
      → (a < e.interrupt_table) ⊎ (e.interrupt_table + 2048 ≤ a)
      → (filled_idt e s).machine.memory a ≡ (moved_gdt s).machine.memory a
  unfolding filled_idt boot_idt
  idt_outside = (idt_init-IsGate e (boot_idt s) l.handlers).1

  pub gdt_base : (moved_gdt s).gdtr.base ≡ s.gdt.gdt
  unfolding boot_gdt
  gdt_base = ap (λ r. r.base) moved.loaded

  pub idt_base : (filled_idt e s).idtr.base ≡ e.interrupt_table
  unfolding filled_idt boot_idt idt_init write_xdt_ptr
  idt_base = refl

  -- Below the page table's bytes only the two descriptor tables are written.
  pub tables_outside :
      (a : ℕ)
      → a < table
      → (a < s.gdt.gdt) ⊎ (s.gdt.gdt + 48 ≤ a)
      → (a < e.interrupt_table) ⊎ (e.interrupt_table + 2048 ≤ a)
      → (filled_idt e s).machine.memory a ≡ start_memory s a
  unfolding boot_gdt screen
  tables_outside a low g i =
      idt_outside a i
      ∙ moved.outside a (omega arith)
      ∙ console_init_outside (record s.console { machine = machine_of s }) a (inl (omega arith))
