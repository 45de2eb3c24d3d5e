-- ===== src/Gdt/Tests.antt =====
-- The descriptor tables of a machine whose boot table has four entries at 0x9000.
use fun_size_os.Base.{arith, inr, [], true}
use fun_size_os.Gdt.{Gdt, gdt_init}
use fun_size_os.Gdt.Init.{IsMoved, gdt_init_lem}

abbrev booted : Gdt
booted = record {
  machine = record { memory = λ a. 7; ports = []; log = []; interrupts = true };
  gdt = 0x8_0000;
  gdtr = record { limit = 32; base = 0x9000 };
  gdt_ptr = record { limit = 0; base = 0 };
  r3_code_selector = 0;
  r3_data_selector = 0;
}

gdt_init_lem_example : IsMoved booted (gdt_init booted)
gdt_init_lem_example = gdt_init_lem booted (omega arith) (inr (omega arith))
