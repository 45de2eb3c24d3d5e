-- ===== src/Idt/Tests.antt =====
-- The interrupt table at concrete addresses.
use fun_size_os.Base.{◌≡◌, refl, [], true}
use fun_size_os.Idt.{Entries, Idt, handler_of}

abbrev linked : Entries
linked = record {
  interrupt_handler_entry = 0x1_0000;
  keymap_handler_entry = 0x1_0100;
  clock_handler_entry = 0x1_0200;
  interrupt_handler_table = λ i. 0x1_1000;
  interrupt_table = 0x8_0000;
}

abbrev booted : Idt
booted = record {
  machine = record { memory = λ a. 0; ports = []; log = []; interrupts = true };
  idtr = record { limit = 0; base = 0 };
  idt_ptr = record { limit = 0; base = 0 };
}

keyboard_vector : handler_of linked 0x21 ≡ 0x1_0100
unfolding handler_of
keyboard_vector = refl
