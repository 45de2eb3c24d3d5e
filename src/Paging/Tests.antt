-- ===== src/Paging/Tests.antt =====
-- The theorems on the paging setup at concrete addresses.
use fun_size_os.Base.{◌%◌, ◌≡◌, arith, true, false, []}
use fun_size_os.Memory.{load32}
use fun_size_os.Paging.{Paging, virtual_memory_init}
use fun_size_os.Paging.Identity.{
  virtual_memory_init_identity, directory_entry, table_entry, translate,
}
use fun_size_os.Paging.Beyond.{virtual_memory_init_unset}

abbrev booted : Paging
booted = record {
  machine = record { memory = λ a. 0; ports = []; log = []; interrupts = true };
  cr3 = 0;
  page_enabled = false;
}

virtual_memory_init_identity_example :
    let q = virtual_memory_init booted in
    (directory_entry q 0xb_8001 % 2 ≡ 1)
    × (table_entry q 0xb_8001 % 2 ≡ 1)
    × (translate q 0xb_8001 ≡ 0xb_8001)
virtual_memory_init_identity_example = virtual_memory_init_identity booted 0xb_8001 (omega arith)

virtual_memory_init_unset_example :
    let q = virtual_memory_init booted in
    (directory_entry q 0x40_1000 ≡ 0x2_2007)
    × (table_entry q 0x40_1000 ≡ load32 booted.machine.memory 0x2_2004)
virtual_memory_init_unset_example =
    virtual_memory_init_unset booted 0x40_1000 (omega arith) (omega arith)
