-- ===== src/Start/Tests.antt =====
-- A machine as the boot code leaves it: the BIOS table has one zone, of three pages.
use fun_size_os.Base.{
  get_or, ℕ, zero, suc, ◌<◌, ◌≡◌, inl, inr, refl, arith, some, List, [], ◌∷◌, false,
}
use fun_size_os.Memory.{Memory, store8, store16, store32, load32}
use fun_size_os.Machine.{Machine}
use fun_size_os.CString.{IsString}
use fun_size_os.Idt.{Entries, handler_of, interrupt_table_size}
use fun_size_os.Pages.{valid_memory_from, item, times}
use fun_size_os.Pages.Init.{FirstZone}
use fun_size_os.Heap.{bucket_dir}
use fun_size_os.Sched.{null}
use fun_size_os.Start.{System, kernel_main}
use fun_size_os.Start.Layout.{IsLoaded, IsStarted}
use fun_size_os.Switch.{Cpu, interrupt, clock_handler_entry}
use fun_size_os.Switch.Birth.{core}
use fun_size_os.Switch.Samples.{linked, linked-KeepsFrames, busy}
use fun_size_os.Start.Idle.{IsCalm, IsIdling, clock_handler_entry-kernel_main}
use fun_size_os.Start.Early.{IsLost, clock_handler_entry_null}
use fun_size_os.Start.Main.{kernel_main_lem}

-- "idle" at 0x5000.
abbrev with_name : Memory
with_name =
    store8 (store8 (store8 (store8 (λ _. 0) 0x5000 b'i') 0x5001 b'd') 0x5002 b'l') 0x5003 b'e'

abbrev bios : Memory
bios =
    store32 (store32 (store32 (store16 with_name 0x1100 1) 0x1102 valid_memory_from) 0x110a 0x3000)
      0x1112 1

abbrev machine : Machine
machine = record { memory = bios; ports = []; log = []; interrupts = false }

abbrev free_entries : ℕ → List ℕ
free_entries zero = []
free_entries (suc n) = null ∷ free_entries n

abbrev loaded : System
loaded = record {
  kernel = record {
    sched = record {
      machine = machine;
      tasks = free_entries 64;
      current = null;
      cpu_ticks = 0;
      dispatched = [];
    };
    physics_memory = record {
      addr_start = 0;
      addr_end = 0;
      valid_mem_size = 0;
      pages_total = 0;
      pages_free = 0;
      pages_used = 0;
    };
    physics_memory_map = record { addr_base = 0; pages_total = 0; bitmap_item_used = 0; map = 0 };
    bucket_dir = bucket_dir;
    free_bucket_desc = null;
  };
  console = record { machine = machine; screen = 0; pos = 0; x = 0; y = 0 };
  gdt = record {
    machine = machine;
    gdt = 0x3000;
    gdtr = record { limit = 31; base = 0x9000 };
    gdt_ptr = record { limit = 0; base = 0 };
    r3_code_selector = 0;
    r3_data_selector = 0;
  };
  idt = record {
    machine = machine;
    idtr = record { limit = 0; base = 0 };
    idt_ptr = record { limit = 0; base = 0 };
  };
}

abbrev entries : Entries
entries = record {
  interrupt_handler_entry = 0x2000;
  keymap_handler_entry = 0x2100;
  clock_handler_entry = 0x2200;
  interrupt_handler_table = λ i. 0x2300;
  interrupt_table = 0x4000;
}

entries_small : (i : ℕ) → i < interrupt_table_size → handler_of entries i < 0x1_0000_0000
unfolding handler_of
entries_small i h = ground arith

bios-FirstZone : FirstZone bios (times bios) 0
unfolding times item store32
bios-FirstZone = record {
  listed = omega arith;
  zone = record { base = refl; valid = refl };
  earlier = λ j h. absurd (omega arith);
}

bios_length : (item bios 0).length_low ≡ 0x3000
unfolding item load32 store32
bios_length = refl

idle-IsString : IsString bios 0x5000 0x5004
unfolding store32
idle-IsString = record { starts = omega arith; full = λ a p q. ground arith; ended = refl }

loaded-IsLoaded : IsLoaded 4 0x5000 0x5004 0 entries loaded
loaded-IsLoaded = record {
  gdt_low = omega arith;
  gdt_end = omega arith;
  idt_low = omega arith;
  idt_end = omega arith;
  tables_apart = inl (omega arith);
  boot_limit = omega arith;
  boot_apart = inl (omega arith);
  handlers = entries_small;
  string = idle-IsString;
  short = omega arith;
  rounds = omega arith;
  name_low = omega arith;
  name_gdt = inr (omega arith);
  name_idt = inr (omega arith);
  zone = bios-FirstZone;
  items_end = omega arith;
  zone_end = omega (arith, bios_length);
  zone_room = omega (arith, bios_length);
  no_pages = refl;
  buckets = refl;
  no_descs = refl;
  no_tasks = refl;
  no_current = refl;
}

kernel_main_lem_example :
    (s' : System) × (kernel_main 5 0x5000 0x6000 entries loaded ≡ some s')
    × IsStarted 0x5000 0x5004 0x6000 0 entries loaded s'
kernel_main_lem_example = kernel_main_lem 4 0x5000 0x5004 0x6000 0 entries loaded loaded-IsLoaded

empty_table : (n i : ℕ) → get_or (free_entries n) i null ≡ null
empty_table zero i = refl
empty_table (suc n) zero = refl
empty_table (suc n) (suc i) = empty_table n i

-- The stack of the boot code is at 0xf000.
abbrev at_boot : Cpu
at_boot = record (busy 0) { esp = 0xf000 }

loaded-IsCalm : IsCalm 512 at_boot loaded
loaded-IsCalm = record {
  entries = refl;
  empty = empty_table 64;
  room = omega arith;
  low = omega arith;
}

clock_handler_entry-kernel_main_example :
    (s' : System) × (kernel_main 5 0x5000 0x6000 entries loaded ≡ some s')
    × IsIdling 0x6000 (clock_handler_entry linked (interrupt 0x202 8 (core at_boot s'.kernel)))
clock_handler_entry-kernel_main_example =
    clock_handler_entry-kernel_main 4 0x5000 0x5004 0x6000 0 512 0x202 8 entries linked at_boot
      loaded loaded-IsLoaded loaded-IsCalm linked-KeepsFrames

clock_handler_entry_null_example : IsLost entries linked 0x202 8 at_boot loaded
clock_handler_entry_null_example =
    clock_handler_entry_null 512 0x202 8 entries linked at_boot loaded loaded-IsCalm refl
      (omega arith) linked-KeepsFrames
