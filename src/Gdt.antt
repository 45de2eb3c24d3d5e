-- ===== src/Gdt.antt =====
-- kernel/kernel/gdt.c: the two descriptors for user tasks, and the move of the table from the boot
-- code's place to the kernel's. `gdt` is the address that the linker gives to the array; the
-- register that sgdt reads and lgdt writes is the field `gdtr`.
pub mod Item
pub mod Init
mod Tests
use fun_size_os.Base.{ℕ, ◌+◌, ◌-◌, ◌*◌, ◌/◌, ◌%◌, ◌^◌, List, [], ◌∷◌, if◌then◌else◌, ltb, leb, ◌||◌}
use fun_size_os.Memory.{Memory, store_all}
use fun_size_os.Machine.{Machine, num, printk}
use fun_size_os.CString.{memcpy}
use fun_size_os.Traps.{XdtPtr}

abbrev pub gdt_size : ℕ
gdt_size = 256

pub record Gdt : Type 0 where
  pub machine : Machine
  pub gdt : ℕ
  pub gdtr : XdtPtr
  pub gdt_ptr : XdtPtr
  pub r3_code_selector : ℕ
  pub r3_data_selector : ℕ

-- `gdt_item_t`: eight bytes of packed bit fields.
pub record GdtItem : Type 0 where
  pub limit_low : ℕ
  pub base_low : ℕ
  pub kind : ℕ
  pub segment : ℕ
  pub dpl : ℕ
  pub present : ℕ
  pub limit_high : ℕ
  pub available : ℕ
  pub long_mode : ℕ
  pub big : ℕ
  pub granularity : ℕ
  pub base_high : ℕ

-- The bytes of the fields, each below its width, from the lowest bit up.
unfoldable pub item_bytes : GdtItem → List ℕ
item_bytes it =
    it.limit_low
    ∷ it.limit_low / 2 ^ 8
    ∷ it.base_low
    ∷ it.base_low / 2 ^ 8
    ∷ it.base_low / 2 ^ 16
    ∷ (it.kind + it.segment * 2 ^ 4 + it.dpl * 2 ^ 5 + it.present * 2 ^ 7)
    ∷ (it.limit_high
        + it.available * 2 ^ 4
        + it.long_mode * 2 ^ 5
        + it.big * 2 ^ 6
        + it.granularity * 2 ^ 7)
    ∷ it.base_high
    ∷ []

-- The field assignments that the two functions share; they differ in the type.
unfoldable pub r3_item : ℕ → ℕ → ℕ → GdtItem
r3_item kind base limit = record {
  limit_low = limit % 2 ^ 16;
  base_low = base % 2 ^ 24;
  kind = kind;
  segment = 1;
  dpl = 0b11;
  present = 1;
  limit_high = limit / 2 ^ 16 % 2 ^ 4;
  available = 0;
  long_mode = 0;
  big = 1;
  granularity = 1;
  base_high = base / 2 ^ 24 % 2 ^ 8;
}

-- `gdt_index` is an `int`: a negative one is a pattern from 2 ^ 31 on.
unfoldable pub put_item : ℕ → ℕ → ℕ → ℕ → Gdt → Gdt
put_item kind gdt_index base limit g =
    if leb (2 ^ 31) gdt_index || ltb gdt_index 4
    then record g {
      machine = printk "the gdt index %d has been used ...\n" (num gdt_index ∷ []) g.machine;
    }
    else record g {
      machine = record g.machine {
        memory =
            store_all g.machine.memory (g.gdt + 8 * gdt_index)
              (item_bytes (r3_item kind base limit));
      };
    }

unfoldable pub r3_gdt_code_item : ℕ → ℕ → ℕ → Gdt → Gdt
r3_gdt_code_item = put_item 0b1000

unfoldable pub r3_gdt_data_item : ℕ → ℕ → ℕ → Gdt → Gdt
r3_gdt_data_item = put_item 0b0010

-- The `short` limit as a `size_t`: the sign is extended.
unfoldable pub size_of_limit : ℕ → ℕ
size_of_limit limit = if ltb limit (2 ^ 15) then limit else limit + (2 ^ 32 - 2 ^ 16)

-- What `sgdt` stores, and the copy of the boot code's table.
unfoldable pub copy_table : Gdt → Gdt
copy_table g = record g {
  gdt_ptr = g.gdtr;
  machine = record g.machine {
    memory = memcpy g.machine.memory g.gdt g.gdtr.base (size_of_limit g.gdtr.limit);
  };
}

-- `4 << 3 | 0b011` and `5 << 3 | 0b011`, and `lgdt` of the new table.
unfoldable pub load_table : Gdt → Gdt
load_table g =
    let ptr : XdtPtr = record { limit = 8 * gdt_size - 1; base = g.gdt } in
    record g {
      r3_code_selector = 4 * 2 ^ 3 + 0b011;
      r3_data_selector = 5 * 2 ^ 3 + 0b011;
      gdt_ptr = ptr;
      gdtr = ptr;
    }

unfoldable pub gdt_init : Gdt → Gdt
gdt_init g =
    load_table (r3_gdt_data_item 5 0 0xf_ffff (r3_gdt_code_item 4 0 0xf_ffff (copy_table g)))
