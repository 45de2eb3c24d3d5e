-- ===== src/Pages.antt =====
-- kernel/mm/memory.c: which physical memory there is, and the table with one byte for each page of
-- it. The C globals g_physics_memory and g_physics_memory_map are the fields of `Pages`; the table's
-- bytes lie in the machine's memory, from `map` on.
pub mod Table
pub mod Inv
pub mod Alloc
pub mod Keeps
pub mod Init
pub mod Order
pub mod Frame
pub mod Prints
pub mod Pool
pub mod Refines
pub mod Zone
mod Tests
use Prim.Native.String.{String}
use fun_size_os.Base.{
  ℕ, zero, suc, ◌+◌, ◌-◌, ◌*◌, ◌%◌, ◌^◌, Bool, true, false, ◌&&◌, ◌||◌, Option, none, some, List,
  [], ◌∷◌, ◌==◌, ltb, if◌then◌else◌, u16, u32, add32, sub32, shl32, shr, sar32, not,
}
use fun_size_os.Memory.{Memory, load16, load32, store8}
use fun_size_os.Machine.{Machine, Arg, num, text, printk}
use fun_size_os.CString.{memset}

abbrev pub page_size : ℕ
page_size = 4096

abbrev pub ards_addr : ℕ
ards_addr = 0x1100

abbrev pub zone_valid : ℕ
zone_valid = 1

abbrev pub valid_memory_from : ℕ
valid_memory_from = 0x10_0000

-- `check_memory_item_t`, 20 bytes
pub record CheckMemoryItem : Type 0 where
  pub base_addr_low : ℕ
  pub base_addr_high : ℕ
  pub length_low : ℕ
  pub length_high : ℕ
  pub kind : ℕ

-- `physics_memory_info_t`
pub record PhysicsMemory : Type 0 where
  pub addr_start : ℕ
  pub addr_end : ℕ
  pub valid_mem_size : ℕ
  pub pages_total : ℕ
  pub pages_free : ℕ
  pub pages_used : ℕ

-- `physics_memory_map_t`
pub record PhysicsMemoryMap : Type 0 where
  pub addr_base : ℕ
  pub pages_total : ℕ
  pub bitmap_item_used : ℕ
  pub map : ℕ

pub record Pages : Type 0 where
  pub machine : Machine
  pub physics_memory : PhysicsMemory
  pub physics_memory_map : PhysicsMemoryMap

-- The count that the boot code stored, and the items behind it.
unfoldable pub times : Memory → ℕ
unfolding load16
times m = load16 m ards_addr

unfoldable pub item : Memory → ℕ → CheckMemoryItem
unfolding load32
item m i =
    let at : ℕ = ards_addr + 2 + i * 20 in
    record {
      base_addr_low = load32 m at;
      base_addr_high = load32 m (at + 4);
      length_low = load32 m (at + 8);
      length_high = load32 m (at + 12);
      kind = load32 m (at + 16);
    }

-- `n` rounds are left of the loop, which stands at `i`.
unfoldable pub print_loop : ℕ → ℕ → Machine → Machine
unfolding item printk
print_loop zero i m = m
print_loop (suc n) i m =
    let tmp = item m.memory i in
    print_loop n (i + 1) (
      printk "%x, %x, %x, %x, %d\n"
        (num tmp.base_addr_high
          ∷ num tmp.base_addr_low
          ∷ num tmp.length_high
          ∷ num tmp.length_low
          ∷ num tmp.kind
          ∷ [])
        m)

unfoldable pub print_check_memory_info : Machine → Machine
unfolding print_loop times
print_check_memory_info m = print_loop (times m.memory) 0 m

abbrev pub is_usable : CheckMemoryItem → Bool
is_usable tmp = ltb 0 tmp.base_addr_low && (tmp.kind == zone_valid)

abbrev pub take_item : CheckMemoryItem → PhysicsMemory → PhysicsMemory
take_item tmp info = record info {
  addr_start = tmp.base_addr_low;
  valid_mem_size = tmp.length_low;
  addr_end = add32 tmp.base_addr_low tmp.length_low;
}

-- The `break` stands inside the test for a usable item.
pub init_loop : ℕ → ℕ → Memory → PhysicsMemory → PhysicsMemory
init_loop zero i m info = info
init_loop (suc n) i m info =
    let tmp = item m i in
    let info' : PhysicsMemory = if is_usable tmp then take_item tmp info else info in
    let rest = init_loop n (i + 1) m info' in
    if is_usable tmp && (valid_memory_from == info'.addr_start) then info' else rest

no_valid_memory : ℕ → Machine → Machine
unfolding printk
no_valid_memory line =
    printk "[%s:%d] no valid physics memory\n" (text "kernel/mm/memory.c" ∷ num line ∷ [])

-- The page count of the zone, none of it used.
abbrev pub count_pages : PhysicsMemory → PhysicsMemory
count_pages info =
    let total = shr (sub32 info.addr_end info.addr_start) 12 in
    record info { pages_total = total; pages_used = 0; pages_free = sub32 total 0 }

unfoldable pub memory_init : Pages → Pages
unfolding init_loop no_valid_memory times
memory_init s =
    let info = init_loop (times s.machine.memory) 0 s.machine.memory s.physics_memory in
    if not (valid_memory_from == info.addr_start)
    then record s { machine = no_valid_memory 66 s.machine; physics_memory = info }
    else record s { physics_memory = count_pages info }

unfoldable pub memory_map_int : Pages → Pages
unfolding no_valid_memory
memory_map_int s =
    if not (valid_memory_from == s.physics_memory.addr_start)
    then record s { machine = no_valid_memory 81 s.machine }
    else record s {
      machine = record s.machine {
        memory = memset s.machine.memory 0x1_0000 0 s.physics_memory.pages_total;
      };
      physics_memory_map = record s.physics_memory_map {
        addr_base = valid_memory_from;
        map = 0x1_0000;
        pages_total = s.physics_memory.pages_total;
      };
    }

-- The scan for a zero byte of the table, with `n` rounds left.
pub find_loop : ℕ → ℕ → Memory → ℕ → Option ℕ
find_loop zero i m map = none
find_loop (suc n) i m map =
    let rest = find_loop n (i + 1) m map in if 0 == m (add32 map i) then some i else rest

abbrev pub null : ℕ
null = 0

-- The table with the byte of page `i` set to `b`, and `used` pages in use.
abbrev pub mark : ℕ → ℕ → ℕ → Pages → Pages
mark i b used s = record s {
  machine = record s.machine {
    memory = store8 s.machine.memory (add32 s.physics_memory_map.map i) b;
  };
  physics_memory_map = record s.physics_memory_map { bitmap_item_used = used };
}

-- The two functions report alike.
report : String → ℕ → Pages → Pages
unfolding printk
report function p s = record s {
  machine =
      printk "[%s] return: 0x%X, used: %d pages\n"
        (text function ∷ num p ∷ num s.physics_memory_map.bitmap_item_used ∷ []) s.machine;
}

-- What follows the scan.
pub grant : Pages → Option ℕ → ℕ × Pages
unfolding report store8
grant s none = (null, record s { machine = printk "need to expand memory !" [] s.machine })
grant s (some i) =
    let ret = add32 s.physics_memory_map.addr_base (shl32 i 12) in
    (ret, report "get_free_page" ret (mark i 1 (add32 s.physics_memory_map.bitmap_item_used 1) s))

-- `i` is an `int` that is compared with an `uint`: the scan stops at once if the count of used pages
-- has reached the total.
unfoldable pub get_free_page : Pages → ℕ × Pages
unfolding find_loop grant
get_free_page s =
    let used = s.physics_memory_map.bitmap_item_used in
    grant s (
      find_loop (s.physics_memory.pages_total - used) used s.machine.memory
        s.physics_memory_map.map)

unfoldable pub free_page : ℕ → Pages → Pages
unfolding report store8
free_page p s =
    if ltb p s.physics_memory.addr_start || ltb s.physics_memory.addr_end p
    then record s { machine = printk "invalid memory address !" [] s.machine }
    else let index = sar32 (sub32 p s.physics_memory_map.addr_base) 12 in
      report "free_page" p (mark index 0 (sub32 s.physics_memory_map.bitmap_item_used 1) s)
