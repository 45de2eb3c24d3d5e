-- ===== src/Pages/Inv.antt =====
-- The invariant of the page table, and the address of each page.
use fun_size_os.Base.{ℕ, ◌+◌, ◌*◌, ◌^◌, ◌≤◌, ◌<◌, ◌≡◌}
use fun_size_os.Pages.{Pages, valid_memory_from}
use fun_size_os.Pages.Table.{marks, Flags}

abbrev pub table : ℕ
table = 0x1_0000

-- The address of page `i`.
abbrev pub page_at : ℕ → ℕ
page_at i = valid_memory_from + i * 4096

abbrev pub total_pages : Pages → ℕ
total_pages s = s.physics_memory.pages_total

abbrev pub used_pages : Pages → ℕ
used_pages s = s.physics_memory_map.bitmap_item_used

abbrev pub byte_of : Pages → ℕ → ℕ
byte_of s i = s.machine.memory (table + i)

-- After memory_map_int: the zone begins at 1 MB and ends inside the address space, each page has a
-- byte that is 0 or 1, and the counter is the number of bytes that are set.
pub record IsReady (s : Pages) : Type 0 where
  pub start : s.physics_memory.addr_start ≡ valid_memory_from
  pub base : s.physics_memory_map.addr_base ≡ valid_memory_from
  pub map_at : s.physics_memory_map.map ≡ table
  pub room : page_at s.physics_memory.pages_total ≤ s.physics_memory.addr_end
  pub end_small : s.physics_memory.addr_end < 2 ^ 31
  pub flags : Flags s.machine.memory table (total_pages s)
  pub counted : used_pages s ≡ marks s.machine.memory table (total_pages s)
