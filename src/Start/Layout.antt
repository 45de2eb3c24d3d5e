-- ===== src/Start/Layout.antt =====
-- Where the boot code and the linker leave things, and what the globals hold at the start.
use fun_size_os.Base.{ℕ, suc, ◌+◌, ◌*◌, ◌/◌, ◌^◌, ◌≤◌, ◌<◌, ◌≡◌, ◌⊎◌, set, true}
use fun_size_os.CString.{IsString}
use fun_size_os.Console.Inv.{IsOnScreen}
use fun_size_os.Gdt.Item.{IsUserSegment}
use fun_size_os.Idt.{Entries, handler_of, interrupt_table_size}
use fun_size_os.Idt.Gates.{IsGate}
use fun_size_os.Pages.{valid_memory_from, ards_addr, item, times}
use fun_size_os.Pages.Inv.{IsReady, table, page_at, used_pages, total_pages}
use fun_size_os.Pages.Init.{FirstZone}
use fun_size_os.Heap.{bucket_dir}
use fun_size_os.Sched.{null, task_at}
use fun_size_os.Task.{heap_of, memory_at}
use fun_size_os.Task.Create.{HasTask}
use fun_size_os.Start.{System, machine_of}

-- The program and its data lie from 0x1200 on and end below the page table's bytes at 0x1_0000. Item
-- `k` of the BIOS table describes the zone at 1 MB, which has two pages at least. Nothing is allocated.
pub record IsLoaded (fuel name end k : ℕ) (e : Entries) (s : System) : Type 0 where
  pub gdt_low : 0x1200 ≤ s.gdt.gdt
  pub gdt_end : s.gdt.gdt + 48 ≤ table
  pub idt_low : 0x1200 ≤ e.interrupt_table
  pub idt_end : e.interrupt_table + 2048 ≤ table
  pub tables_apart : (s.gdt.gdt + 48 ≤ e.interrupt_table) ⊎ (e.interrupt_table + 2048 ≤ s.gdt.gdt)
  pub boot_limit : s.gdt.gdtr.limit ≤ 32
  pub boot_apart : (s.gdt.gdt ≤ s.gdt.gdtr.base) ⊎ (s.gdt.gdtr.base + s.gdt.gdtr.limit ≤ s.gdt.gdt)
  pub handlers : (i : ℕ) → i < interrupt_table_size → handler_of e i < 2 ^ 32
  pub string : IsString (memory_at s.kernel.sched) name end
  pub short : end ≤ name + 31
  pub rounds : end < name + suc fuel
  pub name_low : end < table
  pub name_gdt : (end < s.gdt.gdt) ⊎ (s.gdt.gdt + 48 ≤ name)
  pub name_idt : (end < e.interrupt_table) ⊎ (e.interrupt_table + 2048 ≤ name)
  pub zone : FirstZone (memory_at s.kernel.sched) (times (memory_at s.kernel.sched)) k
  pub items_end : ards_addr + 2 + k * 20 + 20 ≤ 0x1200
  pub zone_end : valid_memory_from + (item (memory_at s.kernel.sched) k).length_low < 2 ^ 31
  pub zone_room : 8192 ≤ (item (memory_at s.kernel.sched) k).length_low
  pub no_pages : s.kernel.physics_memory_map.bitmap_item_used ≡ 0
  pub buckets : s.kernel.bucket_dir ≡ bucket_dir
  pub no_descs : s.kernel.free_bucket_desc ≡ null
  pub no_tasks : task_at 0 s.kernel.sched.tasks ≡ null
  pub no_current : s.kernel.sched.current ≡ null

-- What is there when kernel_main has come to its endless loop.
pub record IsStarted (name end idle k : ℕ) (e : Entries) (s s' : System) : Type 0 where
  pub screen : IsOnScreen s'.console
  pub gates :
      (i : ℕ)
      → i < interrupt_table_size
      → IsGate (machine_of s').memory (s'.idt.idtr.base + 8 * i) (handler_of e i)
  pub code : IsUserSegment (machine_of s').memory (s'.gdt.gdtr.base + 8 * 4) 0b1000 0 0xf_ffff
  pub datas : IsUserSegment (machine_of s').memory (s'.gdt.gdtr.base + 8 * 5) 0b0010 0 0xf_ffff
  pub ready : IsReady (heap_of s'.kernel).pages
  pub total :
      total_pages (heap_of s'.kernel).pages ≡ (item (memory_at s.kernel.sched) k).length_low / 4096
  pub used : used_pages (heap_of s'.kernel).pages ≡ 2
  pub tasks : s'.kernel.sched.tasks ≡ set s.kernel.sched.tasks 0 (page_at 1)
  pub task : HasTask name end idle (page_at 1) 0 s.kernel.sched s'.kernel.sched
  pub current : s'.kernel.sched.current ≡ null
  pub interrupts : (machine_of s').interrupts ≡ true
