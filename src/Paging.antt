-- ===== src/Paging.antt =====
-- kernel/mm/mm_101012.c and kernel/kernel/kernel.c: the page directory and its first tables.
pub mod Identity
pub mod Beyond
mod Tests
use fun_size_os.Base.{ℕ, zero, suc, ◌+◌, ◌*◌, Bool, true, List, [], ◌∷◌, ◌==◌, if◌then◌else◌}
use fun_size_os.Memory.{Memory, store32}
use fun_size_os.Machine.{Machine, num, printk}
use fun_size_os.CString.{memset}
use fun_size_os.Pages.{page_size}

abbrev pub pdt_start_addr : ℕ
pdt_start_addr = 0x2_0000

-- The machine, and the control registers as far as the code sets them.
pub record Paging : Type 0 where
  pub machine : Machine
  pub cr3 : ℕ
  pub page_enabled : Bool

unfoldable pub set_cr3 : ℕ → Paging → Paging
set_cr3 v p = record p { cr3 = v }

unfoldable pub enable_page : Paging → Paging
enable_page p = record p { page_enabled = true }

-- `0b111 | addr`, for the address of a page: present, writable, for user code.
abbrev pub entry : ℕ → ℕ
entry addr = addr + 7

abbrev pub ptt_at : ℕ → ℕ
ptt_at i = pdt_start_addr + suc i * 0x1000

unfoldable pub fill_table : ℕ → ℕ → ℕ → Memory → Memory
fill_table zero ptt j m = m
fill_table (suc n) ptt j m = fill_table n ptt (suc j) (store32 m (ptt + 4 * j) (entry (j * 0x1000)))

-- Only the first of the tables is filled.
unfoldable pub directory_loop : ℕ → ℕ → Memory → Memory
directory_loop zero i m = m
directory_loop (suc n) i m =
    let listed = store32 m (pdt_start_addr + 4 * i) (entry (ptt_at i)) in
    directory_loop n (suc i) (if i == 0 then fill_table 0x400 (ptt_at i) 0 listed else listed)

unfoldable pub virtual_memory_init : Paging → Paging
virtual_memory_init p =
    let cleared = memset p.machine.memory pdt_start_addr 0 page_size in
    let built = record p.machine { memory = directory_loop 4 0 cleared } in
    let paged = enable_page (set_cr3 pdt_start_addr (record p { machine = built })) in
    record paged { machine = printk "pdt addr: 0x%p\n" (num pdt_start_addr ∷ []) paged.machine }
