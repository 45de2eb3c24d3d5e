-- ===== src/Pages/Tests.antt =====
-- The page allocator on a machine with three pages, and its theorems there.
use fun_size_os.Base.{ℕ, ◌+◌, ◌/◌, ◌<◌, ◌≡◌, ◌⊎◌, refl, arith, true, ap, [], List, ◌∷◌}
use fun_size_os.Memory.{Memory, store8, store16, store32, load32}
use fun_size_os.Machine.{Machine}
use fun_size_os.Pages.{
  Pages, valid_memory_from, null, item, times, memory_init, memory_map_int, get_free_page,
  free_page,
}
use fun_size_os.Pages.Table.{marks}
use fun_size_os.Pages.Inv.{IsReady, table, page_at, total_pages, byte_of}
use fun_size_os.Pages.Alloc.{Allocated, Exhausted, get_free_page_lem}
use fun_size_os.Pages.Keeps.{get_free_page-IsReady, free_page-get_free_page}
use fun_size_os.Pages.Init.{IsZone, FirstZone, memory_map_int-IsReady}
use fun_size_os.Pages.Pool.{Event, took, gave, refused, Trace}
use fun_size_os.Pages.Refines.{Runs, took_page, gave_page, no_page, done_at, pool_of, Runs-Trace}
use fun_size_os.Pages.Order.{IsCompact, get_free_page-IsCompact, get_free_page_misses}

abbrev machine_of : Memory → Machine
machine_of m = record { memory = m; ports = []; log = []; interrupts = true }

-- Three pages, `used` of them in use.
abbrev three : Memory → ℕ → Pages
three m used = record {
  machine = machine_of m;
  physics_memory = record {
    addr_start = valid_memory_from;
    addr_end = 0x10_3000;
    valid_mem_size = 0x3000;
    pages_total = 3;
    pages_free = 3;
    pages_used = 0;
  };
  physics_memory_map = record {
    addr_base = valid_memory_from;
    pages_total = 3;
    bitmap_item_used = used;
    map = table;
  };
}

abbrev fresh : Pages
fresh = three (λ _. 0) 0

abbrev full : Pages
full = three (λ _. 1) 3

fresh-IsReady : IsReady fresh
unfolding marks
fresh-IsReady = record {
  start = refl;
  base = refl;
  map_at = refl;
  room = omega arith;
  end_small = omega arith;
  flags = λ i h. omega arith;
  counted = refl;
}

full-IsReady : IsReady full
unfolding marks
full-IsReady = record {
  start = refl;
  base = refl;
  map_at = refl;
  room = omega arith;
  end_small = omega arith;
  flags = λ i h. omega arith;
  counted = refl;
}

fresh-IsCompact : IsCompact fresh
fresh-IsCompact = record { below = λ i h. absurd (omega arith); above = λ i p q. refl }

-- Pages come out in the order of their addresses.
third_page : (get_free_page (get_free_page (get_free_page fresh).1).1).0 ≡ 0x10_2000
unfolding get_free_page
third_page = refl

get_free_page_lem_example :
    Exhausted fresh (get_free_page fresh) ⊎ ((i : ℕ) × Allocated fresh i (get_free_page fresh))
get_free_page_lem_example = get_free_page_lem fresh fresh-IsReady

get_free_page-IsCompact_example :
    Allocated fresh 0 (get_free_page fresh) × IsCompact (get_free_page fresh).1
get_free_page-IsCompact_example =
    get_free_page-IsCompact fresh fresh-IsReady fresh-IsCompact (omega arith)

first : Allocated fresh 0 (get_free_page fresh)
first = (get_free_page-IsCompact fresh fresh-IsReady fresh-IsCompact (omega arith)).0

second : Allocated (get_free_page fresh).1 1 (get_free_page (get_free_page fresh).1)
unfolding get_free_page
second =
    (get_free_page-IsCompact (get_free_page fresh).1 (get_free_page-IsReady fresh fresh-IsReady)
      (get_free_page-IsCompact fresh fresh-IsReady fresh-IsCompact (omega arith)).1 (omega arith)).0

free_page-get_free_page_example :
    let (p, t) = get_free_page fresh in
    ((free_page p t).machine.memory ≡ fresh.machine.memory)
    × ((free_page p t).physics_memory ≡ fresh.physics_memory)
    × ((free_page p t).physics_memory_map ≡ fresh.physics_memory_map)
free_page-get_free_page_example = free_page-get_free_page fresh 0 fresh-IsReady first

get_free_page_misses_example :
    let t = free_page (page_at 0) full in (byte_of t 0 ≡ 0) × ((get_free_page t).0 ≡ null)
get_free_page_misses_example = get_free_page_misses full 0 full-IsReady refl (omega arith)

-- A table of the BIOS with one zone of three pages and a half.
abbrev bios : Memory
bios =
    store32 (store32 (store32 (store16 (λ _. 0) 0x1100 1) 0x1102 valid_memory_from) 0x110a 0x3800)
      0x1112 1

abbrev at_boot : Memory → Pages
at_boot m = record {
  machine = machine_of m;
  physics_memory = record {
    addr_start = 0;
    addr_end = 0;
    valid_mem_size = 0;
    pages_total = 0;
    pages_free = 0;
    pages_used = 0;
  };
  physics_memory_map = record { addr_base = 0; pages_total = 0; bitmap_item_used = 0; map = 0 };
}

bios-FirstZone : FirstZone bios (times bios) 0
unfolding times item store32
bios-FirstZone = record {
  listed = omega arith;
  zone = record { base = refl; valid = refl };
  earlier = λ j h. absurd (omega arith);
}

bios_fits : valid_memory_from + (item bios 0).length_low < 0x8000_0000
unfolding item load32 store32
bios_fits = omega arith

memory_map_int-IsReady_example :
    let t = memory_map_int (memory_init (at_boot bios)) in
    IsReady t
    × (total_pages t ≡ (item bios 0).length_low / 4096)
    × ((i : ℕ) → i < total_pages t → byte_of t i ≡ 0)
memory_map_int-IsReady_example =
    memory_map_int-IsReady (at_boot bios) 0 bios-FirstZone bios_fits refl

-- A table whose only zone is reserved.
abbrev reserved : Memory
reserved = store32 (store32 (store16 (λ _. 0) 0x1100 1) 0x1102 valid_memory_from) 0x1112 2

reserved-times : times reserved ≡ 1
unfolding times store32
reserved-times = refl

reserved_kind : (item reserved 0).kind ≡ 2
unfolding item load32 store32
reserved_kind = refl

reserved_none : (j : ℕ) → j < times reserved → ¬ IsZone (item reserved j)
reserved_none j h z =
    let first_item : j ≡ 0 = omega (arith, reserved-times) in
    omega (arith, reserved_kind, ap (λ i. (item reserved i).kind) first_item, z.valid)

-- Three pages are taken, the first comes back, and the next request is refused.
abbrev events : List Event
events = took 0 ∷ took 1 ∷ took 2 ∷ gave 0 ∷ refused ∷ []

abbrev taken : Pages
taken = (get_free_page (get_free_page (get_free_page fresh).1).1).1

abbrev after_events : Pages
after_events = (get_free_page (free_page 0x10_0000 taken)).1

events-Runs : Runs fresh events after_events
unfolding get_free_page free_page store8
events-Runs =
    took_page 0 refl
      (took_page 1 refl (took_page 2 refl (gave_page 0 (omega arith) refl (no_page refl done_at))))

Runs-Trace_example : Trace 3 (pool_of fresh) events (pool_of after_events) × IsReady after_events
unfolding get_free_page free_page store8
Runs-Trace_example = Runs-Trace fresh after_events events fresh-IsReady events-Runs
