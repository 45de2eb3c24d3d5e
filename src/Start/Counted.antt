-- ===== src/Start/Counted.antt =====
-- The pages once kernel_main has counted them, and the kernel before its first task.
use fun_size_os.Base.{ℕ, ◌+◌, ◌/◌, ◌^◌, ◌≤◌, ◌<◌, ◌≡◌, ◌⊎◌, inl, refl, ◌∙◌, ap, arith}
use fun_size_os.CString.{IsString}
use fun_size_os.CString.Terminated.{IsString-frame}
use fun_size_os.Idt.{Entries}
use fun_size_os.Pages.{valid_memory_from, item, times, memory_init}
use fun_size_os.Pages.Inv.{IsReady, table, used_pages, total_pages, byte_of}
use fun_size_os.Pages.Init.{FirstZone, memory_map_int-IsReady, marks-clear}
use fun_size_os.Pages.Zone.{item-frame, FirstZone-frame, memory_init-memory, memory_map_int_outside}
use fun_size_os.Heap.{bucket_at, bucket_dir, empty_bucket, find_bucket}
use fun_size_os.Heap.First.{IsUnused}
use fun_size_os.Task.{heap_of, memory_at}
use fun_size_os.Task.Boot.{CanBoot}
use fun_size_os.Start.{System, set_up_tables, set_up_memory}
use fun_size_os.Start.Stages.{greet-memory}
use fun_size_os.Start.Layout.{IsLoaded}
use fun_size_os.Start.Parts.{
  start_memory, screen, boot_gdt, moved_gdt, boot_idt, filled_idt, with_tables, found, counted,
  before,
}
use fun_size_os.Start.Tables.{tables_outside}

module _ (fuel name end idle k : ℕ) (e : Entries) (s : System)
    (l : IsLoaded fuel name end k e s) where
  pub found-memory : (found e s).machine.memory ≡ (filled_idt e s).machine.memory
  unfolding found with_tables set_up_tables filled_idt boot_idt moved_gdt boot_gdt screen
  found-memory = greet-memory (filled_idt e s).machine

  found_same :
      (a : ℕ)
      → a < table
      → (a < s.gdt.gdt) ⊎ (s.gdt.gdt + 48 ≤ a)
      → (a < e.interrupt_table) ⊎ (e.interrupt_table + 2048 ≤ a)
      → (found e s).machine.memory a ≡ start_memory s a
  found_same a low g i =
      ap (λ n. n a) found-memory ∙ tables_outside fuel name end idle k e s l a low g i

  items_same : (c : ℕ) → c < 0x1200 → (found e s).machine.memory c ≡ (start_memory s) c
  items_same c p =
      found_same c (omega arith) (inl (omega (arith, l.gdt_low))) (inl (omega (arith, l.idt_low)))

  item-found : item (found e s).machine.memory k ≡ item (start_memory s) k
  item-found =
      item-frame (start_memory s) (found e s).machine.memory k
        (λ c p q. items_same c (omega (arith, l.items_end)))

  found-FirstZone : FirstZone (found e s).machine.memory (times (found e s).machine.memory) k
  found-FirstZone =
      FirstZone-frame (start_memory s) (found e s).machine.memory k
        (λ c p q. items_same c (omega (arith, l.items_end))) l.zone

  zone_fits : valid_memory_from + (item (found e s).machine.memory k).length_low < 2 ^ 31
  zone_fits = rw item-found l.zone_end

  found_unused : used_pages (found e s) ≡ 0
  unfolding found with_tables set_up_tables
  found_unused = l.no_pages

  counted-IsReady :
      IsReady (counted e s)
      × (total_pages (counted e s) ≡ (item (start_memory s) k).length_low / 4096)
      × ((i : ℕ) → i < total_pages (counted e s) → byte_of (counted e s) i ≡ 0)
  unfolding counted set_up_memory
  counted-IsReady =
      let (ready, total, clear) =
        memory_map_int-IsReady (found e s) k found-FirstZone (omega (arith, zone_fits))
          found_unused in
      (ready, total ∙ ap (λ z. z.length_low / 4096) item-found, clear)

  counted_same :
      (a : ℕ)
      → a < table
      → (a < s.gdt.gdt) ⊎ (s.gdt.gdt + 48 ≤ a)
      → (a < e.interrupt_table) ⊎ (e.interrupt_table + 2048 ≤ a)
      → (counted e s).machine.memory a ≡ start_memory s a
  unfolding counted set_up_memory
  counted_same a low g i =
      memory_map_int_outside (memory_init (found e s)) a (inl low)
      ∙ ap (λ n. n a) (memory_init-memory (found e s))
      ∙ found_same a low g i

  counted-IsEmpty : used_pages (counted e s) ≡ 0
  counted-IsEmpty =
      let (ready, total, clear) = counted-IsReady in
      ready.counted ∙ marks-clear (counted e s).machine.memory (total_pages (counted e s)) clear

  before-IsReady : IsReady (heap_of (before e s)).pages
  unfolding before counted found
  before-IsReady = counted-IsReady.0

  pub before-total :
      total_pages (heap_of (before e s)).pages ≡ (item (start_memory s) k).length_low / 4096
  unfolding before counted found
  before-total = counted-IsReady.1

  before_clear :
      (i : ℕ)
      → i < total_pages (heap_of (before e s)).pages
      → byte_of (heap_of (before e s)).pages i ≡ 0
  unfolding before counted found
  before_clear = counted-IsReady.2

  pub before-IsEmpty : used_pages (heap_of (before e s)).pages ≡ 0
  unfolding before counted found
  before-IsEmpty = counted-IsEmpty

  before-dirs : (before e s).bucket_dir ≡ bucket_dir
  unfolding before with_tables set_up_tables
  before-dirs = l.buckets

  -- The chain of 4096 bytes, the last of the directory.
  large_bucket :
      bucket_at (find_bucket 4096 (before e s).bucket_dir) (before e s).bucket_dir
      ≡ empty_bucket 4096
  unfolding find_bucket
  large_bucket = rw before-dirs refl

  before_room :
      used_pages (heap_of (before e s)).pages + 2 ≤ total_pages (heap_of (before e s)).pages
  before_room = omega (arith, before-IsEmpty, before-total, l.zone_room)

  before-IsUnused : IsUnused (heap_of (before e s)) (find_bucket 4096 (before e s).bucket_dir)
  unfolding before with_tables set_up_tables
  before-IsUnused = record {
    ready = before-IsReady;
    compact = record {
      below = λ i h. absurd (omega (arith, before-IsEmpty));
      above = λ i low h. before_clear i h;
    };
    room = before_room;
    none_free = l.no_descs;
    empty = ap (λ b. b.chain) large_bucket;
    large = omega (arith, ap (λ b. b.size) large_bucket);
    small = omega (arith, ap (λ b. b.size) large_bucket);
  }

  pub name_same : (a : ℕ) → name ≤ a → a ≤ end → (counted e s).machine.memory a ≡ start_memory s a
  name_same a p q =
      counted_same a (omega (arith, l.name_low)) (omega (arith, l.name_gdt))
        (omega (arith, l.name_idt))

  before-IsString : IsString (memory_at (before e s).sched) name end
  unfolding before counted found
  before-IsString = IsString-frame (memory_at (before e s).sched) name_same l.string

  pub before-CanBoot : CanBoot fuel name end 0 (before e s)
  unfolding before with_tables set_up_tables
  before-CanBoot = record {
    unused = before-IsUnused;
    slot = record {
      lower = omega arith;
      upper = omega arith;
      empty = l.no_tasks;
      earlier = λ j p q. absurd (omega arith);
    };
    string = before-IsString;
    short = l.short;
    rounds = l.rounds;
    low = l.name_low;
    idle = l.no_current;
  }
