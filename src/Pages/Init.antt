-- ===== src/Pages/Init.antt =====
-- memory_init finds the zone that begins at 1 MB in the table of the BIOS, and memory_map_int sets
-- the page table up for it.
use fun_size_os.Base.{
  ℕ, zero, suc, ◌+◌, ◌/◌, ◌^◌, ◌≤◌, ◌<◌, ◌≡◌, ◌≢◌, ◌⊎◌, inl, inr, refl, arith, sym, ◌&&◌, Bool,
  true, false, ◌∙◌, ◌==◌, Bool-cases, ==_iff, eq→==, ne→==, length, if◌then◌else◌,
}
use fun_size_os.Memory.{Memory}
use fun_size_os.CString.{memset}
use fun_size_os.CString.Block.{memset_lem}
use fun_size_os.Pages.{
  Pages, CheckMemoryItem, PhysicsMemory, valid_memory_from, zone_valid, is_usable, take_item, item,
  times, init_loop, count_pages, memory_init, memory_map_int,
}
use fun_size_os.Pages.Table.{marks}
use fun_size_os.Pages.Inv.{IsReady, table, page_at, total_pages, used_pages, byte_of}

-- The item describes the usable zone that begins at 1 MB.
pub record IsZone (it : CheckMemoryItem) : Type 0 where
  pub base : it.base_addr_low ≡ valid_memory_from
  pub valid : it.kind ≡ zone_valid

-- Item `k` of the table is the first such.
pub record FirstZone (m : Memory) (n k : ℕ) : Type 0 where
  pub listed : k < n
  pub zone : IsZone (item m k)
  pub earlier : (j : ℕ) → j < k → ¬ IsZone (item m j)

stops : CheckMemoryItem → PhysicsMemory → Bool
stops it info =
    is_usable it
    && (valid_memory_from == (if is_usable it then take_item it info else info).addr_start)

stops-zone : (it : CheckMemoryItem) (info : PhysicsMemory) → IsZone it → stops it info ≡ true
unfolding stops
stops-zone it info z = ground (arith, z.base, z.valid)

first_stops : (it : CheckMemoryItem) (info : PhysicsMemory) → stops it info ≡ true → IsZone it
unfolding stops
first_stops it info h = ground arith

stops-other : (it : CheckMemoryItem) (info : PhysicsMemory) → ¬ IsZone it → stops it info ≡ false
stops-other it info no_zone = elim (Bool-cases (stops it info)) [
  | inl e ↦ absurd (no_zone (first_stops it info e))
  | inr e ↦ e
]

taken : CheckMemoryItem → PhysicsMemory → PhysicsMemory
taken it info = if is_usable it then take_item it info else info

-- A later item overwrites all that an earlier one set.
take_item-taken :
    (z it : CheckMemoryItem) (info : PhysicsMemory) → take_item z (taken it info) ≡ take_item z info
unfolding taken
take_item-taken z it info = elim (Bool-cases (is_usable it)) [ inl e ↦ rw e | inr e ↦ rw e ]

taken-zone :
    (it : CheckMemoryItem) (info : PhysicsMemory) → IsZone it → taken it info ≡ take_item it info
unfolding taken
taken-zone it info z =
    let usable : is_usable it ≡ true = ground (arith, z.base, z.valid) in rw usable

first_taken :
    (it : CheckMemoryItem) (info : PhysicsMemory)
    → (taken it info).addr_start ≡ valid_memory_from
    → IsZone it ⊎ (info.addr_start ≡ valid_memory_from)
unfolding taken
first_taken it info h = ground arith

init_loop-suc :
    (n i : ℕ) (m : Memory) (info : PhysicsMemory)
    → init_loop (suc n) i m info ≡ (
        if stops (item m i) info
        then taken (item m i) info
        else init_loop n (i + 1) m (taken (item m i) info))
unfolding init_loop stops taken
init_loop-suc n i m info = refl

module _ (m : Memory) (k : ℕ) (z : IsZone (item m k))
    (earlier : (j : ℕ) → j < k → ¬ IsZone (item m j)) where
  init_loop-zone :
      (n i : ℕ) (info : PhysicsMemory)
      → i ≤ k
      → k < i + n
      → init_loop n i m info ≡ take_item (item m k) info
  init_loop-zone zero i info p q = absurd (omega arith)
  init_loop-zone (suc n) i info p q = rw init_loop-suc (elim (Bool-cases (i == k)) [
    | inl e ↦
        let at : i ≡ k = (==_iff i k).0 e in
        rw (at, stops-zone (item m k) info z) (taken-zone (item m k) info z)
    | inr e ↦
        let before : i < k = ground arith in
        rw (stops-other (item m i) info (earlier i before)) (
          init_loop-zone n (i + 1) (taken (item m i) info) (omega arith) (omega arith)
          ∙ take_item-taken (item m k) (item m i) info)
  ])

-- What holds of the record while no item has described the zone at 1 MB.
record Untouched (info info' : PhysicsMemory) : Type 0 where
  start : info'.addr_start ≢ valid_memory_from
  total : info'.pages_total ≡ info.pages_total
  free : info'.pages_free ≡ info.pages_free
  used : info'.pages_used ≡ info.pages_used

Untouched-taken :
    (it : CheckMemoryItem) (info info' : PhysicsMemory)
    → ¬ IsZone it
    → Untouched info info'
    → Untouched info (taken it info')
unfolding taken
Untouched-taken it info info' no_zone u = record {
  start = λ e. elim (first_taken it info' e) [ inl z ↦ no_zone z | inr old ↦ u.start old ];
  total = ground (arith, u.total);
  free = ground (arith, u.free);
  used = ground (arith, u.used);
}

init_loop-none :
    (n i : ℕ) (m : Memory) (info info' : PhysicsMemory)
    → ((j : ℕ) → j < i + n → ¬ IsZone (item m j))
    → Untouched info info'
    → Untouched info (init_loop n i m info')
unfolding init_loop
init_loop-none zero i m info info' no_zone u = u
init_loop-none (suc n) i m info info' no_zone u =
    rw (init_loop-suc n i m info', stops-other (item m i) info' (no_zone i (omega arith)))
      (init_loop-none n (i + 1) m info (taken (item m i) info') (λ j h. no_zone j (omega arith))
        (Untouched-taken (item m i) info info' (no_zone i (omega arith)) u))

-- memory_init takes the first usable zone of the table that begins at 1 MB, counts its pages, and
-- marks none as used.
pub memory_init-zone :
    (s : Pages) (k : ℕ)
    → FirstZone s.machine.memory (times s.machine.memory) k
    → memory_init s ≡ record s {
      physics_memory = count_pages (take_item (item s.machine.memory k) s.physics_memory);
    }
unfolding memory_init
memory_init-zone s k f = rw (
  init_loop-zone s.machine.memory k f.zone f.earlier (times s.machine.memory) 0 s.physics_memory
      (omega arith) (omega (arith, f.listed)),
  eq→== valid_memory_from (item s.machine.memory k).base_addr_low (sym f.zone.base),
)

-- If no item of the BIOS table is a usable zone at 1 MB, and none was recorded before, memory_init
-- and memory_map_int leave the page count, the page table record and the memory as they were, and
-- report twice.
pub memory_init-none :
    (s : Pages)
    → s.physics_memory.addr_start ≢ valid_memory_from
    → ((j : ℕ) → j < times s.machine.memory → ¬ IsZone (item s.machine.memory j))
    → let t = memory_map_int (memory_init s) in
      (t.physics_memory.pages_total ≡ s.physics_memory.pages_total)
      × (t.physics_memory_map ≡ s.physics_memory_map)
      × (t.machine.memory ≡ s.machine.memory)
      × (length t.machine.log ≡ length s.machine.log + 2)
unfolding memory_init memory_map_int
memory_init-none s ne no_zone =
    let u =
      init_loop-none (times s.machine.memory) 0 s.machine.memory s.physics_memory s.physics_memory
        (λ j h. no_zone j (omega arith))
        (record { start = ne; total = refl; free = refl; used = refl }) in
    let other = ne→== _ _ (λ e. u.start (sym e)) in
    rw (other, other) (u.total, refl, refl, omega arith)

pub marks-clear : (m : Memory) (n : ℕ) → ((i : ℕ) → i < n → m (table + i) ≡ 0) → marks m table n ≡ 0
unfolding marks
marks-clear m zero clear = refl
marks-clear m (suc n) clear =
    rw (marks-clear m n (λ i h. clear i (omega arith)), clear n (omega arith))

memset_clears : (m : Memory) (n i : ℕ) → i < n → memset m table 0 n (table + i) ≡ 0
memset_clears m n i h = rw memset_lem (ground arith)

-- memory_map_int on a record that memory_init has filled in.
module _ (t : Pages) (start : t.physics_memory.addr_start ≡ valid_memory_from)
    (room : page_at (total_pages t) ≤ t.physics_memory.addr_end)
    (end_small : t.physics_memory.addr_end < 2 ^ 31) (unused : used_pages t ≡ 0) where
  map_int_clear : (i : ℕ) → i < total_pages t → byte_of (memory_map_int t) i ≡ 0
  unfolding memory_map_int
  map_int_clear i h =
      rw (eq→== _ _ (sym start)) (memset_clears t.machine.memory (total_pages t) i h)

  map_int-total : total_pages (memory_map_int t) ≡ total_pages t
  unfolding memory_map_int
  map_int-total = rw (eq→== _ _ (sym start))

  map_int-IsReady : IsReady (memory_map_int t)
  unfolding memory_map_int
  map_int-IsReady =
      let clear = memset_clears t.machine.memory (total_pages t) in
      rw (eq→== _ _ (sym start)) (record {
        start = start;
        base = refl;
        map_at = refl;
        room = room;
        end_small = end_small;
        flags = λ i h. omega (arith, clear i h);
        counted =
            unused
            ∙ sym (
                marks-clear (memset t.machine.memory table 0 (total_pages t)) (total_pages t)
                  clear);
      })

-- If the first usable zone of the BIOS table that begins at 1 MB ends below 2 GB and the counter
-- is 0, memory_init followed by memory_map_int leaves a valid page table with one entry for each
-- whole page of the zone, all of them free.
pub memory_map_int-IsReady :
    (s : Pages) (k : ℕ)
    → FirstZone s.machine.memory (times s.machine.memory) k
    → valid_memory_from + (item s.machine.memory k).length_low < 2 ^ 31
    → used_pages s ≡ 0
    → let t = memory_map_int (memory_init s) in
      IsReady t
      × (total_pages t ≡ (item s.machine.memory k).length_low / 4096)
      × ((i : ℕ) → i < total_pages t → byte_of t i ≡ 0)
memory_map_int-IsReady s k f small unused =
    let base = f.zone.base in
    rw (memory_init-zone s k f) (
      map_int-IsReady t base room end_small unused,
      map_int-total t base room end_small unused ∙ omega (arith, base),
      λ i h.
          map_int_clear t base room end_small unused i
            (omega (arith, h, map_int-total t base room end_small unused)),
    )
  where
    t : Pages
    t = record s {
      physics_memory = count_pages (take_item (item s.machine.memory k) s.physics_memory);
    }

    room : page_at (total_pages t) ≤ t.physics_memory.addr_end
    room = omega (arith, f.zone.base)

    end_small : t.physics_memory.addr_end < 2 ^ 31
    end_small = omega (arith, f.zone.base)
