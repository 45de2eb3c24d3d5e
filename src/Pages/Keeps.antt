-- ===== src/Pages/Keeps.antt =====
-- get_free_page and free_page keep the invariant, and undo one another.
use mathlib.Core.Path.{fun_ext}
use fun_size_os.Base.{
  ℕ, ◌+◌, ◌-◌, ◌≤◌, ◌<◌, ◌≡◌, ◌≢◌, inl, inr, refl, arith, add32, ◌∙◌, ap, ◌==◌, Bool-cases, ==_iff,
  ltb, ◌||◌, false, le→ltb, sub32, sar32,
}
use fun_size_os.Memory.{Memory, store8, store8_self, store8_ne}
use fun_size_os.Pages.{Pages, PhysicsMemoryMap, get_free_page, free_page}
use fun_size_os.Pages.Table.{Flags, marks-store8, le-marks}
use fun_size_os.Pages.Inv.{IsReady, table, page_at, total_pages, used_pages, byte_of}
use fun_size_os.Pages.Alloc.{Marked, Allocated, Exhausted, get_free_page_lem, used-le}

Flags-store8 :
    (m : Memory) (n i b : ℕ) → Flags m table n → b ≤ 1 → Flags (store8 m (table + i) b) table n
Flags-store8 m n i b flags small j h = elim (Bool-cases (i == j)) [
  | inl e ↦ rw (← (==_iff i j).0 e) (omega (arith, store8_self m (table + i) b))
  | inr e ↦
      let ne : i ≢ j = ground arith in
      omega (arith, store8_ne m (table + i) b (table + j) (omega arith), flags j h)
]

module _ {s : Pages} (v : IsReady s) (i b used : ℕ) {t : Pages} where
  pub Marked-IsReady :
      Marked s i b used t
      → i < total_pages s
      → b ≤ 1
      → used + byte_of s i ≡ used_pages s + b
      → IsReady t
  Marked-IsReady k h small sum = record {
    start = ap (λ r. r.addr_start) k.info ∙ v.start;
    base = ap (λ r. r.addr_base) k.table_map ∙ v.base;
    map_at = ap (λ r. r.map) k.table_map ∙ v.map_at;
    room = rw k.info v.room;
    end_small = rw k.info v.end_small;
    flags = rw (k.info, k.memory) (Flags-store8 s.machine.memory (total_pages s) i b v.flags small);
    counted =
        rw (k.table_map, k.info, k.memory)
          (omega (
            arith,
            marks-store8 s.machine.memory table (total_pages s) i b h (omega arith),
            v.counted,
          ));
  }

pub Exhausted-IsReady : {s : Pages} {out : ℕ × Pages} → IsReady s → Exhausted s out → IsReady out.1
Exhausted-IsReady v k = record {
  start = ap (λ r. r.addr_start) k.info ∙ v.start;
  base = ap (λ r. r.addr_base) k.table_map ∙ v.base;
  map_at = ap (λ r. r.map) k.table_map ∙ v.map_at;
  room = rw k.info v.room;
  end_small = rw k.info v.end_small;
  flags = rw (k.info, k.memory) v.flags;
  counted = rw (k.table_map, k.info, k.memory) v.counted;
}

pub Allocated-IsReady :
    {s : Pages} {out : ℕ × Pages} (i : ℕ) → IsReady s → Allocated s i out → IsReady out.1
Allocated-IsReady {s} {out} i v k =
    Marked-IsReady v i 1 (used_pages s + 1) k.marked k.first.upper (omega arith)
      (omega (arith, k.first.free))

-- get_free_page keeps the page table valid: each byte 0 or 1, and the counter equal to the number
-- of set bytes.
pub get_free_page-IsReady : (s : Pages) → IsReady s → IsReady (get_free_page s).1
get_free_page-IsReady s v = elim (get_free_page_lem s v) [
  | inl k ↦ Exhausted-IsReady v k
  | inr (i, k) ↦ Allocated-IsReady i v k
]

-- What free_page does at every address that its guard lets through, the end of the zone included.
module _ (s : Pages) (v : IsReady s) (i : ℕ) (h : page_at i ≤ s.physics_memory.addr_end) where
  in_zone :
      (ltb (page_at i) s.physics_memory.addr_start || ltb s.physics_memory.addr_end (page_at i))
      ≡ false
  in_zone = rw (
    le→ltb (page_at i) s.physics_memory.addr_start (omega (arith, v.start)),
    le→ltb s.physics_memory.addr_end (page_at i) h,
  )

  byte_at :
      add32 s.physics_memory_map.map (sar32 (sub32 (page_at i) s.physics_memory_map.addr_base) 12)
      ≡ table + i
  byte_at = ground (arith, v.base, v.map_at, v.room, v.end_small)

  pub free_page_at : 0 < used_pages s → Marked s i 0 (used_pages s - 1) (free_page (page_at i) s)
  unfolding free_page
  free_page_at some_used = rw in_zone (record {
    memory = ap (λ a. store8 s.machine.memory a 0) byte_at;
    ports = refl;
    info = refl;
    table_map = ap (λ n. record s.physics_memory_map { bitmap_item_used = n }) one_less;
  })
    where
      one_less : sub32 (used_pages s) 1 ≡ used_pages s - 1
      one_less = omega (arith, used-le s v, v.room, v.end_small)

module _ (s : Pages) (v : IsReady s) (i : ℕ) (h : i < total_pages s) where
  -- On a valid table, freeing a page that is in use clears its byte, takes one off the counter, and
  -- changes no other byte and no other field.
  pub free_page_lem : byte_of s i ≡ 1 → Marked s i 0 (used_pages s - 1) (free_page (page_at i) s)
  free_page_lem set =
      free_page_at s v i (omega (arith, v.room))
        (omega (arith, v.counted, le-marks s.machine.memory table (total_pages s) i h))

  -- free_page of a page that is in use keeps the page table valid.
  pub free_page-IsReady : byte_of s i ≡ 1 → IsReady (free_page (page_at i) s)
  free_page-IsReady set =
      Marked-IsReady v i 0 (used_pages s - 1) (free_page_lem set) h (omega arith)
        (omega (arith, v.counted, le-marks s.machine.memory table (total_pages s) i h))

pub Marked-byte : {s t : Pages} (i used : ℕ) → Marked s i 1 used t → byte_of t i ≡ 1
Marked-byte {s} i used k =
    ap (λ f. f (table + i)) k.memory ∙ store8_self s.machine.memory (table + i) 1

pub Marked-clear : {s t : Pages} (i used : ℕ) → Marked s i 0 used t → byte_of t i ≡ 0
Marked-clear {s} i used k =
    ap (λ f. f (table + i)) k.memory ∙ store8_self s.machine.memory (table + i) 0

pub Marked-byte_ne :
    {s t : Pages} (i b used j : ℕ) → Marked s i b used t → i ≢ j → byte_of t j ≡ byte_of s j
Marked-byte_ne {s} i b used j k ne =
    ap (λ f. f (table + j)) k.memory
    ∙ store8_ne s.machine.memory (table + i) b (table + j) (omega arith)

pub Marked-used : {s t : Pages} (i b used : ℕ) → Marked s i b used t → used_pages t ≡ used
Marked-used i b used k = ap (λ r. r.bitmap_item_used) k.table_map

pub Marked-total :
    {s t : Pages} (i b used : ℕ) → Marked s i b used t → total_pages t ≡ total_pages s
Marked-total i b used k = ap (λ r. r.pages_total) k.info

store8-store8 : (m : Memory) (a b : ℕ) → m a ≡ 0 → store8 (store8 m a b) a 0 ≡ m
unfolding store8
store8-store8 m a b z = fun_ext λ c. ground arith

-- If get_free_page hands out page i of a valid table, freeing the address that it returned
-- restores the memory and both records.
pub free_page-get_free_page :
    (s : Pages) (i : ℕ)
    → IsReady s
    → Allocated s i (get_free_page s)
    → let (p, t) = get_free_page s in
      ((free_page p t).machine.memory ≡ s.machine.memory)
      × ((free_page p t).physics_memory ≡ s.physics_memory)
      × ((free_page p t).physics_memory_map ≡ s.physics_memory_map)
free_page-get_free_page s i v k =
    let (p, t) = get_free_page s in
    let ready : IsReady t = Allocated-IsReady i v k in
    let total = Marked-total i 1 (used_pages s + 1) k.marked in
    let used = Marked-used i 1 (used_pages s + 1) k.marked in
    let inside : i < total_pages t = omega (arith, total, k.first.upper) in
    let freed = free_page_lem t ready i inside (Marked-byte i (used_pages s + 1) k.marked) in
    rw k.address (
      freed.memory
          ∙ ap (λ m. store8 m (table + i) 0) k.marked.memory
          ∙ store8-store8 s.machine.memory (table + i) 1 k.first.free,
      freed.info ∙ k.marked.info,
      freed.table_map
          ∙ ap {A = PhysicsMemoryMap} (λ r. record r { bitmap_item_used = used_pages t - 1 })
              k.marked.table_map
          ∙ ap {A = ℕ} (λ n. record s.physics_memory_map { bitmap_item_used = n })
              (omega (arith, used)),
    )

-- Two pages that get_free_page hands out one after the other on a valid table have different
-- addresses.
pub get_free_page_distinct :
    (s : Pages) (i j : ℕ)
    → IsReady s
    → Allocated s i (get_free_page s)
    → Allocated (get_free_page s).1 j (get_free_page (get_free_page s).1)
    → (get_free_page s).0 ≢ (get_free_page (get_free_page s).1).0
get_free_page_distinct s i j v k l =
    let t = (get_free_page s).1 in
    λ same.
      let at : i ≡ j = omega (arith, k.address, l.address, same) in
      let in_use : byte_of t i ≡ 1 = Marked-byte i (used_pages s + 1) k.marked in
      omega (arith, in_use, l.first.free, ap (λ n. byte_of t n) at)
