-- ===== src/Heap/Grow.antt =====
-- kmalloc when its bucket has no free object: a descriptor and a page are taken.
use fun_size_os.Base.{
  ℕ, ◌+◌, ◌-◌, ◌/◌, ◌^◌, ◌≤◌, ◌<◌, ◌≡◌, ◌≢◌, refl, ◌∙◌, ap, arith, some, true, ne→==,
}
use fun_size_os.Memory.{Memory, store16, store16_ne, store32, load32}
use fun_size_os.Machine.{cli, sti}
use fun_size_os.Pages.{Pages, null, page_size, get_free_page}
use fun_size_os.Pages.Table.{FirstFree}
use fun_size_os.Pages.Inv.{IsReady, table, page_at, total_pages, used_pages}
use fun_size_os.Pages.Alloc.{Allocated}
use fun_size_os.Pages.Frame.{IsReady-frame, FirstFree-frame, get_free_page-Allocated}
use fun_size_os.Heap.{
  Heap, bucket_at, set_chain, memory_of, with_memory, on_machine, find_bucket, find_space, prepare,
  hook, carve, detach, attach, new_bucket, take_object, hand_out, serve, from_fresh, request,
  kmalloc, at_next, at_refcnt, at_bucket_size, at_freeptr,
}
use fun_size_os.Heap.Chains.{span-le-page}
use fun_size_os.Heap.Fresh.{Apart, fresh_memory, flagged, carved, linked, linked_freeptr}

-- The chain of bucket `i` has no free object, there is a free descriptor, and `j` is the first free
-- page; the page lies apart from the descriptor.
pub record CanGrow (fuel : ℕ) (h : Heap) (i j : ℕ) : Type 0 where
  pub ready : IsReady h.pages
  pub no_space : find_space fuel (memory_of h) (bucket_at i h.bucket_dir).chain ≡ some null
  pub large : 4 ≤ (bucket_at i h.bucket_dir).size
  pub small : (bucket_at i h.bucket_dir).size ≤ 4096
  pub chain_word : (bucket_at i h.bucket_dir).chain < 2 ^ 32
  pub next_word : load32 (memory_of h) (h.free_bucket_desc + at_next) < 2 ^ 32
  pub place : Apart (table + j) h.free_bucket_desc (page_at j)
  pub first : FirstFree (memory_of h) table (used_pages h.pages) (total_pages h.pages) j

-- The number of links in a page of bucket `i`.
abbrev pub links : ℕ → Heap → ℕ
links i h = page_size / (bucket_at i h.bucket_dir).size - 1

-- The memory that is left.
abbrev pub grown_memory : Heap → ℕ → ℕ → Memory
grown_memory h i j =
    fresh_memory (memory_of h) (table + j) h.free_bucket_desc (page_at j)
      (bucket_at i h.bucket_dir).size (links i h) (bucket_at i h.bucket_dir).chain

-- Page `j` is handed out, and the descriptor stands at the front of the chain.
pub record Grown (h : Heap) (i j : ℕ) (h' : Heap) : Type 0 where
  pub memory : memory_of h' ≡ grown_memory h i j
  pub info : h'.pages.physics_memory ≡ h.pages.physics_memory
  pub table_map :
      h'.pages.physics_memory_map
      ≡ record h.pages.physics_memory_map { bitmap_item_used = used_pages h.pages + 1 }
  pub dirs : h'.bucket_dir ≡ set_chain i h.free_bucket_desc h.bucket_dir
  pub free : h'.free_bucket_desc ≡ load32 (memory_of h) (h.free_bucket_desc + at_next)
  pub enabled : h'.pages.machine.interrupts ≡ true

attached : (i d p : ℕ) → Heap → Pages → Heap
attached i d p h pages =
    let b = bucket_at i h.bucket_dir in
    let carved = carve (page_size / b.size - 1) p b.size (hook d p pages.machine.memory) in
    record (with_memory (store32 carved (d + at_next) b.chain) (record h { pages = pages })) {
      bucket_dir = set_chain i d h.bucket_dir;
    }

attach-attached :
    (i d p : ℕ) (h : Heap) (cp : ℕ) (pages : Pages)
    → cp ≡ p
    → p ≢ null
    → attach i d h (cp, pages) ≡ (some d, attached i d p h pages)
unfolding attach attached
attach-attached i d p h cp pages e full = rw (e, ne→== p null full) refl

-- Below 1 MB detach writes nothing.
pub detach_low :
    (size : ℕ) (h : Heap)
    → 0x10_0000 ≤ h.free_bucket_desc
    → (a : ℕ) → a < 0x10_0000
    → memory_of (detach size h) a ≡ memory_of h a
unfolding detach prepare
detach_low size h high a low =
    let d = h.free_bucket_desc in
    store16_ne (store16 (memory_of h) (d + at_refcnt) 0) (d + at_bucket_size) size a (omega arith)
    ∙ store16_ne (memory_of h) (d + at_refcnt) 0 a (omega arith)

module _ (fuel : ℕ) (h : Heap) (i j : ℕ) (c : CanGrow fuel h i j) where
  size : ℕ
  size = (bucket_at i h.bucket_dir).size

  detached : Heap
  unfolding size
  detached = detach size (on_machine cli h)

  detached_same : (a : ℕ) → a < 0x10_0000 → memory_of detached a ≡ memory_of h a
  unfolding detached cli
  detached_same = detach_low size (on_machine cli h) c.place.desc_high

  detached-IsReady : IsReady detached.pages
  unfolding detached detach cli
  detached-IsReady =
      IsReady-frame c.ready refl refl
        (λ a p q. detached_same a (omega (arith, c.ready.room, c.ready.end_small)))

  granted : Allocated detached.pages j (get_free_page detached.pages)
  unfolding detached detach cli
  granted = get_free_page-Allocated detached.pages j detached-IsReady (
      FirstFree-frame (memory_of h) (memory_of detached) table (used_pages h.pages)
        (total_pages h.pages) j
        (λ a p q. detached_same a (omega (arith, c.ready.room, c.ready.end_small))) c.first)

  -- The heap before the first object is handed out.
  grown_before : Heap
  grown_before = attached i h.free_bucket_desc (page_at j) detached (get_free_page detached.pages).1

  new_bucket-attached : new_bucket i (on_machine cli h) ≡ (some h.free_bucket_desc, grown_before)
  unfolding new_bucket detached size grown_before
  new_bucket-attached =
      let full : h.free_bucket_desc ≢ null = omega (arith, c.place.desc_high) in
      let out = get_free_page detached.pages in
      rw (ne→== h.free_bucket_desc null full) (
        attach-attached i h.free_bucket_desc (page_at j) detached out.0 out.1 granted.address
          (omega arith))

  grown_before-memory :
      memory_of grown_before
      ≡ linked
          (memory_of h)
          (table + j)
          h.free_bucket_desc
          (page_at j)
          size
          (links i h)
          (bucket_at i h.bucket_dir).chain
  unfolding grown_before attached linked carved flagged detached detach size cli
  grown_before-memory = rw granted.marked.memory refl

  pub grown : Heap
  unfolding grown_before
  grown = (hand_out h.free_bucket_desc grown_before).1

  first_object : load32 (memory_of grown_before) (h.free_bucket_desc + at_freeptr) ≡ page_at j
  unfolding size
  first_object =
      ap (λ m. load32 m (h.free_bucket_desc + at_freeptr)) grown_before-memory
      ∙ linked_freeptr (memory_of h) (table + j) h.free_bucket_desc (page_at j) size (links i h)
          (bucket_at i h.bucket_dir).chain c.place (span-le-page size c.small) c.large

  serve-grown : serve i null (on_machine cli h) ≡ (page_at j, grown)
  unfolding serve grown hand_out from_fresh
  serve-grown = ap from_fresh new_bucket-attached ∙ ap (λ p. (p, grown)) first_object

  pub kmalloc-grown :
      (len : ℕ) → find_bucket len h.bucket_dir ≡ i → kmalloc fuel len h ≡ some (page_at j, grown)
  unfolding kmalloc request cli
  kmalloc-grown len e =
      let nonzero : (bucket_at i h.bucket_dir).size ≢ 0 = omega (arith, c.large) in
      ap (λ k. request fuel len k h) e
      ∙ rw (ne→== (bucket_at i h.bucket_dir).size 0 nonzero, c.no_space)
          (ap (λ r. some r) serve-grown)

  pub grown-Grown : Grown h i j grown
  unfolding grown hand_out sti grown_before attached detached detach cli fresh_memory
  grown-Grown = record {
    memory = ap (take_object h.free_bucket_desc) grown_before-memory;
    info = granted.marked.info;
    table_map = granted.marked.table_map;
    dirs = refl;
    free = refl;
    enabled = refl;
  }
