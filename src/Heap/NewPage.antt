-- ===== src/Heap/NewPage.antt =====
-- What kmalloc promises when it takes a new page.
use mathlib.Core.Path.{transport}
use fun_size_os.Base.{
  ◌-◌, ◌/◌, ◌⊎◌, ℕ, ◌+◌, ◌≤◌, ◌<◌, ◌≡◌, ◌≢◌, inl, inr, refl, ◌∙◌, ap, arith, some, sym, ◌==◌,
  ==_iff, Bool-cases,
}
use fun_size_os.Memory.{
  Memory, store8, store8_self, store8_ne, load32, load16, load16-frame, load32-frame,
}
use fun_size_os.Pages.{Pages}
use fun_size_os.Pages.Inv.{IsReady, table, page_at, total_pages, used_pages, byte_of}
use fun_size_os.Pages.Alloc.{Marked}
use fun_size_os.Pages.Keeps.{Marked-IsReady}
use fun_size_os.Pages.Frame.{IsReady-frame}
use fun_size_os.Heap.{
  Heap, bucket_at, set_chain, memory_of, find_bucket, kmalloc, at_next, at_refcnt, at_freeptr,
}
use fun_size_os.Heap.Chains.{FreeList, objects, span-le-page}
use fun_size_os.Heap.Fresh.{
  Apart, Elsewhere, fresh-Elsewhere, fresh-flag, fresh_page, fresh_next, fresh_refcnt,
  fresh-FreeList,
}
use fun_size_os.Heap.Grow.{CanGrow, Grown, links, grown, kmalloc-grown, grown-Grown}
use fun_size_os.Heap.Buckets.{find_bucket-Picked}

-- The heap after the first object of page `j` has been handed out for bucket `i`.
pub record HasNewPage (h : Heap) (i j : ℕ) (h' : Heap) : Type 0 where
  pub ready : IsReady h'.pages
  pub flag : byte_of h'.pages j ≡ 1
  pub info : h'.pages.physics_memory ≡ h.pages.physics_memory
  pub table_map :
      h'.pages.physics_memory_map
      ≡ record h.pages.physics_memory_map { bitmap_item_used = used_pages h.pages + 1 }
  pub dirs : h'.bucket_dir ≡ set_chain i h.free_bucket_desc h.bucket_dir
  pub free : h'.free_bucket_desc ≡ load32 (memory_of h) (h.free_bucket_desc + at_next)
  pub page : load32 (memory_of h') h.free_bucket_desc ≡ page_at j
  pub next : load32 (memory_of h') (h.free_bucket_desc + at_next) ≡ (bucket_at i h.bucket_dir).chain
  pub refcnt : load16 (memory_of h') (h.free_bucket_desc + at_refcnt) ≡ 1
  pub objects_left :
      let size = (bucket_at i h.bucket_dir).size in
      FreeList
        (memory_of h')
        (load32 (memory_of h') (h.free_bucket_desc + at_freeptr))
        (objects (links i h) (page_at j + size) size)
  pub elsewhere :
      (a : ℕ)
      → Elsewhere (table + j) h.free_bucket_desc (page_at j) a
      → memory_of h' a ≡ memory_of h a

module _ (fuel : ℕ) (h : Heap) (i j : ℕ) (c : CanGrow fuel h i j) (h' : Heap)
    (g : Grown h i j h') where
  d : ℕ
  d = h.free_bucket_desc

  -- The pages as get_free_page alone would leave them.
  granted_pages : Pages
  granted_pages = record h.pages {
    machine = record h.pages.machine { memory = store8 (memory_of h) (table + j) 1 };
    physics_memory_map = record h.pages.physics_memory_map {
      bitmap_item_used = used_pages h.pages + 1;
    };
  }

  granted-Marked : Marked h.pages j 1 (used_pages h.pages + 1) granted_pages
  unfolding granted_pages
  granted-Marked = record { memory = refl; ports = refl; info = refl; table_map = refl }

  same_outside :
      (a : ℕ)
      → Elsewhere (table + j) h.free_bucket_desc (page_at j) a
      → memory_of h' a ≡ memory_of h a
  same_outside a e =
      ap (λ m. m a) g.memory
      ∙ fresh-Elsewhere (memory_of h) (table + j) h.free_bucket_desc (page_at j)
          (bucket_at i h.bucket_dir).size (links i h) (bucket_at i h.bucket_dir).chain c.place
          (span-le-page (bucket_at i h.bucket_dir).size c.small) c.large a e

  flag_set : memory_of h' (table + j) ≡ 1
  flag_set =
      ap (λ m. m (table + j)) g.memory
      ∙ fresh-flag (memory_of h) (table + j) h.free_bucket_desc (page_at j)
          (bucket_at i h.bucket_dir).size (links i h) (bucket_at i h.bucket_dir).chain c.place
          (span-le-page (bucket_at i h.bucket_dir).size c.small) c.large

  table_kept :
      (a : ℕ)
      → table ≤ a
      → a < table + total_pages h.pages
      → memory_of h' a ≡ store8 (memory_of h) (table + j) 1 a
  table_kept a p q = elim (Bool-cases ((table + j) == a)) [
    | inl same ↦
        rw (← (==_iff (table + j) a).0 same)
          (flag_set ∙ sym (store8_self (memory_of h) (table + j) 1))
    | inr other ↦
        let ne : table + j ≢ a = ground arith in
        same_outside a (record {
          not_flag = ne;
          not_desc = inl (omega (arith, c.place.desc_high, c.ready.room, c.ready.end_small));
          not_page = inl (omega (arith, c.place.page_high, c.ready.room, c.ready.end_small));
        })
        ∙ sym (store8_ne (memory_of h) (table + j) 1 a ne)
  ]

  after-IsReady : IsReady h'.pages
  unfolding granted_pages
  after-IsReady =
      IsReady-frame
        (Marked-IsReady c.ready j 1 (used_pages h.pages + 1) granted-Marked c.first.upper
          (omega arith) (omega (arith, c.first.free)))
        g.info g.table_map table_kept

  pub Grown-HasNewPage : HasNewPage h i j h'
  Grown-HasNewPage =
      let m = memory_of h in
      let size = (bucket_at i h.bucket_dir).size in
      let chain = (bucket_at i h.bucket_dir).chain in
      let fits = span-le-page size c.small in
      record {
        ready = after-IsReady;
        flag = flag_set;
        info = g.info;
        table_map = g.table_map;
        dirs = g.dirs;
        free = g.free;
        page =
            ap (λ k. load32 k h.free_bucket_desc) g.memory
            ∙ fresh_page m (table + j) h.free_bucket_desc (page_at j) size (links i h) chain c.place
                fits c.large;
        next =
            ap (λ k. load32 k (h.free_bucket_desc + at_next)) g.memory
            ∙ fresh_next m (table + j) h.free_bucket_desc (page_at j) size (links i h) chain c.place
                fits c.large
            ∙ omega (arith, c.chain_word);
        refcnt =
            ap (λ k. load16 k (h.free_bucket_desc + at_refcnt)) g.memory
            ∙ fresh_refcnt m (table + j) h.free_bucket_desc (page_at j) size (links i h) chain
                c.place fits c.large;
        objects_left = rw g.memory (
            fresh-FreeList m (table + j) h.free_bucket_desc (page_at j) size (links i h) chain
              c.place fits c.large);
        elsewhere = same_outside;
      }

-- A page with one object has no free one left.
none_left :
    (m : Memory) (p q size : ℕ)
    → size ≡ 4096
    → FreeList m p (objects (4096 / size - 1) q size) ≡ (p ≡ 0)
none_left m p q size e = ap (λ n. FreeList m p (objects (4096 / n - 1) q n)) e

-- What was taken stays so while only the page itself is written, if it holds a single object.
pub HasNewPage-frame :
    (h : Heap) (i j : ℕ) (h1 h2 : Heap)
    → HasNewPage h i j h1
    → Apart (table + j) h.free_bucket_desc (page_at j)
    → (bucket_at i h.bucket_dir).size ≡ 4096
    → h2.pages.physics_memory ≡ h1.pages.physics_memory
    → h2.pages.physics_memory_map ≡ h1.pages.physics_memory_map
    → h2.bucket_dir ≡ h1.bucket_dir
    → h2.free_bucket_desc ≡ h1.free_bucket_desc
    → ((a : ℕ) → (a < page_at j) ⊎ (page_at j + 4096 ≤ a) → memory_of h2 a ≡ memory_of h1 a)
    → HasNewPage h i j h2
HasNewPage-frame h i j h1 h2 n apart single info table_map dirs free same =
    let d = h.free_bucket_desc in
    let m1 = memory_of h1 in
    let m2 = memory_of h2 in
    let old : load32 m1 (d + at_freeptr) ≡ 0 =
      transport
        (none_left m1 (load32 m1 (d + at_freeptr)) (page_at j + (bucket_at i h.bucket_dir).size)
          (bucket_at i h.bucket_dir).size single)
        n.objects_left in
    record {
      ready =
          IsReady-frame n.ready info table_map (λ a p q.
            same a (inl (omega (arith, apart.page_high, n.ready.room, n.ready.end_small))));
      flag = same (table + j) (omega (arith, apart.flag_low, apart.page_high)) ∙ n.flag;
      info = info ∙ n.info;
      table_map = table_map ∙ n.table_map;
      dirs = dirs ∙ n.dirs;
      free = free ∙ n.free;
      page = load32-frame m1 m2 d (λ a p q. same a (omega (arith, apart.apart))) ∙ n.page;
      next =
          load32-frame m1 m2 (d + at_next) (λ a p q. same a (omega (arith, apart.apart))) ∙ n.next;
      refcnt =
          load16-frame m1 m2 (d + at_refcnt) (λ a p q. same a (omega (arith, apart.apart)))
          ∙ n.refcnt;
      objects_left =
          transport
            (sym (
              none_left m2 (load32 m2 (d + at_freeptr))
                (page_at j + (bucket_at i h.bucket_dir).size) (bucket_at i h.bucket_dir).size
                single))
            (load32-frame m1 m2 (d + at_freeptr) (λ a p q. same a (omega (arith, apart.apart)))
              ∙ old);
      elsewhere = λ a e. same a e.not_page ∙ n.elsewhere a e;
    }

-- On a valid page table, if the bucket that the length selects is of 4 to 4096 bytes and has no
-- free object, and there are a free descriptor and a free page j, the first from the counter on,
-- above 1 MB and apart, kmalloc returns the address of page j; the bucket is the first whose size
-- is at least the length; the page table stays valid with page j in use, the descriptor stands in
-- front of the bucket's chain with one object in use and the page's other objects, in order, as
-- its free ones, and no other byte of memory is changed.
pub kmalloc_new_page :
    (fuel len : ℕ) (h : Heap) (j : ℕ)
    → let i = find_bucket len h.bucket_dir in
      CanGrow fuel h i j
      → (h' : Heap) × (kmalloc fuel len h ≡ some (page_at j, h'))
        × (len ≤ (bucket_at i h.bucket_dir).size)
        × ((k : ℕ) → k < i → (bucket_at k h.bucket_dir).size < len)
        × HasNewPage h i j h'
kmalloc_new_page fuel len h j c =
    let i = find_bucket len h.bucket_dir in
    let picked = find_bucket-Picked len h.bucket_dir in
    let h' = grown fuel h i j c in
    (
      h',
      kmalloc-grown fuel h i j c len refl,
      omega (arith, picked.fits, c.large),
      λ k l. (picked.before k l).0,
      Grown-HasNewPage fuel h i j c h' (grown-Grown fuel h i j c),
    )
