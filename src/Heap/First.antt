-- ===== src/Heap/First.antt =====
-- The first request of all: a page of descriptors is taken, and then a page for the bucket.
use mathlib.Core.Path.{subst}
use fun_size_os.Base.{
  u32, ℕ, suc, ◌+◌, ◌*◌, ◌^◌, ◌≤◌, ◌<◌, ◌≡◌, ◌≢◌, ◌⊎◌, inl, refl, sym, ◌∙◌, ap, arith, some, eq→==,
}
use fun_size_os.Memory.{store8_ne, load32}
use fun_size_os.Pages.{Pages, null, get_free_page}
use fun_size_os.Pages.Inv.{IsReady, table, page_at, total_pages, used_pages, byte_of}
use fun_size_os.Pages.Alloc.{Allocated}
use fun_size_os.Pages.Keeps.{Marked-byte, get_free_page-IsReady}
use fun_size_os.Pages.Order.{IsCompact, get_free_page-IsCompact}
use fun_size_os.Pages.Frame.{IsReady-frame, FirstFree-frame}
use fun_size_os.Heap.{
  Heap, bucket_at, memory_of, init_bucket_desc, find_bucket, find_space, kmalloc, at_next,
}
use fun_size_os.Heap.Grow.{CanGrow, grown, kmalloc-grown, grown-Grown}
use fun_size_os.Heap.NewPage.{HasNewPage, Grown-HasNewPage}
use fun_size_os.Heap.Descs.{
  init_bucket_desc-init_with, init_with-inited, inited, inited_elsewhere, inited_next,
  kmalloc-init_bucket_desc, inited_at, inited_last,
}

-- Only the pages below the counter are in use, and there are two more; no descriptor is free, and the
-- bucket's chain is empty.
pub record IsUnused (h : Heap) (i : ℕ) : Type 0 where
  pub ready : IsReady h.pages
  pub compact : IsCompact h.pages
  pub room : used_pages h.pages + 2 ≤ total_pages h.pages
  pub none_free : h.free_bucket_desc ≡ null
  pub empty : (bucket_at i h.bucket_dir).chain ≡ null
  pub large : 4 ≤ (bucket_at i h.bucket_dir).size
  pub small : (bucket_at i h.bucket_dir).size ≤ 4096

-- From `h` to `h'` page `j` has been taken and holds 256 descriptors, each linked to the next and the
-- last to NULL, which are the free ones.
pub record HasDescs (h : Heap) (j : ℕ) (h' : Heap) : Type 0 where
  pub first : h'.free_bucket_desc ≡ page_at j
  pub link :
      (k : ℕ)
      → k < 255
      → load32 (memory_of h') (page_at j + 16 * k + at_next) ≡ page_at j + 16 * k + 16
  pub last : load32 (memory_of h') (page_at j + 16 * 255 + at_next) ≡ null
  pub flag : byte_of h'.pages j ≡ 1
  pub info : h'.pages.physics_memory ≡ h.pages.physics_memory
  pub table_map :
      h'.pages.physics_memory_map
      ≡ record h.pages.physics_memory_map { bitmap_item_used = used_pages h.pages + 1 }
  pub dirs : h'.bucket_dir ≡ h.bucket_dir
  pub outside :
      (c : ℕ)
      → table + j ≢ c
      → (c < page_at j) ⊎ (page_at j + 4096 ≤ c)
      → memory_of h' c ≡ memory_of h c

module _ (fuel : ℕ) (h : Heap) (i : ℕ) (u : IsUnused h i) where
  j : ℕ
  j = used_pages h.pages

  out : ℕ × Pages
  out = get_free_page h.pages

  granted : Allocated h.pages j out × IsCompact out.1
  unfolding out j
  granted = get_free_page-IsCompact h.pages u.ready u.compact (omega (arith, u.room))

  out-IsReady : IsReady out.1
  unfolding out
  out-IsReady = get_free_page-IsReady h.pages u.ready

  used_now : used_pages out.1 ≡ j + 1
  unfolding j
  used_now = ap (λ r. r.bitmap_item_used) granted.0.marked.table_map

  total_now : total_pages out.1 ≡ total_pages h.pages
  total_now = ap (λ r. r.pages_total) granted.0.marked.info

  limits : (table + j + 1 < 0x10_0000) × (page_at j + 8192 ≤ 2 ^ 32)
  unfolding j
  limits = (
    omega (arith, u.room, u.ready.room, u.ready.end_small),
    omega (arith, u.room, u.ready.room, u.ready.end_small),
  )

  h1 : Heap
  h1 = inited h out

  started : init_bucket_desc h ≡ h1
  unfolding h1 out
  started =
      init_bucket_desc-init_with h
      ∙ init_with-inited h (get_free_page h.pages) (λ z. omega (arith, z, granted.0.address))

  table_same :
      (c : ℕ) → table ≤ c → c < table + total_pages out.1 → memory_of h1 c ≡ out.1.machine.memory c
  unfolding h1
  table_same c p q =
      inited_elsewhere h out c
        (inl (omega (arith, granted.0.address, total_now, u.ready.room, u.ready.end_small)))

  h1-CanGrow : CanGrow (suc fuel) h1 i (j + 1)
  unfolding h1 inited find_space j out
  h1-CanGrow = record {
    ready = IsReady-frame out-IsReady refl refl table_same;
    no_space = rw (eq→== (bucket_at i h.bucket_dir).chain null u.empty) refl;
    large = u.large;
    small = u.small;
    chain_word = omega (arith, u.empty);
    next_word = omega (
      arith,
      inited_next h out (omega (arith, granted.0.address, limits)),
      granted.0.address,
      limits,
    );
    place = record {
      flag_low = omega (arith, limits);
      desc_high = omega (arith, granted.0.address);
      page_high = omega arith;
      desc_end = omega (arith, granted.0.address, limits);
      page_end = omega (arith, limits);
      apart = inl (omega (arith, granted.0.address));
    };
    first =
        FirstFree-frame out.1.machine.memory (memory_of h1) table (used_pages out.1)
          (total_pages out.1) (j + 1) table_same
          (record {
            lower = omega (arith, used_now);
            upper = omega (arith, total_now, u.room);
            free =
                granted.1.above (j + 1) (omega (arith, used_now))
                  (omega (arith, total_now, u.room));
            taken = λ k p q. absurd (omega (arith, used_now));
          });
  }

  pub init_bucket_desc-CanGrow : CanGrow (suc fuel) (init_bucket_desc h) i (used_pages h.pages + 1)
  unfolding j
  init_bucket_desc-CanGrow =
      subst (λ x. CanGrow (suc fuel) x i (used_pages h.pages + 1)) (sym started) h1-CanGrow

  pub init_bucket_desc-dirs : (init_bucket_desc h).bucket_dir ≡ h.bucket_dir
  unfolding h1 inited
  init_bucket_desc-dirs = ap (λ x. x.bucket_dir) started

  pub init_bucket_desc-first : (init_bucket_desc h).free_bucket_desc ≡ page_at (used_pages h.pages)
  unfolding h1 inited j
  init_bucket_desc-first = ap (λ x. x.free_bucket_desc) started ∙ granted.0.address

  -- Only the page's flag and the page itself are written.
  pub init_bucket_desc-outside :
      (c : ℕ)
      → table + used_pages h.pages ≢ c
      → (c < page_at (used_pages h.pages)) ⊎ (page_at (used_pages h.pages) + 4096 ≤ c)
      → memory_of (init_bucket_desc h) c ≡ memory_of h c
  unfolding h1 out j
  init_bucket_desc-outside c ne away =
      ap (λ x. memory_of x c) started
      ∙ inited_elsewhere h out c (omega (arith, granted.0.address))
      ∙ ap (λ m. m c) granted.0.marked.memory
      ∙ store8_ne (memory_of h) (table + used_pages h.pages) 1 c ne

  pub init_bucket_desc-total : total_pages (init_bucket_desc h).pages ≡ total_pages h.pages
  unfolding h1 inited
  init_bucket_desc-total = ap (λ x. total_pages x.pages) started ∙ total_now

  pub init_bucket_desc-used : used_pages (init_bucket_desc h).pages ≡ used_pages h.pages + 1
  unfolding h1 inited j
  init_bucket_desc-used = ap (λ x. used_pages x.pages) started ∙ used_now

  pub kmalloc-started :
      (len : ℕ)
      → find_bucket len h.bucket_dir ≡ i
      → kmalloc (suc fuel) len h ≡ kmalloc (suc fuel) len (init_bucket_desc h)
  kmalloc-started len e =
      kmalloc-init_bucket_desc fuel len i h e u.none_free
        (λ z. omega (arith, z, init_bucket_desc-first)) init_bucket_desc-dirs u.empty
        (omega (arith, u.large))

  init_bucket_desc-HasDescs : HasDescs h (used_pages h.pages) (init_bucket_desc h)
  unfolding j h1 out inited get_free_page
  init_bucket_desc-HasDescs =
      let first = granted.0.address in
      record {
        first = init_bucket_desc-first;
        link = λ k lt.
            ap (λ x. load32 (memory_of x) (page_at j + 16 * k + at_next)) started
            ∙ ap (λ a. load32 (memory_of h1) (a + 16 * k + at_next)) (sym first)
            ∙ inited_at h out k lt (omega (arith, first, limits))
            ∙ ap (λ a. a + 16 * k + 16) first;
        last =
            ap (λ x. load32 (memory_of x) (page_at j + 16 * 255 + at_next)) started
            ∙ ap (λ a. load32 (memory_of h1) (a + 16 * 255 + at_next)) (sym first)
            ∙ inited_last h out
            ∙ ap u32 u.none_free;
        flag =
            ap (λ x. byte_of x.pages j) started
            ∙ table_same (table + j) (omega arith) (omega (arith, total_now, u.room))
            ∙ Marked-byte j (j + 1) granted.0.marked;
        info = ap (λ x. x.pages.physics_memory) started ∙ granted.0.marked.info;
        table_map = ap (λ x. x.pages.physics_memory_map) started ∙ granted.0.marked.table_map;
        dirs = init_bucket_desc-dirs;
        outside = init_bucket_desc-outside;
      }

-- If the page table is valid, the pages in use are exactly those below the counter and there are
-- at least two more, no descriptor is free, and the bucket that the length selects is of 4 to 4096
-- bytes with an empty chain, then kmalloc goes through a heap in which the next page is marked and
-- counted as used and holds 256 descriptors, each linked to the next and the last to NULL, which
-- are the free ones, and in which no byte outside that page and its flag is different; from there
-- the page behind is taken for the bucket with the first descriptor, and its address is returned.
pub kmalloc_first :
    (fuel len : ℕ) (h : Heap)
    → let i = find_bucket len h.bucket_dir in
      IsUnused h i
      → (h1 h' : Heap) × (kmalloc (suc fuel) len h ≡ some (page_at (used_pages h.pages + 1), h'))
        × HasDescs h (used_pages h.pages) h1
        × HasNewPage h1 i (used_pages h.pages + 1) h'
kmalloc_first fuel len h u =
    let i = find_bucket len h.bucket_dir in
    let c = init_bucket_desc-CanGrow fuel h i u in
    let h' = grown (suc fuel) (init_bucket_desc h) i (used_pages h.pages + 1) c in
    let same = ap (find_bucket len) (init_bucket_desc-dirs fuel h i u) in
    (
      init_bucket_desc h,
      h',
      kmalloc-started fuel h i u len refl
          ∙ kmalloc-grown (suc fuel) (init_bucket_desc h) i (used_pages h.pages + 1) c len same,
      init_bucket_desc-HasDescs fuel h i u,
      Grown-HasNewPage (suc fuel) (init_bucket_desc h) i (used_pages h.pages + 1) c h'
          (grown-Grown (suc fuel) (init_bucket_desc h) i (used_pages h.pages + 1) c),
    )
