-- ===== src/Heap/NoPage.antt =====
-- kmalloc when there is a free descriptor and no free page.
use fun_size_os.Base.{ℕ, ◌+◌, ◌≤◌, ◌<◌, ◌≡◌, ◌≢◌, ◌⊎◌, refl, ◌∙◌, ap, arith, some, none, ne→==}
use fun_size_os.Memory.{store16, store32, store16_ne, store32_ne, load32}
use fun_size_os.Machine.{cli}
use fun_size_os.Pages.{Pages, null, get_free_page}
use fun_size_os.Pages.Table.{AllTaken}
use fun_size_os.Pages.Inv.{IsReady, table, total_pages, used_pages}
use fun_size_os.Pages.Alloc.{Exhausted}
use fun_size_os.Pages.Frame.{IsReady-frame, AllTaken-frame, get_free_page-Exhausted}
use fun_size_os.Heap.{
  Heap, bucket_at, memory_of, with_memory, on_machine, find_bucket, find_space, prepare, hook,
  detach, attach, new_bucket, from_fresh, serve, request, kmalloc, at_page, at_next, at_refcnt,
  at_freeptr, at_bucket_size,
}
use fun_size_os.Heap.Grow.{detach_low}

pub record CannotGrow (fuel : ℕ) (h : Heap) (i : ℕ) : Type 0 where
  pub ready : IsReady h.pages
  pub no_space : find_space fuel (memory_of h) (bucket_at i h.bucket_dir).chain ≡ some null
  pub sized : (bucket_at i h.bucket_dir).size ≢ 0
  pub desc_high : 0x10_0000 ≤ h.free_bucket_desc
  pub taken : AllTaken (memory_of h) table (used_pages h.pages) (total_pages h.pages)

-- The descriptor is off its list and on no chain; only its bytes are written.
pub record Lost (h h' : Heap) : Type 0 where
  pub free : h'.free_bucket_desc ≡ load32 (memory_of h) (h.free_bucket_desc + at_next)
  pub dirs : h'.bucket_dir ≡ h.bucket_dir
  pub info : h'.pages.physics_memory ≡ h.pages.physics_memory
  pub table_map : h'.pages.physics_memory_map ≡ h.pages.physics_memory_map
  pub outside :
      (a : ℕ)
      → (a < h.free_bucket_desc) ⊎ (h.free_bucket_desc + 16 ≤ a)
      → memory_of h' a ≡ memory_of h a

without_page :
    (i d : ℕ) (h : Heap) (out : ℕ × Pages)
    → out.0 ≡ null
    → attach i d h out
      ≡ (none, with_memory (hook d null out.1.machine.memory) (record h { pages = out.1 }))
unfolding attach
without_page i d h (cp, pages) e = rw e refl

module _ (fuel len : ℕ) (h : Heap) (c : CannotGrow fuel h (find_bucket len h.bucket_dir)) where
  size : ℕ
  size = (bucket_at (find_bucket len h.bucket_dir) h.bucket_dir).size

  detached : Heap
  detached = detach size (on_machine cli h)

  detached_same :
      (a : ℕ) → table ≤ a → a < table + total_pages h.pages → memory_of detached a ≡ memory_of h a
  unfolding detached cli
  detached_same a p q =
      detach_low size (on_machine cli h) c.desc_high a
        (omega (arith, c.ready.room, c.ready.end_small))

  refused : Exhausted detached.pages (get_free_page detached.pages)
  unfolding detached detach cli
  refused = get_free_page-Exhausted detached.pages (IsReady-frame c.ready refl refl detached_same) (
      AllTaken-frame (memory_of h) (memory_of detached) table (used_pages h.pages)
        (total_pages h.pages) detached_same c.taken)

  lost : Heap
  lost =
      let pages = (get_free_page detached.pages).1 in
      with_memory (hook h.free_bucket_desc null pages.machine.memory)
        (record detached { pages = pages })

  kmalloc-lost : kmalloc fuel len h ≡ some (null, lost)
  unfolding kmalloc request serve new_bucket from_fresh lost detached size cli
  kmalloc-lost =
      let full : h.free_bucket_desc ≢ null = omega (arith, c.desc_high) in
      rw
        (
          ne→== (bucket_at (find_bucket len h.bucket_dir) h.bucket_dir).size 0 c.sized,
          c.no_space,
          ne→== h.free_bucket_desc null full,
        )
        (ap (λ r. some (from_fresh r))
          (without_page (find_bucket len h.bucket_dir) h.free_bucket_desc detached
            (get_free_page detached.pages) refused.address))

  lost-Lost : Lost h lost
  unfolding lost detached detach prepare hook cli
  lost-Lost =
      let d = h.free_bucket_desc in
      record {
        free = refl;
        dirs = refl;
        info = refused.info;
        table_map = refused.table_map;
        outside = λ a out.
            ap (λ m. hook d null m a) refused.memory
            ∙ store32_ne (store32 (memory_of detached) (d + at_freeptr) null) (d + at_page) null a
                (omega arith)
            ∙ store32_ne (memory_of detached) (d + at_freeptr) null a (omega arith)
            ∙ store16_ne (store16 (memory_of h) (d + at_refcnt) 0) (d + at_bucket_size) size a
                (omega arith)
            ∙ store16_ne (memory_of h) (d + at_refcnt) 0 a (omega arith);
      }

-- On a valid page table, if the length selects a bucket, which has no free object, there is a free
-- descriptor above 1 MB, and no page is free from the counter of used pages on, kmalloc returns
-- NULL, and the descriptor is taken off the list of free ones and put on no chain; no byte of
-- memory outside the descriptor is changed, nor the page table.
pub kmalloc_no_page :
    (fuel len : ℕ) (h : Heap)
    → CannotGrow fuel h (find_bucket len h.bucket_dir)
    → (h' : Heap) × (kmalloc fuel len h ≡ some (null, h')) × Lost h h'
kmalloc_no_page fuel len h c =
    (lost fuel len h c, kmalloc-lost fuel len h c, lost-Lost fuel len h c)
