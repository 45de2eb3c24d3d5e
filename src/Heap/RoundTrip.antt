-- ===== src/Heap/RoundTrip.antt =====
-- kfree_s undoes kmalloc.
use fun_size_os.Base.{
  ℕ, suc, ◌+◌, ◌-◌, ◌%◌, ◌^◌, ◌≤◌, ◌<◌, ◌≡◌, ◌≢◌, ◌⊎◌, inl, inr, refl, ◌∙◌, ap, arith, some, sym,
  length, ◌==◌, ==_iff, Bool-cases, u32,
}
use fun_size_os.Memory.{
  store8, store8_self, store8_ne, store32, store32_ne, load32, load32-frame, load32-store32_self,
}
use fun_size_os.Machine.{cli, sti}
use fun_size_os.Pages.{Pages, PhysicsMemoryMap, null, free_page}
use fun_size_os.Pages.Inv.{IsReady, table, page_at, total_pages, used_pages, byte_of}
use fun_size_os.Pages.Alloc.{Marked}
use fun_size_os.Pages.Keeps.{free_page_lem}
use fun_size_os.Pages.Frame.{IsReady-frame}
use fun_size_os.Heap.{
  Heap, bucket_at, set_chain, memory_of, on_machine, find_bucket, kmalloc, give_page, release,
  kfree_s, at_page, at_next,
}
use fun_size_os.Heap.Grow.{CanGrow, grown, kmalloc-grown, grown-Grown}
use fun_size_os.Heap.Buckets.{Picked, find_bucket-Picked, bucket-lt, find_owner-front}
use fun_size_os.Heap.Back.{
  set_chain_self, Picked-set_chain, set_chain-size, set_chain-set_chain, give_object_elsewhere,
  give_object_refcnt, given, release-front,
}
use fun_size_os.Heap.NewPage.{HasNewPage, Grown-HasNewPage}

-- What is as it was: all but the contents of the page, and of the descriptor but for its link.
pub record Restored (h : Heap) (j : ℕ) (h' : Heap) : Type 0 where
  pub info : h'.pages.physics_memory ≡ h.pages.physics_memory
  pub table_map : h'.pages.physics_memory_map ≡ h.pages.physics_memory_map
  pub dirs : h'.bucket_dir ≡ h.bucket_dir
  pub free : h'.free_bucket_desc ≡ h.free_bucket_desc
  pub next :
      load32 (memory_of h') (h.free_bucket_desc + at_next)
      ≡ load32 (memory_of h) (h.free_bucket_desc + at_next)
  pub elsewhere :
      (a : ℕ)
      → (a < h.free_bucket_desc) ⊎ (h.free_bucket_desc + 16 ≤ a)
      → (a < page_at j) ⊎ (page_at j + 4096 ≤ a)
      → memory_of h' a ≡ memory_of h a

module _ (fuel : ℕ) (h : Heap) (i j : ℕ) (c : CanGrow fuel h i j) (h' : Heap)
    (new : HasNewPage h i j h') where
  d : ℕ
  d = h.free_bucket_desc

  in_table : i < length h.bucket_dir
  in_table = bucket-lt h.bucket_dir i (omega (arith, c.large))

  -- The heap with the object given back, and the bucket's chain without the descriptor.
  emptied : Heap
  emptied = record (given d (page_at j) h') { bucket_dir = h.bucket_dir }

  emptied_elsewhere :
      (a : ℕ)
      → (a < page_at j) ⊎ (page_at j + 4 ≤ a)
      → (a < d + 8) ⊎ (d + 14 ≤ a)
      → memory_of emptied a ≡ memory_of h' a
  unfolding emptied given
  emptied_elsewhere = give_object_elsewhere d (page_at j) (memory_of h')

  emptied-IsReady : IsReady emptied.pages
  unfolding emptied given cli d
  emptied-IsReady = IsReady-frame new.ready refl refl (λ a p q.
      emptied_elsewhere a
        (inl (
          omega (
            arith,
            c.place.page_high,
            c.ready.room,
            c.ready.end_small,
            ap (λ r. r.pages_total) new.info,
          )))
        (inl (
          omega (
            arith,
            c.place.desc_high,
            c.ready.room,
            c.ready.end_small,
            ap (λ r. r.pages_total) new.info,
          ))))

  emptied_info : emptied.pages.physics_memory ≡ h.pages.physics_memory
  unfolding emptied given cli
  emptied_info = new.info

  emptied_page : load32 (memory_of emptied) d ≡ page_at j
  unfolding d
  emptied_page =
      load32-frame (memory_of h') (memory_of emptied) d
        (λ a p q. emptied_elsewhere a (omega (arith, c.place.apart)) (omega arith))
      ∙ new.page

  emptied_next : load32 (memory_of emptied) (d + at_next) ≡ (bucket_at i h.bucket_dir).chain
  unfolding d
  emptied_next =
      load32-frame (memory_of h') (memory_of emptied) (d + at_next)
        (λ a p q. emptied_elsewhere a (omega (arith, c.place.apart)) (omega arith))
      ∙ new.next

  emptied_flag : byte_of emptied.pages j ≡ 1
  unfolding d
  emptied_flag =
      emptied_elsewhere (table + j) (omega (arith, c.place.flag_low, c.place.page_high))
        (omega (arith, c.place.flag_low, c.place.desc_high))
      ∙ new.flag

  -- The chain without the descriptor is the one that kmalloc found.
  dirs_back : set_chain i (load32 (memory_of emptied) (d + at_next)) h'.bucket_dir ≡ h.bucket_dir
  unfolding d
  dirs_back =
      ap (λ n. set_chain i n h'.bucket_dir) emptied_next
      ∙ ap (λ dirs. set_chain i (bucket_at i h.bucket_dir).chain dirs) new.dirs
      ∙ set_chain-set_chain h.bucket_dir i h.free_bucket_desc

  front : (bucket_at i h'.bucket_dir).chain ≡ d
  unfolding d
  front =
      ap (λ dirs. (bucket_at i dirs).chain) new.dirs
      ∙ ap (λ b. b.chain) (set_chain_self h.bucket_dir i h.free_bucket_desc in_table)

  released :
      (rounds : ℕ)
      → release rounds (page_at j) (record { index = i; bdesc = d; prev = null }) h'
        ≡ some (on_machine sti (give_page d emptied))
  unfolding emptied given d
  released rounds =
      release-front rounds (page_at j) i d h' front
        (give_object_refcnt d (page_at j) (memory_of h') (omega (arith, c.place.apart)) new.refcnt)
      ∙ ap
          (λ dirs.
            some (
              on_machine sti (give_page d (record (given d (page_at j) h') { bucket_dir = dirs }))))
          dirs_back

  -- What kfree_s leaves.
  pub freed_heap : Heap
  freed_heap = on_machine sti (give_page d emptied)

  pub kfree_s-freed :
      (len : ℕ)
      → len < 2 ^ 31
      → Picked len h.bucket_dir i
      → kfree_s (suc fuel) (page_at j) len h' ≡ some freed_heap
  unfolding kfree_s d freed_heap
  kfree_s-freed len short p =
      let aligned : page_at j - page_at j % 2 ^ 12 ≡ page_at j = omega arith in
      let sized : (bucket_at i h'.bucket_dir).size ≢ 0 =
        rw (new.dirs, set_chain-size h.bucket_dir i h.free_bucket_desc i)
          (omega (arith, c.large)) in
      let picked : Picked len h'.bucket_dir i =
        rw new.dirs (Picked-set_chain h.bucket_dir i h.free_bucket_desc len i p) in
      rw
        (
          aligned,
          find_owner-front fuel (memory_of h') (page_at j) len h'.bucket_dir i h.free_bucket_desc
              short picked sized front (omega (arith, c.place.desc_high)) new.page,
        )
        (released (suc fuel))

  freed_pages : Pages
  freed_pages = free_page (load32 (memory_of emptied) (d + at_page)) emptied.pages

  freed_pages-Marked : Marked emptied.pages j 0 (used_pages emptied.pages - 1) freed_pages
  unfolding freed_pages d
  freed_pages-Marked =
      let there : load32 (memory_of emptied) (d + at_page) ≡ page_at j =
        ap (λ a. load32 (memory_of emptied) a) (omega arith) ∙ emptied_page in
      let inside : j < total_pages emptied.pages =
        rw (ap (λ r. r.pages_total) emptied_info) c.first.upper in
      rw there (free_page_lem emptied.pages emptied-IsReady j inside emptied_flag)

  freed_memory :
      memory_of freed_heap
      ≡ store32 (store8 (memory_of emptied) (table + j) 0) (d + at_next) h'.free_bucket_desc
  unfolding freed_heap give_page freed_pages emptied given d sti cli
  freed_memory = ap (λ m. store32 m (d + at_next) h'.free_bucket_desc) freed_pages-Marked.memory

  freed_elsewhere :
      (a : ℕ)
      → (a < h.free_bucket_desc) ⊎ (h.free_bucket_desc + 16 ≤ a)
      → (a < page_at j) ⊎ (page_at j + 4096 ≤ a)
      → memory_of freed_heap a ≡ memory_of h a
  unfolding d
  freed_elsewhere a out out' =
      ap (λ m. m a) freed_memory
      ∙ store32_ne (store8 (memory_of emptied) (table + j) 0) (d + at_next) h'.free_bucket_desc a
          (omega arith)
      ∙ elim (Bool-cases ((table + j) == a)) [
        | inl same ↦
            rw (← (==_iff (table + j) a).0 same)
              (store8_self (memory_of emptied) (table + j) 0 ∙ sym c.first.free)
        | inr other ↦
            let ne : table + j ≢ a = ground arith in
            store8_ne (memory_of emptied) (table + j) 0 a ne
            ∙ emptied_elsewhere a (omega arith) (omega arith)
            ∙ new.elsewhere a (record { not_flag = ne; not_desc = out; not_page = out' })
      ]

  pub freed_heap-Restored : Restored h j freed_heap
  unfolding freed_heap give_page freed_pages emptied given d sti cli
  freed_heap-Restored = record {
    info = freed_pages-Marked.info ∙ emptied_info;
    table_map =
        freed_pages-Marked.table_map
        ∙ ap {A = PhysicsMemoryMap} (λ r. record r { bitmap_item_used = r.bitmap_item_used - 1 })
            new.table_map
        ∙ ap (λ n. record h.pages.physics_memory_map { bitmap_item_used = n }) (omega arith);
    dirs = refl;
    free = refl;
    next =
        ap (λ m. load32 m (d + at_next)) freed_memory
        ∙ load32-store32_self (store8 (memory_of emptied) (table + j) 0) (d + at_next)
            h'.free_bucket_desc
        ∙ ap u32 new.free
        ∙ omega (arith, c.next_word);
    elsewhere = freed_elsewhere;
  }

-- On a valid page table, for a length below 2 ^ 31 whose bucket is of 4 to 4096 bytes and has no
-- free object, with a free descriptor and a free page j, the first from the counter on, above 1 MB
-- and apart, kmalloc returns the address of page j, and kfree_s of that address and length then
-- ends, with one round of fuel more, with the page table, the buckets and the list of free
-- descriptors as before kmalloc, and with no byte of memory changed but in the page and in the
-- descriptor.
pub kfree_s-kmalloc :
    (fuel len : ℕ) (h : Heap) (j : ℕ)
    → len < 2 ^ 31
    → let i = find_bucket len h.bucket_dir in
      CanGrow fuel h i j
      → (h' h'' : Heap) × (kmalloc fuel len h ≡ some (page_at j, h'))
        × (kfree_s (suc fuel) (page_at j) len h' ≡ some h'')
        × Restored h j h''
kfree_s-kmalloc fuel len h j short c =
    let i = find_bucket len h.bucket_dir in
    let h' = grown fuel h i j c in
    let new = Grown-HasNewPage fuel h i j c h' (grown-Grown fuel h i j c) in
    (
      h',
      freed_heap fuel h i j c h' new,
      kmalloc-grown fuel h i j c len refl,
      kfree_s-freed fuel h i j c h' new len short (find_bucket-Picked len h.bucket_dir),
      freed_heap-Restored fuel h i j c h' new,
    )
