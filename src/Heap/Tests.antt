-- ===== src/Heap/Tests.antt =====
-- A heap with one page of free descriptors and two free pages.
use fun_size_os.Base.{ℕ, ◌+◌, ◌<◌, ◌≤◌, ◌≡◌, refl, arith, true, some, inl, [], zero, suc}
use fun_size_os.Memory.{Memory, IsBytes, store8, store8_ne, store16, store32, load16, load32}
use fun_size_os.Machine.{sti}
use fun_size_os.Pages.{valid_memory_from}
use fun_size_os.Pages.Table.{marks}
use fun_size_os.Pages.Inv.{IsReady, table}
use fun_size_os.Heap.{
  Heap, bucket_dir, bucket_at, set_chain, with_memory, on_machine, find_bucket, find_space, kmalloc,
  kfree_s, memory_of, at_refcnt, at_freeptr,
}
use fun_size_os.Heap.Reuse.{HasSpace, kfree_s-kmalloc_reuse}
use fun_size_os.Heap.NoPage.{CannotGrow, Lost, kmalloc_no_page}
use fun_size_os.Heap.First.{HasDescs, IsUnused, kmalloc_first}
use fun_size_os.Pages.{null}
use fun_size_os.Heap.Grow.{CanGrow}
use fun_size_os.Heap.NewPage.{HasNewPage, kmalloc_new_page}
use fun_size_os.Heap.RoundTrip.{Restored, kfree_s-kmalloc}

-- Page 0 holds the descriptors.
abbrev one_used : Memory
one_used = store8 (λ _. 0) table 1

abbrev heap : Heap
heap = record {
  pages = record {
    machine = record { memory = one_used; ports = []; log = []; interrupts = true };
    physics_memory = record {
      addr_start = valid_memory_from;
      addr_end = 0x10_3000;
      valid_mem_size = 0x3000;
      pages_total = 3;
      pages_free = 3;
      pages_used = 0;
    };
    physics_memory_map = record {
      addr_base = valid_memory_from;
      pages_total = 3;
      bitmap_item_used = 1;
      map = table;
    };
  };
  bucket_dir = bucket_dir;
  free_bucket_desc = 0x10_0000;
}

-- 24 bytes come from the bucket of 32.
bucket_of_24 : find_bucket 24 bucket_dir ≡ 1
unfolding find_bucket
bucket_of_24 = refl

heap-IsReady : IsReady heap.pages
unfolding marks store8
heap-IsReady = record {
  start = refl;
  base = refl;
  map_at = refl;
  room = omega arith;
  end_small = omega arith;
  flags = flags;
  counted = refl;
}
  where
    flags : (i : ℕ) → i < 3 → one_used (table + i) ≤ 1
    flags zero h = omega arith
    flags (suc i) h = omega (arith, store8_ne (λ _. 0) table 1 (table + suc i) (omega arith))

heap-CanGrow : CanGrow 1 heap (find_bucket 24 heap.bucket_dir) 1
unfolding find_bucket find_space load32 store8
heap-CanGrow = record {
  ready = heap-IsReady;
  no_space = refl;
  large = omega arith;
  small = omega arith;
  chain_word = omega arith;
  next_word = omega arith;
  place = record {
    flag_low = omega arith;
    desc_high = omega arith;
    page_high = omega arith;
    desc_end = omega arith;
    page_end = omega arith;
    apart = inl (omega arith);
  };
  first = record {
    lower = omega arith;
    upper = omega arith;
    free = refl;
    taken = λ j p q. absurd (omega arith);
  };
}

kmalloc_new_page_example :
    (h' : Heap) × (kmalloc 1 24 heap ≡ some (0x10_1000, h'))
    × (24 ≤ (bucket_at (find_bucket 24 bucket_dir) bucket_dir).size)
    × ((k : ℕ) → k < find_bucket 24 bucket_dir → (bucket_at k bucket_dir).size < 24)
    × HasNewPage heap (find_bucket 24 bucket_dir) 1 h'
kmalloc_new_page_example = kmalloc_new_page 1 24 heap 1 heap-CanGrow

kfree_s-kmalloc_example :
    (h' h'' : Heap) × (kmalloc 1 24 heap ≡ some (0x10_1000, h'))
    × (kfree_s 2 0x10_1000 24 h' ≡ some h'')
    × Restored heap 1 h''
kfree_s-kmalloc_example = kfree_s-kmalloc 1 24 heap 1 (omega arith) heap-CanGrow

-- A descriptor of the bucket of 32 with one object in use.
abbrev busy_memory : Memory
busy_memory =
    store16 (store32 (store32 one_used 0x10_0000 0x10_1000) 0x10_0008 0x10_1020) 0x10_000c 1

abbrev busy : Heap
busy = record (with_memory busy_memory heap) {
  bucket_dir = set_chain 1 0x10_0000 bucket_dir;
  free_bucket_desc = 0x10_0010;
}

busy-IsBytes : IsBytes busy_memory
unfolding store8 store16 store32
busy-IsBytes a = ground arith

busy-HasSpace : HasSpace busy (find_bucket 24 busy.bucket_dir) 0x10_1020
unfolding find_bucket load32 load16 store8 store16 store32
busy-HasSpace = record {
  sized = omega arith;
  some_desc = omega arith;
  some_object = omega arith;
  page = refl;
  used = omega arith;
  can_take = record {
    bytes = busy-IsBytes;
    first = refl;
    apart = inl (omega arith);
    few = omega arith;
  };
}

kfree_s-kmalloc_reuse_example :
    let d = (bucket_at (find_bucket 24 busy.bucket_dir) busy.bucket_dir).chain in
    (h' : Heap) × (kmalloc 2 24 busy ≡ some (0x10_1020, h'))
    × (load16 (memory_of h') (d + at_refcnt) ≡ load16 busy_memory (d + at_refcnt) + 1)
    × (load32 (memory_of h') (d + at_freeptr) ≡ load32 busy_memory 0x10_1020)
    × (kfree_s 2 0x10_1020 24 h' ≡ some (on_machine sti busy))
kfree_s-kmalloc_reuse_example =
    kfree_s-kmalloc_reuse 1 24 busy 0x10_1020 (omega arith) busy-HasSpace

-- All three pages in use.
abbrev all_used : Memory
all_used = store8 (store8 one_used 0x1_0001 1) 0x1_0002 1

abbrev used_up : Heap
used_up = record heap {
  pages = record heap.pages {
    machine = record heap.pages.machine { memory = all_used };
    physics_memory_map = record heap.pages.physics_memory_map { bitmap_item_used = 3 };
  };
}

used_up-CannotGrow : CannotGrow 1 used_up (find_bucket 24 used_up.bucket_dir)
unfolding marks store8 find_bucket find_space
used_up-CannotGrow = record {
  ready = record {
    start = refl;
    base = refl;
    map_at = refl;
    room = omega arith;
    end_small = omega arith;
    flags = flags;
    counted = refl;
  };
  no_space = refl;
  sized = omega arith;
  desc_high = omega arith;
  taken = λ j p q. absurd (omega arith);
}
  where
    flags : (i : ℕ) → i < 3 → all_used (table + i) ≤ 1
    flags i h = ground arith

kmalloc_no_page_example : (h' : Heap) × (kmalloc 1 24 used_up ≡ some (0, h')) × Lost used_up h'
kmalloc_no_page_example = kmalloc_no_page 1 24 used_up used_up-CannotGrow

-- No page is in use, and the list of descriptors is empty.
abbrev unused : Heap
unused = record heap {
  pages = record heap.pages {
    machine = record heap.pages.machine { memory = λ _. 0 };
    physics_memory_map = record heap.pages.physics_memory_map { bitmap_item_used = 0 };
  };
  free_bucket_desc = null;
}

unused-IsUnused : IsUnused unused (find_bucket 24 bucket_dir)
unfolding marks find_bucket
unused-IsUnused = record {
  ready = record {
    start = refl;
    base = refl;
    map_at = refl;
    room = omega arith;
    end_small = omega arith;
    flags = λ i h. omega arith;
    counted = refl;
  };
  compact = record { below = λ i h. absurd (omega arith); above = λ i p q. refl };
  room = omega arith;
  none_free = refl;
  empty = refl;
  large = omega arith;
  small = omega arith;
}

kmalloc_first_example :
    (h1 h' : Heap) × (kmalloc 1 24 unused ≡ some (0x10_1000, h'))
    × HasDescs unused 0 h1
    × HasNewPage h1 (find_bucket 24 bucket_dir) 1 h'
kmalloc_first_example = kmalloc_first 0 24 unused unused-IsUnused
