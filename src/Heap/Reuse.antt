-- ===== src/Heap/Reuse.antt =====
-- An object from a page that has free ones, and its way back: nothing is left of it.
use mathlib.Core.Path.{fun_ext}
use fun_size_os.Base.{
  ℕ, suc, ◌+◌, ◌-◌, ◌%◌, ◌^◌, ◌≤◌, ◌<◌, ◌≡◌, ◌≢◌, ◌⊎◌, refl, ◌∙◌, ap, arith, u16, some, ne→==, sym,
}
use fun_size_os.Memory.{
  Memory, IsBytes, load16, load32, store16, store32, store16_ne, store32_ne, load16-frame,
  load32-frame, load16-store16_self, load32-store32_self, store16-load16, store32-load32, load32-lt,
}
use fun_size_os.Machine.{cli, sti}
use fun_size_os.Pages.{null}
use fun_size_os.Heap.{
  Heap, bucket_at, memory_of, with_memory, on_machine, find_bucket, find_space, take_object,
  give_object, hand_out, serve, request, kmalloc, release, kfree_s, at_freeptr, at_refcnt,
}
use fun_size_os.Heap.Buckets.{find_bucket-Picked, find_owner-front}

-- An object at `x` is taken from the descriptor `d`, and given back.
module _ (m : Memory) (d x : ℕ) where
  -- The object is the first of the page's free ones and lies apart from the descriptor, and the count
  -- of objects does not overflow.
  pub record CanTake : Type 0 where
    pub bytes : IsBytes m
    pub first : load32 m (d + at_freeptr) ≡ x
    pub apart : (d + 16 ≤ x) ⊎ (x + 4 ≤ d)
    pub few : load16 m (d + at_refcnt) < 2 ^ 16 - 1

  linked : Memory
  linked = store32 m (d + at_freeptr) (load32 m x)

  module _ (t : CanTake) where
    taken : Memory
    taken = take_object d m

    taken_is : taken ≡ store16 linked (d + at_refcnt) (u16 (load16 linked (d + at_refcnt) + 1))
    unfolding taken take_object linked
    taken_is = rw t.first refl

    taken_elsewhere : (c : ℕ) → (c < d + 8) ⊎ (d + 14 ≤ c) → taken c ≡ m c
    unfolding linked
    taken_elsewhere c out =
        ap (λ k. k c) taken_is
        ∙ store16_ne linked (d + at_refcnt) _ c (omega arith)
        ∙ store32_ne m (d + at_freeptr) (load32 m x) c (omega arith)

    linked_refcnt : load16 linked (d + at_refcnt) ≡ load16 m (d + at_refcnt)
    unfolding linked
    linked_refcnt =
        load16-frame m linked (d + at_refcnt)
          (λ c p q. store32_ne m (d + at_freeptr) (load32 m x) c (omega arith))

    taken_refcnt : load16 taken (d + at_refcnt) ≡ load16 m (d + at_refcnt) + 1
    taken_refcnt =
        ap (λ k. load16 k (d + at_refcnt)) taken_is
        ∙ load16-store16_self linked (d + at_refcnt) (u16 (load16 linked (d + at_refcnt) + 1))
        ∙ omega (arith, linked_refcnt, t.few)

    taken_freeptr : load32 taken (d + at_freeptr) ≡ load32 m x
    unfolding linked
    taken_freeptr =
        load32-frame linked taken (d + at_freeptr)
          (λ c p q. ap (λ k. k c) taken_is ∙ store16_ne linked (d + at_refcnt) _ c (omega arith))
        ∙ load32-store32_self m (d + at_freeptr) (load32 m x)
        ∙ omega (arith, load32-lt m x t.bytes)

    -- What is stored on the way back.
    relinked : Memory
    relinked = store32 (store32 taken x (load32 m x)) (d + at_freeptr) (load32 m (d + at_freeptr))

    relinked_elsewhere : (c : ℕ) → (c < d + 12) ⊎ (d + 14 ≤ c) → relinked c ≡ m c
    unfolding relinked
    relinked_elsewhere c out =
        store32-load32 m (store32 taken x (load32 m x)) (d + at_freeptr) t.bytes c
          (λ other. store32-load32 m taken x t.bytes c (λ away. taken_elsewhere c (omega arith)))

    relinked_refcnt : load16 relinked (d + at_refcnt) ≡ load16 m (d + at_refcnt) + 1
    unfolding relinked
    relinked_refcnt =
        load16-frame taken relinked (d + at_refcnt) (λ c p q.
          store32_ne (store32 taken x (load32 m x)) (d + at_freeptr) _ c (omega arith)
          ∙ store32_ne taken x (load32 m x) c (omega (arith, t.apart)))
        ∙ taken_refcnt

    given_is :
        give_object d x taken
        ≡ store16 relinked (d + at_refcnt) (u16 (load16 relinked (d + at_refcnt) + 2 ^ 16 - 1))
    unfolding give_object relinked
    given_is = rw (taken_freeptr, t.first) refl

    give_object-take_object : give_object d x taken ≡ m
    give_object-take_object =
        let count : u16 (load16 relinked (d + at_refcnt) + 2 ^ 16 - 1) ≡ load16 m (d + at_refcnt) =
          omega (arith, relinked_refcnt, t.few) in
        fun_ext λ c.
          ap (λ k. k c) given_is
          ∙ ap (λ n. store16 relinked (d + at_refcnt) n c) count
          ∙ store16-load16 m relinked (d + at_refcnt) t.bytes c
              (λ out. relinked_elsewhere c (omega arith))

-- The bucket that the length selects has a descriptor `d` in front with a free object at `x`, which
-- lies in the descriptor's page.
pub record HasSpace (h : Heap) (i x : ℕ) : Type 0 where
  pub sized : (bucket_at i h.bucket_dir).size ≢ 0
  pub some_desc : (bucket_at i h.bucket_dir).chain ≢ null
  pub some_object : x ≢ null
  pub page : load32 (memory_of h) (bucket_at i h.bucket_dir).chain ≡ x - x % 2 ^ 12
  pub used : 1 ≤ load16 (memory_of h) ((bucket_at i h.bucket_dir).chain + at_refcnt)
  pub can_take : CanTake (memory_of h) (bucket_at i h.bucket_dir).chain x

module _ (fuel len : ℕ) (h : Heap) (x : ℕ) (s : HasSpace h (find_bucket len h.bucket_dir) x) where
  i : ℕ
  i = find_bucket len h.bucket_dir

  d : ℕ
  unfolding i
  d = (bucket_at i h.bucket_dir).chain

  -- The heap with the object in use.
  reused : Heap
  reused = on_machine sti (with_memory (take_object d (memory_of h)) (on_machine cli h))

  found_space : find_space (suc fuel) (memory_of h) d ≡ some d
  unfolding find_space d i
  found_space =
      let free : load32 (memory_of h) (d + at_freeptr) ≢ null =
        λ z. s.some_object (sym s.can_take.first ∙ z) in
      rw (ne→== d null s.some_desc, ne→== (load32 (memory_of h) (d + at_freeptr)) null free) refl

  kmalloc-reused : kmalloc (suc fuel) len h ≡ some (x, reused)
  unfolding kmalloc request serve hand_out reused d i cli sti
  kmalloc-reused =
      rw
        (
          ne→== (bucket_at i h.bucket_dir).size 0 s.sized,
          found_space,
          ne→== d null s.some_desc,
          s.can_take.first,
        )
        refl

  given_back : give_object d x (take_object d (memory_of h)) ≡ memory_of h
  unfolding d i taken
  given_back = give_object-take_object (memory_of h) d x s.can_take

  released :
      (rounds : ℕ)
      → release rounds x (record { index = i; bdesc = d; prev = null }) reused
        ≡ some (on_machine sti h)
  unfolding release reused sti cli d i
  released rounds =
      let still : load16 (memory_of h) (d + at_refcnt) ≢ 0 =
        λ z. absurd (omega (arith, s.used, z)) in
      rw (given_back, ne→== (load16 (memory_of h) (d + at_refcnt)) 0 still) refl

  kfree_s-reused : len < 2 ^ 31 → kfree_s (suc fuel) x len reused ≡ some (on_machine sti h)
  unfolding kfree_s reused d i cli sti taken
  kfree_s-reused short =
      let m' = take_object d (memory_of h) in
      let on_page : load32 m' d ≡ x - x % 2 ^ 12 =
        load32-frame (memory_of h) m' d
          (λ c p q. taken_elsewhere (memory_of h) d x s.can_take c (omega arith))
        ∙ s.page in
      rw
        (find_owner-front fuel m' (x - x % 2 ^ 12) len h.bucket_dir (find_bucket len h.bucket_dir) d
          short (find_bucket-Picked len h.bucket_dir) s.sized refl s.some_desc on_page)
        (released (suc fuel))

-- In a memory of bytes, if the descriptor in front of the bucket that a length below 2 ^ 31
-- selects has a free object at x, which lies in the descriptor's page and apart from the
-- descriptor, and has at least one and fewer than 2 ^ 16 - 1 objects in use, kmalloc returns x,
-- counts one more object in use and goes on to the object that x links to, and kfree_s of x and
-- that length then leaves the heap exactly as it was, with interrupts enabled.
pub kfree_s-kmalloc_reuse :
    (fuel len : ℕ) (h : Heap) (x : ℕ)
    → len < 2 ^ 31
    → HasSpace h (find_bucket len h.bucket_dir) x
    → let d = (bucket_at (find_bucket len h.bucket_dir) h.bucket_dir).chain in
      (h' : Heap) × (kmalloc (suc fuel) len h ≡ some (x, h'))
      × (load16 (memory_of h') (d + at_refcnt) ≡ load16 (memory_of h) (d + at_refcnt) + 1)
      × (load32 (memory_of h') (d + at_freeptr) ≡ load32 (memory_of h) x)
      × (kfree_s (suc fuel) x len h' ≡ some (on_machine sti h))
unfolding reused d i sti cli taken
kfree_s-kmalloc_reuse fuel len h x short s =
    let chain = (bucket_at (find_bucket len h.bucket_dir) h.bucket_dir).chain in
    (
      reused fuel len h x s,
      kmalloc-reused fuel len h x s,
      taken_refcnt (memory_of h) chain x s.can_take,
      taken_freeptr (memory_of h) chain x s.can_take,
      kfree_s-reused fuel len h x s short,
    )
