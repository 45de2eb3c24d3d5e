-- ===== src/Heap/Fresh.antt =====
-- The memory that kmalloc leaves when it takes a new page `p` for the descriptor `d`.
use fun_size_os.Base.{ℕ, suc, ◌+◌, ◌^◌, ◌≤◌, ◌<◌, ◌≡◌, ◌≢◌, ◌⊎◌, ◌∙◌, ap, arith, u16, u32}
use fun_size_os.Memory.{
  Memory, store8, store8_self, store8_ne, store16, store16_ne, store32, store32_ne, load16, load32,
  load16-frame, load32-frame, load32-store32_self, load32-store32_ne, load16-store16_self,
}
use fun_size_os.Heap.{
  carve, prepare, hook, take_object, at_next, at_freeptr, at_refcnt, at_bucket_size,
}
use fun_size_os.Heap.Chains.{
  FreeList, FreeList-frame, FreeList-lt, span, objects, carve_outside, carve-FreeList,
}

-- The page's flag at `t`, the descriptor and the page lie apart.
pub record Apart (t d p : ℕ) : Type 0 where
  pub flag_low : t < 0x10_0000
  pub desc_high : 0x10_0000 ≤ d
  pub page_high : 0x10_0000 ≤ p
  pub desc_end : d + 16 ≤ 2 ^ 32
  pub page_end : p + 4096 ≤ 2 ^ 32
  pub apart : (d + 16 ≤ p) ⊎ (p + 4096 ≤ d)

-- Outside all three.
pub record Elsewhere (t d p c : ℕ) : Type 0 where
  pub not_flag : t ≢ c
  pub not_desc : (c < d) ⊎ (d + 16 ≤ c)
  pub not_page : (c < p) ⊎ (p + 4096 ≤ c)

module _ (m : Memory) (t d p size n chain : ℕ) where
  unfoldable pub flagged : Memory
  flagged = store8 (prepare d size m) t 1

  unfoldable pub carved : Memory
  carved = carve n p size (hook d p flagged)

  unfoldable pub linked : Memory
  linked = store32 carved (d + at_next) chain

  -- What kmalloc leaves in all.
  unfoldable pub fresh_memory : Memory
  fresh_memory = take_object d linked

  module _ (a : Apart t d p) (fits : span n size + size ≤ 4096) (large : 4 ≤ size) where
    flagged_elsewhere : (c : ℕ) → t ≢ c → (c < d + 12) ⊎ (d + 16 ≤ c) → flagged c ≡ m c
    unfolding flagged prepare
    flagged_elsewhere c ne out =
        store8_ne (prepare d size m) t 1 c ne
        ∙ store16_ne (store16 m (d + at_refcnt) 0) (d + at_bucket_size) size c (omega arith)
        ∙ store16_ne m (d + at_refcnt) 0 c (omega arith)

    hooked_elsewhere :
        (c : ℕ)
        → (c < d) ⊎ (d + 4 ≤ c)
        → (c < d + 8) ⊎ (d + 12 ≤ c)
        → hook d p flagged c ≡ flagged c
    unfolding hook
    hooked_elsewhere c out out' =
        store32_ne (store32 flagged (d + at_freeptr) p) (d + 0) p c (omega arith)
        ∙ store32_ne flagged (d + at_freeptr) p c (omega arith)

    carved_elsewhere : (c : ℕ) → (c < p) ⊎ (p + 4096 ≤ c) → carved c ≡ hook d p flagged c
    unfolding carved
    carved_elsewhere c out = carve_outside n p size (hook d p flagged) c (omega arith)

    linked_elsewhere : (c : ℕ) → (c < d + 4) ⊎ (d + 8 ≤ c) → linked c ≡ carved c
    unfolding linked
    linked_elsewhere c out = store32_ne carved (d + at_next) chain c (omega arith)

    fresh_elsewhere :
        (c : ℕ)
        → (c < d + 8) ⊎ (d + 12 ≤ c)
        → (c < d + 12) ⊎ (d + 14 ≤ c)
        → fresh_memory c ≡ linked c
    unfolding fresh_memory take_object
    fresh_elsewhere c out out' =
        store16_ne
          (store32 linked (d + at_freeptr) (load32 linked (load32 linked (d + at_freeptr))))
          (d + at_refcnt) _ c (omega arith)
        ∙ store32_ne linked (d + at_freeptr) _ c (omega arith)

    -- Everything but the page's flag, the descriptor and the page is as it was.
    pub fresh-Elsewhere : (c : ℕ) → Elsewhere t d p c → fresh_memory c ≡ m c
    fresh-Elsewhere c e =
        fresh_elsewhere c (omega (arith, e.not_desc)) (omega (arith, e.not_desc))
        ∙ linked_elsewhere c (omega (arith, e.not_desc))
        ∙ carved_elsewhere c (omega (arith, e.not_page))
        ∙ hooked_elsewhere c (omega (arith, e.not_desc)) (omega (arith, e.not_desc))
        ∙ flagged_elsewhere c e.not_flag (omega (arith, e.not_desc))

    -- Below 1 MB only the flag is written.
    pub fresh-flagged : (c : ℕ) → c < 0x10_0000 → fresh_memory c ≡ flagged c
    fresh-flagged c low =
        fresh_elsewhere c (omega (arith, a.desc_high)) (omega (arith, a.desc_high))
        ∙ linked_elsewhere c (omega (arith, a.desc_high))
        ∙ carved_elsewhere c (omega (arith, a.page_high))
        ∙ hooked_elsewhere c (omega (arith, a.desc_high)) (omega (arith, a.desc_high))

    pub fresh-flag : fresh_memory t ≡ 1
    unfolding flagged
    fresh-flag = fresh-flagged t a.flag_low ∙ store8_self (prepare d size m) t 1

    hooked_page : load32 (hook d p flagged) d ≡ p
    unfolding hook
    hooked_page =
        ap (λ x. load32 (hook d p flagged) x) (omega arith)
        ∙ load32-store32_self (store32 flagged (d + at_freeptr) p) (d + 0) p
        ∙ omega (arith, a.page_end)

    hooked_freeptr : load32 (hook d p flagged) (d + at_freeptr) ≡ p
    unfolding hook
    hooked_freeptr =
        load32-store32_ne (store32 flagged (d + at_freeptr) p) (d + 0) p (d + at_freeptr)
          (omega arith)
        ∙ load32-store32_self flagged (d + at_freeptr) p
        ∙ omega (arith, a.page_end)

    linked_next : load32 linked (d + at_next) ≡ u32 chain
    unfolding linked
    linked_next = load32-store32_self carved (d + at_next) chain

    prepared_refcnt : load16 (prepare d size m) (d + at_refcnt) ≡ 0
    unfolding prepare
    prepared_refcnt =
        load16-frame (store16 m (d + at_refcnt) 0) (prepare d size m) (d + at_refcnt) (λ c x y.
          store16_ne (store16 m (d + at_refcnt) 0) (d + at_bucket_size) size c (omega arith))
        ∙ load16-store16_self m (d + at_refcnt) 0

    linked_refcnt : load16 linked (d + at_refcnt) ≡ 0
    unfolding flagged
    linked_refcnt =
        load16-frame carved linked (d + at_refcnt) (λ c x y. linked_elsewhere c (omega arith))
        ∙ load16-frame (hook d p flagged) carved (d + at_refcnt)
            (λ c x y. carved_elsewhere c (omega (arith, a.apart)))
        ∙ load16-frame flagged (hook d p flagged) (d + at_refcnt)
            (λ c x y. hooked_elsewhere c (omega arith) (omega arith))
        ∙ load16-frame (prepare d size m) flagged (d + at_refcnt)
            (λ c x y. store8_ne (prepare d size m) t 1 c (omega (arith, a.flag_low, a.desc_high)))
        ∙ prepared_refcnt

    linked_chain : FreeList linked p (objects (suc n) p size)
    unfolding carved
    linked_chain =
        FreeList-frame carved linked (suc n) p size p
          (λ c x y. linked_elsewhere c (omega (arith, a.apart))) large
          (carve-FreeList n p size (hook d p flagged) large (omega (arith, a.page_high))
            (omega (arith, a.page_end)))

    -- The descriptor's fields, as they are read behind the writes that follow theirs.
    pub fresh_page : load32 fresh_memory d ≡ p
    fresh_page =
        load32-frame linked fresh_memory d (λ c x y. fresh_elsewhere c (omega arith) (omega arith))
        ∙ load32-frame carved linked d (λ c x y. linked_elsewhere c (omega arith))
        ∙ load32-frame (hook d p flagged) carved d
            (λ c x y. carved_elsewhere c (omega (arith, a.apart)))
        ∙ hooked_page

    pub fresh_next : load32 fresh_memory (d + at_next) ≡ u32 chain
    fresh_next =
        load32-frame linked fresh_memory (d + at_next)
          (λ c x y. fresh_elsewhere c (omega arith) (omega arith))
        ∙ linked_next

    pub linked_freeptr : load32 linked (d + at_freeptr) ≡ p
    linked_freeptr =
        load32-frame carved linked (d + at_freeptr) (λ c x y. linked_elsewhere c (omega arith))
        ∙ load32-frame (hook d p flagged) carved (d + at_freeptr)
            (λ c x y. carved_elsewhere c (omega (arith, a.apart)))
        ∙ hooked_freeptr

    pub fresh_refcnt : load16 fresh_memory (d + at_refcnt) ≡ 1
    unfolding fresh_memory take_object
    fresh_refcnt =
        let taken =
          store32 linked (d + at_freeptr) (load32 linked (load32 linked (d + at_freeptr))) in
        let same : load16 taken (d + at_refcnt) ≡ load16 linked (d + at_refcnt) =
          load16-frame linked taken (d + at_refcnt)
            (λ c x y. store32_ne linked (d + at_freeptr) _ c (omega arith)) in
        load16-store16_self taken (d + at_refcnt) (u16 (load16 taken (d + at_refcnt) + 1))
        ∙ omega (arith, same, linked_refcnt)

    fresh_freeptr : load32 fresh_memory (d + at_freeptr) ≡ load32 linked p
    unfolding fresh_memory take_object
    fresh_freeptr =
        let value = load32 linked (load32 linked (d + at_freeptr)) in
        let taken = store32 linked (d + at_freeptr) value in
        load32-frame taken fresh_memory (d + at_freeptr)
          (λ c x y. store16_ne taken (d + at_refcnt) _ c (omega arith))
        ∙ load32-store32_self linked (d + at_freeptr) value
        ∙ ap (λ x. u32 (load32 linked x)) linked_freeptr
        ∙ omega (
          arith,
          FreeList-lt linked n (p + size) size (load32 linked p) (omega arith)
              (omega (arith, a.page_end)) linked_chain.2,
        )

    pub fresh-FreeList :
        FreeList fresh_memory (load32 fresh_memory (d + at_freeptr)) (objects n (p + size) size)
    fresh-FreeList = rw fresh_freeptr (
        FreeList-frame linked fresh_memory n (p + size) size (load32 linked p)
          (λ c x y. fresh_elsewhere c (omega (arith, a.apart, fits)) (omega (arith, a.apart, fits)))
          large linked_chain.2)
