-- ===== src/Heap/Descs.antt =====
-- A page of descriptors, and a descriptor and a page taken from a list of them.
use fun_size_os.Base.{
  ℕ, u32, zero, suc, ◌+◌, ◌*◌, ◌^◌, ◌≤◌, ◌<◌, ◌≡◌, ◌≢◌, ◌⊎◌, inl, refl, sym, ◌∙◌, ap, arith, some,
  Option, ◌==◌, eq→==, ne→==, if◌then◌else◌,
}
use fun_size_os.Memory.{
  Memory, store32, store32_ne, load32-store32_ne, load32, load32-frame, load32-store32_self,
}
use fun_size_os.Machine.{cli}
use fun_size_os.Pages.{Pages, null, get_free_page}
use fun_size_os.Pages.Prints.{get_free_page-cli}
use fun_size_os.Heap.{
  Heap, bucket_at, memory_of, with_memory, on_machine, size_of_desc, link_descs, init_bucket_desc,
  find_bucket, find_space, detach, attach, new_bucket, from_fresh, serve, request, kmalloc, at_next,
}

pub link_descs_outside :
    (n b : ℕ) (m : Memory) (c : ℕ) → (c < b) ⊎ (b + 16 * n ≤ c) → link_descs n b m c ≡ m c
unfolding link_descs
link_descs_outside zero b m c out = refl
link_descs_outside (suc n) b m c out =
    link_descs_outside n (b + size_of_desc) (store32 m (b + at_next) (b + size_of_desc)) c
      (omega arith)
    ∙ store32_ne m (b + at_next) (b + size_of_desc) c (omega arith)

pub link_descs_head :
    (n b : ℕ) (m : Memory)
    → b + 16 < 2 ^ 32
    → load32 (link_descs (suc n) b m) (b + at_next) ≡ b + 16
unfolding link_descs
link_descs_head n b m small =
    let m' = store32 m (b + at_next) (b + size_of_desc) in
    load32-frame m' (link_descs n (b + size_of_desc) m') (b + at_next)
      (λ c p q. link_descs_outside n (b + size_of_desc) m' c (inl (omega arith)))
    ∙ load32-store32_self m (b + at_next) (b + size_of_desc)
    ∙ omega arith

-- The page of descriptors, at `first`.
unfoldable pub inited : Heap → ℕ × Pages → Heap
inited h (first, pages) =
    record (with_memory
      (store32 (link_descs 255 first pages.machine.memory) (first + 16 * 255 + at_next)
        h.free_bucket_desc)
      (record h { pages = pages })) { free_bucket_desc = first }

unfoldable pub init_with : Heap → ℕ × Pages → Heap
init_with h (first, pages) =
    if first == null then record h { pages = pages } else inited h (first, pages)

pub init_bucket_desc-init_with :
    (h : Heap) → init_bucket_desc h ≡ init_with h (get_free_page h.pages)
unfolding init_bucket_desc init_with inited
init_bucket_desc-init_with h = refl

-- The flag does not matter for what follows.
init_bucket_desc-cli : (h : Heap) → init_bucket_desc (on_machine cli h) ≡ init_bucket_desc h
unfolding init_with inited
init_bucket_desc-cli h =
    init_bucket_desc-init_with (on_machine cli h)
    ∙ ap (init_with h) (get_free_page-cli h.pages)
    ∙ sym (init_bucket_desc-init_with h)

attach-pages :
    (i d : ℕ) (h : Heap) (p : Pages) (out : ℕ × Pages)
    → attach i d (record h { pages = p }) out ≡ attach i d h out
unfolding attach
attach-pages i d h p (cp, pages) = refl

-- A descriptor and a page, from a list that is not empty.
unfoldable pub take_from : ℕ → ℕ → Heap → Option ℕ × Heap
take_from i size h =
    attach i h.free_bucket_desc (detach size h) (get_free_page (detach size h).pages)

take_from-cli : (i size : ℕ) (h : Heap) → take_from i size (on_machine cli h) ≡ take_from i size h
unfolding take_from detach cli
take_from-cli i size h =
    ap (attach i h.free_bucket_desc (detach size (on_machine cli h)))
      (get_free_page-cli (detach size h).pages)
    ∙ attach-pages i h.free_bucket_desc (detach size h) (detach size (on_machine cli h)).pages
        (get_free_page (detach size h).pages)

new_bucket-empty :
    (i : ℕ) (h : Heap)
    → h.free_bucket_desc ≡ null
    → new_bucket i (on_machine cli h)
      ≡ take_from i (bucket_at i h.bucket_dir).size (init_bucket_desc h)
unfolding new_bucket take_from
new_bucket-empty i h e =
    rw (eq→== h.free_bucket_desc null e)
      (ap (take_from i (bucket_at i h.bucket_dir).size) (init_bucket_desc-cli h))

new_bucket-some :
    (i : ℕ) (h : Heap)
    → h.free_bucket_desc ≢ null
    → new_bucket i (on_machine cli h) ≡ take_from i (bucket_at i h.bucket_dir).size h
unfolding new_bucket take_from
new_bucket-some i h full =
    rw (ne→== h.free_bucket_desc null full) (take_from-cli i (bucket_at i h.bucket_dir).size h)

-- With an empty chain a new page is requested.
kmalloc-new_bucket :
    (fuel len i : ℕ) (h : Heap)
    → find_bucket len h.bucket_dir ≡ i
    → (bucket_at i h.bucket_dir).chain ≡ null
    → (bucket_at i h.bucket_dir).size ≢ 0
    → kmalloc (suc fuel) len h ≡ some (from_fresh (new_bucket i (on_machine cli h)))
unfolding kmalloc request serve find_space
kmalloc-new_bucket fuel len i h e empty sized =
    ap (λ k. request (suc fuel) len k h) e
    ∙ rw
        (
          ne→== (bucket_at i h.bucket_dir).size 0 sized,
          eq→== (bucket_at i h.bucket_dir).chain null empty,
        )
        refl

-- With an empty list of descriptors the request does what it does on a page of them.
pub kmalloc-init_bucket_desc :
    (fuel len i : ℕ) (h : Heap)
    → find_bucket len h.bucket_dir ≡ i
    → h.free_bucket_desc ≡ null
    → (init_bucket_desc h).free_bucket_desc ≢ null
    → (init_bucket_desc h).bucket_dir ≡ h.bucket_dir
    → (bucket_at i h.bucket_dir).chain ≡ null
    → (bucket_at i h.bucket_dir).size ≢ 0
    → kmalloc (suc fuel) len h ≡ kmalloc (suc fuel) len (init_bucket_desc h)
kmalloc-init_bucket_desc fuel len i h e none_free some_free dirs empty sized =
    kmalloc-new_bucket fuel len i h e empty sized
    ∙ ap (λ r. some (from_fresh r))
        (new_bucket-empty i h none_free
          ∙ ap (λ b. take_from i (bucket_at i b).size (init_bucket_desc h)) (sym dirs)
          ∙ sym (new_bucket-some i (init_bucket_desc h) some_free))
    ∙ sym (
        kmalloc-new_bucket fuel len i (init_bucket_desc h) (ap (find_bucket len) dirs ∙ e)
          (ap (λ b. (bucket_at i b).chain) dirs ∙ empty)
          (λ z. sized (ap (λ b. (bucket_at i b).size) (sym dirs) ∙ z)))

pub init_with-inited : (h : Heap) (out : ℕ × Pages) → out.0 ≢ null → init_with h out ≡ inited h out
unfolding init_with
init_with-inited h (first, pages) full = rw (ne→== first null full) refl

pub inited_elsewhere :
    (h : Heap) (out : ℕ × Pages) (c : ℕ)
    → (c < out.0) ⊎ (out.0 + 4096 ≤ c)
    → memory_of (inited h out) c ≡ out.1.machine.memory c
unfolding inited
inited_elsewhere h (first, pages) c out =
    store32_ne (link_descs 255 first pages.machine.memory) (first + 16 * 255 + at_next)
      h.free_bucket_desc c (omega arith)
    ∙ link_descs_outside 255 first pages.machine.memory c (omega arith)

pub inited_next :
    (h : Heap) (out : ℕ × Pages)
    → out.0 + 16 < 2 ^ 32
    → load32 (memory_of (inited h out)) (out.0 + at_next) ≡ out.0 + 16
unfolding inited
inited_next h (first, pages) small =
    let linked = link_descs 255 first pages.machine.memory in
    load32-frame linked (store32 linked (first + 16 * 255 + at_next) h.free_bucket_desc)
      (first + at_next)
      (λ c p q. store32_ne linked (first + 16 * 255 + at_next) h.free_bucket_desc c (omega arith))
    ∙ link_descs_head 254 first pages.machine.memory small

next_desc :
    (n b : ℕ) (m : Memory) (a : ℕ)
    → load32 (link_descs (suc n) b m) a
      ≡ load32 (link_descs n (b + size_of_desc) (store32 m (b + at_next) (b + size_of_desc))) a
unfolding link_descs
next_desc n b m a = refl

-- Every link of a page of `n + 1` descriptors but the last one's.
pub link_descs_at :
    (n b : ℕ) (m : Memory) (k : ℕ)
    → k < n
    → b + 16 * n < 2 ^ 32
    → load32 (link_descs n b m) (b + 16 * k + at_next) ≡ b + 16 * k + 16
link_descs_at zero b m k lt small = absurd (omega arith)
link_descs_at (suc n) b m zero lt small =
    ap (λ a. load32 (link_descs (suc n) b m) a) (omega arith)
    ∙ link_descs_head n b m (omega arith)
    ∙ omega arith
link_descs_at (suc n) b m (suc k) lt small =
    let m' = store32 m (b + at_next) (b + size_of_desc) in
    let at : b + 16 * suc k + at_next ≡ b + size_of_desc + 16 * k + at_next = omega arith in
    next_desc n b m (b + 16 * suc k + at_next)
    ∙ ap (λ a. load32 (link_descs n (b + size_of_desc) m') a) at
    ∙ link_descs_at n (b + size_of_desc) m' k (omega arith) (omega arith)
    ∙ omega arith

pub inited_at :
    (h : Heap) (out : ℕ × Pages) (k : ℕ)
    → k < 255
    → out.0 + 16 * 255 < 2 ^ 32
    → load32 (memory_of (inited h out)) (out.0 + 16 * k + at_next) ≡ out.0 + 16 * k + 16
unfolding inited
inited_at h (first, pages) k lt small =
    load32-store32_ne (link_descs 255 first pages.machine.memory) (first + 16 * 255 + at_next)
      h.free_bucket_desc (first + 16 * k + at_next) (omega arith)
    ∙ link_descs_at 255 first pages.machine.memory k lt small

pub inited_last :
    (h : Heap) (out : ℕ × Pages)
    → load32 (memory_of (inited h out)) (out.0 + 16 * 255 + at_next) ≡ u32 h.free_bucket_desc
unfolding inited
inited_last h (first, pages) =
    load32-store32_self (link_descs 255 first pages.machine.memory) (first + 16 * 255 + at_next)
      h.free_bucket_desc
