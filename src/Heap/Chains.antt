-- ===== src/Heap/Chains.antt =====
-- The free objects of a page, as the chain that kmalloc lays and takes from.
use fun_size_os.Base.{
  ℕ, zero, suc, ◌+◌, ◌-◌, ◌*◌, ◌/◌, ◌^◌, ◌≤◌, ◌<◌, ◌≡◌, ◌≢◌, ◌⊎◌, inl, refl, ◌∙◌, ap, arith, List,
  [], ◌∷◌, length,
}
use native.Mathlib.Nat.{div-add-mod', suc-mul}
use fun_size_os.Memory.{Memory, store32, store32_ne, load32, load32-frame, load32-store32_self}
use fun_size_os.Pages.{null}
use fun_size_os.Heap.{carve}

-- From `p` the links lead through the objects `xs` to NULL.
abbrev pub FreeList : Memory → ℕ → List ℕ → Type 0
FreeList m p [] = p ≡ null
FreeList m p (x ∷ xs) = (p ≡ x) × (x ≢ null) × FreeList m (load32 m x) xs

-- `n` sizes, one after the other.
abbrev pub span : ℕ → ℕ → ℕ
span zero size = 0
span (suc n) size = size + span n size

-- `n` objects of a size, from `p` on.
abbrev pub objects : ℕ → ℕ → ℕ → List ℕ
objects zero p size = []
objects (suc n) p size = p ∷ objects n (p + size) size

pub length-objects : (n p size : ℕ) → length (objects n p size) ≡ n
length-objects zero p size = refl
length-objects (suc n) p size = ap suc (length-objects n (p + size) size)

span-mul : (n size : ℕ) → span n size ≡ n * size
span-mul zero size = omega arith
span-mul (suc n) size = grind (arith, span-mul n size)

rounds_fit : (q size total : ℕ) → q * size ≤ total → size ≤ total → span (q - 1) size + size ≤ total
rounds_fit zero size total h k = omega (arith, span-mul 0 size)
rounds_fit (suc q) size total h k =
    let pred : suc q - 1 ≡ q = omega arith in
    rw pred (omega (arith, suc-mul q size, span-mul q size))

-- The objects of a page end within it.
pub span-le-page : (size : ℕ) → size ≤ 4096 → span (4096 / size - 1) size + size ≤ 4096
span-le-page size upper =
    rounds_fit (4096 / size) size 4096 (omega (arith, div-add-mod' 4096 size)) upper

pub carve_outside :
    (n p size : ℕ) (m : Memory) (c : ℕ)
    → (c < p) ⊎ (p + span n size + 4 ≤ c)
    → carve n p size m c ≡ m c
unfolding carve
carve_outside zero p size m c out = store32_ne m p null c (omega arith)
carve_outside (suc n) p size m c out =
    carve_outside n (p + size) size (store32 m p (p + size)) c (omega arith)
    ∙ store32_ne m p (p + size) c (omega arith)

-- A chain survives any change that spares the first four bytes of its objects.
pub FreeList-frame :
    (m m' : Memory) (n p size q : ℕ)
    → ((c : ℕ) → p ≤ c → c < p + span n size → m' c ≡ m c)
    → 4 ≤ size
    → FreeList m q (objects n p size)
    → FreeList m' q (objects n p size)
FreeList-frame m m' zero p size q same large l = l
FreeList-frame m m' (suc n) p size q same large l = (
  l.0,
  l.1,
  rw (load32-frame m m' p (λ c a b. same c a (omega arith))) (
      FreeList-frame m m' n (p + size) size (load32 m p)
        (λ c a b. same c (omega arith) (omega arith)) large l.2),
)

-- Carving leaves the objects of the page as a chain, in their order.
pub carve-FreeList :
    (n p size : ℕ) (m : Memory)
    → 4 ≤ size
    → p ≢ null
    → p + span n size < 2 ^ 32
    → FreeList (carve n p size m) p (objects (suc n) p size)
unfolding carve
carve-FreeList zero p size m large full fits = (refl, full, load32-store32_self m p null)
carve-FreeList (suc n) p size m large full fits =
    let m' = store32 m p (p + size) in
    let link : load32 (carve n (p + size) size m') p ≡ p + size =
      load32-frame m' (carve n (p + size) size m') p
        (λ c a b. carve_outside n (p + size) size m' c (inl (omega arith)))
      ∙ load32-store32_self m p (p + size)
      ∙ omega arith in
    (refl, full, rw link (carve-FreeList n (p + size) size m' large (omega arith) (omega arith)))

-- The head of such a chain is an address.
pub FreeList-lt :
    (m : Memory) (n p size q : ℕ)
    → 1 ≤ size
    → p + span n size ≤ 2 ^ 32
    → FreeList m q (objects n p size)
    → q < 2 ^ 32
FreeList-lt m zero p size q large fits l = omega arith
FreeList-lt m (suc n) p size q large fits l = omega arith
