-- ===== src/Heap/Walk.antt =====
-- The walk of a bucket's chain: it ends, and what it finds.
use fun_size_os.Base.{
  ℕ, u16, u32, true, ◌++◌, ◌≤◌, ◌⊎◌, zero, suc, ◌+◌, ◌<◌, ◌≡◌, ◌≢◌, inl, inr, refl, arith, List, [],
  ◌∷◌, length, some, ◌==◌, ne→==, eq→==, Bool-cases, if◌then◌else◌,
}
use fun_size_os.Memory.{Memory, load16, load32}
use fun_size_os.Machine.{num, printk, cli}
use fun_size_os.Pages.{null}
use fun_size_os.Heap.{
  Heap, bucket_at, memory_of, on_machine, find_bucket, find_space, serve, new_bucket, from_fresh,
  at_refcnt, at_bucket_size, at_next, at_freeptr,
}

-- From `d` the links lead through the descriptors `xs` to NULL.
abbrev pub Chain : Memory → ℕ → List ℕ → Type 0
Chain m d [] = d ≡ null
Chain m d (x ∷ xs) = (d ≡ x) × (x ≢ null) × Chain m (load32 m (x + at_next)) xs

-- The first of the descriptors with a free object, or NULL.
abbrev pub first_with_space : Memory → List ℕ → ℕ
first_with_space m [] = null
first_with_space m (x ∷ xs) = if load32 m (x + at_freeptr) == null then first_with_space m xs else x

pub find_space_lem :
    (fuel : ℕ) (m : Memory) (d : ℕ) (xs : List ℕ)
    → Chain m d xs
    → length xs < fuel
    → find_space fuel m d ≡ some (first_with_space m xs)
unfolding find_space
find_space_lem zero m d xs c lt = absurd (omega arith)
find_space_lem (suc fuel) m d [] c lt = rw (eq→== d null c) refl
find_space_lem (suc fuel) m d (x ∷ xs) c lt =
    let full : d ≢ null = λ z. c.1 (omega (arith, c.0, z)) in
    let rest : find_space fuel m (load32 m (d + at_next)) ≡ some (first_with_space m xs) =
      find_space_lem fuel m (load32 m (d + at_next)) xs (rw c.0 c.2) (omega arith) in
    rw (ne→== d null full, rest, c.0)
      (elim (Bool-cases (load32 m (x + at_freeptr) == null)) [
        | inl z ↦ rw z refl
        | inr nz ↦ rw nz refl
      ])

-- What kmalloc does once the walk has ended.
abbrev answer : ℕ → List ℕ → Heap → ℕ × Heap
answer len xs h =
    let i = find_bucket len h.bucket_dir in
    if (bucket_at i h.bucket_dir).size == 0
    then (
      null,
      on_machine (printk "malloc called with impossibly large argument (%d)\n" (num len ∷ [])) h,
    )
    else serve i (first_with_space (memory_of h) xs) (on_machine cli h)

-- No descriptor of the list has a free object.
abbrev pub AllFull : Memory → List ℕ → Type 0
AllFull m [] = Unit {0}
AllFull m (x ∷ xs) = (load32 m (x + at_freeptr) ≡ null) × AllFull m xs

-- `x` is the first of the descriptors with a free object.
pub record FirstSpace (m : Memory) (xs : List ℕ) (x : ℕ) : Type 0 where
  pub before : List ℕ
  pub after : List ℕ
  pub split : xs ≡ before ++ x ∷ after
  pub full : AllFull m before
  pub space : load32 m (x + at_freeptr) ≢ null

-- The request is refused with a message, and nothing else is different.
pub record Refused (len : ℕ) (h : Heap) (out : ℕ × Heap) : Type 0 where
  pub address : out.0 ≡ null
  pub memory : memory_of out.1 ≡ memory_of h
  pub log :
      out.1.pages.machine.log
      ≡ record {
        format = "malloc called with impossibly large argument (%d)\n";
        args = num len ∷ [];
      }
        ∷ h.pages.machine.log
  pub rest : out.1 ≡ on_machine (λ m. out.1.pages.machine) h

-- The first free object of descriptor `x` is handed out: the object's word is the next free one, and
-- the objects in use are one more.
pub record Taken (x : ℕ) (h : Heap) (out : ℕ × Heap) : Type 0 where
  pub address : out.0 ≡ load32 (memory_of h) (x + at_freeptr)
  pub next :
      load32 (memory_of out.1) (x + at_freeptr)
      ≡ u32 (load32 (memory_of h) (load32 (memory_of h) (x + at_freeptr)))
  pub count :
      load16 (memory_of out.1) (x + at_refcnt) ≡ u16 (load16 (memory_of h) (x + at_refcnt) + 1)
  pub outside :
      (a : ℕ) → (a < x + at_freeptr) ⊎ (x + at_bucket_size ≤ a) → memory_of out.1 a ≡ memory_of h a
  pub interrupts : out.1.pages.machine.interrupts ≡ true
  pub rest : out.1 ≡ on_machine (λ m. out.1.pages.machine) h

-- Refused for its length, served by the first descriptor with a free object, or by a new page.
pub data Served (len i : ℕ) (xs : List ℕ) (h : Heap) (out : ℕ × Heap) : Type 0 where
  too_large : (bucket_at i h.bucket_dir).size ≡ 0 → Refused len h out → Served len i xs h out
  from_object :
      (bucket_at i h.bucket_dir).size ≢ 0
      → (x : ℕ) → FirstSpace (memory_of h) xs x
      → Taken x h out
      → Served len i xs h out
  from_page :
      (bucket_at i h.bucket_dir).size ≢ 0
      → AllFull (memory_of h) xs
      → out ≡ from_fresh (new_bucket i (on_machine cli h))
      → Served len i xs h out
