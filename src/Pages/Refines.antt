-- ===== src/Pages/Refines.antt =====
-- The allocator keeps the promise of `Pool`, call by call.
use mathlib.Core.Path.{fun_ext, subst}
use fun_size_os.Base.{
  ℕ, zero, suc, ◌+◌, ◌-◌, ◌<◌, ◌≡◌, inl, inr, refl, sym, ◌∙◌, ap, arith, List, [], ◌∷◌, leb,
}
use fun_size_os.Memory.{Memory, store8}
use fun_size_os.Pages.{Pages, null, get_free_page, free_page}
use fun_size_os.Pages.Table.{marks, Flags}
use fun_size_os.Pages.Inv.{IsReady, table, page_at, total_pages, used_pages, byte_of}
use fun_size_os.Pages.Alloc.{Marked, get_free_page_lem}
use fun_size_os.Pages.Keeps.{get_free_page-IsReady, free_page-IsReady, free_page_lem, Marked-total}
use fun_size_os.Pages.Pool.{
  Pool, set_use, count_used, Event, took, gave, refused, Allowed, Trace, done, next,
}

-- A run of calls, and what each returned. The callers free pages that are in use.
pub data Runs : Pages → List Event → Pages → Type 0 where
  done_at : {s : Pages} → Runs s [] s
  took_page :
      {s t : Pages} {es : List Event} (i : ℕ)
      → (get_free_page s).0 ≡ page_at i
      → Runs (get_free_page s).1 es t
      → Runs s (took i ∷ es) t
  no_page :
      {s t : Pages} {es : List Event}
      → (get_free_page s).0 ≡ null
      → Runs (get_free_page s).1 es t
      → Runs s (refused ∷ es) t
  gave_page :
      {s t : Pages} {es : List Event} (i : ℕ)
      → i < total_pages s
      → byte_of s i ≡ 1
      → Runs (free_page (page_at i) s) es t
      → Runs s (gave i ∷ es) t

-- The pool that a page table stands for.
abbrev pub pool_of : Pages → Pool
pool_of s = λ i. leb 1 (byte_of s i)

count_used-marks :
    (m : Memory) (n : ℕ)
    → Flags m table n
    → count_used (λ i. leb 1 (m (table + i))) n ≡ marks m table n
unfolding marks
count_used-marks m zero flags = refl
count_used-marks m (suc n) flags =
    ground (arith, count_used-marks m n (λ i h. flags i (omega arith)), flags n (omega arith))

count-used_pages : (s : Pages) → IsReady s → count_used (pool_of s) (total_pages s) ≡ used_pages s
count-used_pages s v = count_used-marks s.machine.memory (total_pages s) v.flags ∙ sym v.counted

Marked-pool_of :
    {s t : Pages} (i b used : ℕ)
    → b < 256
    → Marked s i b used t
    → pool_of t ≡ set_use i (leb 1 b) (pool_of s)
unfolding store8
Marked-pool_of {s} {t} i b used small k = fun_ext λ j. rw k.memory (ground arith)

-- One call of get_free_page.
took-Allowed :
    (s : Pages) (i : ℕ)
    → IsReady s
    → (get_free_page s).0 ≡ page_at i
    → Allowed (total_pages s) (pool_of s) (took i) (pool_of (get_free_page s).1)
      × (total_pages (get_free_page s).1 ≡ total_pages s)
took-Allowed s i v e = elim (get_free_page_lem s v) [
  | inl k ↦ absurd (omega (arith, e, k.address))
  | inr (j, k) ↦
      let same : j ≡ i = omega (arith, e, k.address) in
      let used = count-used_pages s v in
      subst
        (λ x.
          Allowed (total_pages s) (pool_of s) (took x) (pool_of (get_free_page s).1)
          × (total_pages (get_free_page s).1 ≡ total_pages s))
        same
        (
          (
            omega (arith, used, k.first.lower),
            k.first.upper,
            ground (arith, k.first.free),
            (λ x p q. let nz = k.first.taken x (omega (arith, used)) q in ground (arith, nz)),
            Marked-pool_of j 1 (used_pages s + 1) (omega arith) k.marked,
          ),
          Marked-total j 1 (used_pages s + 1) k.marked,
        )
]

refused-Allowed :
    (s : Pages)
    → IsReady s
    → (get_free_page s).0 ≡ null
    → Allowed (total_pages s) (pool_of s) refused (pool_of (get_free_page s).1)
      × (total_pages (get_free_page s).1 ≡ total_pages s)
refused-Allowed s v e = elim (get_free_page_lem s v) [
  | inl k ↦
      let used = count-used_pages s v in
      (
        (
          (λ x p q. let nz = k.taken x (omega (arith, used)) q in ground (arith, nz)),
          ap (λ m. λ i. leb 1 (m (table + i))) k.memory,
        ),
        ap (λ r. r.pages_total) k.info,
      )
  | inr (j, k) ↦ absurd (omega (arith, e, k.address))
]

gave-Allowed :
    (s : Pages) (i : ℕ)
    → IsReady s
    → i < total_pages s
    → byte_of s i ≡ 1
    → Allowed (total_pages s) (pool_of s) (gave i) (pool_of (free_page (page_at i) s))
      × (total_pages (free_page (page_at i) s) ≡ total_pages s)
gave-Allowed s i v h set =
    let k = free_page_lem s v i h set in
    (
      (h, ground (arith, set), Marked-pool_of i 0 (used_pages s - 1) (omega arith) k),
      Marked-total i 0 (used_pages s - 1) k,
    )

retotal : {n m : ℕ} {f g : Pool} {es : List Event} → m ≡ n → Trace m f es g → Trace n f es g
retotal {n} {m} {f} {g} {es} e = subst (λ k. Trace k f es g) e

-- Any run of calls of get_free_page, and of free_page with pages in use, on a valid page table is
-- a trace of the pool of pages: each page handed out was free, is the first free one from the
-- number of pages in use on and is then in use, each page given back is then free, a request is
-- refused only if no page is free from that number on, nothing else in the pool changes, and the
-- table is valid in the end.
pub Runs-Trace :
    (s t : Pages) (es : List Event)
    → IsReady s
    → Runs s es t
    → Trace (total_pages s) (pool_of s) es (pool_of t) × IsReady t
Runs-Trace s t es v done_at = (done, v)
Runs-Trace s t es v (took_page i e rest) =
    let ih = Runs-Trace _ t _ (get_free_page-IsReady s v) rest in
    let (step, total) = took-Allowed s i v e in (next step (retotal total ih.0), ih.1)
Runs-Trace s t es v (no_page e rest) =
    let ih = Runs-Trace _ t _ (get_free_page-IsReady s v) rest in
    let (step, total) = refused-Allowed s v e in (next step (retotal total ih.0), ih.1)
Runs-Trace s t es v (gave_page i h set rest) =
    let ih = Runs-Trace _ t _ (free_page-IsReady s v i h set) rest in
    let (step, total) = gave-Allowed s i v h set in (next step (retotal total ih.0), ih.1)
