-- ===== src/Pages/Order.antt =====
-- In which order get_free_page hands pages out, and what happens once pages come back.
use mathlib.Core.Path.{subst}
use fun_size_os.Base.{
  ℕ, suc, ◌+◌, ◌-◌, ◌≤◌, ◌<◌, ◌≡◌, ◌≢◌, inl, inr, arith, sym, ◌∙◌, ap, ◌==◌, Bool-cases, ==_iff,
}
use fun_size_os.Memory.{Memory, store8}
use fun_size_os.Pages.{Pages, null, get_free_page, free_page}
use fun_size_os.Pages.Table.{marks, Flags, marks-lt, marks-store8_outside}
use fun_size_os.Pages.Inv.{IsReady, table, page_at, total_pages, used_pages, byte_of}
use fun_size_os.Pages.Alloc.{Marked, Allocated, get_free_page_lem}
use fun_size_os.Pages.Keeps.{
  free_page_at, free_page_lem, free_page-IsReady, Marked-byte, Marked-clear, Marked-byte_ne,
  Marked-used, Marked-total,
}

module _ (m : Memory) where
  -- If every byte is set, each is 1.
  full_byte : (n i : ℕ) → Flags m table n → marks m table n ≡ n → i < n → m (table + i) ≡ 1
  full_byte n i flags full h = elim (Bool-cases (m (table + i) == 0)) [
    | inl z ↦ absurd (omega (arith, marks-lt m table n i flags h ((==_iff _ _).0 z)))
    | inr nz ↦ let ne : m (table + i) ≢ 0 = ground arith in omega (arith, flags i h)
  ]

-- The pages in use are exactly those below the counter.
pub record IsCompact (s : Pages) : Type 0 where
  pub below : (i : ℕ) → i < used_pages s → byte_of s i ≡ 1
  pub above : (i : ℕ) → used_pages s ≤ i → i < total_pages s → byte_of s i ≡ 0

Allocated-IsCompact :
    {s : Pages} {out : ℕ × Pages} → IsCompact s → Allocated s (used_pages s) out → IsCompact out.1
Allocated-IsCompact {s} {out} c k =
    let u : ℕ = used_pages s in
    let counter = Marked-used u 1 (u + 1) k.marked in
    let total = Marked-total u 1 (u + 1) k.marked in
    record {
      below = λ i h. elim (Bool-cases (u == i)) [
        | inl e ↦ rw (← (==_iff u i).0 e) (Marked-byte u (u + 1) k.marked)
        | inr e ↦
            let ne : u ≢ i = ground arith in
            Marked-byte_ne u 1 (u + 1) i k.marked ne ∙ c.below i (omega (arith, counter))
      ];
      above = λ i p q.
          Marked-byte_ne u 1 (u + 1) i k.marked (omega (arith, counter))
          ∙ c.above i (omega (arith, counter)) (omega (arith, total));
    }

-- On a valid table whose used pages are exactly those below the counter, get_free_page succeeds
-- while the counter is below the total, hands out the page at the counter, and leaves the used
-- pages again exactly those below the counter.
pub get_free_page-IsCompact :
    (s : Pages)
    → IsReady s
    → IsCompact s
    → used_pages s < total_pages s
    → Allocated s (used_pages s) (get_free_page s) × IsCompact (get_free_page s).1
get_free_page-IsCompact s v c room = elim (get_free_page_lem s v) [
  | inl none_left ↦ absurd (none_left.taken (used_pages s) (omega arith) room at_counter)
  | inr (i, k) ↦ elim (Bool-cases (i == used_pages s)) [
    | inl e ↦
        let k' = subst (λ j. Allocated s j (get_free_page s)) ((==_iff _ _).0 e) k in
        (k', Allocated-IsCompact c k')
    | inr e ↦
        let ne : i ≢ used_pages s = ground arith in
        absurd
          (k.first.taken (used_pages s) (omega arith) (omega (arith, k.first.lower)) at_counter)
  ]
]
  where
    at_counter : byte_of s (used_pages s) ≡ 0
    at_counter = c.above (used_pages s) (omega arith) room

-- From a valid full table, free any page but the last: that page's byte is clear, and the next
-- get_free_page still returns NULL.
pub get_free_page_misses :
    (s : Pages) (k : ℕ)
    → IsReady s
    → used_pages s ≡ total_pages s
    → suc k < total_pages s
    → let t = free_page (page_at k) s in (byte_of t k ≡ 0) × ((get_free_page t).0 ≡ null)
get_free_page_misses s k v full h = elim (get_free_page_lem t ready) [
  | inl none_left ↦ (Marked-clear k (used_pages s - 1) freed, none_left.address)
  | inr (i, found) ↦ absurd (
      omega (
        arith,
        found.first.lower,
        found.first.upper,
        found.first.free,
        Marked-used k 0 (used_pages s - 1) freed,
        Marked-total k 0 (used_pages s - 1) freed,
        Marked-byte_ne k 0 (used_pages s - 1) (total_pages s - 1) freed (omega arith),
        all_set (total_pages s - 1),
        ap (byte_of t) (last i found.first.lower found.first.upper),
      ))
]
  where
    all_set : (i : ℕ) → i < total_pages s → byte_of s i ≡ 1
    all_set i = full_byte s.machine.memory (total_pages s) i v.flags (sym v.counted ∙ full)

    t : Pages
    t = free_page (page_at k) s

    freed : Marked s k 0 (used_pages s - 1) t
    freed = free_page_lem s v k (omega arith) (all_set k (omega arith))

    ready : IsReady t
    ready = free_page-IsReady s v k (omega arith) (all_set k (omega arith))

    last : (i : ℕ) → used_pages t ≤ i → i < total_pages t → i ≡ total_pages s - 1
    last i p q =
        omega (
          arith,
          Marked-used k 0 (used_pages s - 1) freed,
          Marked-total k 0 (used_pages s - 1) freed,
        )

-- On a valid table with some page in use and a zone of whole pages, free_page accepts the address
-- just past the last page: it clears the byte behind the table, takes one off the counter, and the
-- table is not valid any more.
pub free_page_past_end :
    (s : Pages)
    → IsReady s
    → page_at (total_pages s) ≡ s.physics_memory.addr_end
    → 0 < used_pages s
    → let t = free_page (page_at (total_pages s)) s in
      (t.machine.memory ≡ store8 s.machine.memory (table + total_pages s) 0)
      × (used_pages t ≡ used_pages s - 1)
      × ¬ IsReady t
free_page_past_end s v ends some_used =
    let at_end = free_page_at s v (total_pages s) (omega (arith, ends)) some_used in
    (
      at_end.memory,
      Marked-used (total_pages s) 0 (used_pages s - 1) at_end,
      λ ready. omega (
        arith,
        v.counted,
        ready.counted,
        Marked-used (total_pages s) 0 (used_pages s - 1) at_end,
        still_counted at_end,
      ),
    )
  where
    still_counted :
        {t : Pages}
        → Marked s (total_pages s) 0 (used_pages s - 1) t
        → marks t.machine.memory table (total_pages t)
          ≡ marks s.machine.memory table (total_pages s)
    still_counted k =
        rw (k.memory, k.info)
          (marks-store8_outside s.machine.memory table (total_pages s) (table + total_pages s) 0
            (inr (omega arith)))
