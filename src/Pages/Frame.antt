-- ===== src/Pages/Frame.antt =====
-- The page table depends on its own bytes, and the page that is handed out on nothing else.
use mathlib.Core.Path.{subst}
use fun_size_os.Base.{
  ℕ, zero, suc, ◌+◌, ◌≤◌, ◌<◌, ◌≡◌, refl, sym, ◌∙◌, ap, arith, inl, inr, ◌==◌, ==_iff, Bool-cases,
  ltb, ltb→lt,
}
use fun_size_os.Memory.{Memory}
use fun_size_os.Pages.{Pages, get_free_page}
use fun_size_os.Pages.Table.{marks, FirstFree, AllTaken}
use fun_size_os.Pages.Inv.{IsReady, table, total_pages, used_pages}
use fun_size_os.Pages.Alloc.{Allocated, Exhausted, get_free_page_lem}

-- The page table on a memory that agrees on the table's bytes.
marks-frame :
    (m m' : Memory) (map n : ℕ)
    → ((c : ℕ) → map ≤ c → c < map + n → m' c ≡ m c)
    → marks m' map n ≡ marks m map n
unfolding marks
marks-frame m m' map zero same = refl
marks-frame m m' map (suc n) same = omega (
  arith,
  marks-frame m m' map n (λ c p q. same c p (omega arith)),
  same (map + n) (omega arith) (omega arith),
)

pub IsReady-frame :
    {s t : Pages}
    → IsReady s
    → t.physics_memory ≡ s.physics_memory
    → t.physics_memory_map ≡ s.physics_memory_map
    → ((c : ℕ) → table ≤ c → c < table + total_pages s → t.machine.memory c ≡ s.machine.memory c)
    → IsReady t
IsReady-frame {s} {t} v info map same = record {
  start = ap (λ r. r.addr_start) info ∙ v.start;
  base = ap (λ r. r.addr_base) map ∙ v.base;
  map_at = ap (λ r. r.map) map ∙ v.map_at;
  room = rw info v.room;
  end_small = rw info v.end_small;
  flags = rw info (λ i h. rw (same (table + i) (omega arith) (omega arith)) (v.flags i h));
  counted =
      rw (map, info)
        (v.counted
          ∙ sym (marks-frame s.machine.memory t.machine.memory table (total_pages s) same));
}

pub FirstFree-frame :
    (m m' : Memory) (map lower upper j : ℕ)
    → ((c : ℕ) → map ≤ c → c < map + upper → m' c ≡ m c)
    → FirstFree m map lower upper j
    → FirstFree m' map lower upper j
FirstFree-frame m m' map lower upper j same f = record {
  lower = f.lower;
  upper = f.upper;
  free = same (map + j) (omega arith) (omega (arith, f.upper)) ∙ f.free;
  taken =
      λ k p q z. f.taken k p q (sym (same (map + k) (omega arith) (omega (arith, f.upper))) ∙ z);
}

-- On a valid table the first free page is the one that is handed out.
pub get_free_page-Allocated :
    (s : Pages) (j : ℕ)
    → IsReady s
    → FirstFree s.machine.memory table (used_pages s) (total_pages s) j
    → Allocated s j (get_free_page s)
get_free_page-Allocated s j v f = elim (get_free_page_lem s v) [
  | inl k ↦ absurd (k.taken j f.lower f.upper f.free)
  | inr (i, k) ↦ elim (Bool-cases (i == j)) [
    | inl same ↦ subst (λ n. Allocated s n (get_free_page s)) ((==_iff i j).0 same) k
    | inr other ↦ elim (Bool-cases (ltb i j)) [
      | inl before ↦ absurd (f.taken i k.first.lower (ltb→lt i j before) k.first.free)
      | inr after ↦ absurd (k.first.taken j f.lower (ground arith) f.free)
    ]
  ]
]

pub AllTaken-frame :
    (m m' : Memory) (map lower upper : ℕ)
    → ((c : ℕ) → map ≤ c → c < map + upper → m' c ≡ m c)
    → AllTaken m map lower upper
    → AllTaken m' map lower upper
AllTaken-frame m m' map lower upper same t j p q z =
    t j p q (sym (same (map + j) (omega arith) (omega arith)) ∙ z)

-- On a valid table without a free page from the counter on, none is handed out.
pub get_free_page-Exhausted :
    (s : Pages)
    → IsReady s
    → AllTaken s.machine.memory table (used_pages s) (total_pages s)
    → Exhausted s (get_free_page s)
get_free_page-Exhausted s v t = elim (get_free_page_lem s v) [
  | inl k ↦ k
  | inr (i, k) ↦ absurd (t i k.first.lower k.first.upper k.first.free)
]
