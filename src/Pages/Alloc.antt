-- ===== src/Pages/Alloc.antt =====
-- get_free_page: what it returns, what it changes, and that it keeps the invariant.
use fun_size_os.Base.{
  ℕ, ◌+◌, ◌-◌, ◌^◌, ◌≤◌, ◌≡◌, ◌⊎◌, inl, inr, refl, Option, none, some, arith, ap, Option-cases,
}
use fun_size_os.Memory.{store8}
use fun_size_os.Machine.{printk}
use fun_size_os.Pages.{Pages, null, find_loop, grant, get_free_page}
use fun_size_os.Pages.Table.{marks-le, FirstFree, AllTaken, find_loop-some, find_loop-none}
use fun_size_os.Pages.Inv.{IsReady, table, page_at, total_pages, used_pages}

-- `t` is `s` but for the byte of page `i`, the counter, and what printk leaves.
pub record Marked (s : Pages) (i b used : ℕ) (t : Pages) : Type 0 where
  pub memory : t.machine.memory ≡ store8 s.machine.memory (table + i) b
  pub ports : t.machine.ports ≡ s.machine.ports
  pub info : t.physics_memory ≡ s.physics_memory
  pub table_map : t.physics_memory_map ≡ record s.physics_memory_map { bitmap_item_used = used }

-- The page that the scan from the counter finds first.
pub record Allocated (s : Pages) (i : ℕ) (out : ℕ × Pages) : Type 0 where
  pub first : FirstFree s.machine.memory table (used_pages s) (total_pages s) i
  pub address : out.0 ≡ page_at i
  pub marked : Marked s i 1 (used_pages s + 1) out.1

-- Nothing is free from the counter on: NULL, and the table as it was.
pub record Exhausted (s : Pages) (out : ℕ × Pages) : Type 0 where
  pub taken : AllTaken s.machine.memory table (used_pages s) (total_pages s)
  pub address : out.0 ≡ null
  pub memory : out.1.machine.memory ≡ s.machine.memory
  pub info : out.1.physics_memory ≡ s.physics_memory
  pub table_map : out.1.physics_memory_map ≡ s.physics_memory_map

module _ (s : Pages) (v : IsReady s) where
  pub used-le : used_pages s ≤ total_pages s
  used-le = omega (arith, v.counted, marks-le s.machine.memory table (total_pages s) v.flags)

  fits : table + total_pages s ≤ 2 ^ 32
  fits = omega (arith, v.room, v.end_small)

  grant-Allocated :
      (i : ℕ)
      → FirstFree s.machine.memory table (used_pages s) (total_pages s) i
      → Allocated s i (grant s (some i))
  unfolding grant printk
  grant-Allocated i f = record {
    first = f;
    address = omega (arith, v.base, v.room, v.end_small, f.upper);
    marked = record {
      memory =
          ap (λ a. store8 s.machine.memory a 1)
            (omega (arith, v.map_at, v.room, v.end_small, f.upper));
      ports = refl;
      info = refl;
      table_map =
          ap (λ n. record s.physics_memory_map { bitmap_item_used = n })
            (omega (arith, v.room, v.end_small, used-le));
    };
  }

  grant-Exhausted :
      AllTaken s.machine.memory table (used_pages s) (total_pages s) → Exhausted s (grant s none)
  unfolding grant printk
  grant-Exhausted taken = record {
    taken = taken;
    address = refl;
    memory = refl;
    info = refl;
    table_map = refl;
  }

  scan : ℕ → Option ℕ
  scan map = find_loop (total_pages s - used_pages s) (used_pages s) s.machine.memory map

  get_free_page-grant : get_free_page s ≡ grant s (scan table)
  unfolding get_free_page scan
  get_free_page-grant = ap (λ map. grant s (scan map)) v.map_at

  -- On a valid page table get_free_page either finds nothing free from the counter on, returns NULL
  -- and leaves the memory and both records as they were, or marks the first free page from the
  -- counter on, adds one to the counter, returns that page's address and changes no other byte of
  -- memory.
  pub get_free_page_lem :
      Exhausted s (get_free_page s) ⊎ ((i : ℕ) × Allocated s i (get_free_page s))
  unfolding scan
  get_free_page_lem =
      let rounds : used_pages s + (total_pages s - used_pages s) ≡ total_pages s =
        omega (arith, used-le) in
      rw get_free_page-grant (elim (Option-cases (scan table)) [
        | inl e ↦ rw e (
            inl (
              grant-Exhausted (
                find_loop-none s.machine.memory table (total_pages s) fits
                  (total_pages s - used_pages s) (used_pages s) rounds e)))
        | inr (i, e) ↦ rw e (
            inr (
              i,
              grant-Allocated i (
                  find_loop-some s.machine.memory table (total_pages s) fits
                    (total_pages s - used_pages s) (used_pages s) i rounds e),
            ))
      ])
