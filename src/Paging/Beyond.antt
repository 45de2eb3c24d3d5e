-- ===== src/Paging/Beyond.antt =====
-- What virtual_memory_init leaves behind the first 4 MB.
use fun_size_os.Base.{
  ℕ, zero, suc, ◌+◌, ◌*◌, ◌/◌, ◌%◌, ◌^◌, ◌≤◌, ◌<◌, ◌≡◌, ◌∙◌, ap, arith, inl, inr, ◌==◌, ne→==, u32,
  sym, Bool-cases, ==_iff,
}
use fun_size_os.Memory.{Memory, store32, load32, load16, load32-store32_self}
use fun_size_os.Machine.{printk, cli, sti}
use fun_size_os.CString.{memset}
use fun_size_os.CString.Block.{memset_lem}
use fun_size_os.Pages.{page_size}
use fun_size_os.Paging.{
  Paging, pdt_start_addr, set_cr3, enable_page, entry, ptt_at, directory_loop, virtual_memory_init,
}
use fun_size_os.Paging.Identity.{
  directory_loop_outside, directory_loop-first, first_round, other_table, directory_entry,
  table_entry,
}

directory_loop_inside :
    (n i : ℕ) (m : Memory) (j : ℕ)
    → 1 ≤ i
    → i ≤ j
    → j < i + n
    → load32 (directory_loop n i m) (pdt_start_addr + 4 * j) ≡ u32 (entry (ptt_at j))
unfolding directory_loop
directory_loop_inside zero i m j later from until = absurd (omega arith)
directory_loop_inside (suc n) i m j later from until =
    let m' = store32 m (pdt_start_addr + 4 * i) (entry (ptt_at i)) in
    rw (ne→== i 0 (omega arith)) (elim (Bool-cases (i == j)) [
      | inl e ↦
          let same : i ≡ j = (==_iff i j).0 e in
          ap (λ k. load32 (directory_loop n (suc i) m') (pdt_start_addr + 4 * k)) (sym same)
          ∙ directory_loop_outside n (suc i) m' (pdt_start_addr + 4 * i) (omega arith)
              (inl (omega arith))
          ∙ load32-store32_self m (pdt_start_addr + 4 * i) (entry (ptt_at i))
          ∙ ap (λ k. u32 (entry (ptt_at k))) same
      | inr e ↦ directory_loop_inside n (suc i) m' j (omega arith) (ground (arith, e)) (omega arith)
    ])

module _ (m : Memory) where
  later_directory_entry :
      (j : ℕ)
      → 1 ≤ j
      → j < 4
      → load32 (directory_loop 4 0 m) (pdt_start_addr + 4 * j) ≡ u32 (entry (ptt_at j))
  later_directory_entry j from until =
      ap (λ r. load32 r (pdt_start_addr + 4 * j)) (directory_loop-first 3 m)
      ∙ directory_loop_inside 3 1 (first_round m) j (omega arith) from (omega arith)

memset_outside : (m : Memory) (s n b : ℕ) → s + n ≤ b → memset m s 0 n b ≡ m b
memset_outside m s n b h = memset_lem m s 0 n b ∙ ground arith

load32-memset : (m : Memory) (s n a : ℕ) → s + n ≤ a → load32 (memset m s 0 n) a ≡ load32 m a
unfolding load32 load16
load32-memset m s n a h = omega (
  arith,
  memset_outside m s n a h,
  memset_outside m s n (a + 1) (omega arith),
  memset_outside m s n (a + 2) (omega arith),
  memset_outside m s n (a + 2 + 1) (omega arith),
)

-- For an address from 4 MB to below 16 MB, virtual_memory_init lists a page table, and leaves that
-- table's entry of the address as the memory held it before.
pub virtual_memory_init_unset :
    (p : Paging) (a : ℕ)
    → 2 ^ 22 ≤ a
    → a < 2 ^ 24
    → let q = virtual_memory_init p in
      (directory_entry q a ≡ entry (ptt_at (a / 2 ^ 22)))
      × (table_entry q a ≡ load32 p.machine.memory (ptt_at (a / 2 ^ 22) + 4 * (a / 4096 % 1024)))
unfolding virtual_memory_init set_cr3 enable_page printk cli sti
virtual_memory_init_unset p a from until =
    let m = p.machine.memory in
    let cleared = memset m pdt_start_addr 0 page_size in
    let q = virtual_memory_init p in
    let i : ℕ = a / 2 ^ 22 in
    let at : ℕ = ptt_at i + 4 * (a / 4096 % 1024) in
    let listed : directory_entry q a ≡ entry (ptt_at i) =
      later_directory_entry cleared i (omega arith) (omega arith) ∙ omega arith in
    (
      listed,
      ap (λ b. load32 (directory_loop 4 0 cleared) b) (omega (arith, listed))
          ∙ other_table cleared at (omega arith)
          ∙ load32-memset m pdt_start_addr page_size at (omega arith),
    )
