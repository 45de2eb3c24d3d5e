-- ===== src/Paging/Identity.antt =====
-- The first 4 MB are mapped to themselves.
use fun_size_os.Base.{
  ℕ, zero, suc, ◌+◌, ◌*◌, ◌/◌, ◌%◌, ◌^◌, ◌≤◌, ◌<◌, ◌≡◌, ◌⊎◌, refl, ◌∙◌, ap, arith, inl, inr, ◌==◌,
  ne→==, u32, sym, Bool-cases, ==_iff,
}
use fun_size_os.Memory.{Memory, store32, load32, load32-store32_ne, load32-store32_self}
use fun_size_os.Machine.{printk, cli, sti}
use fun_size_os.CString.{memset}
use fun_size_os.Pages.{page_size}
use fun_size_os.Paging.{
  Paging, pdt_start_addr, set_cr3, enable_page, entry, ptt_at, fill_table, directory_loop,
  virtual_memory_init,
}

pub fill_table_outside :
    (n ptt j : ℕ) (m : Memory) (a : ℕ)
    → (a + 4 ≤ ptt + 4 * j) ⊎ (ptt + 4 * (j + n) ≤ a)
    → load32 (fill_table n ptt j m) a ≡ load32 m a
unfolding fill_table
fill_table_outside zero ptt j m a out = refl
fill_table_outside (suc n) ptt j m a out =
    fill_table_outside n ptt (suc j) (store32 m (ptt + 4 * j) (entry (j * 0x1000))) a (omega arith)
    ∙ load32-store32_ne m (ptt + 4 * j) (entry (j * 0x1000)) a (omega arith)

fill_table_inside :
    (n ptt j : ℕ) (m : Memory) (k : ℕ)
    → j ≤ k
    → k < j + n
    → load32 (fill_table n ptt j m) (ptt + 4 * k) ≡ u32 (entry (k * 0x1000))
unfolding fill_table
fill_table_inside zero ptt j m k from until = absurd (omega arith)
fill_table_inside (suc n) ptt j m k from until =
    let m' = store32 m (ptt + 4 * j) (entry (j * 0x1000)) in
    elim (Bool-cases (j == k)) [
      | inl e ↦
          let same : j ≡ k = (==_iff j k).0 e in
          ap (λ i. load32 (fill_table n ptt (suc j) m') (ptt + 4 * i)) (sym same)
          ∙ fill_table_outside n ptt (suc j) m' (ptt + 4 * j) (inl (omega arith))
          ∙ load32-store32_self m (ptt + 4 * j) (entry (j * 0x1000))
          ∙ ap (λ i. u32 (entry (i * 0x1000))) same
      | inr e ↦ fill_table_inside n ptt (suc j) m' k (ground (arith, e)) (omega arith)
    ]

pub directory_loop_outside :
    (n i : ℕ) (m : Memory) (a : ℕ)
    → 1 ≤ i
    → (a + 4 ≤ pdt_start_addr + 4 * i) ⊎ (pdt_start_addr + 4 * (i + n) ≤ a)
    → load32 (directory_loop n i m) a ≡ load32 m a
unfolding directory_loop
directory_loop_outside zero i m a later out = refl
directory_loop_outside (suc n) i m a later out = rw (ne→== i 0 (omega arith)) (
    directory_loop_outside n (suc i) (store32 m (pdt_start_addr + 4 * i) (entry (ptt_at i))) a
      (omega arith) (omega arith)
    ∙ load32-store32_ne m (pdt_start_addr + 4 * i) (entry (ptt_at i)) a (omega arith))

-- The directory after its first round.
unfoldable pub first_round : Memory → Memory
first_round m = fill_table 0x400 (ptt_at 0) 0 (store32 m pdt_start_addr (entry (ptt_at 0)))

pub directory_loop-first :
    (n : ℕ) (m : Memory) → directory_loop (suc n) 0 m ≡ directory_loop n 1 (first_round m)
unfolding directory_loop first_round
directory_loop-first n m = refl

module _ (m : Memory) where
  first_directory_entry : load32 (directory_loop 4 0 m) pdt_start_addr ≡ u32 (entry (ptt_at 0))
  unfolding first_round
  first_directory_entry =
      ap (λ r. load32 r pdt_start_addr) (directory_loop-first 3 m)
      ∙ directory_loop_outside 3 1 (first_round m) pdt_start_addr (omega arith) (inl (omega arith))
      ∙ fill_table_outside 0x400 (ptt_at 0) 0 (store32 m pdt_start_addr (entry (ptt_at 0)))
          pdt_start_addr (inl (omega arith))
      ∙ load32-store32_self m pdt_start_addr (entry (ptt_at 0))

  first_table_entry :
      (k : ℕ)
      → k < 0x400
      → load32 (directory_loop 4 0 m) (ptt_at 0 + 4 * k) ≡ u32 (entry (k * 0x1000))
  unfolding first_round
  first_table_entry k h =
      ap (λ r. load32 r (ptt_at 0 + 4 * k)) (directory_loop-first 3 m)
      ∙ directory_loop_outside 3 1 (first_round m) (ptt_at 0 + 4 * k) (omega arith)
          (inr (omega arith))
      ∙ fill_table_inside 0x400 (ptt_at 0) 0 (store32 m pdt_start_addr (entry (ptt_at 0))) k
          (omega arith) (omega arith)

  -- The other tables are listed, but keep what the memory held.
  pub other_table : (a : ℕ) → ptt_at 1 ≤ a → load32 (directory_loop 4 0 m) a ≡ load32 m a
  unfolding first_round
  other_table a h =
      ap (λ r. load32 r a) (directory_loop-first 3 m)
      ∙ directory_loop_outside 3 1 (first_round m) a (omega arith) (inr (omega arith))
      ∙ fill_table_outside 0x400 (ptt_at 0) 0 (store32 m pdt_start_addr (entry (ptt_at 0))) a
          (inr (omega arith))
      ∙ load32-store32_ne m pdt_start_addr (entry (ptt_at 0)) a (inr (omega arith))

-- The walk of the processor from cr3 on, through entries that are present.
abbrev pub directory_entry : Paging → ℕ → ℕ
directory_entry p a = load32 p.machine.memory (p.cr3 + 4 * (a / 2 ^ 22))

abbrev pub table_entry : Paging → ℕ → ℕ
table_entry p a =
    load32 p.machine.memory (directory_entry p a / 4096 * 4096 + 4 * (a / 4096 % 1024))

abbrev pub translate : Paging → ℕ → ℕ
translate p a = table_entry p a / 4096 * 4096 + a % 4096

-- After virtual_memory_init the walk from cr3 through the page directory and the page table finds
-- both entries of an address below 4 MB present, and translates the address to itself.
pub virtual_memory_init_identity :
    (p : Paging) (a : ℕ)
    → a < 2 ^ 22
    → let q = virtual_memory_init p in
      (directory_entry q a % 2 ≡ 1) × (table_entry q a % 2 ≡ 1) × (translate q a ≡ a)
unfolding virtual_memory_init set_cr3 enable_page printk cli sti
virtual_memory_init_identity p a h =
    let cleared = memset p.machine.memory pdt_start_addr 0 page_size in
    let q = virtual_memory_init p in
    let k : ℕ = a / 4096 % 1024 in
    let listed : directory_entry q a ≡ 0x2_1007 =
      ap (λ b. load32 (directory_loop 4 0 cleared) b) (omega arith)
      ∙ first_directory_entry cleared in
    let filled : table_entry q a ≡ u32 (entry (k * 0x1000)) =
      ap (λ b. load32 (directory_loop 4 0 cleared) b) (omega (arith, listed))
      ∙ first_table_entry cleared k (omega arith) in
    (omega (arith, listed), omega (arith, filled), omega (arith, filled))
