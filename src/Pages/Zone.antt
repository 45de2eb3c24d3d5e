-- ===== src/Pages/Zone.antt =====
-- The BIOS table depends on its own bytes, and setting the page table up writes nothing but the table.
use mathlib.Core.Path.{subst}
use fun_size_os.Base.{
  ℕ, ◌+◌, ◌*◌, ◌≤◌, ◌<◌, ◌≡◌, ◌⊎◌, inl, inr, refl, true, sym, arith, not, Bool-cases, ◌==◌,
}
use fun_size_os.Memory.{Memory, load16-frame, load32-frame}
use fun_size_os.Machine.{printk, cli, sti}
use fun_size_os.CString.Block.{memset_lem}
use fun_size_os.Pages.{
  Pages, valid_memory_from, ards_addr, item, times, init_loop, no_valid_memory, memory_init,
  memory_map_int,
}
use fun_size_os.Pages.Init.{IsZone, FirstZone}
use fun_size_os.Pages.Inv.{table, total_pages}

module _ (m m' : Memory) where
  pub item-frame :
      (j : ℕ)
      → ((c : ℕ) → ards_addr + 2 + j * 20 ≤ c → c < ards_addr + 2 + j * 20 + 20 → m' c ≡ m c)
      → item m' j ≡ item m j
  unfolding item
  item-frame j same =
      let at : ℕ = ards_addr + 2 + j * 20 in
      rw
        (
          load32-frame m m' at (λ c p q. same c p (omega arith)),
          load32-frame m m' (at + 4) (λ c p q. same c (omega arith) (omega arith)),
          load32-frame m m' (at + 8) (λ c p q. same c (omega arith) (omega arith)),
          load32-frame m m' (at + 12) (λ c p q. same c (omega arith) (omega arith)),
          load32-frame m m' (at + 16) (λ c p q. same c (omega arith) (omega arith)),
        )
        refl

  pub times-frame : ((c : ℕ) → ards_addr ≤ c → c < ards_addr + 2 → m' c ≡ m c) → times m' ≡ times m
  unfolding times
  times-frame same = load16-frame m m' ards_addr same

  pub FirstZone-frame :
      (k : ℕ)
      → ((c : ℕ) → ards_addr ≤ c → c < ards_addr + 2 + k * 20 + 20 → m' c ≡ m c)
      → FirstZone m (times m) k
      → FirstZone m' (times m') k
  FirstZone-frame k same f =
      let at = λ (j : ℕ) (h : j ≤ k). item-frame j (λ c p q. same c (omega arith) (omega arith)) in
      record {
        listed = omega (arith, f.listed, times-frame (λ c p q. same c p (omega arith)));
        zone = subst IsZone (sym (at k (omega arith))) f.zone;
        earlier = λ j h z. f.earlier j h (subst IsZone (at j (omega arith)) z);
      }

pub memory_init-memory : (s : Pages) → (memory_init s).machine.memory ≡ s.machine.memory
unfolding memory_init no_valid_memory printk cli sti
memory_init-memory s =
    let info = init_loop (times s.machine.memory) 0 s.machine.memory s.physics_memory in
    elim (Bool-cases (not (valid_memory_from == info.addr_start))) [
      | inl e ↦ rw e refl
      | inr e ↦ rw e refl
    ]

pub memory_map_int_outside :
    (s : Pages) (a : ℕ)
    → (a < table) ⊎ (table + total_pages s ≤ a)
    → (memory_map_int s).machine.memory a ≡ s.machine.memory a
unfolding memory_map_int no_valid_memory printk cli sti
memory_map_int_outside s a out =
    elim (Bool-cases (not (valid_memory_from == s.physics_memory.addr_start))) [
      | inl e ↦ rw e refl
      | inr e ↦ rw e (ground (arith, memset_lem s.machine.memory table 0 (total_pages s) a))
    ]

pub memory_map_int-total : (s : Pages) → total_pages (memory_map_int s) ≡ total_pages s
unfolding memory_map_int no_valid_memory
memory_map_int-total s =
    elim (Bool-cases (not (valid_memory_from == s.physics_memory.addr_start))) [
      | inl e ↦ rw e refl
      | inr e ↦ rw e refl
    ]

pub memory_init-interrupts :
    (s : Pages) → s.machine.interrupts ≡ true → (memory_init s).machine.interrupts ≡ true
unfolding memory_init no_valid_memory printk cli sti
memory_init-interrupts s on =
    let info = init_loop (times s.machine.memory) 0 s.machine.memory s.physics_memory in
    elim (Bool-cases (not (valid_memory_from == info.addr_start))) [
      | inl e ↦ rw e refl
      | inr e ↦ rw e on
    ]

pub memory_map_int-interrupts :
    (s : Pages) → s.machine.interrupts ≡ true → (memory_map_int s).machine.interrupts ≡ true
unfolding memory_map_int no_valid_memory printk cli sti
memory_map_int-interrupts s on =
    elim (Bool-cases (not (valid_memory_from == s.physics_memory.addr_start))) [
      | inl e ↦ rw e refl
      | inr e ↦ rw e on
    ]
