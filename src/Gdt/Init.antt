-- ===== src/Gdt/Init.antt =====
-- gdt_init as a whole: the boot code's descriptors, the two new ones, and the register.
use fun_size_os.Base.{ℕ, ◌+◌, ◌-◌, ◌*◌, ◌≤◌, ◌<◌, ◌≡◌, ◌⊎◌, arith, refl, inl, u8, ◌∙◌}
use fun_size_os.Memory.{Memory}
use fun_size_os.CString.Block.{memcpy_inside, memcpy_outside}
use fun_size_os.Gdt.{
  Gdt, put_item, r3_gdt_code_item, r3_gdt_data_item, size_of_limit, copy_table, load_table,
  gdt_init, gdt_size,
}
use fun_size_os.Gdt.Item.{IsUserSegment, put_item_lem}

-- A descriptor depends on its own eight bytes.
pub IsUserSegment-frame :
    (m m' : Memory) (a kind base limit : ℕ)
    → ((c : ℕ) → a ≤ c → c < a + 8 → m' c ≡ m c)
    → IsUserSegment m a kind base limit
    → IsUserSegment m' a kind base limit
IsUserSegment-frame m m' a kind base limit same d =
    let at0 = same a (omega arith) (omega arith) in
    let at1 = same (a + 1) (omega arith) (omega arith) in
    let at2 = same (a + 2) (omega arith) (omega arith) in
    let at3 = same (a + 3) (omega arith) (omega arith) in
    let at4 = same (a + 4) (omega arith) (omega arith) in
    let at5 = same (a + 5) (omega arith) (omega arith) in
    let at6 = same (a + 6) (omega arith) (omega arith) in
    let at7 = same (a + 7) (omega arith) (omega arith) in
    record {
      base_is = omega (arith, d.base_is);
      limit_is = omega (arith, d.limit_is);
      access_is = omega (arith, d.access_is);
      sizes_is = omega (arith, d.sizes_is);
    }

pub record IsMoved (g g' : Gdt) : Type 0 where
  pub kept :
      (i : ℕ)
      → i < g.gdtr.limit
      → g'.machine.memory (g.gdt + i) ≡ u8 (g.machine.memory (g.gdtr.base + i))
  pub code : IsUserSegment g'.machine.memory (g.gdt + 8 * 4) 0b1000 0 0xf_ffff
  pub datas : IsUserSegment g'.machine.memory (g.gdt + 8 * 5) 0b0010 0 0xf_ffff
  pub outside :
      (c : ℕ) → (c < g.gdt) ⊎ (g.gdt + 8 * 6 ≤ c) → g'.machine.memory c ≡ g.machine.memory c
  pub loaded : g'.gdtr ≡ record { limit = 8 * gdt_size - 1; base = g.gdt }
  pub selectors : (g'.r3_code_selector ≡ 8 * 4 + 3) × (g'.r3_data_selector ≡ 8 * 5 + 3)

module _ (g : Gdt) (short : g.gdtr.limit ≤ 8 * 4) where
  size_is : size_of_limit g.gdtr.limit ≡ g.gdtr.limit
  unfolding size_of_limit
  size_is = ground arith

  copied_inside :
      (i : ℕ)
      → (g.gdt ≤ g.gdtr.base) ⊎ (g.gdtr.base + g.gdtr.limit ≤ g.gdt)
      → i < g.gdtr.limit
      → (copy_table g).machine.memory (g.gdt + i) ≡ u8 (g.machine.memory (g.gdtr.base + i))
  unfolding copy_table
  copied_inside i apart h = rw size_is (
      memcpy_inside g.machine.memory g.gdt g.gdtr.base g.gdtr.limit i (g.gdt + i) (g.gdtr.base + i)
        apart h refl refl)

  copied_outside :
      (c : ℕ)
      → (c < g.gdt) ⊎ (g.gdt + 8 * 4 ≤ c)
      → (copy_table g).machine.memory c ≡ g.machine.memory c
  unfolding copy_table
  copied_outside c out =
      rw size_is (memcpy_outside g.machine.memory g.gdt g.gdtr.base g.gdtr.limit c (omega arith))

-- If the boot code's table has a limit of at most 32 and does not overwrite itself in the copy,
-- gdt_init copies its first bytes, as many as the limit says, writes present code and data
-- segments of privilege 3 that span 4 GB into entries 4 and 5, loads the new table with the limit
-- of 256 entries, sets the two selectors to these entries with privilege 3, and changes no byte
-- outside the first 6 entries.
pub gdt_init_lem :
    (g : Gdt)
    → g.gdtr.limit ≤ 8 * 4
    → (g.gdt ≤ g.gdtr.base) ⊎ (g.gdtr.base + g.gdtr.limit ≤ g.gdt)
    → IsMoved g (gdt_init g)
unfolding gdt_init load_table r3_gdt_code_item r3_gdt_data_item copy_table put_item
gdt_init_lem g short apart =
    let g1 = copy_table g in
    let g2 = put_item 0b1000 4 0 0xf_ffff g1 in
    let step2 =
      put_item_lem 0b1000 4 0 0xf_ffff g1 (omega arith) (omega arith) (omega arith) (omega arith)
        (omega arith) in
    let step3 =
      put_item_lem 0b0010 5 0 0xf_ffff g2 (omega arith) (omega arith) (omega arith) (omega arith)
        (omega arith) in
    record {
      kept = λ i h.
          step3.1 (g.gdt + i) (inl (omega arith))
          ∙ step2.1 (g.gdt + i) (inl (omega arith))
          ∙ copied_inside g short i apart h;
      code =
          IsUserSegment-frame g2.machine.memory (put_item 0b0010 5 0 0xf_ffff g2).machine.memory
            (g.gdt + 8 * 4) 0b1000 0 0xf_ffff (λ c p q. step3.1 c (inl (omega arith))) step2.0;
      datas = step3.0;
      outside = λ c out.
          step3.1 c (omega arith)
          ∙ step2.1 c (omega arith)
          ∙ copied_outside g short c (omega arith);
      loaded = refl;
      selectors = (refl, refl);
    }
