-- ===== src/Gdt/Item.antt =====
-- What the processor reads in a descriptor that the kernel writes.
use fun_size_os.Base.{
  ℕ, ◌+◌, ◌*◌, ◌/◌, ◌%◌, ◌^◌, ◌≤◌, ◌<◌, ◌≡◌, ◌⊎◌, arith, refl, u8, get_or, ltb, leb, false, ◌||◌,
}
use fun_size_os.Memory.{Memory, store_all, store_all_inside, store_all_outside}
use fun_size_os.Gdt.{Gdt, item_bytes, r3_item, put_item}

-- Base, limit and access of the descriptor at `a`, as the processor puts them together.
abbrev pub base_of : Memory → ℕ → ℕ
base_of m a = m (a + 2) + m (a + 3) * 2 ^ 8 + m (a + 4) * 2 ^ 16 + m (a + 7) * 2 ^ 24

abbrev pub limit_of : Memory → ℕ → ℕ
limit_of m a = m a + m (a + 1) * 2 ^ 8 + m (a + 6) % 2 ^ 4 * 2 ^ 16

abbrev pub access_of : Memory → ℕ → ℕ
access_of m a = m (a + 5)

abbrev pub sizes_of : Memory → ℕ → ℕ
sizes_of m a = m (a + 6) / 2 ^ 4

-- A present code or data segment of privilege 3, of 32 bits and counted in pages.
pub record IsUserSegment (m : Memory) (a kind base limit : ℕ) : Type 0 where
  pub base_is : base_of m a ≡ base
  pub limit_is : limit_of m a ≡ limit
  pub access_is : access_of m a ≡ 0b1111_0000 + kind
  pub sizes_is : sizes_of m a ≡ 0b1100

module _ (m : Memory) (a kind base limit : ℕ) where
  written : Memory
  written = store_all m a (item_bytes (r3_item kind base limit))

  byte_at :
      (i : ℕ) → i < 8 → written (a + i) ≡ u8 (get_or (item_bytes (r3_item kind base limit)) i 0)
  unfolding written item_bytes
  byte_at i h = store_all_inside m a (item_bytes (r3_item kind base limit)) i (a + i) h refl

  first_byte : written a ≡ u8 (get_or (item_bytes (r3_item kind base limit)) 0 0)
  unfolding written item_bytes
  first_byte =
      store_all_inside m a (item_bytes (r3_item kind base limit)) 0 a (omega arith) (omega arith)

  written-IsUserSegment :
      kind < 2 ^ 4 → base < 2 ^ 32 → limit < 2 ^ 20 → IsUserSegment written a kind base limit
  unfolding item_bytes r3_item
  written-IsUserSegment small b l = record {
    base_is = omega (
      arith,
      byte_at 2 (omega arith),
      byte_at 3 (omega arith),
      byte_at 4 (omega arith),
      byte_at 7 (omega arith),
    );
    limit_is = omega (arith, first_byte, byte_at 1 (omega arith), byte_at 6 (omega arith));
    access_is = omega (arith, byte_at 5 (omega arith));
    sizes_is = omega (arith, byte_at 6 (omega arith));
  }

  written_outside : (c : ℕ) → (c < a) ⊎ (a + 8 ≤ c) → written c ≡ m c
  unfolding written item_bytes
  written_outside c out = store_all_outside m a (item_bytes (r3_item kind base limit)) c out

low_index : (i : ℕ) → 4 ≤ i → i < 2 ^ 31 → (leb (2 ^ 31) i || ltb i 4) ≡ false
low_index i lower upper = ground arith

-- For an index from 4 and below 2 ^ 31, a type below 16, a 32-bit base and a 20-bit limit, the
-- eight bytes that put_item writes decode to a present segment of that type, base and limit, with
-- privilege 3 and 4 KB granularity, and no other byte is changed.
pub put_item_lem :
    (kind gdt_index base limit : ℕ) (g : Gdt)
    → kind < 2 ^ 4
    → 4 ≤ gdt_index
    → gdt_index < 2 ^ 31
    → base < 2 ^ 32
    → limit < 2 ^ 20
    → let g' = put_item kind gdt_index base limit g in
      let a = g.gdt + 8 * gdt_index in
      IsUserSegment g'.machine.memory a kind base limit
      × ((c : ℕ) → (c < a) ⊎ (a + 8 ≤ c) → g'.machine.memory c ≡ g.machine.memory c)
unfolding put_item written
put_item_lem kind gdt_index base limit g small lower upper b l =
    let a : ℕ = g.gdt + 8 * gdt_index in
    let m = g.machine.memory in
    rw (low_index gdt_index lower upper)
      (written-IsUserSegment m a kind base limit small b l, written_outside m a kind base limit)
