-- ===== src/Console/Scroll.antt =====
-- What console_clear and scroll_up write to the video memory.
use fun_size_os.Base.{
  ℕ, zero, suc, ◌+◌, ◌*◌, ◌≤◌, ◌<◌, ◌≡◌, ◌⊎◌, inl, refl, arith, true, false, lt→ltb, le→ltb, ltb,
  u8, add32, ◌∙◌, ap,
}
use fun_size_os.Memory.{
  Memory, load16, load32, store16, store32, store16_ne, store32_ne, load16-store16_self,
  load32-store32_self,
}
use fun_size_os.Machine.{out_byte}
use fun_size_os.CString.Block.{memcpy_inside}
use fun_size_os.Console.{
  Console, mem_base, mem_end, mem_size, row_size, scr_size, blank, set_register, set_screen,
  set_cursor, fill16, fill32, console_clear, scroll_up,
}
use fun_size_os.Console.Inv.{IsOnScreen}

fill32_outside : (n p : ℕ) (m : Memory) (a : ℕ) → (a < p) ⊎ (p + 4 * n ≤ a) → fill32 n p m a ≡ m a
unfolding fill32
fill32_outside zero p m a out = refl
fill32_outside (suc n) p m a out =
    fill32_outside n (p + 4) (store32 m p blank) a (omega arith)
    ∙ store32_ne m p blank a (omega arith)

fill16_outside : (n p : ℕ) (m : Memory) (a : ℕ) → (a < p) ⊎ (p + 2 * n ≤ a) → fill16 n p m a ≡ m a
unfolding fill16
fill16_outside zero p m a out = refl
fill16_outside (suc n) p m a out =
    fill16_outside n (p + 2) (store16 m p blank) a (omega arith)
    ∙ store16_ne m p blank a (omega arith)

-- Two memories that agree on a word load the same from it.
load32_same :
    (m m' : Memory) (a : ℕ) → ((b : ℕ) → a ≤ b → b < a + 4 → m' b ≡ m b) → load32 m' a ≡ load32 m a
unfolding load32 load16
load32_same m m' a same = ground (arith, same a, same (a + 1), same (a + 2), same (a + 2 + 1))

load16_same :
    (m m' : Memory) (a : ℕ) → ((b : ℕ) → a ≤ b → b < a + 2 → m' b ≡ m b) → load16 m' a ≡ load16 m a
unfolding load16
load16_same m m' a same = ground (arith, same a, same (a + 1))

fill32_inside :
    (n p : ℕ) (m : Memory) (i a : ℕ) → i < n → a ≡ p + 4 * i → load32 (fill32 n p m) a ≡ blank
unfolding fill32
fill32_inside zero p m i a h e = absurd (omega arith)
fill32_inside (suc n) p m zero a h e =
    let at : a ≡ p = omega arith in
    rw at (
      load32_same (store32 m p blank) (fill32 n (p + 4) (store32 m p blank)) p
        (λ b q r. fill32_outside n (p + 4) (store32 m p blank) b (omega arith))
      ∙ load32-store32_self m p blank)
fill32_inside (suc n) p m (suc i) a h e =
    fill32_inside n (p + 4) (store32 m p blank) i a (omega arith) (omega arith)

fill16_inside :
    (n p : ℕ) (m : Memory) (i a : ℕ) → i < n → a ≡ p + 2 * i → load16 (fill16 n p m) a ≡ blank
unfolding fill16
fill16_inside zero p m i a h e = absurd (omega arith)
fill16_inside (suc n) p m zero a h e =
    let at : a ≡ p = omega arith in
    rw at (
      load16_same (store16 m p blank) (fill16 n (p + 2) (store16 m p blank)) p
        (λ b q r. fill16_outside n (p + 2) (store16 m p blank) b (omega arith))
      ∙ load16-store16_self m p blank)
fill16_inside (suc n) p m (suc i) a h e =
    fill16_inside n (p + 2) (store16 m p blank) i a (omega arith) (omega arith)

-- console_clear sets every cell of the video memory to 0x720 and changes no other byte of memory.
pub console_clear-blank :
    (c : Console)
    → ((i : ℕ)
        → 2 * i < mem_size
        → load16 (console_clear c).machine.memory (mem_base + 2 * i) ≡ blank)
      × ((a : ℕ)
          → (a < mem_base) ⊎ (mem_end ≤ a)
          → (console_clear c).machine.memory a ≡ c.machine.memory a)
unfolding console_clear set_screen set_cursor set_register out_byte
console_clear-blank c = (
  λ i h. fill16_inside 8192 mem_base c.machine.memory i (mem_base + 2 * i) (omega arith) refl,
  λ a out. fill16_outside 8192 mem_base c.machine.memory a (omega arith),
)

-- From a cursor on the screen, and where the video memory has another row, scroll_up moves screen
-- and cursor on by one row; the 80 words behind the old screen become 0x720 each, and no other
-- byte of memory changes.
pub scroll_up_row :
    (c : Console)
    → IsOnScreen c
    → c.screen + scr_size + row_size < mem_end
    → let c' = scroll_up c in
      (c'.screen ≡ c.screen + row_size)
      × (c'.pos ≡ c.pos + row_size)
      × ((a : ℕ)
          → (a < c.screen + scr_size) ⊎ (c.screen + scr_size + 320 ≤ a)
          → c'.machine.memory a ≡ c.machine.memory a)
      × ((i : ℕ) → i < 80 → load32 c'.machine.memory (c.screen + scr_size + 4 * i) ≡ blank)
unfolding scroll_up set_screen set_register out_byte
scroll_up_row c v more =
    let tests : ltb (add32 (add32 c.screen scr_size) row_size) mem_end ≡ true =
      lt→ltb _ _ (omega arith) in
    let at : add32 c.screen scr_size ≡ c.screen + scr_size = omega arith in
    rw (tests, at)
      (
        omega arith,
        omega arith,
        λ a out. fill32_outside 80 (c.screen + scr_size) c.machine.memory a (omega arith),
        λ i h. fill32_inside 80 (c.screen + scr_size) c.machine.memory i _ h refl,
      )

-- From a cursor on the screen at the end of the video memory, scroll_up copies the whole screen to
-- the start of the video memory byte by byte and moves the cursor with it: the picture and the
-- cursor's place in it stay the same, and no row is dropped.
pub scroll_up_wrap :
    (c : Console)
    → IsOnScreen c
    → mem_end ≤ c.screen + scr_size + row_size
    → let c' = scroll_up c in
      (c'.screen ≡ mem_base)
      × (c'.pos + c.screen ≡ c.pos + mem_base)
      × ((o : ℕ)
          → o < scr_size
          → c'.machine.memory (mem_base + o) ≡ u8 (c.machine.memory (c.screen + o)))
unfolding scroll_up set_screen set_register out_byte
scroll_up_wrap c v full =
    let tests : ltb (add32 (add32 c.screen scr_size) row_size) mem_end ≡ false =
      le→ltb _ _ (omega arith) in
    rw tests (
      refl,
      omega arith,
      λ o h.
          memcpy_inside c.machine.memory mem_base c.screen scr_size o _ _ (inl v.from) h refl refl,
    )

-- From the last screen position that still has a next row, scroll_up writes a word behind the end
-- of the video memory.
pub scroll_up_overrun :
    (c : Console)
    → IsOnScreen c
    → c.screen + scr_size + 224 ≡ mem_end
    → load32 (scroll_up c).machine.memory mem_end ≡ blank
scroll_up_overrun c v last =
    ap (load32 (scroll_up c).machine.memory) (omega arith)
    ∙ (scroll_up_row c v (omega arith)).3 56 (omega arith)
