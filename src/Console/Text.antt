-- ===== src/Console/Text.antt =====
-- What console_write draws, and where.
use fun_size_os.Base.{
  ◌≢◌, ℕ, zero, suc, ◌+◌, ◌-◌, ◌*◌, ◌/◌, ◌%◌, ◌≤◌, ◌<◌, ◌≡◌, ◌⊎◌, refl, arith, lt→ltb, List, ◌∷◌,
  true, ltb, u8, add32, ◌∙◌, ap,
}
use fun_size_os.Memory.{Memory, store8}
use fun_size_os.Machine.{Machine, out_byte, cli, sti}
use fun_size_os.Console.{
  Console, mem_base, mem_end, width, height, row_size, crt_addr_reg, crt_data_reg, crt_cursor_h,
  crt_cursor_l, set_register, set_cursor, wrap_line, draw, print, command_of, obey, write_loop,
  console_write, command_lf, command_cr,
}
use fun_size_os.Console.Inv.{IsOnScreen, draw-IsOnScreen, write_loop-IsOnScreen}

-- The two registers that set_register loads, taken together, are the index of the cell at `p`.
pub record Register (high low p : ℕ) (before after : List (ℕ × ℕ)) : Type 0 where
  pub high_value : ℕ
  pub low_value : ℕ
  pub writes :
      after
      ≡ (crt_data_reg, low_value)
        ∷ (crt_addr_reg, low)
        ∷ (crt_data_reg, high_value)
        ∷ (crt_addr_reg, high)
        ∷ before
  pub high_byte : high_value < 256
  pub low_byte : low_value < 256
  pub index : mem_base + 2 * (high_value * 256 + low_value) ≡ p

set_register_lem :
    (high low p : ℕ) (m : Machine)
    → high < 256
    → low < 256
    → mem_base ≤ p
    → p < mem_base + 0x2_0000
    → p % 2 ≡ 0
    → Register high low p m.ports (set_register high low p m).ports
unfolding set_register out_byte
set_register_lem high low p m h l from until even = record {
  high_value = (p - mem_base) / 2 / 256;
  low_value = (p - mem_base) / 2 % 256;
  writes = ground arith;
  high_byte = omega arith;
  low_byte = omega arith;
  index = omega arith;
}

-- From a cursor on the screen, console_write ends with interrupts enabled, and its last four port
-- writes load the hardware cursor registers with two bytes that together are the index of the cell
-- at pos.
pub console_write_cursor :
    {c : Console} (buf count : ℕ)
    → IsOnScreen c
    → let c' = console_write buf count c in
      (c'.machine.interrupts ≡ true)
      × (before : List (ℕ × ℕ)) × Register crt_cursor_h crt_cursor_l c'.pos before c'.machine.ports
unfolding console_write set_cursor sti
console_write_cursor {c} buf count v =
    let w =
      write_loop-IsOnScreen count buf c.pos {c = record c { machine = cli c.machine }}
        (omega arith) in
    (
      refl,
      _,
      set_register_lem crt_cursor_h crt_cursor_l _ _ (omega arith) (omega arith) (omega arith)
          (omega arith) (omega arith),
    )

-- A byte that the switch of console_write draws.
abbrev pub IsPrintable : ℕ → Type 0
IsPrintable b = command_of b ≡ print b

-- `n` printable bytes stand from `buf` on, none of them in the video memory.
pub record IsText (m : Memory) (buf n : ℕ) : Type 0 where
  pub apart : (buf + n ≤ mem_base) ⊎ (mem_end ≤ buf)
  pub printable : (a : ℕ) → buf ≤ a → a < buf + n → IsPrintable (m a)

-- The text stands in the cells from `pos` on, with the attribute 7, and the cursor behind it.
pub record Drawn (c : Console) (buf n : ℕ) (c' : Console) : Type 0 where
  pub shown : (i : ℕ) → i < n → c'.machine.memory (c.pos + 2 * i) ≡ u8 (c.machine.memory (buf + i))
  pub attribute : (i : ℕ) → i < n → c'.machine.memory (c.pos + 2 * i + 1) ≡ 7
  pub outside :
      (a : ℕ) → (a < c.pos) ⊎ (c.pos + 2 * n ≤ a) → c'.machine.memory a ≡ c.machine.memory a
  pub screen : c'.screen ≡ c.screen
  pub pos : c'.pos ≡ c.pos + 2 * n
  pub x : c'.x ≡ c.x + n
  pub y : c'.y ≡ c.y

wrap_line-room : (c : Console) → c.x < width → wrap_line c ≡ c
unfolding wrap_line
wrap_line-room c h = ground arith

step-print :
    (c : Console) (n buf ptr : ℕ)
    → IsPrintable (c.machine.memory buf)
    → c.x < width
    → write_loop (suc n) buf ptr c
      ≡ write_loop n (buf + 1) (add32 ptr 2) (draw (c.machine.memory buf) ptr c)
unfolding write_loop obey
step-print c n buf ptr p h = rw (p, wrap_line-room c h)

module _ (c : Console) (v : IsOnScreen c) (room : c.x < width) (ch : ℕ) where
  draw_char : (draw ch c.pos c).machine.memory c.pos ≡ u8 ch
  unfolding draw store8
  draw_char = ground (arith, v)

  draw_attribute : (draw ch c.pos c).machine.memory (c.pos + 1) ≡ 7
  unfolding draw store8
  draw_attribute = ground (arith, v)

  draw_outside :
      (a : ℕ)
      → (a < c.pos) ⊎ (c.pos + 2 ≤ a)
      → (draw ch c.pos c).machine.memory a ≡ c.machine.memory a
  unfolding draw store8
  draw_outside a out = ground (arith, v)

  draw_moves :
      let d = draw ch c.pos c in
      (d.pos ≡ c.pos + 2) × (d.x ≡ c.x + 1) × (d.y ≡ c.y) × (d.screen ≡ c.screen)
  unfolding draw
  draw_moves = omega arith

  draw-IsText :
      (buf n : ℕ)
      → IsText c.machine.memory buf (suc n)
      → IsText (draw ch c.pos c).machine.memory (buf + 1) n
  draw-IsText buf n t = record {
    apart = omega (arith, t.apart);
    printable = λ a p q.
        rw (draw_outside a (omega (arith, t.apart))) (t.printable a (omega arith) (omega arith));
  }

module _ (c c' : Console) (buf n : ℕ) (v : IsOnScreen c) (room : c.x < width)
    (t : IsText c.machine.memory buf (suc n))
    (d : Drawn (draw (c.machine.memory buf) c.pos c) (buf + 1) n c') where
  next_pos : (draw (c.machine.memory buf) c.pos c).pos ≡ c.pos + 2
  next_pos = (draw_moves c v room (c.machine.memory buf)).0

  rest_shown :
      (i : ℕ) → i < suc n → c'.machine.memory (c.pos + 2 * i) ≡ u8 (c.machine.memory (buf + i))
  rest_shown zero h =
      ap c'.machine.memory (omega arith)
      ∙ d.outside c.pos (omega (arith, next_pos))
      ∙ draw_char c v room (c.machine.memory buf)
      ∙ ap (λ b. u8 (c.machine.memory b)) (omega arith)
  rest_shown (suc i) h =
      ap c'.machine.memory (omega (arith, next_pos))
      ∙ d.shown i (omega arith)
      ∙ ap u8 (draw_outside c v room (c.machine.memory buf) (buf + 1 + i) (omega (arith, t.apart)))
      ∙ ap (λ b. u8 (c.machine.memory b)) (omega arith)

  rest_attribute : (i : ℕ) → i < suc n → c'.machine.memory (c.pos + 2 * i + 1) ≡ 7
  rest_attribute zero h =
      ap c'.machine.memory (omega arith)
      ∙ d.outside (c.pos + 1) (omega (arith, next_pos))
      ∙ draw_attribute c v room (c.machine.memory buf)
  rest_attribute (suc i) h =
      ap c'.machine.memory (omega (arith, next_pos)) ∙ d.attribute i (omega arith)

  -- The text is the drawn character followed by the rest.
  Drawn-cons : Drawn c buf (suc n) c'
  Drawn-cons =
      let moved = draw_moves c v room (c.machine.memory buf) in
      record {
        shown = rest_shown;
        attribute = rest_attribute;
        outside = λ a out.
            d.outside a (omega (arith, moved))
            ∙ draw_outside c v room (c.machine.memory buf) a (omega arith);
        screen = d.screen ∙ moved.3;
        pos = omega (arith, d.pos, moved);
        x = omega (arith, d.x, moved);
        y = omega (arith, d.y, moved);
      }

write_loop-Drawn :
    (n buf : ℕ) (c : Console)
    → IsOnScreen c
    → c.x + n ≤ width
    → IsText c.machine.memory buf n
    → Drawn c buf n (write_loop n buf c.pos c)
unfolding write_loop draw
write_loop-Drawn zero buf c v room text = record {
  shown = λ i h. absurd (omega arith);
  attribute = λ i h. absurd (omega arith);
  outside = λ a out. refl;
  screen = refl;
  pos = omega arith;
  x = omega arith;
  y = refl;
}
write_loop-Drawn (suc n) buf c v room text =
    let ch : ℕ = c.machine.memory buf in
    let here : c.x < width = omega arith in
    let moved = draw_moves c v here ch in
    let next = draw ch c.pos c in
    let rest =
      write_loop-Drawn n (buf + 1) next
        (draw-IsOnScreen ch c.pos (record { valid = v; room = here })) (omega (arith, moved))
        (draw-IsText c v here ch buf n text) in
    rw (step-print c n buf c.pos (text.printable buf (omega arith) (omega arith)) here)
      (Drawn-cons c (write_loop n (buf + 1) (add32 c.pos 2) next) buf n v here text rest)

-- From a cursor on the screen, a text of printable bytes that fits in the row and lies outside the
-- video memory is drawn in the cells from the cursor on with attribute 7, the cursor ends behind
-- it, and no other byte of memory changes.
pub console_write_text :
    (c : Console) (buf n : ℕ)
    → IsOnScreen c
    → c.x + n ≤ width
    → IsText c.machine.memory buf n
    → Drawn c buf n (console_write buf n c)
unfolding console_write set_cursor set_register out_byte cli sti
console_write_text c buf n v room text =
    let off : Console = record c { machine = cli c.machine } in
    let d = write_loop-Drawn n buf off (omega arith) room text in
    record {
      shown = d.shown;
      attribute = d.attribute;
      outside = d.outside;
      screen = d.screen;
      pos = d.pos;
      x = d.x;
      y = d.y;
    }

-- The cursor at the start of the next row.
next_row : Console → Console
next_row c = record c { y = c.y + 1; pos = c.pos + row_size - 2 * c.x; x = 0 }

line_feed-next_row :
    (c : Console) → IsOnScreen c → c.y + 1 < height → command_cr (command_lf c) ≡ next_row c
unfolding command_cr command_lf next_row
line_feed-next_row c v above =
    let lt : ltb (add32 c.y 1) height ≡ true = lt→ltb _ _ (omega arith) in rw lt (ground arith)

step-line_feed :
    (c : Console) (n buf ptr : ℕ)
    → c.machine.memory buf ≡ 0x0A
    → write_loop (suc n) buf ptr c ≡ write_loop n (buf + 1) ptr (command_cr (command_lf c))
unfolding write_loop obey command_of
step-line_feed c n buf ptr e = rw e

two_rounds :
    (c : Console) (buf : ℕ)
    → IsOnScreen c
    → c.y + 1 < height
    → c.machine.memory buf ≡ 0x0A
    → IsPrintable (c.machine.memory (buf + 1))
    → write_loop 2 buf c.pos c ≡ draw (c.machine.memory (buf + 1)) c.pos (next_row c)
unfolding next_row write_loop
two_rounds c buf v above newline printable =
    step-line_feed c 1 buf c.pos newline
    ∙ ap (write_loop 1 (buf + 1) c.pos) (line_feed-next_row c v above)
    ∙ step-print (next_row c) 0 (buf + 1) c.pos printable (omega arith)

-- With the cursor on the screen, before the end of a row that is not the last, writing a line feed
-- and a printable byte moves the cursor to column 1 of the next row, but draws the byte, with
-- attribute 7, in the cell where the cursor was before the line feed, which lies before the cell
-- in front of the new cursor, and changes no other byte of memory.
pub console_write_stale :
    (c : Console) (buf : ℕ)
    → IsOnScreen c
    → c.x < width
    → c.y + 1 < height
    → c.machine.memory buf ≡ 0x0A
    → IsPrintable (c.machine.memory (buf + 1))
    → let c' = console_write buf 2 c in
      (c'.y ≡ c.y + 1)
      × (c'.x ≡ 1)
      × (c'.machine.memory c.pos ≡ u8 (c.machine.memory (buf + 1)))
      × (c'.machine.memory (c.pos + 1) ≡ 7)
      × ((a : ℕ) → a ≢ c.pos → a ≢ c.pos + 1 → c'.machine.memory a ≡ c.machine.memory a)
      × (c.pos + 1 < c'.pos - 2)
unfolding console_write set_cursor set_register out_byte cli sti draw next_row store8
console_write_stale c buf v room above newline printable =
    rw (two_rounds (record c { machine = cli c.machine }) buf (omega arith) above newline printable)
      (omega arith, omega arith, ground arith, ground arith, λ a p q. ground arith, omega arith)
