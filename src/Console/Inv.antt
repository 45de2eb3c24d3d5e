-- ===== src/Console/Inv.antt =====
-- The cursor stays on the screen, and the screen inside the video memory, whatever is written.
use fun_size_os.Base.{
  ℕ, zero, suc, ◌+◌, ◌*◌, ◌%◌, ◌≤◌, ◌<◌, ◌≡◌, arith, Bool, Bool-cases, inl, inr, ltb, leb, ltb→lt,
  ◌==◌, ◌≢◌, add32, sub32,
}
use fun_size_os.Machine.{cli}
use fun_size_os.Console.{
  Console, mem_base, mem_end, width, height, row_size, scr_size, set_screen, set_cursor,
  console_clear, scroll_up, command_lf, command_cr, command_bs, command_del, wrap_line, draw,
  Command, ignore, backspace, line_feed, form_feed, carriage_return, delete, print, command_of,
  obey, write_loop, console_write,
}

-- The screen begins at a whole row of the video memory and ends inside it; `pos` is the address of
-- the cell in column `x` of row `y`, where the column after the last one is allowed.
pub record IsOnScreen (c : Console) : Type 0 where
  pub from : mem_base ≤ c.screen
  pub until : c.screen + scr_size ≤ mem_end
  pub aligned : c.screen % row_size ≡ mem_base % row_size
  pub column : c.x ≤ width
  pub row : c.y < height
  pub cell : c.pos ≡ c.screen + row_size * c.y + 2 * c.x

-- After console_clear the cursor stands in the top left corner of the first screen.
pub console_clear-IsOnScreen : (c : Console) → IsOnScreen (console_clear c)
unfolding console_clear set_screen set_cursor
console_clear-IsOnScreen c = omega arith

-- What scroll_up moves, on both of its branches.
record Scrolled (c c' : Console) : Type 0 where
  offset : c'.pos + c.screen ≡ c.pos + c'.screen
  from : mem_base ≤ c'.screen
  until : c'.screen + scr_size ≤ mem_end
  aligned : c'.screen % row_size ≡ mem_base % row_size
  x : c'.x ≡ c.x
  y : c'.y ≡ c.y

abbrev scrolls : Console → Bool
scrolls c = ltb (add32 (add32 c.screen scr_size) row_size) mem_end

module _ {c : Console} (v : IsOnScreen c) where
  scroll_up-Scrolled : Scrolled c (scroll_up c)
  unfolding scroll_up set_screen
  scroll_up-Scrolled = elim (Bool-cases (scrolls c)) [
    | inl e ↦ let lt = ltb→lt _ _ e in rw e (omega arith)
    | inr e ↦ rw e (omega arith)
  ]

  pub scroll_up-IsOnScreen : IsOnScreen (scroll_up c)
  scroll_up-IsOnScreen = omega (arith, scroll_up-Scrolled)

  pub command_lf-IsOnScreen : IsOnScreen (command_lf c)
  unfolding command_lf
  command_lf-IsOnScreen = elim (Bool-cases (ltb (add32 c.y 1) height)) [
    | inl e ↦ let lt = ltb→lt _ _ e in rw e (omega arith)
    | inr e ↦ rw e scroll_up-IsOnScreen
  ]

  pub command_cr-IsOnScreen : IsOnScreen (command_cr c)
  unfolding command_cr
  command_cr-IsOnScreen = omega arith

  pub command_bs-IsOnScreen : IsOnScreen (command_bs c)
  unfolding command_bs
  command_bs-IsOnScreen = elim (Bool-cases (c.x == 0)) [
    | inl e ↦ rw e v
    | inr e ↦ let ne : c.x ≢ 0 = ground arith in rw e (omega arith)
  ]

  pub command_del-IsOnScreen : IsOnScreen (command_del c)
  unfolding command_del
  command_del-IsOnScreen = omega arith

x-command_lf : {c : Console} → IsOnScreen c → (command_lf c).x ≡ c.x
unfolding command_lf
x-command_lf {c} v = elim (Bool-cases (ltb (add32 c.y 1) height)) [
  | inl e ↦ rw e
  | inr e ↦ rw e (scroll_up-Scrolled v).x
]

-- Wrapping leaves room for a character.
pub record HasRoom (c : Console) : Type 0 where
  pub valid : IsOnScreen c
  pub room : c.x < width

pub wrap_line-HasRoom : {c : Console} → IsOnScreen c → HasRoom (wrap_line c)
unfolding wrap_line
wrap_line-HasRoom {c} v = elim (Bool-cases (leb width c.x)) [
  | inl e ↦
      let full : c.x ≡ width = ground arith in
      let start : IsOnScreen (record c { x = sub32 c.x width; pos = sub32 c.pos row_size }) =
        omega arith in
      rw e
        (record { valid = command_lf-IsOnScreen start; room = omega (arith, x-command_lf start) })
  | inr e ↦ rw e (record { valid = v; room = ground arith })
]

pub draw-IsOnScreen : {c : Console} (ch ptr : ℕ) → HasRoom c → IsOnScreen (draw ch ptr c)
unfolding draw
draw-IsOnScreen ch ptr r = omega (arith, r.valid)

-- Every byte keeps the cursor on the screen.
pub obey-IsOnScreen :
    {c : Console} (cmd : Command) (ptr : ℕ) → IsOnScreen c → IsOnScreen (obey cmd ptr c).1
unfolding obey
obey-IsOnScreen ignore ptr v = v
obey-IsOnScreen backspace ptr v = command_bs-IsOnScreen v
obey-IsOnScreen line_feed ptr v = command_cr-IsOnScreen (command_lf-IsOnScreen v)
obey-IsOnScreen form_feed ptr v = command_lf-IsOnScreen v
obey-IsOnScreen carriage_return ptr v = command_cr-IsOnScreen v
obey-IsOnScreen delete ptr v = command_del-IsOnScreen v
obey-IsOnScreen (print ch) ptr v = draw-IsOnScreen ch ptr (wrap_line-HasRoom v)

pub write_loop-IsOnScreen :
    (count buf ptr : ℕ) {c : Console} → IsOnScreen c → IsOnScreen (write_loop count buf ptr c)
unfolding write_loop
write_loop-IsOnScreen zero buf ptr v = v
write_loop-IsOnScreen (suc count) buf ptr {c} v =
    let cmd = command_of (c.machine.memory buf) in
    write_loop-IsOnScreen count (buf + 1) (obey cmd ptr c).0 (obey-IsOnScreen cmd ptr v)

-- Whatever bytes it writes, console_write keeps the cursor on the screen, pos equal to the address
-- of column x of row y, and the screen a whole number of rows into the video memory and inside it.
pub console_write-IsOnScreen :
    {c : Console} (buf count : ℕ) → IsOnScreen c → IsOnScreen (console_write buf count c)
unfolding console_write set_cursor
console_write-IsOnScreen {c} buf count v = omega (
  arith,
  write_loop-IsOnScreen count buf c.pos {c = record c { machine = cli c.machine }} (omega arith),
)
