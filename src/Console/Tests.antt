-- ===== src/Console/Tests.antt =====
-- The console at concrete states.
use fun_size_os.Base.{
  ◌≢◌, ◌<◌, ℕ, ◌+◌, ◌-◌, ◌*◌, ◌≡◌, inl, refl, arith, true, [], ◌==◌, if◌then◌else◌,
}
use fun_size_os.Memory.{Memory}
use fun_size_os.Console.{Console, mem_base, row_size, console_write, command_of}
use fun_size_os.Console.Inv.{IsOnScreen, console_write-IsOnScreen}
use fun_size_os.Console.Text.{IsText, Drawn, console_write_text, console_write_stale}

-- "ok" at 0x500, and a line feed and "a" at 0x600.
abbrev buffers : Memory
buffers a =
    if a == 0x500
    then b'o'
    else if a == 0x501
    then b'k'
    else if a == 0x600
    then 0x0A
    else if a == 0x601
    then b'a'
    else 0

-- The cursor in column `x` of row `y`, with the screen at row `top` of the video memory.
abbrev at : ℕ → ℕ → ℕ → Console
at top y x = record {
  machine = record { memory = buffers; ports = []; log = []; interrupts = true };
  screen = mem_base + row_size * top;
  pos = mem_base + row_size * top + row_size * y + 2 * x;
  x = x;
  y = y;
}

home-IsOnScreen : IsOnScreen (at 0 0 0)
home-IsOnScreen = omega arith

ok-IsText : IsText buffers 0x500 2
unfolding command_of
ok-IsText = record { apart = inl (omega arith); printable = λ a p q. ground arith }

console_write-IsOnScreen_example : IsOnScreen (console_write 0x500 2 (at 0 0 0))
console_write-IsOnScreen_example = console_write-IsOnScreen {c = at 0 0 0} 0x500 2 home-IsOnScreen

console_write_text_example : Drawn (at 0 0 0) 0x500 2 (console_write 0x500 2 (at 0 0 0))
console_write_text_example =
    console_write_text (at 0 0 0) 0x500 2 home-IsOnScreen (omega arith) ok-IsText

console_write_stale_example :
    let c' = console_write 0x600 2 (at 0 3 5) in
    (c'.y ≡ 4)
    × (c'.x ≡ 1)
    × (c'.machine.memory (mem_base + 490) ≡ b'a')
    × (c'.machine.memory (mem_base + 491) ≡ 7)
    × ((a : ℕ) → a ≢ mem_base + 490 → a ≢ mem_base + 491 → c'.machine.memory a ≡ buffers a)
    × (mem_base + 491 < c'.pos - 2)
unfolding command_of
console_write_stale_example =
    console_write_stale (at 0 3 5) 0x600 (omega arith) (omega arith) (omega arith) refl refl
