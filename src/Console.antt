-- ===== src/Console.antt =====
-- kernel/kernel/chr_drv/console.c: the text screen in the video memory, its cursor, and the bytes
-- that move it. The static variables screen, pos, x and y are fields of `Console`.
pub mod Inv
pub mod Text
pub mod Scroll
mod Tests
use fun_size_os.Base.{
  ℕ, zero, suc, ◌+◌, ◌*◌, ◌/◌, ◌%◌, ◌==◌, ltb, leb, if◌then◌else◌, add32, sub32, shl32, shr,
}
use fun_size_os.Memory.{Memory, store8, store16, store32}
use fun_size_os.Machine.{Machine, out_byte, cli, sti}
use fun_size_os.CString.{memcpy}

abbrev pub crt_addr_reg : ℕ
crt_addr_reg = 0x3D4

abbrev pub crt_data_reg : ℕ
crt_data_reg = 0x3D5

abbrev pub crt_start_addr_h : ℕ
crt_start_addr_h = 0xC

abbrev pub crt_start_addr_l : ℕ
crt_start_addr_l = 0xD

abbrev pub crt_cursor_h : ℕ
crt_cursor_h = 0xE

abbrev pub crt_cursor_l : ℕ
crt_cursor_l = 0xF

abbrev pub mem_base : ℕ
mem_base = 0xB_8000

abbrev pub mem_size : ℕ
mem_size = 0x4000

abbrev pub mem_end : ℕ
mem_end = mem_base + mem_size

abbrev pub width : ℕ
width = 80

abbrev pub height : ℕ
height = 25

abbrev pub row_size : ℕ
row_size = width * 2

abbrev pub scr_size : ℕ
scr_size = row_size * height

abbrev pub blank : ℕ
blank = 0x0720

pub record Console : Type 0 where
  pub machine : Machine
  pub screen : ℕ
  pub pos : ℕ
  pub x : ℕ
  pub y : ℕ

abbrev pub write16 : ℕ → ℕ → Machine → Machine
write16 p v m = record m { memory = store16 m.memory p v }

-- A pair of 8 bit registers that holds the index of a cell of the video memory.
unfoldable pub set_register : ℕ → ℕ → ℕ → Machine → Machine
set_register high low p m = out_byte crt_data_reg (shr (sub32 p mem_base) 1 % 0x100) (
    out_byte crt_addr_reg low
      (out_byte crt_data_reg (shr (sub32 p mem_base) 9 % 0x100) (out_byte crt_addr_reg high m)))

unfoldable pub set_screen : Console → Console
set_screen c = record c {
  machine = set_register crt_start_addr_h crt_start_addr_l c.screen c.machine;
}

unfoldable pub set_cursor : Console → Console
set_cursor c = record c { machine = set_register crt_cursor_h crt_cursor_l c.pos c.machine }

-- `n` cells from `ptr` on, the loop of console_clear.
unfoldable pub fill16 : ℕ → ℕ → Memory → Memory
fill16 zero ptr m = m
fill16 (suc n) ptr m = fill16 n (ptr + 2) (store16 m ptr blank)

-- `n` words from `ptr` on, the loop of scroll_up.
unfoldable pub fill32 : ℕ → ℕ → Memory → Memory
fill32 zero ptr m = m
fill32 (suc n) ptr m = fill32 n (ptr + 4) (store32 m ptr blank)

unfoldable pub console_clear : Console → Console
console_clear c =
    let home : Console = record c { screen = mem_base; pos = mem_base; x = 0; y = 0 } in
    let shown = set_screen (set_cursor home) in
    record shown {
      machine = record shown.machine {
        memory = fill16 (mem_size / 2) mem_base shown.machine.memory;
      };
    }

unfoldable pub scroll_up : Console → Console
scroll_up c = set_screen (
    if ltb (add32 (add32 c.screen scr_size) row_size) mem_end
    then record c {
      machine = record c.machine {
        memory = fill32 width (add32 c.screen scr_size) c.machine.memory;
      };
      screen = add32 c.screen row_size;
      pos = add32 c.pos row_size;
    }
    else record c {
      machine = record c.machine { memory = memcpy c.machine.memory mem_base c.screen scr_size };
      pos = sub32 c.pos (sub32 c.screen mem_base);
      screen = mem_base;
    })

unfoldable pub command_lf : Console → Console
command_lf c =
    if ltb (add32 c.y 1) height
    then record c { y = add32 c.y 1; pos = add32 c.pos row_size }
    else scroll_up c

unfoldable pub command_cr : Console → Console
command_cr c = record c { pos = sub32 c.pos (shl32 c.x 1); x = 0 }

unfoldable pub command_bs : Console → Console
command_bs c = if c.x == 0 then c else record c {
  machine = write16 (sub32 c.pos 2) blank c.machine;
  x = sub32 c.x 1;
  pos = sub32 c.pos 2;
}

unfoldable pub command_del : Console → Console
command_del c = record c { machine = write16 c.pos blank c.machine }

-- The test `x >= WIDTH` before a character is drawn.
unfoldable pub wrap_line : Console → Console
wrap_line c =
    if leb width c.x
    then command_lf (record c { x = sub32 c.x width; pos = sub32 c.pos row_size })
    else c

-- The character and its attribute are written through `ptr`, and the cursor moves on by one cell.
unfoldable pub draw : ℕ → ℕ → Console → Console
draw ch ptr c = record c {
  machine = record c.machine {
    memory = store8 (store8 c.machine.memory ptr ch) (add32 ptr 1) 0x07;
  };
  pos = add32 c.pos 2;
  x = add32 c.x 1;
}

-- The control bytes: NUL, BEL, BS, HT, LF, VT, FF, CR and DEL.
pub data Command : Type 0 where
  ignore backspace line_feed form_feed carriage_return delete : Command
  print : ℕ → Command

unfoldable pub command_of : ℕ → Command
command_of ch =
    if ch == 0x00
    then ignore
    else if ch == 0x07
    then ignore
    else if ch == 0x08
    then backspace
    else if ch == 0x09
    then ignore
    else if ch == 0x0A
    then line_feed
    else if ch == 0x0B
    then ignore
    else if ch == 0x0C
    then form_feed
    else if ch == 0x0D
    then carriage_return
    else if ch == 0x7F
    then delete
    else print ch

-- One round of the loop of console_write: the pointer that it writes through, and the console.
unfoldable pub obey : Command → ℕ → Console → ℕ × Console
obey ignore ptr c = (ptr, c)
obey backspace ptr c = (ptr, command_bs c)
obey line_feed ptr c = (ptr, command_cr (command_lf c))
obey form_feed ptr c = (ptr, command_lf c)
obey carriage_return ptr c = (ptr, command_cr c)
obey delete ptr c = (ptr, command_del c)
obey (print ch) ptr c = (add32 ptr 2, draw ch ptr (wrap_line c))

-- The loop of console_write: `count` bytes are left, from `buf` on.
unfoldable pub write_loop : ℕ → ℕ → ℕ → Console → Console
write_loop zero buf ptr c = c
write_loop (suc count) buf ptr c =
    let (ptr', c') = obey (command_of (c.machine.memory buf)) ptr c in
    write_loop count (buf + 1) ptr' c'

-- `ptr` is set once, before the loop.
unfoldable pub console_write : ℕ → ℕ → Console → Console
console_write buf count c =
    let drawn = write_loop count buf c.pos (record c { machine = cli c.machine }) in
    let shown = set_cursor drawn in record shown { machine = sti shown.machine }

unfoldable pub console_init : Console → Console
console_init c = console_clear c
