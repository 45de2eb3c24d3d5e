-- ===== src/Keyboard.antt =====
-- kernel/kernel/chr_drv/keyboard.c: the state of the keys and of the locks, and the interrupt
-- handler. The byte that `in_byte(0x60)` reads is an argument of the handler.
pub mod Keys
pub mod Tracking
pub mod Locks
mod Tests
use fun_size_os.Base.{
  ℕ, ◌%◌, Bool, true, false, not, ◌&&◌, ◌||◌, List, [], ◌∷◌, ◌==◌, ltb, leb, if◌then◌else◌, u8,
  get_or, set,
}
use fun_size_os.Machine.{Machine, num, printk}
use fun_size_os.Traps.{send_eoi}
use fun_size_os.Keyboard.Keys.{
  Key, key, keymap, inv, index, key_shift_l, key_shift_r, key_numlock, key_capslock, key_scrlock,
  key_slash, key_print_screen,
}

pub record Keyboard : Type 0 where
  pub machine : Machine
  pub keymap : List Key
  pub capslock_state : Bool
  pub scrlock_state : Bool
  pub numlock_state : Bool
  pub extcode_state : Bool

abbrev pub code_print_screen_down : ℕ
code_print_screen_down = 0xB7

-- A row that is not in the table; the handler never reads one.
abbrev pub no_key : Key
no_key = key inv inv

abbrev pub row : ℕ → List Key → Key
row code keys = get_or keys code no_key

-- `keymap[code][ext] = b`, with `ext` 3 behind the prefix and 2 without.
unfoldable pub set_down : Bool → Bool → Key → Key
set_down true b k = record k { down_ext = b }
set_down false b k = record k { down = b }

abbrev pub press : ℕ → Bool → Bool → List Key → List Key
press code ext b keys = set keys code (set_down ext b (row code keys))

-- The macro shift_state.
abbrev pub shift_state : List Key → Bool
shift_state keys = (row (index key_shift_l) keys).down || (row (index key_shift_r) keys).down

-- `scancode & 0x7f`, and the key that stands for the print screen code.
unfoldable pub makecode_of : ℕ → ℕ
makecode_of scancode =
    let makecode : ℕ = scancode % 0x80 in
    if makecode == code_print_screen_down then index key_print_screen else makecode

unfoldable pub toggle_locks : ℕ → Keyboard → Keyboard
toggle_locks makecode k =
    if makecode == index key_numlock
    then record k { numlock_state = not k.numlock_state }
    else if makecode == index key_capslock
    then record k { capslock_state = not k.capslock_state }
    else if makecode == index key_scrlock
    then record k { scrlock_state = not k.scrlock_state }
    else k

abbrev pub xor : Bool → Bool → Bool
xor true b = not b
xor false b = b

-- The character of a key that goes down.
unfoldable pub char_of : Bool → ℕ → Keyboard → ℕ
char_of ext makecode k =
    let shift = xor k.capslock_state (shift_state k.keymap) in
    if ext && not (makecode == index key_slash)
    then (row makecode k.keymap).shifted
    else if shift
    then (row makecode k.keymap).shifted
    else (row makecode k.keymap).plain

-- `if (ch == INV) return; printk("%c", ch);`
unfoldable pub show : ℕ → Keyboard → Keyboard
show ch k = if ch == inv then k else record k { machine = printk "%c" (num ch ∷ []) k.machine }

-- What follows a key that goes down.
unfoldable pub key_down : Bool → ℕ → Keyboard → Keyboard
key_down ext makecode k =
    let k' = toggle_locks makecode (record k { keymap = press makecode ext true k.keymap }) in
    show (char_of ext makecode k') k'

unfoldable pub keymap_handler : ℕ → ℕ → Keyboard → Keyboard
keymap_handler idt_index scancode before =
    let k : Keyboard = record before { machine = send_eoi idt_index before.machine } in
    if u8 scancode == 0xe0
    then record k { extcode_state = true }
    else let ext = k.extcode_state in
      let plain : Keyboard = record k { extcode_state = false } in
      let makecode = makecode_of (u8 scancode) in
      if ltb (index key_print_screen) makecode
      then plain
      else if leb 0x80 (u8 scancode)
      then record plain { keymap = press makecode ext false plain.keymap }
      else key_down ext makecode plain

-- The handler at each scancode in turn.
unfoldable pub type_codes : List ℕ → Keyboard → Keyboard
type_codes [] k = k
type_codes (code ∷ codes) k = type_codes codes (keymap_handler 0x21 code k)

-- The keyboard before the first interrupt.
unfoldable pub power_on : Machine → Keyboard
power_on m = record {
  machine = m;
  keymap = keymap;
  capslock_state = false;
  scrlock_state = false;
  numlock_state = false;
  extcode_state = false;
}
