-- ===== src/Keyboard/Tests.antt =====
-- The keyboard at its first state, and its theorems there.
use fun_size_os.Base.{
  ℕ, ◌≡◌, refl, arith, Bool, true, false, ◌&&◌, List, [], ◌∷◌, ◌==◌, if◌then◌else◌,
}
use fun_size_os.Machine.{Machine, Message, num, printk, cli, sti, out_byte}
use fun_size_os.Traps.{send_eoi}
use fun_size_os.Keyboard.Keys.{keymap}
use fun_size_os.Keyboard.{
  Keyboard, set_down, makecode_of, toggle_locks, char_of, show, key_down, keymap_handler,
  type_codes,
}
use fun_size_os.Keyboard.Tracking.{IsKeyboard, is_down, same_ext, handler_tracks}

abbrev quiet : Machine
quiet = record { memory = λ _. 0; ports = []; log = []; interrupts = true }

abbrev start : Keyboard
start = record {
  machine = quiet;
  keymap = keymap;
  capslock_state = false;
  scrlock_state = false;
  numlock_state = false;
  extcode_state = false;
}

start-IsKeyboard : IsKeyboard start
unfolding keymap
start-IsKeyboard = record { rows = refl; plain = λ j. refl; shifted = λ j. refl }

-- Shift and "a", then caps lock and "1": the lock shifts every key.
abbrev texts : Keyboard → List Message
texts k = k.machine.log

capital :
    texts (type_codes (0x2a ∷ 0x1e ∷ []) start)
    ≡ record { format = "%c"; args = num b'A' ∷ [] } ∷ []
unfolding type_codes keymap_handler key_down char_of show toggle_locks makecode_of set_down keymap
    send_eoi printk cli sti out_byte
capital = refl

caps_one :
    texts (type_codes (0x3a ∷ 0x02 ∷ []) start)
    ≡ record { format = "%c"; args = num b'!' ∷ [] } ∷ []
unfolding type_codes keymap_handler key_down char_of show toggle_locks makecode_of set_down keymap
    send_eoi printk cli sti out_byte
caps_one = refl

-- The print screen key sends 0xe0 and 0x37, and prints a star.
print_screen :
    texts (type_codes (0xe0 ∷ 0x37 ∷ []) start)
    ≡ record { format = "%c"; args = num b'*' ∷ [] } ∷ []
unfolding type_codes keymap_handler key_down char_of show toggle_locks makecode_of set_down keymap
    send_eoi printk cli sti out_byte
print_screen = refl

handler_tracks_example :
    let k' = keymap_handler 0x21 0x1e start in
    ((e : Bool) (j : ℕ)
      → is_down e j k'.keymap
        ≡ (if (j == 0x1e) && same_ext e false then true else is_down e j keymap))
    × (k'.extcode_state ≡ false)
    × IsKeyboard k'
handler_tracks_example = handler_tracks 0x21 start true 0x1e start-IsKeyboard (omega arith)
