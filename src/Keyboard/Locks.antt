-- ===== src/Keyboard/Locks.antt =====
-- The locks, the end-of-interrupt signal, and the characters that the handler prints.
use fun_size_os.Base.{
  ℕ, ◌-◌, ◌≤◌, ◌<◌, ◌≡◌, ◌≢◌, refl, arith, Bool, true, false, ◌&&◌, ◌||◌, not, List, [], ◌∷◌, ◌==◌,
  leb, if◌then◌else◌, ne→==, u8, length,
}
use fun_size_os.Base.Table.{each, each_at}
use fun_size_os.Machine.{out_byte, num, printk, cli, sti}
use fun_size_os.Traps.{send_eoi, pic_m_ctrl, pic_eoi}
use fun_size_os.Keyboard.Keys.{
  Key, keymap, inv, index, key_capslock, key_numlock, key_scrlock, key_shift_l, key_shift_r,
}
use fun_size_os.Keyboard.{
  Keyboard, row, press, toggle_locks, char_of, xor, shift_state, show, key_down, keymap_handler,
}
use fun_size_os.Keyboard.Tracking.{
  IsKeyboard, row-press_ne, press_chars, makecode_of-mod, handler_make, answered,
}

-- For every byte and every state, each of the three locks is turned over exactly if the byte is
-- the make code of its key.
pub handler_locks :
    (idt_index scancode : ℕ) (k : Keyboard)
    → let k' = keymap_handler idt_index scancode k in
      (k'.capslock_state ≡ xor (u8 scancode == index key_capslock) k.capslock_state)
      × (k'.numlock_state ≡ xor (u8 scancode == index key_numlock) k.numlock_state)
      × (k'.scrlock_state ≡ xor (u8 scancode == index key_scrlock) k.scrlock_state)
unfolding keymap_handler key_down toggle_locks show
handler_locks idt_index scancode k = ground (arith, makecode_of-mod (u8 scancode))

-- Whatever byte comes in whatever state, the keyboard handler sends exactly one end-of-interrupt
-- command to the master controller and writes no other port.
pub handler_eoi :
    (scancode : ℕ) (k : Keyboard)
    → (keymap_handler 0x21 scancode k).machine.ports ≡ (pic_m_ctrl, pic_eoi) ∷ k.machine.ports
unfolding keymap_handler key_down toggle_locks show printk cli sti send_eoi out_byte
handler_eoi scancode k = ground arith

-- The characters without and with shift of key `code` in the initial table.
abbrev pub letter : ℕ → ℕ
letter code = (row code keymap).plain

abbrev is_letter : ℕ → Bool
is_letter c = leb b'a' c && leb c b'z'

-- The letters of the table are printed in upper case by their shifted column, and no letter key is a
-- lock or a shift key.
abbrev letter_row : ℕ → Bool
letter_row j =
    not (is_letter (letter j))
    || ((row j keymap).shifted == letter j - 32
        && (not (j == index key_capslock)
            && (not (j == index key_numlock)
                && (not (j == index key_scrlock)
                    && (not (j == index key_shift_l) && not (j == index key_shift_r))))))

letters : Bool
letters = each letter_row 96

letters-true : letters ≡ true
unfolding letters each keymap
letters-true = refl

record IsLetterKey (code : ℕ) : Type 0 where
  upper : (row code keymap).shifted ≡ letter code - 32
  not_caps : code ≢ index key_capslock
  not_num : code ≢ index key_numlock
  not_scr : code ≢ index key_scrlock
  not_left : code ≢ index key_shift_l
  not_right : code ≢ index key_shift_r

letter-IsLetterKey :
    (code : ℕ) → code ≤ 0x5f → b'a' ≤ letter code → letter code ≤ b'z' → IsLetterKey code
unfolding letters
letter-IsLetterKey code small from until =
    let found = each_at letter_row 96 letters-true code (omega arith) in ground arith

prints : (shift : Bool) (c : ℕ) → b'a' ≤ c → ((if shift then c - 32 else c) == inv) ≡ false
prints shift c from = ground arith

toggle_locks-other : (code : ℕ) (k : Keyboard) → IsLetterKey code → toggle_locks code k ≡ k
unfolding toggle_locks
toggle_locks-other code k l = rw (ne→== _ _ l.not_num, ne→== _ _ l.not_caps, ne→== _ _ l.not_scr)

shift_state-press :
    (keys : List Key) (code : ℕ)
    → code < length keys
    → IsLetterKey code
    → shift_state (press code false true keys) ≡ shift_state keys
shift_state-press keys code inside l = rw (
  row-press_ne keys code false true inside (index key_shift_l) l.not_left,
  row-press_ne keys code false true inside (index key_shift_r) l.not_right,
)

module _ (k : Keyboard) (code : ℕ) (v : IsKeyboard k) (small : code ≤ 0x5f)
    (l : IsLetterKey code) where
  pressed : Keyboard
  pressed = record k { keymap = press code false true k.keymap }

  char_of-letter :
      char_of false code pressed
      ≡ (if xor k.capslock_state (shift_state k.keymap) then letter code - 32 else letter code)
  unfolding char_of pressed
  char_of-letter =
      let inside : code < length k.keymap = omega (arith, v.rows) in
      let chars = press_chars k.keymap code false true inside code in
      rw (
        shift_state-press k.keymap code inside l,
        chars.0,
        chars.1,
        v.plain code,
        v.shifted code,
        l.upper,
      )

  key_down-letter :
      b'a' ≤ letter code
      → (key_down false code k).machine
        ≡ printk "%c"
            (num (
                if xor k.capslock_state (shift_state k.keymap)
                then letter code - 32
                else letter code)
              ∷ [])
            k.machine
  unfolding key_down show pressed
  key_down-letter from = rw (
    toggle_locks-other code pressed l,
    char_of-letter,
    prints (xor k.capslock_state (shift_state k.keymap)) (letter code) from,
  )

-- On a valid keyboard with no pending prefix, the make code of a key whose plain character is a
-- small letter prints one character: the capital if exactly one of caps lock and a held shift key
-- is on, and the small letter otherwise.
pub handler_letter :
    (idt_index : ℕ) (k : Keyboard) (code : ℕ)
    → IsKeyboard k
    → k.extcode_state ≡ false
    → code ≤ 0x5f
    → b'a' ≤ letter code
    → letter code ≤ b'z'
    → let shift = xor k.capslock_state (shift_state k.keymap) in
      (keymap_handler idt_index code k).machine
      ≡ printk "%c"
          (num (if shift then letter code - 32 else letter code) ∷ [])
          (send_eoi idt_index k.machine)
handler_letter idt_index k code v plain small from until =
    rw (handler_make idt_index k code small, plain)
      (key_down-letter (answered idt_index k) code
        (record { rows = v.rows; plain = v.plain; shifted = v.shifted }) small
        (letter-IsLetterKey code small from until) from)
