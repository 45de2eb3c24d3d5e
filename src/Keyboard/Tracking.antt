-- ===== src/Keyboard/Tracking.antt =====
-- The table keeps track of which keys are down.
use fun_size_os.Base.{
  ℕ, zero, suc, ◌+◌, ◌%◌, ◌≤◌, ◌<◌, ◌≡◌, ◌≢◌, refl, arith, Bool, true, false, ◌&&◌, not, List, [],
  ◌∷◌, ◌==◌, sym, if◌then◌else◌, Bool-cases, inl, inr, ==_iff, length, set, length-set,
  get_or-set_self, get_or-set_ne, ap, ◌∙◌,
}
use fun_size_os.Traps.{send_eoi}
use fun_size_os.Keyboard.Keys.{Key, keymap}
use fun_size_os.Keyboard.{
  Keyboard, no_key, row, set_down, press, makecode_of, toggle_locks, char_of, show, key_down,
  keymap_handler, type_codes,
}

abbrev pub is_down : Bool → ℕ → List Key → Bool
is_down true code keys = (row code keys).down_ext
is_down false code keys = (row code keys).down

abbrev pub same_ext : Bool → Bool → Bool
same_ext true e = e
same_ext false e = not e

-- The table has a row for each key, with the characters of the initial table.
pub record IsKeyboard (k : Keyboard) : Type 0 where
  pub rows : length k.keymap ≡ 96
  pub plain : (j : ℕ) → (row j k.keymap).plain ≡ (row j keymap).plain
  pub shifted : (j : ℕ) → (row j k.keymap).shifted ≡ (row j keymap).shifted

set_down-chars :
    (ext b : Bool) (k : Key)
    → ((set_down ext b k).plain ≡ k.plain) × ((set_down ext b k).shifted ≡ k.shifted)
unfolding set_down
set_down-chars true b k = (refl, refl)
set_down-chars false b k = (refl, refl)

is_down_of_row :
    (keys keys' : List Key) (e : Bool) (j : ℕ)
    → row j keys' ≡ row j keys
    → is_down e j keys' ≡ is_down e j keys
is_down_of_row keys keys' true j h = ap (λ r. r.down_ext) h
is_down_of_row keys keys' false j h = ap (λ r. r.down) h

set_down-down :
    (e ext b : Bool) (keys keys' : List Key) (j : ℕ)
    → row j keys' ≡ set_down ext b (row j keys)
    → is_down e j keys' ≡ (if same_ext e ext then b else is_down e j keys)
unfolding set_down
set_down-down true true b keys keys' j h = ap (λ r. r.down_ext) h
set_down-down true false b keys keys' j h = ap (λ r. r.down_ext) h
set_down-down false true b keys keys' j h = ap (λ r. r.down) h
set_down-down false false b keys keys' j h = ap (λ r. r.down) h

module _ (keys : List Key) (code : ℕ) (ext b : Bool) (h : code < length keys) where
  pub row-press_self : row code (press code ext b keys) ≡ set_down ext b (row code keys)
  row-press_self = get_or-set_self keys code (set_down ext b (row code keys)) no_key h

  pub row-press_ne : (j : ℕ) → code ≢ j → row j (press code ext b keys) ≡ row j keys
  row-press_ne j ne = get_or-set_ne keys code j (set_down ext b (row code keys)) no_key ne

  pub press_chars :
      (j : ℕ)
      → ((row j (press code ext b keys)).plain ≡ (row j keys).plain)
        × ((row j (press code ext b keys)).shifted ≡ (row j keys).shifted)
  press_chars j = elim (Bool-cases (code == j)) [
    | inl e ↦ rw (← (==_iff code j).0 e, row-press_self) (set_down-chars ext b (row code keys))
    | inr e ↦ rw (row-press_ne j (ground arith)) (refl, refl)
  ]

  pub press_down :
      (e : Bool) (j : ℕ)
      → is_down e j (press code ext b keys)
        ≡ (if (j == code) && same_ext e ext then b else is_down e j keys)
  press_down e j = elim (Bool-cases (code == j)) [
    | inl q ↦
        let at = (==_iff code j).0 q in
        let same : (j == code) ≡ true = ground (arith, at) in
        rw same (rw (← at) (set_down-down e ext b keys (press code ext b keys) code row-press_self))
    | inr q ↦
        let other : (j == code) ≡ false = ground arith in
        rw other (is_down_of_row keys (press code ext b keys) e j (row-press_ne j (ground arith)))
  ]

pub makecode_of-mod : (scancode : ℕ) → makecode_of scancode ≡ scancode % 0x80
unfolding makecode_of
makecode_of-mod scancode = ground arith

-- The state in which the handler goes on after a byte that is not the prefix.
abbrev pub answered : ℕ → Keyboard → Keyboard
answered idt_index k = record k { machine = send_eoi idt_index k.machine; extcode_state = false }

module _ (idt_index : ℕ) (k : Keyboard) (code : ℕ) (small : code ≤ 0x5f) where
  pub handler_make :
      keymap_handler idt_index code k ≡ key_down k.extcode_state code (answered idt_index k)
  unfolding keymap_handler
  handler_make = ground (arith, makecode_of-mod code)

  pub handler_break :
      keymap_handler idt_index (code + 0x80) k
      ≡ record (answered idt_index k) { keymap = press code k.extcode_state false k.keymap }
  unfolding keymap_handler
  handler_break = ground (arith, makecode_of-mod (code + 0x80))

toggle_locks-keeps :
    (code : ℕ) (k : Keyboard)
    → ((toggle_locks code k).keymap ≡ k.keymap)
      × ((toggle_locks code k).extcode_state ≡ k.extcode_state)
      × ((toggle_locks code k).machine ≡ k.machine)
unfolding toggle_locks
toggle_locks-keeps code k = ground arith

show-keeps :
    (ch : ℕ) (k : Keyboard)
    → ((show ch k).keymap ≡ k.keymap) × ((show ch k).extcode_state ≡ k.extcode_state)
unfolding show
show-keeps ch k = ground arith

key_down-keeps :
    (ext : Bool) (code : ℕ) (k : Keyboard)
    → ((key_down ext code k).keymap ≡ press code ext true k.keymap)
      × ((key_down ext code k).extcode_state ≡ k.extcode_state)
unfolding key_down
key_down-keeps ext code k =
    let pressed : Keyboard = record k { keymap = press code ext true k.keymap } in
    let locked = toggle_locks code pressed in
    let shown = show-keeps (char_of ext code locked) locked in
    let kept = toggle_locks-keeps code pressed in (shown.0 ∙ kept.0, shown.1 ∙ kept.1)

-- `code` going down or, with `b` false, its break code.
abbrev pub code_of : Bool → ℕ → ℕ
code_of true code = code
code_of false code = code + 0x80

pub handler_keymap :
    (idt_index : ℕ) (k : Keyboard) (b : Bool) (code : ℕ)
    → code ≤ 0x5f
    → let k' = keymap_handler idt_index (code_of b code) k in
      (k'.keymap ≡ press code k.extcode_state b k.keymap) × (k'.extcode_state ≡ false)
handler_keymap idt_index k true code small =
    rw (handler_make idt_index k code small)
      (key_down-keeps k.extcode_state code (answered idt_index k))
handler_keymap idt_index k false code small = rw (handler_break idt_index k code small) (refl, refl)

press-IsKeyboard :
    (k k' : Keyboard) (code : ℕ) (ext b : Bool)
    → IsKeyboard k
    → code ≤ 0x5f
    → k'.keymap ≡ press code ext b k.keymap
    → IsKeyboard k'
press-IsKeyboard k k' code ext b v small e =
    let inside : code < length k.keymap = omega (arith, v.rows) in
    let chars = press_chars k.keymap code ext b inside in
    record {
      rows = ap length e ∙ length-set k.keymap code (set_down ext b (row code k.keymap)) ∙ v.rows;
      plain = λ j. ap (λ keys. (row j keys).plain) e ∙ (chars j).0 ∙ v.plain j;
      shifted = λ j. ap (λ keys. (row j keys).shifted) e ∙ (chars j).1 ∙ v.shifted j;
    }

-- On a valid keyboard table the make code of a key, or its break code, marks exactly that key as
-- down or up, in the plain or the extended column according to the pending prefix; it uses the
-- prefix up and keeps the table valid.
pub handler_tracks :
    (idt_index : ℕ) (k : Keyboard) (b : Bool) (code : ℕ)
    → IsKeyboard k
    → code ≤ 0x5f
    → let k' = keymap_handler idt_index (code_of b code) k in
      ((e : Bool) (j : ℕ)
        → is_down e j k'.keymap
          ≡ (if (j == code) && same_ext e k.extcode_state then b else is_down e j k.keymap))
      × (k'.extcode_state ≡ false)
      × IsKeyboard k'
handler_tracks idt_index k b code v small =
    let done = handler_keymap idt_index k b code small in
    let inside : code < length k.keymap = omega (arith, v.rows) in
    (
      λ e j. rw done.0 (press_down k.keymap code k.extcode_state b inside e j),
      done.1,
      press-IsKeyboard k _ code k.extcode_state b v small done.0,
    )

set-set : (keys : List Key) (i : ℕ) (a b : Key) → set (set keys i a) i b ≡ set keys i b
set-set [] i a b = refl
set-set (x ∷ keys) zero a b = refl
set-set (x ∷ keys) (suc i) a b = ap (λ r. x ∷ r) (set-set keys i a b)

set-row : (keys : List Key) (i : ℕ) → set keys i (row i keys) ≡ keys
set-row [] i = refl
set-row (x ∷ keys) zero = refl
set-row (x ∷ keys) (suc i) = ap (λ r. x ∷ r) (set-row keys i)

set_down-undo :
    (ext : Bool) (keys : List Key) (j : ℕ)
    → is_down ext j keys ≡ false
    → set_down ext false (set_down ext true (row j keys)) ≡ row j keys
unfolding set_down
set_down-undo true keys j up = ap {A = Bool} (λ b. record (row j keys) { down_ext = b }) (sym up)
set_down-undo false keys j up = ap {A = Bool} (λ b. record (row j keys) { down = b }) (sym up)

press-press :
    (keys : List Key) (code : ℕ) (ext : Bool)
    → code < length keys
    → is_down ext code keys ≡ false
    → press code ext false (press code ext true keys) ≡ keys
press-press keys code ext inside up =
    ap (λ r. set (press code ext true keys) code (set_down ext false r))
      (row-press_self keys code ext true inside)
    ∙ set-set keys code (set_down ext true (row code keys)) _
    ∙ ap (set keys code) (set_down-undo ext keys code up)
    ∙ set-row keys code

-- With no pending prefix, a key of a valid table that was up leaves the table as it was once it
-- has gone down and up again.
pub press_release :
    (k : Keyboard) (code : ℕ)
    → IsKeyboard k
    → code ≤ 0x5f
    → k.extcode_state ≡ false
    → is_down false code k.keymap ≡ false
    → (type_codes (code ∷ (code + 0x80) ∷ []) k).keymap ≡ k.keymap
unfolding type_codes
press_release k code v small plain up =
    let made = handler_keymap 0x21 k true code small in
    let broken = handler_keymap 0x21 (keymap_handler 0x21 code k) false code small in
    broken.0
    ∙ rw (made.1, made.0, plain) (press-press k.keymap code false (omega (arith, v.rows)) up)

handler_prefix :
    (k : Keyboard)
    → keymap_handler 0x21 0xe0 k
      ≡ record k { machine = send_eoi 0x21 k.machine; extcode_state = true }
unfolding keymap_handler
handler_prefix k = refl

-- A key of a valid table that was up in the extended column leaves the table as it was after the
-- prefix, its make code, the prefix and its break code.
pub press_release_ext :
    (k : Keyboard) (code : ℕ)
    → IsKeyboard k
    → code ≤ 0x5f
    → is_down true code k.keymap ≡ false
    → (type_codes (0xe0 ∷ code ∷ 0xe0 ∷ (code + 0x80) ∷ []) k).keymap ≡ k.keymap
unfolding type_codes
press_release_ext k code v small up =
    let armed = keymap_handler 0x21 0xe0 k in
    let down = keymap_handler 0x21 code armed in
    let again = keymap_handler 0x21 0xe0 down in
    let made = handler_keymap 0x21 armed true code small in
    let broken = handler_keymap 0x21 again false code small in
    broken.0
    ∙ rw (handler_prefix down, made.0, handler_prefix k)
        (press-press k.keymap code true (omega (arith, v.rows)) up)
