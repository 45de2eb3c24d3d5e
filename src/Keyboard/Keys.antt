-- ===== src/Keyboard/Keys.antt =====
-- The keys of kernel/kernel/chr_drv/keyboard.c: `key_index_t` and the table `keymap`.
use fun_size_os.Base.{ℕ, Bool, false, List, [], ◌∷◌}

-- `key_index_t`
pub data KeyIndex : Type 0 where
  key_none key_esc key_1 key_2 key_3 key_4 : KeyIndex
  key_5 key_6 key_7 key_8 key_9 key_0 : KeyIndex
  key_minus key_equal key_backspace key_tab key_q key_w : KeyIndex
  key_e key_r key_t key_y key_u key_i : KeyIndex
  key_o key_p key_bracket_l key_bracket_r key_enter key_ctrl_l : KeyIndex
  key_a key_s key_d key_f key_g key_h : KeyIndex
  key_j key_k key_l key_semicolon key_quote key_backquote : KeyIndex
  key_shift_l key_backslash key_z key_x key_c key_v : KeyIndex
  key_b key_n key_m key_comma key_point key_slash : KeyIndex
  key_shift_r key_star key_alt_l key_space key_capslock key_f1 : KeyIndex
  key_f2 key_f3 key_f4 key_f5 key_f6 key_f7 : KeyIndex
  key_f8 key_f9 key_f10 key_numlock key_scrlock key_pad_7 : KeyIndex
  key_pad_8 key_pad_9 key_pad_minus key_pad_4 key_pad_5 key_pad_6 : KeyIndex
  key_pad_plus key_pad_1 key_pad_2 key_pad_3 key_pad_0 key_pad_point : KeyIndex
  key_54 key_55 key_56 key_f11 key_f12 key_59 : KeyIndex
  key_win_l key_win_r key_clipboard key_5d key_5e key_print_screen : KeyIndex

-- The value of an enumerator is its place in the list.
abbrev pub index : KeyIndex → ℕ
index key_none = 0x00
index key_esc = 0x01
index key_1 = 0x02
index key_2 = 0x03
index key_3 = 0x04
index key_4 = 0x05
index key_5 = 0x06
index key_6 = 0x07
index key_7 = 0x08
index key_8 = 0x09
index key_9 = 0x0a
index key_0 = 0x0b
index key_minus = 0x0c
index key_equal = 0x0d
index key_backspace = 0x0e
index key_tab = 0x0f
index key_q = 0x10
index key_w = 0x11
index key_e = 0x12
index key_r = 0x13
index key_t = 0x14
index key_y = 0x15
index key_u = 0x16
index key_i = 0x17
index key_o = 0x18
index key_p = 0x19
index key_bracket_l = 0x1a
index key_bracket_r = 0x1b
index key_enter = 0x1c
index key_ctrl_l = 0x1d
index key_a = 0x1e
index key_s = 0x1f
index key_d = 0x20
index key_f = 0x21
index key_g = 0x22
index key_h = 0x23
index key_j = 0x24
index key_k = 0x25
index key_l = 0x26
index key_semicolon = 0x27
index key_quote = 0x28
index key_backquote = 0x29
index key_shift_l = 0x2a
index key_backslash = 0x2b
index key_z = 0x2c
index key_x = 0x2d
index key_c = 0x2e
index key_v = 0x2f
index key_b = 0x30
index key_n = 0x31
index key_m = 0x32
index key_comma = 0x33
index key_point = 0x34
index key_slash = 0x35
index key_shift_r = 0x36
index key_star = 0x37
index key_alt_l = 0x38
index key_space = 0x39
index key_capslock = 0x3a
index key_f1 = 0x3b
index key_f2 = 0x3c
index key_f3 = 0x3d
index key_f4 = 0x3e
index key_f5 = 0x3f
index key_f6 = 0x40
index key_f7 = 0x41
index key_f8 = 0x42
index key_f9 = 0x43
index key_f10 = 0x44
index key_numlock = 0x45
index key_scrlock = 0x46
index key_pad_7 = 0x47
index key_pad_8 = 0x48
index key_pad_9 = 0x49
index key_pad_minus = 0x4a
index key_pad_4 = 0x4b
index key_pad_5 = 0x4c
index key_pad_6 = 0x4d
index key_pad_plus = 0x4e
index key_pad_1 = 0x4f
index key_pad_2 = 0x50
index key_pad_3 = 0x51
index key_pad_0 = 0x52
index key_pad_point = 0x53
index key_54 = 0x54
index key_55 = 0x55
index key_56 = 0x56
index key_f11 = 0x57
index key_f12 = 0x58
index key_59 = 0x59
index key_win_l = 0x5a
index key_win_r = 0x5b
index key_clipboard = 0x5c
index key_5d = 0x5d
index key_5e = 0x5e
index key_print_screen = 0x5f

-- A row of `keymap`: the characters without and with shift, and whether the key is down, plain and
-- behind the prefix 0xe0.
pub record Key : Type 0 where
  pub plain : ℕ
  pub shifted : ℕ
  pub down : Bool
  pub down_ext : Bool

-- A key that prints nothing.
abbrev pub inv : ℕ
inv = 0

abbrev pub key : ℕ → ℕ → Key
key plain shifted = record { plain = plain; shifted = shifted; down = false; down_ext = false }

-- The initial table.
unfoldable pub keymap : List Key
keymap =
    key inv inv
    ∷ key 0x1b 0x1b
    ∷ key b'1' b'!'
    ∷ key b'2' b'@'
    ∷ key b'3' b'#'
    ∷ key b'4' b'$'
    ∷ key b'5' b'%'
    ∷ key b'6' b'^'
    ∷ key b'7' b'&'
    ∷ key b'8' b'*'
    ∷ key b'9' b'('
    ∷ key b'0' b')'
    ∷ key b'-' b'_'
    ∷ key b'=' b'+'
    ∷ key 0x08 0x08
    ∷ key 0x09 0x09
    ∷ key b'q' b'Q'
    ∷ key b'w' b'W'
    ∷ key b'e' b'E'
    ∷ key b'r' b'R'
    ∷ key b't' b'T'
    ∷ key b'y' b'Y'
    ∷ key b'u' b'U'
    ∷ key b'i' b'I'
    ∷ key b'o' b'O'
    ∷ key b'p' b'P'
    ∷ key b'[' b'{'
    ∷ key b']' b'}'
    ∷ key 0x0a 0x0a
    ∷ key inv inv
    ∷ key b'a' b'A'
    ∷ key b's' b'S'
    ∷ key b'd' b'D'
    ∷ key b'f' b'F'
    ∷ key b'g' b'G'
    ∷ key b'h' b'H'
    ∷ key b'j' b'J'
    ∷ key b'k' b'K'
    ∷ key b'l' b'L'
    ∷ key b';' b':'
    ∷ key 0x27 0x22
    ∷ key b'`' b'~'
    ∷ key inv inv
    ∷ key 0x5c b'|'
    ∷ key b'z' b'Z'
    ∷ key b'x' b'X'
    ∷ key b'c' b'C'
    ∷ key b'v' b'V'
    ∷ key b'b' b'B'
    ∷ key b'n' b'N'
    ∷ key b'm' b'M'
    ∷ key b',' b'<'
    ∷ key b'.' b'>'
    ∷ key b'/' b'?'
    ∷ key inv inv
    ∷ key b'*' b'*'
    ∷ key inv inv
    ∷ key b' ' b' '
    ∷ key inv inv
    ∷ key inv inv
    ∷ key inv inv
    ∷ key inv inv
    ∷ key inv inv
    ∷ key inv inv
    ∷ key inv inv
    ∷ key inv inv
    ∷ key inv inv
    ∷ key inv inv
    ∷ key inv inv
    ∷ key inv inv
    ∷ key inv inv
    ∷ key b'7' inv
    ∷ key b'8' inv
    ∷ key b'9' inv
    ∷ key b'-' b'-'
    ∷ key b'4' inv
    ∷ key b'5' inv
    ∷ key b'6' inv
    ∷ key b'+' b'+'
    ∷ key b'1' inv
    ∷ key b'2' inv
    ∷ key b'3' inv
    ∷ key b'0' inv
    ∷ key b'.' 0x7F
    ∷ key inv inv
    ∷ key inv inv
    ∷ key inv inv
    ∷ key inv inv
    ∷ key inv inv
    ∷ key inv inv
    ∷ key inv inv
    ∷ key inv inv
    ∷ key inv inv
    ∷ key inv inv
    ∷ key inv inv
    ∷ key inv inv
    ∷ []
