-- ===== src/Number.antt =====
-- kernel/kernel/vsprintf.c: skip_atoi and number, over the flat memory. An `int` is its bit pattern.
pub mod Digits
pub mod Count
pub mod Moves
pub mod Needed
pub mod Width
pub mod Decimal
mod Tests
use fun_size_os.Base.{
  ℕ, zero, suc, ◌+◌, ◌-◌, ◌*◌, ◌/◌, ◌%◌, ◌^◌, Bool, true, false, ◌&&◌, ◌||◌, Option, none, some,
  List, [], ◌∷◌, ◌==◌, if◌then◌else◌, ltb, leb, sub32, u32, length,
}
use fun_size_os.Memory.{Memory, store8}

-- The flags, each of one bit.
unfoldable pub zeropad : ℕ
zeropad = 1

unfoldable pub sign : ℕ
sign = 2

unfoldable pub plus : ℕ
plus = 4

unfoldable pub space : ℕ
space = 8

unfoldable pub left : ℕ
left = 16

unfoldable pub special : ℕ
special = 32

unfoldable pub small : ℕ
small = 64

-- `type & flag`, `type | flag` and `type & ~flag`, for a flag of one bit.
unfoldable pub has : ℕ → ℕ → Bool
has type flag = type / flag % 2 == 1

unfoldable pub with_flag : ℕ → ℕ → ℕ
with_flag type flag = if has type flag then type else type + flag

unfoldable pub without_flag : ℕ → ℕ → ℕ
without_flag type flag = if has type flag then type - flag else type

unfoldable pub is_digit : ℕ → Bool
is_digit c = leb b'0' c && leb c b'9'

-- The number at `s`, and the address behind it; `none` means that the fuel ran out.
unfoldable pub skip_loop : ℕ → Memory → ℕ → ℕ → Option (ℕ × ℕ)
skip_loop zero m s i = none
skip_loop (suc fuel) m s i =
    let rest = skip_loop fuel m (s + 1) (u32 (i * 10 + m s + 2 ^ 32 - b'0')) in
    if is_digit (m s) then rest else some (i, s)

unfoldable pub skip_atoi : ℕ → Memory → ℕ → Option (ℕ × ℕ)
skip_atoi fuel m s = skip_loop fuel m s 0

-- What is written so far: the memory, and `str` behind the last byte.
pub record Out : Type 0 where
  pub memory : Memory
  pub str : ℕ

-- `*str++ = c`
unfoldable pub put : ℕ → Out → Out
put c o = record { memory = store8 o.memory o.str c; str = o.str + 1 }

unfoldable pub pad : ℕ → ℕ → Out → Out
pad zero c o = o
pad (suc n) c o = pad n c (put c o)

unfoldable pub is_positive : ℕ → Bool
is_positive n = ltb 0 n && ltb n (2 ^ 31)

-- How often `while (size-- > 0)` runs, and what it leaves in `size`.
unfoldable pub rounds : ℕ → ℕ
rounds size = if is_positive size then size else 0

unfoldable pub spent : ℕ → ℕ
spent size = if is_positive size then 2 ^ 32 - 1 else sub32 size 1

-- `digits[d]`: the digits in order, then the letters in upper or lower case.
unfoldable pub digit : Bool → ℕ → ℕ
digit lower d = if ltb d 10 then b'0' + d else if lower then b'a' + (d - 10) else b'A' + (d - 10)

-- The loop that fills `tmp`, the digit written last in front. It divides an unsigned number below
-- 2 ^ 32 by at least 2, so it ends within 32 rounds.
unfoldable pub digit_loop : ℕ → ℕ → ℕ → List ℕ → List ℕ
digit_loop zero num base tmp = tmp
digit_loop (suc fuel) num base tmp =
    let rest = digit_loop fuel (num / base) base (num % base ∷ tmp) in
    if num == 0 then tmp else rest

unfoldable pub tmp_of : ℕ → ℕ → List ℕ
tmp_of num base = if num == 0 then 0 ∷ [] else digit_loop 32 num base []

-- `while (i-- > 0) *str++ = tmp[i]`
unfoldable pub put_all : Bool → List ℕ → Out → Out
put_all lower [] o = o
put_all lower (d ∷ tmp) o = put_all lower tmp (put (digit lower d) o)

-- The sign that is shown, 0 for none, and the number without it.
unfoldable pub is_below_zero : ℕ → ℕ → Bool
is_below_zero num type = has type sign && leb (2 ^ 31) num

unfoldable pub sign_of : ℕ → ℕ → ℕ
sign_of num type =
    if is_below_zero num type
    then b'-'
    else if has type plus
    then b'+'
    else if has type space
    then b' '
    else 0

unfoldable pub magnitude : ℕ → ℕ → ℕ
magnitude num type = if is_below_zero num type then sub32 0 num else num

-- The length of the prefix of a special form.
unfoldable pub prefix_size : ℕ → ℕ → ℕ
prefix_size base type =
    if has type special then if base == 16 then 2 else if base == 8 then 1 else 0 else 0

unfoldable pub put_prefix : ℕ → ℕ → Out → Out
put_prefix base type o =
    if has type special
    then if base == 8
      then put b'0' o
      else if base == 16
      then put (digit (has type small) 33) (put b'0' o)
      else o
    else o

-- What `number` has worked out before it writes: `size` is what the sign, the prefix and the digits
-- leave of the width, and `precision` at least the number of digits.
pub record Plan : Type 0 where
  pub type : ℕ
  pub base : ℕ
  pub sign_char : ℕ
  pub tmp : List ℕ
  pub precision : ℕ
  pub size : ℕ

unfoldable pub larger : ℕ → ℕ → ℕ
larger i precision = if leb (2 ^ 31) precision || ltb precision i then i else precision

unfoldable pub plan : ℕ → ℕ → ℕ → ℕ → ℕ → Plan
plan num base size precision given =
    let type = if has given left then without_flag given zeropad else given in
    let shown = sign_of num type in
    let tmp = tmp_of (magnitude num type) base in
    let inner = sub32 (if shown == 0 then size else sub32 size 1) (prefix_size base type) in
    let least = larger (length tmp) precision in
    record {
      type = type;
      base = base;
      sign_char = shown;
      tmp = tmp;
      precision = least;
      size = sub32 inner least;
    }

-- Spaces in front of the sign, where nothing else fills the width.
unfoldable pub put_spaces : Plan → Out → Out
put_spaces p o = if has p.type zeropad || has p.type left then o else pad (rounds p.size) b' ' o

unfoldable pub size_left : Plan → ℕ
size_left p = if has p.type zeropad || has p.type left then p.size else spent p.size

-- Zeros between the prefix and the digits; `c` is a space without ZEROPAD, and then nothing is left.
unfoldable pub put_fill : Plan → Out → Out
put_fill p o =
    if has p.type left
    then o
    else pad (rounds (size_left p)) (if has p.type zeropad then b'0' else b' ') o

unfoldable pub size_last : Plan → ℕ
size_last p = if has p.type left then size_left p else spent (size_left p)

unfoldable pub put_sign : Plan → Out → Out
put_sign p o = if p.sign_char == 0 then o else put p.sign_char o

unfoldable pub put_number : Plan → Out → Out
put_number p o =
    let filled = put_fill p (put_prefix p.base p.type (put_sign p (put_spaces p o))) in
    let zeros = pad (p.precision - length p.tmp) b'0' filled in
    let digits = put_all (has p.type small) p.tmp zeros in pad (rounds (size_last p)) b' ' digits

-- A base out of range gives the NULL pointer.
unfoldable pub number : Out → ℕ → ℕ → ℕ → ℕ → ℕ → Out
number o num base size precision type =
    if ltb base 2 || ltb 36 base
    then record o { str = 0 }
    else put_number (plan num base size precision type) o
