-- ===== src/Vsprintf.antt =====
-- kernel/kernel/vsprintf.c: vsprintf, with the argument list of kernel/include/stdarg.h. Each loop
-- over the format, and each call of skip_atoi and strlen, has the same fuel; `none` means that it ran
-- out. The qualifier h, l or L is skipped, as the source reads it and does not use it.
pub mod Plain
pub mod Unsigned
mod Tests
use fun_size_os.Base.{
  ℕ, zero, suc, ◌+◌, ◌-◌, ◌^◌, Bool, true, false, ◌&&◌, ◌||◌, Option, none, some, ◌==◌,
  if◌then◌else◌, ltb, leb, sub32, ◌>>=◌,
}
use fun_size_os.Memory.{Memory, load32, store32}
use fun_size_os.CString.{strlen}
use fun_size_os.Number.{
  Out, zeropad, sign, plus, space, left, special, small, has, with_flag, is_digit, skip_atoi, put,
  pad, is_positive, rounds, number,
}

abbrev pub unset : ℕ
unset = 2 ^ 32 - 1

-- The flag that a character of the format sets, 0 for none.
unfoldable pub flag_of : ℕ → ℕ
flag_of c =
    if c == b'-'
    then left
    else if c == b'+'
    then plus
    else if c == b' '
    then space
    else if c == b'#'
    then special
    else if c == b'0'
    then zeropad
    else 0

-- From the `repeat` label on: the flags, and the address of the first character that is none.
unfoldable pub flag_loop : ℕ → Memory → ℕ → ℕ → Option (ℕ × ℕ)
flag_loop zero m fmt flags = none
flag_loop (suc fuel) m fmt flags =
    let flag = flag_of (m (fmt + 1)) in
    let rest = flag_loop fuel m (fmt + 1) (with_flag flags flag) in
    if flag == 0 then some (flags, fmt + 1) else rest

-- A conversion as far as it is read: `fmt` at the next character, `args` at the next argument.
pub record Directive : Type 0 where
  pub fmt : ℕ
  pub args : ℕ
  pub flags : ℕ
  pub field_width : ℕ
  pub precision : ℕ

-- A width of `*` is taken from the arguments, and `fmt` stays at the star.
unfoldable pub star_width : ℕ → Directive → Directive
star_width width d =
    if leb (2 ^ 31) width
    then record d { args = d.args + 4; field_width = sub32 0 width; flags = with_flag d.flags left }
    else record d { args = d.args + 4; field_width = width }

unfoldable pub read_width : ℕ → Memory → Directive → Option Directive
read_width fuel m d =
    if is_digit (m d.fmt)
    then elim (skip_atoi fuel m d.fmt) [
      | none ↦ none
      | some (width, fmt) ↦ some (record d { fmt = fmt; field_width = width })
    ]
    else if m d.fmt == b'*'
    then some (star_width (load32 m d.args) d)
    else some d

unfoldable pub clamp : ℕ → ℕ
clamp precision = if leb (2 ^ 31) precision then 0 else precision

unfoldable pub read_precision : ℕ → Memory → Directive → Option Directive
read_precision fuel m d =
    if m d.fmt == b'.'
    then if is_digit (m (d.fmt + 1))
      then elim (skip_atoi fuel m (d.fmt + 1)) [
        | none ↦ none
        | some (precision, fmt) ↦ some (record d { fmt = fmt; precision = clamp precision })
      ]
      else if m (d.fmt + 1) == b'*'
      then some
          (record d { fmt = d.fmt + 1; args = d.args + 4; precision = clamp (load32 m d.args) })
      else some (record d { fmt = d.fmt + 1; precision = 0 })
    else some d

unfoldable pub skip_qualifier : Memory → Directive → Directive
skip_qualifier m d =
    let c = m d.fmt in
    if c == b'h' || (c == b'l' || c == b'L') then record d { fmt = d.fmt + 1 } else d

unfoldable pub read_directive : ℕ → Memory → ℕ → ℕ → Option Directive
read_directive fuel m fmt args = do
  (flags, fmt') ← flag_loop fuel m fmt 0
  let start : Directive = record {
    fmt = fmt';
    args = args;
    flags = flags;
    field_width = unset;
    precision = unset;
  }
  wide ← read_width fuel m start
  exact ← read_precision fuel m wide
  some (skip_qualifier m exact)

-- `while (--field_width > 0)`: how often it runs, and what it leaves.
unfoldable pub early_rounds : ℕ → ℕ
early_rounds width = rounds (sub32 width 1)

unfoldable pub early_spent : ℕ → ℕ
early_spent width = if is_positive (sub32 width 1) then 0 else sub32 width 1

unfoldable pub put_char : Directive → Out → Out
put_char d o =
    let c = load32 o.memory d.args in
    if has d.flags left
    then pad (early_rounds d.field_width) b' ' (put c o)
    else pad (early_rounds (early_spent d.field_width)) b' '
        (put c (pad (early_rounds d.field_width) b' ' o))

-- `while (len < field_width--)`: how often it runs, and what it leaves.
unfoldable pub is_short : ℕ → ℕ → Bool
is_short len width = ltb len width && ltb width (2 ^ 31)

unfoldable pub gap : ℕ → ℕ → ℕ
gap len width = if is_short len width then width - len else 0

unfoldable pub gap_spent : ℕ → ℕ → ℕ
gap_spent len width = if is_short len width then sub32 len 1 else sub32 width 1

-- `*str++ = *s++`, `len` times.
unfoldable pub copy : ℕ → ℕ → Out → Out
copy zero s o = o
copy (suc len) s o = copy len (s + 1) (put (o.memory s) o)

unfoldable pub put_text : ℕ → ℕ → Directive → Out → Out
put_text s full d o =
    let len =
      if leb (2 ^ 31) d.precision
      then full
      else if ltb d.precision full
      then d.precision
      else full in
    if has d.flags left
    then pad (gap len d.field_width) b' ' (copy len s o)
    else pad (gap len (gap_spent len d.field_width)) b' '
        (copy len s (pad (gap len d.field_width) b' ' o))

unfoldable pub put_integer : ℕ → ℕ → Directive → Out → Out
put_integer base flags d o = number o (load32 o.memory d.args) base d.field_width d.precision flags

unfoldable pub put_pointer : Directive → Out → Out
put_pointer d o =
    let num = load32 o.memory d.args in
    if d.field_width == unset
    then number o num 16 8 d.precision (with_flag d.flags zeropad)
    else number o num 16 d.field_width d.precision d.flags

unfoldable pub is_integer : ℕ → Bool
is_integer c = c == b'o' || (c == b'x' || (c == b'X' || (c == b'd' || (c == b'i' || c == b'u'))))

-- The base of an integer conversion, and its flags.
unfoldable pub base_of : ℕ → ℕ
base_of c = if c == b'o' then 8 else if c == b'x' || c == b'X' then 16 else 10

unfoldable pub integer_flags : ℕ → ℕ → ℕ
integer_flags c flags =
    if c == b'x'
    then with_flag flags small
    else if c == b'd' || c == b'i'
    then with_flag flags sign
    else flags

unfoldable pub put_string : ℕ → Directive → Out → Option Out
put_string fuel d o =
    let s = load32 o.memory d.args in strlen fuel o.memory s >>= λ full. some (put_text s full d o)

unfoldable pub percent : ℕ → Out → Out
percent fmt o = if o.memory fmt == b'%' then o else put b'%' o

-- Any other character stands for itself, behind a percent sign if it is none.
unfoldable pub put_other : ℕ → Out → Out
put_other fmt o =
    let before = percent fmt o in
    let c = before.memory fmt in if c == 0 then before else put c before

-- `%n`: the length so far goes to the address in the argument.
unfoldable pub store_count : ℕ → Directive → Out → Out
store_count buf d o = record o { memory = store32 o.memory (load32 o.memory d.args) (o.str - buf) }

-- The conversion that the character at `fmt` names.
unfoldable pub convert : ℕ → ℕ → Directive → Out → Option Out
convert fuel buf d o =
    let c = o.memory d.fmt in
    if c == b'c'
    then some (put_char d o)
    else if c == b's'
    then put_string fuel d o
    else if is_integer c
    then some (put_integer (base_of c) (integer_flags c d.flags) d o)
    else if c == b'p'
    then some (put_pointer d o)
    else if c == b'n'
    then some (store_count buf d o)
    else some (put_other d.fmt o)

-- Whether a conversion takes an argument, and the argument list behind it.
unfoldable pub args_behind : ℕ → ℕ → ℕ
args_behind c args =
    if c == b'c' || (c == b's' || (is_integer c || (c == b'p' || c == b'n')))
    then args + 4
    else args

-- Where the loop goes on: at the zero byte if the directive ends there, and behind its last character
-- otherwise. The byte is read behind the percent sign that a directive without a conversion leaves,
-- which no other directive's last character depends on.
unfoldable pub fmt_behind : ℕ → Out → ℕ
fmt_behind fmt o = if (percent fmt o).memory fmt == 0 then fmt else fmt + 1

-- A directive from its percent sign at `fmt` on: the new output, where the loop goes on, and the
-- argument list behind it.
unfoldable pub directive : ℕ → ℕ → ℕ → ℕ → Out → Option (Out × ℕ × ℕ)
directive fuel buf fmt args o = do
  d ← read_directive fuel o.memory fmt args
  o' ← convert fuel buf d o
  some (o', fmt_behind d.fmt o, args_behind (o.memory d.fmt) d.args)

unfoldable pub format_loop : ℕ → ℕ → ℕ → ℕ → Out → Option Out
format_loop zero buf fmt args o = none
format_loop (suc fuel) buf fmt args o =
    let c = o.memory fmt in
    let plain = format_loop fuel buf (fmt + 1) args (put c o) in
    let behind = directive fuel buf fmt args o >>= λ r. format_loop fuel buf r.1 r.2 r.0 in
    if c == 0 then some o else if c == b'%' then behind else plain

-- The memory with the text and its zero byte in `buf`, and the length of the text.
unfoldable pub vsprintf : ℕ → Memory → ℕ → ℕ → ℕ → Option (Memory × ℕ)
vsprintf fuel m buf fmt args = do
  o ← format_loop fuel buf fmt args (record { memory = m; str = buf })
  some ((put 0 o).memory, o.str - buf)
