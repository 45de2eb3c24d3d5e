-- ===== src/Vsprintf/Tests.antt =====
-- Runs of vsprintf, and its theorems at concrete inputs.
use fun_size_os.Base.{
  ℕ, zero, suc, ◌<◌, ◌+◌, ◌-◌, ◌≡◌, refl, inr, arith, List, [], ◌∷◌, if◌then◌else◌, ltb, leb, ◌==◌,
  ◌&&◌, Option, some, get_or, map, ◌>>=◌,
}
use fun_size_os.Memory.{IsBytes, Memory, load16, load32, store8}
use fun_size_os.CString.{strcpy, strlen}
use fun_size_os.Number.{
  zeropad, sign, plus, space, left, special, small, has, with_flag, without_flag, is_digit,
  skip_loop, skip_atoi, put, pad, is_positive, rounds, spent, digit, digit_loop, tmp_of, put_all,
  is_below_zero, sign_of, magnitude, prefix_size, put_prefix, larger, plan, put_spaces, size_left,
  put_fill, size_last, put_sign, put_number, number,
}
use fun_size_os.Vsprintf.{
  flag_of, flag_loop, star_width, read_width, clamp, read_precision, skip_qualifier, read_directive,
  is_integer, base_of, integer_flags, put_integer, percent, put_other, convert, args_behind,
  fmt_behind, directive, format_loop, vsprintf,
}
use fun_size_os.Vsprintf.Plain.{IsPlain, vsprintf-strcpy}
use fun_size_os.Vsprintf.Unsigned.{skip_atoi-vsprintf}

-- A format at 0x100, and the low bytes of its arguments at 0x200, 0x204 and so on.
abbrev with_format : List ℕ → List ℕ → Memory
with_format fmt args a =
    if ltb a 0x200 && leb 0x100 a
    then get_or fmt (a - 0x100) 0
    else if a == 0x200
    then get_or args 0 0
    else if a == 0x204
    then get_or args 1 0
    else 0

-- The first six bytes in the buffer, and the length.
abbrev printed : List ℕ → List ℕ → Option (List ℕ × ℕ)
printed fmt args = vsprintf 9 (with_format fmt args) 0x500 0x100 0x200 >>= λ r.
    some (map r.0 (0x500 ∷ 0x501 ∷ 0x502 ∷ 0x503 ∷ 0x504 ∷ 0x505 ∷ []), r.1)

-- The width that "%5d" names, and the zeros of "%04x".
width_five :
    printed (b'%' ∷ b'5' ∷ b'd' ∷ []) (42 ∷ [])
    ≡ some (b' ' ∷ b' ' ∷ b' ' ∷ b'4' ∷ b'2' ∷ 0 ∷ [], 5)
unfolding vsprintf format_loop directive read_directive flag_loop flag_of read_width star_width
    clamp read_precision skip_qualifier is_integer base_of integer_flags put_integer percent
    put_other convert args_behind fmt_behind load32 load16 store8 zeropad sign plus space left
    special small has with_flag without_flag is_digit skip_loop skip_atoi put pad is_positive rounds
    spent digit digit_loop tmp_of put_all is_below_zero sign_of magnitude prefix_size put_prefix
    larger plan put_spaces size_left put_fill size_last put_sign put_number number
width_five = refl

hex_four :
    printed (b'%' ∷ b'0' ∷ b'4' ∷ b'x' ∷ []) (175 ∷ [])
    ≡ some (b'0' ∷ b'0' ∷ b'a' ∷ b'f' ∷ 0 ∷ 0 ∷ [], 4)
unfolding vsprintf format_loop directive read_directive flag_loop flag_of read_width star_width
    clamp read_precision skip_qualifier is_integer base_of integer_flags put_integer percent
    put_other convert args_behind fmt_behind load32 load16 store8 zeropad sign plus space left
    special small has with_flag without_flag is_digit skip_loop skip_atoi put pad is_positive rounds
    spent digit digit_loop tmp_of put_all is_below_zero sign_of magnitude prefix_size put_prefix
    larger plan put_spaces size_left put_fill size_last put_sign put_number number
hex_four = refl

-- A width of `*` is taken from the arguments, but the star is then read as the conversion: "%*d" is
-- printed as it stands.
star_kept :
    printed (b'%' ∷ b'*' ∷ b'd' ∷ []) (5 ∷ 42 ∷ []) ≡ some (b'%' ∷ b'*' ∷ b'd' ∷ 0 ∷ 0 ∷ 0 ∷ [], 3)
unfolding vsprintf format_loop directive read_directive flag_loop flag_of read_width star_width
    clamp read_precision skip_qualifier is_integer base_of integer_flags put_integer percent
    put_other convert args_behind fmt_behind load32 load16 store8 zeropad sign plus space left
    special small has with_flag without_flag is_digit skip_loop skip_atoi put pad is_positive rounds
    spent digit digit_loop tmp_of put_all is_below_zero sign_of magnitude prefix_size put_prefix
    larger plan put_spaces size_left put_fill size_last put_sign put_number number
star_kept = refl

hi-IsPlain : IsPlain (with_format (b'H' ∷ b'i' ∷ []) []) 0x100 0x102
hi-IsPlain = record {
  string = record { starts = omega arith; full = λ a p q. ground arith; ended = refl };
  plain = λ a p q. ground arith;
}

vsprintf-strcpy_example :
    let m = with_format (b'H' ∷ b'i' ∷ []) [] in
    (m' : Memory) × (vsprintf 3 m 0x500 0x100 0x200 ≡ some (m', 2))
    × (strcpy 3 m 0x500 0x100 ≡ some m')
    × (strlen 3 m 0x100 ≡ some 2)
vsprintf-strcpy_example =
    vsprintf-strcpy 3 (with_format (b'H' ∷ b'i' ∷ []) []) 0x500 0x100 0x200 0x102 hi-IsPlain
      (inr (omega arith)) (omega arith)

two_bytes : (i : ℕ) → get_or (b'%' ∷ b'u' ∷ []) i 0 < 256
two_bytes zero = omega arith
two_bytes (suc zero) = omega arith
two_bytes (suc (suc i)) = omega arith

count-IsBytes : IsBytes (with_format (b'%' ∷ b'u' ∷ []) (42 ∷ []))
count-IsBytes a = ground (arith, two_bytes (a - 0x100))

skip_atoi-vsprintf_example :
    let m = with_format (b'%' ∷ b'u' ∷ []) (42 ∷ []) in
    (m' : Memory) × (n : ℕ) × (vsprintf 2 m 0x500 0x100 0x200 ≡ some (m', n))
    × (skip_atoi 33 m' 0x500 ≡ some (42, 0x500 + n))
unfolding load32 load16
skip_atoi-vsprintf_example =
    skip_atoi-vsprintf 0 (with_format (b'%' ∷ b'u' ∷ []) (42 ∷ [])) 0x500 0x100 0x200 count-IsBytes
      refl refl refl (omega arith)
