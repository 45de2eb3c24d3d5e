-- ===== src/Vsprintf/Unsigned.antt =====
-- What vsprintf prints for %u, skip_atoi reads back.
use fun_size_os.Base.{
  ℕ, suc, ◌+◌, ◌^◌, ◌<◌, ◌≡◌, ◌≢◌, refl, some, arith, ◌∙◌, ap, sym, length, ◌>>=◌, false,
}
use fun_size_os.Memory.{IsBytes, Memory, load32, load32-lt, store8_ne}
use fun_size_os.Number.{Out, put, put_all, skip_atoi, is_digit, tmp_of}
use fun_size_os.Number.Digits.{tmp_of_lem}
use fun_size_os.Number.Moves.{put_all-str}
use fun_size_os.Number.Decimal.{put_all_below, skip_loop-IsText, put_all-IsText, number-plain}
use fun_size_os.Vsprintf.{
  Directive, unset, flag_of, flag_loop, read_width, read_precision, skip_qualifier, read_directive,
  is_integer, base_of, integer_flags, put_integer, convert, percent, fmt_behind, args_behind,
  directive, format_loop, vsprintf,
}

-- The directive `%u`.
plain_directive : ℕ → ℕ → Directive
plain_directive fmt args = record {
  fmt = fmt;
  args = args;
  flags = 0;
  field_width = unset;
  precision = unset;
}

module _ (fuel : ℕ) (m : Memory) (fmt args : ℕ) (e : m fmt ≡ b'u') where
  read_width-u : read_width fuel m (plain_directive fmt args) ≡ some (plain_directive fmt args)
  unfolding read_width plain_directive is_digit
  read_width-u = rw e refl

  read_precision-u :
      read_precision fuel m (plain_directive fmt args) ≡ some (plain_directive fmt args)
  unfolding read_precision plain_directive
  read_precision-u = rw e refl

  skip_qualifier-u : skip_qualifier m (plain_directive fmt args) ≡ plain_directive fmt args
  unfolding skip_qualifier plain_directive
  skip_qualifier-u = rw e refl

flag_loop-u :
    (fuel : ℕ) (m : Memory) (fmt : ℕ)
    → m (fmt + 1) ≡ b'u'
    → flag_loop (suc fuel) m fmt 0 ≡ some (0, fmt + 1)
unfolding flag_loop flag_of
flag_loop-u fuel m fmt e = rw e refl

read_directive-u :
    (fuel : ℕ) (m : Memory) (fmt args : ℕ)
    → m (fmt + 1) ≡ b'u'
    → read_directive (suc fuel) m fmt args ≡ some (plain_directive (fmt + 1) args)
unfolding read_directive plain_directive
read_directive-u fuel m fmt args e = rw (flag_loop-u fuel m fmt e) (
    ap
      (λ o.
        o >>= λ wide. read_precision (suc fuel) m wide >>= λ exact. some (skip_qualifier m exact))
      (read_width-u (suc fuel) m (fmt + 1) args e)
    ∙ ap (λ o. o >>= λ exact. some (skip_qualifier m exact))
        (read_precision-u (suc fuel) m (fmt + 1) args e)
    ∙ ap (λ d. some d) (skip_qualifier-u (suc fuel) m (fmt + 1) args e))

convert-u :
    (fuel buf fmt args : ℕ) (o : Out)
    → o.memory fmt ≡ b'u'
    → load32 o.memory args < 2 ^ 32
    → convert fuel buf (plain_directive fmt args) o
      ≡ some (put_all false (tmp_of (load32 o.memory args) 10) o)
unfolding convert is_integer base_of integer_flags put_integer plain_directive
convert-u fuel buf fmt args o e small =
    rw e (ap (λ p. some p) (number-plain o (load32 o.memory args) small))

fmt_behind-u : (fmt : ℕ) (o : Out) → o.memory fmt ≡ b'u' → fmt ≢ o.str → fmt_behind fmt o ≡ fmt + 1
unfolding fmt_behind percent put
fmt_behind-u fmt o e away =
    rw e (rw (store8_ne o.memory o.str b'%' fmt (λ q. away (sym q)) ∙ e) refl)

directive-u :
    (fuel buf fmt args : ℕ) (o : Out)
    → o.memory (fmt + 1) ≡ b'u'
    → load32 o.memory args < 2 ^ 32
    → fmt + 1 ≢ o.str
    → directive (suc fuel) buf fmt args o
      ≡ some (
        put_all false (tmp_of (load32 o.memory args) 10) o,
        fmt + 1 + 1,
        args_behind (o.memory (fmt + 1)) args,
      )
unfolding directive plain_directive
directive-u fuel buf fmt args o e small away =
    rw
      (
        read_directive-u fuel o.memory fmt args e,
        convert-u (suc fuel) buf (fmt + 1) args o e small,
        fmt_behind-u (fmt + 1) o e away,
      )
      refl

-- The format `%u` as a whole.
format_loop-u :
    (fuel buf fmt args : ℕ) (o : Out)
    → o.memory fmt ≡ b'%'
    → o.memory (fmt + 1) ≡ b'u'
    → o.memory (fmt + 2) ≡ 0
    → load32 o.memory args < 2 ^ 32
    → fmt + 2 < o.str
    → format_loop (suc (suc fuel)) buf fmt args o
      ≡ some (put_all false (tmp_of (load32 o.memory args) 10) o)
unfolding format_loop
format_loop-u fuel buf fmt args o percent_at u_at zero_at small behind =
    let tmp = tmp_of (load32 o.memory args) 10 in
    let kept : (put_all false tmp o).memory (fmt + 1 + 1) ≡ 0 =
      put_all_below false tmp o (fmt + 1 + 1) (omega arith)
      ∙ ap (λ a. o.memory a) (omega arith)
      ∙ zero_at in
    rw (percent_at, directive-u fuel buf fmt args o u_at small (omega arith), kept) refl

-- With a memory of bytes and a buffer behind the format %u, vsprintf returns a result, with fuel 2
-- or more, and skip_atoi, with fuel 33, reads the argument back from the buffer and stops behind
-- as many bytes as vsprintf returned.
pub skip_atoi-vsprintf :
    (fuel : ℕ) (m : Memory) (buf fmt args : ℕ)
    → IsBytes m
    → m fmt ≡ b'%'
    → m (fmt + 1) ≡ b'u'
    → m (fmt + 2) ≡ 0
    → fmt + 2 < buf
    → (m' : Memory) × (n : ℕ) × (vsprintf (suc (suc fuel)) m buf fmt args ≡ some (m', n))
      × (skip_atoi 33 m' buf ≡ some (load32 m args, buf + n))
unfolding vsprintf skip_atoi
skip_atoi-vsprintf fuel m buf fmt args bytes percent_at u_at zero_at behind =
    let start : Out = record { memory = m; str = buf } in
    let num = load32 m args in
    let small = load32-lt m args bytes in
    let tmp = tmp_of num 10 in
    let digits = tmp_of_lem num 10 (omega arith) small in
    let last = put_all false tmp start in
    let str_at : last.str ≡ buf + length tmp = put_all-str false tmp start in
    (
      (put 0 last).memory,
      length tmp,
      rw (format_loop-u fuel buf fmt args start percent_at u_at zero_at small behind)
          (ap (λ n. some ((put 0 last).memory, n)) (omega (arith, str_at))),
      skip_loop-IsText 33 (put 0 last).memory buf 0 tmp
            (put_all-IsText false tmp start digits.below) digits.below (omega (arith, digits.same))
            (omega (arith, digits.fits))
          ∙ ap (λ n. some (n, buf + length tmp)) digits.same,
    )
