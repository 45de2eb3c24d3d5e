-- ===== src/Number/Decimal.antt =====
-- skip_atoi reads what number writes.
use fun_size_os.Base.{
  ℕ, zero, suc, ◌+◌, ◌-◌, ◌*◌, ◌^◌, ◌≤◌, ◌<◌, ◌≡◌, refl, ◌∙◌, ap, arith, inr, List, [], ◌∷◌, length,
  some, true, false, Bool, sub32, u8, u32,
}
use fun_size_os.Memory.{Memory, store8_self, store8_ne}
use fun_size_os.Number.{
  Out, has, zeropad, left, special, sign, plus, space, small, put, pad, put_all, rounds,
  is_positive, prefix_size, put_prefix, put_spaces, size_left, put_fill, size_last, put_sign,
  put_number, plan, number, sign_of, magnitude, is_below_zero, tmp_of, larger, digit, is_digit,
  skip_loop,
}
use fun_size_os.Number.Digits.{tmp_of_lem, value, AllBelow}
use fun_size_os.Number.Moves.{put_all-str, rounds-spent}

le-value : (i : ℕ) (ds : List ℕ) → i ≤ value 10 i ds
le-value i [] = omega arith
le-value i (d ∷ ds) = omega (arith, le-value (i * 10 + d) ds)

pub put_all_below :
    (lower : Bool) (ds : List ℕ) (o : Out) (a : ℕ)
    → a < o.str
    → (put_all lower ds o).memory a ≡ o.memory a
unfolding put_all put
put_all_below lower [] o a h = refl
put_all_below lower (d ∷ ds) o a h =
    put_all_below lower ds (put (digit lower d) o) a (omega arith)
    ∙ store8_ne o.memory o.str (digit lower d) a (omega arith)

put_all_head :
    (lower : Bool) (d : ℕ) (ds : List ℕ) (o : Out)
    → d < 10
    → (put_all lower (d ∷ ds) o).memory o.str ≡ d + b'0'
unfolding put_all put digit
put_all_head lower d ds o h =
    put_all_below lower ds (put (digit lower d) o) o.str (omega arith)
    ∙ store8_self o.memory o.str (digit lower d)
    ∙ ground arith

is_digit-shown : (d : ℕ) → d < 10 → is_digit (d + b'0') ≡ true
unfolding is_digit
is_digit-shown d h = ground arith

zero_is_none : is_digit (u8 0) ≡ false
unfolding is_digit
zero_is_none = refl

-- The text of the digits, and behind it a byte that is no digit.
abbrev pub IsText : Memory → ℕ → List ℕ → Type 0
IsText m s [] = is_digit (m s) ≡ false
IsText m s (d ∷ ds) = (m s ≡ d + b'0') × IsText m (s + 1) ds

pub skip_loop-IsText :
    (fuel : ℕ) (m : Memory) (s i : ℕ) (ds : List ℕ)
    → IsText m s ds
    → AllBelow 10 ds
    → value 10 i ds < 2 ^ 32
    → length ds < fuel
    → skip_loop fuel m s i ≡ some (value 10 i ds, s + length ds)
unfolding skip_loop
skip_loop-IsText zero m s i ds text all big h = absurd (omega arith)
skip_loop-IsText (suc fuel) m s i [] text all big h = rw text (ap (λ a. some (i, a)) (omega arith))
skip_loop-IsText (suc fuel) m s i (d ∷ ds) text all big h =
    let next : u32 (i * 10 + (d + b'0') + 2 ^ 32 - b'0') ≡ i * 10 + d =
      omega (arith, le-value (i * 10 + d) ds) in
    let rest = skip_loop-IsText fuel m (s + 1) (i * 10 + d) ds text.1 all.1 big (omega arith) in
    rw (text.0, is_digit-shown d all.0, next)
      (rest ∙ ap (λ a. some (value 10 (i * 10 + d) ds, a)) (omega arith))

-- The digits as they are put, behind them a zero byte, are a text.
pub put_all-IsText :
    (lower : Bool) (ds : List ℕ) (o : Out)
    → AllBelow 10 ds
    → IsText (put 0 (put_all lower ds o)).memory o.str ds
unfolding put put_all
put_all-IsText lower [] o all = ap (λ c. is_digit c) (store8_self o.memory o.str 0) ∙ zero_is_none
put_all-IsText lower (d ∷ ds) o all =
    let last = put_all lower (d ∷ ds) o in
    (
      store8_ne last.memory last.str 0 o.str (omega (arith, put_all-str lower (d ∷ ds) o))
          ∙ put_all_head lower d ds o all.0,
      put_all-IsText lower ds (put (digit lower d) o) all.1,
    )

no_rounds : (size : ℕ) → 2 ^ 31 ≤ size → rounds size ≡ 0
unfolding rounds is_positive
no_rounds size h = ground arith

self_sub : (n : ℕ) → n - n ≡ 0
self_sub n = omega arith

-- A number without flags, width and precision is its digits.
pub number-plain :
    (o : Out) (num : ℕ)
    → num < 2 ^ 32
    → number o num 10 (2 ^ 32 - 1) (2 ^ 32 - 1) 0 ≡ put_all false (tmp_of num 10) o
unfolding number plan put_number put_spaces put_sign put_prefix put_fill size_last size_left sign_of
    magnitude is_below_zero prefix_size larger has zeropad left special sign plus space small pad
number-plain o num h =
    let tmp = tmp_of num 10 in
    let fits = (tmp_of_lem num 10 (omega arith) h).fits in
    let size = sub32 (sub32 (2 ^ 32 - 1) 0) (length tmp) in
    let later = rounds-spent size (inr (omega arith)) in
    rw (no_rounds size (omega arith), later.0, later.1, self_sub (length tmp)) refl
