-- ===== src/Number/Count.antt =====
-- How many digits number of kernel/kernel/vsprintf.c works out.
use fun_size_os.Base.{
  ℕ, zero, suc, ◌+◌, ◌/◌, ◌%◌, ◌^◌, ◌≤◌, ◌<◌, ◌≡◌, ◌∙◌, ap, arith, List, [], ◌∷◌, ◌==◌, length,
  Bool-cases, inl, inr, ltb, refl, if◌then◌else◌,
}
use native.Mathlib.Nat.{div-lt_iff_lt-mul, le-div_iff_mul-le}
use fun_size_os.Number.{digit_loop, tmp_of}
use fun_size_os.Number.Digits.{halves}

-- One digit, and one more for each time that the number can be divided by the base before it is
-- below it.
abbrev pub count_digits : ℕ → ℕ → ℕ → ℕ
count_digits zero base num = 1
count_digits (suc fuel) base num =
    let rest = count_digits fuel base (num / base) in if ltb num base then 1 else suc rest

-- A number below 2 ^ 32 can be divided 31 times at most.
abbrev pub digits_of : ℕ → ℕ → ℕ
digits_of base num = count_digits 31 base num

digit_loop-zero : (fuel num base : ℕ) (tmp : List ℕ) → num ≡ 0 → digit_loop fuel num base tmp ≡ tmp
unfolding digit_loop
digit_loop-zero zero num base tmp z = refl
digit_loop-zero (suc fuel) num base tmp z = rw z refl

digit_loop_step :
    (fuel num base : ℕ) (tmp : List ℕ)
    → 1 ≤ num
    → digit_loop (suc fuel) num base tmp ≡ digit_loop fuel (num / base) base (num % base ∷ tmp)
unfolding digit_loop
digit_loop_step fuel num base tmp some_num = ground arith

div-is_zero : (num base : ℕ) → 2 ≤ base → num < base → num / base ≡ 0
div-is_zero num base b small =
    let below : num / base < 1 =
      (div-lt_iff_lt-mul {k = base} {x = num} {y = 1} (omega arith)).1 (omega arith) in
    omega (arith, below)

div-is_some : (num base : ℕ) → 2 ≤ base → base ≤ num → 1 ≤ num / base
div-is_some num base b big =
    (le-div_iff_mul-le {k = base} {x = 1} {y = num} (omega arith)).1 (omega arith)

digit_loop-count_digits :
    (fuel num base : ℕ) (tmp : List ℕ)
    → 2 ≤ base
    → num < 2 ^ suc fuel
    → 1 ≤ num
    → length (digit_loop (suc fuel) num base tmp) ≡ length tmp + count_digits fuel base num
digit_loop-count_digits zero num base tmp b h some_num =
    ap length (
      digit_loop_step 0 num base tmp some_num
      ∙ digit_loop-zero 0 (num / base) base (num % base ∷ tmp)
          (div-is_zero num base b (omega arith)))
    ∙ omega arith
digit_loop-count_digits (suc fuel) num base tmp b h some_num =
    ap length (digit_loop_step (suc fuel) num base tmp some_num)
    ∙ elim (Bool-cases (ltb num base)) [
      | inl small ↦
          ap length (
            digit_loop-zero (suc fuel) (num / base) base (num % base ∷ tmp)
              (div-is_zero num base b (ground (arith, small))))
          ∙ rw small omega arith
      | inr big ↦
          digit_loop-count_digits fuel (num / base) base (num % base ∷ tmp) b
            (halves num base (suc fuel) b h) (div-is_some num base b (ground (arith, big)))
          ∙ rw big omega arith
    ]

pub length-tmp_of :
    (num base : ℕ) → 2 ≤ base → num < 2 ^ 32 → length (tmp_of num base) ≡ digits_of base num
unfolding tmp_of
length-tmp_of num base b h = elim (Bool-cases (num == 0)) [
  | inl z ↦ rw z ground (arith, z)
  | inr nz ↦
      let count = digit_loop-count_digits 31 num base [] b h (ground (arith, nz)) in
      rw nz (count ∙ omega arith)
]
