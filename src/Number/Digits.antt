-- ===== src/Number/Digits.antt =====
-- The digits that number works out: they stand for the number, and fit in its buffer.
use fun_size_os.Base.{
  ℕ, zero, suc, ◌+◌, ◌*◌, ◌/◌, ◌%◌, ◌^◌, ◌≤◌, ◌<◌, ◌≡◌, ◌∙◌, ap, arith, List, [], ◌∷◌, ◌==◌, length,
  Bool-cases, inl, inr, false,
}
use native.Mathlib.Nat.{div-lt_iff_lt-mul, div-add-mod', mod-lt, mul-le-mul_left}
use fun_size_os.Number.{digit_loop, tmp_of}

-- The number that a list of digits stands for, the first digit weighing most, after a start of `acc`.
abbrev pub value : ℕ → ℕ → List ℕ → ℕ
value base acc [] = acc
value base acc (d ∷ ds) = value base (acc * base + d) ds

abbrev pub AllBelow : ℕ → List ℕ → Type 0
AllBelow base [] = 0 ≤ base
AllBelow base (d ∷ ds) = (d < base) × AllBelow base ds

record IsWritten (base num : ℕ) (tmp ds : List ℕ) : Type 0 where
  same : value base 0 ds ≡ value base num tmp
  below : AllBelow base ds

pub halves : (num base fuel : ℕ) → 2 ≤ base → num < 2 ^ suc fuel → num / base < 2 ^ fuel
halves num base fuel b h =
    (div-lt_iff_lt-mul (omega arith)).1 (omega (arith, mul-le-mul_left (2 ^ fuel) b))

digit_loop_lem :
    (fuel num base : ℕ) (tmp : List ℕ)
    → 2 ≤ base
    → num < 2 ^ fuel
    → AllBelow base tmp
    → IsWritten base num tmp (digit_loop fuel num base tmp)
unfolding digit_loop
digit_loop_lem zero num base tmp b h all = record {
  same = ap (λ n. value base n tmp) (omega arith);
  below = all;
}
digit_loop_lem (suc fuel) num base tmp b h all = elim (Bool-cases (num == 0)) [
  | inl z ↦ rw z record { same = ap (λ n. value base n tmp) (ground (arith, z)); below = all }
  | inr nz ↦
      let rest =
        digit_loop_lem fuel (num / base) base (num % base ∷ tmp) b (halves num base fuel b h)
          (mod-lt num (omega arith), all) in
      rw nz record {
        same = rest.same ∙ ap (λ n. value base n tmp) (div-add-mod' num base);
        below = rest.below;
      }
]

length-digit_loop :
    (fuel num base : ℕ) (tmp : List ℕ) → length (digit_loop fuel num base tmp) ≤ length tmp + fuel
unfolding digit_loop
length-digit_loop zero num base tmp = omega arith
length-digit_loop (suc fuel) num base tmp = elim (Bool-cases (num == 0)) [
  | inl z ↦ rw z omega arith
  | inr nz ↦ rw nz omega (arith, length-digit_loop fuel (num / base) base (num % base ∷ tmp))
]

digit_loop-length :
    (fuel num base : ℕ) (tmp : List ℕ) → length tmp ≤ length (digit_loop fuel num base tmp)
unfolding digit_loop
digit_loop-length zero num base tmp = omega arith
digit_loop-length (suc fuel) num base tmp = elim (Bool-cases (num == 0)) [
  | inl z ↦ rw z omega arith
  | inr nz ↦ rw nz omega (arith, digit_loop-length fuel (num / base) base (num % base ∷ tmp))
]

digit_loop-nonempty : (num base : ℕ) → (num == 0) ≡ false → 1 ≤ length (digit_loop 32 num base [])
unfolding digit_loop
digit_loop-nonempty num base nz =
    rw nz omega (arith, digit_loop-length 31 (num / base) base (num % base ∷ []))

pub record Digits (num base : ℕ) (tmp : List ℕ) : Type 0 where
  pub same : value base 0 tmp ≡ num
  pub below : AllBelow base tmp
  pub some_digit : 1 ≤ length tmp
  pub fits : length tmp ≤ 32

-- For a base of at least 2, the digits that number works out of a number below 2 ^ 32 stand for
-- that number and are each below the base; there is at least one of them, and at most 32, where
-- the buffer has 36 places.
pub tmp_of_lem : (num base : ℕ) → 2 ≤ base → num < 2 ^ 32 → Digits num base (tmp_of num base)
unfolding tmp_of
tmp_of_lem num base b h = elim (Bool-cases (num == 0)) [
  | inl z ↦ rw z record {
    same = ground (arith, z);
    below = (omega arith, omega arith);
    some_digit = omega arith;
    fits = omega arith;
  }
  | inr nz ↦
      let all = digit_loop_lem 32 num base [] b h (omega arith) in
      rw nz record {
        same = all.same;
        below = all.below;
        some_digit = digit_loop-nonempty num base nz;
        fits = length-digit_loop 32 num base [];
      }
]
