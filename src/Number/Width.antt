-- ===== src/Number/Width.antt =====
-- How many bytes number writes, against the length that a number has.
use fun_size_os.Base.{
  ℕ, ◌+◌, ◌-◌, ◌^◌, ◌≤◌, ◌<◌, ◌≡◌, ◌⊎◌, refl, ◌∙◌, ap, arith, ◌==◌, length, if◌then◌else◌, Bool,
  ltb, leb, ◌||◌, ◌&&◌,
}
use fun_size_os.Number.{
  Out, has, special, prefix_size, number, sign_of, magnitude, is_below_zero, sign, plus, space,
  tmp_of, larger,
}
use fun_size_os.Number.Count.{digits_of, length-tmp_of}
use fun_size_os.Number.Needed.{needed, number-needed}

-- Whether a sign is shown, and the number without it, as signed decimal numbers are written.
abbrev pub shows_sign : ℕ → ℕ → Bool
shows_sign num type = (has type sign && leb (2 ^ 31) num) || has type plus || has type space

abbrev pub absolute : ℕ → ℕ → ℕ
absolute num type = if has type sign && leb (2 ^ 31) num then 2 ^ 32 - num else num

-- 0x or 0X in front of a special hexadecimal number, and 0 in front of an octal one.
abbrev pub prefix_length : ℕ → ℕ → ℕ
prefix_length base type =
    (if has type special && (base == 16) then 2 else 0)
    + (if has type special && (base == 8) then 1 else 0)

-- At least as many digits as the precision, where one is given.
abbrev pub digits_shown : ℕ → ℕ → ℕ
digits_shown digits precision =
    if ltb precision (2 ^ 31) && ltb digits precision then precision else digits

abbrev pub length_of : ℕ → ℕ → ℕ → ℕ → ℕ
length_of num base precision type =
    (if shows_sign num type then 1 else 0)
    + prefix_length base type
    + digits_shown (digits_of base (absolute num type)) precision

sign_of-shown :
    (num type : ℕ)
    → ◌≡◌ {A = ℕ} (if sign_of num type == 0 then 0 else 1) (if shows_sign num type then 1 else 0)
unfolding sign_of is_below_zero
sign_of-shown num type = ground arith

magnitude-absolute : (num type : ℕ) → num < 2 ^ 32 → magnitude num type ≡ absolute num type
unfolding magnitude is_below_zero
magnitude-absolute num type h = ground arith

absolute-lt : (num type : ℕ) → num < 2 ^ 32 → absolute num type < 2 ^ 32
absolute-lt num type h = ground arith

prefix_size-length : (base type : ℕ) → prefix_size base type ≡ prefix_length base type
unfolding prefix_size
prefix_size-length base type = ground arith

larger-shown :
    (n precision : ℕ)
    → (precision < 2 ^ 30) ⊎ (precision ≡ 2 ^ 32 - 1)
    → larger n precision ≡ digits_shown n precision
unfolding larger
larger-shown n precision q = ground arith

needed_is :
    (num base precision type : ℕ)
    → 2 ≤ base
    → num < 2 ^ 32
    → (precision < 2 ^ 30) ⊎ (precision ≡ 2 ^ 32 - 1)
    → needed num base precision type ≡ length_of num base precision type
needed_is num base precision type b h q =
    let n : ℕ = length (tmp_of (absolute num type) base) in
    rw
      (
        sign_of-shown num type,
        prefix_size-length base type,
        magnitude-absolute num type h,
        larger-shown n precision q,
        length-tmp_of (absolute num type) base b (absolute-lt num type h),
      )
      refl

-- For a base from 2 to 36, a width that is -1 or not negative, and a precision that is -1 or below
-- 2 ^ 30, number moves str on by the larger of the width and the length of the number: one for a
-- sign if the number is negative and SIGN is set or PLUS or SPACE is set, two for 0x and one for 0
-- in front of a special form, and as many digits as its absolute value has in the base, or the
-- precision if that is more.
pub number_width :
    (o : Out) (num base size precision type : ℕ)
    → 2 ≤ base
    → base ≤ 36
    → num < 2 ^ 32
    → (size < 2 ^ 31) ⊎ (size ≡ 2 ^ 32 - 1)
    → (precision < 2 ^ 30) ⊎ (precision ≡ 2 ^ 32 - 1)
    → let used = length_of num base precision type in
      (number o num base size precision type).str
      ≡ o.str + (if ltb size (2 ^ 31) && ltb used size then size else used)
number_width o num base size precision type b b' h w q =
    number-needed o num base size precision type b b' h w q
    ∙ ap (λ used. o.str + (if ltb size (2 ^ 31) && ltb used size then size else used))
        (needed_is num base precision type b h q)
