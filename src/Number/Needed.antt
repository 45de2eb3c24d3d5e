-- ===== src/Number/Needed.antt =====
-- How far number moves str, in terms of what it works out on the way.
use fun_size_os.Base.{
  ℕ, ◌+◌, ◌-◌, ◌^◌, ◌≤◌, ◌<◌, ◌≡◌, ◌⊎◌, inl, inr, refl, ◌∙◌, ap, arith, ◌==◌, length, if◌then◌else◌,
  ltb, leb, ◌&&◌, sub32, Bool-cases, le→ltb,
}
use fun_size_os.Number.{
  Out, Plan, has, zeropad, left, special, rounds, is_positive, prefix_size, plan, number, sign_of,
  magnitude, is_below_zero, sign, plus, space, without_flag, tmp_of, larger,
}
use fun_size_os.Number.Digits.{tmp_of_lem}
use fun_size_os.Number.Moves.{IsWidth, put_number-str}

-- The bytes that the number itself needs: sign, prefix, and at least `precision` digits.
abbrev pub needed : ℕ → ℕ → ℕ → ℕ → ℕ
needed num base precision type =
    (if sign_of num type == 0 then 0 else 1)
    + prefix_size base type
    + larger (length (tmp_of (magnitude num type) base)) precision

-- Clearing ZEROPAD leaves the other flags alone.
kept :
    (type : ℕ)
    → (has (without_flag type zeropad) sign ≡ has type sign)
      × (has (without_flag type zeropad) plus ≡ has type plus)
      × (has (without_flag type zeropad) space ≡ has type space)
      × (has (without_flag type zeropad) special ≡ has type special)
unfolding has without_flag zeropad sign plus space special
kept type = (ground arith, ground arith, ground arith, ground arith)

below_zero-kept :
    (num type : ℕ) → is_below_zero num (without_flag type zeropad) ≡ is_below_zero num type
unfolding is_below_zero
below_zero-kept num type = ap (λ b. b && leb (2 ^ 31) num) (kept type).0

sign_of-kept : (num type : ℕ) → sign_of num (without_flag type zeropad) ≡ sign_of num type
unfolding sign_of
sign_of-kept num type = rw (below_zero-kept num type, (kept type).1, (kept type).2) refl

magnitude-kept : (num type : ℕ) → magnitude num (without_flag type zeropad) ≡ magnitude num type
unfolding magnitude
magnitude-kept num type = rw (below_zero-kept num type) refl

prefix_size-kept :
    (base type : ℕ) → prefix_size base (without_flag type zeropad) ≡ prefix_size base type
unfolding prefix_size
prefix_size-kept base type = rw (kept type).3 refl

magnitude-lt : (num type : ℕ) → num < 2 ^ 32 → magnitude num type < 2 ^ 32
unfolding magnitude
magnitude-lt num type h = ground arith

size_of : ℕ → ℕ → ℕ → ℕ → ℕ → ℕ
size_of num base size precision type =
    let inner =
      sub32 (if sign_of num type == 0 then size else sub32 size 1) (prefix_size base type) in
    sub32 inner (larger (length (tmp_of (magnitude num type) base)) precision)

record IsPlan (num base size precision type : ℕ) (p : Plan) : Type 0 where
  shown : p.sign_char ≡ sign_of num type
  tmp_is : p.tmp ≡ tmp_of (magnitude num type) base
  least : p.precision ≡ larger (length (tmp_of (magnitude num type) base)) precision
  before : prefix_size p.base p.type ≡ prefix_size base type
  size_is : p.size ≡ size_of num base size precision type

plan-IsPlan :
    (num base size precision type : ℕ)
    → IsPlan num base size precision type (plan num base size precision type)
unfolding plan size_of
plan-IsPlan num base size precision type = elim (Bool-cases (has type left)) [
  | inl e ↦
      rw (e, sign_of-kept num type, magnitude-kept num type, prefix_size-kept base type)
        record {
          shown = refl;
          tmp_is = refl;
          least = refl;
          before = prefix_size-kept base type;
          size_is = refl;
        }
  | inr e ↦ rw e record { shown = refl; tmp_is = refl; least = refl; before = refl; size_is = refl }
]

-- What the sign, the prefix and the digits leave of the width.
module _ (size least pre : ℕ) (small_pre : pre ≤ 2) (small_least : least < 2 ^ 30 + 33)
    (w : (size < 2 ^ 31) ⊎ (size ≡ 2 ^ 32 - 1)) where
  rest_of : ℕ → ℕ
  rest_of shown = sub32 (sub32 (if shown == 0 then size else sub32 size 1) pre) least

  rest_of-IsWidth : (shown : ℕ) → IsWidth (rest_of shown)
  unfolding rest_of
  rest_of-IsWidth shown = ground arith

  rounds-rest_of :
      (shown : ℕ)
      → let used = (if shown == 0 then 0 else 1) + pre + least in
        rounds (rest_of shown) + used ≡ (if ltb size (2 ^ 31) && ltb used size then size else used)
  unfolding rest_of rounds is_positive
  rounds-rest_of shown = ground arith

prefix_size-le : (base type : ℕ) → prefix_size base type ≤ 2
unfolding prefix_size
prefix_size-le base type = ground arith

larger-bounds :
    (n precision : ℕ)
    → n ≤ 32
    → (precision < 2 ^ 30) ⊎ (precision ≡ 2 ^ 32 - 1)
    → (n ≤ larger n precision) × (larger n precision < 2 ^ 30 + 33)
unfolding larger
larger-bounds n precision h q = ground arith

-- In terms of what the code works out.
pub number-needed :
    (o : Out) (num base size precision type : ℕ)
    → 2 ≤ base
    → base ≤ 36
    → num < 2 ^ 32
    → (size < 2 ^ 31) ⊎ (size ≡ 2 ^ 32 - 1)
    → (precision < 2 ^ 30) ⊎ (precision ≡ 2 ^ 32 - 1)
    → let used = needed num base precision type in
      (number o num base size precision type).str
      ≡ o.str + (if ltb size (2 ^ 31) && ltb used size then size else used)
unfolding number size_of rest_of
number-needed o num base size precision type b b' h w q =
    let p = plan num base size precision type in
    let is = plan-IsPlan num base size precision type in
    let tmp = tmp_of (magnitude num type) base in
    let least = larger (length tmp) precision in
    let digits = tmp_of_lem (magnitude num type) base b (magnitude-lt num type h) in
    let bounds = larger-bounds (length tmp) precision digits.fits q in
    let pre = prefix_size base type in
    let small_pre = prefix_size-le base type in
    let wide : IsWidth p.size =
      rw is.size_is (rest_of-IsWidth size least pre small_pre bounds.1 w (sign_of num type)) in
    let written = put_number-str p o wide in
    rw (le→ltb base 2 b, le→ltb 36 base b')
      (written
        ∙ rw (is.shown, is.tmp_is, is.least, is.before, is.size_is)
            (ap (λ k. o.str + k)
              (omega (
                arith,
                bounds.0,
                rounds-rest_of size least pre small_pre bounds.1 w (sign_of num type),
              ))))
