-- ===== src/Number/Moves.antt =====
-- How far each part of number moves str.
use fun_size_os.Base.{
  ℕ, zero, suc, ◌+◌, ◌-◌, ◌^◌, ◌≤◌, ◌<◌, ◌≡◌, ◌⊎◌, inl, inr, arith, List, [], ◌∷◌, ◌==◌, length,
  if◌then◌else◌, true, false, Bool, ◌||◌, Bool-cases,
}
use fun_size_os.Number.{
  Out, Plan, has, zeropad, left, put, pad, put_all, rounds, spent, is_positive, prefix_size,
  put_prefix, put_spaces, size_left, put_fill, size_last, put_sign, put_number, small, digit,
}

pub pad-str : (n c : ℕ) (o : Out) → (pad n c o).str ≡ o.str + n
unfolding pad put
pad-str zero c o = omega arith
pad-str (suc n) c o = omega (arith, pad-str n c (put c o))

pub put_all-str :
    (lower : Bool) (tmp : List ℕ) (o : Out) → (put_all lower tmp o).str ≡ o.str + length tmp
unfolding put_all put
put_all-str lower [] o = omega arith
put_all-str lower (d ∷ tmp) o = omega (arith, put_all-str lower tmp (put (digit lower d) o))

put_prefix-str :
    (base type : ℕ) (o : Out) → (put_prefix base type o).str ≡ o.str + prefix_size base type
unfolding put_prefix prefix_size put
put_prefix-str base type o = ground arith

put_sign-str :
    (p : Plan) (o : Out) → (put_sign p o).str ≡ o.str + (if p.sign_char == 0 then 0 else 1)
unfolding put_sign put
put_sign-str p o = ground arith

-- A width that no decrement takes across the end of the signed words.
abbrev pub IsWidth : ℕ → Type 0
IsWidth size = (size < 2 ^ 31) ⊎ ((2 ^ 31 + 2 ≤ size) × (size < 2 ^ 32))

pub rounds-spent :
    (size : ℕ) → IsWidth size → (rounds (spent size) ≡ 0) × (rounds (spent (spent size)) ≡ 0)
unfolding rounds spent is_positive
rounds-spent size h = ground arith

module _ (size : ℕ) (h : IsWidth size) where
  -- The three loops that pad run as often together as one would.
  padding :
      (z l : Bool)
      → let middle = if z || l then size else spent size in
        (if z || l then 0 else rounds size)
          + (if l then 0 else rounds middle)
          + rounds (if l then middle else spent middle)
        ≡ rounds size
  padding true true = omega arith
  padding false true = omega arith
  padding true false = omega (arith, (rounds-spent size h).0)
  padding false false = omega (arith, (rounds-spent size h).0, (rounds-spent size h).1)

padded :
    (p : Plan)
    → IsWidth p.size
    → (if has p.type zeropad || has p.type left then 0 else rounds p.size)
        + (if has p.type left then 0 else rounds (size_left p))
        + rounds (size_last p)
      ≡ rounds p.size
unfolding size_left size_last
padded p h = padding p.size h (has p.type zeropad) (has p.type left)

put_spaces-str :
    (p : Plan) (o : Out)
    → (put_spaces p o).str
      ≡ o.str + (if has p.type zeropad || has p.type left then 0 else rounds p.size)
unfolding put_spaces
put_spaces-str p o = ground (arith, pad-str (rounds p.size) b' ' o)

put_fill-str :
    (p : Plan) (o : Out)
    → (put_fill p o).str ≡ o.str + (if has p.type left then 0 else rounds (size_left p))
unfolding put_fill
put_fill-str p o = elim (Bool-cases (has p.type left)) [
  | inl e ↦ rw e omega arith
  | inr e ↦ rw e (pad-str (rounds (size_left p)) (if has p.type zeropad then b'0' else b' ') o)
]

pub put_number-str :
    (p : Plan) (o : Out)
    → IsWidth p.size
    → (put_number p o).str
      ≡ o.str
        + (rounds p.size
            + (if p.sign_char == 0 then 0 else 1)
            + prefix_size p.base p.type
            + ((p.precision - length p.tmp) + length p.tmp))
unfolding put_number
put_number-str p o h =
    let spaces = put_spaces p o in
    let signed = put_sign p spaces in
    let prefixed = put_prefix p.base p.type signed in
    let filled = put_fill p prefixed in
    let zeros = pad (p.precision - length p.tmp) b'0' filled in
    let digits = put_all (has p.type small) p.tmp zeros in
    omega (
      arith,
      pad-str (rounds (size_last p)) b' ' digits,
      put_all-str (has p.type small) p.tmp zeros,
      pad-str (p.precision - length p.tmp) b'0' filled,
      put_fill-str p prefixed,
      put_prefix-str p.base p.type signed,
      put_sign-str p spaces,
      put_spaces-str p o,
      padded p h,
    )
