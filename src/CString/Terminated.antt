-- ===== src/CString/Terminated.antt =====
-- strlen and strcpy on strings that end in a zero byte.
use fun_size_os.Base.{
  ℕ, zero, suc, ◌+◌, ◌-◌, ◌≤◌, ◌<◌, ◌≡◌, ◌≢◌, ◌⊎◌, inl, inr, refl, sym, some, arith, ◌∙◌, ap, ◌==◌,
  Bool-cases, ==_iff, u8,
}
use fun_size_os.Memory.{IsBytes, Memory, store8, store8_ne}
use fun_size_os.CString.Block.{memcpy_inside, memcpy_outside}
use fun_size_os.CString.{strlen_loop, memcpy, strlen, strcpy_loop, strcpy, IsString}

module _ {m : Memory} {s end : ℕ} (str : IsString m s end) where
  pub end_of_zero : m s ≡ 0 → s ≡ end
  end_of_zero z = ground (arith, str.starts, str.full s)

  pub lt_of_full : m s ≢ 0 → s < end
  lt_of_full z = ground (arith, str.starts, str.ended)

  pub IsString-tail : m s ≢ 0 → IsString m (s + 1) end
  IsString-tail z = record {
    starts = omega (arith, lt_of_full z);
    full = λ a p q. str.full a (omega arith) q;
    ended = str.ended;
  }

strlen_loop_lem :
    (fuel : ℕ) (m : Memory) (ptr end str : ℕ)
    → IsString m ptr end
    → end < ptr + fuel
    → strlen_loop fuel m ptr str ≡ some (end - str)
unfolding strlen_loop
strlen_loop_lem zero m ptr end str h lt = absurd (omega (arith, h.starts))
strlen_loop_lem (suc fuel) m ptr end str h lt = elim (Bool-cases (m ptr == 0)) [
  | inl z ↦ rw z (ap (λ k. some (k - str)) (end_of_zero h ((==_iff _ _).0 z)))
  | inr nz ↦
      rw nz
        (strlen_loop_lem fuel m (ptr + 1) end str (IsString-tail h (ground arith)) (omega arith))
]

-- On a string, and with fuel for its length and its zero byte, strlen returns the length.
pub strlen_lem :
    (fuel : ℕ) (m : Memory) (s end : ℕ)
    → IsString m s end
    → end < s + fuel
    → strlen fuel m s ≡ some (end - s)
unfolding strlen
strlen_lem fuel m s end str lt = strlen_loop_lem fuel m s end s str lt

pub IsString-store8 :
    {m : Memory} {s end : ℕ} (p v : ℕ)
    → IsString m s end
    → (p < s) ⊎ (end < p)
    → IsString (store8 m p v) s end
IsString-store8 {m} {s} {end} p v str out = record {
  starts = str.starts;
  full = λ a q r. rw (store8_ne m p v a (omega arith)) (str.full a q r);
  ended = store8_ne m p v end (omega (arith, str.starts)) ∙ str.ended;
}

-- A string depends on its own bytes.
pub IsString-frame :
    {m : Memory} (m' : Memory) {s end : ℕ}
    → ((a : ℕ) → s ≤ a → a ≤ end → m' a ≡ m a)
    → IsString m s end
    → IsString m' s end
IsString-frame {m} m' {s} {end} same str = record {
  starts = str.starts;
  full = λ a p q. rw (same a p (omega arith)) (str.full a p q);
  ended = same end str.starts (omega arith) ∙ str.ended;
}

strcpy_loop-memcpy :
    (fuel : ℕ) (m : Memory) (ptr src end : ℕ)
    → IsString m src end
    → (ptr < src) ⊎ (end < ptr)
    → end < src + fuel
    → strcpy_loop fuel m ptr src ≡ some (memcpy m ptr src (suc (end - src)))
unfolding strcpy_loop memcpy
strcpy_loop-memcpy zero m ptr src end str out lt = absurd (omega (arith, str.starts))
strcpy_loop-memcpy (suc fuel) m ptr src end str out lt = elim (Bool-cases (m src == 0)) [
  | inl z ↦
      let last : src ≡ end = end_of_zero str ((==_iff _ _).0 z) in
      let none_left : end - src ≡ 0 = omega arith in rw (kept, z, none_left)
  | inr nz ↦
      let more : IsString m (src + 1) end = IsString-tail str (ground arith) in
      let left : end - src ≡ suc (end - (src + 1)) = omega (arith, more.starts) in
      rw (kept, nz, left)
        (strcpy_loop-memcpy fuel (store8 m ptr (m src)) (ptr + 1) (src + 1) end
          (IsString-store8 ptr (m src) more (omega arith)) (omega arith) (omega arith))
]
  where
    kept : store8 m ptr (m src) src ≡ m src
    kept = store8_ne m ptr (m src) src (omega (arith, str.starts))

-- On a string that the destination does not overwrite ahead of the copy, strcpy does what memcpy
-- does with the length and the zero byte, with fuel for both.
pub strcpy-memcpy :
    (fuel : ℕ) (m : Memory) (dest src end : ℕ)
    → IsString m src end
    → (dest < src) ⊎ (end < dest)
    → end < src + fuel
    → strcpy fuel m dest src ≡ some (memcpy m dest src (suc (end - src)))
unfolding strcpy
strcpy-memcpy = strcpy_loop-memcpy

-- What strcpy leaves at the destination is a string of the same length.
pub memcpy-IsString :
    (m : Memory) (dest src end : ℕ)
    → IsBytes m
    → IsString m src end
    → (dest < src) ⊎ (end < dest)
    → IsString (memcpy m dest src (suc (end - src))) dest (dest + (end - src))
memcpy-IsString m dest src end bytes str out = record {
  starts = omega arith;
  full = λ a p q.
      rw
        (memcpy_inside m dest src (suc (end - src)) (a - dest) a (src + (a - dest))
          (omega (arith, str.starts)) (omega arith) (omega arith) refl)
        (λ z.
          str.full (src + (a - dest)) (omega arith) (omega arith)
            (omega (arith, bytes (src + (a - dest)))));
  ended =
      memcpy_inside m dest src (suc (end - src)) (end - src) (dest + (end - src)) end
        (omega (arith, str.starts)) (omega arith) refl (omega (arith, str.starts))
      ∙ ap u8 str.ended;
}

-- What strcpy leaves: the copy, and all else as it was.
pub record Copied (m : Memory) (dest src n : ℕ) (m' : Memory) : Type 0 where
  pub string : IsString m' dest (dest + n)
  pub same : (i : ℕ) → i ≤ n → m' (dest + i) ≡ m (src + i)
  pub outside : (a : ℕ) → (a < dest) ⊎ (dest + n < a) → m' a ≡ m a

-- With fuel for the string and its zero byte, strcpy of a string of bytes to a place that does not
-- overwrite it ahead of the copy ends, leaves a copy of the string with its zero byte at the
-- destination, on which strlen returns what it returns on the original, and writes nowhere else.
pub strcpy_lem :
    (fuel : ℕ) (m : Memory) (dest src end : ℕ)
    → IsBytes m
    → IsString m src end
    → (dest < src) ⊎ (end < dest)
    → end < src + fuel
    → (m' : Memory) × (strcpy fuel m dest src ≡ some m')
      × Copied m dest src (end - src) m'
      × (strlen fuel m' dest ≡ strlen fuel m src)
strcpy_lem fuel m dest src end bytes str out lt =
    let n : ℕ = end - src in
    let m' = memcpy m dest src (suc n) in
    let copy = memcpy-IsString m dest src end bytes str out in
    (
      m',
      strcpy-memcpy fuel m dest src end str out lt,
      record {
        string = copy;
        same = λ i h.
            memcpy_inside m dest src (suc n) i (dest + i) (src + i) (omega (arith, str.starts))
              (omega arith) refl refl
            ∙ omega (arith, bytes (src + i));
        outside = λ a q. memcpy_outside m dest src (suc n) a (omega arith);
      },
      strlen_lem fuel m' dest (dest + n) copy (omega (arith, str.starts))
          ∙ ap some (omega arith)
          ∙ sym (strlen_lem fuel m src end str lt),
    )
