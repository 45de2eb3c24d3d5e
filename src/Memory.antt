-- ===== src/Memory.antt =====
-- Memory as a function from addresses to bytes, with the loads and stores of 8, 16 and 32 bits,
-- least significant byte first.
use fun_size_os.Base.{
  ℕ, ◌+◌, ◌*◌, ◌/◌, ◌^◌, ◌≤◌, ◌<◌, ◌≡◌, ◌≢◌, arith, ◌==◌, if◌then◌else◌, u8, u16, u32, ◌⊎◌, zero,
  suc, List, [], ◌∷◌, length, get_or, refl, ap, ◌∙◌,
}

abbrev pub Memory : Type 0
Memory = ℕ → ℕ

unfoldable pub store8 : Memory → ℕ → ℕ → Memory
store8 m a v b = if a == b then u8 v else m b

unfoldable pub store16 : Memory → ℕ → ℕ → Memory
unfolding store8
store16 m a v = store8 (store8 m a v) (a + 1) (v / 2 ^ 8)

unfoldable pub store32 : Memory → ℕ → ℕ → Memory
unfolding store16
store32 m a v = store16 (store16 m a v) (a + 2) (v / 2 ^ 16)

unfoldable pub load16 : Memory → ℕ → ℕ
load16 m a = m a + m (a + 1) * 2 ^ 8

unfoldable pub load32 : Memory → ℕ → ℕ
unfolding load16
load32 m a = load16 m a + load16 m (a + 2) * 2 ^ 16

module _ (m : Memory) (a v : ℕ) where
  pub store8_self : store8 m a v a ≡ u8 v
  unfolding store8
  store8_self = ground arith

  pub store8_ne : (b : ℕ) → a ≢ b → store8 m a v b ≡ m b
  unfolding store8
  store8_ne b h = ground arith

  pub load16-store16_self : load16 (store16 m a v) a ≡ u16 v
  unfolding load16 store16
  load16-store16_self = ground arith

  pub store16_ne : (b : ℕ) → (b < a) ⊎ (a + 2 ≤ b) → store16 m a v b ≡ m b
  unfolding store16
  store16_ne b h = ground arith

  pub store32_ne : (b : ℕ) → (b < a) ⊎ (a + 4 ≤ b) → store32 m a v b ≡ m b
  unfolding store32
  store32_ne b h = ground arith

  pub load16-store16_ne :
      (b : ℕ) → (b + 2 ≤ a) ⊎ (a + 2 ≤ b) → load16 (store16 m a v) b ≡ load16 m b
  unfolding load16
  load16-store16_ne b h = ground (arith, store16_ne b, store16_ne (b + 1))

  pub load32-store32_ne :
      (b : ℕ) → (b + 4 ≤ a) ⊎ (a + 4 ≤ b) → load32 (store32 m a v) b ≡ load32 m b
  unfolding load32
  load32-store32_ne b h =
      ground (arith, store32_ne b, store32_ne (b + 1), store32_ne (b + 2), store32_ne (b + 2 + 1))

  pub load32-store32_self : load32 (store32 m a v) a ≡ u32 v
  unfolding load32 store32
  load32-store32_self = ground arith

-- The bytes of a list, from `a` on.
unfoldable pub store_all : Memory → ℕ → List ℕ → Memory
store_all m a [] = m
store_all m a (b ∷ bs) = store_all (store8 m a b) (a + 1) bs

pub store_all_outside :
    (m : Memory) (a : ℕ) (bs : List ℕ) (c : ℕ)
    → (c < a) ⊎ (a + length bs ≤ c)
    → store_all m a bs c ≡ m c
unfolding store_all
store_all_outside m a [] c out = refl
store_all_outside m a (b ∷ bs) c out =
    store_all_outside (store8 m a b) (a + 1) bs c (omega arith) ∙ store8_ne m a b c (omega arith)

pub store_all_inside :
    (m : Memory) (a : ℕ) (bs : List ℕ) (i c : ℕ)
    → i < length bs
    → c ≡ a + i
    → store_all m a bs c ≡ u8 (get_or bs i 0)
unfolding store_all
store_all_inside m a [] i c h e = absurd (omega arith)
store_all_inside m a (b ∷ bs) zero c h e =
    let here : c ≡ a = omega arith in
    store_all_outside (store8 m a b) (a + 1) bs c (omega arith)
    ∙ ap (λ d. store8 m a b d) here
    ∙ store8_self m a b
store_all_inside m a (b ∷ bs) (suc i) c h e =
    store_all_inside (store8 m a b) (a + 1) bs i c (omega arith) (omega arith)

-- A load depends on its own bytes.
module _ (m m' : Memory) (a : ℕ) where
  pub load16-frame : ((c : ℕ) → a ≤ c → c < a + 2 → m' c ≡ m c) → load16 m' a ≡ load16 m a
  unfolding load16
  load16-frame same =
      omega (arith, same a (omega arith) (omega arith), same (a + 1) (omega arith) (omega arith))

  pub load32-frame : ((c : ℕ) → a ≤ c → c < a + 4 → m' c ≡ m c) → load32 m' a ≡ load32 m a
  unfolding load32 load16
  load32-frame same = omega (
    arith,
    same a (omega arith) (omega arith),
    same (a + 1) (omega arith) (omega arith),
    same (a + 2) (omega arith) (omega arith),
    same (a + 2 + 1) (omega arith) (omega arith),
  )

-- Every cell of a memory holds a byte.
abbrev pub IsBytes : Memory → Type 0
IsBytes m = (a : ℕ) → m a < 256

-- What was loaded before other writes is stored back: those bytes are again what they were.
module _ (m m' : Memory) (a : ℕ) (bytes : IsBytes m) (c : ℕ) where
  pub store16-load16 : ((c < a) ⊎ (a + 2 ≤ c) → m' c ≡ m c) → store16 m' a (load16 m a) c ≡ m c
  unfolding load16 store16 store8
  store16-load16 same = ground (arith, bytes a, bytes (a + 1))

  pub store32-load32 : ((c < a) ⊎ (a + 4 ≤ c) → m' c ≡ m c) → store32 m' a (load32 m a) c ≡ m c
  unfolding load32 load16 store32 store16 store8
  store32-load32 same = ground (arith, bytes a, bytes (a + 1), bytes (a + 2), bytes (a + 2 + 1))

module _ (m : Memory) (c : ℕ) (bytes : IsBytes m) where
  pub load16-lt : load16 m c < 2 ^ 16
  unfolding load16
  load16-lt = omega (arith, bytes c, bytes (c + 1))

  pub load32-lt : load32 m c < 2 ^ 32
  unfolding load32 load16
  load32-lt = omega (arith, bytes c, bytes (c + 1), bytes (c + 2), bytes (c + 2 + 1))
