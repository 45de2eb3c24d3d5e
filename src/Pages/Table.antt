-- ===== src/Pages/Table.antt =====
-- The table of pages: how many of its bytes are set, the scan through it, and the invariant.
use fun_size_os.Base.{
  ℕ, zero, suc, ◌+◌, ◌^◌, ◌≤◌, ◌<◌, ◌≡◌, ◌≢◌, ◌⊎◌, refl, none, some, arith, ◌==◌, Bool-cases, inl,
  inr, add32, ap, ==_iff,
}
use fun_size_os.Memory.{Memory, store8, store8_self, store8_ne}
use fun_size_os.Pages.{find_loop}

-- The sum of the first `n` bytes of the table.
unfoldable pub marks : Memory → ℕ → ℕ → ℕ
marks m map zero = 0
marks m map (suc n) = marks m map n + m (map + n)

marks-zero : (m : Memory) (map : ℕ) → marks m map 0 ≡ 0
unfolding marks
marks-zero m map = refl

pub marks-suc : (m : Memory) (map n : ℕ) → marks m map (suc n) ≡ marks m map n + m (map + n)
unfolding marks
marks-suc m map n = refl

pub marks-store8_outside :
    (m : Memory) (map n a b : ℕ)
    → (a < map) ⊎ (map + n ≤ a)
    → marks (store8 m a b) map n ≡ marks m map n
unfolding marks
marks-store8_outside m map zero a b out = refl
marks-store8_outside m map (suc n) a b out =
    rw (marks-store8_outside m map n a b (omega arith), store8_ne m a b (map + n) (omega arith))

pub marks-store8 :
    (m : Memory) (map n i b : ℕ)
    → i < n
    → b < 256
    → marks (store8 m (map + i) b) map n + m (map + i) ≡ marks m map n + b
marks-store8 m map zero i b h small = absurd (omega arith)
marks-store8 m map (suc n) i b h small = elim (Bool-cases (i == n)) [
  | inl e ↦ rw ((==_iff i n).0 e) (
      omega (
        arith,
        marks-suc (store8 m (map + n) b) map n,
        marks-suc m map n,
        marks-store8_outside m map n (map + n) b (omega arith),
        store8_self m (map + n) b,
      ))
  | inr e ↦
      let ne : i ≢ n = ground arith in
      omega (
        arith,
        marks-suc (store8 m (map + i) b) map n,
        marks-suc m map n,
        marks-store8 m map n i b (omega arith) small,
        store8_ne m (map + i) b (map + n) (omega arith),
      )
]

module _ (m : Memory) (map : ℕ) where
  -- Every byte of the first `n` is 0 or 1.
  abbrev pub Flags : ℕ → Type 0
  Flags n = (i : ℕ) → i < n → m (map + i) ≤ 1

  pub Flags-tail : (n : ℕ) → Flags (suc n) → Flags n
  Flags-tail n flags i h = flags i (omega arith)

  pub marks-le : (n : ℕ) → Flags n → marks m map n ≤ n
  marks-le zero flags = omega (arith, marks-zero m map)
  marks-le (suc n) flags =
      omega (arith, marks-suc m map n, flags n (omega arith), marks-le n (Flags-tail n flags))

  -- A free page among the first `n` keeps their count below `n`.
  pub marks-lt : (n i : ℕ) → Flags n → i < n → m (map + i) ≡ 0 → marks m map n < n
  marks-lt zero i flags h z = absurd (omega arith)
  marks-lt (suc n) i flags h z = elim (Bool-cases (i == n)) [
    | inl e ↦ omega (
      arith,
      marks-suc m map n,
      marks-le n (Flags-tail n flags),
      ap (λ k. m (map + k)) ((==_iff i n).0 e),
    )
    | inr e ↦
        let ne : i ≢ n = ground arith in
        omega (
          arith,
          marks-suc m map n,
          marks-lt n i (Flags-tail n flags) (omega arith) z,
          flags n (omega arith),
        )
  ]

  -- A set byte counts.
  pub le-marks : (n i : ℕ) → i < n → m (map + i) ≤ marks m map n
  le-marks zero i h = absurd (omega arith)
  le-marks (suc n) i h = elim (Bool-cases (i == n)) [
    | inl e ↦ omega (arith, marks-suc m map n, ap (λ k. m (map + k)) ((==_iff i n).0 e))
    | inr e ↦
        let ne : i ≢ n = ground arith in
        omega (arith, marks-suc m map n, le-marks n i (omega arith))
  ]

-- What the scan of the table from `i` up to `total` finds.
pub record FirstFree (m : Memory) (map i total k : ℕ) : Type 0 where
  pub lower : i ≤ k
  pub upper : k < total
  pub free : m (map + k) ≡ 0
  pub taken : (j : ℕ) → i ≤ j → j < k → m (map + j) ≢ 0

abbrev pub AllTaken : Memory → ℕ → ℕ → ℕ → Type 0
AllTaken m map i total = (j : ℕ) → i ≤ j → j < total → m (map + j) ≢ 0

add32-eq : (a b : ℕ) → a + b < 2 ^ 32 → add32 a b ≡ a + b
add32-eq a b h = omega arith

module _ (m : Memory) (map total : ℕ) (fits : map + total ≤ 2 ^ 32) where
  pub find_loop-some :
      (n i k : ℕ) → i + n ≡ total → find_loop n i m map ≡ some k → FirstFree m map i total k
  unfolding find_loop
  find_loop-some zero i k e h = cc
  find_loop-some (suc n) i k e h = elim (Bool-cases (0 == m (map + i))) [
    | inl z ↦
        let found : i ≡ k = ground (arith, add32-eq map i) in
        record {
          lower = omega arith;
          upper = omega arith;
          free = rw (← found) (ground arith);
          taken = λ j p q. absurd (omega arith);
        }
    | inr nz ↦
        let later : find_loop n (i + 1) m map ≡ some k = ground (arith, add32-eq map i) in
        let rest = find_loop-some n (i + 1) k (omega arith) later in
        record {
          lower = omega (arith, rest.lower);
          upper = rest.upper;
          free = rest.free;
          taken = λ j p q. elim (Bool-cases (i == j)) [
            | inl at ↦ rw (← (==_iff i j).0 at) (ground arith)
            | inr other ↦ rest.taken j (ground arith) q
          ];
        }
  ]

  pub find_loop-none :
      (n i : ℕ) → i + n ≡ total → find_loop n i m map ≡ none → AllTaken m map i total
  unfolding find_loop
  find_loop-none zero i e h j p q = absurd (omega arith)
  find_loop-none (suc n) i e h j p q = elim (Bool-cases (i == j)) [
    | inl at ↦ rw (← (==_iff i j).0 at) (ground (arith, add32-eq map i))
    | inr other ↦
        find_loop-none n (i + 1) (omega arith) (ground (arith, add32-eq map i)) j (ground arith) q
  ]
