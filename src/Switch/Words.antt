-- ===== src/Switch/Words.antt =====
-- A structure of words: what a row of stores into it leaves.
use fun_size_os.Base.{
  ℕ, ◌+◌, ◌*◌, ◌≤◌, ◌<◌, ◌≡◌, ◌⊎◌, inl, inr, refl, ◌∙◌, ap, arith, Bool-cases, ◌==◌, ==_iff, List,
  [], ◌∷◌, if◌then◌else◌, u32,
}
use fun_size_os.Memory.{Memory, load32, store32, store32_ne, load32-store32_self, load32-store32_ne}

-- The stores of the pairs of an index and a value, one after the other.
unfoldable pub store_words : ℕ → List (ℕ × ℕ) → Memory → Memory
store_words t [] m = m
store_words t ((o, v) ∷ rest) m = store_words t rest (store32 m (t + 4 * o) v)

-- What index `p` holds at the end, if it held `d`.
abbrev pub word_of : ℕ → List (ℕ × ℕ) → ℕ → ℕ
word_of p [] d = d
word_of p ((o, v) ∷ rest) d = word_of p rest (if o == p then u32 v else d)

abbrev pub AllBelow : ℕ → List (ℕ × ℕ) → Type 0
AllBelow n [] = Unit {0}
AllBelow n ((o, v) ∷ rest) = (o < n) × AllBelow n rest

load32-store32_word :
    (m : Memory) (t o v p : ℕ)
    → load32 (store32 m (t + 4 * o) v) (t + 4 * p)
      ≡ (if o == p then u32 v else load32 m (t + 4 * p))
load32-store32_word m t o v p = elim (Bool-cases (o == p)) [
  | inl e ↦ rw e (rw (← (==_iff o p).0 e) (load32-store32_self m (t + 4 * o) v))
  | inr e ↦ rw e (load32-store32_ne m (t + 4 * o) v (t + 4 * p) (ground arith))
]

pub load32-store_words :
    (t : ℕ) (fs : List (ℕ × ℕ)) (m : Memory) (p : ℕ)
    → load32 (store_words t fs m) (t + 4 * p) ≡ word_of p fs (load32 m (t + 4 * p))
unfolding store_words
load32-store_words t [] m p = refl
load32-store_words t ((o, v) ∷ rest) m p =
    load32-store_words t rest (store32 m (t + 4 * o) v) p
    ∙ ap (word_of p rest) (load32-store32_word m t o v p)

pub store_words_outside :
    (t n : ℕ) (fs : List (ℕ × ℕ)) (m : Memory)
    → AllBelow n fs
    → (a : ℕ) → (a < t) ⊎ (t + 4 * n ≤ a)
    → store_words t fs m a ≡ m a
unfolding store_words
store_words_outside t n [] m b a out = refl
store_words_outside t n ((o, v) ∷ rest) m (b, bs) a out =
    store_words_outside t n rest (store32 m (t + 4 * o) v) bs a out
    ∙ store32_ne m (t + 4 * o) v a (omega arith)
