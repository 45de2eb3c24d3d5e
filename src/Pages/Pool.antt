-- ===== src/Pages/Pool.antt =====
-- What the page allocator promises: a pool of pages, each in use or free.
use fun_size_os.Base.{
  ℕ, zero, suc, ◌+◌, ◌≤◌, ◌<◌, ◌≡◌, Bool, true, false, List, [], ◌∷◌, ◌==◌, if◌then◌else◌,
}

-- The pages in use.
abbrev pub Pool : Type 0
Pool = ℕ → Bool

abbrev pub set_use : ℕ → Bool → Pool → Pool
set_use i b f = λ j. if i == j then b else f j

-- How many of the first `n` pages are in use.
abbrev pub count_used : Pool → ℕ → ℕ
count_used f zero = 0
count_used f (suc n) = count_used f n + (if f n then 1 else 0)

-- What happens to a pool of `n` pages.
pub data Event : Type 0 where
  took gave : ℕ → Event
  refused : Event

-- A page that is taken is the first free one from the number of pages in use on; if there is none, the
-- request is refused and nothing changes. A page in use may be given back.
abbrev pub Allowed : ℕ → Pool → Event → Pool → Type 0
Allowed n f (took i) g =
    (count_used f n ≤ i)
    × (i < n)
    × (f i ≡ false)
    × ((j : ℕ) → count_used f n ≤ j → j < i → f j ≡ true)
    × (g ≡ set_use i true f)
Allowed n f (gave i) g = (i < n) × (f i ≡ true) × (g ≡ set_use i false f)
Allowed n f refused g = ((j : ℕ) → count_used f n ≤ j → j < n → f j ≡ true) × (g ≡ f)

-- A sequence of events leads from one pool to another.
pub data Trace (n : ℕ) : Pool → List Event → Pool → Type 0 where
  done : {f : Pool} → Trace n f [] f
  next :
      {f g h : Pool} {e : Event} {es : List Event}
      → Allowed n f e g
      → Trace n g es h
      → Trace n f (e ∷ es) h
