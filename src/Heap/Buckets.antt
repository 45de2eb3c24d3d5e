-- ===== src/Heap/Buckets.antt =====
-- The bucket that kmalloc picks is the one where kfree_s begins to search.
use fun_size_os.Base.{
  ℕ, zero, suc, ◌+◌, ◌^◌, ◌≤◌, ◌<◌, ◌≡◌, ◌≢◌, ◌⊎◌, inl, inr, refl, ◌∙◌, ap, arith, List, [], ◌∷◌,
  length, some, set, get_or, ltb, leb, ◌==◌, Bool-cases, ==_iff, ne→==, eq→==, true, false, ◌&&◌,
}
use fun_size_os.Memory.{Memory, load32}
use fun_size_os.Pages.{null}
use fun_size_os.Heap.{
  BucketDir, bucket_at, find_bucket, find_page, find_owner, next_index, int_lt, at_page,
}

-- An entry with a size is in the table.
pub bucket-lt : (dirs : List BucketDir) (i : ℕ) → 1 ≤ (bucket_at i dirs).size → i < length dirs
bucket-lt [] i h = absurd (omega arith)
bucket-lt (b ∷ bs) zero h = omega arith
bucket-lt (b ∷ bs) (suc i) h = omega (arith, bucket-lt bs i h)

-- Entry `i` is the first one that is large enough, or the end marker.
pub record Picked (len : ℕ) (dirs : List BucketDir) (i : ℕ) : Type 0 where
  pub fits : ((bucket_at i dirs).size ≡ 0) ⊎ (len ≤ (bucket_at i dirs).size)
  pub before : (k : ℕ) → k < i → ((bucket_at k dirs).size < len) × ((bucket_at k dirs).size ≢ 0)

Picked-suc :
    (len : ℕ) (b : BucketDir) (bs : List BucketDir) (i : ℕ)
    → b.size < len
    → b.size ≢ 0
    → Picked len bs i
    → Picked len (b ∷ bs) (suc i)
Picked-suc len b bs i small sized p = record { fits = p.fits; before = earlier }
  where
    earlier :
        (k : ℕ)
        → k < suc i
        → ((bucket_at k (b ∷ bs)).size < len) × ((bucket_at k (b ∷ bs)).size ≢ 0)
    earlier zero h = (small, sized)
    earlier (suc k) h = p.before k (omega arith)

pub find_bucket-Picked : (len : ℕ) (dirs : List BucketDir) → Picked len dirs (find_bucket len dirs)
unfolding find_bucket
find_bucket-Picked len [] = record { fits = inl refl; before = λ k h. absurd (omega arith) }
find_bucket-Picked len (b ∷ bs) = elim (Bool-cases (b.size == 0)) [
  | inl z ↦
      rw z (record { fits = inl ((==_iff b.size 0).0 z); before = λ k h. absurd (omega arith) })
  | inr nz ↦ elim (Bool-cases (leb len b.size)) [
    | inl fits ↦
        rw (nz, fits) (record { fits = inr (ground arith); before = λ k h. absurd (omega arith) })
    | inr small ↦
        rw (nz, small)
          (Picked-suc len b bs (find_bucket len bs) (ground arith) (ground arith)
            (find_bucket-Picked len bs))
  ]
]

find_page-front :
    (fuel : ℕ) (m : Memory) (page d prev : ℕ)
    → d ≢ null
    → load32 m d ≡ page
    → find_page (suc fuel) m page d prev
      ≡ some (some (record { index = 0; bdesc = d; prev = prev }))
unfolding find_page
find_page-front fuel m page d prev full on =
    let here : load32 m (d + at_page) ≡ page = ap (λ a. load32 m a) (omega arith) ∙ on in
    rw (ne→== d null full, eq→== (load32 m (d + at_page)) page here) refl

-- From the first bucket that is large enough on, the page is found at the front of its chain.
pub find_owner-front :
    (fuel : ℕ) (m : Memory) (page len : ℕ) (dirs : List BucketDir) (i d : ℕ)
    → len < 2 ^ 31
    → Picked len dirs i
    → (bucket_at i dirs).size ≢ 0
    → (bucket_at i dirs).chain ≡ d
    → d ≢ null
    → load32 m d ≡ page
    → find_owner (suc fuel) m page len dirs
      ≡ some (some (record { index = i; bdesc = d; prev = null }))
unfolding find_owner next_index int_lt
find_owner-front fuel m page len [] i d short p sized at full on = absurd (sized refl)
find_owner-front fuel m page len (b ∷ bs) zero d short p sized at full on =
    let enough : (ltb b.size len && ltb len (2 ^ 31)) ≡ false = ground (arith, p.fits) in
    rw (ne→== b.size 0 sized, enough, at, find_page-front fuel m page d null full on) refl
find_owner-front fuel m page len (b ∷ bs) (suc i) d short p sized at full on =
    let first = p.before 0 (omega arith) in
    let small : (ltb b.size len && ltb len (2 ^ 31)) ≡ true = ground (arith, first.0) in
    rw
      (
        ne→== b.size 0 first.1,
        small,
        find_owner-front fuel m page len bs i d short
            (record { fits = p.fits; before = λ k h. p.before (suc k) (omega arith) }) sized at full
            on,
      )
      refl

pub set-set {ℓ} : {A : Type ℓ} (xs : List A) (i : ℕ) (v w : A) → set (set xs i v) i w ≡ set xs i w
set-set [] i v w = refl
set-set (x ∷ xs) zero v w = refl
set-set (x ∷ xs) (suc i) v w = ap (λ l. x ∷ l) (set-set xs i v w)

pub set-get_or {ℓ} : {A : Type ℓ} (xs : List A) (i : ℕ) (d : A) → set xs i (get_or xs i d) ≡ xs
set-get_or [] i d = refl
set-get_or (x ∷ xs) zero d = refl
set-get_or (x ∷ xs) (suc i) d = ap (λ l. x ∷ l) (set-get_or xs i d)
