-- ===== src/Heap/Back.antt =====
-- kfree_s of the only object of a page: the page and its descriptor go back.
use fun_size_os.Base.{
  ℕ, zero, suc, ◌+◌, ◌-◌, ◌^◌, ◌≤◌, ◌<◌, ◌≡◌, ◌⊎◌, refl, ◌∙◌, ap, arith, u16, List, [], ◌∷◌, some,
  eq→==, set, length, get_or-set_self,
}
use fun_size_os.Memory.{
  Memory, store16_ne, store32, store32_ne, load32, load16, load16-frame, load16-store16_self,
}
use fun_size_os.Machine.{cli, sti}
use fun_size_os.Pages.{null}
use fun_size_os.Heap.{
  Heap, BucketDir, empty_bucket, bucket_at, set_chain, memory_of, with_memory, on_machine, is_stale,
  give_object, give_page, unlink, release, at_next, at_refcnt, at_freeptr,
}
use fun_size_os.Heap.Buckets.{Picked, set-set, set-get_or}

set-size :
    (dirs : List BucketDir) (i : ℕ) (b : BucketDir) (k : ℕ)
    → b.size ≡ (bucket_at i dirs).size
    → (bucket_at k (set dirs i b)).size ≡ (bucket_at k dirs).size
set-size [] i b k e = refl
set-size (x ∷ xs) zero b zero e = e
set-size (x ∷ xs) zero b (suc k) e = refl
set-size (x ∷ xs) (suc i) b zero e = refl
set-size (x ∷ xs) (suc i) b (suc k) e = set-size xs i b k e

-- The chain of a bucket in a table where it was set, and the sizes there.
module _ (dirs : List BucketDir) (i c : ℕ) where
  pub set_chain_self :
      i < length dirs
      → bucket_at i (set_chain i c dirs) ≡ record { size = (bucket_at i dirs).size; chain = c }
  set_chain_self h = get_or-set_self dirs i _ (empty_bucket 0) h

  pub set_chain-size : (k : ℕ) → (bucket_at k (set_chain i c dirs)).size ≡ (bucket_at k dirs).size
  set_chain-size k = set-size dirs i _ k refl

  pub Picked-set_chain : (len k : ℕ) → Picked len dirs k → Picked len (set_chain i c dirs) k
  Picked-set_chain len k p = record {
    fits = rw (set_chain-size k) p.fits;
    before = λ l h. rw (set_chain-size l) (p.before l h);
  }

  pub set_chain-set_chain : set_chain i (bucket_at i dirs).chain (set_chain i c dirs) ≡ dirs
  set_chain-set_chain =
      set-set dirs i _ _
      ∙ ap (λ n. set dirs i (record { size = n; chain = (bucket_at i dirs).chain }))
          (set_chain-size i)
      ∙ set-get_or dirs i (empty_bucket 0)

module _ (d obj : ℕ) (m : Memory) where
  pub give_object_elsewhere :
      (c : ℕ) → (c < obj) ⊎ (obj + 4 ≤ c) → (c < d + 8) ⊎ (d + 14 ≤ c) → give_object d obj m c ≡ m c
  unfolding give_object
  give_object_elsewhere c out out' =
      store16_ne (store32 (store32 m obj _) (d + at_freeptr) obj) (d + at_refcnt) _ c (omega arith)
      ∙ store32_ne (store32 m obj _) (d + at_freeptr) obj c (omega arith)
      ∙ store32_ne m obj _ c (omega arith)

  pub give_object_refcnt :
      (d + 16 ≤ obj) ⊎ (obj + 4 ≤ d)
      → load16 m (d + at_refcnt) ≡ 1
      → load16 (give_object d obj m) (d + at_refcnt) ≡ 0
  unfolding give_object
  give_object_refcnt apart one =
      let m2 = store32 (store32 m obj (load32 m (d + at_freeptr))) (d + at_freeptr) obj in
      let same : load16 m2 (d + at_refcnt) ≡ load16 m (d + at_refcnt) =
        load16-frame m m2 (d + at_refcnt) (λ c x y.
          store32_ne (store32 m obj (load32 m (d + at_freeptr))) (d + at_freeptr) obj c
            (omega arith)
          ∙ store32_ne m obj (load32 m (d + at_freeptr)) c (omega arith)) in
      load16-store16_self m2 (d + at_refcnt) (u16 (load16 m2 (d + at_refcnt) + 2 ^ 16 - 1))
      ∙ omega (arith, same, one)

-- The heap after the object has been given back.
unfoldable pub given : ℕ → ℕ → Heap → Heap
given d obj h = with_memory (give_object d obj (memory_of h)) (on_machine cli h)

pub release-front :
    (fuel obj i d : ℕ) (h : Heap)
    → (bucket_at i h.bucket_dir).chain ≡ d
    → load16 (give_object d obj (memory_of h)) (d + at_refcnt) ≡ 0
    → release fuel obj (record { index = i; bdesc = d; prev = null }) h
      ≡ some (
          on_machine sti (
            give_page d (record (given d obj h) {
              bucket_dir =
                  set_chain i (load32 (give_object d obj (memory_of h)) (d + at_next)) h.bucket_dir;
            })))
unfolding release is_stale unlink given
release-front fuel obj i d h at emptied =
    rw (eq→== (bucket_at i h.bucket_dir).chain d at, eq→== _ 0 emptied) refl
