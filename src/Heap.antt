-- ===== src/Heap.antt =====
-- kernel/mm/malloc.c: kmalloc and kfree_s. The bucket descriptors, and the chains of free objects in
-- the pages, lie in the flat memory; bucket_dir and free_bucket_desc are the fields of `Heap`. A walk
-- of a chain takes fuel, and `none` means that it ran out.
pub mod Chains
pub mod Fresh
pub mod Grow
pub mod Buckets
pub mod Back
pub mod NewPage
pub mod NoPage
pub mod Descs
pub mod First
pub mod RoundTrip
pub mod Critical
pub mod Reuse
pub mod Walk
mod Tests
use fun_size_os.Base.{
  ℕ, zero, suc, ◌+◌, ◌-◌, ◌*◌, ◌/◌, ◌%◌, ◌^◌, Bool, true, false, not, ◌&&◌, ◌||◌, Option, none,
  some, List, [], ◌∷◌, ◌==◌, ltb, leb, if◌then◌else◌, get_or, set, add32, sub32, u16, ◌>>=◌,
}
use fun_size_os.Memory.{Memory, load16, load32, store16, store32}
use fun_size_os.Machine.{Machine, num, printk, cli, sti}
use fun_size_os.Pages.{Pages, page_size, null, get_free_page, free_page}

-- `struct bucket_desc`: where its fields lie.
abbrev pub at_page : ℕ
at_page = 0

abbrev pub at_next : ℕ
at_next = 4

abbrev pub at_freeptr : ℕ
at_freeptr = 8

abbrev pub at_refcnt : ℕ
at_refcnt = 12

abbrev pub at_bucket_size : ℕ
at_bucket_size = 14

abbrev pub size_of_desc : ℕ
size_of_desc = 16

-- `struct _bucket_dir`
pub record BucketDir : Type 0 where
  pub size : ℕ
  pub chain : ℕ

pub record Heap : Type 0 where
  pub pages : Pages
  pub bucket_dir : List BucketDir
  pub free_bucket_desc : ℕ

-- `bucket_dir` and `free_bucket_desc` as they are initialised.
abbrev pub empty_bucket : ℕ → BucketDir
empty_bucket size = record { size = size; chain = null }

abbrev pub bucket_dir : List BucketDir
bucket_dir =
    empty_bucket 16
    ∷ empty_bucket 32
    ∷ empty_bucket 64
    ∷ empty_bucket 128
    ∷ empty_bucket 256
    ∷ empty_bucket 512
    ∷ empty_bucket 1024
    ∷ empty_bucket 2048
    ∷ empty_bucket 4096
    ∷ empty_bucket 0
    ∷ []

abbrev pub memory_of : Heap → Memory
memory_of h = h.pages.machine.memory

abbrev pub on_machine : (Machine → Machine) → Heap → Heap
on_machine f h = record h { pages = record h.pages { machine = f h.pages.machine } }

abbrev pub with_memory : Memory → Heap → Heap
with_memory m h = on_machine (λ r. record r { memory = m }) h

abbrev pub bucket_at : ℕ → List BucketDir → BucketDir
bucket_at i dirs = get_or dirs i (empty_bucket 0)

abbrev pub set_chain : ℕ → ℕ → List BucketDir → List BucketDir
set_chain i c dirs = set dirs i (record { size = (bucket_at i dirs).size; chain = c })

-- The links of a page of `n + 1` descriptors, but for the last one's.
unfoldable pub link_descs : ℕ → ℕ → Memory → Memory
link_descs zero bdesc m = m
link_descs (suc n) bdesc m =
    link_descs n (bdesc + size_of_desc) (store32 m (bdesc + at_next) (bdesc + size_of_desc))

unfoldable pub init_bucket_desc : Heap → Heap
init_bucket_desc h =
    let (first, pages) = get_free_page h.pages in
    let h1 : Heap = record h { pages = pages } in
    let linked = link_descs (page_size / size_of_desc - 1) first (memory_of h1) in
    let last = first + size_of_desc * (page_size / size_of_desc - 1) in
    if first == null
    then h1
    else record (with_memory (store32 linked (last + at_next) h.free_bucket_desc) h1) {
      free_bucket_desc = first;
    }

-- The index of the first bucket that is large enough, or of the end marker.
unfoldable pub find_bucket : ℕ → List BucketDir → ℕ
find_bucket len [] = 0
find_bucket len (b ∷ bs) =
    let rest = suc (find_bucket len bs) in
    if b.size == 0 then 0 else if leb len b.size then 0 else rest

-- The first descriptor of a chain that has a free object, or NULL.
unfoldable pub find_space : ℕ → Memory → ℕ → Option ℕ
find_space zero m bdesc = none
find_space (suc fuel) m bdesc =
    let rest = find_space fuel m (load32 m (bdesc + at_next)) in
    if bdesc == null
    then some null
    else if load32 m (bdesc + at_freeptr) == null
    then rest
    else some bdesc

-- The chain of free objects of a page: `n` links, then the end.
unfoldable pub carve : ℕ → ℕ → ℕ → Memory → Memory
carve zero cp size m = store32 m cp null
carve (suc n) cp size m = carve n (cp + size) size (store32 m cp (cp + size))

-- What is stored in a fresh descriptor before and after its page is requested.
unfoldable pub prepare : ℕ → ℕ → Memory → Memory
prepare bdesc size m = store16 (store16 m (bdesc + at_refcnt) 0) (bdesc + at_bucket_size) size

unfoldable pub hook : ℕ → ℕ → Memory → Memory
hook bdesc cp m = store32 (store32 m (bdesc + at_freeptr) cp) (bdesc + at_page) cp

-- The page that get_free_page gave for the descriptor is hooked in and carved, and the descriptor put on
-- the chain of bucket `i`; `none` means that there is no page.
unfoldable pub attach : (i bdesc : ℕ) → Heap → ℕ × Pages → Option ℕ × Heap
attach i bdesc h (cp, pages) =
    let b = bucket_at i h.bucket_dir in
    let hooked = hook bdesc cp pages.machine.memory in
    let h1 : Heap = with_memory hooked (record h { pages = pages }) in
    let carved = carve (page_size / b.size - 1) cp b.size hooked in
    if cp == null then (none, h1) else (
      some bdesc,
      record (with_memory (store32 carved (bdesc + at_next) b.chain) h1) {
        bucket_dir = set_chain i bdesc h.bucket_dir;
      },
    )

-- The first free descriptor is taken off its list. If none can be had, it is NULL, and the code goes on
-- with it.
unfoldable pub detach : ℕ → Heap → Heap
detach size h =
    let bdesc = h.free_bucket_desc in
    record (with_memory (prepare bdesc size (memory_of h)) h) {
      free_bucket_desc = load32 (memory_of h) (bdesc + at_next);
    }

unfoldable pub new_bucket : ℕ → Heap → Option ℕ × Heap
new_bucket i h =
    let h1 = if h.free_bucket_desc == null then init_bucket_desc h else h in
    let h2 = detach (bucket_at i h.bucket_dir).size h1 in
    attach i h1.free_bucket_desc h2 (get_free_page h2.pages)

-- The first free object of `bdesc` is handed out.
unfoldable pub take_object : ℕ → Memory → Memory
take_object bdesc m =
    let retval = load32 m (bdesc + at_freeptr) in
    let m1 = store32 m (bdesc + at_freeptr) (load32 m retval) in
    store16 m1 (bdesc + at_refcnt) (u16 (load16 m1 (bdesc + at_refcnt) + 1))

unfoldable pub hand_out : ℕ → Heap → ℕ × Heap
hand_out bdesc h = (
  load32 (memory_of h) (bdesc + at_freeptr),
  on_machine sti (with_memory (take_object bdesc (memory_of h)) h),
)

-- Without a page the function returns as it stands.
unfoldable pub from_fresh : Option ℕ × Heap → ℕ × Heap
from_fresh (none, h) = (null, h)
from_fresh (some bdesc, h) = hand_out bdesc h

-- With the bucket of index `i` and the descriptor that the search gave.
unfoldable pub serve : ℕ → ℕ → Heap → ℕ × Heap
serve i bdesc h = if bdesc == null then from_fresh (new_bucket i h) else hand_out bdesc h

-- What follows the search of the bucket.
unfoldable pub request : (fuel len i : ℕ) → Heap → Option (ℕ × Heap)
request fuel len i h =
    let b = bucket_at i h.bucket_dir in
    let h1 = on_machine cli h in
    if b.size == 0
    then some (
      null,
      on_machine (printk "malloc called with impossibly large argument (%d)\n" (num len ∷ [])) h,
    )
    else find_space fuel (memory_of h1) b.chain >>= λ bdesc. some (serve i bdesc h1)

unfoldable pub kmalloc : ℕ → ℕ → Heap → Option (ℕ × Heap)
kmalloc fuel len h = request fuel len (find_bucket len h.bucket_dir) h

-- Where kfree_s finds the object's page: the bucket's index, the descriptor, and the one before it.
pub record Found : Type 0 where
  pub index : ℕ
  pub bdesc : ℕ
  pub prev : ℕ

-- The walk of one chain: `some none` means that the page is not on it.
unfoldable pub find_page : ℕ → Memory → ℕ → (bdesc prev : ℕ) → Option (Option Found)
find_page zero m page bdesc prev = none
find_page (suc fuel) m page bdesc prev =
    let rest = find_page fuel m page (load32 m (bdesc + at_next)) bdesc in
    if bdesc == null
    then some none
    else if load32 m (bdesc + at_page) == page
    then some (some (record { index = 0; bdesc = bdesc; prev = prev }))
    else rest

-- `a < b` of two `int`s of which the first is not negative.
unfoldable pub int_lt : ℕ → ℕ → Bool
int_lt a b = ltb a b && ltb b (2 ^ 31)

unfoldable pub next_index : Option (Option Found) → Option (Option Found)
next_index (some (some f)) = some (some (record f { index = suc f.index }))
next_index (some none) = some none
next_index none = none

unfoldable pub find_owner : ℕ → Memory → (page size : ℕ) → List BucketDir → Option (Option Found)
find_owner fuel m page size [] = some none
find_owner fuel m page size (b ∷ bs) =
    let rest = next_index (find_owner fuel m page size bs) in
    let here = find_page fuel m page b.chain null in
    if b.size == 0
    then some none
    else if int_lt b.size size
    then rest
    else elim here [ none ↦ none | some none ↦ rest | some (some f) ↦ some (some f) ]

-- The search for the descriptor before `bdesc`, when the one that was found is not it any more.
unfoldable pub find_prev : ℕ → Memory → ℕ → ℕ → Option ℕ
find_prev zero m bdesc prev = none
find_prev (suc fuel) m bdesc prev =
    let next = load32 m (prev + at_next) in
    let rest = find_prev fuel m bdesc next in
    if prev == null then some null else if next == bdesc then some prev else rest

unfoldable pub is_stale : Memory → ℕ → Found → Bool
is_stale m chain f =
    (not (f.prev == null) && not (load32 m (f.prev + at_next) == f.bdesc))
    || ((f.prev == null) && not (chain == f.bdesc))

-- The object goes to the front of the page's free objects.
unfoldable pub give_object : ℕ → ℕ → Memory → Memory
give_object bdesc obj m =
    let m1 = store32 m obj (load32 m (bdesc + at_freeptr)) in
    let m2 = store32 m1 (bdesc + at_freeptr) obj in
    store16 m2 (bdesc + at_refcnt) (u16 (load16 m2 (bdesc + at_refcnt) + 2 ^ 16 - 1))

-- The page of a descriptor without objects in use goes back, and the descriptor to the free ones.
unfoldable pub give_page : ℕ → Heap → Heap
give_page bdesc h =
    let pages = free_page (load32 (memory_of h) (bdesc + at_page)) h.pages in
    record (with_memory (store32 pages.machine.memory (bdesc + at_next) h.free_bucket_desc)
      (record h { pages = pages })) { free_bucket_desc = bdesc }

-- The descriptor is taken off its chain. If it is not found there, the function returns at once.
unfoldable pub unlink : Found → ℕ → Heap → Heap
unlink f prev h =
    let chain = (bucket_at f.index h.bucket_dir).chain in
    let next = load32 (memory_of h) (f.bdesc + at_next) in
    if prev == null
    then if chain == f.bdesc
      then on_machine sti
          (give_page f.bdesc (record h { bucket_dir = set_chain f.index next h.bucket_dir }))
      else h
    else on_machine sti
        (give_page f.bdesc (with_memory (store32 (memory_of h) (prev + at_next) next) h))

unfoldable pub release : ℕ → ℕ → Found → Heap → Option Heap
release fuel obj f h =
    let m = give_object f.bdesc obj (memory_of h) in
    let h1 = with_memory m (on_machine cli h) in
    let chain = (bucket_at f.index h.bucket_dir).chain in
    let prev = if is_stale m chain f then find_prev fuel m f.bdesc chain else some f.prev in
    let emptied = prev >>= λ before. some (unlink f before h1) in
    if load16 m (f.bdesc + at_refcnt) == 0 then emptied else some (on_machine sti h1)

unfoldable pub kfree_s : ℕ → ℕ → ℕ → Heap → Option Heap
kfree_s fuel obj size h =
    let page = obj - obj % 2 ^ 12 in
    find_owner fuel (memory_of h) page size h.bucket_dir >>= λ found. elim found [
      | none ↦ some h
      | some f ↦ release fuel obj f h
    ]
