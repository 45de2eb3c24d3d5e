-- ===== src/CString/Block.antt =====
-- What memset and memcpy leave at every address.
use fun_size_os.Base.{
  ℕ, zero, suc, ◌+◌, ◌≤◌, ◌<◌, ◌≡◌, ◌⊎◌, refl, ◌&&◌, arith, ltb, leb, if◌then◌else◌, u8, ap, ◌∙◌,
}
use fun_size_os.Memory.{Memory, store8, store8_self, store8_ne}
use fun_size_os.CString.{memset, memcpy}

-- memset writes the low byte of ch to each of the count addresses from dest on, and changes no
-- other.
pub memset_lem :
    (m : Memory) (dest ch count a : ℕ)
    → memset m dest ch count a ≡ (if leb dest a && ltb a (dest + count) then u8 ch else m a)
unfolding memset store8
memset_lem m dest ch zero a = ground arith
memset_lem m dest ch (suc count) a =
    ground (arith, memset_lem (store8 m dest ch) (dest + 1) ch count a)

-- memcpy leaves what lies outside the destination as it was.
pub memcpy_outside :
    (m : Memory) (dest src count a : ℕ)
    → (a < dest) ⊎ (dest + count ≤ a)
    → memcpy m dest src count a ≡ m a
unfolding memcpy
memcpy_outside m dest src zero a out = refl
memcpy_outside m dest src (suc count) a out =
    memcpy_outside (store8 m dest (m src)) (dest + 1) (src + 1) count a (omega arith)
    ∙ store8_ne m dest (m src) a (omega arith)

-- For blocks that do not meet, and for a destination that is not above its source even where they
-- overlap, memcpy leaves at each of the count destination addresses the low byte of what the
-- source held.
pub memcpy_inside :
    (m : Memory) (dest src count i a b : ℕ)
    → (dest ≤ src) ⊎ (src + count ≤ dest)
    → i < count
    → a ≡ dest + i
    → b ≡ src + i
    → memcpy m dest src count a ≡ u8 (m b)
unfolding memcpy
memcpy_inside m dest src zero i a b apart h p q = absurd (omega arith)
memcpy_inside m dest src (suc count) zero a b apart h p q =
    let at_dest : a ≡ dest = omega arith in
    let at_src : b ≡ src = omega arith in
    rw (at_dest, at_src)
      (memcpy_outside (store8 m dest (m src)) (dest + 1) (src + 1) count dest (omega arith)
        ∙ store8_self m dest (m src))
memcpy_inside m dest src (suc count) (suc i) a b apart h p q =
    memcpy_inside (store8 m dest (m src)) (dest + 1) (src + 1) count i a b (omega arith)
      (omega arith) (omega arith) (omega arith)
    ∙ ap u8 (store8_ne m dest (m src) b (omega arith))
