-- ===== src/CString.antt =====
-- kernel/lib/string.c: strlen, memcpy, memset and strcpy over the flat memory.
-- A counted loop recurs on its count; a loop that ends at a zero byte takes fuel, and `none` means
-- that the fuel ran out. Addresses are plain numbers, since running past the end of the address
-- space is undefined in C.
pub mod Block
pub mod Terminated
mod Tests
use fun_size_os.Base.{
  ℕ, zero, suc, ◌+◌, ◌-◌, ◌≡◌, ◌≢◌, ◌≤◌, ◌<◌, Option, none, some, ◌==◌, if◌then◌else◌,
}
use fun_size_os.Memory.{Memory, store8}

strlen_loop : ℕ → Memory → ℕ → ℕ → Option ℕ
strlen_loop zero m ptr str = none
strlen_loop (suc fuel) m ptr str =
    let rest = strlen_loop fuel m (ptr + 1) str in if m ptr == 0 then some (ptr - str) else rest

unfoldable pub strlen : ℕ → Memory → ℕ → Option ℕ
unfolding strlen_loop
strlen fuel m str = strlen_loop fuel m str str

unfoldable pub memcpy : Memory → ℕ → ℕ → ℕ → Memory
memcpy m dest src zero = m
memcpy m dest src (suc count) = memcpy (store8 m dest (m src)) (dest + 1) (src + 1) count

unfoldable pub memset : Memory → ℕ → ℕ → ℕ → Memory
memset m dest ch zero = m
memset m dest ch (suc count) = memset (store8 m dest ch) (dest + 1) ch count

-- The byte is tested after it is written, in the memory that the write leaves.
unfoldable pub strcpy_loop : ℕ → Memory → ℕ → ℕ → Option Memory
strcpy_loop zero m ptr src = none
strcpy_loop (suc fuel) m ptr src =
    let m' = store8 m ptr (m src) in
    let rest = strcpy_loop fuel m' (ptr + 1) (src + 1) in if m' src == 0 then some m' else rest

unfoldable pub strcpy : ℕ → Memory → ℕ → ℕ → Option Memory
unfolding strcpy_loop
strcpy fuel m dest src = strcpy_loop fuel m dest src

-- A string stands from `s` to the zero byte at `end`.
pub record IsString (m : Memory) (s end : ℕ) : Type 0 where
  pub starts : s ≤ end
  pub full : (a : ℕ) → s ≤ a → a < end → m a ≢ 0
  pub ended : m end ≡ 0
