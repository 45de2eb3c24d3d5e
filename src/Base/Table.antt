-- ===== src/Base/Table.antt =====
-- A test on the entries of a table, run entry by entry.
use fun_size_os.Base.{ℕ, zero, suc, ◌<◌, ◌≡◌, arith, Bool, true, ◌&&◌}

-- The test at the entries from the bound down, bound left out.
unfoldable pub each : (ℕ → Bool) → ℕ → Bool
each test zero = true
each test (suc last) = each test last && test last

pub each_at :
    (test : ℕ → Bool) (bound : ℕ) → each test bound ≡ true → (i : ℕ) → i < bound → test i ≡ true
unfolding each
each_at test (suc last) all i inside =
    let below = λ (lt : i < last). each_at test last (ground (arith, all)) i lt in
    ground (arith, all, below)
each_at test zero all i inside = absurd (omega arith)
