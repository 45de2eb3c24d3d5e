-- ===== src/Vsprintf/Plain.antt =====
-- vsprintf on formats without a directive.
use fun_size_os.Base.{
  ℕ, zero, suc, ◌+◌, ◌-◌, ◌≤◌, ◌<◌, ◌≡◌, ◌≢◌, ◌⊎◌, refl, some, arith, ap, ◌==◌, Bool-cases, ==_iff,
  ne→==, inl, inr,
}
use fun_size_os.Memory.{Memory, store8, store8_ne}
use fun_size_os.CString.{strcpy_loop, strcpy, strlen, IsString}
use fun_size_os.CString.Terminated.{
  end_of_zero, lt_of_full, IsString-tail, IsString-store8, strlen_lem,
}
use fun_size_os.Number.{Out, put}
use fun_size_os.Vsprintf.{format_loop, vsprintf}

-- A string without a percent sign.
pub record IsPlain (m : Memory) (fmt end : ℕ) : Type 0 where
  pub string : IsString m fmt end
  pub plain : (a : ℕ) → fmt ≤ a → a < end → m a ≢ b'%'

IsPlain-step :
    {m : Memory} {fmt end : ℕ} (p v : ℕ)
    → IsPlain m fmt end
    → m fmt ≢ 0
    → (p < fmt) ⊎ (end < p)
    → IsPlain (store8 m p v) (fmt + 1) end
IsPlain-step {m} {fmt} {end} p v h nz away = record {
  string = IsString-store8 p v (IsString-tail h.string nz) (omega arith);
  plain = λ a q r. rw (store8_ne m p v a (omega arith)) (h.plain a (omega arith) r);
}

-- The loop and strcpy's loop do the same writes, but for the zero byte at the end.
record SameLoop (fuel buf fmt args n : ℕ) (o : Out) : Type 0 where
  last : Out
  formats : format_loop fuel buf fmt args o ≡ some last
  copies : strcpy_loop fuel o.memory o.str fmt ≡ some (put 0 last).memory
  length : last.str ≡ o.str + n

format_loop-SameLoop :
    (fuel buf fmt args end : ℕ) (o : Out)
    → IsPlain o.memory fmt end
    → (o.str < fmt) ⊎ (end < o.str)
    → end < fmt + fuel
    → SameLoop fuel buf fmt args (end - fmt) o
unfolding format_loop strcpy_loop put
format_loop-SameLoop zero buf fmt args end o h away lt = absurd (omega (arith, h.string.starts))
format_loop-SameLoop (suc fuel) buf fmt args end o h away lt =
    elim (Bool-cases (o.memory fmt == 0)) [
      | inl z ↦
          let zero_at : o.memory fmt ≡ 0 = (==_iff _ _).0 z in
          let at_end : fmt ≡ end = end_of_zero h.string zero_at in
          record {
            last = o;
            formats = rw z refl;
            copies = rw (kept, zero_at) refl;
            length = omega arith;
          }
      | inr nz ↦
          let full : o.memory fmt ≢ 0 = ground (arith, nz) in
          let inside = lt_of_full h.string full in
          let rest =
            format_loop-SameLoop fuel buf (fmt + 1) args end (put (o.memory fmt) o)
              (IsPlain-step o.str (o.memory fmt) h full away) (omega arith) (omega arith) in
          record {
            last = rest.last;
            formats =
                rw (nz, ne→== (o.memory fmt) b'%' (h.plain fmt (omega arith) inside)) rest.formats;
            copies = rw (kept, nz) rest.copies;
            length = omega (arith, rest.length, inside);
          }
    ]
  where
    kept : store8 o.memory o.str (o.memory fmt) fmt ≡ o.memory fmt
    kept = store8_ne o.memory o.str (o.memory fmt) fmt (omega (arith, h.string.starts))

-- With fuel for the format and its zero byte, vsprintf of a format that has no percent sign, to a
-- buffer that does not overwrite it ahead of the reading, leaves the memory that strcpy leaves and
-- returns the length that strlen returns.
pub vsprintf-strcpy :
    (fuel : ℕ) (m : Memory) (buf fmt args end : ℕ)
    → IsPlain m fmt end
    → (buf < fmt) ⊎ (end < buf)
    → end < fmt + fuel
    → (m' : Memory) × (vsprintf fuel m buf fmt args ≡ some (m', end - fmt))
      × (strcpy fuel m buf fmt ≡ some m')
      × (strlen fuel m fmt ≡ some (end - fmt))
unfolding vsprintf strcpy
vsprintf-strcpy fuel m buf fmt args end h away lt =
    let start : Out = record { memory = m; str = buf } in
    let same = format_loop-SameLoop fuel buf fmt args end start h away lt in
    (
      (put 0 same.last).memory,
      rw (same.formats, same.length) (ap (λ n. some ((put 0 same.last).memory, n)) (omega arith)),
      same.copies,
      strlen_lem fuel m fmt end h.string lt,
    )
