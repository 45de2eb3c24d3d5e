-- ===== src/CString/Tests.antt =====
-- Runs of the string functions, and their theorems at concrete inputs.
use fun_size_os.Base.{◌≡◌, inr, refl, arith, some, ◌==◌, if◌then◌else◌}
use fun_size_os.Memory.{IsBytes, Memory, store8}
use fun_size_os.CString.{strlen, strcpy, memcpy, IsString}
use fun_size_os.CString.Terminated.{strcpy_lem, Copied}

-- "Hi" at 0x500.
abbrev greeting : Memory
greeting a = if a == 0x500 then b'H' else if a == 0x501 then b'i' else 0

greeting-IsString : IsString greeting 0x500 0x502
greeting-IsString = record { starts = omega arith; full = λ a p q. ground arith; ended = refl }

greeting-IsBytes : IsBytes greeting
greeting-IsBytes a = ground arith

strlen_runs : strlen 10 greeting 0x500 ≡ some 2
unfolding strlen
strlen_runs = refl

memcpy_runs : memcpy greeting 0x4ff 0x500 2 0x500 ≡ b'i'
unfolding memcpy store8
memcpy_runs = refl

strcpy_lem_example :
    (m' : Memory) × (strcpy 3 greeting 0x600 0x500 ≡ some m')
    × Copied greeting 0x600 0x500 2 m'
    × (strlen 3 m' 0x600 ≡ strlen 3 greeting 0x500)
strcpy_lem_example =
    strcpy_lem 3 greeting 0x600 0x500 0x502 greeting-IsBytes greeting-IsString (inr (omega arith))
      (omega arith)
