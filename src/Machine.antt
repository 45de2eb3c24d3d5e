-- ===== src/Machine.antt =====
-- The machine as the C code sees it: a flat memory of bytes, the ports that it writes, the calls of
-- `printk`, and the interrupt flag (kernel/include/asm/io.h, system.h, kernel/kernel/printk.c).
use Prim.Native.String.{String}
use fun_size_os.Base.{ℕ, Bool, true, false, List, ◌∷◌, u8}
use fun_size_os.Memory.{Memory}

-- An argument of `printk`: a number, a text that the compiler lays out, or the address of a string.
pub data Arg : Type 0 where
  num : ℕ → Arg
  text : String → Arg
  pointer : ℕ → Arg

-- A call of `printk`: its format and its arguments.
pub record Message : Type 0 where
  pub format : String
  pub args : List Arg

-- `ports` and `log` hold the latest entry first.
pub record Machine : Type 0 where
  pub memory : Memory
  pub ports : List (ℕ × ℕ)
  pub log : List Message
  pub interrupts : Bool

-- `cli` and `sti`
unfoldable pub cli : Machine → Machine
cli m = record m { interrupts = false }

unfoldable pub sti : Machine → Machine
sti m = record m { interrupts = true }

-- `out dx, al` puts the low byte of `value` on the port.
unfoldable pub out_byte : ℕ → ℕ → Machine → Machine
out_byte port value m = record m { ports = (port, u8 value) ∷ m.ports }

-- `printk` ends with `sti`, whatever the flag was before. The text is the subject of `Vsprintf` and
-- `Console`; here the call is recorded.
unfoldable pub printk : String → List Arg → Machine → Machine
unfolding cli sti
printk format args m =
    let before = cli m in
    sti (record before { log = record { format = format; args = args } ∷ before.log })
