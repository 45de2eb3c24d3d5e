-- ===== src/Printk/Tests.antt =====
-- printk("Hi") at the top left of an empty screen.
use fun_size_os.Base.{ℕ, ◌≤◌, ◌<◌, ◌≡◌, refl, arith, inl, inr, some, true, [], ◌==◌, if◌then◌else◌}
use fun_size_os.Memory.{Memory, IsBytes}
use fun_size_os.Console.{Console, mem_base, command_of}
use fun_size_os.Console.Inv.{IsOnScreen}
use fun_size_os.Console.Text.{IsPrintable}
use fun_size_os.Vsprintf.Plain.{IsPlain}
use fun_size_os.Printk.{printk}
use fun_size_os.Printk.Plain.{Printed, printk_plain}

-- "Hi" at 0x5000.
abbrev greeting : Memory
greeting a = if a == 0x5000 then b'H' else if a == 0x5001 then b'i' else 0

abbrev home : Console
home = record {
  machine = record { memory = greeting; ports = []; log = []; interrupts = true };
  screen = mem_base;
  pos = mem_base;
  x = 0;
  y = 0;
}

home-IsOnScreen : IsOnScreen home
home-IsOnScreen = omega arith

greeting-IsBytes : IsBytes greeting
greeting-IsBytes a = ground arith

greeting-IsPlain : IsPlain greeting 0x5000 0x5002
greeting-IsPlain = record {
  string = record { starts = omega arith; full = λ a p q. ground arith; ended = refl };
  plain = λ a p q. ground arith;
}

greeting-IsPrintable : (a : ℕ) → 0x5000 ≤ a → a < 0x5002 → IsPrintable (greeting a)
unfolding command_of
greeting-IsPrintable a p q = ground arith

printk_plain_example :
    (c' : Console) × (printk 3 0x7000 0x5000 0x6000 home ≡ some (2, c'))
    × Printed home 0x7000 0x5000 2 c'
printk_plain_example =
    printk_plain 3 0x7000 0x5000 0x6000 0x5002 home greeting-IsBytes home-IsOnScreen
      greeting-IsPlain greeting-IsPrintable (inr (omega arith)) (inl (omega arith)) (omega arith)
      (omega arith)
