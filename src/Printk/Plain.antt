-- ===== src/Printk/Plain.antt =====
-- printk of a format without directives, from vsprintf to the screen.
use fun_size_os.Base.{ℕ, suc, ◌+◌, ◌-◌, ◌*◌, ◌≤◌, ◌<◌, ◌≡◌, ◌⊎◌, refl, ◌∙◌, arith, some, true}
use fun_size_os.Memory.{Memory, IsBytes}
use fun_size_os.Machine.{cli, sti}
use fun_size_os.CString.{memcpy}
use fun_size_os.CString.Block.{memcpy_inside, memcpy_outside}
use fun_size_os.CString.Terminated.{strcpy-memcpy}
use fun_size_os.Console.{Console, console_write, mem_base, mem_end, width}
use fun_size_os.Console.Inv.{IsOnScreen}
use fun_size_os.Console.Text.{IsPrintable, IsText, Drawn, console_write_text}
use fun_size_os.Vsprintf.{vsprintf}
use fun_size_os.Vsprintf.Plain.{IsPlain, vsprintf-strcpy}
use fun_size_os.Printk.{with_memory, printk}

-- The text in the cells from the cursor on, the cursor behind it, and nothing else changed but the
-- buffer.
pub record Printed (c : Console) (buf fmt n : ℕ) (c' : Console) : Type 0 where
  pub shown : (i : ℕ) → i < n → c'.machine.memory (c.pos + 2 * i) ≡ c.machine.memory (fmt + i)
  pub attribute : (i : ℕ) → i < n → c'.machine.memory (c.pos + 2 * i + 1) ≡ 7
  pub outside :
      (a : ℕ)
      → (a < c.pos) ⊎ (c.pos + 2 * n ≤ a)
      → (a < buf) ⊎ (buf + n < a)
      → c'.machine.memory a ≡ c.machine.memory a
  pub pos : c'.pos ≡ c.pos + 2 * n
  pub x : c'.x ≡ c.x + n
  pub y : c'.y ≡ c.y
  pub enabled : c'.machine.interrupts ≡ true

module _ (fuel buf fmt args end : ℕ) (c : Console) (bytes : IsBytes c.machine.memory)
    (text : IsPlain c.machine.memory fmt end)
    (printable : (a : ℕ) → fmt ≤ a → a < end → IsPrintable (c.machine.memory a))
    (away : (buf < fmt) ⊎ (end < buf))
    (apart : (buf + (end - fmt) < mem_base) ⊎ (mem_end ≤ buf)) where
  formatted : Memory
  formatted = memcpy c.machine.memory buf fmt (suc (end - fmt))

  formatted_is :
      end < fmt + fuel → vsprintf fuel c.machine.memory buf fmt args ≡ some (formatted, end - fmt)
  unfolding formatted
  formatted_is rounds =
      let (m', formats, copies, length_is) =
        vsprintf-strcpy fuel c.machine.memory buf fmt args end text away rounds in
      let copy = strcpy-memcpy fuel c.machine.memory buf fmt end text.string away rounds in
      cc (formats, copies, copy)

  formatted_same : (i : ℕ) → i < end - fmt → formatted (buf + i) ≡ c.machine.memory (fmt + i)
  unfolding formatted
  formatted_same i h =
      memcpy_inside c.machine.memory buf fmt (suc (end - fmt)) i (buf + i) (fmt + i)
        (omega (arith, text.string.starts)) (omega arith) refl refl
      ∙ omega (arith, bytes (fmt + i))

  before : Console
  before = with_memory formatted (record c { machine = cli c.machine })

  before-IsText : IsText before.machine.memory buf (end - fmt)
  unfolding before
  before-IsText = record {
    apart = omega arith;
    printable = λ a p q.
        let at : a ≡ buf + (a - buf) = omega arith in
        rw (at, formatted_same (a - buf) (omega arith))
          (printable (fmt + (a - buf)) (omega arith) (omega arith));
  }

  drawn :
      IsOnScreen c
      → c.x + (end - fmt) ≤ width
      → Drawn before buf (end - fmt) (console_write buf (end - fmt) before)
  unfolding before
  drawn on room = console_write_text before buf (end - fmt) (omega (arith, on)) room before-IsText

  after : Console
  after =
      let shown = console_write buf (end - fmt) before in
      record shown { machine = sti shown.machine }

  after-Printed : IsOnScreen c → c.x + (end - fmt) ≤ width → Printed c buf fmt (end - fmt) after
  unfolding after before formatted sti
  after-Printed on room =
      let d = drawn on room in
      record {
        shown = λ i h. d.shown i h ∙ omega (arith, formatted_same i h, bytes (fmt + i));
        attribute = d.attribute;
        outside = λ a p q.
            d.outside a p
            ∙ memcpy_outside c.machine.memory buf fmt (suc (end - fmt)) a (omega arith);
        pos = d.pos;
        x = d.x;
        y = d.y;
        enabled = refl;
      }

  printk-after : end < fmt + fuel → printk fuel buf fmt args c ≡ some (end - fmt, after)
  unfolding printk after before
  printk-after rounds = rw (formatted_is rounds) refl

-- In a memory of bytes, with the cursor on the screen, printk of a format of printable bytes other
-- than the percent sign that fits in the row, with fuel for it, returns its length and draws it in
-- the cells from the cursor on with attribute 7; the cursor ends behind it, interrupts are
-- enabled, and no other byte of memory outside the buffer is changed, where the buffer is outside
-- the video memory and does not overwrite the format ahead of the reading.
pub printk_plain :
    (fuel buf fmt args end : ℕ) (c : Console)
    → IsBytes c.machine.memory
    → IsOnScreen c
    → IsPlain c.machine.memory fmt end
    → ((a : ℕ) → fmt ≤ a → a < end → IsPrintable (c.machine.memory a))
    → (buf < fmt) ⊎ (end < buf)
    → (buf + (end - fmt) < mem_base) ⊎ (mem_end ≤ buf)
    → end < fmt + fuel
    → c.x + (end - fmt) ≤ width
    → (c' : Console) × (printk fuel buf fmt args c ≡ some (end - fmt, c'))
      × Printed c buf fmt (end - fmt) c'
printk_plain fuel buf fmt args end c bytes on text printable away apart rounds room = (
  after fuel buf fmt args end c bytes text printable away apart,
  printk-after fuel buf fmt args end c bytes text printable away apart rounds,
  after-Printed fuel buf fmt args end c bytes text printable away apart on room,
)
