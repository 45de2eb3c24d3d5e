-- ===== src/Traps.antt =====
-- kernel/kernel/traps.c: the end of an interrupt is signalled to the interrupt controllers, and the
-- operand of lgdt and lidt is filled in.
use fun_size_os.Base.{ℕ, ◌&&◌, ltb, leb, if◌then◌else◌, u16}
use fun_size_os.Machine.{Machine, out_byte}

abbrev pub pic_m_ctrl : ℕ
pic_m_ctrl = 0x20

abbrev pub pic_s_ctrl : ℕ
pic_s_ctrl = 0xa0

abbrev pub pic_eoi : ℕ
pic_eoi = 0x20

-- `idt_index` is an `int`: a negative one is a pattern from 2 ^ 31 on, and fails both tests.
unfoldable pub send_eoi : ℕ → Machine → Machine
send_eoi idt_index m =
    if leb 0x20 idt_index && ltb idt_index 0x28
    then out_byte pic_m_ctrl pic_eoi m
    else if leb 0x28 idt_index && ltb idt_index 0x30
    then out_byte pic_s_ctrl pic_eoi (out_byte pic_m_ctrl pic_eoi m)
    else m

-- `xdt_ptr_t` of kernel/include/linux/head.h
pub record XdtPtr : Type 0 where
  pub limit : ℕ
  pub base : ℕ

-- The limit is a `short`: it keeps the low 16 bits.
unfoldable pub write_xdt_ptr : XdtPtr → ℕ → ℕ → XdtPtr
write_xdt_ptr p limit base = record { limit = u16 limit; base = base }
