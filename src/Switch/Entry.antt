-- ===== src/Switch/Entry.antt =====
-- The clock's entry up to the call of clock_handler.
use fun_size_os.Base.{
  ℕ, ◌+◌, ◌%◌, ◌^◌, ◌≤◌, ◌<◌, ◌≡◌, ◌≢◌, ◌⊎◌, inl, inr, refl, ◌∙◌, ap, arith, u32, add32, ne→==, sym,
}
use fun_size_os.Memory.{Memory, load32}
use fun_size_os.Sched.{null}
use fun_size_os.Task.{size_of_task, at_eip, at_tss_esp0}
use fun_size_os.Switch.{
  at_ecx, at_edx, at_ebx, at_ebp, at_esi, at_edi, Cpu, Core, Linked, push, enter_c, interrupt,
  memory, sched_of, save_registers, save_context,
}
use fun_size_os.Switch.Save.{Saved, save_registers-Saved, save_registers_outside}
use fun_size_os.Switch.Stack.{
  KeepsFrames, Below, Below-trans, Below-word, push-Below, push_word, enter_c-Below,
  interrupt-Below, interrupt_eip,
}

-- The current task runs on the stack in its page, with room for the entry and the C frames.
pub record OnStack (depth : ℕ) (r : Core) : Type 0 where
  pub full : (sched_of r).current ≢ null
  pub page : (sched_of r).current % 4096 ≡ 0
  pub room : (sched_of r).current + size_of_task + 20 + depth ≤ r.cpu.esp
  pub top : r.cpu.esp ≤ (sched_of r).current + 4096
  pub small : (sched_of r).current + 4096 < 2 ^ 32

-- The bytes of a task that an interrupt may write: the first 72 of its `tss`, and its stack.
abbrev pub Elsewhere : ℕ → ℕ → Type 0
Elsewhere task a = (a < task) ⊎ ((task + 72 ≤ a) × (a < task + size_of_task)) ⊎ (task + 4096 ≤ a)

-- The registers of a task, as they stand in its `tss`. What is there for eax is not listed: nothing
-- reads it.
pub record HasRegisters (task : ℕ) (cpu : Cpu) (m : Memory) : Type 0 where
  pub eip_is : load32 m (task + at_eip) ≡ u32 cpu.eip
  pub esp_is : load32 m (task + at_tss_esp0) ≡ u32 cpu.esp
  pub ecx_is : load32 m (task + at_ecx) ≡ u32 cpu.ecx
  pub edx_is : load32 m (task + at_edx) ≡ u32 cpu.edx
  pub ebx_is : load32 m (task + at_ebx) ≡ u32 cpu.ebx
  pub ebp_is : load32 m (task + at_ebp) ≡ u32 cpu.ebp
  pub esi_is : load32 m (task + at_esi) ≡ u32 cpu.esi
  pub edi_is : load32 m (task + at_edi) ≡ u32 cpu.edi

module _ (depth : ℕ) (l : Linked) (frames : KeepsFrames depth l) (eflags cs : ℕ) (r : Core)
    (on : OnStack depth r) where
  abbrev pub task : ℕ
  task = (sched_of r).current

  -- With ecx on the stack.
  pushed : Core
  pushed = push r.cpu.ecx (interrupt eflags cs r)

  gate-Below : Below 12 12 r (interrupt eflags cs r)
  gate-Below =
      interrupt-Below eflags cs r (omega (arith, on.room)) (omega (arith, on.top, on.small))

  ecx-Below : Below 4 4 (interrupt eflags cs r) pushed
  unfolding pushed
  ecx-Below =
      push-Below r.cpu.ecx (interrupt eflags cs r) (omega (arith, on.room, gate-Below.esp))
        (omega (arith, on.top, on.small, gate-Below.esp))

  pushed-Below : Below 16 16 r pushed
  pushed-Below = Below-trans 16 gate-Below ecx-Below (omega arith) (omega arith)

  pushed_eip : load32 (memory pushed) (pushed.cpu.esp + 4) ≡ u32 r.cpu.eip
  pushed_eip =
      let at : pushed.cpu.esp + 4 ≡ (interrupt eflags cs r).cpu.esp = ecx-Below.esp in
      rw at (
        Below-word ecx-Below (interrupt eflags cs r).cpu.esp (inr (omega arith))
        ∙ interrupt_eip eflags cs r (omega (arith, on.room)) (omega (arith, on.top, on.small)))

  pushed_ecx : load32 (memory pushed) pushed.cpu.esp ≡ u32 r.cpu.ecx
  unfolding pushed
  pushed_ecx = push_word r.cpu.ecx (interrupt eflags cs r)

  unfoldable pub entered : Core
  entered = save_context (interrupt eflags cs r)

  entered_memory : memory entered ≡ save_registers task pushed.cpu (memory pushed)
  unfolding entered save_context pushed interrupt push
  entered_memory = rw (ne→== task null on.full) refl

  entered_esp : entered.cpu.esp ≡ add32 pushed.cpu.esp 4
  unfolding entered save_context pushed interrupt push
  entered_esp = rw (ne→== task null on.full) refl

  same_ecx : pushed.cpu.ecx ≡ r.cpu.ecx
  unfolding pushed push interrupt
  same_ecx = refl

  entered-Saved : Saved task r.cpu.eip pushed.cpu (memory entered)
  entered-Saved = rw entered_memory (
      save_registers-Saved task pushed.cpu (memory pushed)
        (omega (arith, on.room, pushed-Below.esp))
        (omega (arith, on.top, on.small, pushed-Below.esp)) r.cpu.eip pushed_eip
        (pushed_ecx ∙ ap u32 (sym same_ecx)))

  pub entered_tasks : (sched_of entered).tasks ≡ (sched_of r).tasks
  unfolding entered save_context push interrupt
  entered_tasks = rw (ne→== (sched_of r).current null on.full) refl

  pub entered_current : (sched_of entered).current ≡ (sched_of r).current
  unfolding entered save_context push interrupt
  entered_current = rw (ne→== (sched_of r).current null on.full) refl

  pub entered_ticks : (sched_of entered).cpu_ticks ≡ (sched_of r).cpu_ticks
  unfolding entered save_context push interrupt
  entered_ticks = rw (ne→== (sched_of r).current null on.full) refl

  unfoldable pub called : Core
  called = enter_c l l.after_clock_handler (push 0x20 entered)

  pub called-Below : Below 8 (depth + 8) entered called
  unfolding called
  called-Below =
      let esp : entered.cpu.esp + 12 ≡ r.cpu.esp =
        omega (arith, entered_esp, pushed-Below.esp, on.room, on.top, on.small) in
      let p = push-Below 0x20 entered (omega (arith, on.room)) (omega (arith, on.top, on.small)) in
      let c =
        enter_c-Below depth l l.after_clock_handler (push 0x20 entered) frames
          (omega (arith, on.room, p.esp)) (omega (arith, on.top, on.small, p.esp)) in
      Below-trans (depth + 8) p c (omega arith) (omega arith)

  entered_esp_is : entered.cpu.esp + 12 ≡ r.cpu.esp
  entered_esp_is = omega (arith, entered_esp, pushed-Below.esp, on.room, on.top, on.small)

  pub called_outside : (a : ℕ) → Elsewhere task a → memory called a ≡ memory r a
  called_outside a out =
      called-Below.outside a (omega (arith, entered_esp_is, on.room, on.top))
      ∙ ap (λ m. m a) entered_memory
      ∙ save_registers_outside task pushed.cpu (memory pushed)
          (omega (arith, on.room, pushed-Below.esp))
          (omega (arith, on.top, on.small, pushed-Below.esp)) a (omega arith)
      ∙ pushed-Below.outside a (omega (arith, on.room, on.top))

  called_word : (a : ℕ) → a + 4 ≤ task + 72 → load32 (memory called) a ≡ load32 (memory entered) a
  called_word a low = Below-word called-Below a (inl (omega (arith, entered_esp_is, on.room)))

  pub called_tasks : (sched_of called).tasks ≡ (sched_of r).tasks
  called_tasks = called-Below.tasks ∙ entered_tasks

  pub called_ticks : (sched_of called).cpu_ticks ≡ (sched_of r).cpu_ticks
  called_ticks = called-Below.ticks ∙ entered_ticks

  -- The interrupted task's registers stand in its `tss`.
  pub called-HasRegisters : HasRegisters task r.cpu (memory called)
  unfolding pushed push interrupt
  called-HasRegisters = record {
    eip_is = called_word (task + at_eip) (omega arith) ∙ entered-Saved.eip_is;
    esp_is =
        called_word (task + at_tss_esp0) (omega arith)
        ∙ entered-Saved.esp_is
        ∙ omega (arith, pushed-Below.esp, on.room, on.top, on.small);
    ecx_is = called_word (task + at_ecx) (omega arith) ∙ entered-Saved.ecx_is;
    edx_is = called_word (task + at_edx) (omega arith) ∙ entered-Saved.edx_is;
    ebx_is = called_word (task + at_ebx) (omega arith) ∙ entered-Saved.ebx_is;
    ebp_is = called_word (task + at_ebp) (omega arith) ∙ entered-Saved.ebp_is;
    esi_is = called_word (task + at_esi) (omega arith) ∙ entered-Saved.esi_is;
    edi_is = called_word (task + at_edi) (omega arith) ∙ entered-Saved.edi_is;
  }
