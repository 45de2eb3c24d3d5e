-- ===== src/Start/Main.antt =====
-- kernel_main as a whole.
use mathlib.Core.Path.{subst}
use fun_size_os.Base.{
  ℕ, suc, ◌+◌, ◌-◌, ◌*◌, ◌≤◌, ◌<◌, ◌≡◌, inl, refl, sym, ◌∙◌, ◌==◌, eq→==, if◌then◌else◌, set, u32,
  ap, arith, u8, some,
}
use fun_size_os.Memory.{load32}
use fun_size_os.Machine.{sti}
use fun_size_os.Gdt.Item.{IsUserSegment}
use fun_size_os.Gdt.Init.{IsUserSegment-frame}
use fun_size_os.Idt.{Entries, handler_of, interrupt_table_size}
use fun_size_os.Idt.Gates.{IsGate, IsGate-frame}
use fun_size_os.Pages.{memory_init}
use fun_size_os.Pages.Inv.{IsReady, table, page_at, used_pages}
use fun_size_os.Pages.Zone.{memory_init-memory, memory_map_int_outside}
use fun_size_os.Sched.{null, at_pid}
use fun_size_os.Task.{Kernel, heap_of, memory_at, create_task, task_init}
use fun_size_os.Task.Create.{HasTask}
use fun_size_os.Task.Boot.{Booted, create_task-boot_lem}
use fun_size_os.Start.{
  System, machine_of, on_machine, on_pages, set_up_tables, greet, set_up_memory, kernel_main,
}
use fun_size_os.Start.Stages.{console_init-IsOnScreen}
use fun_size_os.Start.Layout.{IsLoaded, IsStarted}
use fun_size_os.Start.Parts.{
  start_memory, screen, boot_gdt, moved_gdt, boot_idt, filled_idt, with_tables, found, counted,
  before,
}
use fun_size_os.Start.Tables.{gates, gdt_base, idt_base, idt_outside, moved}
use fun_size_os.Start.Counted.{
  before-CanBoot, before-IsEmpty, before-total, found-memory, name_same,
}

module _ (fuel name end idle k : ℕ) (e : Entries) (s : System)
    (l : IsLoaded fuel name end k e s) where
  after : Kernel → System
  after k' =
      on_machine sti
        (record (on_pages set_up_memory (on_machine greet (with_tables e s))) { kernel = k' })

  kernel_main-after :
      (fuel' : ℕ) (task : ℕ) (k' : Kernel)
      → create_task fuel' name idle 1 (before e s) ≡ some (task, k')
      → kernel_main fuel' name idle e s ≡ some (after k')
  unfolding kernel_main task_init after before with_tables
  kernel_main-after fuel' task k' ends = rw ends refl

  module _ (k' : Kernel) (made : Booted name end idle 0 (before e s) k') where
    -- Nothing below the page table has changed since the tables were written.
    after_same :
        (a : ℕ) → a < table → (machine_of (after k')).memory a ≡ (filled_idt e s).machine.memory a
    unfolding after sti before counted found set_up_memory
    after_same a low =
        made.outside a (inl low) (omega arith)
        ∙ memory_map_int_outside (memory_init (found e s)) a (inl low)
        ∙ ap (λ n. n a) (memory_init-memory (found e s))
        ∙ ap (λ n. n a) (found-memory fuel name end idle k e s l)

    after_gates :
        (i : ℕ)
        → i < interrupt_table_size
        → IsGate
            (machine_of (after k')).memory
            ((filled_idt e s).idtr.base + 8 * i)
            (handler_of e i)
    after_gates i h =
        IsGate-frame (filled_idt e s).machine.memory (machine_of (after k')).memory
          ((filled_idt e s).idtr.base + 8 * i) (handler_of e i)
          (λ c p q. after_same c (omega (arith, (idt_base fuel name end idle k e s l), l.idt_end)))
          ((gates fuel name end idle k e s l) i h)

    segment_same :
        (c : ℕ)
        → s.gdt.gdt ≤ c
        → c < s.gdt.gdt + 48
        → (machine_of (after k')).memory c ≡ (moved_gdt s).machine.memory c
    segment_same c p q =
        after_same c (omega (arith, l.gdt_end))
        ∙ (idt_outside fuel name end idle k e s l) c (omega (arith, l.tables_apart))

    after_code :
        IsUserSegment
          (machine_of (after k')).memory
          ((moved_gdt s).gdtr.base + 8 * 4)
          0b1000
          0
          0xf_ffff
    unfolding boot_gdt
    after_code =
        IsUserSegment-frame (moved_gdt s).machine.memory (machine_of (after k')).memory
          ((moved_gdt s).gdtr.base + 8 * 4) 0b1000 0 0xf_ffff
          (λ c p q.
            segment_same c (omega (arith, (gdt_base fuel name end idle k e s l)))
              (omega (arith, (gdt_base fuel name end idle k e s l))))
          (rw (gdt_base fuel name end idle k e s l) (moved fuel name end idle k e s l).code)

    after_datas :
        IsUserSegment
          (machine_of (after k')).memory
          ((moved_gdt s).gdtr.base + 8 * 5)
          0b0010
          0
          0xf_ffff
    unfolding boot_gdt
    after_datas =
        IsUserSegment-frame (moved_gdt s).machine.memory (machine_of (after k')).memory
          ((moved_gdt s).gdtr.base + 8 * 5) 0b0010 0 0xf_ffff
          (λ c p q.
            segment_same c (omega (arith, (gdt_base fuel name end idle k e s l)))
              (omega (arith, (gdt_base fuel name end idle k e s l))))
          (rw (gdt_base fuel name end idle k e s l) (moved fuel name end idle k e s l).datas)

    task_page : page_at (used_pages (heap_of (before e s)).pages + 1) ≡ page_at 1
    task_page = ap (λ u. page_at (u + 1)) (before-IsEmpty fuel name end idle k e s l)

    before_ppid :
        u32 (
          if null == (before e s).sched.current
          then 0
          else load32 (memory_at (before e s).sched) ((before e s).sched.current + at_pid))
        ≡ u32 (
            if null == s.kernel.sched.current
            then 0
            else load32 (memory_at s.kernel.sched) (s.kernel.sched.current + at_pid))
    unfolding before with_tables set_up_tables
    before_ppid = rw (eq→== null s.kernel.sched.current (sym l.no_current)) refl

    before_name :
        (i : ℕ)
        → i ≤ end - name
        → memory_at (before e s).sched (name + i) ≡ (start_memory s) (name + i)
    unfolding before counted found
    before_name i h =
        name_same fuel name end idle k e s l (name + i) (omega arith)
          (omega (arith, l.string.starts))

    after-HasTask : HasTask name end idle (page_at 1) 0 s.kernel.sched (after k').kernel.sched
    unfolding after sti
    after-HasTask =
        let there =
          subst (λ p. HasTask name end idle p 0 (before e s).sched k'.sched) task_page made.task in
        record {
          pid_is = there.pid_is;
          ppid_is = there.ppid_is ∙ before_ppid;
          times_is = there.times_is;
          name_is = λ i h. there.name_is i h ∙ ap u8 (before_name i h);
          context = there.context;
          rest_is = there.rest_is;
        }

    after-IsReady : IsReady (heap_of (after k').kernel).pages
    unfolding after sti
    after-IsReady = record {
      start = made.ready.start;
      base = made.ready.base;
      map_at = made.ready.map_at;
      room = made.ready.room;
      end_small = made.ready.end_small;
      flags = made.ready.flags;
      counted = made.ready.counted;
    }

    after-IsStarted : IsStarted name end idle k e s (after k')
    unfolding after sti with_tables set_up_tables filled_idt boot_idt moved_gdt boot_gdt screen
        before
    after-IsStarted = record {
      screen = console_init-IsOnScreen (record s.console { machine = machine_of s });
      gates = after_gates;
      code = after_code;
      datas = after_datas;
      ready = after-IsReady;
      total = made.total ∙ before-total fuel name end idle k e s l;
      used = made.used ∙ ap (λ u. u + 2) (before-IsEmpty fuel name end idle k e s l);
      tasks = made.tasks ∙ ap (λ p. set s.kernel.sched.tasks 0 p) task_page;
      task = after-HasTask;
      current = made.current;
      interrupts = refl;
    }

-- If the two descriptor tables lie apart between 0x1200 and 0x10000, the handlers are 32-bit
-- addresses, the boot code's descriptor table has a limit of at most 32 and does not overwrite
-- itself in the copy, the idle task's name is a string of at most 31 bytes below 0x10000 and
-- outside the tables, with fuel for it, the first usable zone of the BIOS table that begins at 1
-- MB is listed below 0x1200, has at least two pages and ends below 2 GB, the heap's buckets are as
-- initialised, and no page, descriptor, first task or current task is recorded, then kernel_main
-- comes to its endless loop: the console's cursor is on the screen, all 256 gates and the two user
-- segments are in the loaded tables, the page table is valid for every whole page of the zone with
-- two in use, the idle task stands in page 1 as process 0 with its function as eip and in entry 0,
-- there is no current task, and interrupts are on.
pub kernel_main_lem :
    (fuel name end idle k : ℕ) (e : Entries) (s : System)
    → IsLoaded fuel name end k e s
    → (s' : System) × (kernel_main (suc fuel) name idle e s ≡ some s')
      × IsStarted name end idle k e s s'
kernel_main_lem fuel name end idle k e s l =
    let (k', ends, made) =
      create_task-boot_lem fuel name end idle 1 0 (before e s)
        (before-CanBoot fuel name end idle k e s l) in
    (
      after fuel name end idle k e s l k',
      kernel_main-after fuel name end idle k e s l (suc fuel) _ k' ends,
      after-IsStarted fuel name end idle k e s l k' made,
    )
