-- ===== src/Switch/Stack.antt =====
-- The stack of a task, which lies in the page of the task, above its `task_t`.
use fun_size_os.Base.{ℕ, ◌+◌, ◌^◌, ◌≤◌, ◌<◌, ◌≡◌, ◌⊎◌, refl, ◌∙◌, arith, u32, sub32}
use fun_size_os.Memory.{Memory, load32, store32_ne, load32-store32_self, load32-frame}
use fun_size_os.Switch.{Core, Linked, push, enter_c, interrupt, memory, sched_of}

-- The frames of a C function take at most `depth` bytes, and leave all others.
pub record KeepsFrames (depth : ℕ) (l : Linked) : Type 0 where
  pub kept : (esp : ℕ) (m : Memory) (a : ℕ) → (esp ≤ a) ⊎ (a + depth < esp) → l.leave esp m a ≡ m a

-- From `r` to `r'` the stack pointer has gone down by `n`, only bytes within `d` below it are
-- different, and nothing but the memory and the processor is.
pub record Below (n d : ℕ) (r r' : Core) : Type 0 where
  pub esp : r'.cpu.esp + n ≡ r.cpu.esp
  pub outside : (a : ℕ) → (a + d < r.cpu.esp) ⊎ (r.cpu.esp ≤ a) → memory r' a ≡ memory r a
  pub tasks : (sched_of r').tasks ≡ (sched_of r).tasks
  pub current : (sched_of r').current ≡ (sched_of r).current
  pub ticks : (sched_of r').cpu_ticks ≡ (sched_of r).cpu_ticks

pub push-Below : (v : ℕ) (r : Core) → 4 ≤ r.cpu.esp → r.cpu.esp < 2 ^ 32 → Below 4 4 r (push v r)
unfolding push
push-Below v r low small = record {
  esp = omega arith;
  outside = λ a out. store32_ne (memory r) (sub32 r.cpu.esp 4) v a (omega arith);
  tasks = refl;
  current = refl;
  ticks = refl;
}

pub push_word : (v : ℕ) (r : Core) → load32 (memory (push v r)) (push v r).cpu.esp ≡ u32 v
unfolding push
push_word v r = load32-store32_self (memory r) (sub32 r.cpu.esp 4) v

pub Below-trans :
    {n d k e : ℕ} {r r' r'' : Core} (f : ℕ)
    → Below n d r r'
    → Below k e r' r''
    → d ≤ f
    → n + e ≤ f
    → Below (n + k) f r r''
Below-trans f p q df ef = record {
  esp = omega (arith, p.esp, q.esp);
  outside = λ a out. q.outside a (omega (arith, p.esp)) ∙ p.outside a (omega arith);
  tasks = q.tasks ∙ p.tasks;
  current = q.current ∙ p.current;
  ticks = q.ticks ∙ p.ticks;
}

-- A word above what is touched.
pub Below-word :
    {n d : ℕ} {r r' : Core}
    → Below n d r r'
    → (a : ℕ) → (a + 4 + d ≤ r.cpu.esp) ⊎ (r.cpu.esp ≤ a)
    → load32 (memory r') a ≡ load32 (memory r) a
Below-word {r} {r'} b a out =
    load32-frame (memory r) (memory r') a (λ c p q. b.outside c (omega arith))

pub enter_c-Below :
    (depth : ℕ) (l : Linked) (back : ℕ) (r : Core)
    → KeepsFrames depth l
    → depth + 4 ≤ r.cpu.esp
    → r.cpu.esp < 2 ^ 32
    → Below 4 (depth + 4) r (enter_c l back r)
unfolding enter_c
enter_c-Below depth l back r f low small =
    let b = push-Below back r (omega arith) small in
    record {
      esp = b.esp;
      outside = λ a out.
          f.kept (push back r).cpu.esp (memory (push back r)) a (omega (arith, b.esp))
          ∙ b.outside a (omega arith);
      tasks = b.tasks;
      current = b.current;
      ticks = b.ticks;
    }

-- The words that the processor pushes, with the address to go on at on top.
module _ (eflags cs : ℕ) (r : Core) (low : 12 ≤ r.cpu.esp) (small : r.cpu.esp < 2 ^ 32) where
  pushes-Below : Below 12 12 r (push r.cpu.eip (push cs (push eflags r)))
  pushes-Below =
      let p1 = push-Below eflags r (omega arith) small in
      let p2 = push-Below cs (push eflags r) (omega (arith, p1.esp)) (omega (arith, p1.esp)) in
      let p12 = Below-trans 8 p1 p2 (omega arith) (omega arith) in
      let p3 =
        push-Below r.cpu.eip (push cs (push eflags r)) (omega (arith, p12.esp))
          (omega (arith, p12.esp)) in
      Below-trans 12 p12 p3 (omega arith) (omega arith)

  pub interrupt-Below : Below 12 12 r (interrupt eflags cs r)
  unfolding interrupt
  interrupt-Below =
      let b = pushes-Below in
      record {
        esp = b.esp;
        outside = b.outside;
        tasks = b.tasks;
        current = b.current;
        ticks = b.ticks;
      }

  pub interrupt_eip :
      load32 (memory (interrupt eflags cs r)) (interrupt eflags cs r).cpu.esp ≡ u32 r.cpu.eip
  unfolding interrupt
  interrupt_eip = push_word r.cpu.eip (push cs (push eflags r))
