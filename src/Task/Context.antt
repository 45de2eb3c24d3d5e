-- ===== src/Task/Context.antt =====
-- What a new task's page holds: the fields before and after its name.
use fun_size_os.Base.{ℕ, ◌+◌, ◌≤◌, ◌<◌, ◌≡◌, ◌⊎◌, refl, ◌∙◌, ap, arith, u32}
use fun_size_os.Memory.{Memory, load32, store32, store32_ne, load32-store32_self, load32-store32_ne}
use fun_size_os.Pages.{page_size}
use fun_size_os.Sched.{state_code, ready, at_pid, at_ppid, at_state, at_scheduling_times}
use fun_size_os.Task.{
  set_ids, set_context, at_tss_esp0, at_cr3, at_eip, at_esp0, at_ebp0, size_of_task,
}

-- The task starts in `fun`, with its stack at the page's end.
pub record HasContext (task fun : ℕ) (m : Memory) : Type 0 where
  pub cr3 : load32 m (task + at_cr3) ≡ u32 (task + size_of_task)
  pub eip : load32 m (task + at_eip) ≡ u32 fun
  pub esp0 : load32 m (task + at_esp0) ≡ u32 (task + page_size)
  pub ebp0 : load32 m (task + at_ebp0) ≡ u32 (task + page_size)
  pub tss_esp0 : load32 m (task + at_tss_esp0) ≡ u32 (task + page_size)
  pub state : load32 m (task + at_state) ≡ state_code ready

module _ (task fun : ℕ) (m : Memory) where
  with_eip : Memory
  with_eip = store32 (store32 m (task + at_cr3) (task + size_of_task)) (task + at_eip) fun

  with_esp0 : Memory
  with_esp0 = store32 with_eip (task + at_esp0) (task + page_size)

  with_ebp0 : Memory
  with_ebp0 = store32 with_esp0 (task + at_ebp0) (load32 with_esp0 (task + at_esp0))

  with_tss : Memory
  with_tss = store32 with_ebp0 (task + at_tss_esp0) (load32 with_ebp0 (task + at_esp0))

  with_state : Memory
  with_state = store32 with_tss (task + at_state) (state_code ready)

  context_is : set_context task fun m ≡ with_state
  unfolding set_context with_state with_tss with_ebp0 with_esp0 with_eip
  context_is = refl

  -- A field that the last two stores, or the last four, do not touch.
  behind_tss :
      (a : ℕ)
      → (a + 4 ≤ task + at_tss_esp0) ⊎ (task + at_tss_esp0 + 4 ≤ a)
      → (a + 4 ≤ task + at_state) ⊎ (task + at_state + 4 ≤ a)
      → load32 with_state a ≡ load32 with_ebp0 a
  unfolding with_state with_tss
  behind_tss a p q =
      load32-store32_ne with_tss (task + at_state) (state_code ready) a q
      ∙ load32-store32_ne with_ebp0 (task + at_tss_esp0) (load32 with_ebp0 (task + at_esp0)) a p

  behind_eip :
      (a : ℕ) → task + 8 ≤ a → a + 4 ≤ task + at_state → load32 with_state a ≡ load32 with_eip a
  unfolding with_ebp0 with_esp0
  behind_eip a p q =
      behind_tss a (omega arith) (omega arith)
      ∙ load32-store32_ne with_esp0 (task + at_ebp0) (load32 with_esp0 (task + at_esp0)) a
          (omega arith)
      ∙ load32-store32_ne with_eip (task + at_esp0) (task + page_size) a (omega arith)

  esp0_stored : load32 with_esp0 (task + at_esp0) ≡ u32 (task + page_size)
  unfolding with_esp0
  esp0_stored = load32-store32_self with_eip (task + at_esp0) (task + page_size)

  esp0_read : load32 with_ebp0 (task + at_esp0) ≡ u32 (task + page_size)
  unfolding with_ebp0
  esp0_read =
      load32-store32_ne with_esp0 (task + at_ebp0) (load32 with_esp0 (task + at_esp0))
        (task + at_esp0) (omega arith)
      ∙ esp0_stored

  with_state-HasContext : HasContext task fun with_state
  unfolding with_state with_tss with_ebp0 with_eip
  with_state-HasContext = record {
    cr3 =
        behind_eip (task + at_cr3) (omega arith) (omega arith)
        ∙ load32-store32_ne (store32 m (task + at_cr3) (task + size_of_task)) (task + at_eip) fun
            (task + at_cr3) (omega arith)
        ∙ load32-store32_self m (task + at_cr3) (task + size_of_task);
    eip =
        behind_eip (task + at_eip) (omega arith) (omega arith)
        ∙ load32-store32_self (store32 m (task + at_cr3) (task + size_of_task)) (task + at_eip) fun;
    esp0 = behind_tss (task + at_esp0) (omega arith) (omega arith) ∙ esp0_read;
    ebp0 =
        behind_tss (task + at_ebp0) (omega arith) (omega arith)
        ∙ load32-store32_self with_esp0 (task + at_ebp0) (load32 with_esp0 (task + at_esp0))
        ∙ omega (arith, esp0_stored);
    tss_esp0 =
        load32-store32_ne with_tss (task + at_state) (state_code ready) (task + at_tss_esp0)
          (omega arith)
        ∙ load32-store32_self with_ebp0 (task + at_tss_esp0) (load32 with_ebp0 (task + at_esp0))
        ∙ omega (arith, esp0_read);
    state = load32-store32_self with_tss (task + at_state) (state_code ready);
  }

  pub set_context-HasContext : HasContext task fun (set_context task fun m)
  set_context-HasContext = rw context_is with_state-HasContext

  -- Neither the fields from eip to the name, nor those from there to esp0, nor anything behind ebp0.
  abbrev pub Untouched : ℕ → Type 0
  Untouched c =
      (c < task)
      ⊎ ((task + 36 ≤ c) × (c < task + 148))
      ⊎ ((task + 152 ≤ c) × (c < task + 168))
      ⊎ (task + 176 ≤ c)

  pub set_context_elsewhere : (c : ℕ) → Untouched c → set_context task fun m c ≡ m c
  unfolding with_state with_tss with_ebp0 with_esp0 with_eip
  set_context_elsewhere c out =
      ap (λ k. k c) context_is
      ∙ store32_ne with_tss (task + at_state) (state_code ready) c (omega arith)
      ∙ store32_ne with_ebp0 (task + at_tss_esp0) (load32 with_ebp0 (task + at_esp0)) c
          (omega arith)
      ∙ store32_ne with_esp0 (task + at_ebp0) (load32 with_esp0 (task + at_esp0)) c (omega arith)
      ∙ store32_ne with_eip (task + at_esp0) (task + page_size) c (omega arith)
      ∙ store32_ne (store32 m (task + at_cr3) (task + size_of_task)) (task + at_eip) fun c
          (omega arith)
      ∙ store32_ne m (task + at_cr3) (task + size_of_task) c (omega arith)

-- The ids.
module _ (task pid ppid : ℕ) (m : Memory) where
  pub set_ids_pid : load32 (set_ids task pid ppid m) (task + at_pid) ≡ u32 pid
  unfolding set_ids
  set_ids_pid =
      load32-store32_ne (store32 (store32 m (task + at_pid) pid) (task + at_ppid) ppid)
        (task + at_scheduling_times) 0 (task + at_pid) (omega arith)
      ∙ load32-store32_ne (store32 m (task + at_pid) pid) (task + at_ppid) ppid (task + at_pid)
          (omega arith)
      ∙ load32-store32_self m (task + at_pid) pid

  pub set_ids_parent : load32 (set_ids task pid ppid m) (task + at_ppid) ≡ u32 ppid
  unfolding set_ids
  set_ids_parent =
      load32-store32_ne (store32 (store32 m (task + at_pid) pid) (task + at_ppid) ppid)
        (task + at_scheduling_times) 0 (task + at_ppid) (omega arith)
      ∙ load32-store32_self (store32 m (task + at_pid) pid) (task + at_ppid) ppid

  pub set_ids_times : load32 (set_ids task pid ppid m) (task + at_scheduling_times) ≡ 0
  unfolding set_ids
  set_ids_times =
      load32-store32_self (store32 (store32 m (task + at_pid) pid) (task + at_ppid) ppid)
        (task + at_scheduling_times) 0

  pub set_ids_elsewhere : (c : ℕ) → (c < task) ⊎ (task + 168 ≤ c) → set_ids task pid ppid m c ≡ m c
  unfolding set_ids
  set_ids_elsewhere c out =
      store32_ne (store32 (store32 m (task + at_pid) pid) (task + at_ppid) ppid)
        (task + at_scheduling_times) 0 c (omega arith)
      ∙ store32_ne (store32 m (task + at_pid) pid) (task + at_ppid) ppid c (omega arith)
      ∙ store32_ne m (task + at_pid) pid c (omega arith)
