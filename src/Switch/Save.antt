-- ===== src/Switch/Save.antt =====
-- The stores of clock_handler_entry, as the words that they leave in the task.
use fun_size_os.Base.{
  ℕ, ◌+◌, ◌*◌, ◌^◌, ◌≤◌, ◌<◌, ◌≡◌, ◌⊎◌, inr, ◌∙◌, ap, arith, List, [], ◌∷◌, u32, add32,
}
use fun_size_os.Memory.{Memory, load32, load32-frame}
use fun_size_os.Task.{at_tss_esp0, at_eip}
use fun_size_os.Switch.{Cpu, save_registers, at_ecx, at_edx, at_ebx, at_ebp, at_esi, at_edi}
use fun_size_os.Switch.Words.{
  word_of, AllBelow, store_words, load32-store_words, store_words_outside,
}

abbrev registers : Cpu → List (ℕ × ℕ)
registers cpu =
    (10, cpu.eax)
    ∷ (12, cpu.edx)
    ∷ (13, cpu.ebx)
    ∷ (15, cpu.ebp)
    ∷ (16, cpu.esi)
    ∷ (17, cpu.edi)
    ∷ []

abbrev with_stack : Cpu → ℕ → List (ℕ × ℕ)
with_stack cpu eip =
    (10, cpu.eax)
    ∷ (12, cpu.edx)
    ∷ (13, cpu.ebx)
    ∷ (15, cpu.ebp)
    ∷ (16, cpu.esi)
    ∷ (17, cpu.edi)
    ∷ (8, eip)
    ∷ (1, add32 cpu.esp 0x10)
    ∷ []

-- With the words that are read from the stack.
abbrev all_words : Cpu → (eip ecx : ℕ) → List (ℕ × ℕ)
all_words cpu eip ecx =
    (10, cpu.eax)
    ∷ (12, cpu.edx)
    ∷ (13, cpu.ebx)
    ∷ (15, cpu.ebp)
    ∷ (16, cpu.esi)
    ∷ (17, cpu.edi)
    ∷ (8, eip)
    ∷ (1, add32 cpu.esp 0x10)
    ∷ (11, ecx)
    ∷ []

-- The words of the task, as what was on the stack.
pub record Saved (task eip : ℕ) (cpu : Cpu) (m : Memory) : Type 0 where
  pub eip_is : load32 m (task + at_eip) ≡ u32 eip
  pub esp_is : load32 m (task + at_tss_esp0) ≡ u32 (add32 cpu.esp 0x10)
  pub ecx_is : load32 m (task + at_ecx) ≡ u32 cpu.ecx
  pub edx_is : load32 m (task + at_edx) ≡ u32 cpu.edx
  pub ebx_is : load32 m (task + at_ebx) ≡ u32 cpu.ebx
  pub ebp_is : load32 m (task + at_ebp) ≡ u32 cpu.ebp
  pub esi_is : load32 m (task + at_esi) ≡ u32 cpu.esi
  pub edi_is : load32 m (task + at_edi) ≡ u32 cpu.edi

module _ (task : ℕ) (cpu : Cpu) (m : Memory) (above : task + 72 ≤ cpu.esp)
    (small : cpu.esp + 16 < 2 ^ 32) where
  stack_word :
      (fs : List (ℕ × ℕ)) (a : ℕ)
      → AllBelow 18 fs
      → task + 72 ≤ a
      → load32 (store_words task fs m) a ≡ load32 m a
  stack_word fs a below high =
      load32-frame m (store_words task fs m) a
        (λ c p q. store_words_outside task 18 fs m below c (inr (omega arith)))

  next_word : load32 (store_words task (registers cpu) m) (add32 cpu.esp 4) ≡ load32 m (cpu.esp + 4)
  next_word =
      let at : add32 cpu.esp 4 ≡ cpu.esp + 4 = omega arith in
      rw at (stack_word (registers cpu) (cpu.esp + 4) (omega arith) (omega arith))

  save_registers-words :
      save_registers task cpu m
      ≡ store_words task (all_words cpu (load32 m (cpu.esp + 4)) (load32 m cpu.esp)) m
  unfolding save_registers store_words
  save_registers-words =
      ap
        (λ eip.
          store_words task
            (all_words cpu eip (load32 (store_words task (with_stack cpu eip) m) cpu.esp)) m)
        next_word
      ∙ ap (λ ecx. store_words task (all_words cpu (load32 m (cpu.esp + 4)) ecx) m)
          (stack_word (with_stack cpu (load32 m (cpu.esp + 4))) cpu.esp (omega arith) (omega arith))

  word :
      (p : ℕ)
      → load32 (save_registers task cpu m) (task + 4 * p)
        ≡ word_of p
            (all_words cpu (load32 m (cpu.esp + 4)) (load32 m cpu.esp))
            (load32 m (task + 4 * p))
  word p =
      ap (λ n. load32 n (task + 4 * p)) save_registers-words
      ∙ load32-store_words task (all_words cpu (load32 m (cpu.esp + 4)) (load32 m cpu.esp)) m p

  pub save_registers-Saved :
      (eip : ℕ)
      → load32 m (cpu.esp + 4) ≡ u32 eip
      → load32 m cpu.esp ≡ u32 cpu.ecx
      → Saved task eip cpu (save_registers task cpu m)
  save_registers-Saved eip there last = record {
    eip_is = word 8 ∙ omega (arith, there);
    esp_is = word 1;
    ecx_is = word 11 ∙ omega (arith, last);
    edx_is = word 12;
    ebx_is = word 13;
    ebp_is = word 15;
    esi_is = word 16;
    edi_is = word 17;
  }

  pub save_registers_outside :
      (a : ℕ) → (a < task) ⊎ (task + 72 ≤ a) → save_registers task cpu m a ≡ m a
  save_registers_outside a out =
      ap (λ n. n a) save_registers-words
      ∙ store_words_outside task 18 (all_words cpu (load32 m (cpu.esp + 4)) (load32 m cpu.esp)) m
          (omega arith) a (omega arith)
