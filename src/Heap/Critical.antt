-- ===== src/Heap/Critical.antt =====
-- The interrupt flag inside the critical sections of kmalloc and kfree_s: the allocator of pages prints.
use fun_size_os.Base.{ℕ, ◌≡◌, inl, inr, true, Bool-cases, ◌==◌}
use fun_size_os.Machine.{cli}
use fun_size_os.Pages.{Pages, null}
use fun_size_os.Pages.Prints.{get_free_page_enabled, free_page_enabled}
use fun_size_os.Heap.{Heap, on_machine, attach, new_bucket, give_page}

attach_enabled :
    (i d : ℕ) (h : Heap) (out : ℕ × Pages)
    → out.1.machine.interrupts ≡ true
    → (attach i d h out).1.pages.machine.interrupts ≡ true
unfolding attach
attach_enabled i d h (cp, pages) on = elim (Bool-cases (cp == null)) [
  | inl z ↦ rw z on
  | inr nz ↦ rw nz on
]

-- Both begin with interrupts disabled and end with interrupts enabled.
pub critical_sections_open :
    (i d : ℕ) (h : Heap)
    → ((new_bucket i (on_machine cli h)).1.pages.machine.interrupts ≡ true)
      × ((give_page d (on_machine cli h)).pages.machine.interrupts ≡ true)
unfolding new_bucket give_page
critical_sections_open i d h =
    (attach_enabled i _ _ _ (get_free_page_enabled _), free_page_enabled _ _)
