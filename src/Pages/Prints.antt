-- ===== src/Pages/Prints.antt =====
-- get_free_page and free_page print, and printk enables interrupts.
use fun_size_os.Base.{ℕ, ◌≡◌, inl, inr, refl, true, Option, none, some, Bool-cases, ltb, ◌||◌}
use fun_size_os.Machine.{cli, sti, printk}
use fun_size_os.Pages.{Pages, report, grant, get_free_page, free_page}

grant_enabled : (s : Pages) (found : Option ℕ) → (grant s found).1.machine.interrupts ≡ true
unfolding grant report printk sti
grant_enabled s none = refl
grant_enabled s (some i) = refl

pub get_free_page_enabled : (s : Pages) → (get_free_page s).1.machine.interrupts ≡ true
unfolding get_free_page
get_free_page_enabled s = grant_enabled s _

pub free_page_enabled : (p : ℕ) (s : Pages) → (free_page p s).machine.interrupts ≡ true
unfolding free_page report printk sti
free_page_enabled p s =
    elim (Bool-cases (ltb p s.physics_memory.addr_start || ltb s.physics_memory.addr_end p)) [
      | inl out ↦ rw out refl
      | inr fine ↦ rw fine refl
    ]

grant-cli :
    (s : Pages) (found : Option ℕ)
    → grant (record s { machine = cli s.machine }) found ≡ grant s found
unfolding grant report printk cli sti
grant-cli s none = refl
grant-cli s (some i) = refl

-- What get_free_page leaves does not depend on the interrupt flag before.
pub get_free_page-cli :
    (s : Pages) → get_free_page (record s { machine = cli s.machine }) ≡ get_free_page s
unfolding get_free_page cli
get_free_page-cli s = grant-cli s _
