-- ===== src/Number/Tests.antt =====
-- Runs of number, and its theorems at concrete inputs.
use fun_size_os.Base.{◌+◌, ◌-◌, ◌^◌, ◌≡◌, refl, inl, inr, arith, [], ◌∷◌, if◌then◌else◌, ltb, ◌&&◌}
use fun_size_os.Number.{Out, tmp_of, digit_loop, number}
use fun_size_os.Number.Digits.{Digits, tmp_of_lem}
use fun_size_os.Number.Width.{length_of, number_width}

abbrev start : Out
start = record { memory = λ a. 0; str = 0x500 }

-- The last digit of 90 stands at the bottom.
tmp_runs : tmp_of 90 10 ≡ 9 ∷ 0 ∷ []
unfolding tmp_of digit_loop
tmp_runs = refl

tmp_of_lem_example : Digits 255 16 (tmp_of 255 16)
tmp_of_lem_example = tmp_of_lem 255 16 (omega arith) (omega arith)

number_width_example :
    let used = length_of (2 ^ 32 - 7) 10 (2 ^ 32 - 1) 2 in
    (number start (2 ^ 32 - 7) 10 5 (2 ^ 32 - 1) 2).str
    ≡ 0x500 + (if ltb 5 (2 ^ 31) && ltb used 5 then 5 else used)
number_width_example =
    number_width start (2 ^ 32 - 7) 10 5 (2 ^ 32 - 1) 2 (omega arith) (omega arith) (omega arith)
      (inl (omega arith)) (inr refl)
