-- ===== src/Kprintf/Tests.antt =====
-- A number in a field of eight characters.
use boring_os_ssaha.Prelude.{◌≡◌, refl, arith, true, some, [], ◌∷◌, inr}
use boring_os_ssaha.Kprintf.{fill_buf, printnum}
use boring_os_ssaha.Kprintf.Digits.{Printed, printnum-Printed}

hex : printnum true 16 0xBEEF 6 0x30 ≡ some (0x30 ∷ 0x30 ∷ 0x42 ∷ 0x45 ∷ 0x45 ∷ 0x46 ∷ [])
unfolding printnum fill_buf
hex = refl

printnum-Printed_example : Printed true 16 0xBEEF 8 0x20 (printnum true 16 0xBEEF 8 0x20)
printnum-Printed_example = printnum-Printed true 16 0xBEEF 8 0x20 (inr (inr refl)) (omega arith)
