-- ===== src/Kprintf.antt =====
-- Numbers for the console: printnum of sys/kern/printf.c. What is put out is a list of characters. A negative
-- base of the code, which asks for capital letters, is the base with `upper`. The digits are written to a
-- buffer, the lowest first, and put out from its end.
pub mod Digits
mod Tests
use boring_os_ssaha.Prelude.{
  ℕ, zero, suc, ◌+◌, ◌-◌, ◌/◌, ◌%◌, ◌==◌, ltb, if◌then◌else◌, Bool, true, false, ◌||◌, Option, none,
  some, List, [], ◌∷◌, ◌++◌, length,
}

-- numberstring_lower and numberstring_upper
abbrev pub digit : Bool → ℕ → ℕ
digit upper d = if ltb d 10 then 48 + d else if upper then 55 + d else 87 + d

-- The loop that fills the buffer, on fuel.
pub fill_buf : Bool → ℕ → ℕ → ℕ → Option (List ℕ)
fill_buf upper base num zero = none
fill_buf upper base num (suc fuel) =
    let c = digit upper (num % base) in
    let rest = fill_buf upper base (num / base) fuel in
    let longer : Option (List ℕ) = elim rest [ none ↦ none | some buf ↦ some (c ∷ buf) ] in
    if num / base == 0 then some (c ∷ []) else longer

-- "while (p != buf)": from the end of the buffer.
abbrev pub from_end : List ℕ → List ℕ → List ℕ
from_end [] out = out
from_end (c ∷ buf) out = from_end buf (c ∷ out)

abbrev pub spaces : ℕ → ℕ → List ℕ
spaces c zero = []
spaces c (suc n) = c ∷ spaces c n

-- printnum, with a width of 0 for none.
pub printnum : Bool → ℕ → ℕ → ℕ → ℕ → Option (List ℕ)
printnum upper base num width padc = elim (fill_buf upper base num 65) [
  | none ↦ none
  | some buf ↦
      let pad = width - length buf in
      let before = if padc == 0x20 || padc == 0x30 then spaces padc pad else [] in
      let after = if padc == 0x2d then spaces 0x20 pad else [] in
      some (before ++ from_end buf [] ++ after)
]
