-- ===== src/Copy/Tests.antt =====
-- Copies at single addresses.
use boring_os_ssaha.Prelude.{ℕ, arith, Bool, false, update}
use boring_os_ssaha.Copy.{copy_in, copy_str_in}
use boring_os_ssaha.Copy.Guard.{Alike, copy_in-Alike}

-- No address faults.
abbrev quiet : ℕ → Bool
quiet p = false

-- The letters a and b at 100, and a secret byte of the kernel.
abbrev memory : ℕ → ℕ → ℕ
memory secret = update (update (update (λ p. 0) 100 97) 101 98) 0xffff800000000000 secret

copy_in-Alike_example :
    Alike
      (memory 7)
      (memory 8)
      (copy_in quiet (memory 7) 100 0xffff800000001000 2)
      (copy_in quiet (memory 8) 100 0xffff800000001000 2)
    × Alike
        (memory 7)
        (memory 8)
        (copy_str_in quiet (memory 7) 100 0xffff800000001000 2)
        (copy_str_in quiet (memory 8) 100 0xffff800000001000 2)
copy_in-Alike_example =
    copy_in-Alike quiet (memory 7) (memory 8) 100 0xffff800000001000 2 (λ p h. ground arith)
      (omega arith)
