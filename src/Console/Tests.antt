-- ===== src/Console/Tests.antt =====
-- A console with two keys, and the theorems at small inputs.
use boring_os_ssaha.Prelude.{
  ℕ, ◌+◌, ◌%◌, ◌^◌, ◌≤◌, ◌≡◌, refl, arith, false, some, List, [], ◌∷◌, ◌++◌, update, inl, inr,
}
use boring_os_ssaha.Console.{Keys, enqueue_key, getc, write, bytes, gets}
use boring_os_ssaha.Console.Ring.{IsRing, queue, push, enqueue_key-queue}
use boring_os_ssaha.Console.Write.{sent, write-sent}
use boring_os_ssaha.Console.Line.{IsLine, edited, gets-edited, gets_overruns}
use boring_os_ssaha.Copy.{userspace_top}

abbrev keys : Keys
keys = record { next_key = 255; last_key = 1; key_buf = update (λ i. 97) 0 98 }

abbrev no_keys : Keys
no_keys = record { next_key = 255; last_key = 255; key_buf = λ i. 0 }

keys-IsRing : IsRing keys
keys-IsRing = (omega arith, omega arith)

enqueue_key-queue_example :
    IsRing (enqueue_key keys 99) × (queue (enqueue_key keys 99) ≡ push (queue keys) 99)
enqueue_key-queue_example = enqueue_key-queue keys 99 keys-IsRing

serial_return : getc no_keys (0x0d ∷ []) ≡ some (0x0a, no_keys, [])
unfolding getc
serial_return = refl

abbrev memory : ℕ → ℕ
memory p = p

room_for_600 : 4096 + sent 600 ≤ userspace_top
unfolding sent
room_for_600 = omega arith

write-sent_example :
    write (λ a. false) userspace_top memory [] 4096 600
    ≡ some ([] ++ bytes memory 4096 (sent 600), sent 600 % 2 ^ 32)
write-sent_example =
    write-sent (λ a. false) userspace_top memory [] 4096 600 (λ a. refl) (omega arith) room_for_600

gets-edited_example :
    IsLine
      (edited [] (97 ∷ 98 ∷ 8 ∷ 99 ∷ []))
      (100 ∷ [])
      (gets ((97 ∷ 98 ∷ 8 ∷ 99 ∷ []) ++ (0x0a ∷ 100 ∷ [])) 16 (λ i. 7) [])
gets-edited_example =
    gets-edited (97 ∷ 98 ∷ 8 ∷ 99 ∷ []) (100 ∷ []) 16 (λ i. 7) []
      (
        inr (omega arith, omega arith),
        (inr (omega arith, omega arith), (inl refl, (inr (omega arith, omega arith), tt))),
      )
      (omega arith) (omega arith)

gets_overruns_example :
    (u : ℕ → ℕ) × (o : List ℕ) × (gets ((97 ∷ 98 ∷ []) ++ (99 ∷ [])) 3 (λ i. 7) []
      ≡ some (u, o, 99 ∷ []))
    × (u 2 ≡ 7)
    × (u 3 ≡ 0)
gets_overruns_example =
    gets_overruns (97 ∷ 98 ∷ []) (99 ∷ []) 3 (λ i. 7) []
      ((omega arith, omega arith), ((omega arith, omega arith), tt)) (omega arith) refl
