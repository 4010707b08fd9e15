-- ===== src/CString/Compare.antt =====
-- What the comparing functions of sys/kern/libc.c answer.
use boring_os_ssaha.Prelude.{ℕ, zero, suc, ◌+◌, ◌<◌, ◌≡◌, ◌≢◌, sym, ◌∙◌, arith}
use boring_os_ssaha.CString.{Memory, difference, biased, strncmp, memcmp}

-- With `i` the first index at which the areas differ, memcmp answers the byte of the second area minus
-- that of the first, as `char`s.
memcmp_differs :
    (m : Memory) (b1 b2 length i : ℕ)
    → i < length
    → ((j : ℕ) → j < i → m (b1 + j) ≡ m (b2 + j))
    → m (b1 + i) ≢ m (b2 + i)
    → memcmp m b1 b2 length ≡ difference (biased (m (b2 + i))) (biased (m (b1 + i)))
unfolding memcmp
memcmp_differs m b1 b2 zero i l h ne = elim l [ ]
memcmp_differs m b1 b2 (suc n) zero l h ne = ground arith
memcmp_differs m b1 b2 (suc n) (suc i) l h ne =
    let q = h 0 (omega arith) in
    let rest =
      memcmp_differs m (b1 + 1) (b2 + 1) n i (omega arith)
        (λ j r. ground (arith, h (j + 1) (omega arith))) (λ e. ne (ground (arith, e))) in
    ground (arith, rest, q)

strncmp_differs :
    (m : Memory) (s1 s2 len i : ℕ)
    → i < len
    → ((j : ℕ) → j < i → (m (s1 + j) ≡ m (s2 + j)) × (m (s1 + j) ≢ 0))
    → m (s1 + i) ≢ m (s2 + i)
    → strncmp m s1 s2 len ≡ difference (m (s1 + i)) (m (s2 + i))
unfolding strncmp
strncmp_differs m s1 s2 zero i l h ne = elim l [ ]
strncmp_differs m s1 s2 (suc n) zero l h ne = ground arith
strncmp_differs m s1 s2 (suc n) (suc i) l h ne =
    let q = h 0 (omega arith) in
    let rest =
      strncmp_differs m (s1 + 1) (s2 + 1) n i (omega arith)
        (λ j r. ground (arith, h (j + 1) (omega arith))) (λ e. ne (ground (arith, e))) in
    ground (arith, rest, q)

unbiased : (a b : ℕ) → a < 128 → b < 128 → difference (biased a) (biased b) ≡ difference a b
unfolding difference
unbiased a b h k = ground arith

-- For two areas that first differ at `i`, before any NUL and in ASCII characters, memcmp answers what
-- strncmp answers for the arguments the other way round: its sign is reversed.
pub memcmp_reversed :
    (m : Memory) (b1 b2 length i : ℕ)
    → i < length
    → ((j : ℕ) → j < i → (m (b1 + j) ≡ m (b2 + j)) × (m (b1 + j) ≢ 0))
    → m (b1 + i) ≢ m (b2 + i)
    → m (b1 + i) < 128
    → m (b2 + i) < 128
    → memcmp m b1 b2 length ≡ strncmp m b2 b1 length
memcmp_reversed m b1 b2 length i l h ne p q =
    memcmp_differs m b1 b2 length i l (λ j r. ground (arith, h j r)) ne
    ∙ unbiased (m (b2 + i)) (m (b1 + i)) q p
    ∙ sym (strncmp_differs m b2 b1 length i l (λ j r. ground (arith, h j r)) (λ e. ne (sym e)))
