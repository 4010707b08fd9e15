-- ===== src/Console/Write.antt =====
-- What Console_Write puts out.
use boring_os_ssaha.Prelude.{
  ℕ, zero, suc, ◌+◌, ◌*◌, ◌/◌, ◌%◌, ◌^◌, ◌≤◌, ◌<◌, ◌≡◌, ◌≢◌, refl, ap, ◌∙◌, arith, ltb,
  if◌then◌else◌, Bool, true, false, some, List, ◌∷◌, ◌++◌, split_eq, Bool-cases, inl, inr,
  append-nil, append_assoc,
}
use boring_os_ssaha.Copy.{copy_in, userspace_top}
use boring_os_ssaha.Copy.Bytes.{copy_in-Copied}
use boring_os_ssaha.Console.{bytes, write_loop, write}

pub bytes-ext :
    (m n : ℕ → ℕ) (a b len : ℕ)
    → ((i : ℕ) → i < len → m (a + i) ≡ n (b + i))
    → bytes m a len ≡ bytes n b len
unfolding bytes
bytes-ext m n a b zero h = refl
bytes-ext m n a b (suc len) h =
    let first : m a ≡ n b = ground (arith, h 0) in
    let rest = bytes-ext m n (a + 1) (b + 1) len (λ i l.
      let e : a + 1 + i ≡ a + suc i = omega arith in
      let f : b + 1 + i ≡ b + suc i = omega arith in rw (e, f) (h (suc i) (omega arith))) in
    cc

pub bytes-append : (m : ℕ → ℕ) (a k l : ℕ) → bytes m a (k + l) ≡ bytes m a k ++ bytes m (a + k) l
unfolding bytes
bytes-append m a zero l =
    let e : a + 0 ≡ a = omega arith in let f : 0 + l ≡ l = omega arith in rw (e, f) refl
bytes-append m a (suc k) l =
    let e : a + suc k ≡ a + 1 + k = omega arith in
    let f : suc k + l ≡ suc (k + l) = omega arith in
    rw (e, f) (ap (λ r. m a ∷ r) (bytes-append m (a + 1) k l))

-- The loop, when `k` chunks of `c` bytes are left; the memory below the top of the user space is that of `u`.
write_loop-chunks :
    (faults : ℕ → Bool) (kbuf b : ℕ) (u m : ℕ → ℕ) (out : List ℕ) (len c k nbytes fuel : ℕ)
    → ((a : ℕ) → faults a ≡ false)
    → userspace_top ≤ kbuf
    → ((p : ℕ) → p < userspace_top → m p ≡ u p)
    → (if ltb 512 len then 512 else len) ≡ c
    → (k ≡ 0 → len ≤ nbytes)
    → (k ≢ 0 → (len ≤ nbytes + k * c) × (nbytes + k * c < len + c))
    → b + (nbytes + k * c) ≤ userspace_top
    → k < fuel
    → write_loop faults kbuf b m out len nbytes fuel
      ≡ some (out ++ bytes u (b + nbytes) (k * c), (nbytes + k * c) % 2 ^ 32)
unfolding write_loop bytes
write_loop-chunks faults kbuf b u m out len c k nbytes zero ok above same chunk last more room
      enough =
    absurd (omega arith)
write_loop-chunks faults kbuf b u m out len c zero nbytes (suc fuel) ok above same chunk last more
      room enough =
    let t : ltb nbytes len ≡ false = ground (arith, last refl) in
    let z : 0 * c ≡ 0 = omega arith in
    let w : nbytes + 0 ≡ nbytes = omega arith in rw (t, z, w, append-nil out) refl
write_loop-chunks faults kbuf b u m out len c (suc k) nbytes (suc fuel) ok above same chunk last
      more room enough =
    let h = more (omega arith) in
    let e : suc k * c ≡ c + k * c = omega arith in
    let t : ltb nbytes len ≡ true = ground arith in
    let nz : c ≢ 0 = ground (arith, chunk, h) in
    let here : (b + nbytes) % 2 ^ 64 ≡ b + nbytes = omega arith in
    let there : (nbytes + c) % 2 ^ 64 ≡ nbytes + c = omega arith in
    let n = (copy_in faults m (b + nbytes) kbuf c).0 in
    let copied = copy_in-Copied faults m (b + nbytes) kbuf c ok nz (omega arith) above in
    let first : bytes n kbuf c ≡ bytes u (b + nbytes) c =
      bytes-ext n u kbuf (b + nbytes) c
        (λ i l. copied.0 i l ∙ same (b + nbytes + i) (omega arith)) in
    let rest =
      write_loop-chunks faults kbuf b u n (out ++ bytes n kbuf c) len c k (nbytes + c) fuel ok above
        (λ p l. copied.1 p (omega arith) ∙ same p l) chunk (λ z. ground arith)
        (λ z. (omega arith, omega arith)) (omega arith) (omega arith) in
    let total : nbytes + c + k * c ≡ nbytes + (c + k * c) = omega arith in
    let place : b + (nbytes + c) ≡ b + nbytes + c = omega arith in
    rw (chunk, here, t, there, e, rest, total, first)
      (rw
        (
          place,
          bytes-append u (b + nbytes) c (k * c),
          append_assoc out (bytes u (b + nbytes) c) (bytes u (b + nbytes + c) (k * c)),
        )
        refl)

-- What Console_Write puts out for `len` bytes: whole chunks of 512 once there are more than that.
unfoldable pub sent : ℕ → ℕ
sent len = if ltb 512 len then (len + 511) / 512 * 512 else len

write-chunks :
    (faults : ℕ → Bool) (kbuf : ℕ) (m : ℕ → ℕ) (out : List ℕ) (b len c k : ℕ)
    → ((a : ℕ) → faults a ≡ false)
    → userspace_top ≤ kbuf
    → b + sent len ≤ userspace_top
    → (if ltb 512 len then 512 else len) ≡ c
    → sent len ≡ k * c
    → (k ≡ 0 → len ≡ 0)
    → (k ≢ 0 → (len ≤ k * c) × (k * c < len + c))
    → k < len + 1
    → write faults kbuf m out b len ≡ some (out ++ bytes m b (sent len), sent len % 2 ^ 32)
unfolding write
write-chunks faults kbuf m out b len c k ok above room chunk whole none_left left enough =
    let start : b + 0 ≡ b = omega arith in
    let zero_more : 0 + k * c ≡ k * c = omega arith in
    let r =
      write_loop-chunks faults kbuf b m m out len c k 0 (len + 1) ok above (λ p l. refl) chunk
        (λ z. omega (arith, none_left z)) (λ nz. (omega (arith, left nz), omega (arith, left nz)))
        (omega arith) enough in
    rw (whole, r, start, zero_more) refl

-- When no access faults, the kernel's buffer is above the user space, and the `sent len` bytes from `b` on
-- lie in the user space, Console_Write returns. It puts out those bytes in their order: the `len` bytes of
-- the buffer and, if there are more than 512 and not whole chunks, the bytes behind it up to the next
-- multiple of 512. The int that it returns has the lower 32 bits of their number.
pub write-sent :
    (faults : ℕ → Bool) (kbuf : ℕ) (m : ℕ → ℕ) (out : List ℕ) (b len : ℕ)
    → ((a : ℕ) → faults a ≡ false)
    → userspace_top ≤ kbuf
    → b + sent len ≤ userspace_top
    → write faults kbuf m out b len ≡ some (out ++ bytes m b (sent len), sent len % 2 ^ 32)
unfolding write sent
write-sent faults kbuf m out b len ok above room = elim (Bool-cases (ltb 512 len)) [
  | inl long ↦
      let more : 512 < len = ground arith in
      write-chunks faults kbuf m out b len 512 ((len + 511) / 512) ok above room (rw long refl)
        (rw long refl) (λ z. omega arith) (λ nz. (omega arith, omega arith)) (omega arith)
  | inr short ↦ elim (split_eq len 0) [
    | inl z ↦
        write-chunks faults kbuf m out b len len 0 ok above room (rw short refl)
          (rw short (omega arith)) (λ e. z) (λ nz. absurd (nz refl)) (omega arith)
    | inr nz ↦
        write-chunks faults kbuf m out b len len 1 ok above room (rw short refl)
          (rw short (omega arith)) (λ z. omega arith) (λ h. (omega arith, omega arith))
          (omega arith)
  ]
]
