-- ===== src/Copy/Bytes.antt =====
-- What Copy_In copies.
use boring_os_ssaha.Prelude.{
  ℕ, zero, suc, ◌+◌, ◌-◌, ◌≤◌, ◌<◌, ◌≡◌, ◌≢◌, refl, arith, ◌==◌, ltb, leb, Bool, false, update,
}
use boring_os_ssaha.Copy.{userspace_top, copy_unsafe, copy_in}

copy_unsafe-below :
    (faults : ℕ → Bool) (m : ℕ → ℕ) (to from len p : ℕ)
    → p < to
    → (copy_unsafe faults m to from len).0 p ≡ m p
unfolding copy_unsafe
copy_unsafe-below faults m to from zero p h = refl
copy_unsafe-below faults m to from (suc n) p h =
    let rest =
      copy_unsafe-below faults (update m to (m from)) (to + 1) (from + 1) n p (omega arith) in
    ground (arith, rest)

copy_unsafe-byte :
    (faults : ℕ → Bool) (m : ℕ → ℕ) (to from len i : ℕ)
    → ((a : ℕ) → faults a ≡ false)
    → from + len ≤ to
    → i < len
    → (copy_unsafe faults m to from len).0 (to + i) ≡ m (from + i)
unfolding copy_unsafe
copy_unsafe-byte faults m to from zero i ok apart small = absurd (omega arith)
copy_unsafe-byte faults m to from (suc n) zero ok apart small =
    let here =
      copy_unsafe-below faults (update m to (m from)) (to + 1) (from + 1) n to (omega arith) in
    rw (ok from, ok to) (ground (arith, here))
copy_unsafe-byte faults m to from (suc n) (suc i) ok apart small =
    let rest =
      copy_unsafe-byte faults (update m to (m from)) (to + 1) (from + 1) n i ok (omega arith)
        (omega arith) in
    let e : to + 1 + i ≡ to + suc i = omega arith in
    let f : from + 1 + i ≡ from + suc i = omega arith in
    rw (ok from, ok to) (ground (arith, rest, e, f))

copy_in-all :
    (faults : ℕ → Bool) (m : ℕ → ℕ) (from to len : ℕ)
    → len ≢ 0
    → from + len ≤ userspace_top
    → (copy_in faults m from to len).0 ≡ (copy_unsafe faults m to from len).0
unfolding copy_in
copy_in-all faults m from to len nz fits =
    let a : (len == 0) ≡ false = ground arith in
    let b : leb userspace_top from ≡ false = ground arith in
    let c : ltb (userspace_top - from) len ≡ false = ground arith in rw (a, b, c) refl

-- When no access faults, Copy_In of bytes of the user space to a place behind them succeeds: each byte is
-- there, and no byte below that place is changed.
pub copy_in-Copied :
    (faults : ℕ → Bool) (m : ℕ → ℕ) (from to len : ℕ)
    → ((a : ℕ) → faults a ≡ false)
    → len ≢ 0
    → from + len ≤ userspace_top
    → userspace_top ≤ to
    → ((i : ℕ) → i < len → (copy_in faults m from to len).0 (to + i) ≡ m (from + i))
      × ((p : ℕ) → p < to → (copy_in faults m from to len).0 p ≡ m p)
copy_in-Copied faults m from to len ok nz fits above =
    let e = copy_in-all faults m from to len nz fits in
    (
      λ i l. rw e (copy_unsafe-byte faults m to from len i ok (omega arith) l),
      λ p l. rw e (copy_unsafe-below faults m to from len p l),
    )
