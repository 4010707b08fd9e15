-- ===== src/Copy/Guard.antt =====
-- What a user program can reach through the copies.
use boring_os_ssaha.Prelude.{
  ℕ, zero, suc, ◌+◌, ◌-◌, ◌≤◌, ◌<◌, ◌≡◌, refl, arith, ◌==◌, ltb, leb, if◌then◌else◌, Bool, update,
  Bool-cases, inl, inr,
}
use boring_os_ssaha.Copy.{
  userspace_top, efault, copy_unsafe, copystr_unsafe, copy_in, copy_out, copy_str_in, copy_str_out,
}

copy_unsafe-above :
    (faults : ℕ → Bool) (m : ℕ → ℕ) (to from len p : ℕ)
    → to + len ≤ p
    → (copy_unsafe faults m to from len).0 p ≡ m p
unfolding copy_unsafe
copy_unsafe-above faults m to from zero p h = refl
copy_unsafe-above faults m to from (suc n) p h =
    let rest =
      copy_unsafe-above faults (update m to (m from)) (to + 1) (from + 1) n p (omega arith) in
    ground (arith, rest)

copystr_unsafe-above :
    (faults : ℕ → Bool) (m : ℕ → ℕ) (to from len p : ℕ)
    → to + len ≤ p
    → (copystr_unsafe faults m to from len).0 p ≡ m p
unfolding copystr_unsafe
copystr_unsafe-above faults m to from zero p h = refl
copystr_unsafe-above faults m to from (suc n) p h =
    let rest =
      copystr_unsafe-above faults (update m to (m from)) (to + 1) (from + 1) n p (omega arith) in
    ground (arith, rest)

-- Whatever addresses and length a program passes, and wherever a fault happens, Copy_Out and
-- Copy_StrOut leave every byte from the top of the user space on as it was.
pub copy_out-kernel :
    (faults : ℕ → Bool) (m : ℕ → ℕ) (fromkernel touser len p : ℕ)
    → userspace_top ≤ p
    → ((copy_out faults m fromkernel touser len).0 p ≡ m p)
      × ((copy_str_out faults m fromkernel touser len).0 p ≡ m p)
unfolding copy_out copy_str_out
copy_out-kernel faults m fromkernel touser len p h = (
  ground (arith, copy_unsafe-above faults m touser fromkernel len p),
  ground (arith, copystr_unsafe-above faults m touser fromkernel (len - 1) p),
)

-- Two results, of two memories: the same status, and the same byte wherever the memories had the same.
pub record Alike (m m' : ℕ → ℕ) (r r' : (ℕ → ℕ) × ℕ) : Type 0 where
  pub status : r.1 ≡ r'.1
  pub bytes : (p : ℕ) → m p ≡ m' p → r.0 p ≡ r'.0 p

Alike-update :
    (m m' : ℕ → ℕ) (r r' : (ℕ → ℕ) × ℕ) (to v v' : ℕ)
    → v ≡ v'
    → Alike (update m to v) (update m' to v') r r'
    → Alike m m' r r'
Alike-update m m' r r' to v v' e h = record {
  status = h.status;
  bytes = λ p q. h.bytes p (ground (arith, e, q));
}

copy_unsafe-Alike :
    (faults : ℕ → Bool) (m m' : ℕ → ℕ) (to from len : ℕ)
    → ((p : ℕ) → p < userspace_top → m p ≡ m' p)
    → from + len ≤ userspace_top
    → userspace_top ≤ to
    → Alike m m' (copy_unsafe faults m to from len) (copy_unsafe faults m' to from len)
unfolding copy_unsafe
copy_unsafe-Alike faults m m' to from zero a h k = record { status = refl; bytes = λ p q. q }
copy_unsafe-Alike faults m m' to from (suc n) a h k =
    let same = a from (omega arith) in
    let rest = Alike-update m m' _ _ to (m from) (m' from) same (
      copy_unsafe-Alike faults (update m to (m from)) (update m' to (m' from)) (to + 1) (from + 1) n
        (λ p q. ground (arith, a p q)) (omega arith) (omega arith)) in
    record { status = ground (arith, rest.status); bytes = λ p q. ground (arith, rest.bytes p q) }

copystr_unsafe-Alike :
    (faults : ℕ → Bool) (m m' : ℕ → ℕ) (to from len : ℕ)
    → ((p : ℕ) → p < userspace_top → m p ≡ m' p)
    → from + len ≤ userspace_top
    → userspace_top ≤ to
    → Alike m m' (copystr_unsafe faults m to from len) (copystr_unsafe faults m' to from len)
unfolding copystr_unsafe
copystr_unsafe-Alike faults m m' to from zero a h k = record { status = refl; bytes = λ p q. q }
copystr_unsafe-Alike faults m m' to from (suc n) a h k =
    let same = a from (omega arith) in
    let rest = Alike-update m m' _ _ to (m from) (m' from) same (
      copystr_unsafe-Alike faults (update m to (m from)) (update m' to (m' from)) (to + 1)
        (from + 1) n (λ p q. ground (arith, a p q)) (omega arith) (omega arith)) in
    record {
      status = ground (arith, same, rest.status);
      bytes = λ p q. ground (arith, same, rest.bytes p q);
    }

-- The guards that all four functions have.
abbrev guard : (ℕ → ℕ) → ℕ → ℕ → (ℕ → ℕ) × ℕ → (ℕ → ℕ) × ℕ
guard m user len r =
    if len == 0
    then (m, 0)
    else if leb userspace_top user
    then (m, efault)
    else if ltb (userspace_top - user) len
    then (m, efault)
    else r

guarded :
    (m m' : ℕ → ℕ) (user len : ℕ) (r r' : (ℕ → ℕ) × ℕ)
    → (0 < len → user + len ≤ userspace_top → Alike m m' r r')
    → Alike m m' (guard m user len r) (guard m' user len r')
guarded m m' user len r r' h = elim (Bool-cases (len == 0)) [
  | inl z ↦ rw z (record { status = refl; bytes = λ p q. q })
  | inr nz ↦ elim (Bool-cases (leb userspace_top user)) [
    | inl above ↦ rw (nz, above) (record { status = refl; bytes = λ p q. q })
    | inr below ↦ elim (Bool-cases (ltb (userspace_top - user) len)) [
      | inl long ↦ rw (nz, below, long) (record { status = refl; bytes = λ p q. q })
      | inr fits ↦ rw (nz, below, fits) (h (ground arith) (ground arith))
    ]
  ]
]

-- A program learns nothing of the kernel's memory from Copy_In and Copy_StrIn to a kernel buffer: on
-- two memories that agree on the user space both give the same status, and the same bytes at every
-- address where the memories had the same.
pub copy_in-Alike :
    (faults : ℕ → Bool) (m m' : ℕ → ℕ) (fromuser tokernel len : ℕ)
    → ((p : ℕ) → p < userspace_top → m p ≡ m' p)
    → userspace_top ≤ tokernel
    → Alike m m' (copy_in faults m fromuser tokernel len) (copy_in faults m' fromuser tokernel len)
      × Alike m m'
          (copy_str_in faults m fromuser tokernel len)
          (copy_str_in faults m' fromuser tokernel len)
unfolding copy_in copy_str_in
copy_in-Alike faults m m' fromuser tokernel len a k = (
  guarded m m' fromuser len _ _ (λ l h. copy_unsafe-Alike faults m m' tokernel fromuser len a h k),
  guarded m m' fromuser len _ _
      (λ l h. copystr_unsafe-Alike faults m m' tokernel fromuser (len - 1) a (omega arith) k),
)
