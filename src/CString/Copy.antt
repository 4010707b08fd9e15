-- ===== src/CString/Copy.antt =====
-- What the copying functions of sys/kern/libc.c leave in memory.
use boring_os_ssaha.Prelude.{
  ℕ, zero, suc, ◌+◌, ◌≤◌, ◌<◌, ◌≡◌, ◌≢◌, refl, sym, ◌∙◌, arith, some, update, ◌⊎◌, inl, inr,
}
use boring_os_ssaha.CString.{Memory, strcpy, strncpy, memcpy}

-- A NUL-terminated string of `n` characters stands at `s`.
pub record IsString (m : Memory) (s n : ℕ) : Type 0 where
  pub filled : (i : ℕ) → i < n → m (s + i) ≢ 0
  pub ended : m (s + n) ≡ 0

-- Only `n` bytes from `to` on have changed, and they are those that stood at `from`.
pub record Copied (m : Memory) (to from n : ℕ) (t : Memory) : Type 0 where
  pub body : (i : ℕ) → i < n → t (to + i) ≡ m (from + i)
  pub below : (p : ℕ) → p < to → t p ≡ m p
  pub above : (p : ℕ) → to + n ≤ p → t p ≡ m p

memcpy-below : (m : Memory) (dst src n p : ℕ) → p < dst → memcpy m dst src n p ≡ m p
unfolding memcpy
memcpy-below m dst src zero p h = refl
memcpy-below m dst src (suc n) p h =
    ground (arith, memcpy-below (update m dst (m src)) (dst + 1) (src + 1) n p (omega arith))

memcpy-above : (m : Memory) (dst src n p : ℕ) → dst + n ≤ p → memcpy m dst src n p ≡ m p
unfolding memcpy
memcpy-above m dst src zero p h = refl
memcpy-above m dst src (suc n) p h =
    ground (arith, memcpy-above (update m dst (m src)) (dst + 1) (src + 1) n p (omega arith))

memcpy-body :
    (m : Memory) (dst src n i : ℕ)
    → (dst + n ≤ src) ⊎ (src + n ≤ dst)
    → i < n
    → memcpy m dst src n (dst + i) ≡ m (src + i)
unfolding memcpy
memcpy-body m dst src zero i d h = elim h [ ]
memcpy-body m dst src (suc n) zero d h =
    ground (arith, memcpy-below (update m dst (m src)) (dst + 1) (src + 1) n dst (omega arith))
memcpy-body m dst src (suc n) (suc i) d h =
    ground
      (arith, memcpy-body (update m dst (m src)) (dst + 1) (src + 1) n i (apart d) (omega arith))
  where
    apart :
        (dst + suc n ≤ src) ⊎ (src + suc n ≤ dst)
        → (dst + 1 + n ≤ src + 1) ⊎ (src + 1 + n ≤ dst + 1)
    apart (inl q) = inl (omega arith)
    apart (inr q) = inr (omega arith)

-- memcpy between two areas that do not overlap copies `length` bytes and changes nothing else.
pub memcpy-Copied :
    (m : Memory) (dst src length : ℕ)
    → (dst + length ≤ src) ⊎ (src + length ≤ dst)
    → Copied m dst src length (memcpy m dst src length)
memcpy-Copied m dst src length d = record {
  body = λ i h. memcpy-body m dst src length i d h;
  below = λ p h. memcpy-below m dst src length p h;
  above = λ p h. memcpy-above m dst src length p h;
}

-- A write outside of a string leaves it one.
IsString-update :
    (m : Memory) (s n p v : ℕ)
    → (p < s) ⊎ (s + n < p)
    → IsString m s n
    → IsString (update m p v) s n
IsString-update m s n p v (inl q) h = record {
  filled = λ i l e. h.filled i l (ground arith);
  ended = ground (arith, h.ended);
}
IsString-update m s n p v (inr q) h = record {
  filled = λ i l e. h.filled i l (ground arith);
  ended = ground (arith, h.ended);
}

IsString-tail : (m : Memory) (s n : ℕ) → IsString m s (suc n) → IsString m (s + 1) n
IsString-tail m s n h = record {
  filled = λ i l e. h.filled (i + 1) (omega arith) (ground (arith, e));
  ended = ground (arith, h.ended);
}

outside :
    (to from n : ℕ)
    → (to + suc (suc n) ≤ from) ⊎ (from + suc (suc n) ≤ to)
    → (to < from + 1) ⊎ (from + 1 + n < to)
outside to from n (inl q) = inl (omega arith)
outside to from n (inr q) = inr (omega arith)

apart-tail :
    (to from n : ℕ)
    → (to + suc n ≤ from) ⊎ (from + suc n ≤ to)
    → (to + 1 + n ≤ from + 1) ⊎ (from + 1 + n ≤ to + 1)
apart-tail to from n (inl q) = inl (omega arith)
apart-tail to from n (inr q) = inr (omega arith)

strcpy-memcpy :
    (fuel : ℕ) (m : Memory) (to from n : ℕ)
    → IsString m from n
    → n < fuel
    → (to + suc n ≤ from) ⊎ (from + suc n ≤ to)
    → strcpy fuel m to from ≡ some (memcpy m to from (suc n))
unfolding strcpy memcpy
strcpy-memcpy zero m to from n h l d = elim l [ ]
strcpy-memcpy (suc fuel) m to from zero h l d = ground (arith, h.ended)
strcpy-memcpy (suc fuel) m to from (suc n) h l d =
    let rest =
      strcpy-memcpy fuel (update m to (m from)) (to + 1) (from + 1) n
        (IsString-update m (from + 1) n to (m from) (outside to from n d)
          (IsString-tail m from n h))
        (omega arith) (apart-tail to from (suc n) d) in
    let ne = h.filled 0 (omega arith) in ground (arith, rest, ne)

-- strcpy of a string of `n` characters to an area that does not overlap it ends, with fuel for n + 1
-- characters, has copied the string with its NUL, and has changed nothing else.
pub strcpy-Copied :
    (fuel : ℕ) (m : Memory) (to from n : ℕ)
    → IsString m from n
    → n < fuel
    → (to + suc n ≤ from) ⊎ (from + suc n ≤ to)
    → (t : Memory) × (strcpy fuel m to from ≡ some t) × Copied m to from (suc n) t × IsString t to n
strcpy-Copied fuel m to from n h l d =
    let t = memcpy m to from (suc n) in
    let c = memcpy-Copied m to from (suc n) d in
    (
      t,
      strcpy-memcpy fuel m to from n h l d,
      c,
      record {
        filled = λ i q e. h.filled i q (sym (c.body i (omega arith)) ∙ e);
        ended = c.body n (omega arith) ∙ h.ended;
      },
    )

-- Where strncpy ends: behind `n` characters, at the NUL or at `length`.
pub record Stops (m : Memory) (from length n : ℕ) : Type 0 where
  pub bounded : n ≤ length
  pub filled : (i : ℕ) → i < n → m (from + i) ≢ 0
  pub ended : (n ≡ length) ⊎ (m (from + n) ≡ 0)

-- What it leaves behind: the `n` characters and a NUL.
pub record Truncated (m : Memory) (to from n : ℕ) (t : Memory) : Type 0 where
  pub body : (i : ℕ) → i < n → t (to + i) ≡ m (from + i)
  pub terminator : t (to + n) ≡ 0
  pub below : (p : ℕ) → p < to → t p ≡ m p
  pub above : (p : ℕ) → to + n < p → t p ≡ m p

Stops-tail :
    (m : Memory) (to from length n : ℕ)
    → (to + suc (suc n) ≤ from) ⊎ (from + suc (suc n) ≤ to)
    → Stops m from (suc length) (suc n)
    → Stops (update m to (m from)) (from + 1) length n
Stops-tail m to from length n d h = record {
  bounded = omega (arith, h.bounded);
  filled = λ i l e. h.filled (i + 1) (omega arith) (ground (arith, e));
  ended = ground (arith, h.ended);
}

Truncated-body :
    (m t : Memory) (to from n i : ℕ)
    → (to + suc (suc n) ≤ from) ⊎ (from + suc (suc n) ≤ to)
    → Truncated (update m to (m from)) (to + 1) (from + 1) n t
    → i < suc n
    → t (to + i) ≡ m (from + i)
Truncated-body m t to from n zero d h l = ground (arith, h.below to (omega arith))
Truncated-body m t to from n (suc i) d h l = ground (arith, h.body i (omega arith))

Truncated-cons :
    (m t : Memory) (to from n : ℕ)
    → (to + suc (suc n) ≤ from) ⊎ (from + suc (suc n) ≤ to)
    → Truncated (update m to (m from)) (to + 1) (from + 1) n t
    → Truncated m to from (suc n) t
Truncated-cons m t to from n d h = record {
  body = λ i l. Truncated-body m t to from n i d h l;
  terminator = ground (arith, h.terminator);
  below = λ p l. ground (arith, h.below p (omega arith));
  above = λ p l. ground (arith, h.above p (omega arith));
}

Truncated-empty :
    (m : Memory) (to from length : ℕ)
    → (length ≡ 0) ⊎ (m from ≡ 0)
    → Truncated m to from 0 (strncpy m to from length)
unfolding strncpy
Truncated-empty m to from zero e = record {
  body = λ i l. elim l [ ];
  terminator = ground arith;
  below = λ p l. ground arith;
  above = λ p l. ground arith;
}
Truncated-empty m to from (suc length) e = record {
  body = λ i l. elim l [ ];
  terminator = ground arith;
  below = λ p l. ground arith;
  above = λ p l. ground arith;
}

strncpy-step :
    (m : Memory) (to from length : ℕ)
    → m from ≢ 0
    → strncpy m to from (suc length) ≡ strncpy (update m to (m from)) (to + 1) (from + 1) length
unfolding strncpy
strncpy-step m to from length ne = ground arith

-- strncpy to an area that does not overlap the characters it reads, and that ends it after `n`
-- characters, at the NUL of the source or at `length`, copies these and puts a NUL behind them, which
-- for a longer source is the byte to[length], and changes nothing else.
pub strncpy-Truncated :
    (m : Memory) (to from length n : ℕ)
    → Stops m from length n
    → (to + suc n ≤ from) ⊎ (from + suc n ≤ to)
    → Truncated m to from n (strncpy m to from length)
strncpy-Truncated m to from zero zero h d = Truncated-empty m to from zero (inl refl)
strncpy-Truncated m to from zero (suc n) h d = elim h.bounded [ ]
strncpy-Truncated m to from (suc length) zero h d =
    Truncated-empty m to from (suc length) (inr (ground (arith, h.ended)))
strncpy-Truncated m to from (suc length) (suc n) h d =
    let rest =
      strncpy-Truncated (update m to (m from)) (to + 1) (from + 1) length n
        (Stops-tail m to from length n d h) (apart-tail to from (suc n) d) in
    rw (strncpy-step m to from length (λ e. h.filled 0 (omega arith) (ground (arith, e)))) (
      Truncated-cons m (strncpy (update m to (m from)) (to + 1) (from + 1) length) to from n d rest)
