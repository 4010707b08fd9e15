-- ===== src/Malloc/Buckets.antt =====
-- The choice of a pool by size_to_idx.
use native.Mathlib.Numerals.{towards_suc}
use native.Mathlib.Decide.{ℕ_discrete}
use boring_os_ssaha.Prelude.{
  ℕ, zero, suc, ◌+◌, ◌-◌, ◌*◌, ◌≤◌, ◌<◌, ◌≡◌, refl, sym, ap, ◌∙◌, arith, leb, Bool-cases, inl, inr,
  ◌⊎◌, some, false, true,
}
use boring_os_ssaha.Malloc.{
  bucket, idx_from, size_to_idx, heap_pools, heap_max_poolsize, sizeof_header,
}

pub bucket-suc : (i : ℕ) → bucket (i + 1) ≡ bucket i * 2
unfolding bucket
bucket-suc i = simp towards_suc (omega arith)

bucket-step : (i : ℕ) → bucket (suc i) ≡ bucket i * 2
unfolding bucket
bucket-step i = omega arith

pub bucket-zero : bucket 0 ≡ 64
unfolding bucket
bucket-zero = refl

bucket_last : bucket 11 ≡ 131072
unfolding bucket
bucket_last = refl

compare_cases : (a b : ℕ) → (a ≡ b) ⊎ ((a < b) ⊎ (b < a))
compare_cases a b = ground arith

-- The pool for objects of `sz` bytes: its objects have room for the header besides, and those of the
-- pools before it have not.
pub record Fits (sz i : ℕ) : Type 0 where
  pub in_range : i < heap_pools
  pub room : sz + sizeof_header ≤ bucket i
  pub least : (j : ℕ) → j < i → bucket j < sz + sizeof_header

least-suc :
    (sz i j : ℕ)
    → ((k : ℕ) → k < i → bucket k < sz + sizeof_header)
    → bucket i < sz + sizeof_header
    → j < i + 1
    → bucket j < sz + sizeof_header
least-suc sz i j h b l = elim (ℕ_discrete j i) [ yes e ↦ rw e b | no ne ↦ h j (omega arith) ]

idx_from_here :
    (fuel i sz : ℕ)
    → leb sz (bucket i - sizeof_header) ≡ true
    → idx_from (suc fuel) i (bucket i) sz ≡ some i
unfolding idx_from
idx_from_here fuel i sz fits = rw fits refl

idx_from_later :
    (fuel i sz k : ℕ)
    → leb sz (bucket i - sizeof_header) ≡ false
    → idx_from fuel (i + 1) (bucket (i + 1)) sz ≡ some k
    → idx_from (suc fuel) i (bucket i) sz ≡ some k
unfolding idx_from
idx_from_later fuel i sz k small q = rw small (rw (sym (bucket-suc i)) q)

idx_from-Fits :
    (fuel i sz : ℕ)
    → i + fuel ≡ heap_pools
    → sz ≤ heap_max_poolsize
    → 64 ≤ bucket i
    → ((j : ℕ) → j < i → bucket j < sz + sizeof_header)
    → (k : ℕ) × (idx_from fuel i (bucket i) sz ≡ some k) × Fits sz k
idx_from-Fits zero i sz e le big h = absurd (omega (arith, h 11 (omega arith), bucket_last))
idx_from-Fits (suc fuel) i sz e le big h = elim (Bool-cases (leb sz (bucket i - sizeof_header))) [
  | inl fits ↦ (
    i,
    idx_from_here fuel i sz fits,
    record { in_range = omega arith; room = ground arith; least = h },
  )
  | inr small ↦
      let b : bucket i < sz + sizeof_header = ground arith in
      let (k, q, f) =
        idx_from-Fits fuel (i + 1) sz (omega arith) le (omega (arith, bucket-suc i))
          (λ j l. least-suc sz i j h b l) in
      (k, idx_from_later fuel i sz k small q, f)
]

-- For a request of at most HEAP_MAX_POOLSIZE bytes size_to_idx ends, with the first pool whose objects
-- have room for it and the header.
pub size_to_idx-Fits :
    (sz : ℕ) → sz ≤ heap_max_poolsize → (k : ℕ) × (size_to_idx sz ≡ some k) × Fits sz k
unfolding size_to_idx bucket
size_to_idx-Fits sz le =
    let (k, q, f) =
      idx_from-Fits 12 0 sz refl le (omega (arith, bucket-zero)) (λ j l. elim l [ ]) in
    (k, q, f)

pub bucket_pos : (i : ℕ) → 64 ≤ bucket i
bucket_pos zero = omega (arith, bucket-zero)
bucket_pos (suc i) = omega (arith, bucket_pos i, bucket-step i)

-- The sizes of the pools grow.
pub bucket_mono : (j i : ℕ) → j < i → bucket j < bucket i
bucket_mono j zero h = elim h [ ]
bucket_mono j (suc i) h = elim (ℕ_discrete j i) [
  | yes e ↦ rw e (omega (arith, bucket-step i, bucket_pos i))
  | no ne ↦ omega (arith, bucket_mono j i (omega arith), bucket-step i)
]

pub bucket_max : (i : ℕ) → i < heap_pools → bucket i ≤ 131072
bucket_max i h = elim (ℕ_discrete i 11) [
  | yes e ↦ rw e (omega (arith, bucket_last))
  | no ne ↦ omega (arith, bucket_mono i 11 (omega arith), bucket_last)
]

-- There is one such pool.
pub Fits-unique : (sz i k : ℕ) → Fits sz i → Fits sz k → i ≡ k
Fits-unique sz i k f g = elim (compare_cases i k) [
  | inl e ↦ e
  | inr (inl l) ↦ absurd (omega (arith, g.least i l, f.room))
  | inr (inr l) ↦ absurd (omega (arith, f.least k l, g.room))
]

bucket-Fits : (i : ℕ) → i < heap_pools → Fits (bucket i - sizeof_header) i
bucket-Fits i h = record {
  in_range = h;
  room = omega (arith, bucket_pos i);
  least = λ j l. omega (arith, bucket_mono j i l);
}

-- The size in a header leads back to its pool.
pub size_to_idx-bucket : (i : ℕ) → i < heap_pools → size_to_idx (bucket i - sizeof_header) ≡ some i
size_to_idx-bucket i h =
    let (k, e, f) = size_to_idx-Fits (bucket i - sizeof_header) (omega (arith, bucket_max i h)) in
    e ∙ ap some (Fits-unique (bucket i - sizeof_header) k i f (bucket-Fits i h))
