-- ===== src/BufCache/Steps.antt =====
-- The entry points of bufcache.c on every branch: well-formedness, results and errors.
use boring_os_ssaha.Prelude.{
  ℕ, ◌+◌, ◌%◌, ◌^◌, ◌≤◌, ◌<◌, ◌≡◌, ◌≢◌, refl, inl, inr, arith, Option-cases, Option, none, some,
  List, [], ◌∷◌, ◌⊎◌, subst,
}
use boring_os_ssaha.BufCache.{
  Cache, slot_of, find_block, retain, alloc_from, cache_lookup, cache_alloc_entry, alloc, read,
  read_alloc, Transfer, enoent, enomem, one_block, block_size,
}
use boring_os_ssaha.BufCache.Valid.{
  Hashed, Idle, IsCache, Absent, retain-IsCache, Assigned, Assigned_lem, Assigned-IsCache,
  find_block_sound, find_block-none,
}

-- A transfer of one block fits an empty scatter-gather array.
pub one_block_lem :
    (off : ℕ) → one_block off ≡ some (record { offset = off; size = block_size } ∷ [])
unfolding one_block
one_block_lem off = refl

-- The three ways that a lookup followed by an allocation can go: the block is cached; it is not, and
-- an idle entry is given to it; it is not, and no entry is idle.
pub data Outcome (c : Cache) (d off : ℕ) (r : Cache × ℕ × Option ℕ) : Type 0 where
  hit :
      (e : ℕ)
      → Hashed c (slot_of off) e
      → c.disk e ≡ d
      → c.disk_offset e ≡ off
      → r ≡ (retain c e, 0, some e)
      → Outcome c d off r
  filled :
      (e : ℕ) (c' : Cache)
      → Absent c d off
      → Idle c e
      → Assigned c c' e d off
      → r ≡ (c', 0, some e)
      → Outcome c d off r
  full : Absent c d off → c.lru_list ≡ [] → r ≡ (c, enomem, none) → Outcome c d off r

alloc_from-Outcome :
    (c : Cache) (d off : ℕ) (l : List ℕ)
    → IsCache c
    → Absent c d off
    → c.lru_list ≡ l
    → Outcome c d off (alloc_from l c d off)
unfolding alloc_from
alloc_from-Outcome c d off [] v free p = Outcome.full free p refl
alloc_from-Outcome c d off (e ∷ es) v free p =
    Outcome.filled e _ free (rw p (ground arith)) (Assigned_lem c e d off v) refl

-- BufCacheAlloc on a block that no entry holds.
pub alloc_entry-Outcome :
    (c : Cache) (d off : ℕ)
    → IsCache c
    → Absent c d off
    → Outcome c d off (cache_alloc_entry c d off)
unfolding cache_alloc_entry
alloc_entry-Outcome c d off v free = alloc_from-Outcome c d off c.lru_list v free refl

-- What an operation leaves when its outcome is `r` up to the counters of cache hits, misses and
-- allocations.
abbrev pub SameEntries : Cache → Cache → Type 0
SameEntries a b =
    (a.disk ≡ b.disk)
    × (a.disk_offset ≡ b.disk_offset)
    × (a.ref_count ≡ b.ref_count)
    × (a.hash_table ≡ b.hash_table)
    × (a.lru_list ≡ b.lru_list)

SameEntries-IsCache : (a b : Cache) → SameEntries a b → IsCache b → IsCache a
SameEntries-IsCache a b (p, q, r, s, t) v = record {
  lru_once = rw t v.lru_once;
  chain_once = rw s v.chain_once;
  idle_unused = rw (t, r) v.idle_unused;
  in_slot = rw (q, s) v.in_slot;
  has_disk = rw (p, s) v.has_disk;
  hashed = rw (p, q, s) v.hashed;
  one_entry = rw (p, q, s) v.one_entry;
  unused_idle = rw (r, s, t) v.unused_idle;
}

-- A result that is an outcome from `c`, up to the counters.
pub record Served (c : Cache) (d off : ℕ) (r : Cache × ℕ × Option ℕ) : Type 0 where
  pub core : Cache × ℕ × Option ℕ
  pub outcome : Outcome c d off core
  pub same : SameEntries r.0 core.0
  pub status : r.1 ≡ core.1
  pub entry : r.2 ≡ core.2

-- The lookup finds the block, or no entry holds it.
pub lookup_cases :
    (c : Cache) (d off : ℕ)
    → ((e : ℕ) × Hashed c (slot_of off) e
        × (c.disk e ≡ d)
        × (c.disk_offset e ≡ off)
        × (cache_lookup c d off ≡ (retain c e, 0, some e)))
      ⊎ (Absent c d off × (cache_lookup c d off ≡ (c, enoent, none)))
unfolding cache_lookup
lookup_cases c d off =
    elim (Option-cases (find_block c.disk c.disk_offset d off (c.hash_table (slot_of off)))) [
      | inl p ↦ inr (
        λ e m q. find_block-none c.disk c.disk_offset d off e (c.hash_table (slot_of off)) p m q,
        rw (p, cache_lookup),
      )
      | inr (e, p) ↦
          let (m, q, r) =
            find_block_sound c.disk c.disk_offset d off e (c.hash_table (slot_of off)) p in
          inl (e, m, q, r, rw (p, cache_lookup))
    ]

pub missed-IsCache : (c : Cache) (n : ℕ) → IsCache c → IsCache (record c { cache_miss = n })
missed-IsCache c n =
    SameEntries-IsCache (record c { cache_miss = n }) c (refl, refl, refl, refl, refl)

pub alloc-Served : (c : Cache) (d off : ℕ) → IsCache c → Served c d off (alloc c d off)
unfolding alloc
alloc-Served c d off v = elim (lookup_cases c d off) [
  | inl (e, m, p, q, r) ↦ rw r (record {
    core = (retain c e, 0, some e);
    outcome = Outcome.hit e m p q refl;
    same = (refl, refl, refl, refl, refl);
    status = refl;
    entry = refl;
  })
  | inr (free, r) ↦ rw r (record {
    core = cache_alloc_entry c d off;
    outcome = alloc_entry-Outcome c d off v free;
    same = (refl, refl, refl, refl, refl);
    status = refl;
    entry = refl;
  })
]

Outcome-IsCache :
    (c : Cache) (d off : ℕ) {r : Cache × ℕ × Option ℕ}
    → d ≢ 0
    → ((e : ℕ) → c.ref_count e + 1 < 2 ^ 64)
    → IsCache c
    → Outcome c d off r
    → IsCache r.0
Outcome-IsCache c d off nz small v (Outcome.hit e m p q x) = rw x (retain-IsCache c e (small e) v)
Outcome-IsCache c d off nz small v (Outcome.filled e c' free idle a x) =
    rw x (Assigned-IsCache c c' e d off idle nz free v a)
Outcome-IsCache c d off nz small v (Outcome.full free p x) = rw x v

-- BufCache_Alloc keeps the cache well formed, while no reference count is at its maximum.
pub alloc-IsCache :
    (c : Cache) (d off : ℕ)
    → d ≢ 0
    → ((e : ℕ) → c.ref_count e + 1 < 2 ^ 64)
    → IsCache c
    → IsCache (alloc c d off).0
alloc-IsCache c d off nz small v =
    let s = alloc-Served c d off v in
    SameEntries-IsCache _ _ s.same (Outcome-IsCache c d off nz small v s.outcome)

pub read_alloc-same :
    (io : Transfer) (d off : ℕ) (r : Cache × ℕ × Option ℕ)
    → SameEntries (read_alloc io d off r).0 r.0 × ((read_alloc io d off r).2 ≡ r.2)
unfolding read_alloc
read_alloc-same io d off (c, s, none) = ((refl, refl, refl, refl, refl), refl)
read_alloc-same io d off (c, s, some e) = ((refl, refl, refl, refl, refl), refl)

-- The cache with the counter of misses moved on, from which BufCache_Read allocates.
abbrev pub missed : Cache → Cache
missed c = record c { cache_miss = (c.cache_miss + 1) % 2 ^ 64 }

pub read_hit :
    (io : Transfer) (c c' : Cache) (d off e : ℕ)
    → cache_lookup c d off ≡ (c', 0, some e)
    → read io c d off ≡ (record c' { cache_hit = (c'.cache_hit + 1) % 2 ^ 64 }, 0, some e)
unfolding read
read_hit io c c' d off e p = rw p

pub read_miss :
    (io : Transfer) (c : Cache) (d off : ℕ)
    → cache_lookup c d off ≡ (c, enoent, none)
    → read io c d off ≡ read_alloc io d off (cache_alloc_entry (missed c) d off)
unfolding read
read_miss io c d off p = rw p

-- BufCache_Read keeps the cache well formed, whatever the driver answers.
pub read-IsCache :
    (io : Transfer) (c : Cache) (d off : ℕ)
    → d ≢ 0
    → ((e : ℕ) → c.ref_count e + 1 < 2 ^ 64)
    → IsCache c
    → IsCache (read io c d off).0
read-IsCache io c d off nz small v = elim (lookup_cases c d off) [
  | inl (e, m, p, q, r) ↦ rw (read_hit io c _ d off e r) (
      SameEntries-IsCache _ (retain c e) (refl, refl, refl, refl, refl)
        (retain-IsCache c e (small e) v))
  | inr (free, r) ↦
      let v' = missed-IsCache c ((c.cache_miss + 1) % 2 ^ 64) v in
      rw (read_miss io c d off r) (
        SameEntries-IsCache _ _ (read_alloc-same io d off (cache_alloc_entry (missed c) d off)).0 (
          Outcome-IsCache (missed c) d off nz small v'
            (alloc_entry-Outcome (missed c) d off v' free)))
]

-- The caller's view of a served block: the entry holds the block, is referenced, is in the block's
-- chain, and is not on the LRU list; and every entry that was in use keeps its block and loses no
-- reference.
pub record Holds (c c' : Cache) (d off e : ℕ) : Type 0 where
  pub of_disk : c'.disk e ≡ d
  pub at_offset : c'.disk_offset e ≡ off
  pub referenced : 0 < c'.ref_count e
  pub chained : Hashed c' (slot_of off) e
  pub kept :
      (g : ℕ)
      → 0 < c.ref_count g
      → (c'.disk g ≡ c.disk g)
        × (c'.disk_offset g ≡ c.disk_offset g)
        × (c.ref_count g ≤ c'.ref_count g)

retain-Holds :
    (c : Cache) (d off e : ℕ)
    → c.ref_count e + 1 < 2 ^ 64
    → Hashed c (slot_of off) e
    → c.disk e ≡ d
    → c.disk_offset e ≡ off
    → Holds c (retain c e) d off e
unfolding retain
retain-Holds c d off e small m p q = record {
  of_disk = p;
  at_offset = q;
  referenced = ground arith;
  chained = m;
  kept = λ g h. (refl, refl, ground arith);
}

Assigned-Holds :
    (c c' : Cache) (d off e : ℕ) → IsCache c → Idle c e → Assigned c c' e d off → Holds c c' d off e
Assigned-Holds c c' d off e v idle a = record {
  of_disk = ground (arith, a.disk e);
  at_offset = ground (arith, a.disk_offset e);
  referenced = ground (arith, a.ref_count e);
  chained = ground (arith, a.chains (slot_of off) e);
  kept = λ g h. ground (arith, a.disk g, a.disk_offset g, a.ref_count g, v.idle_unused e idle);
}

pub Outcome-Holds :
    (c : Cache) (d off e : ℕ) {r : Cache × ℕ × Option ℕ}
    → ((e : ℕ) → c.ref_count e + 1 < 2 ^ 64)
    → IsCache c
    → Outcome c d off r
    → r.2 ≡ some e
    → (r.1 ≡ 0) × Holds c r.0 d off e
Outcome-Holds c d off e small v (Outcome.hit g m p q x) h =
    let same : g ≡ e = cc (x) in
    rw x (
      refl,
      subst (λ k. Holds c (retain c g) d off k) same (retain-Holds c d off g (small g) m p q),
    )
Outcome-Holds c d off e small v (Outcome.filled g c' free idle a x) h =
    let same : g ≡ e = cc (x) in
    rw x (refl, subst (λ k. Holds c c' d off k) same (Assigned-Holds c c' d off g v idle a))
Outcome-Holds c d off e small v (Outcome.full free p x) h = cc
