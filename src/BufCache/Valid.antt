-- ===== src/BufCache/Valid.antt =====
-- The well-formedness of the buffer cache, and that each operation keeps it.
use boring_os_ssaha.Prelude.{
  ℕ, ◌+◌, ◌^◌, ◌≤◌, ◌<◌, ◌≡◌, ◌≢◌, refl, ap, inl, inr, arith, ◌==◌, if◌then◌else◌, Bool-cases, none,
  some, List, [], ◌∷◌, count, remove, count-remove_self, count-remove_ne, count-append,
}
use boring_os_ssaha.BufCache.{Cache, slot_of, find_block, retain, unhash, assign, release}

-- The entry stands in the hash chain of slot `i`; it stands on the LRU list.
abbrev pub Hashed : Cache → ℕ → ℕ → Type 0
Hashed c i e = 0 < count e (c.hash_table i)

abbrev pub Idle : Cache → ℕ → Type 0
Idle c e = 0 < count e c.lru_list

pub record IsCache (c : Cache) : Type 0 where
  pub lru_once : (e : ℕ) → count e c.lru_list ≤ 1
  pub chain_once : (i e : ℕ) → count e (c.hash_table i) ≤ 1
  pub idle_unused : (e : ℕ) → Idle c e → c.ref_count e ≡ 0
  pub in_slot : (i e : ℕ) → Hashed c i e → slot_of (c.disk_offset e) ≡ i
  pub has_disk : (i e : ℕ) → Hashed c i e → c.disk e ≢ 0
  pub hashed : (e : ℕ) → c.disk e ≢ 0 → Hashed c (slot_of (c.disk_offset e)) e
  pub one_entry :
      (i e g : ℕ)
      → Hashed c i e
      → Hashed c i g
      → c.disk e ≡ c.disk g
      → c.disk_offset e ≡ c.disk_offset g
      → e ≡ g
  pub unused_idle : (i e : ℕ) → Hashed c i e → c.ref_count e ≡ 0 → Idle c e

-- The block is held by no entry.
abbrev pub Absent : Cache → ℕ → ℕ → Type 0
Absent c d off = (e : ℕ) → Hashed c (slot_of off) e → c.disk e ≡ d → c.disk_offset e ≢ off

pub retain-IsCache :
    (c : Cache) (e : ℕ) → c.ref_count e + 1 < 2 ^ 64 → IsCache c → IsCache (retain c e)
unfolding retain
retain-IsCache c e small v = record {
  lru_once = λ g.
      ground (arith, v.lru_once g, count-remove_self g c.lru_list, count-remove_ne g e c.lru_list);
  chain_once = v.chain_once;
  idle_unused = λ g l. ground (
    arith,
    v.lru_once g,
    v.idle_unused g,
    count-remove_self g c.lru_list,
    count-remove_ne g e c.lru_list,
  );
  in_slot = v.in_slot;
  has_disk = v.has_disk;
  hashed = v.hashed;
  one_entry = v.one_entry;
  unused_idle = λ i g l z. ground (arith, v.unused_idle i g l, count-remove_ne g e c.lru_list);
}

-- Releasing a reference that is held keeps the cache well formed.
pub release-IsCache :
    (c : Cache) (e : ℕ)
    → 0 < c.ref_count e
    → c.ref_count e < 2 ^ 64
    → IsCache c
    → IsCache (release c e)
unfolding release
release-IsCache c e held small v = record {
  lru_once = λ g. ground (arith, v.lru_once g, v.idle_unused g, count-append g c.lru_list (e ∷ []));
  chain_once = v.chain_once;
  idle_unused =
      λ g l. ground (arith, v.idle_unused g, v.idle_unused e, count-append g c.lru_list (e ∷ []));
  in_slot = v.in_slot;
  has_disk = v.has_disk;
  hashed = v.hashed;
  one_entry = v.one_entry;
  unused_idle = λ i g l z. ground (arith, v.unused_idle i g l, count-append g c.lru_list (e ∷ []));
}

unhash_count :
    (c : Cache) (e i g : ℕ)
    → IsCache c
    → count g ((unhash c e).hash_table i) ≡ (if g == e then 0 else count g (c.hash_table i))
unfolding unhash
unhash_count c e i g v = ground (
  arith,
  v.chain_once i g,
  v.in_slot i g,
  v.has_disk i g,
  count-remove_self g (c.hash_table i),
  count-remove_ne g e (c.hash_table i),
)

unhash_lru : (c : Cache) (e : ℕ) → (unhash c e).lru_list ≡ c.lru_list
unfolding unhash
unhash_lru c e = ground arith

unhash_fields :
    (c : Cache) (e : ℕ)
    → ((unhash c e).disk ≡ c.disk)
      × ((unhash c e).disk_offset ≡ c.disk_offset)
      × ((unhash c e).ref_count ≡ c.ref_count)
unfolding unhash
unhash_fields c e = elim (Bool-cases (c.disk e == 0)) [
  | inl z ↦ rw z (refl, refl, refl)
  | inr z ↦ rw z (refl, refl, refl)
]

-- What `alloc_from` leaves, field by field, in terms of the cache before it.
pub record Assigned (c c' : Cache) (e d off : ℕ) : Type 0 where
  pub disk : (g : ℕ) → c'.disk g ≡ (if g == e then d else c.disk g)
  pub disk_offset : (g : ℕ) → c'.disk_offset g ≡ (if g == e then off else c.disk_offset g)
  pub ref_count : (g : ℕ) → c'.ref_count g ≡ (if g == e then 1 else c.ref_count g)
  pub chains :
      (i g : ℕ)
      → count g (c'.hash_table i)
        ≡ (if g == e then (if i == slot_of off then 1 else 0) else count g (c.hash_table i))
  pub lru : (g : ℕ) → count g c'.lru_list ≡ (if g == e then 0 else count g c.lru_list)

abbrev pub taken : Cache → ℕ → Cache
taken c e = record c { lru_list = remove e c.lru_list }

taken_count :
    (c : Cache) (e i g : ℕ)
    → IsCache c
    → count g ((unhash (taken c e) e).hash_table i)
      ≡ (if g == e then 0 else count g (c.hash_table i))
unfolding unhash
taken_count c e i g v = ground (
  arith,
  v.chain_once i g,
  v.in_slot i g,
  v.has_disk i g,
  count-remove_self g (c.hash_table i),
  count-remove_ne g e (c.hash_table i),
)

pub Assigned_lem :
    (c : Cache) (e d off : ℕ)
    → IsCache c
    → Assigned c (assign (unhash (taken c e) e) e d off) e d off
unfolding assign
Assigned_lem c e d off v = record {
  disk = λ g. ground (arith, ap (λ f. f g) (unhash_fields (taken c e) e).0);
  disk_offset = λ g. ground (arith, ap (λ f. f g) (unhash_fields (taken c e) e).1);
  ref_count = λ g. ground (arith, ap (λ f. f g) (unhash_fields (taken c e) e).2);
  chains = λ i g. ground (arith, taken_count c e i g v);
  lru = λ g. rw (unhash_lru (taken c e) e) (
      ground (arith, v.lru_once g, count-remove_self g c.lru_list, count-remove_ne g e c.lru_list));
}

pub Assigned-IsCache :
    (c c' : Cache) (e d off : ℕ)
    → Idle c e
    → d ≢ 0
    → Absent c d off
    → IsCache c
    → Assigned c c' e d off
    → IsCache c'
Assigned-IsCache c c' e d off idle nz free v a = record {
  lru_once = λ g. ground (arith, a.lru g, v.lru_once g);
  chain_once = λ i g. ground (arith, a.chains i g, v.chain_once i g);
  idle_unused = λ g l. ground (arith, a.lru g, a.ref_count g, v.idle_unused g);
  in_slot = λ i g l. ground (arith, a.chains i g, a.disk_offset g, v.in_slot i g);
  has_disk = λ i g l. ground (arith, a.chains i g, a.disk g, v.has_disk i g);
  hashed = λ g n.
      ground
        (arith, a.chains (slot_of (c'.disk_offset g)) g, a.disk g, a.disk_offset g, v.hashed g);
  one_entry = λ i g k lg lk ed eo. ground (
    arith,
    a.chains i g,
    a.chains i k,
    a.disk g,
    a.disk k,
    a.disk_offset g,
    a.disk_offset k,
    v.one_entry i g k,
    free g,
    free k,
  );
  unused_idle = λ i g l z. ground (arith, a.chains i g, a.ref_count g, a.lru g, v.unused_idle i g);
}

pub find_block_sound :
    (f h : ℕ → ℕ) (d off e : ℕ) (l : List ℕ)
    → find_block f h d off l ≡ some e
    → (0 < count e l) × (f e ≡ d) × (h e ≡ off)
unfolding find_block
find_block_sound f h d off e [] p = cc
find_block_sound f h d off e (g ∷ l) p = ground (arith, find_block_sound f h d off e l)

pub find_block-none :
    (f h : ℕ → ℕ) (d off e : ℕ) (l : List ℕ)
    → find_block f h d off l ≡ none
    → 0 < count e l
    → f e ≡ d
    → h e ≢ off
unfolding find_block
find_block-none f h d off e [] p m q = absurd (omega arith)
find_block-none f h d off e (g ∷ l) p m q = ground (arith, find_block-none f h d off e l)
