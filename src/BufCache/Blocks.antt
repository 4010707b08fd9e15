-- ===== src/BufCache/Blocks.antt =====
-- What a caller of the buffer cache gets for a block, and what a failed transfer leaves behind.
use boring_os_ssaha.Prelude.{
  ℕ, ◌+◌, ◌%◌, ◌^◌, ◌<◌, ◌≡◌, ◌≢◌, refl, sym, ◌∙◌, ap, inl, inr, arith, Option, none, some, [], ◌↔◌,
}
use boring_os_ssaha.BufCache.{
  Cache, slot_of, retain, cache_lookup, cache_alloc_entry, alloc, read, Transfer, enoent, enomem,
}
use boring_os_ssaha.BufCache.Valid.{Hashed, IsCache, Absent}
use boring_os_ssaha.BufCache.Steps.{
  Outcome, lookup_cases, SameEntries, alloc-Served, Outcome-Holds, Holds, read_hit, read_miss,
  read_alloc-same, alloc_entry-Outcome, missed, missed-IsCache, read-IsCache,
}

Holds-same : (c a b : Cache) (d off e : ℕ) → SameEntries a b → Holds c b d off e → Holds c a d off e
Holds-same c a b d off e (p, q, r, s, t) h = record {
  of_disk = rw p h.of_disk;
  at_offset = rw q h.at_offset;
  referenced = rw r h.referenced;
  chained = rw s h.chained;
  kept = rw (p, q, r) h.kept;
}

-- When BufCache_Alloc returns an entry, its status is 0 and the entry holds the block asked for, is
-- referenced and hashed; the entries in use before keep their block and lose no reference.
pub alloc-Holds :
    (c : Cache) (d off e : ℕ)
    → ((g : ℕ) → c.ref_count g + 1 < 2 ^ 64)
    → IsCache c
    → (alloc c d off).2 ≡ some e
    → ((alloc c d off).1 ≡ 0) × Holds c (alloc c d off).0 d off e
alloc-Holds c d off e small v h =
    let s = alloc-Served c d off v in
    let (st, k) = Outcome-Holds c d off e small v s.outcome (sym s.entry ∙ h) in
    (s.status ∙ st, Holds-same c _ _ d off e s.same k)

Outcome-full :
    (c : Cache) (d off : ℕ) {r : Cache × ℕ × Option ℕ}
    → Outcome c d off r
    → r.2 ≡ none
    → (Absent c d off × (c.lru_list ≡ [])) × (r.1 ≡ enomem)
Outcome-full c d off (Outcome.hit e m p q x) h = cc
Outcome-full c d off (Outcome.filled e c' free idle a x) h = cc
Outcome-full c d off (Outcome.full free p x) h = ((free, p), ap (λ t. t.1) x)

Outcome_not_full :
    (c : Cache) (d off : ℕ) {r : Cache × ℕ × Option ℕ}
    → Outcome c d off r
    → Absent c d off
    → c.lru_list ≡ []
    → r.2 ≡ none
Outcome_not_full c d off (Outcome.hit e m p q x) free z = absurd (free e m p q)
Outcome_not_full c d off (Outcome.filled e c' f idle a x) free z = absurd (ground (arith, idle))
Outcome_not_full c d off (Outcome.full f p x) free z = ap (λ t. t.2) x

-- BufCache_Alloc fails exactly when no entry holds the block and the LRU list is empty, and its
-- status is then ENOMEM.
pub alloc_full_iff :
    (c : Cache) (d off : ℕ)
    → IsCache c
    → ((alloc c d off).2 ≡ none ↔ (Absent c d off × (c.lru_list ≡ [])))
      × ((alloc c d off).2 ≡ none → (alloc c d off).1 ≡ enomem)
alloc_full_iff c d off v =
    let s = alloc-Served c d off v in
    (
      (
        λ h. (Outcome-full c d off s.outcome (sym s.entry ∙ h)).0,
        λ (free, z). s.entry ∙ Outcome_not_full c d off s.outcome free z,
      ),
      λ h. s.status ∙ (Outcome-full c d off s.outcome (sym s.entry ∙ h)).1,
    )

-- An entry that holds a block is the one that the lookup finds.
lookup_held :
    (c : Cache) (d off e : ℕ)
    → IsCache c
    → Hashed c (slot_of off) e
    → c.disk e ≡ d
    → c.disk_offset e ≡ off
    → cache_lookup c d off ≡ (retain c e, 0, some e)
lookup_held c d off e v m p q = elim (lookup_cases c d off) [
  | inl (g, mg, pg, qg, r) ↦
      let same : g ≡ e = v.one_entry (slot_of off) g e mg m (pg ∙ sym p) (qg ∙ sym q) in
      r ∙ ap (λ k. (retain c k, 0, some k)) same
  | inr (free, r) ↦ absurd (free e m p q)
]

read_miss-Holds :
    (io : Transfer) (c : Cache) (d off e : ℕ)
    → ((g : ℕ) → c.ref_count g + 1 < 2 ^ 64)
    → IsCache c
    → cache_lookup c d off ≡ (c, enoent, none)
    → Absent c d off
    → (read io c d off).2 ≡ some e
    → Holds (missed c) (read io c d off).0 d off e
read_miss-Holds io c d off e small v r free h = rw (read_miss io c d off r) (
    let v' = missed-IsCache c ((c.cache_miss + 1) % 2 ^ 64) v in
    let a = cache_alloc_entry (missed c) d off in
    let (same, entry) = read_alloc-same io d off a in
    Holds-same _ _ a.0 d off e same
      (Outcome-Holds (missed c) d off e small v' (alloc_entry-Outcome (missed c) d off v' free)
        (sym entry ∙ ap (λ t. t.2) (sym (read_miss io c d off r)) ∙ h)).1)

-- If BufCache_Read takes an entry for a block that was not cached, the next BufCache_Read of the
-- block is a hit on the same entry with status 0 and starts no transfer, whatever the drivers
-- answer: also when the first transfer failed and the buffer was never filled.
pub read_failed_then_hit :
    (io io' : Transfer) (c : Cache) (d off e : ℕ)
    → d ≢ 0
    → ((g : ℕ) → c.ref_count g + 1 < 2 ^ 64)
    → IsCache c
    → Absent c d off
    → (read io c d off).2 ≡ some e
    → let (c₂, status, entry) = read io' (read io c d off).0 d off in
      (status ≡ 0) × (entry ≡ some e)
read_failed_then_hit io io' c d off e nz small v free h = elim (lookup_cases c d off) [
  | inl (g, m, p, q, r) ↦ absurd (free g m p q)
  | inr (absent, r) ↦
      let k = read_miss-Holds io c d off e small v r absent h in
      let c' = (read io c d off).0 in
      let hit = read_hit io' c' _ d off e (
        lookup_held c' d off e (read-IsCache io c d off nz small v) k.chained k.of_disk
          k.at_offset) in
      rw hit (refl, refl)
]
