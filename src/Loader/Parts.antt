-- ===== src/Loader/Parts.antt =====
-- A segment that need not begin a page.
use boring_os_ssaha.Prelude.{
  ℕ, ◌+◌, ◌-◌, ◌/◌, ◌%◌, ◌^◌, ◌≤◌, ◌<◌, ◌≡◌, ◌≢◌, refl, sym, ap, subst, ◌∙◌, arith, ◌==◌, ltb,
  if◌then◌else◌, true, false, Option, none, some, split_eq, inl, inr,
}
use boring_os_ssaha.PAlloc.{pgsize}
use boring_os_ssaha.PMap.{Space}
use boring_os_ssaha.PMap.Walk.{view}
use boring_os_ssaha.Loader.{Fill, fill_page, fill_pages, fill_segment}
use boring_os_ssaha.Loader.Segment.{
  IsProgram, IsMapped, Filled, Writes, assoc, Filled-join, IsMapped-drop, fill_page-Filled,
  fill_pages-Filled, split_lt,
}

-- The first piece of a segment that does not begin a page, and the rest.
abbrev fill_parts : Space → Fill → (ℕ → ℕ) → ℕ → ℕ → ℕ → ℕ → Option (ℕ → ℕ)
fill_parts s fill m vaddr offset len rlen = elim (fill_page s fill m vaddr offset rlen) [
  | none ↦ none
  | some u ↦
      fill_pages s fill u ((vaddr + rlen) % 2 ^ 64) ((offset + rlen) % 2 ^ 64) (len - rlen)
        (len + 1)
]

fill_parts-Filled :
    (s : Space) (fill : Fill) (value m : ℕ → ℕ) (v offset len rlen size : ℕ)
    → Writes fill value size
    → offset < size
    → offset + len ≤ size
    → IsProgram s
    → IsMapped s v len
    → view s (v / pgsize) ≢ 0
    → offset + len < 2 ^ 64
    → rlen ≤ len
    → v % pgsize + rlen ≤ pgsize
    → (len - rlen ≢ 0 → (v + rlen) % pgsize ≡ 0)
    → (u : ℕ → ℕ) × (fill_parts s fill m v offset len rlen ≡ some u)
      × Filled s v len (λ i. value (offset + i)) m u
fill_parts-Filled s fill value m v offset len rlen size law begins ends prog mapped first small part
      within aligned =
    let rest = len - rlen in
    let e : rlen + rest ≡ len = omega arith in
    let whole = subst (λ l. IsMapped s v l) (sym e) mapped in
    let (u, r, f) =
      fill_page-Filled s fill value m v offset rlen size law begins (omega arith) prog
        (omega (arith, mapped.0)) first within in
    let (w, q, g) =
      fill_pages-Filled s fill value u (v + rlen) (offset + rlen) rest size (len + 1) law
        (omega arith) prog aligned (IsMapped-drop s v rlen rest whole) (omega arith)
        (omega arith) in
    let k : (v + rlen) % 2 ^ 64 ≡ v + rlen = omega (arith, mapped.0) in
    let l : (offset + rlen) % 2 ^ 64 ≡ offset + rlen = omega arith in
    (
      w,
      rw (fill_parts, r, k, l) q,
      subst (λ n. Filled s v n (λ i. value (offset + i)) m w) e
          (Filled-join s v rlen rest (λ i. value (offset + i)) (λ i. value (offset + rlen + i)) m u
            w prog whole f (λ i. ap value (assoc offset rlen i)) g),
    )

fill_segment-parts :
    (s : Space) (fill : Fill) (m : ℕ → ℕ) (v offset len : ℕ)
    → v % pgsize ≢ 0
    → fill_segment s fill m v offset len
      ≡ fill_parts s fill m v offset len
          (if ltb (pgsize - v % pgsize) len then pgsize - v % pgsize else len)
unfolding fill_segment
fill_segment-parts s fill m v offset len nz =
    let a : (v % pgsize == 0) ≡ false = ground arith in rw a refl

fill_segment-cut :
    (s : Space) (fill : Fill) (m u : ℕ → ℕ) (v offset len rlen : ℕ)
    → v % pgsize ≢ 0
    → (if ltb (pgsize - v % pgsize) len then pgsize - v % pgsize else len) ≡ rlen
    → fill_parts s fill m v offset len rlen ≡ some u
    → fill_segment s fill m v offset len ≡ some u
fill_segment-cut s fill m u v offset len rlen nz e r =
    fill_segment-parts s fill m v offset len nz ∙ ap (λ n. fill_parts s fill m v offset len n) e ∙ r

-- A segment of an address space where its pages are mapped is filled, and nothing else. The page of an
-- address within a page is used even for no bytes.
pub fill_segment-Filled :
    (s : Space) (fill : Fill) (value m : ℕ → ℕ) (v offset len size : ℕ)
    → Writes fill value size
    → offset < size
    → offset + len ≤ size
    → IsProgram s
    → IsMapped s v len
    → (v % pgsize ≢ 0 → view s (v / pgsize) ≢ 0)
    → offset + len < 2 ^ 64
    → (u : ℕ → ℕ) × (fill_segment s fill m v offset len ≡ some u)
      × Filled s v len (λ i. value (offset + i)) m u
unfolding fill_segment
fill_segment-Filled s fill value m v offset len size law begins ends prog mapped first small =
    elim (split_eq (v % pgsize) 0) [
      | inl z ↦
          let a : (v % pgsize == 0) ≡ true = ground arith in
          let (u, r, f) =
            fill_pages-Filled s fill value m v offset len size (len + 1) law ends prog (λ n. z)
              mapped small (omega arith) in
          (u, rw a r, f)
      | inr nz ↦
          let a : (v % pgsize == 0) ≡ false = ground arith in
          let maxlen = pgsize - v % pgsize in
          let cut : (rlen : ℕ) × ((if ltb maxlen len then maxlen else len) ≡ rlen)
              × (rlen ≤ len)
              × (rlen ≤ maxlen)
              × (len - rlen ≢ 0 → rlen ≡ maxlen) =
            elim (split_lt maxlen len) [
              | inl more ↦ (maxlen, ground arith, omega arith, omega arith, λ h. refl)
              | inr less ↦ (len, ground arith, omega arith, omega arith, λ h. absurd (omega arith))
            ] in
          let (rlen, e, part, within, rest) = cut in
          let (u, r, f) =
            fill_parts-Filled s fill value m v offset len rlen size law begins ends prog mapped
              (first nz) small part (omega arith) (λ z. omega (arith, rest z)) in
          (u, fill_segment-cut s fill m u v offset len rlen nz e r, f)
    ]
