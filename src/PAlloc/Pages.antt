-- ===== src/PAlloc/Pages.antt =====
-- The page allocator as its callers see it.
use boring_os_ssaha.Prelude.{
  ℕ, ◌+◌, ◌%◌, ◌^◌, ◌<◌, ◌≡◌, ◌≢◌, ◌↔◌, refl, sym, subst, arith, none, some, List, [], ◌∷◌,
}
use native.Mathlib.Decide.{ℕ_discrete}
use boring_os_ssaha.PAlloc.{
  Pool, pgsize, info_index, magic_free, take_page, alloc_from, alloc_page, retain, release,
}
use boring_os_ssaha.PAlloc.Valid.{
  IsPage, IsPool, Taken, take_page-Taken, Released, shared, freed, shared-Released, freed-Released,
}

alloc_from-Taken :
    (s s' : Pool) (pg : ℕ) (l : List ℕ)
    → s.free_list ≡ l
    → IsPool s
    → alloc_from s l ≡ some (s', pg)
    → Taken s s' pg
unfolding alloc_from
alloc_from-Taken s s' pg [] p v e = cc
alloc_from-Taken s s' pg (q ∷ rest) p v e =
    let (same, t) = take_page-Taken s s' q pg rest p v e in subst (Taken s s') (sym same) t

-- PAlloc_AllocPage returns a page that was free, which is then on the free list no more, has one
-- reference and a cleared first word; the references of the other pages stay, and the pool stays
-- well formed.
pub alloc_page-Taken :
    (s s' : Pool) (pg : ℕ) → IsPool s → alloc_page s ≡ some (s', pg) → Taken s s' pg
unfolding alloc_page
alloc_page-Taken s s' pg v e = alloc_from-Taken s s' pg s.free_list refl v e

take_page_total :
    (s : Pool) (pg : ℕ) (rest : List ℕ)
    → s.free_list ≡ pg ∷ rest
    → IsPool s
    → take_page s pg rest ≢ none
unfolding take_page
take_page_total s pg rest l v e =
    ground (arith, v.marked pg (rw l (ground arith)), v.unused pg (rw l (ground arith)))

alloc_from-none :
    (s : Pool) (l : List ℕ) → s.free_list ≡ l → IsPool s → alloc_from s l ≡ none → l ≡ []
unfolding alloc_from
alloc_from-none s [] p v e = refl
alloc_from-none s (pg ∷ rest) p v e = absurd (take_page_total s pg rest p v e)

-- In a well-formed pool PAlloc_AllocPage fails exactly when no page is free. The failure is an
-- ASSERT, and never a NULL that is returned.
pub alloc_page-none_iff : (s : Pool) → IsPool s → (alloc_page s ≡ none) ↔ (s.free_list ≡ [])
unfolding alloc_page alloc_from
alloc_page-none_iff s v = (alloc_from-none s s.free_list refl v, λ e. rw e)

release-shared :
    (s : Pool) (pg : ℕ) → 1 < s.info (info_index pg) → release s pg ≡ some (shared s pg)
unfolding release
release-shared s pg h = ground arith

release_last :
    (s : Pool) (pg : ℕ)
    → s.info (info_index pg) ≡ 1
    → pg % pgsize ≡ 0
    → s.magic pg ≢ magic_free
    → release s pg ≡ some (freed s pg)
unfolding release
release_last s pg h a m = ground arith

-- PAlloc_Release of a page that has a reference, and whose first word is not the mark of a free page,
-- drops one reference and no other, puts the page at the head of the free list exactly when that was
-- the last one, and keeps the pool well formed.
pub release-Released :
    (s : Pool) (pg : ℕ)
    → IsPool s
    → IsPage pg
    → 0 < s.info (info_index pg)
    → s.magic pg ≢ magic_free
    → s.free_pages + 1 < 2 ^ 64
    → (s' : Pool) × (release s pg ≡ some s') × Released s s' pg
release-Released s pg v page refs mark small = elim (ℕ_discrete (s.info (info_index pg)) 1) [
  | yes e ↦ (freed s pg, release_last s pg e page.2 mark, freed-Released s pg v page e small)
  | no ne ↦
      (shared s pg, release-shared s pg (omega arith), shared-Released s pg v page (omega arith))
]

-- PAlloc_Retain and PAlloc_Release undo each other, on a page that has a reference.
pub release-retain :
    (s t : Pool) (pg : ℕ)
    → 0 < s.info (info_index pg)
    → s.info (info_index pg) + 1 < 2 ^ 64
    → retain s pg ≡ some t
    → (u : Pool) × (release t pg ≡ some u)
      × (u.free_list ≡ s.free_list)
      × (u.free_pages ≡ s.free_pages)
      × ((i : ℕ) → u.info i ≡ s.info i)
unfolding retain
release-retain s t pg refs small e =
    (shared t pg, release-shared t pg (ground arith), ground arith, ground arith, λ i. ground arith)

-- Releasing a page that was just allocated gives the pool back as it was: the same free list and
-- count, the same references and the same marks.
pub release-alloc_page :
    (s t : Pool) (pg : ℕ)
    → IsPool s
    → alloc_page s ≡ some (t, pg)
    → (u : Pool) × (release t pg ≡ some u)
      × (u.free_list ≡ s.free_list)
      × (u.free_pages ≡ s.free_pages)
      × ((i : ℕ) → u.info i ≡ s.info i)
release-alloc_page s t pg v e =
    let k = alloc_page-Taken s t pg v e in
    (
      freed t pg,
      release_last t pg k.one_reference (v.mapped pg k.was_free).2 (omega (arith, k.cleared)),
      sym k.list,
      ground (arith, v.counted, k.valid.counted, k.list, v.bounded),
      λ i. ground (arith, k.one_reference, k.others i, v.unused pg k.was_free),
    )
