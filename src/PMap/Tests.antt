-- ===== src/PMap/Tests.antt =====
-- A new address space, one page in it, and the theorems at them.
use boring_os_ssaha.Prelude.{
  ℕ, ◌+◌, ◌-◌, ◌*◌, ◌/◌, ◌≤◌, ◌<◌, ◌≡◌, ◌≢◌, refl, arith, Bool-cases, true, some, [], ◌∷◌, inl, inr,
  ◌⊎◌,
}
use boring_os_ssaha.PAlloc.{pgsize, directmap_base}
use boring_os_ssaha.PMap.{Space, map_pages, translate}
use boring_os_ssaha.PMap.Walk.{IsSpace, view}
use boring_os_ssaha.PMap.Map.{Mapped, map_pages-Mapped}
use boring_os_ssaha.PMap.Translate.{translate-map_pages}
use boring_os_ssaha.PMap.Alloc.{AllocMapped, alloc_map_pages, alloc_map_pages_lem}
use boring_os_ssaha.PMap.Lifetime.{IsFree, empty-IsSpace}

abbrev page_at : ℕ → ℕ
page_at k = directmap_base + pgsize * k

abbrev fresh_space : Space
fresh_space = record {
  root = page_at 1;
  entries = λ t i. 0;
  free = page_at 2 ∷ page_at 3 ∷ page_at 4 ∷ page_at 6 ∷ [];
}

fresh_space-IsFree : IsFree fresh_space.free
fresh_space-IsFree = record {
  once = λ pg. ground arith;
  page = λ pg h. record { low = ground arith; high = ground arith; aligned = ground arith };
}

fresh_space-IsSpace : IsSpace fresh_space
fresh_space-IsSpace = empty-IsSpace fresh_space (λ i l. refl) fresh_space-IsFree (ground arith)

map_pages-Mapped_example :
    Mapped 1 fresh_space 0x5000 0x400000 2
      (map_pages 1 fresh_space 0x5000 0x400000 2).0
      (map_pages 1 fresh_space 0x5000 0x400000 2).1
map_pages-Mapped_example =
    map_pages-Mapped 1 fresh_space 0x5000 0x400000 2 (omega arith) (omega arith) (omega arith)
      fresh_space-IsSpace

abbrev one_page : Space
one_page = (map_pages 1 fresh_space 0x5000 0x400000 2).0

one_page_done : (map_pages 1 fresh_space 0x5000 0x400000 2).1 ≡ true
one_page_done =
    let m =
      map_pages-Mapped 1 fresh_space 0x5000 0x400000 2 (omega arith) (omega arith) (omega arith)
        fresh_space-IsSpace in
    elim (Bool-cases (map_pages 1 fresh_space 0x5000 0x400000 2).1) [
      | inl t ↦ t
      | inr f ↦ absurd (omega (arith, m.failed f))
    ]

translate-map_pages_example :
    (0x400000 ≤ 0x400123
      → 0x400123 < 0x400000 + pgsize * 1
      → translate one_page 0x400123 ≡ some (0x5000 + (0x400123 - 0x400000)))
    × ((0x400123 < 0x400000) ⊎ (0x400000 + pgsize * 1 ≤ 0x400123)
        → view fresh_space (0x400123 / pgsize) ≢ 0
        → translate one_page 0x400123 ≡ translate fresh_space 0x400123)
translate-map_pages_example =
    translate-map_pages 1 fresh_space 0x5000 0x400000 2 0x400123 (omega arith) (omega arith)
      (omega arith) (omega arith) (omega arith) (omega arith) (omega arith) fresh_space-IsSpace
      one_page_done

alloc_map_pages_lem_example :
    (u : Space) × (alloc_map_pages 1 fresh_space 0x400000 2 ≡ (u, true))
    × AllocMapped 1 fresh_space 0x400000 2 u
alloc_map_pages_lem_example =
    alloc_map_pages_lem 1 fresh_space 0x400000 2 (omega arith) (omega arith) (omega arith)
      fresh_space-IsSpace
