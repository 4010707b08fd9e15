-- ===== src/PMap/Lifetime.antt =====
-- The start of an address space: PMap_NewAS.
use boring_os_ssaha.Prelude.{
  ℕ, zero, suc, ◌/◌, ◌%◌, ◌^◌, ◌≤◌, ◌<◌, ◌≡◌, ◌≢◌, refl, ap, arith, ◌==◌, if◌then◌else◌, ltb,
  Option, none, some, List, [], ◌∷◌, update, count, length,
}
use boring_os_ssaha.PMap.{Space, pagetable_entries}
use boring_os_ssaha.PMap.Entry.{IsPage}
use boring_os_ssaha.PMap.Walk.{child, walk, tables, view, IsSpace}
use boring_os_ssaha.PMap.Grow.{tables-parent}

abbrev pub new_space : Space → ℕ → List ℕ → Space
new_space s root rest = record {
  root = root;
  entries =
      update s.entries root (λ i. if ltb i (pagetable_entries / 2) then 0 else s.entries s.root i);
  free = rest;
}

-- PMap_NewAS beside the system's address space: the page of the AS, and the space. Without a second
-- page the kernel stops in PAlloc_AllocPage: `none`.
abbrev pub new_from : Space → List ℕ → Option (ℕ × Space)
new_from s [] = none
new_from s (as_page ∷ []) = none
new_from s (as_page ∷ (root ∷ rest)) = some (as_page, new_space s root rest)

pub new_as : Space → Option (ℕ × Space)
new_as s = new_from s s.free

-- The pages that are free are pages of the direct map, and none stands twice.
pub record IsFree (l : List ℕ) : Type 0 where
  pub once : (pg : ℕ) → count pg l ≤ 1
  pub page : (pg : ℕ) → count pg l ≢ 0 → IsPage pg

-- A space with an empty user half.
module _ (u : Space) (empty : (i : ℕ) → i < 256 → u.entries u.root i ≡ 0) where
  walk-empty : (m q : ℕ) → m < 3 → q < tables (suc m) → walk u (suc m) q ≡ none
  unfolding walk
  walk-empty zero q h l = let a : q % pagetable_entries ≡ q = omega arith in rw (a, empty q l) refl
  walk-empty (suc m) q h l =
      ap (child u (q % pagetable_entries)) (
        walk-empty m (q / pagetable_entries) (omega arith)
          (tables-parent (suc m) q (omega arith) l))

  placed-empty :
      (n p t : ℕ)
      → n < 4
      → p < tables n
      → walk u n p ≡ some t
      → ((if t == u.root then 0 else 4) ≡ n) × (◌≡◌ {A = ℕ} 0 p)
  unfolding walk
  placed-empty zero p t h l e = (ground arith, omega arith)
  placed-empty (suc n) p t h l e = absurd (cc (walk-empty n p (omega arith) l, e))

  pub empty-IsSpace : IsFree u.free → count u.root u.free ≡ 0 → IsSpace u
  empty-IsSpace f r = record {
    level = λ t. if t == u.root then 0 else 4;
    number = λ t. 0;
    placed = placed-empty;
    free_level = λ pg h. ground arith;
    free_once = f.once;
    free_page = f.page;
    small = λ p t i l e h. absurd (cc (walk-empty 1 p (omega arith) l, e));
  }

  pub view-empty : (page : ℕ) → page < 2 ^ 35 → view u page ≡ 0
  unfolding view
  view-empty page l = rw (walk-empty 2 (page / pagetable_entries) (omega arith) (omega arith)) refl

-- What PMap_NewAS answers: the kernel stops when fewer than two pages are free; else a well-formed space in whose
-- user half no page has an entry, and whose kernel half is that of the system.
abbrev pub NewSpace : Space → Option (ℕ × Space) → Type 0
NewSpace s none = length s.free ≤ 1
NewSpace s (some (as_page, u)) =
    IsSpace u
    × ((page : ℕ) → page < 2 ^ 35 → view u page ≡ 0)
    × ((i : ℕ) → 256 ≤ i → u.entries u.root i ≡ s.entries s.root i)

new_from-NewSpace : (s : Space) (l : List ℕ) → s.free ≡ l → IsFree l → NewSpace s (new_from s l)
new_from-NewSpace s [] e f = omega (arith, ap length e)
new_from-NewSpace s (a ∷ []) e f = omega (arith, ap length e)
new_from-NewSpace s (a ∷ (root ∷ rest)) e f =
    let u = new_space s root rest in
    let empty : (i : ℕ) → i < 256 → u.entries root i ≡ 0 = λ i l. ground arith in
    let tail : IsFree rest = record {
      once = λ pg. omega (arith, f.once pg);
      page = λ pg h. f.page pg (λ z. h (omega arith));
    } in
    (
      empty-IsSpace u empty tail (ground (arith, f.once root)),
      view-empty u empty,
      λ i l. ground arith,
    )

-- PMap_NewAS gives such a space whenever two pages are free.
pub new_as-NewSpace : (s : Space) → IsFree s.free → NewSpace s (new_as s)
unfolding new_as
new_as-NewSpace s f = new_from-NewSpace s s.free refl f
