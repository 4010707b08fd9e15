-- ===== src/XMem/Grow.antt =====
-- XMem_Allocate on every branch: the length that it reaches and the pages that it maps.
use boring_os_ssaha.Prelude.{
  ℕ, zero, suc, ◌+◌, ◌*◌, ◌%◌, ◌^◌, ◌≤◌, ◌<◌, ◌≡◌, ◌≢◌, refl, sym, arith, ◌==◌, ltb, Bool, true,
  false, Option, some, List, [], ◌∷◌, ◌++◌, Option-cases, Bool-cases, inl, inr, ◌/◌, ◌∙◌, ap, count,
  length,
}
use mathlib.Core.List.{append-nil, append_assoc}
use boring_os_ssaha.PAlloc.{Pool, pgsize, dmva_to_pa, alloc_page}
use boring_os_ssaha.PAlloc.Valid.{IsPool, Taken}
use boring_os_ssaha.PAlloc.Pages.{alloc_page-Taken, alloc_page-none_iff}
use boring_os_ssaha.XMem.{
  Regions, table_sizes, with_table, find_tables, enter_page, map_page, grow, rounds, allocate,
}

-- The mappings of pages, one behind the other, from the virtual address `va` on.
abbrev pub mapped_from : ℕ → List ℕ → List (ℕ × ℕ)
mapped_from va [] = []
mapped_from va (pg ∷ pages) = (dmva_to_pa pg, va % 2 ^ 64) ∷ mapped_from (va + pgsize) pages

-- The region `r` of `x` has grown by `n` pages of the pool `s`. No page is among them twice or still
-- free, since the well-formed pool `s` has every page at most once.
pub record Grown (x : Regions) (s : Pool) (r off n : ℕ) (y : Regions) (t : Pool) : Type 0 where
  pub valid : IsPool t
  pub least : t.free_pages + n ≤ s.free_pages
  pub most : s.free_pages ≤ t.free_pages + 4 * n
  pub length_of : y.length r ≡ x.length r + n * pgsize
  pub other_lengths : (q : ℕ) → q ≢ r → y.length q ≡ x.length q
  pub same_base : y.base ≡ x.base
  pub same_max : y.max_length ≡ x.max_length
  pub maps :
      (pages : List ℕ) × (length pages ≡ n)
      × (y.maps ≡ x.maps ++ mapped_from (x.base r + off) pages)
      × ((pg : ℕ) → count pg pages + count pg t.free_list ≤ count pg s.free_list)

one_less : (s t : Pool) (pg : ℕ) → IsPool s → Taken s t pg → t.free_pages + 1 ≡ s.free_pages
one_less s t pg v k = ground (arith, v.counted, k.valid.counted, k.list)

page_not_null : (s t : Pool) (pg : ℕ) → IsPool s → Taken s t pg → (pg == 0) ≡ false
page_not_null s t pg v k = ground (arith, v.mapped pg k.was_free)

-- Up to `n` pages of `s` have become tables, and nothing else has changed.
record Tabled (n : ℕ) (x : Regions) (s : Pool) (y : Regions) (t : Pool) : Type 0 where
  valid : IsPool t
  least : t.free_pages ≤ s.free_pages
  most : s.free_pages ≤ t.free_pages + n
  fewer : (pg : ℕ) → count pg t.free_list ≤ count pg s.free_list
  same_length : y.length ≡ x.length
  same_base : y.base ≡ x.base
  same_max : y.max_length ≡ x.max_length
  same_maps : y.maps ≡ x.maps

Tabled-none :
    (n : ℕ) (x : Regions) (s : Pool) (y : Regions) (t : Pool)
    → Tabled n x s y t
    → Tabled (suc n) x s y t
Tabled-none n x s y t k = record {
  valid = k.valid;
  least = k.least;
  most = omega (arith, k.most);
  fewer = k.fewer;
  same_length = k.same_length;
  same_base = k.same_base;
  same_max = k.same_max;
  same_maps = k.same_maps;
}

Tabled-made :
    (n : ℕ) (x : Regions) (s : Pool) (size block : ℕ) (t : Pool) (table : ℕ) (y : Regions)
    (u : Pool)
    → Taken s t table
    → t.free_pages + 1 ≡ s.free_pages
    → Tabled n (with_table x size block) t y u
    → Tabled (suc n) x s y u
Tabled-made n x s size block t table y u k one m = record {
  valid = m.valid;
  least = omega (arith, m.least);
  most = omega (arith, m.most);
  fewer = λ pg. ground (arith, m.fewer pg, k.list);
  same_length = m.same_length;
  same_base = m.same_base;
  same_max = m.same_max;
  same_maps = m.same_maps;
}

find_tables-Tabled :
    (sizes : List ℕ) (x : Regions) (s : Pool) (va : ℕ)
    → IsPool s
    → length sizes ≤ s.free_pages
    → (y : Regions) × (t : Pool) × (find_tables sizes x s va ≡ some (y, t))
      × Tabled (length sizes) x s y t
unfolding find_tables
find_tables-Tabled [] x s va v enough = (
  x,
  s,
  refl,
  record {
    valid = v;
    least = omega arith;
    most = omega arith;
    fewer = λ pg. omega arith;
    same_length = refl;
    same_base = refl;
    same_max = refl;
    same_maps = refl;
  },
)
find_tables-Tabled (size ∷ sizes) x s va v enough =
    let block = va % 2 ^ 48 / size in
    elim (Bool-cases (x.tables size block)) [
      | inl b ↦
          let (y, t, e, m) = find_tables-Tabled sizes x s va v (omega arith) in
          (y, t, rw b e, Tabled-none (length sizes) x s y t m)
      | inr b ↦ elim (Option-cases (alloc_page s)) [
        | inl e ↦ absurd (ground (arith, v.counted, (alloc_page-none_iff s v).0 e))
        | inr ((t, table), e) ↦
            let k = alloc_page-Taken s t table v e in
            let one = one_less s t table v k in
            let (y, u, f, m) =
              find_tables-Tabled sizes (with_table x size block) t va k.valid (omega arith) in
            (
              y,
              u,
              rw b (rw (e, find_tables) f),
              Tabled-made (length sizes) x s size block t table y u k one m,
            )
      ]
    ]

-- One round: the page `pg` is mapped, and at most three pages have become tables.
record Entered (x : Regions) (s : Pool) (r off pg : ℕ) (y : Regions) (t : Pool) : Type 0 where
  valid : IsPool t
  least : t.free_pages ≤ s.free_pages
  most : s.free_pages ≤ t.free_pages + 3
  fewer : (p : ℕ) → count p t.free_list ≤ count p s.free_list
  length_of : y.length r ≡ (x.length r + pgsize) % 2 ^ 64
  other_lengths : (q : ℕ) → q ≢ r → y.length q ≡ x.length q
  same_base : y.base ≡ x.base
  same_max : y.max_length ≡ x.max_length
  maps : y.maps ≡ x.maps ++ ((dmva_to_pa pg, (x.base r + off) % 2 ^ 64) ∷ [])

map_page-Entered :
    (x : Regions) (s : Pool) (r off pg : ℕ)
    → IsPool s
    → 3 ≤ s.free_pages
    → (y : Regions) × (t : Pool) × (map_page x s r off pg ≡ some (y, t)) × Entered x s r off pg y t
unfolding map_page
map_page-Entered x s r off pg v enough =
    let va = (x.base r + off) % 2 ^ 64 in
    let (y, t, e, m) = find_tables-Tabled table_sizes x s va v enough in
    (
      _,
      t,
      ap (enter_page r va pg) e,
      record {
        valid = m.valid;
        least = m.least;
        most = m.most;
        fewer = m.fewer;
        length_of = ground (arith, m.same_length);
        other_lengths = λ q ne. ground (arith, m.same_length);
        same_base = m.same_base;
        same_max = m.same_max;
        maps = ap (λ l. l ++ ((dmva_to_pa pg, va) ∷ [])) m.same_maps;
      },
    )

Grown-suc :
    (x : Regions) (s : Pool) (r off n : ℕ) (t : Pool) (pg : ℕ) (w : Regions) (p : Pool)
    (y : Regions) (u : Pool)
    → Taken s t pg
    → t.free_pages + 1 ≡ s.free_pages
    → x.length r + pgsize < 2 ^ 64
    → Entered x t r off pg w p
    → Grown w p r (off + pgsize) n y u
    → Grown x s r off (suc n) y u
Grown-suc x s r off n t pg w p y u k one fits m g = record {
  valid = g.valid;
  least = omega (arith, g.least, m.least);
  most = omega (arith, g.most, m.most);
  length_of = omega (arith, g.length_of, m.length_of);
  other_lengths = λ q ne. g.other_lengths q ne ∙ m.other_lengths q ne;
  same_base = g.same_base ∙ m.same_base;
  same_max = g.same_max ∙ m.same_max;
  maps =
      let (pages, l, e, c) = g.maps in
      let one_page : List (ℕ × ℕ) = (dmva_to_pa pg, (x.base r + off) % 2 ^ 64) ∷ [] in
      let at : w.base r + (off + pgsize) ≡ x.base r + off + pgsize =
        omega (arith, ap (λ f. f r) m.same_base) in
      (
        pg ∷ pages,
        ap suc l,
        e
            ∙ rw m.maps (
                append_assoc x.maps one_page (mapped_from (w.base r + (off + pgsize)) pages)
                ∙ ap (λ a. x.maps ++ (one_page ++ mapped_from a pages)) at),
        λ q. ground (arith, c q, m.fewer q, k.list),
      );
}

-- With four pages for each round the loop runs to its end and returns true.
grow-Grown :
    (n : ℕ) (x : Regions) (s : Pool) (r off : ℕ)
    → IsPool s
    → 4 * n ≤ s.free_pages
    → x.length r + n * pgsize < 2 ^ 64
    → (y : Regions) × (t : Pool) × (grow n x s r off ≡ some (true, y, t)) × Grown x s r off n y t
unfolding grow
grow-Grown zero x s r off v enough fits = (
  x,
  s,
  refl,
  record {
    valid = v;
    least = omega arith;
    most = omega arith;
    length_of = omega arith;
    other_lengths = λ q ne. refl;
    same_base = refl;
    same_max = refl;
    maps = ([], refl, sym (append-nil x.maps), λ pg. omega arith);
  },
)
grow-Grown (suc n) x s r off v enough fits = elim (Option-cases (alloc_page s)) [
  | inl e ↦ absurd (ground (arith, v.counted, (alloc_page-none_iff s v).0 e))
  | inr ((t, pg), e) ↦
      let k = alloc_page-Taken s t pg v e in
      let one = one_less s t pg v k in
      let (w, p, f, m) = map_page-Entered x t r off pg k.valid (omega arith) in
      let (y, u, h, g) =
        grow-Grown n w p r (off + pgsize) m.valid (omega (arith, m.most))
          (omega (arith, m.length_of)) in
      (
        y,
        u,
        rw (e, grow) (rw (page_not_null s t pg v k, grow) (rw (f, grow) h)),
        Grown-suc x s r off n t pg w p y u k one (omega arith) m g,
      )
]

-- What a request to grow a region can lead to.
pub data Allocated (x : Regions) (s : Pool) (r len : ℕ)
    : Option (Bool × Regions × Pool) → Type 0 where
  longer : len < x.length r → Allocated x s r len (some (true, x, s))
  refused : x.length r ≤ len → x.max_length r < len → Allocated x s r len (some (false, x, s))
  grown :
      (y : Regions) (t : Pool)
      → x.length r ≤ len
      → len ≤ x.max_length r
      → len ≤ y.length r
      → y.length r < len + pgsize
      → Grown x s r (x.length r) (rounds (x.length r) len) y t
      → Allocated x s r len (some (true, y, t))

-- With a well-formed pool and four free pages for each round, one for the region and one for each level
-- of tables, and a length at least a page below 2 ^ 64,
-- XMem_Allocate does not panic. It leaves a region that is longer already; it refuses a length above the
-- region's maximum and changes nothing; and otherwise it grows the region to the first multiple of the
-- page size that covers the request, and maps as many pages, one behind the other: they were free, are
-- pairwise different and no longer free.
pub allocate-Allocated :
    (x : Regions) (s : Pool) (r len : ℕ)
    → IsPool s
    → 4 * rounds (x.length r) len ≤ s.free_pages
    → len + pgsize < 2 ^ 64
    → Allocated x s r len (allocate x s r len)
unfolding allocate
allocate-Allocated x s r len v enough small = elim (Bool-cases (ltb len (x.length r))) [
  | inl a ↦ rw a (Allocated.longer (ground arith))
  | inr a ↦ elim (Bool-cases (ltb (x.max_length r) len)) [
    | inl b ↦ rw (a, b) (Allocated.refused (ground arith) (ground arith))
    | inr b ↦
        let within : x.length r ≤ len = ground arith in
        let (y, t, e, g) =
          grow-Grown (rounds (x.length r) len) x s r (x.length r) v enough (omega arith) in
        rw (a, b)
          (rw e (
            Allocated.grown y t within (ground arith) (omega (arith, g.length_of))
              (omega (arith, g.length_of)) g))
  ]
]
