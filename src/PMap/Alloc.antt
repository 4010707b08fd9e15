-- ===== src/PMap/Alloc.antt =====
-- PMap_AllocMap.
use Prim.Native.Nat.{bit_or}
use boring_os_ssaha.Prelude.{
  split_eq, ℕ, zero, suc, ◌+◌, ◌-◌, ◌*◌, ◌/◌, ◌%◌, ◌^◌, ◌≤◌, ◌<◌, ◌≡◌, ◌≢◌, refl, sym, ap, ◌∙◌,
  subst, arith, ◌==◌, if◌then◌else◌, Bool, true, false, Option, none, some, List, [], ◌∷◌, count,
  length, inl, inr, ◌⊎◌,
}
use boring_os_ssaha.PAlloc.{pgsize, dmva_to_pa}
use boring_os_ssaha.PMap.{
  Space, pagetable_entries, write, index, lookup_entry, map_rest, pte_p, pte_u,
}
use boring_os_ssaha.PMap.Walk.{walk, view, IsSpace}
use boring_os_ssaha.PMap.Lookup.{Grown, Found, lookup_entry-Found}
use boring_os_ssaha.PMap.Leaf.{
  leaf-view, leaf-IsSpace, view_at, freed, freed-view, freed-walk, freed-IsSpace,
}

-- The entry for a new page.
abbrev pub backing : ℕ → ℕ → ℕ
backing pg flags = bit_or (bit_or (bit_or (dmva_to_pa pg) pte_p) pte_u) flags

-- The rest of a round of PMap_AllocMap where the entry is not present, with the free pages as an
-- argument. Without one the kernel stops in PAlloc_AllocPage: `false`.
abbrev pub back_entry : ℕ → ℕ → ℕ → Space → List ℕ → Space × Bool
back_entry table i flags s [] = (s, false)
back_entry table i flags s (pg ∷ rest) =
    (write (record s { free = rest }) table i (backing pg flags), true)

abbrev pub back_found : ℕ → ℕ → Space × Option ℕ → Space × Bool
back_found i flags (s, none) = (s, false)
back_found i flags (s, some table) =
    if s.entries table i % 2 == 1 then (s, true) else back_entry table i flags s s.free

-- One round of PMap_AllocMap.
unfoldable pub alloc_map_page : Space → ℕ → ℕ → Space × Bool
alloc_map_page s va flags = back_found (index va pgsize) flags (lookup_entry s va)

-- Its loop, with the rounds that are left; `va` is that of the round. As in PMap_Map, the int product
-- `PGSIZE * i` of the source takes at most 2 ^ 19 pages.
unfoldable pub alloc_map_pages : ℕ → Space → ℕ → ℕ → Space × Bool
unfolding alloc_map_page
alloc_map_pages zero s va flags = (s, true)
alloc_map_pages (suc n) s va flags =
    map_rest (λ t. alloc_map_pages n t ((va + pgsize) % 2 ^ 64) flags) (alloc_map_page s va flags)

-- PMap_AllocMap; `none` is a failed ASSERT, and `false` a kernel that has stopped in PAlloc_AllocPage.
unfoldable pub alloc_map : Space → ℕ → ℕ → ℕ → Option (Space × Bool)
unfolding alloc_map_pages
alloc_map s virt len flags =
    if virt % pgsize == 0
    then some (alloc_map_pages ((len + pgsize - 1) % 2 ^ 64 / pgsize) s virt flags)
    else none

-- What the call makes of the page `q`, from the entry that it had, where `pg` is the page that it gets:
-- an entry that was present stays, and each other page of the range has a page that was free and no
-- longer is.
abbrev pub Backed : Space → Space → ℕ → ℕ → ℕ → Type 0
Backed s u flags pg q =
    ((view s q % 2 ≡ 1) × (view u q ≡ view s q))
    ⊎ ((view u q ≡ backing pg flags) × (count pg s.free ≢ 0) × (count pg u.free ≡ 0))

-- One round on the page `page`, with enough free pages.
record Round (s : Space) (page flags : ℕ) (u : Space) : Type 0 where
  space : IsSpace u
  taken : ℕ
  here : Backed s u flags taken page
  others : (q : ℕ) → q < 2 ^ 35 → q ≢ page → view u q ≡ view s q
  kept : length s.free ≤ length u.free + 4
  fewer : (pg : ℕ) → count pg u.free ≤ count pg s.free

back-Round :
    (s u : Space) (va flags t : ℕ) (l : List ℕ)
    → va < 2 ^ 47
    → Grown 3 s u
    → walk u 3 (va / 2 ^ 21) ≡ some t
    → u.free ≡ l
    → length l ≢ 0
    → view u (va / pgsize) % 2 ≢ 1
    → Round s (va / pgsize) flags (back_entry t (index va pgsize) flags u l).0
      × ((back_entry t (index va pgsize) flags u l).1 ≡ true)
back-Round s u va flags t [] h g w e ne p = absurd (ne refl)
back-Round s u va flags t (pg ∷ rest) h g w e ne p =
    let page : va / 2 ^ 21 * pagetable_entries + index va pgsize ≡ va / pgsize = omega arith in
    let f = freed u rest in
    let fewer : (x : ℕ) → count x rest ≤ count x u.free = λ x. omega (arith, ap (count x) e) in
    let v = freed-IsSpace u rest fewer g.space in
    let at : walk f 3 (va / 2 ^ 21) ≡ some t = freed-walk u rest 3 (va / 2 ^ 21) ∙ w in
    let now =
      leaf-view f (va / 2 ^ 21) t (index va pgsize) (backing pg flags) v (omega arith) at
        (omega arith) in
    (
      record {
        space =
            leaf-IsSpace f (va / 2 ^ 21) t (index va pgsize) (backing pg flags) v (omega arith) at
              (omega arith);
        taken = pg;
        here = inr (
          now (va / pgsize) (omega arith) ∙ ground (arith, page),
          λ z. ground (arith, g.fewer pg, e),
          ground (arith, g.space.free_once pg, e),
        );
        others = λ q l d. now q l ∙ ground (arith, page, freed-view u rest q, g.same q l);
        kept = omega (arith, g.free, ap length e);
        fewer = λ x. omega (arith, fewer x, g.fewer x);
      },
      refl,
    )

found-Round :
    (s : Space) (va flags : ℕ) (r : Space × Option ℕ)
    → va < 2 ^ 47
    → 4 ≤ length s.free
    → Found 3 s 3 (va / 2 ^ 21) r
    → (Round s (va / pgsize) flags (back_found (index va pgsize) flags r).0)
      × ((back_found (index va pgsize) flags r).1 ≡ true)
found-Round s va flags (u, none) h k (g, e) = absurd (omega (arith, g.free))
found-Round s va flags (u, some t) h k (g, e) =
    let at = view_at u (va / pgsize) t (ap (walk u 3) (omega arith) ∙ e) in
    let i : va / pgsize % pagetable_entries ≡ index va pgsize = refl in
    elim (split_eq (u.entries t (index va pgsize) % 2) 1) [
      | inl p ↦ rw p (
        record {
          space = g.space;
          taken = 0;
          here = inl (
            ap (λ (x : ℕ). x % 2) (sym (g.same (va / pgsize) (omega arith)) ∙ at) ∙ p,
            g.same (va / pgsize) (omega arith),
          );
          others = λ q l d. g.same q l;
          kept = omega (arith, g.free);
          fewer = g.fewer;
        },
        refl,
      )
      | inr np ↦
          let b : (u.entries t (index va pgsize) % 2 == 1) ≡ false = ground arith in
          rw b (
            back-Round s u va flags t u.free h g e refl (λ z. omega (arith, g.free))
              (λ z. np (ap (λ (x : ℕ). x % 2) (sym at) ∙ z)))
    ]

-- What the whole call makes of the space.
pub record AllocMapped (n : ℕ) (s : Space) (va flags : ℕ) (u : Space) : Type 0 where
  pub space : IsSpace u
  pub taken : ℕ → ℕ
  pub inside :
      (q : ℕ) → q < 2 ^ 35 → va / pgsize ≤ q → q < va / pgsize + n → Backed s u flags (taken q) q
  pub own :
      (q r : ℕ)
      → va / pgsize ≤ q
      → q < r
      → r < va / pgsize + n
      → view s q % 2 ≢ 1
      → view s r % 2 ≢ 1
      → taken q ≢ taken r
  pub outside :
      (q : ℕ) → q < 2 ^ 35 → (q < va / pgsize) ⊎ (va / pgsize + n ≤ q) → view u q ≡ view s q
  pub fewer : (pg : ℕ) → count pg u.free ≤ count pg s.free

-- A page of a later round, seen from the start; and the page of the first round, seen from the end.
Backed-later :
    (s u w : Space) (flags pg q : ℕ)
    → view u q ≡ view s q
    → ((p : ℕ) → count p u.free ≤ count p s.free)
    → Backed u w flags pg q
    → Backed s w flags pg q
Backed-later s u w flags pg q e f (inl (p, k)) = inl (ap (λ (x : ℕ). x % 2) (sym e) ∙ p, k ∙ e)
Backed-later s u w flags pg q e f (inr (k, a, b)) = inr (k, λ z. a (omega (arith, f pg)), b)

Backed-first :
    (s u w : Space) (flags pg q : ℕ)
    → view w q ≡ view u q
    → ((p : ℕ) → count p w.free ≤ count p u.free)
    → Backed s u flags pg q
    → Backed s w flags pg q
Backed-first s u w flags pg q e f (inl (p, k)) = inl (p, e ∙ k)
Backed-first s u w flags pg q e f (inr (k, a, b)) = inr (e ∙ k, a, omega (arith, f pg))

-- The page of the first round is not free in the later ones, whose pages are.
Backed-apart :
    (s u w : Space) (flags pg pg' q r : ℕ)
    → view s q % 2 ≢ 1
    → view u r % 2 ≢ 1
    → Backed s u flags pg q
    → Backed u w flags pg' r
    → pg ≢ pg'
Backed-apart s u w flags pg pg' q r nq nr (inl (p, k)) l e = nq p
Backed-apart s u w flags pg pg' q r nq nr (inr f) (inl (p, k)) e = nr p
Backed-apart s u w flags pg pg' q r nq nr (inr (k, a, b)) (inr (k', a', b')) e =
    a' (ap (λ (x : ℕ). count x u.free) (sym e) ∙ b)

out_next :
    (page n q next : ℕ)
    → next ≡ page + 1
    → (q < page) ⊎ (page + suc n ≤ q)
    → (q < next) ⊎ (next + n ≤ q)
out_next page n q next e (inl a) = inl (omega arith)
out_next page n q next e (inr a) = inr (omega arith)

out_here : (page n q : ℕ) → (q < page) ⊎ (page + suc n ≤ q) → q ≢ page
out_here page n q (inl a) e = omega arith
out_here page n q (inr a) e = omega arith

Round-then :
    (n : ℕ) (s u w : Space) (va flags : ℕ)
    → va + pgsize * suc n ≤ 2 ^ 47
    → Round s (va / pgsize) flags u
    → AllocMapped n u (va + pgsize) flags w
    → AllocMapped (suc n) s va flags w
Round-then n s u w va flags h r m =
    let next : (va + pgsize) / pgsize ≡ va / pgsize + 1 = omega arith in
    record {
      space = m.space;
      taken = λ q. if q == va / pgsize then r.taken else m.taken q;
      inside = λ q l lo hi. elim (split_eq q (va / pgsize)) [
        | inl e ↦
            let here : (q == va / pgsize) ≡ true = ground arith in
            rw here (
              subst (λ (x : ℕ). Backed s w flags r.taken x) (sym e)
                (Backed-first s u w flags r.taken (va / pgsize)
                  (m.outside (va / pgsize) (omega arith) (inl (omega arith))) m.fewer r.here))
        | inr ne ↦
            let later : (q == va / pgsize) ≡ false = ground arith in
            rw later (
              Backed-later s u w flags (m.taken q) q (r.others q l ne) r.fewer
                (m.inside q l (omega arith) (omega arith)))
      ];
      own = λ q x lo lt hi nq nx.
          let later : (x == va / pgsize) ≡ false = ground arith in
          let same = r.others x (omega arith) (omega arith) in
          let nx' : view u x % 2 ≢ 1 = λ z. nx (ap (λ (k : ℕ). k % 2) (sym same) ∙ z) in
          elim (split_eq q (va / pgsize)) [
            | inl e ↦
                let here : (q == va / pgsize) ≡ true = ground arith in
                rw (here, later)
                  (Backed-apart s u w flags r.taken (m.taken x) (va / pgsize) x
                    (subst (λ (k : ℕ). view s k % 2 ≢ 1) e nq) nx' r.here
                    (m.inside x (omega arith) (omega arith) (omega arith)))
            | inr ne ↦
                let rest : (q == va / pgsize) ≡ false = ground arith in
                let equal = r.others q (omega arith) ne in
                rw (rest, later)
                  (m.own q x (omega arith) lt (omega arith)
                    (λ z. nq (ap (λ (k : ℕ). k % 2) (sym equal) ∙ z)) nx')
          ];
      outside = λ q l out.
          m.outside q l (out_next (va / pgsize) n q _ next out)
          ∙ r.others q l (out_here (va / pgsize) n q out);
      fewer = λ pg. omega (arith, m.fewer pg, r.fewer pg);
    }

map_rest-true : (f : Space → Space × Bool) (r : Space × Bool) → r.1 ≡ true → map_rest f r ≡ f r.0
map_rest-true f (u, true) e = refl
map_rest-true f (u, false) e = absurd (cc)

alloc_map_page-Round :
    (s : Space) (va flags : ℕ)
    → va < 2 ^ 47
    → 4 ≤ length s.free
    → IsSpace s
    → Round s (va / pgsize) flags (alloc_map_page s va flags).0
      × ((alloc_map_page s va flags).1 ≡ true)
unfolding alloc_map_page
alloc_map_page-Round s va flags h k v =
    found-Round s va flags (lookup_entry s va) h k (lookup_entry-Found s va h v)

alloc_map_pages_round :
    (n : ℕ) (s : Space) (va flags : ℕ)
    → va + pgsize * n ≤ 2 ^ 47
    → 4 * n ≤ length s.free
    → IsSpace s
    → (u : Space) × (alloc_map_pages n s va flags ≡ (u, true)) × AllocMapped n s va flags u
unfolding alloc_map_pages
alloc_map_pages_round zero s va flags h k v = (
  s,
  refl,
  record {
    space = v;
    taken = λ q. 0;
    inside = λ q l lo hi. absurd (omega arith);
    own = λ q r lo lt hi nq nr. absurd (omega arith);
    outside = λ q l o. refl;
    fewer = λ pg. omega arith;
  },
)
alloc_map_pages_round (suc n) s va flags h k v =
    let b : (va + pgsize) % 2 ^ 64 ≡ va + pgsize = omega arith in
    let (r, t) = alloc_map_page-Round s va flags (omega arith) (omega arith) v in
    let u = (alloc_map_page s va flags).0 in
    let (w, e, m) =
      alloc_map_pages_round n u (va + pgsize) flags (omega arith) (omega (arith, r.kept)) r.space in
    (
      w,
      map_rest-true (λ x. alloc_map_pages n x ((va + pgsize) % 2 ^ 64) flags)
            (alloc_map_page s va flags) t
          ∙ ap (λ (y : ℕ). alloc_map_pages n u y flags) b
          ∙ e,
      Round-then n s u w va flags h r m,
    )

-- PMap_AllocMap on at most 2 ^ 19 pages of the user half, over well-formed tables and with four free pages
-- for each, returns true. Each page of the range that was present stays as it was; each other one has a
-- page of its own, different from those of the others, which was free and is not any more. No page outside the range changes, and the
-- tables are well formed.
pub alloc_map_pages_lem :
    (n : ℕ) (s : Space) (va flags : ℕ)
    → n ≤ 2 ^ 19
    → va + pgsize * n ≤ 2 ^ 47
    → 4 * n ≤ length s.free
    → IsSpace s
    → (u : Space) × (alloc_map_pages n s va flags ≡ (u, true)) × AllocMapped n s va flags u
alloc_map_pages_lem n s va flags int h k v = alloc_map_pages_round n s va flags h k v
