-- ===== src/PMap/Lookup.antt =====
-- What PMapLookupEntry does to the tree of tables.
use boring_os_ssaha.Prelude.{
  split_eq, ℕ, suc, ◌+◌, ◌*◌, ◌/◌, ◌%◌, ◌^◌, ◌≤◌, ◌<◌, ◌≡◌, refl, ap, ◌∙◌, subst, arith, ◌==◌,
  false, Option, none, some, List, [], ◌∷◌, count, length, inl, inr,
}
use boring_os_ssaha.PMap.{
  Space, table_of, pagetable_entries, follow, descend, link, index, alloc_page_table, then_descend,
  lookup_large, lookup_entry,
}
use boring_os_ssaha.PMap.Entry.{table_of-entry_of}
use boring_os_ssaha.PMap.Walk.{walk, tables, view, IsSpace}
use boring_os_ssaha.PMap.Grow.{made-IsSpace, made-view, made-walk}

-- The space `u` comes from `s` by at most `k` new tables; no page of the user half has changed.
pub record Grown (k : ℕ) (s u : Space) : Type 0 where
  pub space : IsSpace u
  pub root : u.root ≡ s.root
  pub same : (page : ℕ) → page < 2 ^ 35 → view u page ≡ view s page
  pub free : length s.free ≤ length u.free + k
  pub fewer : (pg : ℕ) → count pg u.free ≤ count pg s.free

-- A table of level `n` was found at the number `p`; or memory ran out.
abbrev pub Found : ℕ → Space → ℕ → ℕ → Space × Option ℕ → Type 0
Found k s n p (u, none) = Grown k s u × (length u.free ≡ 0)
Found k s n p (u, some t) = Grown k s u × (walk u n p ≡ some t)

Grown-refl : (s : Space) → IsSpace s → Grown 1 s s
Grown-refl s v = record {
  space = v;
  root = refl;
  same = λ page l. refl;
  free = omega arith;
  fewer = λ pg. omega arith;
}

module _ (s : Space) (n p table i : ℕ) (v : IsSpace s) (deep : n < 3) (inside : p < tables n)
    (at : walk s n p ≡ some table) (small : i < pagetable_entries)
    (fits : p * pagetable_entries + i < tables (suc n)) where
  walk_next : walk s (suc n) (p * pagetable_entries + i) ≡ follow s table i
  unfolding walk
  walk_next =
      let a : (p * pagetable_entries + i) / pagetable_entries ≡ p = omega arith in
      let b : (p * pagetable_entries + i) % pagetable_entries ≡ i = omega arith in
      rw (a, b, at) refl

  grow-Found :
      (l : List ℕ)
      → s.free ≡ l
      → s.entries table i ≡ 0
      → Found 1 s (suc n) (p * pagetable_entries + i) (link table i (alloc_page_table s l))
  grow-Found [] f e = (Grown-refl s v, ap length f)
  grow-Found (pg ∷ rest) f e =
      let v' = made-IsSpace s n p table i pg rest v f deep inside at small e in
      let page = v.free_page pg (λ z. ground (arith, f)) in
      (
        record {
          space = v';
          root = refl;
          same = made-view s n p table i pg rest v f deep inside at small e;
          free = omega (arith, ap length f);
          fewer = λ x. omega (arith, ap (count x) f);
        },
        made-walk s n p table i pg rest v f deep inside at small e (suc n)
              (p * pagetable_entries + i) (omega arith) fits
            ∙ ground (arith, table_of-entry_of pg page),
      )

  pub descend-Found : Found 1 s (suc n) (p * pagetable_entries + i) (descend s table i)
  unfolding descend
  descend-Found = elim (split_eq (s.entries table i) 0) [
    | inl e ↦ rw e (grow-Found s.free refl e)
    | inr ne ↦
        let b : (s.entries table i == 0) ≡ false = ground arith in
        let w : follow s table i ≡ some (table_of (s.entries table i)) = ground arith in
        rw b (Grown-refl s v, walk_next ∙ w)
  ]

Grown-trans : (k : ℕ) (s u w : Space) → Grown k s u → Grown 1 u w → Grown (k + 1) s w
Grown-trans k s u w a b = record {
  space = b.space;
  root = b.root ∙ a.root;
  same = λ page l. b.same page l ∙ a.same page l;
  free = omega (arith, a.free, b.free);
  fewer = λ pg. omega (arith, a.fewer pg, b.fewer pg);
}

Found-weaken :
    (k : ℕ) (s u : Space) (n p : ℕ) (r : Space × Option ℕ)
    → Grown k s u
    → Found 1 u n p r
    → Found (k + 1) s n p r
Found-weaken k s u n p (w, none) g (h, e) = (Grown-trans k s u w g h, e)
Found-weaken k s u n p (w, some t) g (h, e) = (Grown-trans k s u w g h, e)

Found-step :
    (k : ℕ) (s : Space) (n p i : ℕ) (r : Space × Option ℕ)
    → n < 3
    → p < tables n
    → i < pagetable_entries
    → p * pagetable_entries + i < tables (suc n)
    → Found k s n p r
    → Found (k + 1) s (suc n) (p * pagetable_entries + i) (then_descend i r)
Found-step k s n p i (u, none) h l m f (g, e) = (Grown-trans k s u u g (Grown-refl u g.space), e)
Found-step k s n p i (u, some t) h l m f (g, e) =
    Found-weaken k s u (suc n) (p * pagetable_entries + i) (descend u t i) g
      (descend-Found u n p t i g.space h l e m f)

lookup_large-Found :
    (s : Space) (va : ℕ) → va < 2 ^ 47 → IsSpace s → Found 2 s 2 (va / 2 ^ 30) (lookup_large s va)
unfolding lookup_large walk
lookup_large-Found s va h v =
    let a : va / 2 ^ 39 * pagetable_entries + index va (2 ^ 30) ≡ va / 2 ^ 30 = omega arith in
    let b : 0 * pagetable_entries + index va (2 ^ 39) ≡ va / 2 ^ 39 = omega arith in
    let one : Found 1 s 1 (va / 2 ^ 39) (descend s s.root (index va (2 ^ 39))) =
      subst (λ (p : ℕ). Found 1 s 1 p (descend s s.root (index va (2 ^ 39)))) b
        (descend-Found s 0 0 s.root (index va (2 ^ 39)) v (omega arith) (omega arith) refl
          (omega arith) (omega arith)) in
    subst (λ (p : ℕ). Found 2 s 2 p (lookup_large s va)) a
      (Found-step 1 s 1 (va / 2 ^ 39) (index va (2 ^ 30)) (descend s s.root (index va (2 ^ 39)))
        (omega arith) (omega arith) (omega arith) (omega arith) one)

-- PMapLookupEntry finds the table of the page, or fails when no page is free.
pub lookup_entry-Found :
    (s : Space) (va : ℕ) → va < 2 ^ 47 → IsSpace s → Found 3 s 3 (va / 2 ^ 21) (lookup_entry s va)
unfolding lookup_entry
lookup_entry-Found s va h v =
    let a : va / 2 ^ 30 * pagetable_entries + index va (2 ^ 21) ≡ va / 2 ^ 21 = omega arith in
    subst (λ (p : ℕ). Found 3 s 3 p (lookup_entry s va)) a
      (Found-step 2 s 2 (va / 2 ^ 30) (index va (2 ^ 21)) (lookup_large s va) (omega arith)
        (omega arith) (omega arith) (omega arith) (lookup_large-Found s va h v))
