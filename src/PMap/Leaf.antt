-- ===== src/PMap/Leaf.antt =====
-- An entry of a table of the last level is written; or pages leave the free list.
use boring_os_ssaha.Prelude.{
  split_eq, Option-cases, ℕ, zero, suc, ◌+◌, ◌*◌, ◌/◌, ◌%◌, ◌^◌, ◌≤◌, ◌<◌, ◌≡◌, ◌≢◌, refl, sym, ap,
  ◌∙◌, arith, ◌==◌, if◌then◌else◌, Option, none, some, List, count, inl, inr,
}
use boring_os_ssaha.PMap.{Space, pagetable_entries, write}
use boring_os_ssaha.PMap.Walk.{child, walk, tables, entry_at, view, IsSpace}
use boring_os_ssaha.PMap.Grow.{tables-parent}

-- A write to a table of the last level.
module _ (s : Space) (p t i pte : ℕ) (v : IsSpace s) (inside : p < tables 3)
    (at : walk s 3 p ≡ some t) (small : i < pagetable_entries) where
  abbrev pub leaf : Space
  leaf = write s t i pte

  not_leaf : (m q x : ℕ) → m < 3 → q < tables m → walk s m q ≡ some x → x ≢ t
  not_leaf m q x h l e f = omega (
    arith,
    (v.placed m q x (omega arith) l e).0,
    (v.placed 3 p t (omega arith) inside at).0,
    ap v.level f,
  )

  leaf-child :
      (m q : ℕ)
      → m < 3
      → q < tables m
      → (j : ℕ) → child leaf j (walk s m q) ≡ child s j (walk s m q)
  leaf-child m q h l j = elim (Option-cases (walk s m q)) [
    | inl e ↦ rw e refl
    | inr (x, e) ↦ let ne = not_leaf m q x h l e in rw e (ground arith)
  ]

  pub leaf-walk : (m q : ℕ) → m < 4 → q < tables m → walk leaf m q ≡ walk s m q
  unfolding walk
  leaf-walk zero q h l = refl
  leaf-walk (suc m) q h l =
      let up = tables-parent m q (omega arith) l in
      ap (child leaf (q % pagetable_entries)) (leaf-walk m (q / pagetable_entries) (omega arith) up)
      ∙ leaf-child m (q / pagetable_entries) (omega arith) up (q % pagetable_entries)

  pub leaf-IsSpace : IsSpace leaf
  leaf-IsSpace = record {
    level = v.level;
    number = v.number;
    placed = λ m q x h l e. v.placed m q x h l (sym (leaf-walk m q h l) ∙ e);
    free_level = v.free_level;
    free_once = v.free_once;
    free_page = v.free_page;
    small = λ q x j l e h.
        let f = sym (leaf-walk 2 q (omega arith) l) ∙ e in
        ground (arith, not_leaf 2 q x (omega arith) l f, v.small q x j l f h);
  }

  not_here :
      (page : ℕ) (o : Option ℕ)
      → walk s 3 (page / pagetable_entries) ≡ o
      → o ≢ some t
      → page ≢ p * pagetable_entries + i
  not_here page o e ne f =
      let g : page / pagetable_entries ≡ p = omega arith in ne (sym e ∙ ap (walk s 3) g ∙ at)

  leaf_entry :
      (page : ℕ)
      → page / pagetable_entries < tables 3
      → entry_at leaf (page % pagetable_entries) (walk s 3 (page / pagetable_entries)) ≡ (
          if page == p * pagetable_entries + i
          then pte
          else entry_at s (page % pagetable_entries) (walk s 3 (page / pagetable_entries)))
  leaf_entry page l = elim (Option-cases (walk s 3 (page / pagetable_entries))) [
    | inl e ↦
        let ne : page ≢ p * pagetable_entries + i = not_here page none e (λ g. cc) in
        rw e (ground arith)
    | inr (x, e) ↦ elim (split_eq x t) [
      | inl same ↦
          let q_p : page / pagetable_entries ≡ p =
            sym (v.placed 3 (page / pagetable_entries) x (omega arith) l e).1
            ∙ ap v.number same
            ∙ (v.placed 3 p t (omega arith) inside at).1 in
          rw e (ground (arith, q_p, same))
      | inr other ↦
          let ne : page ≢ p * pagetable_entries + i =
            not_here page (some x) e (λ g. ground (arith, other)) in
          rw e (ground (arith, other))
    ]
  ]

  pub leaf-view :
      (page : ℕ)
      → page < 2 ^ 35
      → view leaf page ≡ (if page == p * pagetable_entries + i then pte else view s page)
  unfolding view
  leaf-view page l =
      let q : page / pagetable_entries < tables 3 = omega arith in
      ap (entry_at leaf (page % pagetable_entries))
        (leaf-walk 3 (page / pagetable_entries) (omega arith) q)
      ∙ leaf_entry page q

-- The entry of a page whose table was found.
pub view_at :
    (s : Space) (page t : ℕ)
    → walk s 3 (page / pagetable_entries) ≡ some t
    → view s page ≡ s.entries t (page % pagetable_entries)
unfolding view
view_at s page t e = ap (entry_at s (page % pagetable_entries)) e

-- The same space with other free pages.
abbrev pub freed : Space → List ℕ → Space
freed s l = record s { free = l }

pub freed-walk : (s : Space) (l : List ℕ) (n p : ℕ) → walk (freed s l) n p ≡ walk s n p
unfolding walk
freed-walk s l zero p = refl
freed-walk s l (suc n) p =
    ap (child s (p % pagetable_entries)) (freed-walk s l n (p / pagetable_entries))

pub freed-view : (s : Space) (l : List ℕ) (q : ℕ) → view (freed s l) q ≡ view s q
unfolding view
freed-view s l q =
    ap (entry_at s (q % pagetable_entries)) (freed-walk s l 3 (q / pagetable_entries))

pub freed-IsSpace :
    (s : Space) (l : List ℕ)
    → ((pg : ℕ) → count pg l ≤ count pg s.free)
    → IsSpace s
    → IsSpace (freed s l)
freed-IsSpace s l h v = record {
  level = v.level;
  number = v.number;
  placed = λ m q x a b e. v.placed m q x a b (sym (freed-walk s l m q) ∙ e);
  free_level = λ pg z. v.free_level pg (λ y. z (omega (arith, h pg)));
  free_once = λ pg. omega (arith, h pg, v.free_once pg);
  free_page = λ pg z. v.free_page pg (λ y. z (omega (arith, h pg)));
  small = λ q x j a e b. v.small q x j a (sym (freed-walk s l 2 q) ∙ e) b;
}
