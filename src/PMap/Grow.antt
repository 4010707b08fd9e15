-- ===== src/PMap/Grow.antt =====
-- A new table in the tree of tables, as PMapLookupEntry links it.
use boring_os_ssaha.Prelude.{
  split_eq, Option-cases, ℕ, zero, suc, ◌+◌, ◌*◌, ◌/◌, ◌%◌, ◌^◌, ◌≤◌, ◌<◌, ◌≡◌, ◌≢◌, sym, ap, ◌∙◌,
  arith, ◌==◌, if◌then◌else◌, Option, none, some, List, ◌∷◌, update, count, inl, inr, ◌⊎◌,
}
use boring_os_ssaha.PMap.{Space, entry_of, pagetable_entries, pte_ps, follow}
use boring_os_ssaha.PMap.Entry.{table_of-entry_of, entry_of-nonzero, entry_of-small}
use boring_os_ssaha.PMap.Walk.{child, walk, tables, entry_at, view, IsSpace}

pub tables-parent : (m q : ℕ) → m < 3 → q < tables (suc m) → q / pagetable_entries < tables m
tables-parent zero q h l = omega arith
tables-parent (suc zero) q h l = omega arith
tables-parent (suc (suc zero)) q h l = omega arith
tables-parent (suc (suc (suc m))) q h l = absurd (omega arith)

-- The table `pg` is new under the entry `i`, which is 0, of the table with the number `p`.
module _ (s : Space) (n p table i pg : ℕ) (rest : List ℕ) (v : IsSpace s)
    (free : s.free ≡ pg ∷ rest) (deep : n < 3) (inside : p < tables n)
    (at : walk s n p ≡ some table) (small : i < pagetable_entries)
    (empty : s.entries table i ≡ 0) where
  abbrev pub made : Space
  made = record s {
    entries =
        update (update s.entries pg (λ j. 0)) table
          (update (update s.entries pg (λ j. 0) table) i (entry_of pg));
    free = rest;
  }

  -- The walk over the new tree.
  abbrev pub walk_spec : ℕ → ℕ → Option ℕ
  walk_spec m q =
      if m == suc n
      then (if q == p * pagetable_entries + i then some pg else walk s m q)
      else walk s m q

  pg_free : count pg s.free ≢ 0
  pg_free e = ground (arith, free)

  pg-table : pg ≢ table
  pg-table e =
      omega (
        arith,
        v.free_level pg pg_free,
        (v.placed n p table (omega arith) inside at).0,
        ap v.level e,
      )

  old_none : walk s (suc n) (p * pagetable_entries + i) ≡ none
  unfolding walk
  old_none =
      let a : (p * pagetable_entries + i) / pagetable_entries ≡ p = omega arith in
      let b : (p * pagetable_entries + i) % pagetable_entries ≡ i = omega arith in
      rw (a, b, at) (ground arith)

  new_child : (j : ℕ) → follow made pg j ≡ none
  new_child j = ground (arith, pg-table)

  step_none :
      (m q : ℕ)
      → walk s m (q / pagetable_entries) ≡ none
      → child made (q % pagetable_entries) (walk_spec m (q / pagetable_entries))
        ≡ walk_spec (suc m) q
  unfolding walk
  step_none m q e = ground (arith, at, new_child (q % pagetable_entries))

  spec_old : (m q t : ℕ) → walk s m q ≡ some t → walk_spec m q ≡ some t
  spec_old m q t e = ground (arith, old_none)

  old_child : (t j : ℕ) → t ≢ pg → t ≢ table → follow made t j ≡ follow s t j
  old_child t j a b = ground arith

  other_entry : (j : ℕ) → j ≢ i → follow made table j ≡ follow s table j
  other_entry j ne = ground (arith, pg-table)

  new_entry : follow made table i ≡ some pg
  new_entry = ground (
    arith,
    pg-table,
    entry_of-nonzero pg (v.free_page pg pg_free),
    table_of-entry_of pg (v.free_page pg pg_free),
  )

  step_entry :
      (q : ℕ)
      → q / pagetable_entries ≡ p
      → child made (q % pagetable_entries) (some table) ≡ (
          if q == p * pagetable_entries + i
          then some pg
          else follow s table (q % pagetable_entries))
  step_entry q e = elim (split_eq (q % pagetable_entries) i) [
    | inl a ↦ rw a (new_entry ∙ ground arith)
    | inr b ↦ other_entry (q % pagetable_entries) b ∙ ground arith
  ]

  step_other :
      (m q t : ℕ)
      → m < 3
      → q / pagetable_entries < tables m
      → walk s m (q / pagetable_entries) ≡ some t
      → t ≢ table
      → follow s t (q % pagetable_entries) ≡ walk_spec (suc m) q
  unfolding walk
  step_other m q t h l e ne = ground (arith, at)

  step_some :
      (m q t : ℕ)
      → m < 3
      → q / pagetable_entries < tables m
      → walk s m (q / pagetable_entries) ≡ some t
      → child made (q % pagetable_entries) (walk_spec m (q / pagetable_entries))
        ≡ walk_spec (suc m) q
  unfolding walk
  step_some m q t h l e =
      let o = spec_old m (q / pagetable_entries) t e in
      elim (split_eq t table) [
        | inl same ↦
            let (a, b) = v.placed m (q / pagetable_entries) t (omega arith) l e in
            let (c, d) = v.placed n p table (omega arith) inside at in
            let m_n : m ≡ n = sym a ∙ ap v.level same ∙ c in
            let q_p : q / pagetable_entries ≡ p = sym b ∙ ap v.number same ∙ d in
            rw o (rw same (step_entry q q_p ∙ ground (arith, m_n, q_p, e, same)))
        | inr ne ↦ rw o (
            old_child t (q % pagetable_entries)
              (λ f. omega (
                arith,
                v.free_level pg pg_free,
                (v.placed m (q / pagetable_entries) t (omega arith) l e).0,
                ap v.level f,
              ))
              ne
            ∙ step_other m q t h l e ne)
      ]

  made_step :
      (m q : ℕ)
      → m < 3
      → q < tables (suc m)
      → child made (q % pagetable_entries) (walk_spec m (q / pagetable_entries))
        ≡ walk_spec (suc m) q
  made_step m q h l = elim (Option-cases (walk s m (q / pagetable_entries))) [
    | inl e ↦ step_none m q e
    | inr (t, e) ↦ step_some m q t h (tables-parent m q h l) e
  ]

  pub made-walk : (m q : ℕ) → m < 4 → q < tables m → walk made m q ≡ walk_spec m q
  unfolding walk
  made-walk zero q h l = ground arith
  made-walk (suc m) q h l =
      ap (child made (q % pagetable_entries))
        (made-walk m (q / pagetable_entries) (omega arith) (tables-parent m q (omega arith) l))
      ∙ made_step m q (omega arith) l

  count_rest : (x : ℕ) → count x rest ≢ 0 → (x ≢ pg) × (count x s.free ≢ 0)
  count_rest x h = (λ e. ground (arith, v.free_once pg, free), λ e. ground (arith, free))

  rest_once : (x : ℕ) → count x rest ≤ 1
  rest_once x = ground (arith, v.free_once x, free)

  spec_cases :
      (m q t : ℕ)
      → walk_spec m q ≡ some t
      → ((t ≡ pg) × (m ≡ suc n) × (q ≡ p * pagetable_entries + i)) ⊎ (walk s m q ≡ some t)
  spec_cases m q t e = ground arith

  not_pg : (m q t : ℕ) → m < 4 → q < tables m → walk s m q ≡ some t → t ≢ pg
  not_pg m q t h l e f =
      omega (arith, v.free_level pg pg_free, (v.placed m q t h l e).0, ap v.level f)

  made_placed :
      (m q t : ℕ)
      → m < 4
      → q < tables m
      → walk_spec m q ≡ some t
      → (update v.level pg (suc n) t ≡ m) × (update v.number pg (p * pagetable_entries + i) t ≡ q)
  made_placed m q t h l e = elim (spec_cases m q t e) [
    | inl (a, b, c) ↦ (ground arith, ground arith)
    | inr f ↦ let ne = not_pg m q t h l f in ground (arith, ne, v.placed m q t h l f)
  ]

  made_small :
      (q t j : ℕ)
      → q < tables 2
      → walk_spec 2 q ≡ some t
      → j < pagetable_entries
      → made.entries t j / pte_ps % 2 ≡ 0
  made_small q t j l e h = elim (spec_cases 2 q t e) [
    | inl (a, b, c) ↦ ground (arith, pg-table)
    | inr f ↦ ground (
      arith,
      not_pg 2 q t (omega arith) l f,
      v.small q t j l f h,
      entry_of-small pg (v.free_page pg pg_free),
    )
  ]

  pub made-IsSpace : IsSpace made
  made-IsSpace = record {
    level = update v.level pg (suc n);
    number = update v.number pg (p * pagetable_entries + i);
    placed = λ m q t h l e. made_placed m q t h l (sym (made-walk m q h l) ∙ e);
    free_level = λ x h. ground (arith, count_rest x h, v.free_level x);
    free_once = rest_once;
    free_page = λ x h. v.free_page x (count_rest x h).1;
    small = λ q t j l e h. made_small q t j l (sym (made-walk 2 q (omega arith) l) ∙ e) h;
  }

  entry_old :
      (page t : ℕ)
      → page / pagetable_entries < tables 3
      → walk s 3 (page / pagetable_entries) ≡ some t
      → made.entries t (page % pagetable_entries) ≡ s.entries t (page % pagetable_entries)
  entry_old page t l e =
      let (a, b) = v.placed 3 (page / pagetable_entries) t (omega arith) l e in
      let (c, d) = v.placed n p table (omega arith) inside at in
      let ne : t ≢ table = λ f. omega (arith, a, c, ap v.level f) in
      ground (arith, not_pg 3 (page / pagetable_entries) t (omega arith) l e, ne)

  view_spec :
      (page : ℕ)
      → page / pagetable_entries < tables 3
      → entry_at made (page % pagetable_entries) (walk_spec 3 (page / pagetable_entries))
        ≡ entry_at s (page % pagetable_entries) (walk s 3 (page / pagetable_entries))
  view_spec page l = elim (Option-cases (walk s 3 (page / pagetable_entries))) [
    | inl e ↦ ground (arith, pg-table)
    | inr (t, e) ↦ rw (spec_old 3 (page / pagetable_entries) t e, e) (entry_old page t l e)
  ]

  pub made-view : (page : ℕ) → page < 2 ^ 35 → view made page ≡ view s page
  unfolding view
  made-view page l =
      let q : page / pagetable_entries < tables 3 = omega arith in
      ap (entry_at made (page % pagetable_entries))
        (made-walk 3 (page / pagetable_entries) (omega arith) q)
      ∙ view_spec page q
