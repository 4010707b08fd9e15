-- ===== src/PMap/Map.antt =====
-- PMap_Map: what a mapping does to the address space, and what PMap_Translate makes of it.
use boring_os_ssaha.Prelude.{
  split_eq, ℕ, zero, suc, ◌+◌, ◌-◌, ◌*◌, ◌/◌, ◌%◌, ◌^◌, ◌≤◌, ◌<◌, ◌≡◌, refl, ap, ◌∙◌, arith, ◌==◌,
  if◌then◌else◌, leb, ltb, ◌&&◌, Bool, true, false, Option, none, some, length, inl, inr,
}
use native.Mathlib.Decide.{dec_lt}
use boring_os_ssaha.PAlloc.{pgsize}
use boring_os_ssaha.PMap.{
  Space, pagetable_entries, write_found, index, lookup_entry, user_entry, map_page, map_pages,
  map_rest,
}
use boring_os_ssaha.PMap.Walk.{view, IsSpace}
use boring_os_ssaha.PMap.Leaf.{leaf-IsSpace, leaf-view}
use boring_os_ssaha.PMap.Lookup.{Found, lookup_entry-Found}

-- One round: the page has its entry, or the kernel has stopped for want of a page, and no page has
-- changed.
abbrev Round : Space → ℕ → ℕ → Space × Bool → Type 0
Round s page pte (u, true) =
    IsSpace u
    × ((q : ℕ) → q < 2 ^ 35 → view u q ≡ (if q == page then pte else view s q))
    × (length s.free ≤ length u.free + 3)
Round s page pte (u, false) =
    IsSpace u × ((q : ℕ) → q < 2 ^ 35 → view u q ≡ view s q) × (length s.free ≤ 3)

write_found-Round :
    (s : Space) (va pte : ℕ) (r : Space × Option ℕ)
    → va < 2 ^ 47
    → Found 3 s 3 (va / 2 ^ 21) r
    → Round s (va / pgsize) pte (write_found (index va pgsize) pte r)
write_found-Round s va pte (u, none) h (g, e) = (g.space, g.same, omega (arith, g.free))
write_found-Round s va pte (u, some t) h (g, e) =
    let page : va / 2 ^ 21 * pagetable_entries + index va pgsize ≡ va / pgsize = omega arith in
    (
      leaf-IsSpace u (va / 2 ^ 21) t (index va pgsize) pte g.space (omega arith) e (omega arith),
      λ q l.
          leaf-view u (va / 2 ^ 21) t (index va pgsize) pte g.space (omega arith) e (omega arith) q
            l
          ∙ rw (page, g.same q l) refl,
      g.free,
    )

map_page-Round :
    (s : Space) (phys va flags : ℕ)
    → va < 2 ^ 47
    → IsSpace s
    → Round s (va / pgsize) (user_entry phys flags) (map_page s phys va flags)
unfolding map_page
map_page-Round s phys va flags h v =
    write_found-Round s va (user_entry phys flags) (lookup_entry s va) h
      (lookup_entry-Found s va h v)

-- The view of a space in which `done` pages from `va` on are mapped to those from `phys` on.
abbrev pub mapped : Space → ℕ → ℕ → ℕ → ℕ → ℕ → ℕ
mapped s phys va flags done q =
    if leb (va / pgsize) q && ltb q (va / pgsize + done)
    then user_entry (phys + (q - va / pgsize) * pgsize) flags
    else view s q

-- A call that was asked for `n` pages maps the first `done` of them: all, if it returns true; if the
-- kernel stops (false), there were at most three free pages for each page asked for.
pub record Mapped (n : ℕ) (s : Space) (phys va flags : ℕ) (u : Space) (ok : Bool) : Type 0 where
  pub done : ℕ
  pub bounded : done ≤ n
  pub complete : ok ≡ true → done ≡ n
  pub space : IsSpace u
  pub pages : (q : ℕ) → q < 2 ^ 35 → view u q ≡ mapped s phys va flags done q
  pub failed : ok ≡ false → length s.free ≤ 3 * n

mapped_step :
    (s u : Space) (phys va flags done : ℕ)
    → ((q : ℕ)
        → q < 2 ^ 35
        → view u q ≡ (if q == va / pgsize then user_entry phys flags else view s q))
    → (q : ℕ) → q < 2 ^ 35
    → mapped u (phys + pgsize) (va + pgsize) flags done q ≡ mapped s phys va flags (suc done) q
mapped_step s u phys va flags done w q l =
    let next : (va + pgsize) / pgsize ≡ va / pgsize + 1 = omega arith in
    rw next (elim (dec_lt (va / pgsize) q) [
      | yes lt ↦
          let address : phys + pgsize + (q - (va / pgsize + 1)) * pgsize
              ≡ phys + (q - va / pgsize) * pgsize =
            omega arith in
          rw address (ground (arith, w q l))
      | no ge ↦ elim (split_eq q (va / pgsize)) [
        | inl e ↦
            let z : phys + (q - va / pgsize) * pgsize ≡ phys = omega arith in
            rw z (ground (arith, w q l))
        | inr ne ↦ ground (arith, w q l)
      ]
    ])

map_rest-Mapped :
    (n : ℕ) (s : Space) (phys va flags : ℕ) (r : Space × Bool) (rest : Space → Space × Bool)
    → Round s (va / pgsize) (user_entry phys flags) r
    → ((u : Space)
        → IsSpace u
        → Mapped n u (phys + pgsize) (va + pgsize) flags (rest u).0 (rest u).1)
    → Mapped (suc n) s phys va flags (map_rest rest r).0 (map_rest rest r).1
map_rest-Mapped n s phys va flags (u, false) rest (w, same, f) ih = record {
  done = 0;
  bounded = omega arith;
  complete = λ e. absurd (cc);
  space = w;
  pages = λ q l. same q l ∙ ground arith;
  failed = λ e. omega arith;
}
map_rest-Mapped n s phys va flags (u, true) rest (w, now, f) ih =
    let m = ih u w in
    record {
      done = suc m.done;
      bounded = omega (arith, m.bounded);
      complete = λ e. ap suc (m.complete e);
      space = m.space;
      pages = λ q l. m.pages q l ∙ mapped_step s u phys va flags m.done now q l;
      failed = λ e. omega (arith, m.failed e);
    }

map_pages_round :
    (n : ℕ) (s : Space) (phys va flags : ℕ)
    → va + pgsize * n ≤ 2 ^ 47
    → phys + pgsize * n ≤ 2 ^ 63
    → IsSpace s
    → Mapped n s phys va flags (map_pages n s phys va flags).0 (map_pages n s phys va flags).1
unfolding map_pages
map_pages_round zero s phys va flags h k v = record {
  done = 0;
  bounded = omega arith;
  complete = λ e. refl;
  space = v;
  pages = λ q l. ground arith;
  failed = λ e. absurd (cc);
}
map_pages_round (suc n) s phys va flags h k v =
    let a : (phys + pgsize) % 2 ^ 64 ≡ phys + pgsize = omega arith in
    let b : (va + pgsize) % 2 ^ 64 ≡ va + pgsize = omega arith in
    rw (a, b)
      (map_rest-Mapped n s phys va flags (map_page s phys va flags)
        (λ t. map_pages n t (phys + pgsize) (va + pgsize) flags)
        (map_page-Round s phys va flags (omega arith) v)
        (λ u w.
          map_pages_round n u (phys + pgsize) (va + pgsize) flags (omega arith) (omega arith) w))

-- PMap_Map of at most 2 ^ 19 pages of the user half, below 2 ^ 63 physically, over well-formed tables
-- returns true and has mapped each of them as asked, or the kernel stops in PAlloc_AllocPage, with
-- the pages before that one mapped; then there were at most three free pages for each page asked for. All
-- other pages are as before, and the tables are well formed.
pub map_pages-Mapped :
    (n : ℕ) (s : Space) (phys va flags : ℕ)
    → n ≤ 2 ^ 19
    → va + pgsize * n ≤ 2 ^ 47
    → phys + pgsize * n ≤ 2 ^ 63
    → IsSpace s
    → Mapped n s phys va flags (map_pages n s phys va flags).0 (map_pages n s phys va flags).1
map_pages-Mapped n s phys va flags int h k v = map_pages_round n s phys va flags h k v
