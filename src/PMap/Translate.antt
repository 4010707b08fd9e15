-- ===== src/PMap/Translate.antt =====
-- PMap_Translate reads the mappings that PMap_Map makes.
use boring_os_ssaha.Prelude.{
  Option-cases, ℕ, ◌+◌, ◌-◌, ◌*◌, ◌/◌, ◌%◌, ◌^◌, ◌≤◌, ◌<◌, ◌≡◌, ◌≢◌, refl, sym, ap, ◌∙◌, arith, leb,
  ltb, true, false, Option, none, some, inl, inr, ◌⊎◌, bit_or_step,
}
use boring_os_ssaha.PAlloc.{pgsize}
use boring_os_ssaha.PMap.{
  Space, pagetable_entries, follow, index, user_entry, map_pages, translate, small_address,
  translate_large, then_follow,
}
use boring_os_ssaha.PMap.Entry.{user_entry_address, user_entry_value}
use boring_os_ssaha.PMap.Walk.{child, walk, entry_at, view, IsSpace}
use boring_os_ssaha.PMap.Map.{mapped, map_pages-Mapped}

then_follow-child : (s : Space) (i : ℕ) (o : Option ℕ) → then_follow s i o ≡ child s i o
then_follow-child s i none = refl
then_follow-child s i (some t) = refl

-- The first two levels are the walk.
follow_large :
    (s : Space) (va : ℕ)
    → then_follow s (index va (2 ^ 30)) (follow s s.root (index va (2 ^ 39)))
      ≡ walk s 2 (va / 2 ^ 30)
unfolding walk
follow_large s va =
    let a : va / 2 ^ 30 / pagetable_entries % pagetable_entries ≡ index va (2 ^ 39) = omega arith in
    then_follow-child s (index va (2 ^ 30)) (follow s s.root (index va (2 ^ 39)))
    ∙ ap (λ (j : ℕ). child s (index va (2 ^ 30)) (follow s s.root j)) (sym a)

view_large :
    (s : Space) (va : ℕ)
    → view s (va / pgsize)
      ≡ entry_at s (index va pgsize) (child s (index va (2 ^ 21)) (walk s 2 (va / 2 ^ 30)))
unfolding view walk
view_large s va =
    let a : va / pgsize / pagetable_entries ≡ va / 2 ^ 21 = omega arith in
    let b : va / 2 ^ 21 / pagetable_entries ≡ va / 2 ^ 30 = omega arith in
    ap (λ (j : ℕ). entry_at s (index va pgsize) (walk s 3 j)) a
    ∙ ap (λ (j : ℕ). entry_at s (index va pgsize) (child s (index va (2 ^ 21)) (walk s 2 j))) b

translate_walk :
    (s : Space) (va x t : ℕ)
    → va < 2 ^ 47
    → IsSpace s
    → walk s 2 (va / 2 ^ 30) ≡ some x
    → follow s x (index va (2 ^ 21)) ≡ some t
    → translate_large s va (some x) ≡ some (small_address (s.entries t (index va pgsize)) va)
translate_walk s va x t h v e f =
    let small = v.small (va / 2 ^ 30) x (index va (2 ^ 21)) (omega arith) e (omega arith) in
    ground arith

translate_found :
    (s : Space) (va x : ℕ)
    → va < 2 ^ 47
    → IsSpace s
    → walk s 2 (va / 2 ^ 30) ≡ some x
    → entry_at s (index va pgsize) (follow s x (index va (2 ^ 21))) ≢ 0
    → translate_large s va (some x)
      ≡ some (small_address (entry_at s (index va pgsize) (follow s x (index va (2 ^ 21)))) va)
translate_found s va x h v e ne = elim (Option-cases (follow s x (index va (2 ^ 21)))) [
  | inl f ↦ absurd (ne (ap (entry_at s (index va pgsize)) f))
  | inr (t, f) ↦
      translate_walk s va x t h v e f
      ∙ ap (λ (o : Option ℕ). some (small_address (entry_at s (index va pgsize) o) va)) (sym f)
]

translate_view_from :
    (s : Space) (va : ℕ) (o : Option ℕ)
    → va < 2 ^ 47
    → IsSpace s
    → walk s 2 (va / 2 ^ 30) ≡ o
    → entry_at s (index va pgsize) (child s (index va (2 ^ 21)) o) ≢ 0
    → translate_large s va o
      ≡ some (small_address (entry_at s (index va pgsize) (child s (index va (2 ^ 21)) o)) va)
translate_view_from s va none h v e ne = absurd (ne refl)
translate_view_from s va (some x) h v e ne = translate_found s va x h v e ne

-- An address of the user half whose page has an entry is translated by that entry.
pub translate-view :
    (s : Space) (va : ℕ)
    → va < 2 ^ 47
    → IsSpace s
    → view s (va / pgsize) ≢ 0
    → translate s va ≡ some (small_address (view s (va / pgsize)) va)
unfolding translate
translate-view s va h v ne =
    ap (translate_large s va) (follow_large s va)
    ∙ translate_view_from s va (walk s 2 (va / 2 ^ 30)) h v refl (λ z. ne (view_large s va ∙ z))
    ∙ ap (λ (pte : ℕ). some (small_address pte va)) (sym (view_large s va))

user_entry-nonzero : (x flags : ℕ) → flags < pgsize → x % pgsize ≡ 0 → user_entry x flags ≢ 0
user_entry-nonzero x flags h a z =
    let e : x ≡ x / pgsize * pgsize = omega arith in
    let f = (user_entry_value (x / pgsize) flags h).0 in
    let g : user_entry (x / pgsize * pgsize) flags ≡ 0 =
      ap (λ (y : ℕ). user_entry y flags) (sym e) ∙ z in
    omega (arith, f, g, bit_or_step 7 flags)

-- The entry of a page of the range, and of a page outside.
mapped_in :
    (n : ℕ) (s : Space) (phys va flags a : ℕ)
    → va % pgsize ≡ 0
    → va ≤ a
    → a < va + pgsize * n
    → mapped s phys va flags n (a / pgsize)
      ≡ user_entry (phys + (a / pgsize - va / pgsize) * pgsize) flags
mapped_in n s phys va flags a al lo hi =
    let x : leb (va / pgsize) (a / pgsize) ≡ true = ground arith in
    let y : ltb (a / pgsize) (va / pgsize + n) ≡ true = ground arith in rw (x, y) refl

mapped_out :
    (n : ℕ) (s : Space) (phys va flags a : ℕ)
    → va % pgsize ≡ 0
    → (a < va) ⊎ (va + pgsize * n ≤ a)
    → mapped s phys va flags n (a / pgsize) ≡ view s (a / pgsize)
mapped_out n s phys va flags a al (inl lo) =
    let x : leb (va / pgsize) (a / pgsize) ≡ false = ground arith in rw x refl
mapped_out n s phys va flags a al (inr hi) =
    let y : ltb (a / pgsize) (va / pgsize + n) ≡ false = ground arith in rw y (ground arith)

-- After a PMap_Map over well-formed tables that returned true, of at most 2 ^ 19 pages of the user half,
-- below 2 ^ 63 physically, from page-aligned addresses and with flags of the low 12 bits, PMap_Translate takes each address of the range to its place in
-- the physical range, and each other address of the user half that had a page to where it was.
pub translate-map_pages :
    (n : ℕ) (s : Space) (phys va flags a : ℕ)
    → n ≤ 2 ^ 19
    → va + pgsize * n ≤ 2 ^ 47
    → phys + pgsize * n ≤ 2 ^ 63
    → va % pgsize ≡ 0
    → phys % pgsize ≡ 0
    → flags < pgsize
    → a < 2 ^ 47
    → IsSpace s
    → (map_pages n s phys va flags).1 ≡ true
    → (va ≤ a
        → a < va + pgsize * n
        → translate (map_pages n s phys va flags).0 a ≡ some (phys + (a - va)))
      × ((a < va) ⊎ (va + pgsize * n ≤ a)
          → view s (a / pgsize) ≢ 0
          → translate (map_pages n s phys va flags).0 a ≡ translate s a)
translate-map_pages n s phys va flags a int h k al pl f l v ok =
    let m = map_pages-Mapped n s phys va flags int h k v in
    let u = (map_pages n s phys va flags).0 in
    let p =
      m.pages (a / pgsize) (omega arith)
      ∙ ap (λ (d : ℕ). mapped s phys va flags d (a / pgsize)) (m.complete ok) in
    (
      λ lo hi.
          let x = phys + (a / pgsize - va / pgsize) * pgsize in
          let e = p ∙ mapped_in n s phys va flags a al lo hi in
          let ne = user_entry-nonzero x flags f (omega arith) in
          translate-view u a l m.space (λ z. ne (sym e ∙ z))
          ∙ ap (λ (pte : ℕ). some (small_address pte a)) e
          ∙ ap some (user_entry_address x flags a (omega arith) (omega arith) f ∙ omega arith),
      λ out ne.
          let e = p ∙ mapped_out n s phys va flags a al out in
          translate-view u a l m.space (λ z. ne (sym e ∙ z))
          ∙ ap (λ (pte : ℕ). some (small_address pte a)) e
          ∙ sym (translate-view s a l v ne),
    )
