-- ===== src/PMap/Destroy.antt =====
-- PMap_DestroyAS: the pages that it passes to PAlloc_Release. The ASSERTs of PAlloc_Release, which can
-- stop it in between, and the memory of the released pages are not part.
use boring_os_ssaha.Prelude.{
  ℕ, zero, suc, ◌+◌, ◌*◌, ◌/◌, ◌%◌, ◌^◌, ◌≤◌, ◌<◌, ◌≡◌, ◌≢◌, refl, ap, ◌∙◌, arith, ◌==◌,
  if◌then◌else◌, Bool, true, false, Option, none, some, List, [], ◌∷◌, ◌++◌, count, count-append,
}
use boring_os_ssaha.PMap.{Space, pagetable_entries, pte_ps, table_of}
use boring_os_ssaha.PMap.Walk.{walk, tables, view, IsSpace}
use boring_os_ssaha.PMap.Leaf.{view_at}

-- The pages that two parts of the code release, one after the other; `none` is a failed ASSERT.
abbrev pub both : Option (List ℕ) → Option (List ℕ) → Option (List ℕ)
both none b = none
both (some a) none = none
both (some a) (some b) = some (a ++ b)

-- `for (i = lo; i < lo + n; i++)`
pub sweep : ℕ → ℕ → (ℕ → Option (List ℕ)) → Option (List ℕ)
sweep zero lo body = some []
sweep (suc n) lo body = both (body lo) (sweep n (lo + 1) body)

abbrev pub is_present : ℕ → Bool
is_present pte = pte % 2 == 1

-- The bodies of the four loops, from the innermost: an entry of a table of the last level, ...
pub release_page : Space → ℕ → ℕ → Option (List ℕ)
release_page s table l =
    if is_present (s.entries table l) then some (table_of (s.entries table l) ∷ []) else some []

-- The pages below an entry, and then its table.
abbrev pub release_below : (ℕ → ℕ → Option (List ℕ)) → ℕ → Option (List ℕ)
release_below below pte =
    both (sweep pagetable_entries 0 (below (table_of pte))) (some (table_of pte ∷ []))

pub release_small : Space → ℕ → ℕ → Option (List ℕ)
unfolding sweep release_page
release_small s table k =
    if is_present (s.entries table k)
    then (if s.entries table k / pte_ps % 2 == 0
        then release_below (release_page s) (s.entries table k)
        else none)
    else some []

pub release_large : Space → ℕ → ℕ → Option (List ℕ)
unfolding sweep release_small
release_large s table j =
    if is_present (s.entries table j)
    then release_below (release_small s) (s.entries table j)
    else some []

pub release_root : Space → ℕ → Option (List ℕ)
unfolding sweep release_large
release_root s i =
    if is_present (s.entries s.root i)
    then release_below (release_large s) (s.entries s.root i)
    else some []

-- PMap_DestroyAS of the AS in the page `space`: the pages that it passes to PAlloc_Release, in their order.
pub destroy_as : Space → ℕ → Option (List ℕ)
unfolding sweep release_root
destroy_as s space = both (sweep (pagetable_entries / 2) 0 (release_root s)) (some (space ∷ []))

-- No ASSERT of the code itself fails, and the page `x` is not among those to be released.
abbrev Spares : ℕ → Option (List ℕ) → Type 0
Spares x r = (l : List ℕ) × (r ≡ some l) × (count x l ≡ 0)

both-Spares : (x : ℕ) (a b : Option (List ℕ)) → Spares x a → Spares x b → Spares x (both a b)
both-Spares x a b (l, e, z) (m, f, w) = (l ++ m, rw (e, f) refl, omega (arith, count-append x l m))

sweep-Spares :
    (x n lo : ℕ) (body : ℕ → Option (List ℕ))
    → ((i : ℕ) → lo ≤ i → i < lo + n → Spares x (body i))
    → Spares x (sweep n lo body)
unfolding sweep
sweep-Spares x zero lo body h = ([], refl, refl)
sweep-Spares x (suc n) lo body h =
    both-Spares x (body lo) (sweep n (lo + 1) body) (h lo (omega arith) (omega arith))
      (sweep-Spares x n (lo + 1) body (λ i a b. h i (omega arith) (omega arith)))

one-Spares : (x y : ℕ) → y ≢ x → Spares x (some (y ∷ []))
one-Spares x y ne = (y ∷ [], refl, ground arith)

none-Spares : (x : ℕ) → Spares x (some [])
none-Spares x = ([], refl, refl)

if-Spares :
    (x : ℕ) (b : Bool) (r : Option (List ℕ))
    → (b ≡ true → Spares x r)
    → Spares x (if b then r else some [])
if-Spares x true r h = h refl
if-Spares x false r h = none-Spares x

below-Spares :
    (x pte : ℕ) (below : ℕ → ℕ → Option (List ℕ))
    → table_of pte ≢ x
    → ((i : ℕ) → i < pagetable_entries → Spares x (below (table_of pte) i))
    → Spares x (release_below below pte)
below-Spares x pte below ne h =
    both-Spares x (sweep pagetable_entries 0 (below (table_of pte))) (some (table_of pte ∷ []))
      (sweep-Spares x pagetable_entries 0 (below (table_of pte)) (λ i a b. h i (omega arith)))
      (one-Spares x (table_of pte) ne)

module _ (s : Space) (v : IsSpace s)
    (leaves : (page : ℕ)
      → page < 2 ^ 35
      → is_present (view s page) ≡ true
      → table_of (view s page) ≢ s.root) where
  -- The table behind an entry that is present.
  next_walk :
      (n p t i : ℕ)
      → walk s n p ≡ some t
      → i < pagetable_entries
      → is_present (s.entries t i) ≡ true
      → walk s (suc n) (p * pagetable_entries + i) ≡ some (table_of (s.entries t i))
  unfolding walk
  next_walk n p t i at l h =
      let a : (p * pagetable_entries + i) / pagetable_entries ≡ p = omega arith in
      let b : (p * pagetable_entries + i) % pagetable_entries ≡ i = omega arith in
      rw (a, b, at) (ground arith)

  table-root : (n p t : ℕ) → n < 3 → p < tables (suc n) → walk s (suc n) p ≡ some t → t ≢ s.root
  unfolding walk
  table-root n p t h l at e = omega (
    arith,
    (v.placed (suc n) p t (omega arith) l at).0,
    (v.placed 0 0 s.root (omega arith) (omega arith) refl).0,
    ap v.level e,
  )

  page-Spares :
      (p t i : ℕ)
      → p < tables 3
      → walk s 3 p ≡ some t
      → i < pagetable_entries
      → Spares s.root (release_page s t i)
  unfolding release_page
  page-Spares p t i l at h =
      if-Spares s.root (is_present (s.entries t i)) (some (table_of (s.entries t i) ∷ [])) (λ e.
        let a : (p * pagetable_entries + i) / pagetable_entries ≡ p = omega arith in
        let b : (p * pagetable_entries + i) % pagetable_entries ≡ i = omega arith in
        let w : view s (p * pagetable_entries + i) ≡ s.entries t i =
          view_at s (p * pagetable_entries + i) t (ap (walk s 3) a ∙ at) ∙ ap (s.entries t) b in
        one-Spares s.root (table_of (s.entries t i)) (λ f.
          leaves (p * pagetable_entries + i) (omega arith) (ap is_present w ∙ e)
            (ap table_of w ∙ f)))

  small-Spares :
      (p t i : ℕ)
      → p < tables 2
      → walk s 2 p ≡ some t
      → i < pagetable_entries
      → Spares s.root (release_small s t i)
  unfolding release_small
  small-Spares p t i l at h = if-Spares s.root (is_present (s.entries t i)) _ (λ e.
      let w = next_walk 2 p t i at h e in
      rw (v.small p t i l at h) (
        below-Spares s.root (s.entries t i) (release_page s)
          (table-root 2 (p * pagetable_entries + i) _ (omega arith) (omega arith) w)
          (λ j m. page-Spares (p * pagetable_entries + i) _ j (omega arith) w m)))

  large-Spares :
      (p t i : ℕ)
      → p < tables 1
      → walk s 1 p ≡ some t
      → i < pagetable_entries
      → Spares s.root (release_large s t i)
  unfolding release_large
  large-Spares p t i l at h = if-Spares s.root (is_present (s.entries t i)) _ (λ e.
      let w = next_walk 1 p t i at h e in
      below-Spares s.root (s.entries t i) (release_small s)
        (table-root 1 (p * pagetable_entries + i) _ (omega arith) (omega arith) w)
        (λ j m. small-Spares (p * pagetable_entries + i) _ j (omega arith) w m))

  root-Spares : (i : ℕ) → i < 256 → Spares s.root (release_root s i)
  unfolding release_root walk
  root-Spares i h = if-Spares s.root (is_present (s.entries s.root i)) _ (λ e.
      let w = next_walk 0 0 s.root i refl (omega arith) e in
      below-Spares s.root (s.entries s.root i) (release_large s)
        (table-root 0 (0 * pagetable_entries + i) _ (omega arith) (omega arith) w)
        (λ j m. large-Spares (0 * pagetable_entries + i) _ j (omega arith) w m))

-- In a well-formed space none of whose pages is its root table no ASSERT of PMap_DestroyAS itself fails,
-- and the pages that it passes to PAlloc_Release do not include the root table.
pub destroy_as_leaks :
    (s : Space) (space : ℕ)
    → IsSpace s
    → ((page : ℕ)
        → page < 2 ^ 35
        → is_present (view s page) ≡ true
        → table_of (view s page) ≢ s.root)
    → space ≢ s.root
    → (l : List ℕ) × (destroy_as s space ≡ some l) × (count s.root l ≡ 0)
unfolding destroy_as
destroy_as_leaks s space v leaves ne =
    both-Spares s.root (sweep (pagetable_entries / 2) 0 (release_root s)) (some (space ∷ []))
      (sweep-Spares s.root (pagetable_entries / 2) 0 (release_root s)
        (λ i a b. root-Spares s v leaves i (omega arith)))
      (one-Spares s.root space ne)
