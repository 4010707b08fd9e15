-- ===== src/XMem/Table.antt =====
-- The table of regions: XMem_Init gives disjoint regions, XMem_New the first that is not in use.
use boring_os_ssaha.Prelude.{
  ℕ, zero, suc, ◌+◌, ◌*◌, ◌≤◌, ◌<◌, ◌≡◌, arith, ltb, leb, if◌then◌else◌, ◌&&◌, Bool, true, false,
  Option, none, some, update, Bool-cases, inl, inr,
}
use native.Mathlib.Decide.{ℕ_discrete}
use boring_os_ssaha.XMem.{
  Regions, max_xmem_regions, xmap_base, xmap_len, region_size, init_regions, init, new_from, new,
}

abbrev in_range : ℕ → ℕ → ℕ → Bool
in_range r n q = leb r q && ltb q (r + n)

init_regions_lem :
    (n r q : ℕ) (x : Regions)
    → let y = init_regions n r x in
      (y.in_use q ≡ (if in_range r n q then false else x.in_use q))
      × (y.base q ≡ (if in_range r n q then xmap_base + q * region_size else x.base q))
      × (y.max_length q ≡ (if in_range r n q then region_size else x.max_length q))
      × (y.length q ≡ (if in_range r n q then 0 else x.length q))
unfolding init_regions
init_regions_lem zero r q x = (ground arith, ground arith, ground arith, ground arith)
init_regions_lem (suc n) r q x =
    let (a, b, c, d) = init_regions_lem n (r + 1) q (record x {
      in_use = update x.in_use r false;
      base = update x.base r (xmap_base + r * region_size);
      max_length = update x.max_length r region_size;
      length = update x.length r 0;
    }) in
    (ground (arith, a), ground (arith, b), ground (arith, c), ground (arith, d))

-- After XMem_Init every region is free and empty, no two regions overlap, and all of them lie within
-- the mapping area.
pub init_disjoint :
    (x : Regions) (q r : ℕ)
    → q < r
    → r < max_xmem_regions
    → let y = init x in
      (y.in_use r ≡ false)
      × (y.length r ≡ 0)
      × (y.base q + y.max_length q ≤ y.base r)
      × (y.base r + y.max_length r ≤ xmap_base + xmap_len)
unfolding init
init_disjoint x q r lt lr =
    let (a, b, c, d) = init_regions_lem max_xmem_regions 0 r x in
    let (a', b', c', d') = init_regions_lem max_xmem_regions 0 q x in
    (ground (arith, a), ground (arith, d), ground (arith, b, b', c'), ground (arith, b, c))

-- What a search for a region from index `r` on returns.
pub data Found (x : Regions) (n r : ℕ) : Regions × Option ℕ → Type 0 where
  fresh :
      (q : ℕ)
      → r ≤ q
      → q < r + n
      → x.in_use q ≡ false
      → ((p : ℕ) → r ≤ p → p < q → x.in_use p ≡ true)
      → Found x n r (record x { in_use = update x.in_use q true }, some q)
  exhausted : ((p : ℕ) → r ≤ p → p < r + n → x.in_use p ≡ true) → Found x n r (x, none)

Found-suc :
    (x : Regions) (n r : ℕ) (a : Regions × Option ℕ)
    → x.in_use r ≡ true
    → Found x n (r + 1) a
    → Found x (suc n) r a
Found-suc x n r a u (fresh q lo hi free all) =
    fresh q (omega arith) (omega arith) free (λ p l h. used p l h)
  where
    used : (p : ℕ) → r ≤ p → p < q → x.in_use p ≡ true
    used p l h = elim (ℕ_discrete p r) [ yes e ↦ rw e u | no ne ↦ all p (omega arith) h ]
Found-suc x n r a u (exhausted all) = exhausted (λ p l h. used p l h)
  where
    used : (p : ℕ) → r ≤ p → p < r + suc n → x.in_use p ≡ true
    used p l h = elim (ℕ_discrete p r) [
      | yes e ↦ rw e u
      | no ne ↦ all p (omega arith) (omega arith)
    ]

new_from-Found : (n r : ℕ) (x : Regions) → Found x n r (new_from n r x)
unfolding new_from
new_from-Found zero r x = exhausted (λ p l h. absurd (omega arith))
new_from-Found (suc n) r x = elim (Bool-cases (x.in_use r)) [
  | inl u ↦ rw u (Found-suc x n r _ u (new_from-Found n (r + 1) x))
  | inr u ↦ rw u (fresh r (omega arith) (omega arith) u (λ p l h. absurd (omega arith)))
]

-- XMem_New marks and returns the first region that is not in use, and changes nothing and returns
-- NULL exactly when all are.
pub new-Found : (x : Regions) → Found x max_xmem_regions 0 (new x)
unfolding new
new-Found x = new_from-Found max_xmem_regions 0 x
