-- ===== src/PMap/Entry.antt =====
-- The entries of page tables: what the masks take out of what the flags put in.
use Prim.Native.Nat.{bit_or}
use boring_os_ssaha.Prelude.{
  ℕ, ◌+◌, ◌-◌, ◌*◌, ◌/◌, ◌%◌, ◌^◌, ◌≤◌, ◌<◌, ◌≡◌, ◌≢◌, refl, sym, ◌∙◌, ap, arith, bit_or_low,
}
use boring_os_ssaha.PAlloc.{pgsize, directmap_base, dmva_to_pa}
use boring_os_ssaha.PMap.{
  table_of, entry_of, user_entry, small_address, pte_p, pte_w, pte_u, pte_ps,
}

-- A page of the direct map.
pub record IsPage (pg : ℕ) : Type 0 where
  pub low : directmap_base ≤ pg
  pub high : pg < directmap_base + 2 ^ 40
  pub aligned : pg % pgsize ≡ 0

-- The flags of an aligned address.
pub or_page :
    (x c d : ℕ)
    → c < pgsize
    → d < pgsize
    → (bit_or (x * pgsize + c) d ≡ x * pgsize + bit_or c d) × (bit_or c d < pgsize)
or_page x c d hc hd = bit_or_low 12 x c d hc hd

or_seven : (x : ℕ) → bit_or (bit_or (bit_or (x * pgsize + 0) pte_p) pte_w) pte_u ≡ x * pgsize + 7
or_seven x =
    let p = (or_page x 0 1 (omega arith) (omega arith)).0 in
    let w = (or_page x 1 2 (omega arith) (omega arith)).0 in
    let u = (or_page x 3 4 (omega arith) (omega arith)).0 in rw (p, w, u) refl

pub entry_of_value : (pg : ℕ) → IsPage pg → entry_of pg ≡ pg - directmap_base + 7
unfolding entry_of
entry_of_value pg v =
    let x : dmva_to_pa pg ≡ (pg - directmap_base) / pgsize * pgsize + 0 =
      omega (arith, v.low, v.high, v.aligned) in
    rw x (omega (arith, or_seven ((pg - directmap_base) / pgsize), v.low, v.high, v.aligned))

pub table_of-entry_of : (pg : ℕ) → IsPage pg → table_of (entry_of pg) ≡ pg
unfolding table_of
table_of-entry_of pg v = omega (arith, entry_of_value pg v, v.low, v.high, v.aligned)

pub entry_of-nonzero : (pg : ℕ) → IsPage pg → entry_of pg ≢ 0
entry_of-nonzero pg v e = omega (arith, entry_of_value pg v)

pub entry_of-small : (pg : ℕ) → IsPage pg → entry_of pg / pte_ps % 2 ≡ 0
entry_of-small pg v = omega (arith, entry_of_value pg v, v.low, v.aligned)

pub user_entry_value :
    (x flags : ℕ)
    → flags < pgsize
    → (user_entry (x * pgsize) flags ≡ x * pgsize + bit_or 7 flags) × (bit_or 7 flags < pgsize)
user_entry_value x flags h =
    let z : x * pgsize ≡ x * pgsize + 0 = omega arith in
    let (e, l) = or_page x 7 flags (omega arith) h in
    (
      ap (λ (y : ℕ). bit_or (bit_or (bit_or (bit_or y pte_p) pte_w) pte_u) flags) z
          ∙ ap (λ (y : ℕ). bit_or y flags) (or_seven x)
          ∙ e,
      l,
    )

-- An entry of PMap_Map gives the address that it was made from.
pub user_entry_address :
    (phys flags va : ℕ)
    → phys % pgsize ≡ 0
    → phys < 2 ^ 63
    → flags < pgsize
    → small_address (user_entry phys flags) va ≡ phys + va % pgsize
user_entry_address phys flags va a l h =
    let x : phys ≡ phys / pgsize * pgsize = omega arith in
    let (e, b) = user_entry_value (phys / pgsize) flags h in
    let f : user_entry phys flags ≡ phys + bit_or 7 flags =
      ap (λ (y : ℕ). user_entry y flags) x ∙ e ∙ ap (λ (y : ℕ). y + bit_or 7 flags) (sym x) in
    rw f (omega arith)
