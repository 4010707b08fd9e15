-- ===== src/PMap/Walk.antt =====
-- The tree of tables below the root of an address space, in the user half. The number `p` of a table
-- of level `n` is the part of an address above the level's index.
use boring_os_ssaha.Prelude.{ℕ, zero, suc, ◌/◌, ◌%◌, ◌≤◌, ◌<◌, ◌≡◌, ◌≢◌, Option, none, some, count}
use boring_os_ssaha.PMap.{Space, pagetable_entries, pte_ps, follow}
use boring_os_ssaha.PMap.Entry.{IsPage}

abbrev pub child : Space → ℕ → Option ℕ → Option ℕ
child s i none = none
child s i (some table) = follow s table i

-- The table of level `n` with the number `p`.
unfoldable pub walk : Space → ℕ → ℕ → Option ℕ
walk s zero p = some s.root
walk s (suc n) p = child s (p % pagetable_entries) (walk s n (p / pagetable_entries))

-- How many tables of a level the user half has.
abbrev pub tables : ℕ → ℕ
tables zero = 1
tables (suc zero) = 256
tables (suc (suc zero)) = 131072
tables (suc (suc (suc n))) = 67108864

-- The entry of a page in the table that holds it.
abbrev pub entry_at : Space → ℕ → Option ℕ → ℕ
entry_at s i none = 0
entry_at s i (some table) = s.entries table i

-- What an address space stands for: the entry of each page of the user half, 0 where it has none.
unfoldable pub view : Space → ℕ → ℕ
unfolding walk
view s page = entry_at s (page % pagetable_entries) (walk s 3 (page / pagetable_entries))

-- Each page of tables has one place: its level, which is 4 for the pages that are free, and number.
pub record IsSpace (s : Space) : Type 0 where
  pub level : ℕ → ℕ
  pub number : ℕ → ℕ
  pub placed :
      (n p t : ℕ) → n < 4 → p < tables n → walk s n p ≡ some t → (level t ≡ n) × (number t ≡ p)
  pub free_level : (pg : ℕ) → count pg s.free ≢ 0 → level pg ≡ 4
  pub free_once : (pg : ℕ) → count pg s.free ≤ 1
  pub free_page : (pg : ℕ) → count pg s.free ≢ 0 → IsPage pg
  pub small :
      (p t i : ℕ)
      → p < tables 2
      → walk s 2 p ≡ some t
      → i < pagetable_entries
      → s.entries t i / pte_ps % 2 ≡ 0
