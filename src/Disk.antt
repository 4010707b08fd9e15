-- ===== src/Disk.antt =====
-- The list of disks: sys/kern/disk.c. A disk is a pointer, and its numbers are functions from pointers.
-- Disk_Read, Disk_Write and Disk_Flush call the driver, which is a parameter of BufCache.
use boring_os_ssaha.Prelude.{
  ℕ, ◌≡◌, refl, ◌==◌, if◌then◌else◌, ◌&&◌, Option, none, some, List, [], ◌∷◌, remove,
}

pub record Disks : Type 0 where
  pub disk_list : List ℕ
  pub ctrl_no : ℕ → ℕ
  pub disk_no : ℕ → ℕ

-- Disk_AddDisk
add_disk : Disks → ℕ → Disks
add_disk s disk = record s { disk_list = disk ∷ s.disk_list }

-- Disk_RemoveDisk
unfoldable remove_disk : Disks → ℕ → Disks
remove_disk s disk = record s { disk_list = remove disk s.disk_list }

find_disk : (ℕ → ℕ) → (ℕ → ℕ) → ℕ → ℕ → List ℕ → Option ℕ
find_disk ctrl_of no_of ctrl num [] = none
find_disk ctrl_of no_of ctrl num (d ∷ ds) =
    let rest = find_disk ctrl_of no_of ctrl num ds in
    if (ctrl_of d == ctrl) && (no_of d == num) then some d else rest

-- Disk_GetByID
get_by_id : Disks → ℕ → ℕ → Option ℕ
unfolding find_disk
get_by_id s ctrl num = find_disk s.ctrl_no s.disk_no ctrl num s.disk_list

-- A disk that is added hides an older one of the same numbers, and no other.
get_by_id-add_disk :
    (s : Disks) (d ctrl num : ℕ)
    → get_by_id (add_disk s d) ctrl num
      ≡ (if (s.ctrl_no d == ctrl) && (s.disk_no d == num) then some d else get_by_id s ctrl num)
unfolding get_by_id add_disk find_disk
get_by_id-add_disk s d ctrl num = refl
