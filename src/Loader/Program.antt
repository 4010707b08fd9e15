-- ===== src/Loader/Program.antt =====
-- All segments of a program.
use boring_os_ssaha.Prelude.{ℕ, ◌+◌, ◌/◌, ◌^◌, ◌≤◌, ◌<◌, ◌≡◌, ◌≢◌, Option, some, List, [], ◌∷◌, ◌⊎◌}
use boring_os_ssaha.PAlloc.{pgsize}
use boring_os_ssaha.PMap.{Space}
use boring_os_ssaha.PMap.Walk.{view}
use boring_os_ssaha.Loader.{Fill, Phdr, pt_load, store}
use boring_os_ssaha.Loader.Segment.{place}
use boring_os_ssaha.O2fs.File.{done}
use boring_os_ssaha.O2fs.File as o2fs_file
use boring_os_ssaha.Loader.Image.{image, IsLoadable}

-- The address is in no segment that is loaded.
abbrev pub Outside : ℕ → List Phdr → Type 0
Outside a [] = Unit
Outside a (ph ∷ phdrs) =
    (ph.type ≡ pt_load → (a < ph.vaddr) ⊎ (ph.vaddr + ph.memsz ≤ a)) × Outside a phdrs

-- Segments that are loaded have their pages, and are apart.
abbrev pub AreLoadable : ℕ → Space → List Phdr → Type 0
AreLoadable size s [] = Unit
AreLoadable size s (ph ∷ phdrs) =
    (ph.type ≡ pt_load
      → IsLoadable size s ph × ((i : ℕ) → i < ph.memsz → Outside (ph.vaddr + i) phdrs))
    × AreLoadable size s phdrs

-- Each segment that is loaded has its image in the memory.
abbrev pub HasImages : Space → (ℕ → ℕ) → List Phdr → (ℕ → ℕ) → Type 0
HasImages s file [] w = Unit
HasImages s file (ph ∷ phdrs) w =
    (ph.type ≡ pt_load → (i : ℕ) → i < ph.memsz → w (place s (ph.vaddr + i)) ≡ image file ph i)
    × HasImages s file phdrs w

-- What the second loop makes of the memory `m`.
pub record Loaded (s : Space) (file : ℕ → ℕ) (phdrs : List Phdr) (m : ℕ → ℕ)
    (answer : Option (ℕ → ℕ)) : Type 0 where
  pub memory : ℕ → ℕ
  pub returned : answer ≡ some memory
  pub images : HasImages s file phdrs memory
  pub kept :
      (a : ℕ)
      → a < 2 ^ 47
      → view s (a / pgsize) ≢ 0
      → Outside a phdrs
      → memory (place s a) ≡ m (place s a)

-- VFS_Read of a file of O2FS with the size `size` and blocks of `blksize` bytes: where O2FS_Read returns
-- bytes, they are stored in the buffer.
abbrev pub IsRead : Fill → ℕ → ℕ → (ℕ → Option (ℕ → ℕ)) → Type 0
IsRead read blksize size resolve =
    (m : ℕ → ℕ) (raddr offset len : ℕ) (bytes : List ℕ)
    → o2fs_file.read blksize size resolve offset len ≡ done bytes
    → read m raddr offset len ≡ store m raddr bytes
