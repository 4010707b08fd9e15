-- ===== src/O2fs/Tests.antt =====
-- A bitmap, files of two blocks, and the theorems at them.
use boring_os_ssaha.Prelude.{
  ℕ, ◌/◌, ◌==◌, if◌then◌else◌, Option, some, [], ◌∷◌, ◌≡◌, refl, ◌+◌, ◌-◌, ◌*◌, ◌<◌, arith, ltb,
  true, none,
}
use boring_os_ssaha.O2fs.Directory.{
  lookup, lookup_blocks, find_entry, is_named, same_string, sizeof_entry, found,
}
use boring_os_ssaha.O2fs.Directory.Find.{Found, blocks_of, lookup-Found}
use boring_os_ssaha.O2fs.Bitmap.{Vfs, balloc}
use boring_os_ssaha.O2fs.Bitmap.Free.{IsVfs, Allocated, balloc_lem}
use boring_os_ssaha.O2fs.File.{done, slice, read}
use boring_os_ssaha.O2fs.Write.{grow_blocks, File, written, write}
use boring_os_ssaha.O2fs.Write.Growth.{Grew, grow_blocks-Grew}
use boring_os_ssaha.O2fs.Write.InPlace.{Apart, Wrote, write_lem}
use boring_os_ssaha.O2fs.File.Read.{file_byte, read_lem}

-- The first nine blocks are used.
abbrev nine_used : Vfs
nine_used = record {
  blksize = 4096;
  buffers = 1;
  bytes = λ i b. if b == 0 then 255 else if b == 1 then 1 else 0;
}

nine_used-IsVfs : IsVfs nine_used
nine_used-IsVfs i b = ground arith

balloc_lem_example : Allocated nine_used (balloc nine_used)
balloc_lem_example = balloc_lem nine_used nine_used-IsVfs

abbrev resolve : ℕ → Option (ℕ → ℕ)
resolve b = if ltb b 2 then some (λ k. b) else none

resolve-some : (b : ℕ) → b * 512 < 1000 → resolve b ≡ some (λ k. b)
resolve-some b h = ground arith

read_lem_example :
    read 512 1000 resolve 100 700
    ≡ done (slice (file_byte 512 (λ b k. b)) 100 (if ltb 1000 (100 + 700) then 1000 - 100 else 700))
read_lem_example =
    read_lem 512 resolve (λ b k. b) 1000 100 700 (omega arith) (omega arith) (omega arith)
      resolve-some

-- A file of two blocks, which are the blocks 9 and 10 of the disk.
abbrev two_blocks : File
two_blocks = record {
  fs = nine_used;
  size = 8000;
  direct = λ b. if ltb b 2 then (b + 9) * 4096 else 0;
  store = λ o k. 0;
}

two_blocks-Apart : Apart two_blocks
two_blocks-Apart b c l e = ground arith

write_lem_example :
    (u : File) × (write (λ o. true) two_blocks (λ k. 7) 4000 200 ≡ (u, written 200))
    × Wrote two_blocks (λ k. 7) 4000 200 u
write_lem_example =
    write_lem (λ o. true) two_blocks (λ k. 7) 4000 200 (omega arith) two_blocks-Apart (λ b l. refl)
      (omega arith) (omega arith) (omega arith)

-- It grows by the blocks 2 and 3.
grow_blocks-Grew_example : Grew 2 2 16000 two_blocks (grow_blocks 2 2 16000 two_blocks)
grow_blocks-Grew_example = grow_blocks-Grew 2 2 16000 two_blocks (omega arith)

-- A directory of one block whose second entry is "a".
abbrev entries : ℕ → ℕ
entries i =
    if i == 512
    then 0x44
    else if i == 513
    then 0x49
    else if i == 514
    then 0x52
    else if i == 515
    then 0x45
    else if i == 516
    then 0x4e
    else if i == 517
    then 0x54
    else if i == 518
    then 0x52
    else if i == 519
    then 0x59
    else if i == 768
    then 0x61
    else 0

abbrev directory : ℕ → Option (ℕ → ℕ)
directory b = some entries

a_found : lookup directory 4096 1024 (0x61 ∷ []) ≡ (found 0 1, [])
unfolding lookup lookup_blocks find_entry is_named same_string
a_found = refl

lookup-Found_example :
    Found directory
      (4096 / sizeof_entry)
      (0x61 ∷ [])
      0
      (blocks_of 4096 1024)
      (lookup directory 4096 1024 (0x61 ∷ []))
lookup-Found_example = lookup-Found directory 4096 1024 (0x61 ∷ []) (omega arith)
