-- ===== src/O2fs/Directory.antt =====
-- The lookup in a directory: O2FS_Lookup of sys/fs/o2fs/o2fs.c. The buffer cache's answer for the block
-- `b` of the directory is `resolve b`: the block's bytes, or `none` for an error. What O2FSLoadVNode makes
-- of the entry that is found is not part of the model.
pub mod Find
use boring_os_ssaha.Prelude.{
  ℕ, zero, suc, ◌+◌, ◌-◌, ◌*◌, ◌/◌, ◌%◌, ◌^◌, ◌==◌, if◌then◌else◌, Bool, true, false, ◌&&◌, Option,
  none, some, List, [], ◌∷◌,
}

-- sizeof(BDirEntry), and where its name is
abbrev pub sizeof_entry : ℕ
sizeof_entry = 512

abbrev pub name_offset : ℕ
name_offset = 256

-- BDIR_MAGIC
abbrev pub bdir_magic : List ℕ
bdir_magic = 0x44 ∷ 0x49 ∷ 0x52 ∷ 0x45 ∷ 0x4e ∷ 0x54 ∷ 0x52 ∷ 0x59 ∷ []

-- "strcmp(...) == 0" of the bytes at an address and a string, whose characters are a list.
unfoldable pub same_string : (ℕ → ℕ) → ℕ → List ℕ → Bool
same_string block at [] = block at == 0
same_string block at (c ∷ chars) = (block at == c) && same_string block (at + 1) chars

-- The entry `e` of a block is one of the directory and has the name.
unfoldable pub is_named : (ℕ → ℕ) → ℕ → List ℕ → Bool
is_named block e name =
    same_string block (e * sizeof_entry) bdir_magic
    && same_string block (e * sizeof_entry + name_offset) name

-- The loop over the entries of a block from `e` on, with those that are left.
unfoldable pub find_entry : (ℕ → ℕ) → List ℕ → ℕ → ℕ → Option ℕ
find_entry block name e zero = none
find_entry block name e (suc left) =
    let rest = find_entry block name (e + 1) left in if is_named block e name then some e else rest

-- What O2FS_Lookup returns: the block and the entry, -1, or the error of the buffer cache.
pub data Lookup : Type 0 where
  found : ℕ → ℕ → Lookup
  missing failed : Lookup

-- The blocks that are released come before those of the later rounds.
abbrev pub then_released : ℕ → Lookup × List ℕ → Lookup × List ℕ
then_released b (answer, released) = (answer, b ∷ released)

-- The loop over the blocks from `b` on, with those that are left; and the blocks that are released.
unfoldable pub lookup_blocks : (ℕ → Option (ℕ → ℕ)) → ℕ → List ℕ → ℕ → ℕ → Lookup × List ℕ
lookup_blocks resolve per_block name b zero = (missing, [])
lookup_blocks resolve per_block name b (suc left) =
    let rest = lookup_blocks resolve per_block name (b + 1) left in
    elim (resolve b) [
      | none ↦ (failed, [])
      | some block ↦ elim (find_entry block name 0 per_block) [
        | some e ↦ (found b e, [])
        | none ↦ then_released b rest
      ]
    ]

-- O2FS_Lookup in a directory of `size` bytes. The code divides by the size of a block, which is not 0.
unfoldable pub lookup : (ℕ → Option (ℕ → ℕ)) → ℕ → ℕ → List ℕ → Lookup × List ℕ
lookup resolve blksize size name =
    lookup_blocks resolve (blksize / sizeof_entry) name 0 ((size + blksize - 1) % 2 ^ 64 / blksize)
