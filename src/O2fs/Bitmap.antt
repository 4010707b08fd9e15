-- ===== src/O2fs/Bitmap.antt =====
-- The bitmap of used blocks: O2FSBAlloc and O2FSBFree. `buffers` entries of `bitmap` are not NULL, the
-- first ones, since O2FS_Mount fills them in order; so a `break` at NULL is a round that finds nothing.
pub mod Bits
pub mod Alloc
pub mod Free
use boring_os_ssaha.Prelude.{
  ℕ, zero, suc, ◌+◌, ◌-◌, ◌*◌, ◌/◌, ◌%◌, ◌^◌, ◌==◌, ltb, if◌then◌else◌, Bool, true, false, Option,
  none, some, update,
}

-- The length of `bitmap`.
abbrev pub max_buffers : ℕ
max_buffers = 16

-- The fields of a VFS that the bitmap needs: `bytes i b` is the byte `b` of the buffer `i`.
pub record Vfs : Type 0 where
  pub blksize : ℕ
  pub buffers : ℕ
  pub bytes : ℕ → ℕ → ℕ

-- `for (k = lo; k < lo + n; k++)` up to the first round that returns.
unfoldable pub first : {A : Type 0} → ℕ → ℕ → (ℕ → Option A) → Option A
first zero lo f = none
first (suc n) lo f = let rest = first n (lo + 1) f in elim (f lo) [ none ↦ rest | some x ↦ some x ]

-- ((bitmap[b] >> bi) & 0x1)
abbrev pub bit : ℕ → ℕ → ℕ
bit byte bi = byte / 2 ^ bi % 2

-- `|= (1 << bi)` and `&= ~(1 << bi)`
abbrev pub set_bit : ℕ → ℕ → ℕ
set_bit byte bi = if bit byte bi == 0 then byte + 2 ^ bi else byte

abbrev pub clear_bit : ℕ → ℕ → ℕ
clear_bit byte bi = if bit byte bi == 0 then byte else byte - 2 ^ bi

abbrev pub write_byte : Vfs → ℕ → ℕ → ℕ → Vfs
write_byte fs i b v = record fs { bytes = update fs.bytes i (update (fs.bytes i) b v) }

-- The place of a free bit: the loops over the bits of a byte, the bytes of a buffer, the buffers.
pub try_bit : Vfs → ℕ → ℕ → ℕ → Option (ℕ × (ℕ × ℕ))
try_bit fs i b bi = if bit (fs.bytes i b) bi == 0 then some (i, (b, bi)) else none

pub try_byte : Vfs → ℕ → ℕ → Option (ℕ × (ℕ × ℕ))
unfolding first try_bit
try_byte fs i b = first 8 0 (try_bit fs i b)

pub try_buffer : Vfs → ℕ → Option (ℕ × (ℕ × ℕ))
unfolding first try_byte
try_buffer fs i = if ltb i fs.buffers then first fs.blksize 0 (try_byte fs i) else none

-- The body of the innermost `if`, or the end of the function.
abbrev pub take_bit : Vfs → Option (ℕ × (ℕ × ℕ)) → Vfs × ℕ
take_bit fs none = (fs, 0)
take_bit fs (some (i, (b, bi))) =
    (write_byte fs i b (set_bit (fs.bytes i b) bi), fs.blksize * 8 * i + 8 * b + bi)

-- O2FSBAlloc
unfoldable pub balloc : Vfs → Vfs × ℕ
unfolding first try_buffer
balloc fs = take_bit fs (first max_buffers 0 (try_buffer fs))

-- O2FSBFree; `none` is a failed ASSERT, at an entry of `bitmap` that is NULL.
unfoldable pub bfree : Vfs → ℕ → Option Vfs
bfree fs block =
    if ltb (block / (fs.blksize * 8)) fs.buffers
    then some (
        write_byte fs (block / (fs.blksize * 8)) (block / 256 % fs.blksize)
          (clear_bit (fs.bytes (block / (fs.blksize * 8)) (block / 256 % fs.blksize)) (block % 8)))
    else none
