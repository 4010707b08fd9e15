-- ===== src/O2fs/Write.antt =====
-- The bytes of a file: O2FSGrowVNode and O2FS_Write. A block is written through to the disk; `readable`
-- says which blocks the buffer cache can read.
pub mod InPlace
pub mod Growth
use boring_os_ssaha.Prelude.{
  ℕ, zero, suc, ◌+◌, ◌-◌, ◌*◌, ◌/◌, ◌%◌, ◌^◌, ◌==◌, leb, ltb, ◌&&◌, if◌then◌else◌, Bool, true,
  false, Option, none, some, update,
}
use boring_os_ssaha.O2fs.Bitmap.{Vfs, balloc}
use boring_os_ssaha.O2fs.File.{round_length}
use boring_os_ssaha.Pthread.{einval}

-- ENOSPC, O2FS_DIRECT_PTR
abbrev pub enospc : ℕ
enospc = 0x1bad0013

abbrev pub direct_ptr : ℕ
direct_ptr = 64

-- A file system with the block node of one file: its `size`, and the offsets of its blocks; `store` has
-- the blocks of the disk by their offsets.
pub record File : Type 0 where
  pub fs : Vfs
  pub size : ℕ
  pub direct : ℕ → ℕ
  pub store : ℕ → ℕ → ℕ

-- What a call returns: an error of the code, the error of the buffer cache, or the number of bytes;
-- or the loop still runs.
pub data Status : Type 0 where
  running read_error : Status
  error written : ℕ → Status

-- "if (blkno == 0) return -ENOSPC; bn->direct[i].offset = blkno * vfs->blksize;"
abbrev pub add_block : (File → File × Status) → File → ℕ → Vfs × ℕ → File × Status
add_block rest f i (fs, blkno) =
    if blkno == 0
    then (record f { fs = fs }, error enospc)
    else rest (record f { fs = fs; direct = update f.direct i (blkno * fs.blksize) })

-- The loop of O2FSGrowVNode, with the rounds that are left, and the end of the function.
pub grow_blocks : ℕ → ℕ → ℕ → File → File × Status
grow_blocks zero i filesz f = (record f { size = filesz }, written 0)
grow_blocks (suc n) i filesz f =
    let rest = grow_blocks n (i + 1) filesz in
    if f.direct i == 0 then add_block rest f i (balloc f.fs) else rest f

-- O2FSGrowVNode
pub grow : File → ℕ → File × Status
unfolding grow_blocks
grow f filesz =
    let bs = f.fs.blksize in
    let start = (f.size + bs - 1) / bs in
    if ltb (bs * direct_ptr) filesz
    then (f, error einval)
    else grow_blocks ((filesz + bs - 1) / bs - start) start filesz f

-- memcpy of `n` bytes from `buf` to `block + start`
abbrev pub patch : (ℕ → ℕ) → ℕ → ℕ → (ℕ → ℕ) → ℕ → ℕ
patch block start n buf k = if leb start k && ltb k (start + n) then buf (k - start) else block k

abbrev pub write_block : File → ℕ → ℕ → ℕ → (ℕ → ℕ) → File
write_block f b start n buf = record f {
  store = update f.store (f.direct b) (patch (f.store (f.direct b)) start n buf);
}

-- The loop of O2FS_Write; `count` is `readBytes`.
pub write_loop : ℕ → (ℕ → Bool) → File → (ℕ → ℕ) → ℕ → ℕ → ℕ → File × Status
write_loop zero readable f buf off len count = (f, running)
write_loop (suc fuel) readable f buf off len count =
    let bs = f.fs.blksize in
    let n = round_length bs off len in
    let next = write_block f (off / bs) (off % bs) n buf in
    let rest = write_loop fuel readable next (λ k. buf (k + n)) (off + n) (len - n) (count + n) in
    if readable (f.direct (off / bs))
    then (if len - n == 0 then (next, written (count + n)) else rest)
    else (f, read_error)

-- "if (status < 0) return status;" behind the growth.
abbrev pub if_grown : (File → File × Status) → File × Status → File × Status
if_grown k (f, error e) = (f, error e)
if_grown k (f, running) = (f, running)
if_grown k (f, read_error) = (f, read_error)
if_grown k (f, written n) = k f

-- O2FS_Write, with one round for each byte and one more. The code returns the count as an int, which
-- holds it for the 64 blocks of a file.
pub write : (ℕ → Bool) → File → (ℕ → ℕ) → ℕ → ℕ → File × Status
unfolding write_loop grow
write readable f buf off len =
    let loop = λ (g : File). write_loop (len + 1) readable g buf off len 0 in
    if ltb f.size ((off + len) % 2 ^ 64)
    then if_grown loop (grow f ((off + len) % 2 ^ 64))
    else loop f
