-- ===== src/O2fs/File.antt =====
-- The bytes of a file: O2FS_Read. The buffer cache's answer for the block `b` of the file, which
-- O2FSResolveBuf asks it for, is `resolve b`: the block's bytes, or `none` for an error.
pub mod Read
use boring_os_ssaha.Prelude.{
  ℕ, zero, suc, ◌+◌, ◌-◌, ◌*◌, ◌/◌, ◌%◌, ◌^◌, ◌==◌, ltb, if◌then◌else◌, Bool, true, false, Option,
  none, some, List, [], ◌∷◌, ◌++◌,
}

-- What a read returns: the error of the buffer cache, or the bytes that it has put into the buffer; or
-- the loop still runs.
pub data Transfer : Type 0 where
  failed running : Transfer
  done : List ℕ → Transfer

-- memcpy of `n` bytes from `f + start`
abbrev pub slice : (ℕ → ℕ) → ℕ → ℕ → List ℕ
slice f start zero = []
slice f start (suc n) = f start ∷ slice f (start + 1) n

-- The `bLen` of a round.
abbrev pub round_length : ℕ → ℕ → ℕ → ℕ
round_length blksize off len =
    if ltb blksize (off % blksize + len) then blksize - off % blksize else len

-- The bytes of a round come before those of the later rounds.
abbrev pub then_bytes : List ℕ → Transfer → Transfer
then_bytes l failed = failed
then_bytes l running = running
then_bytes l (done rest) = done (l ++ rest)

-- "if (len == 0) break;"
abbrev pub round_end : ℕ → Transfer → Transfer
round_end len rest = if len == 0 then done [] else rest

abbrev pub read_block : Option (ℕ → ℕ) → ℕ → ℕ → Transfer → Transfer
read_block none start n rest = failed
read_block (some block) start n rest = then_bytes (slice block start n) rest

-- The loop of O2FS_Read.
pub read_loop : ℕ → ℕ → (ℕ → Option (ℕ → ℕ)) → ℕ → ℕ → Transfer
read_loop zero blksize resolve off len = running
read_loop (suc fuel) blksize resolve off len =
    let n = round_length blksize off len in
    let rest = read_loop fuel blksize resolve (off + n) (len - n) in
    read_block (resolve (off / blksize)) (off % blksize) n (round_end (len - n) rest)

-- O2FS_Read of a file of `size` bytes, with one round for each byte and one more.
pub read : ℕ → ℕ → (ℕ → Option (ℕ → ℕ)) → ℕ → ℕ → Transfer
unfolding read_loop
read blksize size resolve off len =
    if ltb size off
    then done []
    else (let n = if ltb size ((off + len) % 2 ^ 64) then size - off else len in
        read_loop (n + 1) blksize resolve off n)
