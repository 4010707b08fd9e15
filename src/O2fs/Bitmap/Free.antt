-- ===== src/O2fs/Bitmap/Free.antt =====
-- What a call of O2FSBAlloc and of O2FSBFree does to the bits.
use boring_os_ssaha.Prelude.{
  ℕ, ◌+◌, ◌*◌, ◌/◌, ◌%◌, ◌<◌, ◌≡◌, ◌≢◌, refl, ◌∙◌, arith, ltb, if◌then◌else◌, true, Option, none,
  some, inl, inr, ◌⊎◌,
}
use boring_os_ssaha.O2fs.Bitmap.{
  Vfs, max_buffers, first, bit, set_bit, clear_bit, write_byte, try_buffer, take_bit, balloc, bfree,
}
use boring_os_ssaha.O2fs.Bitmap.Alloc.{Inside, Free, Searched, search_some, search_none, place}
use boring_os_ssaha.O2fs.Bitmap.Bits.{bit-set_bit, bit-clear_bit, is_place, bit-write_byte}

abbrev pub IsVfs : Vfs → Type 0
IsVfs fs = (i b : ℕ) → fs.bytes i b < 256

-- The number of the block of a place.
abbrev pub block_of : Vfs → ℕ → ℕ → ℕ → ℕ
block_of fs i b bi = fs.blksize * 8 * i + 8 * b + bi

-- No block is free, nothing changes and the answer is 0; or the answer is the first free block, whose
-- bit is set, and no other bit changes.
abbrev pub Allocated : Vfs → Vfs × ℕ → Type 0
Allocated fs (u, block) =
    (((i b bi : ℕ) → Inside fs i b bi → bit (fs.bytes i b) bi ≢ 0) × (u ≡ fs) × (block ≡ 0))
    ⊎ ((i : ℕ) × (b : ℕ) × (bi : ℕ) × Free fs i b bi
        × (block ≡ block_of fs i b bi)
        × ((j c k : ℕ)
            → k < 8
            → bit (u.bytes j c) k ≡ (if is_place j c k i b bi then 1 else bit (fs.bytes j c) k)))

take_bit-Allocated :
    (fs : Vfs) (o : Option (ℕ × (ℕ × ℕ))) → IsVfs fs → Searched fs o → Allocated fs (take_bit fs o)
take_bit-Allocated fs none v s = inl (s, refl, refl)
take_bit-Allocated fs (some (i, (b, bi))) v s =
    let (l, m, n, h) = s.inside in
    inr (
      i,
      b,
      bi,
      s,
      refl,
      bit-write_byte fs i b bi (set_bit (fs.bytes i b) bi) 1
          (λ k o. bit-set_bit bi k (fs.bytes i b) h o (v i b)),
    )

search-Searched :
    (fs : Vfs) (o : Option (ℕ × (ℕ × ℕ))) → first max_buffers 0 (try_buffer fs) ≡ o → Searched fs o
search-Searched fs none e = search_none fs e
search-Searched fs (some x) e = search_some fs x e

-- O2FSBAlloc marks the first free block of the bitmap and returns its number, and no other block changes;
-- or there is no free block, nothing changes and it returns 0.
pub balloc_lem : (fs : Vfs) → IsVfs fs → Allocated fs (balloc fs)
unfolding balloc
balloc_lem fs v =
    take_bit-Allocated fs (first max_buffers 0 (try_buffer fs)) v
      (search-Searched fs (first max_buffers 0 (try_buffer fs)) refl)

-- O2FSBFree of the block of the place (i, b, bi) clears one bit, the one with the block's number in its
-- byte and buffer; but the byte is the block's number divided by 256, modulo the size of a buffer,
-- which need not be the byte `b` of the block.
pub bfree_lem :
    (fs : Vfs) (i b bi : ℕ)
    → IsVfs fs
    → Inside fs i b bi
    → (u : Vfs) × (bfree fs (block_of fs i b bi) ≡ some u)
      × ((j c k : ℕ)
          → k < 8
          → bit (u.bytes j c) k ≡ (
              if is_place j c k i (block_of fs i b bi / 256 % fs.blksize) bi
              then 0
              else bit (fs.bytes j c) k))
unfolding bfree
bfree_lem fs i b bi v (l, m, n, h) =
    let (p, q) = place i fs.blksize b bi n h in
    let t : ltb i fs.buffers ≡ true = ground arith in
    let c = block_of fs i b bi / 256 % fs.blksize in
    (
      write_byte fs i c (clear_bit (fs.bytes i c) bi),
      rw (p, q, t) refl,
      bit-write_byte fs i c bi (clear_bit (fs.bytes i c) bi) 0
          (λ k o. bit-clear_bit bi k (fs.bytes i c) h o (v i c)),
    )

-- A block that is freed stays marked, and another block's mark is cleared, unless its number divided by
-- 256 is its byte, modulo the size of a buffer.
pub bfree_wrong_block :
    (fs : Vfs) (i b bi : ℕ)
    → IsVfs fs
    → Inside fs i b bi
    → block_of fs i b bi / 256 % fs.blksize ≢ b
    → (u : Vfs) × (bfree fs (block_of fs i b bi) ≡ some u)
      × (bit (u.bytes i b) bi ≡ bit (fs.bytes i b) bi)
      × (bit (u.bytes i (block_of fs i b bi / 256 % fs.blksize)) bi ≡ 0)
bfree_wrong_block fs i b bi v (l, m, n, h) ne =
    let (u, e, g) = bfree_lem fs i b bi v (l, m, n, h) in
    (
      u,
      e,
      g i b bi h ∙ ground arith,
      g i (block_of fs i b bi / 256 % fs.blksize) bi h ∙ ground arith,
    )
