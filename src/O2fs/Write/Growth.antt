-- ===== src/O2fs/Write/Growth.antt =====
-- What O2FSGrowVNode does to the block node.
use boring_os_ssaha.Prelude.{
  split_eq, ℕ, zero, suc, ◌+◌, ◌*◌, ◌≤◌, ◌<◌, ◌≡◌, ◌≢◌, refl, sym, ap, ◌∙◌, arith, ◌==◌, false,
  Option, none, some, update, inl, inr, ◌⊎◌,
}
use boring_os_ssaha.O2fs.Bitmap.{Vfs, first, max_buffers, try_buffer, take_bit, balloc}
use boring_os_ssaha.O2fs.Write.{File, Status, error, written, enospc, add_block, grow_blocks}

take_bit_blksize : (fs : Vfs) (o : Option (ℕ × (ℕ × ℕ))) → (take_bit fs o).0.blksize ≡ fs.blksize
take_bit_blksize fs none = refl
take_bit_blksize fs (some (i, (b, bi))) = refl

balloc_blksize : (fs : Vfs) → (balloc fs).0.blksize ≡ fs.blksize
unfolding balloc
balloc_blksize fs = take_bit_blksize fs (first max_buffers 0 (try_buffer fs))

-- The growth from block `i` over `n` blocks succeeds: the size is set, each of the blocks has an
-- offset, and each offset that was there is the same. Or the disk is full: the size is the old one.
abbrev pub Grew : ℕ → ℕ → ℕ → File → File × Status → Type 0
Grew n i filesz f (u, s) =
    ((s ≡ written 0)
      × (u.size ≡ filesz)
      × ((b : ℕ) → i ≤ b → b < i + n → u.direct b ≢ 0)
      × ((b : ℕ) → f.direct b ≢ 0 → u.direct b ≡ f.direct b))
    ⊎ ((s ≡ error enospc)
        × (u.size ≡ f.size)
        × ((b : ℕ) → f.direct b ≢ 0 → u.direct b ≡ f.direct b))

Grew-step :
    (n i filesz : ℕ) (f g : File) (r : File × Status)
    → g.size ≡ f.size
    → g.direct i ≢ 0
    → ((b : ℕ) → f.direct b ≢ 0 → g.direct b ≡ f.direct b)
    → Grew n (i + 1) filesz g r
    → Grew (suc n) i filesz f r
Grew-step n i filesz f g (u, s) e nz k (inl (a, b, c, d)) = inl (
  a,
  b,
  λ x lo hi z. elim (split_eq x i) [
    | inl p ↦ nz (sym (d i nz) ∙ ap u.direct (sym p) ∙ z)
    | inr ne ↦ c x (omega arith) (omega arith) z
  ],
  λ x h. d x (λ z. h (sym (k x h) ∙ z)) ∙ k x h,
)
Grew-step n i filesz f g (u, s) e nz k (inr (a, b, d)) =
    inr (a, b ∙ e, λ x h. d x (λ z. h (sym (k x h) ∙ z)) ∙ k x h)

product_nonzero : (a b : ℕ) → a ≢ 0 → 0 < b → a * b ≢ 0
product_nonzero a b h l = grind arith

add_block-Grew :
    (n i filesz : ℕ) (f : File) (rest : File → File × Status) (fs : Vfs) (blkno : ℕ)
    → 0 < fs.blksize
    → f.direct i ≡ 0
    → ((g : File) → 0 < g.fs.blksize → Grew n (i + 1) filesz g (rest g))
    → Grew (suc n) i filesz f (add_block rest f i (fs, blkno))
add_block-Grew n i filesz f rest fs blkno pos z ih = elim (split_eq blkno 0) [
  | inl e ↦ rw e (inr (refl, refl, λ b h. refl))
  | inr ne ↦
      let g : File = record f { fs = fs; direct = update f.direct i (blkno * fs.blksize) } in
      let t : (blkno == 0) ≡ false = ground arith in
      let nz : g.direct i ≢ 0 = λ e. product_nonzero blkno fs.blksize ne pos (ground arith) in
      let k : (b : ℕ) → f.direct b ≢ 0 → g.direct b ≡ f.direct b = λ b h. ground arith in
      rw t (Grew-step n i filesz f g (rest g) refl nz k (ih g pos))
]

-- The loop of O2FSGrowVNode returns 0 with the new size, an offset for each block of its range and every
-- offset that was there; or it returns ENOSPC with the old size and every offset that was there.
pub grow_blocks-Grew :
    (n i filesz : ℕ) (f : File) → 0 < f.fs.blksize → Grew n i filesz f (grow_blocks n i filesz f)
unfolding grow_blocks
grow_blocks-Grew zero i filesz f pos =
    inl (refl, refl, λ b lo hi. absurd (omega arith), λ b h. refl)
grow_blocks-Grew (suc n) i filesz f pos = elim (split_eq (f.direct i) 0) [
  | inl z ↦ rw z (
      add_block-Grew n i filesz f (grow_blocks n (i + 1) filesz) (balloc f.fs).0 (balloc f.fs).1
        (omega (arith, balloc_blksize f.fs)) z (λ g p. grow_blocks-Grew n (i + 1) filesz g p))
  | inr ne ↦
      let t : (f.direct i == 0) ≡ false = ground arith in
      rw t (
        Grew-step n i filesz f f (grow_blocks n (i + 1) filesz f) refl ne (λ b h. refl)
          (grow_blocks-Grew n (i + 1) filesz f pos))
]
