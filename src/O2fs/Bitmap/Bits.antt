-- ===== src/O2fs/Bitmap/Bits.antt =====
-- The bits of a byte, by a table of all bytes, and the bits of the bitmap after a write.
use boring_os_ssaha.Prelude.{
  ℕ, zero, suc, ◌<◌, ◌≡◌, refl, arith, ◌==◌, if◌then◌else◌, ◌&&◌, Bool, true,
}
use boring_os_ssaha.O2fs.Bitmap.{Vfs, bit, set_bit, clear_bit, write_byte}

all_below : ℕ → (ℕ → Bool) → Bool
all_below zero p = true
all_below (suc n) p = p n && all_below n p

all_below_lem : (n : ℕ) (p : ℕ → Bool) (x : ℕ) → all_below n p ≡ true → x < n → p x ≡ true
unfolding all_below
all_below_lem zero p x h l = absurd (omega arith)
all_below_lem (suc n) p x h l = ground (arith, all_below_lem n p x)

abbrev row : ℕ → ℕ → ℕ → Bool
row i j v =
    (bit (set_bit v i) j == (if j == i then 1 else bit v j))
    && (bit (clear_bit v i) j == (if j == i then 0 else bit v j))

table : all_below 8 (λ i. all_below 8 (λ j. all_below 256 (row i j))) ≡ true
unfolding all_below
table = refl

row-true : (i j v : ℕ) → i < 8 → j < 8 → v < 256 → row i j v ≡ true
row-true i j v a b c =
    all_below_lem 256 (row i j) v
      (all_below_lem 8 (λ y. all_below 256 (row i y)) j
        (all_below_lem 8 (λ x. all_below 8 (λ y. all_below 256 (row x y))) i table a) b)
      c

split_row : (x y z w : ℕ) → (x == y) && (z == w) ≡ true → (x ≡ y) × (z ≡ w)
split_row x y z w e = (ground arith, ground arith)

pub bit-set_bit :
    (i j v : ℕ) → i < 8 → j < 8 → v < 256 → bit (set_bit v i) j ≡ (if j == i then 1 else bit v j)
bit-set_bit i j v a b c = (split_row _ _ _ _ (row-true i j v a b c)).0

pub bit-clear_bit :
    (i j v : ℕ) → i < 8 → j < 8 → v < 256 → bit (clear_bit v i) j ≡ (if j == i then 0 else bit v j)
bit-clear_bit i j v a b c = (split_row _ _ _ _ (row-true i j v a b c)).1

-- A place of the bitmap is another one.
abbrev pub is_place : ℕ → ℕ → ℕ → ℕ → ℕ → ℕ → Bool
is_place j c k i b bi = (j == i) && ((c == b) && (k == bi))

-- The bits after a byte was written, from the bits of the byte.
pub bit-write_byte :
    (fs : Vfs) (i b bi v to : ℕ)
    → ((k : ℕ) → k < 8 → bit v k ≡ (if k == bi then to else bit (fs.bytes i b) k))
    → (j c k : ℕ) → k < 8
    → bit ((write_byte fs i b v).bytes j c) k
      ≡ (if is_place j c k i b bi then to else bit (fs.bytes j c) k)
bit-write_byte fs i b bi v to h j c k l = ground (arith, h k l)
