-- ===== src/O2fs/File/Read.antt =====
-- What O2FS_Read returns.
use mathlib.Core.List.{append-nil}
use boring_os_ssaha.Prelude.{
  ℕ, zero, suc, ◌+◌, ◌-◌, ◌*◌, ◌/◌, ◌%◌, ◌^◌, ◌≤◌, ◌<◌, ◌≡◌, refl, sym, ap, ◌∙◌, arith, ◌==◌, ltb,
  if◌then◌else◌, false, Bool-cases, Option, none, some, List, ◌∷◌, ◌++◌, inl, inr, ◌⊎◌,
}
use boring_os_ssaha.O2fs.File.{failed, done, slice, read_loop, read}

slice_ext :
    (f g : ℕ → ℕ) (a b n : ℕ)
    → ((t : ℕ) → t < n → f (a + t) ≡ g (b + t))
    → slice f a n ≡ slice g b n
slice_ext f g a b zero h = refl
slice_ext f g a b (suc n) h =
    let z : a + 0 ≡ a = omega arith in
    let w : b + 0 ≡ b = omega arith in
    let here : f a ≡ g b = ap f (sym z) ∙ h 0 (omega arith) ∙ ap g w in
    rw
      (
        here,
        slice_ext f g (a + 1) (b + 1) n
            (λ t l. ap f (omega arith) ∙ h (suc t) (omega arith) ∙ ap g (omega arith)),
      )
      refl

slice-append : (f : ℕ → ℕ) (a n m : ℕ) → slice f a n ++ slice f (a + n) m ≡ slice f a (n + m)
slice-append f a zero m = ground arith
slice-append f a (suc n) m =
    let e : a + suc n ≡ a + 1 + n = omega arith in
    let k : suc n + m ≡ suc (n + m) = omega arith in
    rw (e, k) (ap (λ (l : List ℕ). f a ∷ l) (slice-append f (a + 1) n m))

-- The byte `k` of a file.
abbrev pub file_byte : ℕ → (ℕ → ℕ → ℕ) → ℕ → ℕ
file_byte blksize byte k = byte (k / blksize) (k % blksize)

pub add_in_block :
    (bs off t : ℕ)
    → 0 < bs
    → off % bs + t < bs
    → ((off + t) / bs ≡ off / bs) × ((off + t) % bs ≡ off % bs + t)
add_in_block bs off t h l = (grind arith, grind arith)

pub next_block :
    (bs off : ℕ)
    → 0 < bs
    → ((off + (bs - off % bs)) / bs ≡ off / bs + 1)
      × ((off / bs + 1) * bs ≡ off + (bs - off % bs))
      × (off % bs < bs)
next_block bs off h = (grind arith, grind arith, grind arith)

pub floor_le : (bs off : ℕ) → 0 < bs → off / bs * bs ≤ off
floor_le bs off h = grind arith

module _ (bs : ℕ) (resolve : ℕ → Option (ℕ → ℕ)) (byte : ℕ → ℕ → ℕ) (pos : 0 < bs) where
  -- The blocks that the bytes from `off` on stand in, and the one at `off`, can be read.
  abbrev pub Readable : ℕ → ℕ → Type 0
  Readable off len =
      (b : ℕ) → off / bs ≤ b → (b * bs < off + len) ⊎ (b ≡ off / bs) → resolve b ≡ some (byte b)

  block_slice :
      (off n : ℕ)
      → off % bs + n ≤ bs
      → slice (byte (off / bs)) (off % bs) n ≡ slice (file_byte bs byte) off n
  block_slice off n h =
      slice_ext (byte (off / bs)) (file_byte bs byte) (off % bs) off n
        (λ t l. let (a, b) = add_in_block bs off t pos (omega arith) in sym (rw (a, b) refl))

  Readable-next :
      (off len : ℕ)
      → bs < off % bs + len
      → Readable off len
      → Readable (off + (bs - off % bs)) (len - (bs - off % bs))
  Readable-next off len h r b lo (inl a) =
      let (e, f, l) = next_block bs off pos in r b (omega arith) (inl (omega arith))
  Readable-next off len h r b lo (inr a) =
      let (e, f, l) = next_block bs off pos in
      let k : b * bs ≡ off + (bs - off % bs) = ap (λ (y : ℕ). y * bs) (a ∙ e) ∙ f in
      r b (omega arith) (inl (omega arith))

  pub read_loop_lem :
      (fuel off len : ℕ)
      → len < fuel
      → Readable off len
      → read_loop fuel bs resolve off len ≡ done (slice (file_byte bs byte) off len)
  unfolding read_loop
  read_loop_lem zero off len h r = absurd (omega arith)
  read_loop_lem (suc fuel) off len h r =
      let (e, f, l) = next_block bs off pos in
      let here : resolve (off / bs) ≡ some (byte (off / bs)) =
        r (off / bs) (omega arith) (inr refl) in
      elim (Bool-cases (ltb bs (off % bs + len))) [
        | inl long ↦
            let n = bs - off % bs in
            let lt : bs < off % bs + len = ground arith in
            let more : (len - n == 0) ≡ false = ground arith in
            rw
              (
                long,
                here,
                more,
                read_loop_lem fuel (off + n) (len - n) (omega arith) (Readable-next off len lt r),
              )
              (ap done (
                ap (λ (x : List ℕ). x ++ slice (file_byte bs byte) (off + n) (len - n))
                  (block_slice off n (omega arith))
                ∙ slice-append (file_byte bs byte) off n (len - n)
                ∙ ap (slice (file_byte bs byte) off) (omega arith)))
        | inr short ↦
            let le : off % bs + len ≤ bs = ground arith in
            let z : len - len ≡ 0 = omega arith in
            rw (short, here, z) (ap done (append-nil _ ∙ block_slice off len le))
      ]

  in_file :
      (off n size b : ℕ)
      → off < size
      → off + n ≤ size
      → (b * bs < off + n) ⊎ (b ≡ off / bs)
      → b * bs < size
  in_file off n size b h le (inl a) = omega arith
  in_file off n size b h le (inr a) =
      let k : b * bs ≡ off / bs * bs = ap (λ (y : ℕ). y * bs) a in
      let l : off / bs * bs ≤ off = floor_le bs off pos in omega arith

-- O2FS_Read of a file all of whose blocks can be read, from an offset before its end, returns the bytes
-- of the file from there on: as many as were asked for, or up to the end.
pub read_lem :
    (bs : ℕ) (resolve : ℕ → Option (ℕ → ℕ)) (byte : ℕ → ℕ → ℕ) (size off len : ℕ)
    → 0 < bs
    → off < size
    → off + len < 2 ^ 64
    → ((b : ℕ) → b * bs < size → resolve b ≡ some (byte b))
    → read bs size resolve off len
      ≡ done (slice (file_byte bs byte) off (if ltb size (off + len) then size - off else len))
unfolding read
read_lem bs resolve byte size off len pos h k r =
    let a : ltb size off ≡ false = ground arith in
    let m : (off + len) % 2 ^ 64 ≡ off + len = omega arith in
    let n = if ltb size (off + len) then size - off else len in
    let le : off + n ≤ size = ground arith in
    rw (a, m)
      (read_loop_lem bs resolve byte pos (n + 1) off n (omega arith)
        (λ b lo hi. r b (in_file bs resolve byte pos off n size b h le hi)))

-- At an offset that is the end of the file, O2FS_Read asks for no byte, but reads the block at that
-- offset, which is behind the last one when the size is a multiple of that of a block; where that
-- fails, the answer is its error, not 0.
pub read_at_end :
    (bs size len : ℕ) (resolve : ℕ → Option (ℕ → ℕ))
    → size + len < 2 ^ 64
    → resolve (size / bs) ≡ none
    → read bs size resolve size len ≡ failed
unfolding read read_loop
read_at_end bs size len resolve h e =
    let a : ltb size size ≡ false = ground arith in
    let n = if ltb size ((size + len) % 2 ^ 64) then size - size else len in
    let k : n + 1 ≡ suc n = omega arith in rw (a, k, e) refl
