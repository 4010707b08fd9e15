-- ===== src/O2fs/Write/InPlace.antt =====
-- A write inside a file.
use boring_os_ssaha.Prelude.{
  split_eq, ℕ, zero, suc, ◌+◌, ◌-◌, ◌*◌, ◌/◌, ◌%◌, ◌^◌, ◌≤◌, ◌<◌, ◌≡◌, ◌≢◌, refl, sym, ap, ◌∙◌,
  subst, arith, ◌==◌, leb, ltb, ◌&&◌, if◌then◌else◌, Bool, true, false, Bool-cases, inl, inr, ◌⊎◌,
}
use boring_os_ssaha.O2fs.File.{round_length}
use boring_os_ssaha.O2fs.File.Read.{add_in_block, next_block, floor_le}
use boring_os_ssaha.O2fs.Write.{File, written, write_block, write_loop, write, patch}

-- The byte `k` of the file.
abbrev pub byte_of : File → ℕ → ℕ
byte_of f k = f.store (f.direct (k / f.fs.blksize)) (k % f.fs.blksize)

-- No other block of the file is the block of the disk that one within its size is.
abbrev pub Apart : File → Type 0
Apart f = (b c : ℕ) → b * f.fs.blksize < f.size → f.direct b ≡ f.direct c → b ≡ c

-- The byte `k` is one of the `n` from `off` on.
abbrev pub is_in : ℕ → ℕ → ℕ → Bool
is_in off n k = leb off k && ltb k (off + n)

div_mod : (bs k : ℕ) → 0 < bs → (k ≡ k / bs * bs + k % bs) × (k % bs < bs)
div_mod bs k h = (grind arith, grind arith)

-- A byte of the block of `off`, and a byte of another one.
patch_same :
    (block buf : ℕ → ℕ) (bs off n k : ℕ)
    → 0 < bs
    → off % bs + n ≤ bs
    → k / bs ≡ off / bs
    → patch block (off % bs) n buf (k % bs)
      ≡ (if is_in off n k then buf (k - off) else block (k % bs))
patch_same block buf bs off n k pos h e =
    let (a, b) = div_mod bs off pos in
    let (c, d) = div_mod bs k pos in
    let same : k / bs * bs ≡ off / bs * bs = ap (λ (y : ℕ). y * bs) e in
    elim (Bool-cases (is_in off n k)) [
      | inl t ↦
          let lo : off ≤ k = ground arith in
          let hi : k < off + n = ground arith in
          let x : is_in (off % bs) n (k % bs) ≡ true = ground arith in
          let y : k % bs - off % bs ≡ k - off = omega arith in rw (t, x, y) refl
      | inr u ↦
          let out : (k < off) ⊎ (off + n ≤ k) = ground arith in
          let x : is_in (off % bs) n (k % bs) ≡ false = ground arith in rw (u, x) refl
    ]

other_block :
    (bs off n k : ℕ) → 0 < bs → off % bs + n ≤ bs → k / bs ≢ off / bs → is_in off n k ≡ false
other_block bs off n k pos h ne = elim (Bool-cases (is_in off n k)) [
  | inl t ↦
      let lo : off ≤ k = ground arith in
      let hi : k < off + n = ground arith in
      let z : off + (k - off) ≡ k = omega arith in
      let e = (add_in_block bs off (k - off) pos (omega arith)).0 in
      absurd (ne (ap (λ (y : ℕ). y / bs) (sym z) ∙ e))
  | inr u ↦ u
]

-- One round: the bytes of one block that are written.
block_bytes :
    (f : File) (off n : ℕ) (buf : ℕ → ℕ)
    → 0 < f.fs.blksize
    → Apart f
    → off < f.size
    → off % f.fs.blksize + n ≤ f.fs.blksize
    → (k : ℕ)
    → byte_of (write_block f (off / f.fs.blksize) (off % f.fs.blksize) n buf) k
      ≡ (if is_in off n k then buf (k - off) else byte_of f k)
block_bytes f off n buf pos a l h k =
    let bs = f.fs.blksize in
    elim (split_eq (k / bs) (off / bs)) [
      | inl e ↦
          let x : f.direct (k / bs) ≡ f.direct (off / bs) = ap f.direct e in
          rw x (ground (arith, patch_same (f.store (f.direct (off / bs))) buf bs off n k pos h e))
      | inr ne ↦
          let low : off / bs * bs < f.size = omega (arith, floor_le bs off pos) in
          let d : f.direct (k / bs) ≢ f.direct (off / bs) =
            λ z. ne (sym (a (off / bs) (k / bs) low (sym z))) in
          rw (other_block bs off n k pos h ne) (ground (arith, d))
    ]

-- What a write of `len` bytes leaves: those bytes, and all others as they were.
pub record Wrote (f : File) (buf : ℕ → ℕ) (off len : ℕ) (u : File) : Type 0 where
  pub fs : u.fs ≡ f.fs
  pub size : u.size ≡ f.size
  pub direct : u.direct ≡ f.direct
  pub bytes : (k : ℕ) → byte_of u k ≡ (if is_in off len k then buf (k - off) else byte_of f k)

in_longer : (off n m k : ℕ) → is_in (off + n) m k ≡ false → is_in off n k ≡ is_in off (n + m) k
in_longer off n m k u = ground arith

then_bytes :
    (f g : File) (buf : ℕ → ℕ) (off n m k : ℕ)
    → byte_of g k ≡ (if is_in off n k then buf (k - off) else byte_of f k)
    → (if is_in (off + n) m k then buf (k - (off + n) + n) else byte_of g k)
      ≡ (if is_in off (n + m) k then buf (k - off) else byte_of f k)
then_bytes f g buf off n m k e = elim (Bool-cases (is_in (off + n) m k)) [
  | inl t ↦
      let lo : off + n ≤ k = ground arith in
      let hi : k < off + n + m = ground arith in
      let x : is_in off (n + m) k ≡ true = ground arith in
      let y : k - (off + n) + n ≡ k - off = omega arith in rw (t, x, y) refl
  | inr u ↦
      rw (u, e)
        (ap (λ (b : Bool). if b then buf (k - off) else byte_of f k) (in_longer off n m k u))
]

Wrote-then :
    (f g u : File) (buf : ℕ → ℕ) (off n m : ℕ)
    → Wrote f buf off n g
    → Wrote g (λ k. buf (k + n)) (off + n) m u
    → Wrote f buf off (n + m) u
Wrote-then f g u buf off n m a b = record {
  fs = b.fs ∙ a.fs;
  size = b.size ∙ a.size;
  direct = b.direct ∙ a.direct;
  bytes = λ k. b.bytes k ∙ then_bytes f g buf off n m k (a.bytes k);
}

-- The block node of the file can be read at all blocks of the file.
abbrev pub Readable : (ℕ → Bool) → File → Type 0
Readable readable f = (b : ℕ) → b * f.fs.blksize < f.size → readable (f.direct b) ≡ true

write_loop_lem :
    (fuel : ℕ) (readable : ℕ → Bool) (f : File) (buf : ℕ → ℕ) (off len cnt : ℕ)
    → 0 < f.fs.blksize
    → Apart f
    → Readable readable f
    → len < fuel
    → 0 < len
    → off + len ≤ f.size
    → (u : File) × (write_loop fuel readable f buf off len cnt ≡ (u, written (cnt + len)))
      × Wrote f buf off len u
unfolding write_loop
write_loop_lem zero readable f buf off len cnt pos a r h z l = absurd (omega arith)
write_loop_lem (suc fuel) readable f buf off len cnt pos a r h z l =
    let bs = f.fs.blksize in
    let n = round_length bs off len in
    let g = write_block f (off / bs) (off % bs) n buf in
    let can : readable (f.direct (off / bs)) ≡ true =
      r (off / bs) (omega (arith, floor_le bs off pos)) in
    let (e, q, m) = next_block bs off pos in
    let fits : off % bs + n ≤ bs = ground arith in
    let some_byte : 0 < n = ground arith in
    let within : n ≤ len = ground arith in
    let w : Wrote f buf off n g = record {
      fs = refl;
      size = refl;
      direct = refl;
      bytes = block_bytes f off n buf pos a (omega arith) fits;
    } in
    elim (split_eq (len - n) 0) [
      | inl last ↦
          let whole : n ≡ len = omega arith in
          (
            g,
            rw (can, last) (ap (λ (x : ℕ). (g, written (cnt + x))) whole),
            subst (λ (x : ℕ). Wrote f buf off x g) whole w,
          )
      | inr more ↦
          let no_end : (len - n == 0) ≡ false = ground arith in
          let sum : n + (len - n) ≡ len = omega arith in
          let (u, k, v) =
            write_loop_lem fuel readable g (λ y. buf (y + n)) (off + n) (len - n) (cnt + n) pos a r
              (omega arith) (omega arith) (omega arith) in
          (
            u,
            rw (can, no_end) (k ∙ ap (λ (x : ℕ). (u, written x)) (omega arith)),
            subst (λ (x : ℕ). Wrote f buf off x u) sum (Wrote-then f g u buf off n (len - n) w v),
          )
    ]

write_inside :
    (readable : ℕ → Bool) (f : File) (buf : ℕ → ℕ) (off len : ℕ)
    → off + len ≤ f.size
    → f.size < 2 ^ 64
    → write readable f buf off len ≡ write_loop (len + 1) readable f buf off len 0
unfolding write
write_inside readable f buf off len l w =
    let m : (off + len) % 2 ^ 64 ≡ off + len = omega arith in
    let inside : ltb f.size (off + len) ≡ false = ground arith in rw (m, inside) refl

-- O2FS_Write of at least one byte inside a file whose blocks are apart and can be read returns the number
-- of bytes that it was given, has written them at their place in the file, and leaves all other bytes,
-- the size, the blocks of the file and the bitmap as they were.
pub write_lem :
    (readable : ℕ → Bool) (f : File) (buf : ℕ → ℕ) (off len : ℕ)
    → 0 < f.fs.blksize
    → Apart f
    → Readable readable f
    → 0 < len
    → off + len ≤ f.size
    → f.size < 2 ^ 64
    → (u : File) × (write readable f buf off len ≡ (u, written len)) × Wrote f buf off len u
write_lem readable f buf off len pos a r z l w =
    let (u, e, v) = write_loop_lem (len + 1) readable f buf off len 0 pos a r (omega arith) z l in
    let zero_len : 0 + len ≡ len = omega arith in
    (u, write_inside readable f buf off len l w ∙ e ∙ ap (λ (x : ℕ). (u, written x)) zero_len, v)
