-- ===== src/Loader/Image.antt =====
-- The image of a program in its address space.
use boring_os_ssaha.Prelude.{
  ℕ, ◌+◌, ◌-◌, ◌/◌, ◌%◌, ◌^◌, ◌≤◌, ◌<◌, ◌≡◌, ◌≢◌, sym, subst, ◌∙◌, arith, ◌==◌, ltb, leb,
  if◌then◌else◌, true, some, split_eq, inl, inr,
}
use boring_os_ssaha.PAlloc.{pgsize}
use boring_os_ssaha.PMap.{Space}
use boring_os_ssaha.PMap.Walk.{view}
use boring_os_ssaha.Loader.{Fill, Phdr, pt_load, load_segment, zero_segment, load_phdr, clear}
use boring_os_ssaha.Loader.Segment.{
  IsProgram, IsMapped, Filled, Writes, clear-Writes, Filled-join, IsMapped-take, IsMapped-drop,
  IsMapped-page,
}
use boring_os_ssaha.Loader.Parts.{fill_segment-Filled}

-- The bytes of a segment: those of the file, and zeros behind them.
abbrev pub image : (ℕ → ℕ) → Phdr → ℕ → ℕ
image file ph i = if ltb i ph.filesz then file (ph.offset + i) else 0

-- A segment that is not empty, with its pages mapped in the user half, from a file of `size` bytes.
pub record IsLoadable (size : ℕ) (s : Space) (ph : Phdr) : Type 0 where
  pub mapped : IsMapped s ph.vaddr ph.memsz
  pub some_bytes : ph.memsz ≢ 0
  pub from_file : ph.filesz ≤ ph.memsz
  pub begins : ph.offset < size
  pub in_file : ph.offset + ph.filesz ≤ size

IsLoadable-end :
    (size : ℕ) (s : Space) (ph : Phdr)
    → IsLoadable size s ph
    → (ph.vaddr + ph.filesz) % pgsize ≢ 0
    → view s ((ph.vaddr + ph.filesz) / pgsize) ≢ 0
IsLoadable-end size s ph l nz =
    let last = ph.filesz - 1 in
    elim (split_eq ph.filesz 0) [
      | inl z ↦
          let e : (ph.vaddr + ph.filesz) / pgsize ≡ ph.vaddr / pgsize = omega arith in
          rw e (IsMapped-page s ph.vaddr ph.memsz l.some_bytes l.mapped)
      | inr more ↦
          let e : (ph.vaddr + ph.filesz) / pgsize ≡ (ph.vaddr + last) / pgsize = omega arith in
          rw e (l.mapped.1 last (omega (arith, l.from_file)))
    ]

load_bytes :
    (read : Fill) (file : ℕ → ℕ) (size : ℕ) (s : Space) (m : ℕ → ℕ) (ph : Phdr)
    → Writes read file size
    → size < 2 ^ 64
    → IsProgram s
    → IsLoadable size s ph
    → (u : ℕ → ℕ) × (load_segment read s m ph.vaddr ph.offset ph.filesz ≡ some u)
      × Filled s ph.vaddr ph.filesz (λ i. file (ph.offset + i)) m u
unfolding load_segment
load_bytes read file size s m ph law fits prog l =
    let rest = ph.memsz - ph.filesz in
    let e : ph.filesz + rest ≡ ph.memsz = omega (arith, l.from_file) in
    fill_segment-Filled s read file m ph.vaddr ph.offset ph.filesz size law l.begins l.in_file prog
      (IsMapped-take s ph.vaddr ph.filesz rest
        (subst (λ n. IsMapped s ph.vaddr n) (sym e) l.mapped))
      (λ nz. IsMapped-page s ph.vaddr ph.memsz l.some_bytes l.mapped) (omega (arith, l.in_file))

zero_bytes :
    (size : ℕ) (s : Space) (u : ℕ → ℕ) (ph : Phdr)
    → IsProgram s
    → IsLoadable size s ph
    → (w : ℕ → ℕ) × (zero_segment s u (ph.vaddr + ph.filesz) (ph.memsz - ph.filesz) ≡ some w)
      × Filled s (ph.vaddr + ph.filesz) (ph.memsz - ph.filesz) (λ i. 0) u w
unfolding zero_segment
zero_bytes size s u ph prog l =
    let rest = ph.memsz - ph.filesz in
    let e : ph.filesz + rest ≡ ph.memsz = omega (arith, l.from_file) in
    fill_segment-Filled s clear (λ i. 0) u (ph.vaddr + ph.filesz) 0 rest (rest + 1)
      (clear-Writes (rest + 1)) (omega arith) (omega arith) prog
      (IsMapped-drop s ph.vaddr ph.filesz rest
        (subst (λ n. IsMapped s ph.vaddr n) (sym e) l.mapped))
      (IsLoadable-end size s ph l) (omega (arith, l.mapped.0))

Filled-ext :
    (s : Space) (v len : ℕ) (value other m u : ℕ → ℕ)
    → ((i : ℕ) → i < len → value i ≡ other i)
    → Filled s v len value m u
    → Filled s v len other m u
Filled-ext s v len value other m u e f = record {
  inside = λ i l. f.inside i l ∙ e i l;
  outside = f.outside;
}

pub load_phdr-Filled :
    (read : Fill) (file : ℕ → ℕ) (size : ℕ) (s : Space) (m : ℕ → ℕ) (ph : Phdr)
    → Writes read file size
    → size < 2 ^ 64
    → IsProgram s
    → ph.type ≡ pt_load
    → IsLoadable size s ph
    → (w : ℕ → ℕ) × (load_phdr read s m ph ≡ some w)
      × Filled s ph.vaddr ph.memsz (image file ph) m w
unfolding load_phdr
load_phdr-Filled read file size s m ph law fits prog loads l =
    let rest = ph.memsz - ph.filesz in
    let e : ph.filesz + rest ≡ ph.memsz = omega (arith, l.from_file) in
    let (u, r, f) = load_bytes read file size s m ph law fits prog l in
    let (w, q, g) = zero_bytes size s u ph prog l in
    let a : (ph.type == pt_load) ≡ true = ground arith in
    let b : leb ph.filesz ph.memsz ≡ true = ground (arith, l.from_file) in
    let c : (ph.filesz + ph.vaddr) % 2 ^ 64 ≡ ph.vaddr + ph.filesz =
      omega (arith, l.mapped.0, l.from_file) in
    let whole = subst (λ n. IsMapped s ph.vaddr n) (sym e) l.mapped in
    (
      w,
      rw (load_phdr, a, r, b, c) q,
      subst (λ n. Filled s ph.vaddr n (image file ph) m w) e
          (Filled-join s ph.vaddr ph.filesz rest (image file ph) (λ i. 0) m u w prog whole
            (Filled-ext s ph.vaddr ph.filesz (λ i. file (ph.offset + i)) (image file ph) m u
              (λ i k. ground arith) f)
            (λ i. ground arith) g),
    )
