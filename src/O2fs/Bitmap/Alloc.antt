-- ===== src/O2fs/Bitmap/Alloc.antt =====
-- What O2FSBAlloc finds and marks.
use boring_os_ssaha.Prelude.{
  split_eq, ℕ, zero, suc, ◌+◌, ◌*◌, ◌/◌, ◌%◌, ◌≤◌, ◌<◌, ◌≡◌, ◌≢◌, refl, sym, ap, ◌∙◌, subst, arith,
  ltb, if◌then◌else◌, true, Option, none, some, inl, inr, ◌⊎◌,
}
use boring_os_ssaha.O2fs.Bitmap.{Vfs, max_buffers, first, bit, try_bit, try_byte, try_buffer}

-- The first round that returns, or none.
pub data First {A : Type 0} (n lo : ℕ) (f : ℕ → Option A) : Option A → Type 0 where
  nothing : ((k : ℕ) → lo ≤ k → k < lo + n → f k ≡ none) → First n lo f none
  found :
      {x : A} (k : ℕ)
      → lo ≤ k
      → k < lo + n
      → f k ≡ some x
      → ((j : ℕ) → lo ≤ j → j < k → f j ≡ none)
      → First n lo f (some x)

First-later :
    {A : Type 0} (n lo : ℕ) (f : ℕ → Option A) (r : Option A)
    → f lo ≡ none
    → First n (lo + 1) f r
    → First (suc n) lo f r
First-later n lo f _ e (First.nothing g) = First.nothing (λ k a b. elim (split_eq k lo) [
  | inl s ↦ ap f s ∙ e
  | inr ne ↦ g k (omega arith) (omega arith)
])
First-later n lo f _ e (First.found k a b h g) =
    First.found k (omega arith) (omega arith) h
      (λ j c d. elim (split_eq j lo) [ inl s ↦ ap f s ∙ e | inr ne ↦ g j (omega arith) d ])

first_step :
    {A : Type 0} (n lo : ℕ) (f : ℕ → Option A) (r : Option A)
    → f lo ≡ r
    → First n (lo + 1) f (first n (lo + 1) f)
    → First (suc n) lo f (elim r [ none ↦ first n (lo + 1) f | some x ↦ some x ])
first_step n lo f none e g = First-later n lo f (first n (lo + 1) f) e g
first_step n lo f (some x) e g =
    First.found lo (omega arith) (omega arith) e (λ j c d. absurd (omega arith))

pub first-First : {A : Type 0} (n lo : ℕ) (f : ℕ → Option A) → First n lo f (first n lo f)
unfolding first
first-First zero lo f = First.nothing (λ k a b. absurd (omega arith))
first-First (suc n) lo f = first_step n lo f (f lo) refl (first-First n (lo + 1) f)

-- The place (i, b, bi) of a bit in the buffers.
abbrev pub Inside : Vfs → ℕ → ℕ → ℕ → Type 0
Inside fs i b bi = (i < fs.buffers) × (i < max_buffers) × (b < fs.blksize) × (bi < 8)

pub place :
    (i bs b bi : ℕ)
    → b < bs
    → bi < 8
    → ((bs * 8 * i + 8 * b + bi) / (bs * 8) ≡ i) × ((bs * 8 * i + 8 * b + bi) % 8 ≡ bi)
place i bs b bi h l = (grind arith, omega arith)

First-some :
    {A : Type 0} (n lo : ℕ) (f : ℕ → Option A) (r : Option A) (x : A)
    → First n lo f r
    → r ≡ some x
    → (k : ℕ) × (lo ≤ k) × (k < lo + n) × (f k ≡ some x) × ((j : ℕ) → lo ≤ j → j < k → f j ≡ none)
First-some n lo f _ x (First.nothing g) e = absurd (cc)
First-some n lo f _ x (First.found k a b h g) e = (k, a, b, h ∙ e, g)

First-none :
    {A : Type 0} (n lo : ℕ) (f : ℕ → Option A) (r : Option A)
    → First n lo f r
    → r ≡ none
    → (k : ℕ) → lo ≤ k
    → k < lo + n
    → f k ≡ none
First-none n lo f _ (First.nothing g) e = g
First-none n lo f _ (First.found k a b h g) e = absurd (cc)

-- One round of each loop.
bit-none : (fs : Vfs) (i b bi : ℕ) → try_bit fs i b bi ≡ none → bit (fs.bytes i b) bi ≢ 0
unfolding try_bit
bit-none fs i b bi e z = ground arith

bit-some :
    (fs : Vfs) (i b bi : ℕ) (x : ℕ × (ℕ × ℕ))
    → try_bit fs i b bi ≡ some x
    → (x ≡ (i, (b, bi))) × (bit (fs.bytes i b) bi ≡ 0)
unfolding try_bit
bit-some fs i b bi x e = (ground arith, ground arith)

byte_first : (fs : Vfs) (i b : ℕ) → try_byte fs i b ≡ first 8 0 (try_bit fs i b)
unfolding try_byte
byte_first fs i b = refl

buffer_first :
    (fs : Vfs) (i : ℕ)
    → try_buffer fs i ≡ (if ltb i fs.buffers then first fs.blksize 0 (try_byte fs i) else none)
unfolding try_buffer
buffer_first fs i = refl

-- A part of the search that finds nothing has no free bit.
byte_full : (fs : Vfs) (i b bi : ℕ) → try_byte fs i b ≡ none → bi < 8 → bit (fs.bytes i b) bi ≢ 0
byte_full fs i b bi e h = bit-none fs i b bi (
    First-none 8 0 (try_bit fs i b) _ (first-First 8 0 (try_bit fs i b))
      (sym (byte_first fs i b) ∙ e) bi (omega arith) (omega arith))

buffer_full :
    (fs : Vfs) (i b bi : ℕ)
    → try_buffer fs i ≡ none
    → i < fs.buffers
    → b < fs.blksize
    → bi < 8
    → bit (fs.bytes i b) bi ≢ 0
buffer_full fs i b bi e l m h =
    let t : ltb i fs.buffers ≡ true = ground arith in
    let r : first fs.blksize 0 (try_byte fs i) ≡ none = ground (arith, buffer_first fs i, e, t) in
    byte_full fs i b bi
      (First-none fs.blksize 0 (try_byte fs i) _ (first-First fs.blksize 0 (try_byte fs i)) r b
        (omega arith) (omega arith))
      h

-- A place that the search passes before it comes to (i, b, bi).
abbrev pub Before : ℕ → ℕ → ℕ → ℕ → ℕ → ℕ → Type 0
Before j c k i b bi = (j < i) ⊎ (((j ≡ i) × (c < b)) ⊎ ((j ≡ i) × (c ≡ b) × (k < bi)))

-- The first free bit.
pub record Free (fs : Vfs) (i b bi : ℕ) : Type 0 where
  pub inside : Inside fs i b bi
  pub is_free : bit (fs.bytes i b) bi ≡ 0
  pub earliest : (j c k : ℕ) → Inside fs j c k → Before j c k i b bi → bit (fs.bytes j c) k ≢ 0

byte_free :
    (fs : Vfs) (i b : ℕ) (x : ℕ × (ℕ × ℕ))
    → try_byte fs i b ≡ some x
    → (bi : ℕ) × (x ≡ (i, (b, bi)))
      × (bi < 8)
      × (bit (fs.bytes i b) bi ≡ 0)
      × ((k : ℕ) → k < bi → bit (fs.bytes i b) k ≢ 0)
byte_free fs i b x e =
    let (bi, a, l, h, g) =
      First-some 8 0 (try_bit fs i b) _ x (first-First 8 0 (try_bit fs i b))
        (sym (byte_first fs i b) ∙ e) in
    (
      bi,
      (bit-some fs i b bi x h).0,
      omega arith,
      (bit-some fs i b bi x h).1,
      λ k m. bit-none fs i b k (g k (omega arith) m),
    )

buffer_free :
    (fs : Vfs) (i : ℕ) (x : ℕ × (ℕ × ℕ))
    → try_buffer fs i ≡ some x
    → (i < fs.buffers)
      × ((b : ℕ) × (b < fs.blksize)
          × (try_byte fs i b ≡ some x)
          × ((c : ℕ) → c < b → try_byte fs i c ≡ none))
buffer_free fs i x e =
    let t : i < fs.buffers = ground (arith, buffer_first fs i, e) in
    let r : first fs.blksize 0 (try_byte fs i) ≡ some x = ground (arith, buffer_first fs i, e, t) in
    let (b, a, l, h, g) =
      First-some fs.blksize 0 (try_byte fs i) _ x (first-First fs.blksize 0 (try_byte fs i)) r in
    (t, (b, omega arith, h, λ c m. g c (omega arith) m))

-- What the search finds: the first free bit, or there is none.
abbrev pub Searched : Vfs → Option (ℕ × (ℕ × ℕ)) → Type 0
Searched fs none = (i b bi : ℕ) → Inside fs i b bi → bit (fs.bytes i b) bi ≢ 0
Searched fs (some (i, (b, bi))) = Free fs i b bi

earlier :
    (fs : Vfs) (i b bi : ℕ)
    → ((j : ℕ) → 0 ≤ j → j < i → try_buffer fs j ≡ none)
    → ((c : ℕ) → c < b → try_byte fs i c ≡ none)
    → ((k : ℕ) → k < bi → bit (fs.bytes i b) k ≢ 0)
    → (j c k : ℕ) → Inside fs j c k
    → Before j c k i b bi
    → bit (fs.bytes j c) k ≢ 0
earlier fs i b bi g q w j c k (l, m, h, o) (inl a) =
    buffer_full fs j c k (g j (omega arith) a) l h o
earlier fs i b bi g q w j c k (l, m, h, o) (inr (inl (e, a))) =
    byte_full fs j c k (ap (λ (y : ℕ). try_byte fs y c) e ∙ q c a) o
earlier fs i b bi g q w j c k (l, m, h, o) (inr (inr (e, f, a))) = λ z. w k a (
    ap (λ (y : ℕ). bit (fs.bytes y b) k) (sym e) ∙ ap (λ (y : ℕ). bit (fs.bytes j y) k) (sym f) ∙ z)

pub search_some :
    (fs : Vfs) (x : ℕ × (ℕ × ℕ))
    → first max_buffers 0 (try_buffer fs) ≡ some x
    → Searched fs (some x)
search_some fs x e =
    let (i, a, l, h, g) =
      First-some max_buffers 0 (try_buffer fs) _ x (first-First max_buffers 0 (try_buffer fs)) e in
    let (m, (b, n, p, q)) = buffer_free fs i x h in
    let (bi, y, o, z, w) = byte_free fs i b x p in
    subst (λ (v : ℕ × (ℕ × ℕ)). Searched fs (some v)) (sym y)
      (record {
        inside = (m, omega arith, n, o);
        is_free = z;
        earliest = λ j c k ins bf. earlier fs i b bi g q w j c k ins bf;
      })

pub search_none : (fs : Vfs) → first max_buffers 0 (try_buffer fs) ≡ none → Searched fs none
search_none fs e i b bi (l, m, h, o) =
    buffer_full fs i b bi
      (First-none max_buffers 0 (try_buffer fs) _ (first-First max_buffers 0 (try_buffer fs)) e i
        (omega arith) (omega arith))
      l h o
