-- ===== src/O2fs/Directory/Find.antt =====
-- What a lookup in a directory finds.
use boring_os_ssaha.Prelude.{
  ℕ, zero, suc, ◌+◌, ◌-◌, ◌*◌, ◌/◌, ◌%◌, ◌^◌, ◌≤◌, ◌<◌, ◌≡◌, ◌≢◌, refl, sym, ap, subst, ◌∙◌, arith,
  ◌==◌, true, false, Option, none, some, List, [], ◌∷◌, length, Bool, ◌&&◌, Bool-cases,
  Option-cases, split_eq, inl, inr, ◌⊎◌,
}
use boring_os_ssaha.O2fs.File.{slice}
use boring_os_ssaha.O2fs.Directory.{
  is_named, find_entry, Lookup, found, missing, failed, then_released, lookup_blocks, lookup,
  same_string, bdir_magic, sizeof_entry,
}

-- The entry `e` of a block is one of the directory and has the name: it begins with the magic number, the
-- byte behind that, the first one of objId, is 0, and its name field has the characters and a zero.
pub record HasName (block : ℕ → ℕ) (e : ℕ) (name : List ℕ) : Type 0 where
  pub magic : slice block (e * 512) 8 ≡ bdir_magic
  pub no_hash : block (e * 512 + 8) ≡ 0
  pub characters : slice block (e * 512 + 256) (length name) ≡ name
  pub ended : block (e * 512 + 256 + length name) ≡ 0

string_of :
    (block : ℕ → ℕ) (at : ℕ) (chars : List ℕ)
    → same_string block at chars ≡ true
    → (slice block at (length chars) ≡ chars) × (block (at + length chars) ≡ 0)
unfolding same_string
string_of block at [] h = let e : at + 0 ≡ at = omega arith in (refl, rw e (ground arith))
string_of block at (c ∷ chars) h =
    let e : at + suc (length chars) ≡ at + 1 + length chars = omega arith in
    elim (Bool-cases (block at == c)) [
      | inl t ↦
          let first : block at ≡ c = ground arith in
          let rest =
            string_of block (at + 1) chars
              (ap (λ x. x && same_string block (at + 1) chars) (sym t) ∙ h) in
          (ap (λ l. block at ∷ l) rest.0 ∙ ap (λ x. x ∷ chars) first, rw e rest.1)
      | inr f ↦ absurd (ground arith)
    ]

cons_injective : {x y : ℕ} {xs ys : List ℕ} → x ∷ xs ≡ y ∷ ys → (x ≡ y) × (xs ≡ ys)
cons_injective e = (cc, cc)

of_string :
    (block : ℕ → ℕ) (at : ℕ) (chars : List ℕ)
    → slice block at (length chars) ≡ chars
    → block (at + length chars) ≡ 0
    → same_string block at chars ≡ true
unfolding same_string
of_string block at [] h z =
    let e : at + 0 ≡ at = omega arith in let w : block at ≡ 0 = ap block (sym e) ∙ z in ground arith
of_string block at (c ∷ chars) h z =
    let e : at + suc (length chars) ≡ at + 1 + length chars = omega arith in
    let k = cons_injective h in
    let t : (block at == c) ≡ true = ground (arith, k.0) in
    rw (t, of_string block (at + 1) chars k.1 (ap block (sym e) ∙ z)) refl

and_both : (a b : Bool) → a && b ≡ true → (a ≡ true) × (b ≡ true)
and_both true b h = (refl, h)
and_both false b h = absurd (cc)

is_named-HasName :
    (block : ℕ → ℕ) (e : ℕ) (name : List ℕ) → is_named block e name ≡ true → HasName block e name
unfolding is_named
is_named-HasName block e name t =
    let (a, b) =
      and_both (same_string block (e * 512) bdir_magic) (same_string block (e * 512 + 256) name)
        t in
    let m = string_of block (e * 512) bdir_magic a in
    let n = string_of block (e * 512 + 256) name b in
    record { magic = m.0; no_hash = m.1; characters = n.0; ended = n.1 }

HasName-is_named :
    (block : ℕ → ℕ) (e : ℕ) (name : List ℕ) → HasName block e name → is_named block e name ≡ true
unfolding is_named
HasName-is_named block e name h =
    let a = of_string block (e * 512) bdir_magic h.magic h.no_hash in
    let b = of_string block (e * 512 + 256) name h.characters h.ended in rw (a, b) refl

true-false : true ≡ false → ⊥
true-false e = cc

is_named-none :
    (block : ℕ → ℕ) (e : ℕ) (name : List ℕ)
    → is_named block e name ≡ false
    → ¬ (HasName block e name)
is_named-none block e name f h = true-false (sym (HasName-is_named block e name h) ∙ f)

-- No entry from `e` to before `last` has the name.
abbrev pub NoneNamed : (ℕ → ℕ) → List ℕ → ℕ → ℕ → Type 0
NoneNamed block name e last = (i : ℕ) → e ≤ i → i < last → ¬ (HasName block i name)

-- The answer of the loop over the entries of a block.
abbrev pub EntryFound : (ℕ → ℕ) → List ℕ → ℕ → ℕ → Option ℕ → Type 0
EntryFound block name e left none = NoneNamed block name e (e + left)
EntryFound block name e left (some i) =
    (e ≤ i) × (i < e + left) × HasName block i name × NoneNamed block name e i

NoneNamed-next :
    (block : ℕ → ℕ) (name : List ℕ) (e last : ℕ)
    → ¬ (HasName block e name)
    → NoneNamed block name (e + 1) last
    → NoneNamed block name e last
NoneNamed-next block name e last f rest i lo hi = elim (split_eq i e) [
  | inl same ↦ λ h. f (subst (λ k. HasName block k name) same h)
  | inr other ↦ rest i (omega arith) hi
]

EntryFound-next :
    (block : ℕ → ℕ) (name : List ℕ) (e left : ℕ) (answer : Option ℕ)
    → ¬ (HasName block e name)
    → EntryFound block name (e + 1) left answer
    → EntryFound block name e (suc left) answer
EntryFound-next block name e left none f rest =
    λ i lo hi. NoneNamed-next block name e (e + 1 + left) f rest i lo (omega arith)
EntryFound-next block name e left (some i) f rest =
    let (lo, hi, named, before) = rest in
    (omega arith, omega arith, named, NoneNamed-next block name e i f before)

find_entry-EntryFound :
    (block : ℕ → ℕ) (name : List ℕ) (e left : ℕ)
    → EntryFound block name e left (find_entry block name e left)
unfolding find_entry
find_entry-EntryFound block name e zero = λ i lo hi. absurd (omega arith)
find_entry-EntryFound block name e (suc left) = elim (Bool-cases (is_named block e name)) [
  | inl t ↦
      rw t
        (omega arith, omega arith, is_named-HasName block e name t, λ i lo hi. absurd (omega arith))
  | inr f ↦ rw f (
      EntryFound-next block name e left (find_entry block name (e + 1) left)
        (is_named-none block e name f) (find_entry-EntryFound block name (e + 1) left))
]

-- A block that can be read and has no entry with the name.
abbrev pub IsPassed : (ℕ → Option (ℕ → ℕ)) → ℕ → List ℕ → ℕ → Type 0
IsPassed resolve per_block name b =
    (block : ℕ → ℕ) × (resolve b ≡ some block) × NoneNamed block name 0 per_block

-- The blocks from `b` to before `last`.
abbrev pub from_to : ℕ → ℕ → List ℕ
from_to b zero = []
from_to b (suc n) = b ∷ from_to (b + 1) n

-- The answer of the loop over the blocks from `b` on: `n` blocks are passed and released.
pub record Found (resolve : ℕ → Option (ℕ → ℕ)) (per_block : ℕ) (name : List ℕ) (b left : ℕ)
    (answer : Lookup × List ℕ) : Type 0 where
  pub n : ℕ
  pub passed : (i : ℕ) → i < n → IsPassed resolve per_block name (b + i)
  pub released : answer.1 ≡ from_to b n
  pub ends :
      ((n ≡ left) × (answer.0 ≡ missing))
      ⊎ (((n < left) × (answer.0 ≡ failed) × (resolve (b + n) ≡ none))
          ⊎ ((e : ℕ) × (block : ℕ → ℕ) × (n < left)
              × (answer.0 ≡ found (b + n) e)
              × (resolve (b + n) ≡ some block)
              × (e < per_block)
              × HasName block e name
              × NoneNamed block name 0 e))

shift : (b i : ℕ) → b + 1 + i ≡ b + suc i
shift b i = omega arith

Found-next :
    (resolve : ℕ → Option (ℕ → ℕ)) (per_block : ℕ) (name : List ℕ) (b left : ℕ)
    (rest : Lookup × List ℕ)
    → IsPassed resolve per_block name b
    → Found resolve per_block name (b + 1) left rest
    → Found resolve per_block name b (suc left) (then_released b rest)
Found-next resolve per_block name b left (answer, l) here f = record {
  n = suc f.n;
  passed = λ i lo. elim (split_eq i 0) [
    | inl z ↦
        let e : b ≡ b + i = omega arith in subst (λ k. IsPassed resolve per_block name k) e here
    | inr nz ↦
        let e : b + 1 + (i - 1) ≡ b + i = omega arith in
        subst (λ k. IsPassed resolve per_block name k) e (f.passed (i - 1) (omega arith))
  ];
  released = ap (λ r. b ∷ r) f.released;
  ends = elim f.ends [
    | inl (e, a) ↦ inl (ap suc e, a)
    | inr (inl (lo, a, r)) ↦ inr (inl (omega arith, a, ap resolve (sym (shift b f.n)) ∙ r))
    | inr (inr (e, block, lo, a, r, small, named, before)) ↦ inr (
        inr (
          e,
          block,
          omega arith,
          a ∙ ap (λ k. found k e) (shift b f.n),
          ap resolve (sym (shift b f.n)) ∙ r,
          small,
          named,
          before,
        ))
  ];
}

add_zero : (b : ℕ) → b ≡ b + 0
add_zero b = omega arith

entry_in :
    (resolve : ℕ → Option (ℕ → ℕ)) (per_block : ℕ) (name : List ℕ) (b left : ℕ) (block : ℕ → ℕ)
    (o : Option ℕ) (rest : Lookup × List ℕ)
    → resolve b ≡ some block
    → EntryFound block name 0 per_block o
    → Found resolve per_block name (b + 1) left rest
    → Found resolve per_block name b
        (suc left)
        (elim o [ some e ↦ (found b e, []) | none ↦ then_released b rest ])
entry_in resolve per_block name b left block none rest r f others =
    Found-next resolve per_block name b left rest (block, r, λ i lo hi. f i lo (omega arith)) others
entry_in resolve per_block name b left block (some e) rest r f others = record {
  n = 0;
  passed = λ i lo. absurd (omega arith);
  released = refl;
  ends =
      let (lo, hi, named, before) = f in
      inr (
        inr (
          e,
          block,
          omega arith,
          ap (λ k. found k e) (add_zero b),
          ap resolve (sym (add_zero b)) ∙ r,
          omega arith,
          named,
          before,
        ));
}

lookup_blocks-Found :
    (resolve : ℕ → Option (ℕ → ℕ)) (per_block : ℕ) (name : List ℕ) (b left : ℕ)
    → Found resolve per_block name b left (lookup_blocks resolve per_block name b left)
unfolding lookup_blocks
lookup_blocks-Found resolve per_block name b zero = record {
  n = 0;
  passed = λ i lo. absurd (omega arith);
  released = refl;
  ends = inl (refl, refl);
}
lookup_blocks-Found resolve per_block name b (suc left) = elim (Option-cases (resolve b)) [
  | inl unread ↦
      rw (lookup_blocks, unread)
        (record {
          n = 0;
          passed = λ i lo. absurd (omega arith);
          released = refl;
          ends = inr (inl (omega arith, refl, ap resolve (sym (add_zero b)) ∙ unread));
        })
  | inr (block, r) ↦
      rw (lookup_blocks, r)
        (entry_in resolve per_block name b left block (find_entry block name 0 per_block)
          (lookup_blocks resolve per_block name (b + 1) left) r
          (find_entry-EntryFound block name 0 per_block)
          (lookup_blocks-Found resolve per_block name (b + 1) left))
]

-- The number of blocks of a directory.
abbrev pub blocks_of : ℕ → ℕ → ℕ
blocks_of blksize size = (size + blksize - 1) % 2 ^ 64 / blksize

-- In a file system whose block size is not 0, O2FS_Lookup finds the first entry that has the name by
-- HasName, so with a zero behind its magic number, and does not release its block; it returns -1 if each
-- block can be read and no entry has the name so, and an error at the first block that cannot be read. All
-- blocks before the one where it ends can be read, have no such entry, and are released.
pub lookup-Found :
    (resolve : ℕ → Option (ℕ → ℕ)) (blksize size : ℕ) (name : List ℕ)
    → blksize ≢ 0
    → Found resolve
        (blksize / sizeof_entry)
        name
        0
        (blocks_of blksize size)
        (lookup resolve blksize size name)
unfolding lookup
lookup-Found resolve blksize size name nonzero =
    lookup_blocks-Found resolve (blksize / sizeof_entry) name 0 (blocks_of blksize size)

same_string-longer :
    (block : ℕ → ℕ) (at : ℕ) (chars : List ℕ)
    → block (at + length chars) ≢ 0
    → same_string block at chars ≡ false
unfolding same_string
same_string-longer block at [] h = let e : at + 0 ≡ at = omega arith in ground (arith, h, e)
same_string-longer block at (c ∷ chars) h =
    let e : at + suc (length chars) ≡ at + 1 + length chars = omega arith in
    let rest = same_string-longer block (at + 1) chars (λ z. h (ap block e ∙ z)) in
    elim (Bool-cases (block at == c)) [ inl t ↦ rw (t, rest) refl | inr f ↦ rw f refl ]

-- The object's identity comes right behind the magic number, which has no zero of its own: an entry whose
-- identity begins with another byte than 0 has no name for O2FS_Lookup.
pub hashed_entry_skipped :
    (block : ℕ → ℕ) (e : ℕ) (name : List ℕ)
    → block (e * sizeof_entry + 8) ≢ 0
    → is_named block e name ≡ false
unfolding is_named
hashed_entry_skipped block e name h =
    rw (same_string-longer block (e * sizeof_entry) bdir_magic h) refl
