-- ===== src/Vfs/Path.antt =====
-- Paths as lists of names.
use boring_os_ssaha.Prelude.{
  ℕ, ◌<◌, ◌≡◌, ◌≢◌, refl, sym, ap, ◌∙◌, arith, ◌==◌, ltb, if◌then◌else◌, true, false, Option, none,
  some, List, [], ◌∷◌, ◌++◌, length, append-nil, append_assoc, Option-cases, inl, inr,
}
use boring_os_ssaha.Vfs.{Answer, returns, overrun, fault, slash, enter, walk, vfs_lookup}

-- No character of a name is a slash.
abbrev pub NoSlash : List ℕ → Type 0
NoSlash [] = Unit
NoSlash (c ∷ chars) = (c ≢ slash) × NoSlash chars

abbrev pub IsName : List ℕ → Type 0
IsName name = NoSlash name × (length name ≢ 0) × (length name < 256)

abbrev pub AreNames : List (List ℕ) → Type 0
AreNames [] = Unit
AreNames (name ∷ names) = IsName name × AreNames names

-- The path of names, each with a slash before it.
abbrev pub render : List (List ℕ) → List ℕ
render [] = []
render (name ∷ names) = slash ∷ (name ++ render names)

-- One name after the other is looked up in the node that the last one gave.
abbrev pub resolve : (ℕ → List ℕ → Option ℕ) → ℕ → List (List ℕ) → Answer
resolve lookup cur [] = returns cur
resolve lookup cur (name ∷ names) =
    let rest : Answer = elim (lookup cur name) [
      | none ↦ returns 0
      | some node ↦ resolve lookup node names
    ] in
    if cur == 0 then fault else rest

-- What may end a path.
pub data Ends (lookup : ℕ → List ℕ → Option ℕ) : List ℕ → Type 0 where
  at_end : Ends lookup []
  at_slash :
      (tail : List ℕ)
      → ((node : ℕ) → walk lookup node [] tail ≡ returns node)
      → Ends lookup (slash ∷ tail)

walk-name :
    (lookup : ℕ → List ℕ → Option ℕ) (cur : ℕ) (name chars rest : List ℕ)
    → NoSlash chars
    → walk lookup cur name (chars ++ rest) ≡ walk lookup cur (name ++ chars) rest
unfolding walk
walk-name lookup cur name [] rest h = ap (λ n. walk lookup cur n rest) (sym (append-nil name))
walk-name lookup cur name (c ∷ chars) rest (nc, h) =
    let b : (c == slash) ≡ false = ground arith in
    rw b (
      walk-name lookup cur (name ++ (c ∷ [])) chars rest h
      ∙ ap (λ n. walk lookup cur n rest) (append_assoc name (c ∷ []) chars))

enter-IsName :
    (lookup : ℕ → List ℕ → Option ℕ) (cur : ℕ) (name : List ℕ) (finish : ℕ → Answer)
    (names : List (List ℕ))
    → IsName name
    → ((node : ℕ) → finish node ≡ resolve lookup node names)
    → enter lookup cur name finish ≡ resolve lookup cur (name ∷ names)
unfolding enter
enter-IsName lookup cur name finish names (h, some_chars, short) e =
    let a : (length name == 0) ≡ false = ground arith in
    let b : ltb 256 (length name) ≡ false = ground arith in
    let c : (length name == 256) ≡ false = ground arith in
    elim (Option-cases (lookup cur name)) [
      | inl missing ↦ rw (a, b, c, missing) refl
      | inr (node, found) ↦ rw (a, b, c, found, e node) refl
    ]

walk-slash :
    (lookup : ℕ → List ℕ → Option ℕ) (cur : ℕ) (name rest : List ℕ)
    → walk lookup cur name (slash ∷ rest) ≡ enter lookup cur name (λ node. walk lookup node [] rest)
unfolding walk
walk-slash lookup cur name rest = refl

walk-end :
    (lookup : ℕ → List ℕ → Option ℕ) (cur : ℕ) (name : List ℕ)
    → walk lookup cur name [] ≡ enter lookup cur name (λ node. returns node)
unfolding walk
walk-end lookup cur name = refl

walk-resolve :
    (lookup : ℕ → List ℕ → Option ℕ) (cur : ℕ) (name : List ℕ) (names : List (List ℕ))
    (tail : List ℕ)
    → IsName name
    → AreNames names
    → Ends lookup tail
    → walk lookup cur name (render names ++ tail) ≡ resolve lookup cur (name ∷ names)
walk-resolve lookup cur name [] [] n ns at_end =
    walk-end lookup cur name
    ∙ enter-IsName lookup cur name (λ node. returns node) [] n (λ node. refl)
walk-resolve lookup cur name [] _ n ns (at_slash tail stops) =
    walk-slash lookup cur name tail
    ∙ enter-IsName lookup cur name (λ node. walk lookup node [] tail) [] n stops
walk-resolve lookup cur name (next ∷ names) tail n (m, ns) ends =
    walk-slash lookup cur name ((next ++ render names) ++ tail)
    ∙ enter-IsName lookup cur name (λ node. walk lookup node [] ((next ++ render names) ++ tail))
        (next ∷ names) n
        (λ node.
          ap (λ l. walk lookup node [] l) (append_assoc next (render names) tail)
          ∙ walk-name lookup node [] next (render names ++ tail) m.0
          ∙ walk-resolve lookup node next names tail m ns ends)

-- The path of names: the last node that the names lead to.
vfs_lookup-Ends :
    (lookup : ℕ → List ℕ → Option ℕ) (root : ℕ) (name : List ℕ) (names : List (List ℕ))
    (tail : List ℕ)
    → IsName name
    → AreNames names
    → Ends lookup tail
    → vfs_lookup lookup root (render (name ∷ names) ++ tail) ≡ resolve lookup root (name ∷ names)
unfolding vfs_lookup
vfs_lookup-Ends lookup root name names tail n ns ends =
    ap (λ l. walk lookup root [] l) (append_assoc name (render names) tail)
    ∙ walk-name lookup root [] name (render names ++ tail) n.0
    ∙ walk-resolve lookup root name names tail n ns ends

walk-stops :
    (lookup : ℕ → List ℕ → Option ℕ) (rest : List ℕ)
    → ((node : ℕ) → walk lookup node [] [] ≡ returns node)
      × ((node : ℕ) → walk lookup node [] (slash ∷ rest) ≡ returns node)
unfolding walk enter
walk-stops lookup rest = (λ node. refl, λ node. refl)

-- VFS_Lookup of a path of names of 1 to 255 characters looks up one name after the other, with or without
-- a slash at the end.
pub vfs_lookup-resolve :
    (lookup : ℕ → List ℕ → Option ℕ) (root : ℕ) (name : List ℕ) (names : List (List ℕ))
    → IsName name
    → AreNames names
    → (vfs_lookup lookup root (render (name ∷ names)) ≡ resolve lookup root (name ∷ names))
      × (vfs_lookup lookup root (render (name ∷ names) ++ (slash ∷ []))
          ≡ resolve lookup root (name ∷ names))
vfs_lookup-resolve lookup root name names n ns = (
  ap (λ l. vfs_lookup lookup root l) (sym (append-nil (render (name ∷ names))))
      ∙ vfs_lookup-Ends lookup root name names [] n ns at_end,
  vfs_lookup-Ends lookup root name names (slash ∷ []) n ns (at_slash [] (walk-stops lookup []).0),
)

-- A second slash ends a path: whatever comes behind it, VFS_Lookup gives what the names before it lead to.
pub double_slash :
    (lookup : ℕ → List ℕ → Option ℕ) (root : ℕ) (name : List ℕ) (names : List (List ℕ))
    (rest : List ℕ)
    → IsName name
    → AreNames names
    → vfs_lookup lookup root (render (name ∷ names) ++ (slash ∷ slash ∷ rest))
      ≡ resolve lookup root (name ∷ names)
double_slash lookup root name names rest n ns =
    vfs_lookup-Ends lookup root name names (slash ∷ slash ∷ rest) n ns
      (at_slash (slash ∷ rest) (walk-stops lookup rest).1)

-- A first name of 256 characters is written past the end of `curName`; a longer one is not found.
pub long_name_overruns :
    (lookup : ℕ → List ℕ → Option ℕ) (root : ℕ) (name : List ℕ)
    → NoSlash name
    → (length name ≡ 256 → vfs_lookup lookup root (slash ∷ name) ≡ overrun)
      × (256 < length name → vfs_lookup lookup root (slash ∷ name) ≡ returns 0)
unfolding vfs_lookup enter
long_name_overruns lookup root name h =
    let e : walk lookup root [] name ≡ enter lookup root name (λ node. returns node) =
      ap (λ l. walk lookup root [] l) (sym (append-nil name))
      ∙ walk-name lookup root [] name [] h
      ∙ walk-end lookup root name in
    (
      λ full.
          let a : (length name == 0) ≡ false = ground arith in
          let b : ltb 256 (length name) ≡ false = ground arith in
          let c : (length name == 256) ≡ true = ground arith in e ∙ rw (a, b, c) refl,
      λ more.
          let a : (length name == 0) ≡ false = ground arith in
          let b : ltb 256 (length name) ≡ true = ground arith in e ∙ rw (a, b) refl,
    )
