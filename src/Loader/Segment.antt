-- ===== src/Loader/Segment.antt =====
-- The pages of a segment.
use boring_os_ssaha.Prelude.{
  ℕ, zero, suc, ◌+◌, ◌-◌, ◌/◌, ◌%◌, ◌^◌, ◌≤◌, ◌<◌, ◌≡◌, ◌≢◌, refl, sym, ap, subst, ◌∙◌, arith, ltb,
  leb, if◌then◌else◌, true, false, ◌&&◌, some, update, split_eq, Bool-cases, inl, inr, ◌⊎◌,
}
use boring_os_ssaha.PAlloc.{pgsize, directmap_base}
use boring_os_ssaha.CString.{memset}
use boring_os_ssaha.PMap.{Space, small_address}
use boring_os_ssaha.PMap.Walk.{IsSpace}
use boring_os_ssaha.PMap.Walk.{view}
use boring_os_ssaha.PMap.Translate.{translate-view}
use boring_os_ssaha.Loader.{Fill, fill_page, fill_pages, clear}

-- Where the kernel sees an address of a program.
abbrev pub place : Space → ℕ → ℕ
place s a = (small_address (view s (a / pgsize)) a + directmap_base) % 2 ^ 64

-- The user half has its tables, and no two of its pages have the same memory.
pub record IsProgram (s : Space) : Type 0 where
  pub space : IsSpace s
  pub apart :
      (a b : ℕ)
      → a < 2 ^ 47
      → b < 2 ^ 47
      → view s (a / pgsize) ≢ 0
      → view s (b / pgsize) ≢ 0
      → place s a ≡ place s b
      → a ≡ b

-- The pages that an access to `len` bytes at `v` uses.
abbrev pub IsMapped : Space → ℕ → ℕ → Type 0
IsMapped s v len = (v + len < 2 ^ 47) × ((i : ℕ) → i < len → view s ((v + i) / pgsize) ≢ 0)

-- The bytes at the places of `len` addresses from `v` on are those of `value`, and no others are changed.
pub record Filled (s : Space) (v len : ℕ) (value : ℕ → ℕ) (m u : ℕ → ℕ) : Type 0 where
  pub inside : (i : ℕ) → i < len → u (place s (v + i)) ≡ value i
  pub outside : (p : ℕ) → ((i : ℕ) → i < len → p ≢ place s (v + i)) → u p ≡ m p

-- What is done with a piece of a page: it gets the bytes of `value` from the offset on, where these are
-- among the first `size`.
abbrev pub Writes : Fill → (ℕ → ℕ) → ℕ → Type 0
Writes fill value size =
    (m : ℕ → ℕ) (raddr offset len p : ℕ)
    → offset < size
    → offset + len ≤ size
    → fill m raddr offset len p
      ≡ (if leb raddr p && ltb p (raddr + len) then value (offset + (p - raddr)) else m p)

memset-Writes :
    (m : ℕ → ℕ) (dst len p : ℕ)
    → memset m dst 0 len p ≡ (if leb dst p && ltb p (dst + len) then 0 else m p)
unfolding memset
memset-Writes m dst zero p = ground arith
memset-Writes m dst (suc len) p = ground (arith, memset-Writes (update m dst 0) (dst + 1) len p)

pub clear-Writes : (size : ℕ) → Writes clear (λ i. 0) size
clear-Writes size m raddr offset len p lo hi = memset-Writes m raddr len p

place-next :
    (s : Space) (v i : ℕ)
    → v % pgsize + i < pgsize
    → (place s (v + i) ≡ place s v + i) × (place s v + i < 2 ^ 64)
place-next s v i h =
    let e : (v + i) / pgsize ≡ v / pgsize = omega arith in
    let f : (v + i) % pgsize ≡ v % pgsize + i = omega arith in rw (e, f) (omega arith, omega arith)

pub fill_page-Filled :
    (s : Space) (fill : Fill) (value m : ℕ → ℕ) (v offset len size : ℕ)
    → Writes fill value size
    → offset < size
    → offset + len ≤ size
    → IsProgram s
    → v < 2 ^ 47
    → view s (v / pgsize) ≢ 0
    → v % pgsize + len ≤ pgsize
    → (u : ℕ → ℕ) × (fill_page s fill m v offset len ≡ some u)
      × Filled s v len (λ i. value (offset + i)) m u
unfolding fill_page
fill_page-Filled s fill value m v offset len size law begins ends prog low mapped within =
    let t = translate-view s v low prog.space mapped in
    (
      fill m (place s v) offset len,
      rw (fill_page, t) refl,
      record {
        inside = λ i l.
            let n = place-next s v i (omega arith) in
            let a : leb (place s v) (place s v + i) ≡ true = ground arith in
            let b : ltb (place s v + i) (place s v + len) ≡ true = ground arith in
            let c : place s v + i - place s v ≡ i = omega arith in
            rw (n.0, law m (place s v) offset len (place s v + i) begins ends, a, b, c) refl;
        outside = λ p h. elim (Bool-cases (leb (place s v) p && ltb p (place s v + len))) [
          | inl t ↦
              let lo : place s v ≤ p = ground arith in
              let hi : p < place s v + len = ground arith in
              let n = place-next s v (p - place s v) (omega arith) in
              absurd (h (p - place s v) (omega arith) (omega (arith, n.0)))
          | inr f ↦ rw (law m (place s v) offset len p begins ends, f) refl
        ];
      },
    )

pub split_lt : (a b : ℕ) → (a < b) ⊎ (b ≤ a)
split_lt a b = elim (Bool-cases (ltb a b)) [
  | inl t ↦ inl (ground arith)
  | inr f ↦ inr (ground arith)
]

pub assoc : (a b c : ℕ) → a + b + c ≡ a + (b + c)
assoc a b c = omega arith

pub Filled-join :
    (s : Space) (v a b : ℕ) (value after m u w : ℕ → ℕ)
    → IsProgram s
    → IsMapped s v (a + b)
    → Filled s v a value m u
    → ((i : ℕ) → after i ≡ value (a + i))
    → Filled s (v + a) b after u w
    → Filled s v (a + b) value m w
Filled-join s v a b value after m u w prog (low, mapped) f same_bytes g = record {
  inside = λ i l. elim (split_lt i a) [
    | inl first ↦
        g.outside (place s (v + i)) (λ j k e.
          let same =
            prog.apart (v + i) (v + a + j) (omega arith) (omega arith) (mapped i (omega arith))
              (subst (λ x. view s (x / pgsize) ≢ 0) (sym (assoc v a j))
                (mapped (a + j) (omega arith)))
              e in
          omega (arith, same))
        ∙ f.inside i first
    | inr second ↦
        let e : v + a + (i - a) ≡ v + i = omega arith in
        let k : a + (i - a) ≡ i = omega arith in
        rw (← e) (g.inside (i - a) (omega arith) ∙ same_bytes (i - a) ∙ ap value k)
  ];
  outside = λ p h.
      g.outside p (λ j k e. h (a + j) (omega arith) (e ∙ ap (λ x. place s x) (assoc v a j)))
      ∙ f.outside p (λ i l. h i (omega arith));
}

pub IsMapped-page : (s : Space) (v len : ℕ) → len ≢ 0 → IsMapped s v len → view s (v / pgsize) ≢ 0
IsMapped-page s v len nz (low, mapped) =
    let e : v + 0 ≡ v = omega arith in
    subst (λ x. view s (x / pgsize) ≢ 0) e (mapped 0 (omega arith))

pub IsMapped-take : (s : Space) (v a b : ℕ) → IsMapped s v (a + b) → IsMapped s v a
IsMapped-take s v a b (low, mapped) = (omega arith, λ i l. mapped i (omega arith))

pub IsMapped-drop : (s : Space) (v a b : ℕ) → IsMapped s v (a + b) → IsMapped s (v + a) b
IsMapped-drop s v a b (low, mapped) = (
  omega arith,
  λ i l. subst (λ x. view s (x / pgsize) ≢ 0) (sym (assoc v a i)) (mapped (a + i) (omega arith)),
)

pub fill_pages-Filled :
    (s : Space) (fill : Fill) (value m : ℕ → ℕ) (v offset len size fuel : ℕ)
    → Writes fill value size
    → offset + len ≤ size
    → IsProgram s
    → (len ≢ 0 → v % pgsize ≡ 0)
    → IsMapped s v len
    → offset + len < 2 ^ 64
    → len < fuel
    → (u : ℕ → ℕ) × (fill_pages s fill m v offset len fuel ≡ some u)
      × Filled s v len (λ i. value (offset + i)) m u
unfolding fill_pages
fill_pages-Filled s fill value m v offset len size zero law ends prog aligned mapped small enough =
    absurd (omega arith)
fill_pages-Filled s fill value m v offset len size (suc fuel) law ends prog aligned mapped small
      enough =
    elim (split_lt pgsize len) [
      | inl more ↦
          let b : ltb pgsize len ≡ true = ground arith in
          let rest = len - pgsize in
          let e : pgsize + rest ≡ len = omega arith in
          let whole = subst (λ l. IsMapped s v l) (sym e) mapped in
          let (u, r, f) =
            fill_page-Filled s fill value m v offset pgsize size law (omega arith) (omega arith)
              prog (omega (arith, mapped.0)) (IsMapped-page s v len (omega arith) mapped)
              (omega (arith, aligned (omega arith))) in
          let (w, q, g) =
            fill_pages-Filled s fill value u (v + pgsize) (offset + pgsize) rest size fuel law
              (omega arith) prog (λ z. omega (arith, aligned (omega arith)))
              (IsMapped-drop s v pgsize rest whole) (omega arith) (omega arith) in
          let k : (v + pgsize) % 2 ^ 64 ≡ v + pgsize = omega (arith, mapped.0) in
          let l : (offset + pgsize) % 2 ^ 64 ≡ offset + pgsize = omega arith in
          (
            w,
            rw (b, r, k, l) q,
            subst (λ n. Filled s v n (λ i. value (offset + i)) m w) e
                (Filled-join s v pgsize rest (λ i. value (offset + i))
                  (λ i. value (offset + pgsize + i)) m u w prog whole f
                  (λ i. ap value (assoc offset pgsize i)) g),
          )
      | inr less ↦
          let b : ltb pgsize len ≡ false = ground arith in
          elim (split_eq len 0) [
            | inl z ↦
                let c : ltb 0 len ≡ false = ground arith in
                (
                  m,
                  rw (b, c) refl,
                  record { inside = λ i l. absurd (omega arith); outside = λ p h. refl },
                )
            | inr nz ↦
                let c : ltb 0 len ≡ true = ground arith in
                let (u, r, f) =
                  fill_page-Filled s fill value m v offset len size law (omega arith) ends prog
                    (omega (arith, mapped.0)) (IsMapped-page s v len nz mapped)
                    (omega (arith, aligned nz)) in
                (u, rw (b, c) r, f)
          ]
    ]
