-- ===== src/Malloc/Small.antt =====
-- What malloc_small gives out.
use boring_os_ssaha.Prelude.{
  ℕ, zero, suc, ◌+◌, ◌*◌, ◌≤◌, ◌<◌, ◌≡◌, ◌≢◌, refl, sym, ap, ◌∙◌, subst, arith, ltb, Bool, inl, inr,
  ◌⊎◌, some, false, true, List, [], ◌∷◌, count, update,
}
use native.Mathlib.Decide.{ℕ_discrete}
use boring_os_ssaha.Slab.{push_objects}
use boring_os_ssaha.Slab.Valid.{Sound}
use boring_os_ssaha.Malloc.{
  Heap, bucket, base, grow_small, take, take_from, refill, malloc, malloc_from, malloc_small,
  heap_pools, heap_max_poolsize, heap_increment, sizeof_header,
}
use boring_os_ssaha.Malloc.Valid.{
  Marked, IsHeap, Sound-cast, ltb-cases, grown, grown-IsHeap, raised, init_objects-free_list,
  reserve,
}
use boring_os_ssaha.Malloc.Buckets.{Fits, size_to_idx-Fits, Fits-unique}

-- The pool that serves a request of `sz` bytes, and the object that it gives out: marked, inside the
-- pool, with room for the request, and apart from all objects that are free then.
pub record Given (sz p : ℕ) (g : Heap) : Type 0 where
  pub idx : ℕ
  pub fits : Fits sz idx
  pub hdr : ℕ
  pub object : p ≡ hdr + sizeof_header
  pub header : Marked g idx hdr
  pub inside : (base idx ≤ hdr) × (hdr + bucket idx ≤ g.top idx)
  pub taken : count hdr (g.free_list idx) ≡ 0
  pub apart :
      (b : ℕ) → 0 < count b (g.free_list idx) → (hdr + bucket idx ≤ b) ⊎ (b + bucket idx ≤ hdr)

-- What malloc_small can answer.
pub data Answer (h : Heap) (sz : ℕ) (granted : Bool) : Heap × ℕ → Type 0 where
  given :
      (g : Heap) (p : ℕ)
      → (granted ≡ true) ⊎ ((i : ℕ) → Fits sz i → (h.free_list i ≢ []) × (g.top ≡ h.top))
      → IsHeap g
      → Given sz p g
      → Answer h sz granted (g, p)
  null : granted ≡ false → ((i : ℕ) → Fits sz i → h.free_list i ≡ []) → Answer h sz granted (h, 0)

abbrev pub taken_from : Heap → ℕ → List ℕ → Heap
taken_from h idx rest = record h { free_list = update h.free_list idx rest }

-- The free list of the pool is not empty.
module _ (h : Heap) (idx hdr : ℕ) (rest : List ℕ) (e : h.free_list idx ≡ hdr ∷ rest)
    (v : IsHeap h) where
  first : idx < heap_pools → Sound (base idx) (h.top idx) (bucket idx) (hdr ∷ rest)
  first l = subst (λ f. Sound (base idx) (h.top idx) (bucket idx) f) e (v.sound idx l)

  taken_self : idx < heap_pools → Sound (base idx) (h.top idx) (bucket idx) rest
  taken_self l =
      let f = first l in
      record {
        inside = λ a c. f.inside a (ground arith);
        apart = λ a b c d q. f.apart a b (ground arith) (ground arith) q;
        once = λ a. ground (arith, f.once a);
      }

  taken_count :
      (i a : ℕ) → 0 < count a (update h.free_list idx rest i) → 0 < count a (h.free_list i)
  taken_count i a c = elim (ℕ_discrete i idx) [
    | yes q ↦ rw (ap h.free_list q ∙ e) (ground arith)
    | no ne ↦ subst (λ f. 0 < count a f) (ground arith) c
  ]

  taken-Sound :
      idx < heap_pools
      → (i : ℕ) → i < heap_pools
      → Sound (base i) (h.top i) (bucket i) (update h.free_list idx rest i)
  taken-Sound l i k = elim (ℕ_discrete i idx) [
    | yes q ↦
        subst (λ j. Sound (base j) (h.top j) (bucket j) (update h.free_list idx rest j)) (sym q)
          (Sound-cast (base idx) (h.top idx) (h.top idx) (bucket idx) rest _ refl (ground arith)
            (taken_self l))
    | no ne ↦
        Sound-cast (base i) (h.top i) (h.top i) (bucket i) (h.free_list i) _ refl (ground arith)
          (v.sound i k)
  ]

  taken-Marked :
      (i a : ℕ) → i < heap_pools → 0 < count a (h.free_list i) → Marked (taken_from h idx rest) i a
  taken-Marked i a k c = let m = v.marked i a k c in record { magic = m.magic; size = m.size }

  pub taken-IsHeap : idx < heap_pools → IsHeap (taken_from h idx rest)
  taken-IsHeap l = record {
    low = v.low;
    high = v.high;
    sound = λ i k. taken-Sound l i k;
    marked = λ i a k c. taken-Marked i a k (taken_count i a c);
  }

  pub take-Given : (sz : ℕ) → Fits sz idx → Given sz (hdr + sizeof_header) (taken_from h idx rest)
  take-Given sz f =
      let s = first f.in_range in
      record {
        idx = idx;
        fits = f;
        hdr = hdr;
        object = refl;
        header = taken-Marked idx hdr f.in_range (rw e (ground arith));
        inside = s.inside hdr (ground arith);
        taken = ground (arith, s.once hdr);
        apart = λ b c.
            let c' : 0 < count b rest = ground arith in
            elim (ltb-cases hdr b) [
              | inl lt ↦ inl (s.apart hdr b (ground arith) (ground arith) lt)
              | inr ge ↦
                  inr (s.apart b hdr (ground arith) (ground arith) (ground (arith, s.once hdr)))
            ];
      }

pub take_from-cons :
    (h : Heap) (idx hdr : ℕ) (rest : List ℕ)
    → h.free_list idx ≡ hdr ∷ rest
    → take_from h idx ≡ (taken_from h idx rest, hdr + sizeof_header)
unfolding take_from take
take_from-cons h idx hdr rest e = rw (e, take) refl

take_from-nil : (h : Heap) (idx : ℕ) → h.free_list idx ≡ [] → take_from h idx ≡ (h, 0)
unfolding take_from take
take_from-nil h idx e = rw (e, take) refl

grow_small_granted : (h : Heap) (idx : ℕ) → h.top idx ≢ 0 → grow_small h idx true ≡ grown h idx
unfolding grow_small
grow_small_granted h idx ne = ground arith

grow_small_refused : (h : Heap) (idx : ℕ) → grow_small h idx false ≡ h
unfolding grow_small
grow_small_refused h idx = refl

pub le-ltb : (sz : ℕ) → sz ≤ heap_max_poolsize → ltb heap_max_poolsize sz ≡ false
le-ltb sz le = ground arith

-- A heap and what take_from makes of it.
take_from-Answer :
    (h g : Heap) (idx sz hdr : ℕ) (rest : List ℕ) (granted : Bool)
    → g.free_list idx ≡ hdr ∷ rest
    → IsHeap g
    → Fits sz idx
    → (granted ≡ true) ⊎ ((i : ℕ) → Fits sz i → (h.free_list i ≢ []) × (g.top ≡ h.top))
    → Answer h sz granted (take_from g idx)
take_from-Answer h g idx sz hdr rest granted e v f why = rw (take_from-cons g idx hdr rest e) (
    Answer.given _ _ why (taken-IsHeap g idx hdr rest e v f.in_range)
      (take-Given g idx hdr rest e v sz f))

-- The head of a list that is not empty.
push_objects-cons :
    (n a size : ℕ) (l : List ℕ) → (x : ℕ) × (xs : List ℕ) × (push_objects (suc n) a size l ≡ x ∷ xs)
unfolding push_objects
push_objects-cons zero a size l = (a, l, refl)
push_objects-cons (suc n) a size l = push_objects-cons n (a + size) size (a ∷ l)

grown-cons : (h : Heap) (idx : ℕ) → (x : ℕ) × (xs : List ℕ) × ((grown h idx).free_list idx ≡ x ∷ xs)
grown-cons h idx =
    let (x, xs, e) = push_objects-cons 63 (h.top idx) (bucket idx) (h.free_list idx) in
    (x, xs, init_objects-free_list heap_increment (h.top idx) (bucket idx) idx (raised h idx) ∙ e)

cons_nil : {x : ℕ} {xs : List ℕ} → x ∷ xs ≡ [] → ⊥
cons_nil e = cc

malloc_from-Answer :
    (h : Heap) (idx sz : ℕ) (granted : Bool) (l : List ℕ)
    → h.free_list idx ≡ l
    → IsHeap h
    → Fits sz idx
    → h.top idx + bucket idx * heap_increment ≤ base idx + reserve
    → Answer h sz granted (take_from (refill h idx granted l) idx)
unfolding refill
malloc_from-Answer h idx sz granted (hdr ∷ rest) e v f room =
    take_from-Answer h h idx sz hdr rest granted e v f
      (inr (λ i q. (λ z. cons_nil (sym e ∙ ap h.free_list (Fits-unique sz idx i f q) ∙ z), refl)))
malloc_from-Answer h idx sz false [] e v f room =
    rw (grow_small_refused h idx)
      (rw (take_from-nil h idx e) (Answer.null refl (λ i q. rw (Fits-unique sz i idx q f) e)))
malloc_from-Answer h idx sz true [] e v f room =
    let (hdr, rest, q) = grown-cons h idx in
    rw (grow_small_granted h idx (omega (arith, v.low idx f.in_range))) (
      take_from-Answer h (grown h idx) idx sz hdr rest true q (grown-IsHeap h idx v f.in_range room)
        f (inl refl))

-- A request of at most HEAP_MAX_POOLSIZE bytes to a well-formed heap, whose pools have addresses left to
-- grow, ends. Either malloc gives out an object with its header that has room for the request, lies in its
-- pool and overlaps no free object, and then the kernel grants memory, or the pool had a free object and no
-- pool has grown; or it returns NULL, and then the kernel refuses memory, the pool had no free object, and
-- the heap has not changed. The heap stays well formed.
pub malloc_lem :
    (h : Heap) (sz : ℕ) (granted : Bool)
    → IsHeap h
    → sz ≤ heap_max_poolsize
    → ((i : ℕ) → i < heap_pools → h.top i + bucket i * heap_increment ≤ base i + reserve)
    → (r : Heap × ℕ) × (malloc h sz granted ≡ some r) × Answer h sz granted r
unfolding malloc malloc_small malloc_from
malloc_lem h sz granted v le room =
    let (idx, e, f) = size_to_idx-Fits sz le in
    (
      malloc_from h idx granted,
      rw (le-ltb sz le) (rw (e, malloc_small) refl),
      malloc_from-Answer h idx sz granted (h.free_list idx) refl v f (room idx f.in_range),
    )
