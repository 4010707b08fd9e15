-- ===== src/Malloc/Valid.antt =====
-- The well-formedness of the heap, and what malloc_small gives out.
use boring_os_ssaha.Prelude.{
  ℕ, zero, suc, ◌+◌, ◌-◌, ◌*◌, ◌≤◌, ◌<◌, ◌≡◌, ◌≢◌, refl, sym, ap, ◌∙◌, subst, arith, inl, inr, ◌⊎◌,
  List, count, update,
}
use native.Mathlib.Decide.{ℕ_discrete}
use boring_os_ssaha.Slab.{push_objects}
use boring_os_ssaha.Slab.Valid.{Sound, push_objects-Sound}
use boring_os_ssaha.Malloc.{
  Heap, bucket, base, init, init_objects, heap_pools, heap_magic, heap_increment, sizeof_header,
}
use boring_os_ssaha.Malloc.Buckets.{bucket_pos}

-- The addresses that are reserved for a pool.
abbrev pub reserve : ℕ
reserve = 0x10000000

-- The header at `a` is that of an object of the pool `i`.
pub record Marked (h : Heap) (i a : ℕ) : Type 0 where
  pub magic : h.magic a ≡ heap_magic
  pub size : h.size a ≡ bucket i - sizeof_header

-- Each pool has its own range of addresses; its free objects lie in the part below `top`, do not
-- overlap, and have their headers.
pub record IsHeap (h : Heap) : Type 0 where
  pub low : (i : ℕ) → i < heap_pools → base i ≤ h.top i
  pub high : (i : ℕ) → i < heap_pools → h.top i ≤ base i + reserve
  pub sound : (i : ℕ) → i < heap_pools → Sound (base i) (h.top i) (bucket i) (h.free_list i)
  pub marked : (i a : ℕ) → i < heap_pools → 0 < count a (h.free_list i) → Marked h i a

-- The heap of a program that starts is well formed.
pub init-IsHeap : IsHeap init
init-IsHeap = record {
  low = λ i l. omega arith;
  high = λ i l. omega arith;
  sound = λ i l. record {
    inside = λ a h. elim h [ ];
    apart = λ a b h k q. elim h [ ];
    once = λ a. omega arith;
  };
  marked = λ i a l h. elim h [ ];
}

pub init_objects-free_list :
    (n obj b idx : ℕ) (h : Heap)
    → (init_objects n obj b idx h).free_list idx ≡ push_objects n obj b (h.free_list idx)
unfolding init_objects push_objects
init_objects-free_list zero obj b idx h = refl
init_objects-free_list (suc n) obj b idx h =
    init_objects-free_list n (obj + b) b idx _ ∙ ap (push_objects n (obj + b) b) (ground arith)

init_objects-others :
    (n obj b idx i : ℕ) (h : Heap)
    → i ≢ idx
    → (init_objects n obj b idx h).free_list i ≡ h.free_list i
unfolding init_objects
init_objects-others zero obj b idx i h ne = refl
init_objects-others (suc n) obj b idx i h ne =
    init_objects-others n (obj + b) b idx i _ ne ∙ ground arith

init_objects-top : (n obj b idx : ℕ) (h : Heap) → (init_objects n obj b idx h).top ≡ h.top
unfolding init_objects
init_objects-top zero obj b idx h = refl
init_objects-top (suc n) obj b idx h = init_objects-top n (obj + b) b idx _

-- The headers below the new objects stay.
init_objects-below :
    (n obj b idx a : ℕ) (h : Heap)
    → a < obj
    → ((init_objects n obj b idx h).magic a ≡ h.magic a)
      × ((init_objects n obj b idx h).size a ≡ h.size a)
unfolding init_objects
init_objects-below zero obj b idx a h l = (refl, refl)
init_objects-below (suc n) obj b idx a h l =
    let (p, q) = init_objects-below n (obj + b) b idx a _ (omega arith) in
    (p ∙ ground arith, q ∙ ground arith)

suc_mul : (a n b : ℕ) → a + suc n * b ≡ a + b + n * b
suc_mul a n b = grind arith

init_objects-above :
    (n obj b idx a : ℕ) (h : Heap)
    → obj + n * b ≤ a
    → 0 < b
    → ((init_objects n obj b idx h).magic a ≡ h.magic a)
      × ((init_objects n obj b idx h).size a ≡ h.size a)
unfolding init_objects
init_objects-above zero obj b idx a h l pos = (refl, refl)
init_objects-above (suc n) obj b idx a h l pos =
    let ne : obj + b + n * b ≤ a = rw (sym (suc_mul obj n b)) l in
    let (p, q) = init_objects-above n (obj + b) b idx a _ ne pos in
    (p ∙ ground arith, q ∙ ground arith)

-- The new objects have their headers, if the old free ones of the pool have.
init_objects-Marked :
    (n obj idx : ℕ) (h : Heap)
    → ((a : ℕ) → 0 < count a (h.free_list idx) → Marked h idx a)
    → (a : ℕ) → 0 < count a ((init_objects n obj (bucket idx) idx h).free_list idx)
    → Marked (init_objects n obj (bucket idx) idx h) idx a
unfolding init_objects
init_objects-Marked zero obj idx h m a c = m a c
init_objects-Marked (suc n) obj idx h m a c =
    init_objects-Marked n (obj + bucket idx) idx _
      (λ x k. record { magic = ground (arith, m x); size = ground (arith, m x) }) a c

pub Sound-cast :
    (b end end' size : ℕ) (l l' : List ℕ)
    → end ≡ end'
    → l ≡ l'
    → Sound b end size l
    → Sound b end' size l'
Sound-cast b end end' size l l' p q s =
    subst (λ e. Sound b e size l') p (subst (λ k. Sound b end size k) q s)

Marked-cast :
    (h g : Heap) (i a : ℕ)
    → (g.magic a ≡ h.magic a) × (g.size a ≡ h.size a)
    → Marked h i a
    → Marked g i a
Marked-cast h g i a (p, q) m = record { magic = p ∙ m.magic; size = q ∙ m.size }

-- The heap after the growth of the pool `idx`.
abbrev pub raised : Heap → ℕ → Heap
raised h idx = record h { top = update h.top idx (h.top idx + bucket idx * heap_increment) }

abbrev pub grown : Heap → ℕ → Heap
grown h idx = init_objects heap_increment (h.top idx) (bucket idx) idx (raised h idx)

pub ltb-cases : (a b : ℕ) → (a < b) ⊎ (b ≤ a)
ltb-cases a b = ground arith

module _ (h : Heap) (idx : ℕ) (v : IsHeap h) (l : idx < heap_pools)
    (room : h.top idx + bucket idx * heap_increment ≤ base idx + reserve) where
  grown-top :
      (i : ℕ) → (grown h idx).top i ≡ update h.top idx (h.top idx + bucket idx * heap_increment) i
  grown-top i =
      ap (λ (f : ℕ → ℕ). f i) (init_objects-top heap_increment (h.top idx) (bucket idx) idx _)

  grown-sound :
      (i : ℕ)
      → i < heap_pools
      → Sound (base i) ((grown h idx).top i) (bucket i) ((grown h idx).free_list i)
  grown-sound i k = elim (ℕ_discrete i idx) [
    | yes e ↦
        subst (λ j. Sound (base j) ((grown h idx).top j) (bucket j) ((grown h idx).free_list j))
          (sym e)
          (Sound-cast (base idx) (h.top idx + heap_increment * bucket idx) _ (bucket idx)
            (push_objects heap_increment (h.top idx) (bucket idx) (h.free_list idx)) _
            (ground (arith, grown-top idx))
            (sym (init_objects-free_list heap_increment (h.top idx) (bucket idx) idx _))
            (push_objects-Sound heap_increment (base idx) (h.top idx) (bucket idx) (h.free_list idx)
              (omega (arith, bucket_pos idx)) (v.low idx l) (v.sound idx l)))
    | no ne ↦
        Sound-cast (base i) (h.top i) _ (bucket i) (h.free_list i) _ (ground (arith, grown-top i))
          (sym (init_objects-others heap_increment (h.top idx) (bucket idx) idx i _ ne))
          (v.sound i k)
  ]

  unmoved :
      (i a : ℕ)
      → i < heap_pools
      → i ≢ idx
      → (base i ≤ a) × (a + bucket i ≤ h.top i)
      → ((grown h idx).magic a ≡ h.magic a) × ((grown h idx).size a ≡ h.size a)
  unmoved i a k ne (lo, hi) = elim (ltb-cases i idx) [
    | inl lt ↦
        init_objects-below heap_increment (h.top idx) (bucket idx) idx a _
          (omega (arith, bucket_pos i, v.high i k, v.low idx l))
    | inr ge ↦
        init_objects-above heap_increment (h.top idx) (bucket idx) idx a _ (omega arith)
          (omega (arith, bucket_pos idx))
  ]

  raised-Marked : (x : ℕ) → Marked h idx x → Marked (raised h idx) idx x
  raised-Marked x m = record { magic = m.magic; size = m.size }

  grown-Marked :
      (i a : ℕ)
      → i < heap_pools
      → 0 < count a ((grown h idx).free_list i)
      → Marked (grown h idx) i a
  grown-Marked i a k c = elim (ℕ_discrete i idx) [
    | yes e ↦
        subst (λ j. Marked (grown h idx) j a) (sym e)
          (init_objects-Marked heap_increment (h.top idx) idx (raised h idx)
            (λ x m. raised-Marked x (v.marked idx x l m)) a
            (subst (λ j. 0 < count a ((grown h idx).free_list j)) e c))
    | no ne ↦
        let c' =
          subst (λ f. 0 < count a f)
            (init_objects-others heap_increment (h.top idx) (bucket idx) idx i _ ne) c in
        Marked-cast h (grown h idx) i a (unmoved i a k ne ((v.sound i k).inside a c'))
          (v.marked i a k c')
  ]

  pub grown-IsHeap : IsHeap (grown h idx)
  grown-IsHeap = record {
    low = λ i k. ground (arith, v.low i k, grown-top i);
    high = λ i k. ground (arith, v.high i k, grown-top i, room);
    sound = grown-sound;
    marked = grown-Marked;
  }
