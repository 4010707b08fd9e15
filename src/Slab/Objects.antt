-- ===== src/Slab/Objects.antt =====
-- Slab_Alloc with the region and the pages behind it.
use boring_os_ssaha.Prelude.{
  ℕ, ◌+◌, ◌*◌, ◌/◌, ◌^◌, ◌≤◌, ◌<◌, ◌≡◌, refl, sym, ◌∙◌, ap, arith, ◌==◌, Bool, true, false, Option,
  none, some, List, [], ◌∷◌, ◌⊎◌, inl, inr, Bool-cases,
}
use boring_os_ssaha.PAlloc.{Pool, pgsize}
use boring_os_ssaha.PAlloc.Valid.{IsPool}
use boring_os_ssaha.XMem.{Regions, rounds, allocate, get_base, get_length}
use boring_os_ssaha.XMem.Grow.{Allocated, longer, refused, grown, allocate-Allocated}
use boring_os_ssaha.Slab.{Slab, real_objsz, increment, extend_by, extend, take_first, alloc}
use boring_os_ssaha.Slab.Valid.{IsSlab, extend_by-IsSlab, Given, take-Given}

-- The slab is well formed over the part of its region that is backed by pages.
abbrev pub Backed : Slab → Regions → Type 0
Backed s x = IsSlab (x.base s.xmem) (x.base s.xmem + x.length s.xmem) s

-- None of the 64-bit counters of the slab and none of the sizes is near its end.
pub record Small (s : Slab) (x : Regions) : Type 0 where
  pub allocs : s.allocs + 1 < 2 ^ 64
  pub objs : s.objs + increment s / real_objsz s < 2 ^ 64
  pub free_objs : s.free_objs + increment s / real_objsz s < 2 ^ 64
  pub sizes : x.length s.xmem + increment s + pgsize < 2 ^ 64

-- What Slab_Alloc can do: give out an object, or return NULL.
pub data Answer (s : Slab) (x : Regions) (t : Slab) (y : Regions) : Option ℕ → Type 0 where
  given :
      (a : ℕ)
      → Given (y.base s.xmem) (y.base s.xmem + y.length s.xmem) a t
      → t.allocs ≡ s.allocs + 1
      → Answer s x t y (some a)
  null :
      s.free_list ≡ []
      → x.max_length s.xmem < x.length s.xmem + increment s
      → t ≡ s
      → y ≡ x
      → Answer s x t y none

record Extended (s : Slab) (x : Regions) (p : Pool) : Type 0 where
  slab : Slab
  regions : Regions
  pool : Pool
  done : Bool
  equal : extend s x p ≡ some (done, slab, regions, pool)
  backed : Backed slab regions
  valid : IsPool pool
  same : (slab.xmem ≡ s.xmem) × (slab.allocs ≡ s.allocs) × (slab.free_objs < 2 ^ 64)
  answer :
      (0 < slab.free_objs)
      ⊎ ((x.max_length s.xmem < x.length s.xmem + increment s) × (slab ≡ s) × (regions ≡ x))

IsSlab-longer : (s : Slab) (base end end' : ℕ) → end ≤ end' → IsSlab base end s → IsSlab base end' s
IsSlab-longer s base end end' le v = record {
  sized = v.sized;
  inside = λ a h. omega (arith, v.inside a h);
  apart = v.apart;
  once = v.once;
  counted = v.counted;
  balanced = v.balanced;
}

some_object : (a b : ℕ) → 0 < b → b ≤ a → 0 < a / b
some_object a b h l = grind arith

increment_covers : (s : Slab) → real_objsz s ≤ increment s
increment_covers s = ground arith

extend_cases :
    (s : Slab) (x : Regions) (p : Pool) (o : Option (Bool × Regions × Pool))
    → allocate x p s.xmem (x.length s.xmem + increment s) ≡ o
    → Backed s x
    → Small s x
    → IsPool p
    → Allocated x p s.xmem (x.length s.xmem + increment s) o
    → Extended s x p
unfolding extend extend_by get_base get_length
extend_cases s x p o e v m w (longer lt) = absurd (omega arith)
extend_cases s x p o e v m w (refused le lt) = record {
  slab = s;
  regions = x;
  pool = p;
  done = false;
  equal = rw (e, extend) refl;
  backed = v;
  valid = w;
  same = (refl, refl, omega (arith, m.free_objs));
  answer = inr (lt, refl, refl);
}
extend_cases s x p o e v m w (grown y q le within reach below g) = record {
  slab = extend_by s (x.base s.xmem) (x.length s.xmem);
  regions = y;
  pool = q;
  done = true;
  equal = rw (e, extend) refl;
  backed = rw (g.same_base) (
      IsSlab-longer _ _ _ _ (omega arith)
        (extend_by-IsSlab s (x.base s.xmem) (x.length s.xmem) m.objs m.free_objs v));
  valid = g.valid;
  same = (refl, refl, omega arith);
  answer = inl (
      omega (
        arith,
        m.free_objs,
        some_object (increment s) (real_objsz s) v.sized (increment_covers s),
      ));
}

extend_lem :
    (s : Slab) (x : Regions) (p : Pool)
    → Backed s x
    → Small s x
    → IsPool p
    → 4 * rounds (x.length s.xmem) (x.length s.xmem + increment s) ≤ p.free_pages
    → Extended s x p
extend_lem s x p v m w pages =
    extend_cases s x p _ refl v m w (
      allocate-Allocated x p s.xmem (x.length s.xmem + increment s) w pages
        (omega (arith, m.sizes)))

take_first-lem :
    (s t : Slab) (x y : Regions) (l : List ℕ)
    → t.free_list ≡ l
    → t.xmem ≡ s.xmem
    → t.allocs ≡ s.allocs
    → t.free_objs < 2 ^ 64
    → s.allocs + 1 < 2 ^ 64
    → Backed t y
    → (0 < t.free_objs)
      ⊎ ((x.max_length s.xmem < x.length s.xmem + increment s) × (t ≡ s) × (y ≡ x))
    → Backed (take_first l t).0 y × Answer s x (take_first l t).0 y (take_first l t).1
unfolding take_first
take_first-lem s t x y [] e same al fo small v (inl some_free) =
    absurd (ground (arith, v.counted, e))
take_first-lem s t x y [] e same al fo small v (inr (lt, p, q)) =
    (v, null (ap (λ k. k.free_list) (sym p) ∙ e) lt p q)
take_first-lem s t x y (a ∷ rest) e same al fo small v h =
    let (w, g) =
      take-Given t (y.base t.xmem) (y.base t.xmem + y.length t.xmem) a rest e (omega arith) fo v in
    (w, given a (rw (← same) g) (omega arith))

-- Slab_Alloc of a well-formed slab over its region and a well-formed pool, whose counters and sizes are not
-- at the end of 64 bits, with four free pages for each page of one increment, does not panic and keeps the slab and the
-- page pool well formed. It gives out an object that lies in the backed part of the region and
-- overlaps no free object; it returns NULL only when no object is free and the region would grow
-- past its maximum, and then nothing has changed.
pub alloc_lem :
    (s : Slab) (x : Regions) (p : Pool)
    → Backed s x
    → Small s x
    → IsPool p
    → 4 * rounds (x.length s.xmem) (x.length s.xmem + increment s) ≤ p.free_pages
    → (t : Slab) × (r : Option ℕ) × (y : Regions) × (q : Pool) × (alloc s x p ≡ some ((t, r), y, q))
      × Backed t y
      × IsPool q
      × Answer s x t y r
unfolding alloc
alloc_lem s x p v m w pages = elim (Bool-cases (s.free_objs == 0)) [
  | inl z ↦
      let e = extend_lem s x p v m w pages in
      let (b, a) =
        take_first-lem s e.slab x e.regions e.slab.free_list refl e.same.0 e.same.1 e.same.2
          m.allocs e.backed e.answer in
      (_, _, e.regions, e.pool, rw (z, e.equal, alloc), b, e.valid, a)
  | inr nz ↦
      let (b, a) =
        take_first-lem s s x x s.free_list refl refl refl (omega (arith, m.free_objs)) m.allocs v
          (inl (ground arith)) in
      (_, _, x, p, rw nz refl, b, w, a)
]
