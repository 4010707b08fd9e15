-- ===== src/Slab/Valid.antt =====
-- The well-formedness of a slab, and that the operations of slab.c keep it.
use boring_os_ssaha.Prelude.{
  ℕ, zero, suc, ◌+◌, ◌-◌, ◌*◌, ◌/◌, ◌%◌, ◌^◌, ◌≤◌, ◌<◌, ◌≡◌, arith, List, ◌∷◌, count, length, ◌⊎◌,
}
use boring_os_ssaha.Slab.{Slab, real_objsz, increment, push_objects, extend_by, free}

-- The objects of a slab whose region holds the addresses from `base` to `end`: the free ones lie in the
-- region and are pairwise disjoint, the counter of free objects is right, and every object is free or
-- allocated.
pub record IsSlab (base end : ℕ) (s : Slab) : Type 0 where
  pub sized : 0 < real_objsz s
  pub inside : (a : ℕ) → 0 < count a s.free_list → (base ≤ a) × (a + real_objsz s ≤ end)
  pub apart :
      (a b : ℕ) → 0 < count a s.free_list → 0 < count b s.free_list → a < b → a + real_objsz s ≤ b
  pub once : (a : ℕ) → count a s.free_list ≤ 1
  pub counted : s.free_objs ≡ length s.free_list
  pub balanced : s.objs + s.frees ≡ s.allocs + s.free_objs

length-push_objects : (n a size : ℕ) (l : List ℕ) → length (push_objects n a size l) ≡ length l + n
unfolding push_objects
length-push_objects zero a size l = omega arith
length-push_objects (suc n) a size l = omega (arith, length-push_objects n (a + size) size (a ∷ l))

-- The free list `l` of objects of the given size is sound between two addresses.
pub record Sound (base end size : ℕ) (l : List ℕ) : Type 0 where
  pub inside : (a : ℕ) → 0 < count a l → (base ≤ a) × (a + size ≤ end)
  pub apart : (a b : ℕ) → 0 < count a l → 0 < count b l → a < b → a + size ≤ b
  pub once : (a : ℕ) → count a l ≤ 1

add_zero_mul : (a size : ℕ) → a + 0 * size ≡ a
add_zero_mul a size = omega arith

suc_mul : (a n size : ℕ) → a + suc n * size ≡ a + size + n * size
suc_mul a n size = grind arith

pub push_objects-Sound :
    (n base a size : ℕ) (l : List ℕ)
    → 0 < size
    → base ≤ a
    → Sound base a size l
    → Sound base (a + n * size) size (push_objects n a size l)
unfolding push_objects
push_objects-Sound zero base a size l pos le v = rw (add_zero_mul a size) v
push_objects-Sound (suc n) base a size l pos le v = rw (suc_mul a n size) (
    push_objects-Sound n base (a + size) size (a ∷ l) pos (omega arith) (record {
      inside = λ b h. ground (arith, v.inside b);
      apart = λ b c hb hc lt. ground (arith, v.inside b, v.inside c, v.apart b c);
      once = λ b. ground (arith, v.inside b, v.once b);
    }))

div_mul_le : (a b : ℕ) → a / b * b ≤ a
div_mul_le a b = grind arith

-- SlabExtend keeps the slab well formed, over the region that has grown by the increment.
pub extend_by-IsSlab :
    (s : Slab) (base len : ℕ)
    → s.objs + increment s / real_objsz s < 2 ^ 64
    → s.free_objs + increment s / real_objsz s < 2 ^ 64
    → IsSlab base (base + len) s
    → IsSlab base (base + len + increment s) (extend_by s base len)
unfolding extend_by
extend_by-IsSlab s base len so sf v =
    let n = increment s / real_objsz s in
    let size = real_objsz s in
    let w =
      push_objects-Sound n base (base + len) size s.free_list v.sized (omega arith)
        (record { inside = v.inside; apart = v.apart; once = v.once }) in
    let fits : n * size ≤ increment s = div_mul_le (increment s) size in
    record {
      sized = v.sized;
      inside = λ a h. let (lo, hi) = w.inside a h in (lo, omega arith);
      apart = w.apart;
      once = w.once;
      counted = omega (arith, v.counted, length-push_objects n (base + len) size s.free_list);
      balanced = omega (arith, v.balanced);
    }

-- What Slab_Alloc gives out: an object inside the region that overlaps no free object.
pub record Given (base end a : ℕ) (t : Slab) : Type 0 where
  pub inside : (base ≤ a) × (a + real_objsz t ≤ end)
  pub taken : count a t.free_list ≡ 0
  pub apart : (b : ℕ) → 0 < count b t.free_list → (a + real_objsz t ≤ b) ⊎ (b + real_objsz t ≤ a)

abbrev pub after_take : Slab → List ℕ → Slab
after_take s rest = record s {
  free_list = rest;
  allocs = (s.allocs + 1) % 2 ^ 64;
  free_objs = (s.free_objs + 2 ^ 64 - 1) % 2 ^ 64;
}

compare_cases : (a b : ℕ) → (a ≡ b) ⊎ (a < b) ⊎ (b < a)
compare_cases a b = ground arith

pub take-Given :
    (s : Slab) (base end a : ℕ) (rest : List ℕ)
    → s.free_list ≡ a ∷ rest
    → s.allocs + 1 < 2 ^ 64
    → s.free_objs < 2 ^ 64
    → IsSlab base end s
    → IsSlab base end (after_take s rest) × Given base end a (after_take s rest)
take-Given s base end a rest l small sf v = (
  record {
    sized = v.sized;
    inside = λ b h. ground (arith, v.inside b);
    apart = λ b c hb hc lt. ground (arith, v.apart b c);
    once = λ b. ground (arith, v.once b);
    counted = ground (arith, v.counted);
    balanced = ground (arith, v.balanced, v.counted);
  },
  record {
    inside = ground (arith, v.inside a);
    taken = ground (arith, v.once a);
    apart = λ b h. ground (arith, v.apart a b, v.apart b a, v.once a, compare_cases a b);
  },
)

-- Slab_Free of an object inside the region that overlaps no free object keeps the slab well formed.
pub free-IsSlab :
    (s : Slab) (base end a : ℕ)
    → s.frees + 1 < 2 ^ 64
    → s.free_objs + 1 < 2 ^ 64
    → Given base end a s
    → IsSlab base end s
    → IsSlab base end (free s a)
unfolding free
free-IsSlab s base end a sf so g v = record {
  sized = v.sized;
  inside = λ b h. ground (arith, v.inside b, g.inside);
  apart = λ b c hb hc lt. ground (arith, v.apart b c, g.apart b, g.apart c, v.sized);
  once = λ b. ground (arith, v.once b, g.taken);
  counted = ground (arith, v.counted);
  balanced = ground (arith, v.balanced);
}
