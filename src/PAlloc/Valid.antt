-- ===== src/PAlloc/Valid.antt =====
-- The well-formedness of the page pool, and that allocation and release keep it.
use boring_os_ssaha.Prelude.{
  ℕ, ◌+◌, ◌-◌, ◌%◌, ◌^◌, ◌≤◌, ◌<◌, ◌≡◌, ◌≢◌, arith, ◌==◌, if◌then◌else◌, some, List, ◌∷◌, count,
  update, length,
}
use boring_os_ssaha.PAlloc.{Pool, pgsize, directmap_base, info_index, magic_free, take_page}

abbrev pub Free : Pool → ℕ → Type 0
Free s pg = 0 < count pg s.free_list

-- The address of a page in the direct map.
abbrev pub IsPage : ℕ → Type 0
IsPage pg = (directmap_base ≤ pg) × (pg < 2 ^ 64) × (pg % pgsize ≡ 0)

pub record IsPool (s : Pool) : Type 0 where
  pub once : (pg : ℕ) → count pg s.free_list ≤ 1
  pub mapped : (pg : ℕ) → Free s pg → IsPage pg
  pub unused : (pg : ℕ) → Free s pg → s.info (info_index pg) ≡ 0
  pub marked : (pg : ℕ) → Free s pg → s.magic pg ≡ magic_free
  pub counted : s.free_pages ≡ length s.free_list
  pub bounded : s.free_pages < 2 ^ 64

-- Two pages have the same entry in the table only if they are the same page.
pub info_index_injective : (p q : ℕ) → IsPage p → IsPage q → info_index p ≡ info_index q → p ≡ q
info_index_injective p q hp hq e = omega arith

-- What PAlloc_AllocPage does with the page that it returns.
pub record Taken (s s' : Pool) (pg : ℕ) : Type 0 where
  pub valid : IsPool s'
  pub was_free : Free s pg
  pub list : s.free_list ≡ pg ∷ s'.free_list
  pub now_used : count pg s'.free_list ≡ 0
  pub one_reference : s'.info (info_index pg) ≡ 1
  pub cleared : s'.magic pg ≡ 0
  pub others : (i : ℕ) → i ≢ info_index pg → s'.info i ≡ s.info i

pub take_page-Taken :
    (s s' : Pool) (pg q : ℕ) (rest : List ℕ)
    → s.free_list ≡ pg ∷ rest
    → IsPool s
    → take_page s pg rest ≡ some (s', q)
    → (q ≡ pg) × Taken s s' pg
unfolding take_page
take_page-Taken s s' pg q rest l v e = (
  ground arith,
  record {
    valid = record {
      once = λ p. ground (arith, v.once p);
      mapped = λ p h. ground (arith, v.mapped p);
      unused = λ p h.
          ground (arith, v.unused p, v.once p, info_index_injective p pg, v.mapped p, v.mapped pg);
      marked = λ p h. ground (arith, v.marked p, v.once p);
      counted = ground (arith, v.counted, v.bounded);
      bounded = ground (arith, v.counted, v.bounded);
    };
    was_free = ground arith;
    list = ground arith;
    now_used = ground (arith, v.once pg);
    one_reference = ground arith;
    cleared = ground arith;
    others = λ i ne. ground arith;
  },
)

-- A reference that is dropped: the page leaves with its last one.
pub record Released (s s' : Pool) (pg : ℕ) : Type 0 where
  pub valid : IsPool s'
  pub fewer : s'.info (info_index pg) + 1 ≡ s.info (info_index pg)
  pub others : (i : ℕ) → i ≢ info_index pg → s'.info i ≡ s.info i
  pub list : s'.free_list ≡ (if s.info (info_index pg) == 1 then pg ∷ s.free_list else s.free_list)

abbrev pub shared : Pool → ℕ → Pool
shared s pg = record s { info = update s.info (info_index pg) (s.info (info_index pg) - 1) }

abbrev pub freed : Pool → ℕ → Pool
freed s pg = record s {
  info = update s.info (info_index pg) (s.info (info_index pg) - 1);
  free_list = pg ∷ s.free_list;
  magic = update s.magic pg magic_free;
  free_pages = (s.free_pages + 1) % 2 ^ 64;
}

pub shared-Released :
    (s : Pool) (pg : ℕ)
    → IsPool s
    → IsPage pg
    → 1 < s.info (info_index pg)
    → Released s (shared s pg) pg
shared-Released s pg v page refs = record {
  valid = record {
    once = v.once;
    mapped = v.mapped;
    unused = λ p h. ground (arith, v.unused p);
    marked = v.marked;
    counted = v.counted;
    bounded = v.bounded;
  };
  fewer = ground arith;
  others = λ i ne. ground arith;
  list = ground arith;
}

pub freed-Released :
    (s : Pool) (pg : ℕ)
    → IsPool s
    → IsPage pg
    → s.info (info_index pg) ≡ 1
    → s.free_pages + 1 < 2 ^ 64
    → Released s (freed s pg) pg
freed-Released s pg v page refs small = record {
  valid = record {
    once = λ p. ground (arith, v.once p, v.unused p);
    mapped = λ p h. ground (arith, v.mapped p);
    unused = λ p h. ground (arith, v.unused p);
    marked = λ p h. ground (arith, v.marked p);
    counted = ground (arith, v.counted);
    bounded = omega arith;
  };
  fewer = ground arith;
  others = λ i ne. ground arith;
  list = ground arith;
}
