-- ===== src/Handle/Linked.antt =====
-- The well-formedness of a handle table, and that the operations of handle.c keep it.
use boring_os_ssaha.Prelude.{
  ℕ, ◌+◌, ◌^◌, ◌≤◌, ◌<◌, ◌≡◌, inl, inr, arith, ◌==◌, Bool-cases, count, count-remove_self,
  count-remove_ne,
}
use boring_os_ssaha.Handle.{Process, slot_of, add, remove_handle}

-- The handle stands in the chain of slot `i`.
abbrev pub Linked : Process → ℕ → ℕ → Type 0
Linked p i h = 0 < count h (p.handles i)

-- The handle stands in no chain.
abbrev pub Unlinked : Process → ℕ → Type 0
Unlinked p h = (i : ℕ) → count h (p.handles i) ≡ 0

pub record IsTable (p : Process) : Type 0 where
  pub in_slot : (i h : ℕ) → Linked p i h → slot_of (p.fd h) ≡ i
  pub issued : (i h : ℕ) → Linked p i h → p.fd h < p.next_fd
  pub once : (i h : ℕ) → count h (p.handles i) ≤ 1
  pub distinct : (i g h : ℕ) → Linked p i g → Linked p i h → p.fd g ≡ p.fd h → g ≡ h

-- Adding a handle that is in no chain keeps the table well formed, as long as the 64-bit counter
-- of descriptors does not wrap.
pub add-IsTable :
    (p : Process) (h : ℕ) → p.next_fd + 1 < 2 ^ 64 → Unlinked p h → IsTable p → IsTable (add p h).0
unfolding add
add-IsTable p h small free t = record {
  in_slot = λ i g l. ground (arith, t.in_slot i g, free i);
  issued = λ i g l. ground (arith, t.issued i g, free i);
  once = λ i g. ground (arith, t.once i g, free i);
  distinct = λ i g k lg lk e. ground (arith, t.distinct i g k, t.issued i g, t.issued i k, free i);
}

-- Removing a handle keeps the table well formed.
pub remove_handle-IsTable : (p : Process) (h : ℕ) → IsTable p → IsTable (remove_handle p h)
unfolding remove_handle
remove_handle-IsTable p h t = record {
  in_slot = λ i g l. t.in_slot i g (fewer i g l);
  issued = λ i g l. t.issued i g (fewer i g l);
  once = λ i g. omega (arith, t.once i g, le i g);
  distinct = λ i g k lg lk e. t.distinct i g k (fewer i g lg) (fewer i k lk) e;
}
  where
    le : (i g : ℕ) → count g ((remove_handle p h).handles i) ≤ count g (p.handles i)
    le i g = elim (Bool-cases (g == h)) [
      | inl e ↦ ground (arith, count-remove_self g (p.handles i))
      | inr e ↦ ground (arith, count-remove_ne g h (p.handles i))
    ]

    fewer : (i g : ℕ) → Linked (remove_handle p h) i g → Linked p i g
    fewer i g l = omega (arith, le i g)
