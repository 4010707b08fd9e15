-- ===== src/Handle/Lookup.antt =====
-- Handle_Lookup against Handle_Add and Handle_Remove.
use boring_os_ssaha.Prelude.{
  ℕ, ◌≤◌, ◌<◌, ◌≡◌, ◌≢◌, refl, inl, inr, arith, ◌==◌, ==_iff, if◌then◌else◌, Bool-cases, none, some,
  List, [], ◌∷◌, count, update, remove,
}
use boring_os_ssaha.Handle.{Process, slot_of, add, remove_handle, lookup, find_fd}
use boring_os_ssaha.Handle.Linked.{Linked, Unlinked, IsTable}

-- A write to the descriptor of a handle that is not in the chain does not show.
find_fd-update :
    (f : ℕ → ℕ) (h v fd : ℕ) (l : List ℕ)
    → count h l ≡ 0
    → find_fd (update f h v) fd l ≡ find_fd f fd l
unfolding find_fd
find_fd-update f h v fd [] e = refl
find_fd-update f h v fd (g ∷ l) e = ground (arith, find_fd-update f h v fd l)

-- A handle that was in no chain is found under the descriptor that Handle_Add returns, and every
-- other descriptor is looked up as before.
pub lookup-add :
    (p : Process) (h fd : ℕ)
    → Unlinked p h
    → lookup (add p h).0 fd ≡ (if fd == (add p h).1 then some h else lookup p fd)
unfolding lookup add find_fd
lookup-add p h fd free =
    ground (arith, find_fd-update p.fd h p.next_fd fd (p.handles (slot_of fd)), free (slot_of fd))

find_fd_sound :
    (f : ℕ → ℕ) (fd h : ℕ) (l : List ℕ) → find_fd f fd l ≡ some h → (0 < count h l) × (f h ≡ fd)
unfolding find_fd
find_fd_sound f fd h [] e = cc
find_fd_sound f fd h (g ∷ l) e = ground (arith, find_fd_sound f fd h l)

find_fd_complete :
    (f : ℕ → ℕ) (h : ℕ) (l : List ℕ)
    → 0 < count h l
    → ((g : ℕ) → 0 < count g l → f g ≡ f h → g ≡ h)
    → find_fd f (f h) l ≡ some h
unfolding find_fd
find_fd_complete f h [] m u = absurd (omega arith)
find_fd_complete f h (g ∷ l) m u = elim (Bool-cases (f g == f h)) [
  | inl e ↦ rw (e, u g (ground arith) ((==_iff _ _).0 e))
  | inr e ↦ rw e (find_fd_complete f h l (ground arith) (λ k mk ek. u k (ground arith) ek))
]

-- In a well-formed table, Handle_Lookup returns a handle exactly when that handle is linked and
-- carries the descriptor.
pub lookup_iff :
    (p : Process) (fd h : ℕ)
    → IsTable p
    → (lookup p fd ≡ some h → Linked p (slot_of fd) h × (p.fd h ≡ fd))
      × (Linked p (slot_of fd) h → p.fd h ≡ fd → lookup p fd ≡ some h)
unfolding lookup
lookup_iff p fd h t = (
  find_fd_sound p.fd fd h (p.handles (slot_of fd)),
  λ l e. rw (← e) (
      find_fd_complete p.fd h (p.handles (slot_of (p.fd h))) (rw e l)
        (λ g mg eg. t.distinct (slot_of (p.fd h)) g h mg (rw e l) eg)),
)

find_fd_absent :
    (f : ℕ → ℕ) (fd : ℕ) (l : List ℕ) → ((g : ℕ) → 0 < count g l → f g ≢ fd) → find_fd f fd l ≡ none
unfolding find_fd
find_fd_absent f fd [] u = refl
find_fd_absent f fd (g ∷ l) u =
    ground (arith, u g (ground arith), find_fd_absent f fd l (λ k m. u k (ground arith)))

find_fd-remove_self :
    (f : ℕ → ℕ) (h : ℕ) (l : List ℕ)
    → count h l ≤ 1
    → ((g : ℕ) → 0 < count g l → f g ≡ f h → g ≡ h)
    → find_fd f (f h) (remove h l) ≡ none
unfolding find_fd
find_fd-remove_self f h [] o u = refl
find_fd-remove_self f h (g ∷ l) o u = elim (Bool-cases (g == h)) [
  | inl e ↦ rw e (find_fd_absent f (f h) l (λ k m q. ground (arith, u k (ground arith) q)))
  | inr e ↦ ground (
    arith,
    find_fd-remove_self f h l (ground arith) (λ k m q. u k (ground arith) q),
    u g (ground arith),
  )
]

find_fd-remove_ne :
    (f : ℕ → ℕ) (h fd : ℕ) (l : List ℕ) → f h ≢ fd → find_fd f fd (remove h l) ≡ find_fd f fd l
unfolding find_fd
find_fd-remove_ne f h fd [] ne = refl
find_fd-remove_ne f h fd (g ∷ l) ne = ground (arith, find_fd-remove_ne f h fd l)

-- After Handle_Remove of a linked handle its descriptor is not found, and every other descriptor
-- is looked up as before.
pub lookup-remove_handle :
    (p : Process) (h fd : ℕ)
    → IsTable p
    → Linked p (slot_of (p.fd h)) h
    → lookup (remove_handle p h) fd ≡ (if fd == p.fd h then none else lookup p fd)
unfolding lookup remove_handle
lookup-remove_handle p h fd t l = ground (
  arith,
  find_fd-remove_ne p.fd h fd (p.handles (slot_of fd)),
  find_fd-remove_self p.fd h (p.handles (slot_of (p.fd h))) (t.once (slot_of (p.fd h)) h)
      (λ g mg eg. t.distinct (slot_of (p.fd h)) g h mg l eg),
)
