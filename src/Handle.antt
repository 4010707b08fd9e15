-- ===== src/Handle.antt =====
-- The table of open handles of a process: sys/kern/handle.c. A `Handle *` is a number; the fields
-- of the handle objects that this file writes are functions from pointers. A method returns the
-- new state. The indirect call `(handle->close)(handle)` is recorded in `closed`, in call order.
pub mod Lookup
pub mod Linked
pub mod Teardown
mod Tests
use boring_os_ssaha.Prelude.{
  ℕ, zero, suc, ◌+◌, ◌%◌, ◌^◌, ◌==◌, if◌then◌else◌, Option, none, some, List, [], ◌∷◌, ◌++◌, update,
  remove,
}

-- PROCESS_HANDLE_SLOTS
abbrev pub process_handle_slots : ℕ
process_handle_slots = 128

-- The fields of a `Process` and of its `Handle` objects that handle.c works on.
pub record Process : Type 0 where
  pub pid : ℕ
  pub next_fd : ℕ
  pub handles : ℕ → List ℕ
  pub fd : ℕ → ℕ
  pub process_id : ℕ → ℕ
  pub closed : List ℕ

abbrev pub slot_of : ℕ → ℕ
slot_of fd = fd % process_handle_slots

init_slots : ℕ → ℕ → Process → Process
init_slots zero i p = p
init_slots (suc n) i p = init_slots n (i + 1) (record p { handles = update p.handles i [] })

-- Handle_Init
pub init : Process → Process
init p = init_slots process_handle_slots 0 p

-- The body of TAILQ_FOREACH_SAFE in Handle_Destroy, over the chain as it stood.
destroy_chain : ℕ → List ℕ → Process → Process
destroy_chain i [] p = p
destroy_chain i (h ∷ hs) p = destroy_chain i hs (record p {
  handles = update p.handles i (remove h (p.handles i));
  closed = p.closed ++ (h ∷ []);
})

destroy_slots : ℕ → ℕ → Process → Process
destroy_slots zero i p = p
destroy_slots (suc n) i p = destroy_slots n (i + 1) (destroy_chain i (p.handles i) p)

-- Handle_Destroy
pub destroy : Process → Process
destroy p = destroy_slots process_handle_slots 0 p

-- Handle_Add: the new state, and the descriptor. `nextFD` is a uint64_t.
pub add : Process → ℕ → Process × ℕ
add p h =
    let fd' = p.next_fd in
    (
      record p {
        fd = update p.fd h fd';
        next_fd = (p.next_fd + 1) % 2 ^ 64;
        process_id = update p.process_id h p.pid;
        handles = update p.handles (slot_of fd') (h ∷ p.handles (slot_of fd'));
      },
      fd',
    )

-- Handle_Remove
pub remove_handle : Process → ℕ → Process
remove_handle p h =
    let slot = slot_of (p.fd h) in
    record p { handles = update p.handles slot (remove h (p.handles slot)) }

-- The loop of Handle_Lookup over one chain.
pub find_fd : (ℕ → ℕ) → ℕ → List ℕ → Option ℕ
find_fd fd_of fd [] = none
find_fd fd_of fd (h ∷ hs) = let rest = find_fd fd_of fd hs in if fd_of h == fd then some h else rest

-- Handle_Lookup
pub lookup : Process → ℕ → Option ℕ
lookup p fd = find_fd p.fd fd (p.handles (slot_of fd))
