-- ===== src/Handle/Tests.antt =====
-- A process with two open handles, and the theorems at it.
use boring_os_ssaha.Prelude.{ℕ, ◌<◌, ◌≡◌, refl, arith, ◌==◌, if◌then◌else◌, some, [], ◌∷◌, ◌++◌}
use boring_os_ssaha.Handle.{
  Process, process_handle_slots, add, lookup, destroy, destroy_slots, destroy_chain, find_fd,
}
use boring_os_ssaha.Handle.Linked.{Unlinked, IsTable}
use boring_os_ssaha.Handle.Lookup.{lookup-add}
use boring_os_ssaha.Handle.Teardown.{chains_from, destroy_lem}

abbrev bare : Process
bare = record {
  pid = 7;
  next_fd = 0;
  handles = λ i. [];
  fd = λ h. 0;
  process_id = λ h. 0;
  closed = [];
}

bare-IsTable : IsTable bare
bare-IsTable = record {
  in_slot = λ i h l. absurd (omega arith);
  issued = λ i h l. absurd (omega arith);
  once = λ i h. omega arith;
  distinct = λ i g h lg lh e. absurd (omega arith);
}

-- The handle at 1000 has descriptor 0.
abbrev one_open : Process
one_open = (add bare 1000).0

one_open-Unlinked : Unlinked one_open 2000
unfolding add
one_open-Unlinked i = ground arith

lookup-add_example :
    lookup (add one_open 2000).0 1
    ≡ (if 1 == (add one_open 2000).1 then some 2000 else lookup one_open 1)
lookup-add_example = lookup-add one_open 2000 1 one_open-Unlinked

found : lookup (add one_open 2000).0 1 ≡ some 2000
unfolding lookup add find_fd
found = refl

destroy_lem_example :
    ((j : ℕ) → j < process_handle_slots → (destroy one_open).handles j ≡ [])
    × ((destroy one_open).closed
        ≡ one_open.closed ++ chains_from process_handle_slots 0 one_open.handles)
destroy_lem_example = destroy_lem one_open

closes_in_order : (destroy (add one_open 2000).0).closed ≡ 1000 ∷ 2000 ∷ []
unfolding destroy add destroy_slots destroy_chain
closes_in_order = refl
