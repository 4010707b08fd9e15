-- ===== src/Vfs.antt =====
-- Paths: VFS_Lookup and VFS_Stat of sys/kern/vfs.c, and the open and close of sys/kern/vfsuio.c. A path is
-- the list of its characters, without the zero at the end; a node and a handle are pointers, 0 is NULL.
-- The operations of a file system are called through its tables and are arguments; `none` is a negative
-- status. VFS_Lookup never releases a node, so that nothing is said of references.
pub mod Path
mod Tests
use boring_os_ssaha.Prelude.{
  ℕ, zero, suc, ◌+◌, ◌-◌, ◌==◌, ltb, leb, if◌then◌else◌, Bool, true, false, Option, none, some,
  List, [], ◌∷◌, ◌++◌, length,
}

-- '/', ENOENT, ENOMEM
abbrev pub slash : ℕ
slash = 0x2f

abbrev enoent : ℕ
enoent = 0x1BAD0006

abbrev enomem : ℕ
enomem = 0x1BAD0005

-- VFS_Lookup returns a node, or writes past the end of `curName`, or calls an operation of NULL.
pub data Answer : Type 0 where
  returns : ℕ → Answer
  overrun fault : Answer

-- The body of the loop behind the search for the end of a name. With 256 characters the zero behind them
-- is written past the end of `curName`.
pub enter : (ℕ → List ℕ → Option ℕ) → ℕ → List ℕ → (ℕ → Answer) → Answer
enter lookup cur name finish =
    let len = length name in
    let entered : Answer = elim (lookup cur name) [ none ↦ returns 0 | some node ↦ finish node ] in
    if len == 0
    then returns cur
    else if ltb 256 len
    then returns 0
    else if len == 256
    then overrun
    else if cur == 0
    then fault
    else entered

-- The loop, with the characters between `start` and `end`, and those from `end` on.
pub walk : (ℕ → List ℕ → Option ℕ) → ℕ → List ℕ → List ℕ → Answer
walk lookup cur name [] = enter lookup cur name (λ node. returns node)
walk lookup cur name (c ∷ chars) =
    let more = walk lookup cur (name ++ (c ∷ [])) chars in
    let next : ℕ → Answer = λ node. walk lookup node [] chars in
    if c == slash then enter lookup cur name next else more

-- VFS_Lookup from the root of the file system.
pub vfs_lookup : (ℕ → List ℕ → Option ℕ) → ℕ → List ℕ → Answer
vfs_lookup lookup root [] = returns 0
vfs_lookup lookup root (c ∷ chars) = if c == slash then walk lookup root [] chars else returns 0

-- VFSUIO_Open behind VFS_Lookup: the handle that Handle_Alloc gives, the node, and the status of VFS_Open.
-- The answer is a status, whose sign is left out, the handle that is stored, and the handles that are freed.
unfoldable open_file : ℕ → ℕ → ℕ → ℕ × ℕ × List ℕ
open_file hdl vn status =
    if hdl == 0
    then (enomem, 0, [])
    else if vn == 0
    then (enoent, 0, hdl ∷ [])
    else if status == 0
    then (0, hdl, [])
    else (status, 0, hdl ∷ [])
