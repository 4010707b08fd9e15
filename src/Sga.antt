-- ===== src/Sga.antt =====
-- Scatter-gather arrays, the argument of a disk transfer: sys/kern/sga.c. The entries in use are a
-- list, so that `len` is its length; `none` is a failed ASSERT.
use boring_os_ssaha.Prelude.{
  ℕ, ◌+◌, if◌then◌else◌, ltb, Option, none, some, List, [], ◌∷◌, ◌++◌, length,
}

pub record Entry : Type 0 where
  pub offset : ℕ
  pub size : ℕ

-- SGARRAY_MAX_ENTRIES
abbrev pub max_entries : ℕ
max_entries = 32

abbrev pub SgArray : Type 0
SgArray = List Entry

-- SGArray_Init
unfoldable pub init : SgArray
init = []

-- SGArray_Append: the array and the returned length.
unfoldable pub append : SgArray → ℕ → ℕ → Option (SgArray × ℕ)
append sga off len =
    if ltb (length sga) max_entries
    then some (sga ++ (record { offset = off; size = len } ∷ []), length sga + 1)
    else none
