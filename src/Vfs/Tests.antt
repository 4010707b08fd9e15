-- ===== src/Vfs/Tests.antt =====
-- A directory "a" with a file "b" in the root, and the theorems at it.
use boring_os_ssaha.Prelude.{
  ℕ, ◌≡◌, arith, ◌==◌, ◌&&◌, if◌then◌else◌, Option, some, none, List, [], ◌∷◌, ◌++◌,
}
use boring_os_ssaha.Vfs.{returns, slash, vfs_lookup}
use boring_os_ssaha.Vfs.Path.{IsName, render, vfs_lookup-resolve, double_slash}

abbrev tree : ℕ → List ℕ → Option ℕ
tree node [] = none
tree node (c ∷ chars) =
    if (node == 1) && (c == 97) then some 2 else if (node == 2) && (c == 98) then some 3 else none

-- "a" and "b"
abbrev a_name : List ℕ
a_name = 97 ∷ []

abbrev b_name : List ℕ
b_name = 98 ∷ []

a_name-IsName : IsName a_name
a_name-IsName = ((omega arith, tt), omega arith, omega arith)

b_name-IsName : IsName b_name
b_name-IsName = ((omega arith, tt), omega arith, omega arith)

vfs_lookup-resolve_example :
    (vfs_lookup tree 1 (render (a_name ∷ b_name ∷ [])) ≡ returns 3)
    × (vfs_lookup tree 1 (render (a_name ∷ b_name ∷ []) ++ (slash ∷ [])) ≡ returns 3)
vfs_lookup-resolve_example =
    vfs_lookup-resolve tree 1 a_name (b_name ∷ []) a_name-IsName (b_name-IsName, tt)

double_slash_example :
    vfs_lookup tree 1 (render (a_name ∷ []) ++ (slash ∷ slash ∷ b_name)) ≡ returns 2
double_slash_example = double_slash tree 1 a_name [] b_name a_name-IsName tt
