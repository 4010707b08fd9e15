-- ===== src/Prelude/Maps.antt =====
-- Arrays, tables and the fields of heap objects as functions from an index or a pointer, and the
-- queues of `sys/include/queue.h` as lists of pointers.
use Prim.Native.Nat.{ℕ, ◌+◌, ◌-◌}
use mathlib.Core.Path.{◌≡◌, refl}
use mathlib.Core.Logic.{◌≢◌}
use mathlib.Core.List.{List, [], ◌∷◌, ◌++◌}
use native.Mathlib.Omega.{arith}
use boring_os_ssaha.Prelude.Tests.{◌==◌, if◌then◌else◌}

-- A write to one index.
abbrev pub update {ℓ} : {A : Type ℓ} → (ℕ → A) → ℕ → A → ℕ → A
update f i v j = if j == i then v else f j

-- TAILQ_REMOVE, LIST_REMOVE: the element leaves its queue.
abbrev pub remove : ℕ → List ℕ → List ℕ
remove x [] = []
remove x (y ∷ ys) = let rest = remove x ys in if y == x then ys else y ∷ rest

-- How often a pointer stands in a queue: 0 or 1 in every well-formed one.
abbrev pub count : ℕ → List ℕ → ℕ
count x [] = 0
count x (y ∷ ys) = (if y == x then 1 else 0) + count x ys

pub count-append : (x : ℕ) (xs ys : List ℕ) → count x (xs ++ ys) ≡ count x xs + count x ys
count-append x [] ys = omega arith
count-append x (y ∷ xs) ys = omega (arith, count-append x xs ys)

pub count-snoc :
    (x y : ℕ) (xs : List ℕ) → count x (xs ++ (y ∷ [])) ≡ count x xs + (if y == x then 1 else 0)
count-snoc x y [] = omega arith
count-snoc x y (z ∷ xs) = omega (arith, count-snoc x y xs)

pub count-remove_self : (x : ℕ) (xs : List ℕ) → count x (remove x xs) ≡ count x xs - 1
count-remove_self x [] = refl
count-remove_self x (y ∷ ys) = ground (arith, count-remove_self x ys)

pub count-remove_ne : (x y : ℕ) (xs : List ℕ) → x ≢ y → count x (remove y xs) ≡ count x xs
count-remove_ne x y [] h = refl
count-remove_ne x y (z ∷ zs) h = ground (arith, count-remove_ne x y zs h)
