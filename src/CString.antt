-- ===== src/CString.antt =====
-- The string and memory functions of the kernel: sys/kern/libc.c. The memory is a function from
-- addresses to bytes (0 to 255), and a pointer is an address. A loop that only a NUL ends runs on
-- fuel, and `none` is fuel that did not do. A `char` is signed: a difference of two is taken over
-- their values plus 128.
pub mod Copy
pub mod Compare
mod Concat
use boring_os_ssaha.Prelude.{
  ℕ, zero, suc, ◌+◌, ◌-◌, ◌%◌, ◌==◌, ltb, if◌then◌else◌, Bool, true, false, Option, none, some,
  update, not, ◌&&◌,
}

abbrev pub Memory : Type 0
Memory = ℕ → ℕ

-- An `int` result.
pub data ℤ : Type 0 where
  pos : ℕ → ℤ
  negsuc : ℕ → ℤ

-- `a - b`
pub difference : ℕ → ℕ → ℤ
difference a b = if ltb a b then negsuc (b - a - 1) else pos (a - b)

-- The value of a `char` plus 128.
abbrev pub biased : ℕ → ℕ
biased c = (c + 128) % 256

-- strlen, from the character `s` on.
pub strlen : ℕ → Memory → ℕ → Option ℕ
strlen zero m s = none
strlen (suc fuel) m s =
    let rest = strlen fuel m (s + 1) in
    if m s == 0 then some 0 else elim rest [ none ↦ none | some n ↦ some (n + 1) ]

-- strchr: the address of the character, or 0 for NULL.
pub strchr : ℕ → Memory → ℕ → ℕ → Option ℕ
strchr zero m s c = none
strchr (suc fuel) m s c =
    let rest = strchr fuel m (s + 1) c in
    if m s == c then some s else if m s == 0 then some 0 else rest

-- A loop of strtok_r: it goes on over the characters for which `strchr(delim, *str)` is non-NULL, if
-- `inside` is true, or NULL.
pub skip : Bool → ℕ → Memory → ℕ → ℕ → Option ℕ
skip inside zero m str delim = none
skip inside (suc fuel) m str delim =
    let rest = skip inside fuel m (str + 1) delim in
    let found = strchr fuel m delim (m str) in
    if m str == 0 then some str else elim found [
      | none ↦ none
      | some p ↦
          if p == 0 then (if inside then some str else rest) else if inside then rest else some str
    ]

-- strtok_r behind its two loops: the token `rval` ends at `str`. The results are the memory, the
-- value and `*last`.
abbrev cut : Memory → ℕ → ℕ → Memory × (ℕ × ℕ)
cut m rval str = if m str == 0 then (m, (rval, str)) else (update m str 0, (rval, str + 1))

-- strtok_r
pub strtok_r : ℕ → Memory → ℕ → ℕ → ℕ → Option (Memory × (ℕ × ℕ))
unfolding skip
strtok_r fuel m str delim last =
    let start = if str == 0 then last else str in
    elim (skip true fuel m start delim) [
      | none ↦ none
      | some rval ↦
          if m rval == 0 then some (m, (0, last)) else elim (skip false fuel m rval delim) [
            | none ↦ none
            | some end ↦ some (cut m rval end)
          ]
    ]

-- strcpy
pub strcpy : ℕ → Memory → ℕ → ℕ → Option Memory
strcpy zero m to from = none
strcpy (suc fuel) m to from =
    let rest = strcpy fuel (update m to (m from)) (to + 1) (from + 1) in
    if m from == 0 then some (update m to (m from)) else rest

-- strncpy
pub strncpy : Memory → ℕ → ℕ → ℕ → Memory
strncpy m to from zero = update (update m to (m from)) to 0
strncpy m to from (suc length) =
    let rest = strncpy (update m to (m from)) (to + 1) (from + 1) length in
    if m from == 0 then update (update m to (m from)) to 0 else rest

-- strcmp
pub strcmp : ℕ → Memory → ℕ → ℕ → Option ℤ
unfolding difference
strcmp zero m s1 s2 = none
strcmp (suc fuel) m s1 s2 =
    let rest = strcmp fuel m (s1 + 1) (s2 + 1) in
    if m s1 == m s2
    then (if m s1 == 0 then some (pos 0) else rest)
    else some (difference (m s1) (m s2))

-- strncmp
pub strncmp : Memory → ℕ → ℕ → ℕ → ℤ
unfolding difference
strncmp m s1 s2 zero = pos 0
strncmp m s1 s2 (suc len) =
    let rest = strncmp m (s1 + 1) (s2 + 1) len in
    if m s1 == m s2 then (if m s1 == 0 then pos 0 else rest) else difference (m s1) (m s2)

-- memset
unfoldable pub memset : Memory → ℕ → ℕ → ℕ → Memory
memset m dst c zero = m
memset m dst c (suc length) = memset (update m dst (c % 256)) (dst + 1) c length

-- memcpy
pub memcpy : Memory → ℕ → ℕ → ℕ → Memory
memcpy m dst src zero = m
memcpy m dst src (suc length) = memcpy (update m dst (m src)) (dst + 1) (src + 1) length

-- memcmp: the difference is that of the second byte and the first.
pub memcmp : Memory → ℕ → ℕ → ℕ → ℤ
unfolding difference
memcmp m b1 b2 zero = pos 0
memcmp m b1 b2 (suc length) =
    let rest = memcmp m (b1 + 1) (b2 + 1) length in
    if m b1 == m b2 then rest else difference (biased (m b2)) (biased (m b1))
