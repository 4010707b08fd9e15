-- ===== src/Console/Line.antt =====
-- The lines that Console_Gets reads.
use boring_os_ssaha.Prelude.{
  ℕ, zero, suc, ◌+◌, ◌-◌, ◌%◌, ◌^◌, ◌≤◌, ◌<◌, ◌≡◌, refl, ap, ◌∙◌, arith, ◌==◌, ltb, leb,
  if◌then◌else◌, true, false, Option, some, List, [], ◌∷◌, ◌++◌, update, split_eq, inl, inr, ◌⊎◌,
  length, take,
}
use boring_os_ssaha.Console.{bytes, gets_loop, gets}
use boring_os_ssaha.Console.Write.{bytes-ext, bytes-append}

abbrev pub IsPrintable : ℕ → Type 0
IsPrintable ch = (0x20 ≤ ch) × (ch < 0x80)

-- Characters and backspaces.
abbrev pub IsText : List ℕ → Type 0
IsText [] = Unit
IsText (ch ∷ chars) = (ch ≡ 0x08 ⊎ IsPrintable ch) × IsText chars

-- The line behind more characters: a backspace takes the last one away.
pub edited : List ℕ → List ℕ → List ℕ
edited line [] = line
edited line (ch ∷ chars) =
    let back = edited (take (length line - 1) line) chars in
    let more = edited (line ++ (ch ∷ [])) chars in if ch == 0x08 then back else more

take-bytes : (m : ℕ → ℕ) (a k l : ℕ) → k ≤ l → take k (bytes m a l) ≡ bytes m a k
unfolding bytes
take-bytes m a zero l h = refl
take-bytes m a (suc k) zero h = absurd (omega arith)
take-bytes m a (suc k) (suc l) h = ap (λ r. m a ∷ r) (take-bytes m (a + 1) k l (omega arith))

length-bytes : (m : ℕ → ℕ) (a l : ℕ) → length (bytes m a l) ≡ l
unfolding bytes
length-bytes m a zero = refl
length-bytes m a (suc l) = ap suc (length-bytes m (a + 1) l)

bytes-update : (m : ℕ → ℕ) (i ch : ℕ) → bytes (update m i ch) 0 (i + 1) ≡ bytes m 0 i ++ (ch ∷ [])
unfolding bytes
bytes-update m i ch =
    let same = bytes-ext (update m i ch) m 0 0 i (λ j l. ground arith) in
    let last : update m i ch i ≡ ch = ground arith in
    let place : 0 + i ≡ i = omega arith in
    bytes-append (update m i ch) 0 i 1 ∙ rw (same, place, last) refl

-- The buffer `u`, what is put out, and the rest, when the line ends.
pub record IsLine (line : List ℕ) (rest : List ℕ) (answer : Option ((ℕ → ℕ) × List ℕ × List ℕ))
    : Type 0 where
  pub buffer : ℕ → ℕ
  pub echo : List ℕ
  pub returned : answer ≡ some (buffer, echo, rest)
  pub characters : bytes buffer 0 (length line) ≡ line
  pub ended : buffer (length line) ≡ 0

-- A character for a buffer with room.
gets_loop-printable :
    (ch : ℕ) (rest : List ℕ) (i n : ℕ) (str : ℕ → ℕ) (out : List ℕ)
    → IsPrintable ch
    → n < 2 ^ 64
    → i + 1 < n
    → gets_loop (ch ∷ rest) i n str out
      ≡ gets_loop rest (i + 1) n (update str i ch) (out ++ (ch ∷ []))
unfolding gets_loop
gets_loop-printable ch rest i n str out (low, high) small room =
    let a : ltb i ((n + 2 ^ 64 - 1) % 2 ^ 64) ≡ true = ground arith in
    let b : (ch == 0x08) ≡ false = ground arith in
    let c : (ch == 0x0a) ≡ false = ground arith in
    let d : (ch == 0x0d) ≡ false = ground arith in
    let e : (ch == 0x09) ≡ false = ground arith in
    let f : ltb ch 0x20 ≡ false = ground arith in
    let g : leb 0x80 ch ≡ false = ground arith in rw (a, b, c, d, e, f, g) refl

gets_loop-backspace :
    (rest : List ℕ) (i n : ℕ) (str : ℕ → ℕ) (out : List ℕ)
    → n < 2 ^ 64
    → i + 1 < n
    → gets_loop (0x08 ∷ rest) i n str out ≡ (
        if i == 0
        then gets_loop rest i n str out
        else gets_loop rest (i - 1) n str (out ++ (0x08 ∷ [])))
unfolding gets_loop
gets_loop-backspace rest i n str out small room =
    let a : ltb i ((n + 2 ^ 64 - 1) % 2 ^ 64) ≡ true = ground arith in rw a refl

gets_loop-newline :
    (rest : List ℕ) (i n : ℕ) (str : ℕ → ℕ) (out : List ℕ)
    → n < 2 ^ 64
    → i + 1 < n
    → gets_loop (0x0a ∷ rest) i n str out ≡ some (update str i 0, out ++ (0x0a ∷ []), rest)
unfolding gets_loop
gets_loop-newline rest i n str out small room =
    let a : ltb i ((n + 2 ^ 64 - 1) % 2 ^ 64) ≡ true = ground arith in rw a refl

gets_loop-end :
    (rest : List ℕ) (i n : ℕ) (str : ℕ → ℕ) (out : List ℕ)
    → n < 2 ^ 64
    → i + 1 ≡ n
    → gets_loop rest i n str out ≡ some (update str (i + 1) 0, out, rest)
unfolding gets_loop
gets_loop-end [] i n str out small full =
    let a : ltb i ((n + 2 ^ 64 - 1) % 2 ^ 64) ≡ false = ground arith in rw a refl
gets_loop-end (ch ∷ rest) i n str out small full =
    let a : ltb i ((n + 2 ^ 64 - 1) % 2 ^ 64) ≡ false = ground arith in rw a refl

edited-backspace :
    (str : ℕ → ℕ) (i : ℕ) (chars : List ℕ)
    → edited (bytes str 0 i) (0x08 ∷ chars) ≡ edited (bytes str 0 (i - 1)) chars
unfolding edited
edited-backspace str i chars =
    ap (λ l. edited l chars)
      (ap (λ k. take (k - 1) (bytes str 0 i)) (length-bytes str 0 i)
        ∙ take-bytes str 0 (i - 1) i (omega arith))

edited-printable :
    (str : ℕ → ℕ) (i ch : ℕ) (chars : List ℕ)
    → IsPrintable ch
    → edited (bytes str 0 i) (ch ∷ chars) ≡ edited (bytes (update str i ch) 0 (i + 1)) chars
unfolding edited
edited-printable str i ch chars (low, high) =
    let b : (ch == 0x08) ≡ false = ground arith in rw (b, bytes-update str i ch) refl

gets_loop-edited :
    (chars rest : List ℕ) (i n : ℕ) (str : ℕ → ℕ) (out : List ℕ)
    → IsText chars
    → n < 2 ^ 64
    → i + length chars + 1 < n
    → IsLine (edited (bytes str 0 i) chars) rest (gets_loop (chars ++ (0x0a ∷ rest)) i n str out)
unfolding edited
gets_loop-edited [] rest i n str out text small room = record {
  buffer = update str i 0;
  echo = out ++ (0x0a ∷ []);
  returned = gets_loop-newline rest i n str out small (omega arith);
  characters =
      rw (length-bytes str 0 i) (bytes-ext (update str i 0) str 0 0 i (λ j l. ground arith));
  ended = rw (length-bytes str 0 i) (ground arith);
}
gets_loop-edited (ch ∷ chars) rest i n str out (inl e, text) small room =
    rw
      (
        e,
        gets_loop-backspace (chars ++ (0x0a ∷ rest)) i n str out small (omega arith),
        edited-backspace str i chars,
      )
      (elim (split_eq i 0) [
        | inl z ↦ rw z (gets_loop-edited chars rest 0 n str out text small (omega arith))
        | inr nz ↦
            let b : (i == 0) ≡ false = ground arith in
            rw b (
              gets_loop-edited chars rest (i - 1) n str (out ++ (0x08 ∷ [])) text small
                (omega arith))
      ])
gets_loop-edited (ch ∷ chars) rest i n str out (inr p, text) small room =
    rw
      (
        gets_loop-printable ch (chars ++ (0x0a ∷ rest)) i n str out p small (omega arith),
        edited-printable str i ch chars p,
      )
      (gets_loop-edited chars rest (i + 1) n (update str i ch) (out ++ (ch ∷ [])) text small
        (omega arith))

-- Console_Gets of characters, backspaces and a newline, with room for all of them and the zero, returns the
-- line that is left behind the backspaces, with a zero behind it, and leaves what comes behind the newline.
pub gets-edited :
    (chars rest : List ℕ) (n : ℕ) (str : ℕ → ℕ) (out : List ℕ)
    → IsText chars
    → n < 2 ^ 64
    → length chars + 1 < n
    → IsLine (edited [] chars) rest (gets (chars ++ (0x0a ∷ rest)) n str out)
unfolding gets bytes
gets-edited chars rest n str out text small room =
    gets_loop-edited chars rest 0 n str out text small (omega arith)

-- Printable characters.
abbrev pub IsWord : List ℕ → Type 0
IsWord [] = Unit
IsWord (ch ∷ chars) = IsPrintable ch × IsWord chars

gets_loop-full :
    (chars rest : List ℕ) (i n : ℕ) (str : ℕ → ℕ) (out : List ℕ)
    → IsWord chars
    → n < 2 ^ 64
    → i + length chars + 1 ≡ n
    → (u : ℕ → ℕ) × (o : List ℕ) × (gets_loop (chars ++ rest) i n str out ≡ some (u, o, rest))
      × (u (n - 1) ≡ str (n - 1))
      × (u n ≡ 0)
gets_loop-full [] rest i n str out word small full = (
  update str (i + 1) 0,
  out,
  gets_loop-end rest i n str out small (omega arith),
  ground arith,
  ground arith,
)
gets_loop-full (ch ∷ chars) rest i n str out (p, word) small full =
    let r =
      gets_loop-full chars rest (i + 1) n (update str i ch) (out ++ (ch ∷ [])) word small
        (omega arith) in
    (
      r.0,
      r.1,
      gets_loop-printable ch (chars ++ rest) i n str out p small (omega arith) ∙ r.2,
      r.3 ∙ ground arith,
      r.4,
    )

-- With as many printable characters as the buffer of `n` bytes has room for beside the zero, Console_Gets
-- leaves the last byte of the buffer as it was, and writes the zero one byte past the buffer.
pub gets_overruns :
    (chars rest : List ℕ) (n : ℕ) (str : ℕ → ℕ) (out : List ℕ)
    → IsWord chars
    → n < 2 ^ 64
    → length chars + 1 ≡ n
    → (u : ℕ → ℕ) × (o : List ℕ) × (gets (chars ++ rest) n str out ≡ some (u, o, rest))
      × (u (n - 1) ≡ str (n - 1))
      × (u n ≡ 0)
unfolding gets
gets_overruns chars rest n str out word small full =
    gets_loop-full chars rest 0 n str out word small (omega arith)
