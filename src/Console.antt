-- ===== src/Console.antt =====
-- The console: sys/dev/console.c. The keys that the keyboard has enqueued are in a ring; the bytes that
-- the serial line has received are a list, and what is put out is a list too, which stands for all three
-- devices. Each function holds the lock of what it changes. `none` is a wait for input.
pub mod Ring
pub mod Write
pub mod Line
mod Tests
use boring_os_ssaha.Prelude.{
  ℕ, zero, suc, ◌+◌, ◌-◌, ◌%◌, ◌^◌, ◌==◌, ltb, leb, if◌then◌else◌, Bool, true, false, ◌||◌, Option,
  none, some, List, [], ◌∷◌, ◌++◌, update,
}
use boring_os_ssaha.Copy.{copy_in, copy_out}

-- CONSOLE_KEYBUF_MAXLEN
abbrev keybuf_maxlen : ℕ
keybuf_maxlen = 256

pub record Keys : Type 0 where
  pub next_key : ℕ
  pub last_key : ℕ
  pub key_buf : ℕ → ℕ

-- Console_EnqueueKey. The test for a full ring compares the next place with the last one itself.
pub enqueue_key : Keys → ℕ → Keys
enqueue_key c key = if (c.last_key + 1) % keybuf_maxlen == c.last_key then c else record c {
  key_buf = update c.key_buf c.last_key key;
  last_key = (c.last_key + 1) % keybuf_maxlen;
}

-- The characters of the serial line that Console_Getc replaces.
abbrev from_serial : ℕ → ℕ
from_serial key = if key == 0x0d then 0x0a else if key == 0x7f then 0x08 else key

-- Console_Getc: a key, or else a byte of the serial line.
pub getc : Keys → List ℕ → Option (ℕ × Keys × List ℕ)
getc c serial =
    if c.next_key == c.last_key
    then elim serial [ [] ↦ none | key ∷ rest ↦ some (from_serial key, c, rest) ]
    else some
        (c.key_buf c.next_key, record c { next_key = (c.next_key + 1) % keybuf_maxlen }, serial)

-- Console_Read: the loop over `len` characters, each put out and copied to the address `b`.
unfoldable read :
    (ℕ → Bool)
    → (ℕ → ℕ)
    → ℕ
    → Keys
    → List ℕ
    → List ℕ
    → ℕ
    → ℕ
    → Option ((ℕ → ℕ) × Keys × List ℕ × List ℕ)
unfolding getc
read faults m c_addr c serial out b zero = some (m, c, serial, out)
read faults m c_addr c serial out b (suc len) = elim (getc c serial) [
  | none ↦ none
  | some (key, d, rest) ↦
      read faults (copy_out faults (update m c_addr key) c_addr b 1).0 c_addr d rest
        (out ++ (key ∷ [])) ((b + 1) % 2 ^ 64) len
]

-- The bytes of a buffer.
pub bytes : (ℕ → ℕ) → ℕ → ℕ → List ℕ
bytes m a zero = []
bytes m a (suc len) = m a ∷ bytes m (a + 1) len

-- The loop of Console_Write, whose buffer is at `kbuf`, on fuel.
pub write_loop : (ℕ → Bool) → ℕ → ℕ → (ℕ → ℕ) → List ℕ → ℕ → ℕ → ℕ → Option (List ℕ × ℕ)
write_loop faults kbuf b m out len nbytes zero = none
write_loop faults kbuf b m out len nbytes (suc fuel) =
    let chunksz = if ltb 512 len then 512 else len in
    let n = (copy_in faults m ((b + nbytes) % 2 ^ 64) kbuf chunksz).0 in
    let rest =
      write_loop faults kbuf b n (out ++ bytes n kbuf chunksz) len ((nbytes + chunksz) % 2 ^ 64)
        fuel in
    if ltb nbytes len then rest else some (out, nbytes % 2 ^ 32)

-- Console_Write: what is put out, and the number of bytes, which is returned as an int: its 32 bits.
pub write : (ℕ → Bool) → ℕ → (ℕ → ℕ) → List ℕ → ℕ → ℕ → Option (List ℕ × ℕ)
unfolding write_loop
write faults kbuf m out b len = write_loop faults kbuf b m out len 0 (len + 1)

-- The loop of Console_Gets over the answers of Console_Getc, with the buffer `str` by indices. A `char` of
-- 128 or more is less than 32. The int that counts the characters is taken not to overflow, as it
-- cannot for an `n` of at most 2 ^ 31.
pub gets_loop : List ℕ → ℕ → ℕ → (ℕ → ℕ) → List ℕ → Option ((ℕ → ℕ) × List ℕ × List ℕ)
gets_loop [] i n str out =
    if ltb i ((n + 2 ^ 64 - 1) % 2 ^ 64) then none else some (update str (i + 1) 0, out, [])
gets_loop (ch ∷ rest) i n str out =
    let back = gets_loop rest (i - 1) n str (out ++ (ch ∷ [])) in
    let same = gets_loop rest i n str out in
    let skipped = gets_loop rest (i + 1) n str out in
    let tab = gets_loop rest (i + 1) n (update str i 0x09) (out ++ (0x09 ∷ [])) in
    let more = gets_loop rest (i + 1) n (update str i ch) (out ++ (ch ∷ [])) in
    if ltb i ((n + 2 ^ 64 - 1) % 2 ^ 64)
    then if ch == 0x08
      then (if i == 0 then same else back)
      else if ch == 0x0a || ch == 0x0d
      then some (update str i 0, out ++ (0x0a ∷ []), rest)
      else if ch == 0x09
      then tab
      else if ltb ch 0x20 || leb 0x80 ch
      then skipped
      else more
    else some (update str (i + 1) 0, out, ch ∷ rest)

-- Console_Gets: the buffer, what is put out, and the characters that are not read.
pub gets : List ℕ → ℕ → (ℕ → ℕ) → List ℕ → Option ((ℕ → ℕ) × List ℕ × List ℕ)
unfolding gets_loop
gets chars n str out = gets_loop chars 0 n str out
