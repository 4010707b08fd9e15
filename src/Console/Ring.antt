-- ===== src/Console/Ring.antt =====
-- The ring of keys as a queue.
use boring_os_ssaha.Prelude.{
  ℕ, zero, suc, ◌+◌, ◌-◌, ◌%◌, ◌≤◌, ◌<◌, ◌≡◌, ◌≢◌, refl, sym, ap, ◌∙◌, arith, ◌==◌, if◌then◌else◌,
  true, false, Option, none, some, List, [], ◌∷◌, ◌++◌, update, length, split_eq, inl, inr,
  append-nil, append_assoc,
}
use boring_os_ssaha.Console.{Keys, enqueue_key, getc}

-- `n` keys from the place `i` on.
unfoldable pub ring : (ℕ → ℕ) → ℕ → ℕ → List ℕ
ring buf i zero = []
ring buf i (suc n) = buf i ∷ ring buf ((i + 1) % 256) n

abbrev pub size : Keys → ℕ
size c = (c.last_key + 256 - c.next_key) % 256

-- The keys that are enqueued, the oldest first.
abbrev pub queue : Keys → List ℕ
queue c = ring c.key_buf c.next_key (size c)

abbrev pub IsRing : Keys → Type 0
IsRing c = (c.next_key < 256) × (c.last_key < 256)

-- A queue of keys that 255 keys fill; one more key empties it.
abbrev pub push : List ℕ → ℕ → List ℕ
push q key = if length q == 255 then [] else q ++ (key ∷ [])

length-ring : (buf : ℕ → ℕ) (i n : ℕ) → length (ring buf i n) ≡ n
unfolding ring
length-ring buf i zero = refl
length-ring buf i (suc n) = ap suc (length-ring buf ((i + 1) % 256) n)

ring-snoc :
    (buf : ℕ → ℕ) (i n : ℕ)
    → i < 256
    → ring buf i (suc n) ≡ ring buf i n ++ (buf ((i + n) % 256) ∷ [])
unfolding ring
ring-snoc buf i zero small = let e : (i + 0) % 256 ≡ i = omega arith in rw e refl
ring-snoc buf i (suc n) small =
    let e : (i + suc n) % 256 ≡ ((i + 1) % 256 + n) % 256 = omega arith in
    rw e (ap (λ l. buf i ∷ l) (ring-snoc buf ((i + 1) % 256) n (omega arith)))

ring-update :
    (buf : ℕ → ℕ) (i n j key : ℕ)
    → i < 256
    → j < 256
    → n ≤ (j + 256 - i) % 256
    → ring (update buf j key) i n ≡ ring buf i n
unfolding ring
ring-update buf i zero j key hi hj small = refl
ring-update buf i (suc n) j key hi hj small =
    let e : (i == j) ≡ false = ground arith in
    rw (e, ring-update buf ((i + 1) % 256) n j key (omega arith) hj (omega arith)) refl

enqueue_key-IsRing : (c : Keys) (key : ℕ) → IsRing c → IsRing (enqueue_key c key)
unfolding enqueue_key
enqueue_key-IsRing c key (a, b) =
    let e : ((c.last_key + 1) % 256 == c.last_key) ≡ false = ground arith in rw e (a, omega arith)

-- A key goes to the end of a ring that is not full; a key for a full ring empties it.
pub enqueue_key-queue :
    (c : Keys) (key : ℕ)
    → IsRing c
    → IsRing (enqueue_key c key) × (queue (enqueue_key c key) ≡ push (queue c) key)
unfolding enqueue_key ring
enqueue_key-queue c key (a, b) =
    let n = size c in
    let e : ((c.last_key + 1) % 256 == c.last_key) ≡ false = ground arith in
    let len = length-ring c.key_buf c.next_key n in
    elim (split_eq n 255) [
      | inl full ↦
          let z : ((c.last_key + 1) % 256 + 256 - c.next_key) % 256 ≡ 0 = omega arith in
          let t : (length (ring c.key_buf c.next_key n) == 255) ≡ true = ground arith in
          rw (e, z, t) ((a, omega arith), refl)
      | inr room ↦
          let z : ((c.last_key + 1) % 256 + 256 - c.next_key) % 256 ≡ suc n = omega arith in
          let t : (length (ring c.key_buf c.next_key n) == 255) ≡ false = ground arith in
          let w : (c.next_key + n) % 256 ≡ c.last_key = omega arith in
          let u = update c.key_buf c.last_key key in
          let k : update c.key_buf c.last_key key c.last_key ≡ key = ground arith in
          (
            (rw e a, rw e (omega arith)),
            rw (e, z, t)
                (ring-snoc u c.next_key n a
                  ∙ ap (λ l. l ++ (u ((c.next_key + n) % 256) ∷ []))
                      (ring-update c.key_buf c.next_key n c.last_key key a b (omega arith))
                  ∙ rw (w, k) refl),
          )
    ]

zero_suc : {n : ℕ} → 0 ≡ suc n → ⊥
zero_suc e = omega arith

cons_injective : {x y : ℕ} {xs ys : List ℕ} → x ∷ xs ≡ y ∷ ys → (x ≡ y) × (xs ≡ ys)
cons_injective e = (cc, cc)

getc-ring :
    (c : Keys) (serial : List ℕ) (n : ℕ)
    → IsRing c
    → size c ≡ suc n
    → (d : Keys) × (getc c serial ≡ some (c.key_buf c.next_key, d, serial))
      × IsRing d
      × (queue d ≡ ring c.key_buf ((c.next_key + 1) % 256) n)
unfolding getc
getc-ring c serial n (a, b) e =
    let f : (c.next_key == c.last_key) ≡ false = ground arith in
    let less : (c.last_key + 256 - (c.next_key + 1) % 256) % 256 ≡ n = omega arith in
    (record c { next_key = (c.next_key + 1) % 256 }, rw f refl, (omega arith, b), rw less refl)

-- The first key of the queue is taken, whatever the serial line has.
pub getc-queue :
    (c : Keys) (serial : List ℕ) (key : ℕ) (rest : List ℕ)
    → IsRing c
    → queue c ≡ key ∷ rest
    → (d : Keys) × (getc c serial ≡ some (key, d, serial)) × IsRing d × (queue d ≡ rest)
unfolding ring
getc-queue c serial key rest v e =
    let n = size c in
    let nonzero : n ≢ 0 =
      λ z. absurd (zero_suc (sym (length-ring c.key_buf c.next_key n ∙ z) ∙ ap length e)) in
    let m = n - 1 in
    let k : size c ≡ suc m = omega arith in
    let w = getc-ring c serial m v k in
    let f : c.key_buf c.next_key ∷ ring c.key_buf ((c.next_key + 1) % 256) m ≡ key ∷ rest =
      ap (λ i. ring c.key_buf c.next_key i) (sym k) ∙ e in
    let g = cons_injective f in (w.0, w.1 ∙ rw g.0 refl, w.2, w.3 ∙ g.1)

-- The answers of `n` calls of Console_Getc, with the state behind them.
pub getcs : Keys → ℕ → Option (List ℕ × Keys)
getcs c zero = some ([], c)
getcs c (suc n) = elim (getc c []) [
  | none ↦ none
  | some (key, d, serial) ↦ elim (getcs d n) [ none ↦ none | some (keys, u) ↦ some (key ∷ keys, u) ]
]

pub enqueue_keys : Keys → List ℕ → Keys
enqueue_keys c [] = c
enqueue_keys c (key ∷ keys) = enqueue_keys (enqueue_key c key) keys

length-snoc : (q : List ℕ) (key : ℕ) → length (q ++ (key ∷ [])) ≡ suc (length q)
length-snoc [] key = refl
length-snoc (x ∷ q) key = ap suc (length-snoc q key)

enqueue_keys-queue :
    (c : Keys) (keys : List ℕ)
    → IsRing c
    → length (queue c) + length keys ≤ 255
    → IsRing (enqueue_keys c keys) × (queue (enqueue_keys c keys) ≡ queue c ++ keys)
unfolding enqueue_keys
enqueue_keys-queue c [] v small = (v, sym (append-nil (queue c)))
enqueue_keys-queue c (key ∷ keys) v small =
    let w = enqueue_key-queue c key v in
    let t : (length (queue c) == 255) ≡ false = ground arith in
    let q : queue (enqueue_key c key) ≡ queue c ++ (key ∷ []) = w.1 ∙ rw t refl in
    let l : length (queue (enqueue_key c key)) ≡ suc (length (queue c)) =
      ap length q ∙ length-snoc (queue c) key in
    let r = enqueue_keys-queue (enqueue_key c key) keys w.0 (omega arith) in
    (r.0, r.1 ∙ ap (λ l. l ++ keys) q ∙ append_assoc (queue c) (key ∷ []) keys)

next_getcs :
    (c d u : Keys) (key : ℕ) (q : List ℕ)
    → getc c [] ≡ some (key, d, [])
    → getcs d (length q) ≡ some (q, u)
    → getcs c (suc (length q)) ≡ some (key ∷ q, u)
unfolding getcs
next_getcs c d u key q e r = rw (getcs, e, r) refl

getcs-queue :
    (c : Keys) (q : List ℕ)
    → IsRing c
    → queue c ≡ q
    → (d : Keys) × (getcs c (length q) ≡ some (q, d)) × IsRing d × (queue d ≡ [])
unfolding getcs
getcs-queue c [] v e = (c, refl, v, e)
getcs-queue c (key ∷ q) v e =
    let w = getc-queue c [] key q v e in
    let r = getcs-queue w.0 q w.2 w.3 in (r.0, next_getcs c w.0 r.0 key q w.1 r.1, r.2, r.3)

-- Keys for an empty ring, 255 of them at most, come back from as many calls of Console_Getc in the order
-- in which they were enqueued, and leave the ring empty.
pub getcs-enqueue_keys :
    (c : Keys) (keys : List ℕ)
    → IsRing c
    → queue c ≡ []
    → length keys ≤ 255
    → (d : Keys) × (getcs (enqueue_keys c keys) (length keys) ≡ some (keys, d))
      × IsRing d
      × (queue d ≡ [])
getcs-enqueue_keys c keys v e small =
    let z : length (queue c) ≡ 0 = ap length e in
    let w = enqueue_keys-queue c keys v (omega arith) in
    getcs-queue (enqueue_keys c keys) keys w.0 (w.1 ∙ ap (λ l. l ++ keys) e)
