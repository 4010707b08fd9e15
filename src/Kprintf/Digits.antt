-- ===== src/Kprintf/Digits.antt =====
-- The digits of a number.
use boring_os_ssaha.Prelude.{
  ℕ, zero, suc, ◌+◌, ◌-◌, ◌*◌, ◌/◌, ◌%◌, ◌^◌, ◌≤◌, ◌<◌, ◌≡◌, ◌≢◌, refl, sym, ap, subst, ◌∙◌, arith,
  ◌==◌, ltb, leb, ◌&&◌, if◌then◌else◌, Bool, true, false, ◌||◌, Option, none, some, List, [], ◌∷◌,
  ◌++◌, append_assoc, length, split_eq, Bool-cases, inl, inr, ◌⊎◌,
}
use boring_os_ssaha.Kprintf.{digit, fill_buf, from_end, spaces, printnum}

-- The value of a character that is a digit, with capital letters or small ones.
abbrev pub digit_value : Bool → ℕ → Option ℕ
digit_value true c =
    if leb 48 c && ltb c 58
    then some (c - 48)
    else if leb 65 c && ltb c 71
    then some (c - 55)
    else none
digit_value false c =
    if leb 48 c && ltb c 58
    then some (c - 48)
    else if leb 97 c && ltb c 103
    then some (c - 87)
    else none

-- A digit is added to a number; `none` if it is no digit of the base.
abbrev pub add_value : ℕ → ℕ → Option ℕ → Option ℕ
add_value base n none = none
add_value base n (some d) = if ltb d base then some (n * base + d) else none

abbrev pub add_digit : Bool → ℕ → Option ℕ → ℕ → Option ℕ
add_digit upper base none c = none
add_digit upper base (some n) c = add_value base n (digit_value upper c)

-- The number that a list of characters is, the highest first, behind the number before them.
abbrev pub number : Bool → ℕ → Option ℕ → List ℕ → Option ℕ
number upper base n [] = n
number upper base n (c ∷ chars) = number upper base (add_digit upper base n c) chars

abbrev pub first : List ℕ → ℕ
first [] = 0
first (c ∷ chars) = c

-- The bases that kvprintf asks for.
abbrev pub IsBase : ℕ → Type 0
IsBase base = (base ≡ 8) ⊎ ((base ≡ 10) ⊎ (base ≡ 16))

digit_lem : (upper : Bool) (d : ℕ) → d < 16 → digit_value upper (digit upper d) ≡ some d
digit_lem true d h = ground arith
digit_lem false d h = ground arith

digit_nonzero : (upper : Bool) (d : ℕ) → d < 16 → d ≢ 0 → digit upper d ≢ 48
digit_nonzero true d h nz e = ground arith
digit_nonzero false d h nz e = ground arith

-- A buffer with the digits of `num`, the lowest first.
pub record IsDigits (upper : Bool) (base num k : ℕ) (buf : List ℕ) : Type 0 where
  pub value : number upper base (some 0) (from_end buf []) ≡ some num
  pub fits : length buf ≤ k
  pub leading : num ≢ 0 → (first (from_end buf []) ≢ 48) × (length buf ≢ 0)

length-from_end : (buf out : List ℕ) → length (from_end buf out) ≡ length buf + length out
length-from_end [] out = omega arith
length-from_end (c ∷ buf) out = length-from_end buf (c ∷ out) ∙ omega arith

first-append : (l r : List ℕ) → length l ≢ 0 → first (l ++ r) ≡ first l
first-append [] r h = absurd (h refl)
first-append (c ∷ l) r h = refl

from_end-append : (buf out : List ℕ) → from_end buf out ≡ from_end buf [] ++ out
from_end-append [] out = refl
from_end-append (c ∷ buf) out =
    from_end-append buf (c ∷ out)
    ∙ sym (append_assoc (from_end buf []) (c ∷ []) out)
    ∙ ap (λ l. l ++ out) (sym (from_end-append buf (c ∷ [])))

number-append :
    (upper : Bool) (base c : ℕ) (n : Option ℕ) (l : List ℕ)
    → number upper base n (l ++ (c ∷ [])) ≡ add_digit upper base (number upper base n l) c
number-append upper base c n [] = refl
number-append upper base c n (x ∷ l) = number-append upper base c (add_digit upper base n x) l

split_num :
    (base num : ℕ)
    → IsBase base
    → (num / base * base + num % base ≡ num)
      × (num % base < 16)
      × (num / base * 2 ≤ num)
      × (num % base < base)
split_num base num (inl e) = rw e (omega arith, omega arith, omega arith, omega arith)
split_num base num (inr (inl e)) = rw e (omega arith, omega arith, omega arith, omega arith)
split_num base num (inr (inr e)) = rw e (omega arith, omega arith, omega arith, omega arith)

number-from_end :
    (upper : Bool) (base c : ℕ) (buf : List ℕ)
    → number upper base (some 0) (from_end (c ∷ buf) [])
      ≡ add_digit upper base (number upper base (some 0) (from_end buf [])) c
number-from_end upper base c buf =
    ap (number upper base (some 0)) (from_end-append buf (c ∷ []))
    ∙ number-append upper base c (some 0) (from_end buf [])

add_digit_lem :
    (upper : Bool) (base n d : ℕ)
    → d < 16
    → d < base
    → add_digit upper base (some n) (digit upper d) ≡ some (n * base + d)
add_digit_lem upper base n d small less =
    let b : ltb d base ≡ true = ground arith in
    ap (add_value base n) (digit_lem upper d small) ∙ rw b refl

-- The last digit goes before those of the rest, which are none if the rest is 0.
IsDigits-next :
    (upper : Bool) (base num k : ℕ) (buf : List ℕ)
    → IsBase base
    → (num / base ≡ 0 → buf ≡ [])
    → IsDigits upper base (num / base) k buf
    → IsDigits upper base num (suc k) (digit upper (num % base) ∷ buf)
IsDigits-next upper base num k buf b alone d =
    let (e, small, half, less) = split_num base num b in
    let c = digit upper (num % base) in
    record {
      value =
          number-from_end upper base c buf
          ∙ ap (λ v. add_digit upper base v c) d.value
          ∙ add_digit_lem upper base (num / base) (num % base) small less
          ∙ ap some e;
      fits = omega (arith, d.fits);
      leading = λ nz. (
        elim (split_eq (num / base) 0) [
          | inl z ↦
              let q : num % base ≢ 0 = λ r. nz (sym e ∙ rw (z, r) (omega arith)) in
              rw (alone z) (digit_nonzero upper (num % base) small q)
          | inr more ↦
              let l = d.leading more in
              let same =
                ap first (from_end-append buf (c ∷ []))
                ∙ first-append (from_end buf []) (c ∷ [])
                    (λ z. l.1 (omega (arith, z, length-from_end buf []))) in
              λ h. l.0 (sym same ∙ h)
        ],
        omega arith,
      );
    }

half_small :
    (k num q : ℕ) → num < 2 ^ suc k → q * 2 ≤ num → q ≢ 0 → (j : ℕ) × (k ≡ suc j) × (q < 2 ^ suc j)
half_small zero num q small half nz = absurd (omega arith)
half_small (suc j) num q small half nz = (j, refl, omega arith)

zero_quotient : (base num : ℕ) → IsBase base → num ≡ 0 → num / base ≢ 0 → ⊥
zero_quotient base num (inl e) q nz = nz (rw (e, q) refl)
zero_quotient base num (inr (inl e)) q nz = nz (rw (e, q) refl)
zero_quotient base num (inr (inr e)) q nz = nz (rw (e, q) refl)

fill_buf-IsDigits :
    (upper : Bool) (base num k fuel : ℕ)
    → IsBase base
    → num < 2 ^ suc k
    → k < fuel
    → (buf : List ℕ) × (fill_buf upper base num fuel ≡ some buf)
      × IsDigits upper base num (suc k) buf
      × (length buf ≢ 0)
      × (num ≡ 0 → length buf ≡ 1)
unfolding fill_buf
fill_buf-IsDigits upper base num k zero b small enough = absurd (omega arith)
fill_buf-IsDigits upper base num k (suc fuel) b small enough =
    let (e, low, half, less) = split_num base num b in
    elim (split_eq (num / base) 0) [
      | inl z ↦
          let t : (num / base == 0) ≡ true = ground arith in
          let none_left : IsDigits upper base (num / base) k [] = record {
            value = ap some (sym z);
            fits = omega arith;
            leading = λ nz. absurd (nz z);
          } in
          (
            digit upper (num % base) ∷ [],
            rw t refl,
            IsDigits-next upper base num k [] b (λ q. refl) none_left,
            omega arith,
            λ q. refl,
          )
      | inr nz ↦
          let t : (num / base == 0) ≡ false = ground arith in
          let (j, ke, fewer) = half_small k num (num / base) small half nz in
          let (buf, r, d, some_digits, one) =
            fill_buf-IsDigits upper base (num / base) j fuel b fewer (omega arith) in
          (
            digit upper (num % base) ∷ buf,
            rw (fill_buf, t, r) refl,
            subst (λ l. IsDigits upper base num (suc l) (digit upper (num % base) ∷ buf)) (sym ke)
                (IsDigits-next upper base num (suc j) buf b (λ q. absurd (nz q)) d),
            omega arith,
            λ q. absurd (zero_quotient base num b q nz),
          )
    ]

-- What printnum puts out for `num`: spaces or zeros, the digits, and spaces.
pub record Printed (upper : Bool) (base num width padc : ℕ) (answer : Option (List ℕ))
    : Type 0 where
  pub before : List ℕ
  pub digits : List ℕ
  pub after : List ℕ
  pub returned : answer ≡ some (before ++ digits ++ after)
  pub value : number upper base (some 0) digits ≡ some num
  pub some_digit : length digits ≢ 0
  pub leading : (num ≡ 0 → length digits ≡ 1) × (num ≢ 0 → first digits ≢ 48)
  pub fits : length digits ≤ 64
  pub filled :
      (padc ≡ 0x20) ⊎ ((padc ≡ 0x30) ⊎ (padc ≡ 0x2d))
      → length before + length after ≡ width - length digits
  pub padding : (before ≡ spaces padc (length before)) × (after ≡ spaces 0x20 (length after))
  pub behind : padc ≡ 0x2d → length before ≡ 0
  pub in_front : padc ≢ 0x2d → length after ≡ 0

length-spaces : (c n : ℕ) → length (spaces c n) ≡ n
length-spaces c zero = refl
length-spaces c (suc n) = ap suc (length-spaces c n)

-- printnum of a 64-bit number in base 8, 10 or 16 returns. It puts out digits of the base, with capital
-- letters if these are asked for, and no other characters, that have the value of the number: one digit for
-- 0, and else no leading zero. They fit into its buffer of 64 characters. The padding is before them, of the
-- character `padc`, or for '-' of spaces behind them, and for ' ', '0' and '-' fills the width.
pub printnum-Printed :
    (upper : Bool) (base num width padc : ℕ)
    → IsBase base
    → num < 2 ^ 64
    → Printed upper base num width padc (printnum upper base num width padc)
unfolding printnum
printnum-Printed upper base num width padc b small =
    let (buf, r, d, some_digits, one) =
      fill_buf-IsDigits upper base num 63 65 b small (omega arith) in
    let n : length (from_end buf []) ≡ length buf = length-from_end buf [] ∙ omega arith in
    let pad = width - length buf in
    let sp = length-spaces padc pad in
    let sq = length-spaces 0x20 pad in
    record {
      before = if padc == 0x20 || padc == 0x30 then spaces padc pad else [];
      digits = from_end buf [];
      after = if padc == 0x2d then spaces 0x20 pad else [];
      returned = rw (printnum, r) refl;
      value = d.value;
      some_digit = omega (arith, n, some_digits);
      leading = (λ z. n ∙ one z, λ nz. (d.leading nz).0);
      fits = omega (arith, n, d.fits);
      filled = λ which. elim which [
        | inl e ↦ rw e (omega (arith, n, length-spaces 0x20 pad))
        | inr (inl e) ↦ rw e (omega (arith, n, length-spaces 0x30 pad))
        | inr (inr e) ↦ rw e (omega (arith, n, length-spaces 0x20 pad))
      ];
      padding = (
        elim (Bool-cases (padc == 0x20 || padc == 0x30)) [
          | inl t ↦ rw (t, sp) refl
          | inr f ↦ rw f refl
        ],
        elim (Bool-cases (padc == 0x2d)) [ inl t ↦ rw (t, sq) refl | inr f ↦ rw f refl ],
      );
      behind = λ e. rw e refl;
      in_front = λ ne. let f : (padc == 0x2d) ≡ false = ground arith in rw f refl;
    }
