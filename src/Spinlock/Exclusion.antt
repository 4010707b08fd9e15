-- ===== src/Spinlock/Exclusion.antt =====
-- Mutual exclusion, and that the ASSERT of Spinlock_Unlock holds.
use boring_os_ssaha.Prelude.{
  ℕ, ◌+◌, ◌^◌, ◌<◌, ◌≡◌, ◌≢◌, refl, sym, ◌∙◌, subst, arith, ltb, Bool, true, none, some,
}
use boring_os_ssaha.Spinlock.{
  Kind, recursive, Phase, outside, spinning, won, leaving, State, init, enter, swap, claim, unlock,
  clear, is_held, Step, enters, swaps, claims, unlocks, clears, Reach, here, next,
}

abbrev holds : Phase → ℕ → Bool
holds won d = true
holds leaving d = true
holds _ d = ltb 0 d

-- The CPU is between winning the lock word and clearing it.
abbrev pub Owns : State → ℕ → Type 0
Owns s c = holds (s.phase c) (s.depth c) ≡ true

pub record IsLock (s : State) : Type 0 where
  pub unique : (c g : ℕ) → Owns s c → Owns s g → c ≡ g
  pub locked : (c : ℕ) → Owns s c → s.lock ≡ 1
  pub counted : (c : ℕ) → Owns s c → s.r_count ≡ s.depth c
  pub free : s.lock ≢ 1 → s.r_count ≡ 0
  pub left : (c : ℕ) → s.phase c ≡ leaving → s.depth c ≡ 0
  pub holder : (c : ℕ) → 0 < s.depth c → s.cpu ≡ c
  pub named : s.cpu ≢ 0 → 0 < s.depth s.cpu
  pub barred : s.kind ≡ recursive → (s.phase 0 ≡ outside) × (s.depth 0 ≡ 0)
  pub bounded : s.r_count < 2 ^ 64

init-IsLock : (k : Kind) → IsLock (init k)
unfolding init
init-IsLock k = record {
  unique = λ c g a b. absurd (ground arith);
  locked = λ c a. absurd (ground arith);
  counted = λ c a. absurd (ground arith);
  free = λ a. refl;
  left = λ c a. refl;
  holder = λ c a. absurd (omega arith);
  named = λ a. absurd (a refl);
  barred = λ a. (refl, refl);
  bounded = omega arith;
}

enter-IsLock :
    (s : State) (c : ℕ)
    → (s.kind ≡ recursive → c ≢ 0)
    → s.phase c ≡ outside
    → IsLock s
    → IsLock (enter s c)
unfolding enter
enter-IsLock s c nz p v = record {
  unique = λ d g a b. ground (arith, v.unique d g);
  locked = λ d a. ground (arith, v.locked d);
  counted = λ d a. ground (arith, v.counted d);
  free = v.free;
  left = λ d a. ground (arith, v.left d);
  holder = v.holder;
  named = v.named;
  barred = λ k. ground (arith, v.barred k, nz k);
  bounded = v.bounded;
}

swap-IsLock : (s : State) (c : ℕ) → s.phase c ≡ spinning → IsLock s → IsLock (swap s c)
unfolding swap
swap-IsLock s c p v = record {
  unique = λ d g a b.
      ground (
        arith,
        v.unique d g,
        v.unique c g,
        v.unique d c,
        v.locked d,
        v.locked g,
        v.named,
        v.barred,
      );
  locked = λ d a. ground (arith, v.locked d);
  counted = λ d a.
      ground (arith, v.counted d, v.counted c, v.locked d, v.locked c, v.free, v.named, v.barred);
  free = λ a. ground (arith, v.free);
  left = λ d a. ground (arith, v.left d);
  holder = λ d a. ground (arith, v.holder d);
  named = λ a. ground (arith, v.named);
  barred = λ k. ground (arith, v.barred);
  bounded = ground (arith, v.bounded);
}

claim-IsLock :
    (s : State) (c start now : ℕ)
    → s.phase c ≡ won
    → s.r_count + 1 < 2 ^ 64
    → IsLock s
    → IsLock (claim s c start now)
unfolding claim
claim-IsLock s c start now p small v = record {
  unique = λ d g a b. ground (arith, v.unique d g, v.unique c g, v.unique d c);
  locked = λ d a. ground (arith, v.locked d, v.locked c);
  counted = λ d a. ground (arith, v.counted d, v.counted c, v.unique d c);
  free = λ a. absurd (a (ground (arith, v.locked c)));
  left = λ d a. ground (arith, v.left d);
  holder = λ d a. ground (arith, v.holder d, v.unique d c);
  named = λ a. ground arith;
  barred = λ k. ground (arith, v.barred k);
  bounded = ground arith;
}

unlock-IsLock :
    (s t : State) (c now : ℕ)
    → s.phase c ≡ outside
    → 0 < s.depth c
    → unlock s c now ≡ some t
    → IsLock s
    → IsLock t
unfolding unlock
unlock-IsLock s t c now p d e v = record {
  unique =
      λ f g a b. ground (arith, v.unique f g, v.counted c, v.unique f c, v.unique g c, v.bounded);
  locked = λ f a. ground (arith, v.locked f, v.counted c, v.locked c, v.bounded);
  counted = λ f a. ground (arith, v.counted f, v.counted c, v.unique f c, v.bounded);
  free = λ a. ground (arith, v.free, v.locked c, v.counted c, v.bounded);
  left = λ f a. ground (arith, v.left f, v.counted c, v.bounded);
  holder = λ f a. ground (arith, v.holder f, v.counted c, v.unique f c, v.bounded);
  named = λ a. ground (arith, v.named, v.counted c, v.bounded);
  barred = λ k. ground (arith, v.barred, v.counted c, v.bounded);
  bounded = ground (arith, v.bounded);
}

clear-IsLock : (s : State) (c : ℕ) → s.phase c ≡ leaving → IsLock s → IsLock (clear s c)
unfolding clear
clear-IsLock s c p v = record {
  unique = λ d g a b. ground (arith, v.unique d g);
  locked = λ d a. ground (arith, v.unique d c, v.left c);
  counted = λ d a. ground (arith, v.counted d, v.unique d c, v.left c);
  free = λ a. ground (arith, v.counted c, v.left c);
  left = λ d a. ground (arith, v.left d);
  holder = v.holder;
  named = v.named;
  barred = λ k. ground (arith, v.barred k);
  bounded = v.bounded;
}

swap-kind : (s : State) (c : ℕ) → (swap s c).kind ≡ s.kind
unfolding swap
swap-kind s c = ground arith

unlock-kind : (s t : State) (c now : ℕ) → unlock s c now ≡ some t → t.kind ≡ s.kind
unfolding unlock
unlock-kind s t c now e = ground arith

module _ {Allowed : ℕ → Type 0} (k : Kind) (no_zero : k ≡ recursive → ¬ (Allowed 0)) where
  Step-IsLock : {s t : State} → Step Allowed s t → IsLock s × (s.kind ≡ k) → IsLock t × (t.kind ≡ k)
  unfolding enter claim clear
  Step-IsLock {s} (enters c ok p e) (v, q) =
      rw e (enter-IsLock s c (λ r z. no_zero (sym q ∙ r) (subst Allowed z ok)) p v, q)
  Step-IsLock {s} (swaps c p e) (v, q) = rw e (swap-IsLock s c p v, swap-kind s c ∙ q)
  Step-IsLock {s} (claims c start now p small e) (v, q) =
      rw e (claim-IsLock s c start now p small v, q)
  Step-IsLock {s} {t} (unlocks c now p d e) (v, q) =
      (unlock-IsLock s t c now p d e v, unlock-kind s t c now e ∙ q)
  Step-IsLock {s} (clears c p e) (v, q) = rw e (clear-IsLock s c p v, q)

  Reach-IsLock :
      {s t : State} → IsLock s × (s.kind ≡ k) → Reach Allowed s t → IsLock t × (t.kind ≡ k)
  Reach-IsLock h here = h
  Reach-IsLock h (next r st) = Step-IsLock st (Reach-IsLock h r)

-- In every state that any interleaving reaches from a new lock, at most one CPU is between winning
-- the lock and clearing it. For a recursive lock this needs that CPU 0 does not use it.
pub mutual_exclusion :
    (Allowed : ℕ → Type 0) (k : Kind) (t : State) (c g : ℕ)
    → (k ≡ recursive → ¬ (Allowed 0))
    → Reach Allowed (init k) t
    → Owns t c
    → Owns t g
    → c ≡ g
mutual_exclusion Allowed k t c g no_zero r a b =
    (Reach-IsLock k no_zero (init-IsLock k, unfold init in refl) r).0.unique c g a b

-- Under the same conditions, a CPU that has the lock and calls Spinlock_Unlock passes its ASSERT,
-- and Spinlock_IsHeld answers true to it.
pub unlock_total :
    (Allowed : ℕ → Type 0) (k : Kind) (t : State) (c now : ℕ)
    → (k ≡ recursive → ¬ (Allowed 0))
    → Reach Allowed (init k) t
    → 0 < t.depth c
    → (unlock t c now ≢ none) × (is_held t c ≡ true)
unfolding unlock is_held
unlock_total Allowed k t c now no_zero r d =
    let v = (Reach-IsLock k no_zero (init-IsLock k, unfold init in refl) r).0 in
    let e : t.cpu ≡ c = v.holder c d in
    (λ h. ground (arith, e), ground (arith, v.locked c, v.left c, e))
