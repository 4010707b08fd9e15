-- ===== src/Handle/Teardown.antt =====
-- Handle_Destroy: every open handle is closed, in slot order, and the table is left empty.
use boring_os_ssaha.Prelude.{
  ℕ, zero, suc, ◌+◌, ◌≤◌, ◌<◌, ◌≡◌, ◌≢◌, refl, sym, ◌∙◌, arith, List, [], ◌∷◌, ◌++◌, update, remove,
}
use mathlib.Core.List.{append-nil, append_assoc}
use native.Mathlib.Decide.{ℕ_discrete}
use boring_os_ssaha.Handle.{Process, process_handle_slots, destroy_chain, destroy_slots, destroy}

-- The chains of `n` slots from slot `i` on, one after the other.
abbrev pub chains_from : ℕ → ℕ → (ℕ → List ℕ) → List ℕ
chains_from zero i f = []
chains_from (suc n) i f = f i ++ chains_from n (i + 1) f

chains_from-congr :
    (n i : ℕ) (f g : ℕ → List ℕ)
    → ((j : ℕ) → i ≤ j → f j ≡ g j)
    → chains_from n i f ≡ chains_from n i g
chains_from-congr zero i f g h = refl
chains_from-congr (suc n) i f g h =
    cc (h i (omega arith), chains_from-congr n (i + 1) f g (λ j l. h j (omega arith)))

record ChainGone (i : ℕ) (l : List ℕ) (p q : Process) : Type 0 where
  emptied : q.handles i ≡ []
  others : (j : ℕ) → j ≢ i → q.handles j ≡ p.handles j
  closes : q.closed ≡ p.closed ++ l

-- What the loop body does to the state at the handle `h`.
abbrev close_one : ℕ → ℕ → Process → Process
close_one i h p = record p {
  handles = update p.handles i (remove h (p.handles i));
  closed = p.closed ++ (h ∷ []);
}

ChainGone-cons :
    (i h : ℕ) (hs : List ℕ) (p q : Process)
    → ChainGone i hs (close_one i h p) q
    → ChainGone i (h ∷ hs) p q
ChainGone-cons i h hs p q rec = record {
  emptied = rec.emptied;
  others = λ j ne. ground (arith, rec.others j);
  closes = rec.closes ∙ append_assoc p.closed (h ∷ []) hs;
}

destroy_chain-ChainGone :
    (i : ℕ) (l : List ℕ) (p : Process) → p.handles i ≡ l → ChainGone i l p (destroy_chain i l p)
unfolding destroy_chain
destroy_chain-ChainGone i [] p e = record {
  emptied = e;
  others = λ j ne. refl;
  closes = sym (append-nil p.closed);
}
destroy_chain-ChainGone i (h ∷ hs) p e =
    ChainGone-cons i h hs p _ (destroy_chain-ChainGone i hs _ (ground (arith, e)))

record SlotsGone (n i : ℕ) (p q : Process) : Type 0 where
  emptied : (j : ℕ) → i ≤ j → j < i + n → q.handles j ≡ []
  before : (j : ℕ) → j < i → q.handles j ≡ p.handles j
  closes : q.closed ≡ p.closed ++ chains_from n i p.handles

SlotsGone-suc :
    (n i : ℕ) (p q r : Process)
    → ChainGone i (p.handles i) p q
    → SlotsGone n (i + 1) q r
    → SlotsGone (suc n) i p r
SlotsGone-suc n i p q r c s = record {
  emptied = λ j a b. elim (ℕ_discrete j i) [
    | yes e ↦ rw e (s.before i (omega arith) ∙ c.emptied)
    | no ne ↦ s.emptied j (omega arith) (omega arith)
  ];
  before = λ j a. s.before j (omega arith) ∙ c.others j (omega arith);
  closes = ground (
    arith,
    s.closes,
    c.closes,
    append_assoc p.closed (p.handles i) (chains_from n (i + 1) p.handles),
    chains_from-congr n (i + 1) q.handles p.handles (λ j l. c.others j (omega arith)),
  );
}

destroy_slots-SlotsGone : (n i : ℕ) (p : Process) → SlotsGone n i p (destroy_slots n i p)
unfolding destroy_slots
destroy_slots-SlotsGone zero i p = record {
  emptied = λ j a b. absurd (omega arith);
  before = λ j a. refl;
  closes = sym (append-nil p.closed);
}
destroy_slots-SlotsGone (suc n) i p =
    SlotsGone-suc n i p _ _ (destroy_chain-ChainGone i (p.handles i) p refl)
      (destroy_slots-SlotsGone n (i + 1) (destroy_chain i (p.handles i) p))

-- Handle_Destroy leaves every slot empty, and closes exactly the handles of the table: each chain
-- once, from slot 0 to the last.
pub destroy_lem :
    (p : Process)
    → ((j : ℕ) → j < process_handle_slots → (destroy p).handles j ≡ [])
      × ((destroy p).closed ≡ p.closed ++ chains_from process_handle_slots 0 p.handles)
unfolding destroy
destroy_lem p =
    let r = destroy_slots-SlotsGone process_handle_slots 0 p in
    (λ j h. r.emptied j (omega arith) (omega arith), r.closes)
