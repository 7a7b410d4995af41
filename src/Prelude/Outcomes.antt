-- ===== src/Prelude/Outcomes.antt =====
-- What holds where a run is done: a postcondition on its result and its state.
use mathlib.Core.Path.{◌≡◌, subst, refl}
use jos_buaa_a20_porting.Prelude.Runs.{Run, done, left, halt, Cmd, and_then, lift}

module _ {S A : Type 0} where
  abbrev pub Ensures : (A → S → Type 0) → Run S A → Type 0
  Ensures P (done a s) = P a s
  Ensures P (left s) = Unit
  Ensures P (halt e) = Unit

  pub Ensures-done :
      (P : A → S → Type 0) {r : Run S A} {a : A} {s : S} → Ensures P r → r ≡ done a s → P a s
  Ensures-done P h e = subst (Ensures P) e h

  pub Ensures-mono :
      (P Q : A → S → Type 0) (r : Run S A)
      → Ensures P r
      → ((a : A) (s : S) → P a s → Q a s)
      → Ensures Q r
  Ensures-mono P Q (done a s) h k = k a s h
  Ensures-mono P Q (left s) h k = tt
  Ensures-mono P Q (halt e) h k = tt

-- The same, where the run has to be done.
module _ {S A : Type 0} where
  abbrev pub Returns : (A → S → Type 0) → Run S A → Type 0
  Returns P (done a s) = P a s
  Returns P (left s) = ⊥
  Returns P (halt e) = ⊥

  pub Returns-done :
      (P : A → S → Type 0) (r : Run S A) → Returns P r → (a : A) × (s : S) × (r ≡ done a s) × P a s
  Returns-done P (done a s) h = (a, s, refl, h)
  Returns-done P (left s) h = absurd h
  Returns-done P (halt e) h = absurd h

  pub Returns-mono :
      (P Q : A → S → Type 0) (r : Run S A)
      → Returns P r
      → ((a : A) (s : S) → P a s → Q a s)
      → Returns Q r
  Returns-mono P Q (done a s) h k = k a s h
  Returns-mono P Q (left s) h k = absurd h
  Returns-mono P Q (halt e) h k = absurd h

  pub Returns-Ensures : (P : A → S → Type 0) (r : Run S A) → Returns P r → Ensures P r
  Returns-Ensures P (done a s) h = h
  Returns-Ensures P (left s) h = tt
  Returns-Ensures P (halt e) h = tt

-- the rule for a first part and what follows it
pub Ensures-and_then :
    {S A B : Type 0} (P : A → S → Type 0) (Q : B → S → Type 0) (r : Run S A) (k : A → Cmd S B)
    → Ensures P r
    → ((a : A) (s : S) → P a s → Ensures Q (k a s))
    → Ensures Q (and_then r k)
Ensures-and_then P Q (done a s) k h g = g a s h
Ensures-and_then P Q (left s) k h g = tt
Ensures-and_then P Q (halt e) k h g = tt

pub Returns-and_then :
    {S A B : Type 0} (P : A → S → Type 0) (Q : B → S → Type 0) (r : Run S A) (k : A → Cmd S B)
    → Returns P r
    → ((a : A) (s : S) → P a s → Returns Q (k a s))
    → Returns Q (and_then r k)
Returns-and_then P Q (done a s) k h g = g a s h
Returns-and_then P Q (left s) k h g = absurd h
Returns-and_then P Q (halt e) k h g = absurd h

-- the rule for a first part that runs on a part of the state, about which nothing is known
pub Ensures-lift :
    {S T A B : Type 0} (Q : B → S → Type 0) (r : Run T A) (put : T → S) (k : A → Cmd S B)
    → ((a : A) (t : T) → Ensures Q (k a (put t)))
    → Ensures Q (and_then (lift r put) k)
Ensures-lift Q (done a t) put k g = g a t
Ensures-lift Q (left t) put k g = tt
Ensures-lift Q (halt e) put k g = tt
