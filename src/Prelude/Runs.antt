-- ===== src/Prelude/Runs.antt =====
-- Runs of kernel code over an explicit state. `left` stands for a return to user mode from
-- within (`env_run` does not come back), with the state at that point. `halt` stands for the
-- endless loop of a panic and for an access through NULL; nothing runs afterwards.

pub data Stop : Type 0 where
  panic bad_pointer out_of_fuel : Stop

pub data Run (S : Type 0) (A : Type 0) : Type 0 where
  done : A → S → Run S A
  left : S → Run S A
  halt : Stop → Run S A

abbrev pub Cmd : Type 0 → Type 0 → Type 0
Cmd S A = S → Run S A

module _ {S A : Type 0} where
  abbrev pub pure : A → Cmd S A
  pure a s = done a s

  abbrev pub stop : Stop → Cmd S A
  stop e s = halt e

  abbrev pub gets : (S → A) → Cmd S A
  gets f s = done (f s) s

-- control leaves for user mode
abbrev pub leave : {S A : Type 0} → Cmd S A
leave s = left s

abbrev pub modify : {S : Type 0} → (S → S) → Cmd S (Unit {0})
modify f s = done tt (f s)

module _ {S A B : Type 0} where
  abbrev pub and_then : Run S A → (A → Cmd S B) → Run S B
  and_then (done a s) k = k a s
  and_then (left s) k = left s
  and_then (halt e) k = halt e

  infixl 5 ◌>>=◌ ◌>>◌
  abbrev pub ◌>>=◌ : Cmd S A → (A → Cmd S B) → Cmd S B
  m >>= k = λ s. and_then (m s) k

  abbrev pub ◌>>◌ : Cmd S A → Cmd S B → Cmd S B
  m >> n = m >>= λ _. n

-- A run of code over a part of the state, put back into the whole.
abbrev pub lift : {S T A : Type 0} → Run T A → (T → S) → Run S A
lift (done a t) put = done a (put t)
lift (left t) put = left (put t)
lift (halt e) put = halt e
