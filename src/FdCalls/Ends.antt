-- ===== src/FdCalls/Ends.antt =====
-- `readn` of user/fd.c ends: every round reads something, or is the last one.
use jos_buaa_a20_porting.Prelude.{
  ℕ, ◌^◌, ◌≤◌, ◌≡◌, ◌⊎◌, Run, done, left, halt, panic, bad_pointer, out_of_fuel,
}
use jos_buaa_a20_porting.Mm.{Ret, good, bad}
use jos_buaa_a20_porting.UserMem.{User}

-- A run with an `int` result that ends: with an error, negative or not, with at most `n`, or with
-- the process waiting or stopped, but not for want of fuel.
abbrev pub Settles : (n : ℕ) → Run User (Ret ℕ) → Type 0
Settles n (done (bad e) s) = Unit
Settles n (done (good m) s) = (m ≤ n) ⊎ (2 ^ 31 ≤ m)
Settles n (left s) = Unit
Settles n (halt panic) = Unit
Settles n (halt bad_pointer) = Unit
Settles n (halt out_of_fuel) = ⊥

-- a run that ends, or stops at an access that is not allowed
abbrev Copies : Run User (Unit {0}) → Type 0
Copies (done u s) = Unit
Copies (left s) = ⊥
Copies (halt e) = e ≡ bad_pointer
