-- ===== src/Sched/Spin.antt =====
-- A list of environments none of which is runnable keeps `sched_yield` in its loop for ever.
use jos_buaa_a20_porting.Prelude.{
  ℕ, zero, suc, ◌≡◌, ◌≢◌, refl, inl, inr, true, false, Option, none, some, List, ◌∷◌, arith,
  Bool-cases, Option-cases, halt, out_of_fuel, if◌then◌else◌, sym,
}
use jos_buaa_a20_porting.Queue.Chain.{has, IsQueue, Chain-next}
use mathlib.Core.Path.{subst}
use jos_buaa_a20_porting.Queue.{head}
use jos_buaa_a20_porting.Kernel.{Kernel, env_runnable}
use jos_buaa_a20_porting.Sched.{is_le_zero, advance, sched_round, is_ready, sched_loop, sched_yield}

-- `iter` is NULL or an element of the list
abbrev pub InList : Option ℕ → List ℕ → Type 0
InList none xs = Unit
InList (some e) xs = has e xs ≡ true

-- What `sched_yield` moves to is an element of the list, where `iter` is NULL or one itself.
pub advance-has :
    (k : Kernel) (x : ℕ) (xs : List ℕ)
    → IsQueue k.env_sched_list (x ∷ xs)
    → InList k.iter (x ∷ xs)
    → (e : ℕ) × (advance k ≡ some e) × (has e (x ∷ xs) ≡ true)
unfolding advance
advance-has k x xs q i = elim (Option-cases k.iter) [
  | inl n ↦ (x, ground (arith, q.0), ground arith)
  | inr (c, at) ↦ elim (Option-cases (k.env_sched_list.next c)) [
    | inl last ↦ (x, ground (arith, q.0), ground arith)
    | inr (e, follows) ↦ (
      e,
      ground arith,
      Chain-next k.env_sched_list head k.env_sched_list.first (x ∷ xs) c e q (ground arith) follows,
    )
  ]
]

-- what a round of the loop leaves alone, and where it moves `iter`
pub sched_round-parts :
    (k : Kernel)
    → ((sched_round k).envs ≡ k.envs)
      × ((sched_round k).env_sched_list ≡ k.env_sched_list)
      × ((sched_round k).iter ≡ (if is_le_zero k.ts then advance k else k.iter))
unfolding sched_round
sched_round-parts k = (ground arith, ground arith, ground arith)

record IsStuck (k : Kernel) (x : ℕ) (xs : List ℕ) : Type 0 where
  queue : IsQueue k.env_sched_list (x ∷ xs)
  iter_in : InList k.iter (x ∷ xs)
  dead : (q : ℕ) → has q (x ∷ xs) ≡ true → (k.envs q).env_status ≢ env_runnable

sched_round-iter :
    (k : Kernel) (x : ℕ) (xs : List ℕ)
    → IsQueue k.env_sched_list (x ∷ xs)
    → InList k.iter (x ∷ xs)
    → InList (sched_round k).iter (x ∷ xs)
sched_round-iter k x xs q i =
    let (_, _, moved) = sched_round-parts k in
    let (e, at, inside) = advance-has k x xs q i in
    elim (Bool-cases (is_le_zero k.ts)) [
      | inl z ↦
          let step : (sched_round k).iter ≡ some e = ground (arith, moved, at) in
          subst (λ o. InList o (x ∷ xs)) (sym step) inside
      | inr p ↦
          let stay : (sched_round k).iter ≡ k.iter = ground (arith, moved) in
          subst (λ o. InList o (x ∷ xs)) (sym stay) i
    ]

sched_round-IsStuck :
    (k : Kernel) (x : ℕ) (xs : List ℕ) → IsStuck k x xs → IsStuck (sched_round k) x xs
sched_round-IsStuck k x xs s =
    let (envs, list, _) = sched_round-parts k in
    record {
      queue = subst (λ l. IsQueue l (x ∷ xs)) (sym list) s.queue;
      iter_in = sched_round-iter k x xs s.queue s.iter_in;
      dead = λ q h. subst (λ f. (f q).env_status ≢ env_runnable) (sym envs) (s.dead q h);
    }

not-is_ready :
    (k : Kernel) (o : Option ℕ) (x : ℕ) (xs : List ℕ)
    → ((q : ℕ) → has q (x ∷ xs) ≡ true → (k.envs q).env_status ≢ env_runnable)
    → InList o (x ∷ xs)
    → is_ready k o ≡ false
not-is_ready k none x xs dead i = refl
not-is_ready k (some e) x xs dead i = ground (arith, dead e i)

sched_loop-IsStuck :
    (fuel : ℕ) (k : Kernel) (x : ℕ) (xs : List ℕ)
    → IsStuck k x xs
    → sched_loop fuel k ≡ halt out_of_fuel
unfolding sched_loop
sched_loop-IsStuck zero k x xs s = refl
sched_loop-IsStuck (suc fuel) k x xs s =
    let t = sched_round-IsStuck k x xs s in
    ground (
      arith,
      s.queue.0,
      not-is_ready (sched_round k) (sched_round k).iter x xs t.dead t.iter_in,
      sched_loop-IsStuck fuel (sched_round k) x xs t,
    )

-- If the list is not empty, no environment on it is runnable, and `iter` is NULL or on it, the
-- loop of `sched_yield` never ends: no amount of fuel is enough.
pub sched_yield_spins :
    (fuel : ℕ) (k : Kernel) (x : ℕ) (xs : List ℕ)
    → IsQueue k.env_sched_list (x ∷ xs)
    → InList k.iter (x ∷ xs)
    → ((q : ℕ) → has q (x ∷ xs) ≡ true → (k.envs q).env_status ≢ env_runnable)
    → sched_yield fuel k ≡ halt out_of_fuel
unfolding sched_yield
sched_yield_spins fuel k x xs q i dead =
    sched_loop-IsStuck fuel k x xs (record { queue = q; iter_in = i; dead = dead })
