-- ===== src/Sched/Yield.antt =====
-- `sched_yield` where every environment on the list is runnable: round robin, with the slices that
-- the priorities give.
use jos_buaa_a20_porting.Prelude.{
  ℕ, zero, suc, ◌+◌, ◌-◌, ◌%◌, ◌^◌, ◌<◌, ◌≡◌, ◌≢◌, refl, ap, sym, ◌∙◌, true, false, some, List, ◌∷◌,
  arith, left,
}
use jos_buaa_a20_porting.Mmu.{word}
use jos_buaa_a20_porting.Queue.Chain.{has, IsQueue}
use jos_buaa_a20_porting.Kernel.{Kernel, env_runnable}
use jos_buaa_a20_porting.Envs.{save_current, env_run}
use jos_buaa_a20_porting.Sched.{is_le_zero, advance, sched_round, is_ready, sched_yield}
use jos_buaa_a20_porting.Sched.Turn.{turn, advance-turn, Follows, advance-Follows, some-injective}
use jos_buaa_a20_porting.Sched.Spin.{InList, advance-has, sched_round-parts}

-- the state in which `env_run` leaves for the environment `e`
abbrev pub switched : Kernel → ℕ → Kernel
switched k e = record (save_current k) {
  curenv = some e;
  m_context = ((save_current k).envs e).env_pgdir;
}

env_run-eq : (k : Kernel) (e : ℕ) → env_run {A = Unit {0}} e k ≡ left (switched k e)
unfolding env_run
env_run-eq k e = refl

-- A slice that is not used up goes on: with `ts` positive and `iter` runnable, `sched_yield` runs
-- `iter` again and takes one tick off. One round of the loop is enough.
pub sched_yield-slice :
    (fuel : ℕ) (k : Kernel) (x e : ℕ) (xs : List ℕ)
    → IsQueue k.env_sched_list (x ∷ xs)
    → k.iter ≡ some e
    → (k.envs e).env_status ≡ env_runnable
    → 0 < k.ts
    → k.ts < 2 ^ 31
    → (k' : Kernel) × (sched_yield (suc fuel) k ≡ left k')
      × (k'.curenv ≡ some e)
      × (k'.iter ≡ some e)
      × (k'.ts ≡ k.ts - 1)
unfolding sched_yield sched_round
sched_yield-slice fuel k x e xs q at ready pos small = (
  switched (record k { ts = (k.ts + word - 1) % word }) e,
  ground (arith, q.0, env_run-eq (sched_round k) e),
  refl,
  ground arith,
  ground arith,
)

-- A used slice, or none yet: with `ts` at most 0, `iter` NULL or on the list, and every environment on
-- a list that is not empty runnable, `sched_yield` runs the environment behind `iter` on the list,
-- or the first one where `iter` is NULL or the last; it has its priority less one as the ticks left.
pub sched_yield-next :
    (fuel : ℕ) (k : Kernel) (x : ℕ) (xs : List ℕ)
    → IsQueue k.env_sched_list (x ∷ xs)
    → InList k.iter (x ∷ xs)
    → ((q : ℕ) → has q (x ∷ xs) ≡ true → (k.envs q).env_status ≡ env_runnable)
    → is_le_zero k.ts ≡ true
    → (k' : Kernel) × (sched_yield (suc fuel) k ≡ left k')
      × (k'.curenv ≡ some (turn k.iter x xs))
      × (k'.iter ≡ some (turn k.iter x xs))
      × (k'.ts ≡ ((k.envs (turn k.iter x xs)).env_pri + word - 1) % word)
unfolding sched_yield sched_round
sched_yield-next fuel k x xs q i ready z =
    let e : ℕ = turn k.iter x xs in
    let at : advance k ≡ some e = advance-turn k x xs q i in
    let (e', at', inside) = advance-has k x xs q i in
    let same : e' ≡ e = some-injective e' e (sym at' ∙ at) in
    let up : (k.envs e).env_status ≡ env_runnable =
      ready e (ap (λ (y : ℕ). has y (x ∷ xs)) (sym same) ∙ inside) in
    (
      switched (sched_round k) e,
      ground (arith, q.0, at, up, env_run-eq (sched_round k) e),
      refl,
      ground (arith, at),
      ground (arith, at),
    )

-- a round with ticks to go only counts one off
sched_round-tick :
    (n : ℕ) (k : Kernel) → k.ts ≡ suc n → suc n < 2 ^ 31 → sched_round k ≡ record k { ts = n }
unfolding sched_round
sched_round-tick n k ticks small = ground arith

-- The environment of `iter` is not runnable, on the list or not, with ticks to go: they run down, one
-- to a round, and then the environment that the link of `iter` leads to is run, or the first one where
-- that is NULL, if it is runnable. As many rounds as ticks, and one more, are enough.
pub sched_yield-drain :
    (n fuel : ℕ) (k : Kernel) (x e c : ℕ) (xs : List ℕ)
    → IsQueue k.env_sched_list (x ∷ xs)
    → k.iter ≡ some c
    → (k.envs c).env_status ≢ env_runnable
    → Follows k.env_sched_list c x e
    → (k.envs e).env_status ≡ env_runnable
    → k.ts ≡ n
    → n < 2 ^ 31
    → n < fuel
    → (k' : Kernel) × (sched_yield fuel k ≡ left k') × (k'.curenv ≡ some e)
unfolding sched_yield
sched_yield-drain n zero k x e c xs q at out next ready ticks small enough = absurd (omega arith)
sched_yield-drain zero (suc fuel) k x e c xs q at out next ready ticks small enough =
    let (same, _, moved) = sched_round-parts k in
    let step : advance k ≡ some e = advance-Follows k x e c xs q at next in
    let here : (sched_round k).iter ≡ some e = ground (arith, moved, step) in
    let up : is_ready (sched_round k) (some e) ≡ true = ground (arith, same) in
    (switched (sched_round k) e, ground (arith, q.0, env_run-eq (sched_round k) e), refl)
sched_yield-drain (suc n) (suc fuel) k x e c xs q at out next ready ticks small enough =
    let k1 : Kernel = record k { ts = n } in
    let (k', run, cur) =
      sched_yield-drain n fuel k1 x e c xs q at out next ready refl (omega arith) (omega arith) in
    let idle : is_ready k1 (some c) ≡ false = ground arith in
    (k', ground (arith, sched_round-tick n k ticks small, q.0), cur)
