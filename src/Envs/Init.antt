-- ===== src/Envs/Init.antt =====
-- `env_init` of lib/env.c: the free list starts with every environment, in the order of `envs`.
use jos_buaa_a20_porting.Prelude.{
  ℕ, zero, suc, ◌+◌, ◌≤◌, ◌<◌, ◌≡◌, refl, false, List, [], ◌∷◌, arith, ◌==◌, done, if◌then◌else◌,
}
use mathlib.Core.Path.{subst}
use jos_buaa_a20_porting.Queue
use jos_buaa_a20_porting.Queue.Chain.{has, IsQueue}
use jos_buaa_a20_porting.Queue.Insert.{insert_head-IsQueue}
use jos_buaa_a20_porting.Kernel.{Kernel, env_free}
use jos_buaa_a20_porting.Envs.{init_round, init_loop, env_init}

-- the numbers i, i + 1, …, n of them
abbrev pub range_from : ℕ → ℕ → List ℕ
range_from i zero = []
range_from i (suc n) = i ∷ range_from (suc i) n

not-has-range_from : (q i n : ℕ) → q < i → has q (range_from i n) ≡ false
not-has-range_from q i zero h = refl
not-has-range_from q i (suc n) h = ground (arith, not-has-range_from q (suc i) n)

init_round-IsQueue :
    (i n : ℕ) (k : Kernel)
    → IsQueue k.env_free_list (range_from (suc i) n)
    → IsQueue (init_round i k).env_free_list (range_from i (suc n))
unfolding init_round
init_round-IsQueue i n k q =
    insert_head-IsQueue k.env_free_list i (range_from (suc i) n) q
      (not-has-range_from i (suc i) n (omega arith))

init_loop-IsQueue :
    (i n : ℕ) (k : Kernel)
    → IsQueue k.env_free_list (range_from i n)
    → IsQueue (init_loop i k).env_free_list (range_from 0 (i + n))
unfolding init_loop
init_loop-IsQueue zero n k q =
    let e : n ≡ zero + n = omega arith in subst (λ m. IsQueue k.env_free_list (range_from 0 m)) e q
init_loop-IsQueue (suc i) n k q =
    let e : i + suc n ≡ suc i + n = omega arith in
    subst (λ m. IsQueue (init_loop i (init_round i k)).env_free_list (range_from 0 m)) e
      (init_loop-IsQueue i (suc n) (init_round i k) (init_round-IsQueue i n k q))

-- what a round leaves of the environment at `q`
init_round-env :
    (i q : ℕ) (k : Kernel)
    → (((init_round i k).envs q).env_status ≡ (if q == i then env_free else (k.envs q).env_status))
      × (((init_round i k).envs q).env_id ≡ (if q == i then 0 else (k.envs q).env_id))
unfolding init_round
init_round-env i q k = (ground arith, ground arith)

init_loop-above :
    (i q : ℕ) (k : Kernel)
    → i ≤ q
    → (((init_loop i k).envs q).env_status ≡ (k.envs q).env_status)
      × (((init_loop i k).envs q).env_id ≡ (k.envs q).env_id)
unfolding init_loop
init_loop-above zero q k h = (refl, refl)
init_loop-above (suc i) q k h =
    ground (arith, init_loop-above i q (init_round i k), init_round-env i q k)

init_loop-below :
    (i q : ℕ) (k : Kernel)
    → q < i
    → (((init_loop i k).envs q).env_status ≡ env_free) × (((init_loop i k).envs q).env_id ≡ 0)
unfolding init_loop
init_loop-below zero q k h = absurd (omega arith)
init_loop-below (suc i) q k h = ground (
  arith,
  init_loop-below i q (init_round i k),
  init_loop-above i q (init_round i k),
  init_round-env i q k,
)

-- the loop over all indices below `n`, from an empty list
init_loop-all :
    (n : ℕ) (k : Kernel)
    → IsQueue k.env_free_list []
    → (k' : Kernel) × (done tt (init_loop n k) ≡ done tt k')
      × IsQueue k'.env_free_list (range_from 0 n)
      × ((q : ℕ) → q < n → ((k'.envs q).env_status ≡ env_free) × ((k'.envs q).env_id ≡ 0))
init_loop-all n k q = (
  init_loop n k,
  refl,
  subst (λ m. IsQueue (init_loop n k).env_free_list (range_from 0 m)) (omega arith)
      (init_loop-IsQueue n 0 k q),
  λ q h. init_loop-below n q k h,
)

-- `env_init` leaves a free list of all 1024 environments, lowest index first, each of them free
-- and with identifier 0.
pub env_init-IsQueue :
    (k : Kernel)
    → (k' : Kernel) × (env_init k ≡ done tt k')
      × IsQueue k'.env_free_list (range_from 0 1024)
      × ((q : ℕ) → q < 1024 → ((k'.envs q).env_status ≡ env_free) × ((k'.envs q).env_id ≡ 0))
unfolding env_init
env_init-IsQueue k =
    init_loop-all 1024 (record k { env_free_list = Queue.init k.env_free_list }) refl
