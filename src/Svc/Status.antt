-- ===== src/Svc/Status.antt =====
-- `my_set_env_status` of lib/svc.c: the status of an environment and the list of the scheduler.
use jos_buaa_a20_porting.Prelude.{
  ℕ, ◌≡◌, ◌≢◌, refl, sym, ◌∙◌, ◌⊎◌, List, ◌∷◌, arith, ◌==◌, Bool-cases, done, inl, inr,
  if◌then◌else◌,
}
use mathlib.Core.Path.{subst}
use jos_buaa_a20_porting.Queue.{insert_head}
use jos_buaa_a20_porting.Queue.Chain.{has, erase, IsQueue}
use jos_buaa_a20_porting.Queue.Insert.{insert_head-IsQueue}
use jos_buaa_a20_porting.Queue.Remove.{
  removed, remove-eq-removed, removed-IsQueue, has-erase_self, has-erase_ne,
}
use jos_buaa_a20_porting.Kernel.{
  Kernel, Env, env_free, env_runnable, env_not_runnable, envx, set_env,
}
use jos_buaa_a20_porting.Envs.{check_env}
use jos_buaa_a20_porting.Svc.{my_set_env_status}

-- The list of the scheduler holds the environments that are runnable, once each.
pub record IsSched (k : Kernel) (xs : List ℕ) : Type 0 where
  pub queue : IsQueue k.env_sched_list xs
  pub members : (q : ℕ) → has q xs ≡ ((k.envs q).env_status == env_runnable)

abbrev pub with_status : ℕ → Env → Env
with_status status r = record r { env_status = status }

-- the state after `my_set_env_status` wakes `e`
abbrev pub woken : Kernel → ℕ → Kernel
woken k e = record (set_env e (with_status env_runnable) k) {
  env_sched_list = insert_head k.env_sched_list e;
}

-- the state after it puts `e` to sleep
abbrev pub put_to_sleep : Kernel → ℕ → Kernel
put_to_sleep k e = record (set_env e (with_status env_not_runnable) k) {
  env_sched_list = removed k.env_sched_list e;
}

module _ (fuel : ℕ) (k : Kernel) (e : ℕ) (xs : List ℕ) (v : IsSched k xs) where
  pub wake-eq :
      (k.envs e).env_status ≢ env_runnable
      → my_set_env_status fuel e env_runnable k ≡ done tt (woken k e)
  unfolding my_set_env_status
  wake-eq idle = ground arith

  pub wake-IsSched : (k.envs e).env_status ≢ env_runnable → IsSched (woken k e) (e ∷ xs)
  wake-IsSched idle = record {
    queue = insert_head-IsQueue k.env_sched_list e xs v.queue (ground (arith, v.members e));
    members = λ q. ground (arith, v.members q);
  }

  pub sleep-eq :
      (k.envs e).env_status ≡ env_runnable
      → my_set_env_status fuel e env_not_runnable k ≡ done tt (put_to_sleep k e)
  unfolding my_set_env_status
  sleep-eq up =
      ground (arith, remove-eq-removed k.env_sched_list xs e v.queue (ground (arith, v.members e)))

  pub sleep-IsSched : (k.envs e).env_status ≡ env_runnable → IsSched (put_to_sleep k e) (erase e xs)
  sleep-IsSched up = record {
    queue = removed-IsQueue k.env_sched_list xs e v.queue (ground (arith, v.members e));
    members = λ q. elim (Bool-cases (q == e)) [
      | inl same ↦ ground (arith, has-erase_self q k.env_sched_list xs v.queue)
      | inr other ↦ ground (arith, v.members q, has-erase_ne q e xs)
    ];
  }

-- an environment that is in use is runnable or not runnable
abbrev pub IsUsed : Env → Type 0
IsUsed r = (r.env_status ≡ env_runnable) ⊎ (r.env_status ≡ env_not_runnable)

-- the list of the scheduler once `e` has the given status
abbrev pub relisted : Kernel → ℕ → ℕ → List ℕ → List ℕ
relisted k e status xs =
    if (k.envs e).env_status == status
    then xs
    else if status == env_runnable
    then e ∷ xs
    else erase e xs

pub record Restatused (k k' : Kernel) (e status : ℕ) (xs : List ℕ) : Type 0 where
  pub status_set : (k'.envs e).env_status ≡ status
  pub others : (q : ℕ) → q ≢ e → k'.envs q ≡ k.envs q
  pub sched : IsSched k' (relisted k e status xs)

same_status-eq :
    (fuel : ℕ) (k : Kernel) (e status : ℕ)
    → (k.envs e).env_status ≡ status
    → my_set_env_status fuel e status k ≡ done tt k
unfolding my_set_env_status
same_status-eq fuel k e status h = ground arith

-- `my_set_env_status` between runnable and not runnable keeps the list of the scheduler equal to
-- the environments that are runnable: an environment that is woken comes to its front, one that
-- is put to sleep leaves it, and nothing changes where the status is there already.
pub my_set_env_status-IsSched :
    (fuel : ℕ) (k : Kernel) (e status : ℕ) (xs : List ℕ)
    → IsSched k xs
    → IsUsed (k.envs e)
    → (status ≡ env_runnable) ⊎ (status ≡ env_not_runnable)
    → (k' : Kernel) × (my_set_env_status fuel e status k ≡ done tt k') × Restatused k k' e status xs
my_set_env_status-IsSched fuel k e status xs v (inl up) (inl u) = (
  k,
  same_status-eq fuel k e status (up ∙ sym u),
  record {
    status_set = up ∙ sym u;
    others = λ q ne. refl;
    sched = subst (IsSched k) (ground arith) v;
  },
)
my_set_env_status-IsSched fuel k e status xs v (inr down) (inr u) = (
  k,
  same_status-eq fuel k e status (down ∙ sym u),
  record {
    status_set = down ∙ sym u;
    others = λ q ne. refl;
    sched = subst (IsSched k) (ground arith) v;
  },
)
my_set_env_status-IsSched fuel k e status xs v (inr down) (inl u) = (
  woken k e,
  rw u (wake-eq fuel k e xs v (omega arith)),
  record {
    status_set = ground arith;
    others = λ q ne. ground arith;
    sched = subst (IsSched (woken k e)) (ground arith) (wake-IsSched fuel k e xs v (omega arith));
  },
)
my_set_env_status-IsSched fuel k e status xs v (inl up) (inr u) = (
  put_to_sleep k e,
  rw u (sleep-eq fuel k e xs v up),
  record {
    status_set = ground arith;
    others = λ q ne. ground arith;
    sched = subst (IsSched (put_to_sleep k e)) (ground arith) (sleep-IsSched fuel k e xs v up);
  },
)

-- `my_set_env_status` with `ENV_FREE` marks the environment free and does nothing else: the
-- identifier is refused once the status is `ENV_FREE`, so `sys_env_destroy` releases no page,
-- and the environment comes to no free list and stays on the scheduler's.
pub my_set_env_status-free :
    (fuel : ℕ) (k : Kernel) (e : ℕ)
    → IsUsed (k.envs e)
    → (k.envs e).env_id ≢ 0
    → envx (k.envs e).env_id ≡ e
    → my_set_env_status fuel e env_free k ≡ done tt (set_env e (with_status env_free) k)
unfolding my_set_env_status check_env
my_set_env_status-free fuel k e (inl up) ne at = ground arith
my_set_env_status-free fuel k e (inr down) ne at = ground arith
