-- ===== src/Teardown/Empty.antt =====
-- `env_free` of lib/env.c for an environment with no user mapping, as `env_alloc` makes it.
use jos_buaa_a20_porting.Prelude.{
  ℕ, zero, suc, ◌+◌, ◌*◌, ◌≤◌, ◌<◌, ◌≡◌, ◌≢◌, refl, ◌∙◌, true, false, Option, none, some, List, ◌∷◌,
  arith, ◌==◌, if◌then◌else◌, done, halt, bad_pointer, bit_and,
}
use mathlib.Core.Path.{subst}
use jos_buaa_a20_porting.Mmu.{utop, pte_v, pdx, pa2page}
use jos_buaa_a20_porting.Queue.{Links, null, insert_head, remove}
use jos_buaa_a20_porting.Queue.Chain.{has, erase, IsQueue}
use jos_buaa_a20_porting.Queue.Insert.{insert_head-IsQueue}
use jos_buaa_a20_porting.Queue.Remove.{removed, remove-eq-removed, removed-IsQueue}
use jos_buaa_a20_porting.Mm.{Mm, page_decref}
use jos_buaa_a20_porting.Mm.Alloc.{IsFreeList}
use jos_buaa_a20_porting.Paging.{Running, page_of}
use jos_buaa_a20_porting.Paging.Remove.{released, drop_ref-eq, released-IsFreeList}
use jos_buaa_a20_porting.Kernel.{Kernel, Env, running, env_free, set_env, unlink_sched}
use jos_buaa_a20_porting.Teardown.{free_tables, env_free_of}

-- no directory entry of the user's part is valid
abbrev pub IsBare : Mm → ℕ → Type 0
IsBare s pgdir = (i : ℕ) → i < pdx utop → bit_and (s.mem (pgdir + 4 * i)) pte_v ≡ 0

free_tables_bare :
    (curenv : Option Running) (pgdir n p : ℕ) (s : Mm)
    → ((i : ℕ) → p ≤ i → i < p + n → bit_and (s.mem (pgdir + 4 * i)) pte_v ≡ 0)
    → free_tables curenv pgdir n p s ≡ done tt s
unfolding free_tables
free_tables_bare curenv pgdir zero p s bare = refl
free_tables_bare curenv pgdir (suc n) p s bare = ground (
  arith,
  bare p (omega arith) (omega arith),
  free_tables_bare curenv pgdir n (p + 1) s (λ i lo hi. bare i (omega arith) (omega arith)),
)

page_of-eq : (s : Mm) (pa p : ℕ) → pa2page s.npage pa ≡ some p → page_of pa s ≡ done p s
unfolding page_of
page_of-eq s pa p at = ground arith

page_decref-eq : (s : Mm) (p : ℕ) → page_decref (some p) s ≡ done tt (released s p)
unfolding page_decref
page_decref-eq s p = drop_ref-eq s p

abbrev pub without_directory : Env → Env
without_directory r = record r { env_pgdir = 0; env_ttb = 0 }

abbrev pub marked_free : Env → Env
marked_free r = record r { env_status = env_free }

-- the state before the last statement of `env_free`
abbrev pub given_back : Kernel → (e p : ℕ) → Kernel
given_back k e p =
    let k1 : Kernel = record (set_env e without_directory k) { mm = released k.mm p } in
    record (set_env e marked_free k1) { env_free_list = insert_head k.env_free_list e }

env_free_of-eq :
    (k : Kernel) (e p : ℕ)
    → IsBare k.mm (k.envs e).env_pgdir
    → pa2page k.mm.npage (k.envs e).env_ttb ≡ some p
    → env_free_of e k ≡ unlink_sched e (given_back k e p)
unfolding env_free_of
env_free_of-eq k e p bare at =
    let walk : free_tables (running k) (k.envs e).env_pgdir (pdx utop) 0 k.mm ≡ done tt k.mm =
      free_tables_bare (running k) (k.envs e).env_pgdir (pdx utop) 0 k.mm
        (λ i lo hi. bare i (ground (arith, hi))) in
    let found : page_of (k.envs e).env_ttb k.mm ≡ done p k.mm =
      page_of-eq k.mm (k.envs e).env_ttb p at in
    let drop : page_decref (some p) k.mm ≡ done tt (released k.mm p) = page_decref-eq k.mm p in
    rw walk (rw found (rw drop refl))

unlink_sched-some :
    (k : Kernel) (e : ℕ) (l : Links)
    → remove k.env_sched_list e ≡ some l
    → unlink_sched e k ≡ done tt (record k { env_sched_list = l })
unfolding unlink_sched
unlink_sched-some k e l h = ground arith

unlink_sched-null :
    (k : Kernel) (e : ℕ)
    → k.env_sched_list.next e ≡ none
    → k.env_sched_list.prev e ≡ null
    → unlink_sched e k ≡ halt bad_pointer
unfolding unlink_sched remove
unlink_sched-null k e next prev = ground arith

given_back-parts :
    (k : Kernel) (e p : ℕ)
    → ((given_back k e p).env_sched_list ≡ k.env_sched_list)
      × (((given_back k e p).envs e).env_status ≡ env_free)
      × ((q : ℕ) → q ≢ e → (given_back k e p).envs q ≡ k.envs q)
given_back-parts k e p = (refl, ground arith, λ q ne. ground arith)

-- `env_free` of an environment on the list of the scheduler, with no user mapping and a directory
-- that only it refers to: the directory's page comes to the front of the free pages, the
-- environment is free and at the front of the free environments, it has left the list of the
-- scheduler, and no other environment changes.
pub env_free_of-bare :
    (k : Kernel) (e p : ℕ) (pages es xs : List ℕ)
    → IsBare k.mm (k.envs e).env_pgdir
    → pa2page k.mm.npage (k.envs e).env_ttb ≡ some p
    → IsFreeList k.mm pages
    → p < k.mm.npage
    → k.mm.pp_ref p ≡ 1
    → IsQueue k.env_free_list es
    → has e es ≡ false
    → IsQueue k.env_sched_list xs
    → has e xs ≡ true
    → (k' : Kernel) × (env_free_of e k ≡ done tt k')
      × IsFreeList k'.mm (p ∷ pages)
      × IsQueue k'.env_free_list (e ∷ es)
      × IsQueue k'.env_sched_list (erase e xs)
      × ((k'.envs e).env_status ≡ env_free)
      × ((q : ℕ) → q ≢ e → k'.envs q ≡ k.envs q)
env_free_of-bare k e p pages es xs bare at v inside one fq out sq on =
    let (_, status, others) = given_back-parts k e p in
    let list : IsFreeList (released k.mm p) (if k.mm.pp_ref p == 1 then p ∷ pages else pages) =
      released-IsFreeList k.mm p pages v inside (omega arith) (omega arith) in
    let same : (if k.mm.pp_ref p == 1 then p ∷ pages else pages) ≡ p ∷ pages = ground arith in
    (
      record (given_back k e p) { env_sched_list = removed k.env_sched_list e },
      env_free_of-eq k e p bare at
          ∙ unlink_sched-some (given_back k e p) e (removed k.env_sched_list e)
              (remove-eq-removed k.env_sched_list xs e sq on),
      subst (IsFreeList (released k.mm p)) same list,
      insert_head-IsQueue k.env_free_list e es fq out,
      removed-IsQueue k.env_sched_list xs e sq on,
      status,
      others,
    )

-- `env_free` of an environment that was never on that list writes through the NULL of its
-- `le_prev` when it unlinks it, behind all the rest.
pub env_free_of-never_scheduled :
    (k : Kernel) (e p : ℕ)
    → IsBare k.mm (k.envs e).env_pgdir
    → pa2page k.mm.npage (k.envs e).env_ttb ≡ some p
    → k.env_sched_list.next e ≡ none
    → k.env_sched_list.prev e ≡ null
    → env_free_of e k ≡ halt bad_pointer
env_free_of-never_scheduled k e p bare at next prev =
    env_free_of-eq k e p bare at ∙ unlink_sched-null (given_back k e p) e next prev
