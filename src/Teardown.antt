-- ===== src/Teardown.antt =====
-- `env_free` and `env_destroy` of lib/env.c: an environment gives back its memory.
pub mod Empty
use jos_buaa_a20_porting.Prelude.{
  ℕ, zero, suc, ◌+◌, ◌*◌, ◌^◌, bit_and, bit_or, Bool, Option, none, some, ◌==◌, if◌then◌else◌, Cmd,
  pure, modify, gets, ◌>>=◌, ◌>>◌,
}
use jos_buaa_a20_porting.Mmu.{pte_v, utop, pdx, pte_addr}
use jos_buaa_a20_porting.Queue.{insert_head}
use jos_buaa_a20_porting.Mm.{Mm, page_decref}
use jos_buaa_a20_porting.Paging.{Running, load, store, kaddr_of, page_of, page_remove}
use jos_buaa_a20_porting.Kernel.{Kernel, env_free, in_mm, in_mm_of, modify_env, unlink_sched}
use jos_buaa_a20_porting.Sched.{sched_yield}

module _ (curenv : Option Running) (pgdir : ℕ) where
  -- the loop of `env_free` over the entries of one page table, `n` of them from `pteno` on
  unfoldable pub free_entries : (pdeno pt n pteno : ℕ) → Cmd Mm (Unit {0})
  unfolding load page_remove
  free_entries pdeno pt zero pteno = pure tt
  free_entries pdeno pt (suc n) pteno = do
    entry ← load (pt + 4 * pteno)
    if bit_and entry pte_v == 0
        then pure tt
        else page_remove curenv pgdir (bit_or (pdeno * 2 ^ 20) (pteno * 2 ^ 12))
    free_entries pdeno pt n (pteno + 1)

  -- one round of its loop over the directory
  unfoldable pub free_table : ℕ → Cmd Mm (Unit {0})
  unfolding load store kaddr_of page_of page_decref free_entries
  free_table pdeno = do
    pde ← load (pgdir + 4 * pdeno)
    if bit_and pde pte_v == 0 then pure tt else do
      pt ← kaddr_of (pte_addr pde)
      free_entries pdeno pt 256 0
      store (pgdir + 4 * pdeno) 0
      pp ← page_of (pte_addr pde)
      page_decref (some pp)

  unfoldable pub free_tables : (n pdeno : ℕ) → Cmd Mm (Unit {0})
  unfolding free_table
  free_tables zero pdeno = pure tt
  free_tables (suc n) pdeno = do free_table pdeno; free_tables n (pdeno + 1)

-- `env_free`
unfoldable pub env_free_of : ℕ → Cmd Kernel (Unit {0})
unfolding free_tables page_of page_decref unlink_sched
env_free_of e = do
  r ← gets (λ k. k.envs e)
  in_mm_of (λ cur. free_tables cur r.env_pgdir (pdx utop) 0)
  modify_env e (λ r. record r { env_pgdir = 0; env_ttb = 0 })
  pp ← in_mm (page_of r.env_ttb)
  in_mm (page_decref (some pp))
  modify_env e (λ r. record r { env_status = env_free })
  modify (λ k. record k { env_free_list = insert_head k.env_free_list e })
  unlink_sched e

-- `curenv == e`
abbrev pub is_current : Option ℕ → ℕ → Bool
is_current none e = Bool.false
is_current (some c) e = c == e

-- `env_destroy`
unfoldable pub env_destroy : (fuel e : ℕ) → Cmd Kernel (Unit {0})
unfolding env_free_of sched_yield
env_destroy fuel e = do
  env_free_of e
  c ← gets (λ k. k.curenv)
  if is_current c e
      then (do modify (λ k. record k { curenv = none }); sched_yield fuel)
      else pure tt
