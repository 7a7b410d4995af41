-- ===== src/Svc.antt =====
-- lib/svc.c: the system calls on environments. What a call returns is its `int` result; `fuel` is
-- for the loop of the scheduler.
pub mod Status
pub mod Fork
use jos_buaa_a20_porting.Prelude.{
  ℕ, zero, suc, ◌+◌, ◌-◌, ◌*◌, ◌^◌, bit_and, bit_or, Bool, true, false, not, ◌&&◌, ◌||◌, Option,
  none, some, ◌==◌, leb, if◌then◌else◌, Cmd, pure, stop, modify, gets, done, bad_pointer, ◌>>=◌,
  ◌>>◌,
}
use jos_buaa_a20_porting.Mmu.{
  by2pg, ulim, pte_v, pte_r, pdx, ptx, pte_addr, pg_addr_base, pg_addr_offset,
}
use jos_buaa_a20_porting.Queue.{update, insert_head}
use jos_buaa_a20_porting.Mm.{Mm, Error, Ret, good, bad, inval, kva_of_page, page_alloc}
use jos_buaa_a20_porting.Paging.{Running, load, kaddr_of, page_of, is_table, page_insert}
use jos_buaa_a20_porting.Kernel.{
  Kernel, Env, Trapframe, env_free, env_runnable, env_not_runnable, in_mm, in_mm_of, modify_env,
  unlink_sched,
}
use jos_buaa_a20_porting.Envs.{bcopy, envid2env, env_alloc}
use jos_buaa_a20_porting.Sched.{sched_yield}
use jos_buaa_a20_porting.Teardown.{env_destroy}

-- the environment behind `curenv`, which a call reads through the pointer
unfoldable pub current : Cmd Kernel ℕ
current k = elim k.curenv [ none ↦ stop bad_pointer k | some c ↦ done c k ]

-- `sys_getenvid`
unfoldable pub sys_getenvid : Cmd Kernel ℕ
unfolding current
sys_getenvid = do c ← current; gets (λ k. (k.envs c).env_id)

-- `sys_yield`
unfoldable pub sys_yield : ℕ → Cmd Kernel (Unit {0})
unfolding sched_yield
sys_yield fuel = sched_yield fuel

-- `sys_env_destroy`
unfoldable pub sys_env_destroy : (fuel envid : ℕ) → Cmd Kernel (Ret ℕ)
unfolding envid2env env_destroy
sys_env_destroy fuel envid = do
  r ← envid2env envid true
  elim r [ bad e ↦ pure (bad e) | good e ↦ (do env_destroy fuel e; pure (good 0)) ]

-- `my_set_env_status`
unfoldable pub my_set_env_status : (fuel e status : ℕ) → Cmd Kernel (Unit {0})
unfolding unlink_sched sys_env_destroy
my_set_env_status fuel e status = do
  r ← gets (λ k. k.envs e)
  if r.env_status == status then pure tt else do
    modify_env e (λ r. record r { env_status = status })
    if status == env_runnable
        then modify (λ k. record k { env_sched_list = insert_head k.env_sched_list e })
        else if status == env_not_runnable
        then unlink_sched e
        else if status == env_free
        then (do sys_env_destroy fuel r.env_id; pure tt)
        else pure tt

abbrev pub is_status : ℕ → Bool
is_status s = s == env_runnable || (s == env_not_runnable || s == env_free)

-- `sys_set_env_status`
unfoldable pub sys_set_env_status : (fuel envid status : ℕ) → Cmd Kernel (Ret ℕ)
unfolding envid2env my_set_env_status
sys_set_env_status fuel envid status = if not (is_status status) then pure (bad inval) else do
  r ← envid2env envid true
  elim r [ bad e ↦ pure (bad e) | good e ↦ (do my_set_env_status fuel e status; pure (good 0)) ]

-- `sys_set_trapframe`
unfoldable pub sys_set_trapframe : ℕ → Trapframe → Cmd Kernel (Ret ℕ)
unfolding envid2env
sys_set_trapframe envid tf = do
  r ← envid2env envid true
  elim r [
    | bad e ↦ pure (bad e)
    | good e ↦ (do modify_env e (λ r. record r { env_tf = tf }); pure (good 0))
  ]

module _ (curenv : Option Running) (dst_pgdir : ℕ) where
  -- The inner statements of the loops of `sys_env_alloc` for one valid entry of the parent. The
  -- permissions that it tests are `PG_ADDR_OFFSET(va)`, as the code has it.
  unfoldable pub copy_entry : (va entry : ℕ) → Cmd Mm (Ret (Unit {0}))
  unfolding page_of kva_of_page bcopy page_insert
  copy_entry va entry = do
    p ← page_of (pg_addr_base entry)
    if pg_addr_offset va == bit_or pte_v pte_r
        then (do
          r ← page_alloc
          elim r [
            | bad e ↦ pure (bad e)
            | good np ↦ (do
              src ← kva_of_page p
              dst ← kva_of_page np
              bcopy src dst by2pg
              page_insert curenv dst_pgdir np va (pg_addr_offset entry))
          ])
        else page_insert curenv dst_pgdir p va (pg_addr_offset entry)

  -- the loop over one page table of the parent, `n` entries from `pteno` on
  unfoldable pub copy_table : (pdeno table n pteno : ℕ) → Cmd Mm (Ret (Unit {0}))
  unfolding load copy_entry
  copy_table pdeno table zero pteno = pure (good tt)
  copy_table pdeno table (suc n) pteno = do
    entry ← load (table + 4 * ptx (pteno * by2pg))
    if not (bit_and entry pte_v == pte_v) then copy_table pdeno table n (pteno + 1) else (do
      r ← copy_entry (bit_or (pdeno * 2 ^ 20) (pteno * by2pg)) entry
      elim r [ bad e ↦ pure (bad e) | good _ ↦ copy_table pdeno table n (pteno + 1) ])

  -- the loop over the directory of the parent
  unfoldable pub copy_tables : (src_pgdir n pdeno : ℕ) → Cmd Mm (Ret (Unit {0}))
  unfolding load kaddr_of copy_table
  copy_tables src_pgdir zero pdeno = pure (good tt)
  copy_tables src_pgdir (suc n) pdeno = do
    pde ← load (src_pgdir + 4 * pdeno)
    if not (is_table pde) then copy_tables src_pgdir n (pdeno + 1) else (do
      table ← kaddr_of (pte_addr pde)
      r ← copy_table pdeno table 256 0
      elim r [ bad e ↦ pure (bad e) | good _ ↦ copy_tables src_pgdir n (pdeno + 1) ])

-- `sys_env_alloc`
unfoldable pub sys_env_alloc : (cpsr : ℕ) → Cmd Kernel (Ret ℕ)
unfolding current env_alloc copy_tables
sys_env_alloc cpsr = do
  c ← current
  parent ← gets (λ k. k.envs c)
  r ← env_alloc cpsr parent.env_id
  elim r [
    | bad e ↦ pure (bad e)
    | good e ↦ (do
      src ← gets (λ k. (k.envs c).env_pgdir)
      dst ← gets (λ k. (k.envs e).env_pgdir)
      copied ← in_mm_of (λ cur. copy_tables cur dst src (pdx ulim) 0)
      elim copied [
        | bad e ↦ pure (bad e)
        | good _ ↦ (do
          tf ← gets (λ k. k.exc_tf)
          modify_env e (λ r. record r {
            env_tf = record tf { regs = update tf.regs 0 0 };
            env_status = env_not_runnable;
          })
          id ← gets (λ k. (k.envs e).env_id)
          pure (good id))
      ])
  ]
