-- ===== src/Ipc.antt =====
-- lib/svc.c: messages between environments.
pub mod Deliver
pub mod Page
use jos_buaa_a20_porting.Prelude.{
  ℕ, bit_or, Bool, true, false, Option, none, some, ◌==◌, leb, if◌then◌else◌, Cmd, pure, gets,
  ◌>>=◌, ◌>>◌,
}
use jos_buaa_a20_porting.Mmu.{utop, pte_v, pte_r, pg_addr_offset}
use jos_buaa_a20_porting.Queue.{update}
use jos_buaa_a20_porting.Mm.{Mm, Error, Ret, good, bad, inval, ipc_not_recv, kva_of_page}
use jos_buaa_a20_porting.Paging.{store, page_lookup, page_insert}
use jos_buaa_a20_porting.Kernel.{
  Kernel, Env, Trapframe, env_runnable, env_not_runnable, in_mm, in_mm_of, modify_env,
}
use jos_buaa_a20_porting.Envs.{envid2env}
use jos_buaa_a20_porting.Svc.{current, sys_yield, my_set_env_status}

-- the assignments of `sys_ipc_recv` to `*curenv`
abbrev pub receiving : (dstva whom perm : ℕ) → Env → Env
receiving dstva whom perm e = record e {
  env_ipc_recving = 1;
  env_ipc_dstva = dstva;
  env_ipc_arg_whom = whom;
  env_ipc_arg_perm = perm;
}

-- `sys_ipc_recv`; with a bad `dstva` it returns no value at all
unfoldable pub sys_ipc_recv : (fuel dstva whom perm : ℕ) → Cmd Kernel (Unit {0})
unfolding current my_set_env_status sys_yield
sys_ipc_recv fuel dstva whom perm = if leb utop dstva then pure tt else do
  c ← current
  modify_env c (receiving dstva whom perm)
  my_set_env_status fuel c env_not_runnable
  sys_yield fuel

-- the write of `v` through the receiver's pointer `p`, where it is given and mapped
unfoldable pub write_user : (pgdir p v : ℕ) → Cmd Mm (Unit {0})
unfolding page_lookup kva_of_page store
write_user pgdir p v = if p == 0 then pure tt else do
  found ← page_lookup pgdir p
  elim found [
    | none ↦ pure tt
    | some (pp, _) ↦ (do kva ← kva_of_page pp; store (bit_or kva (pg_addr_offset p)) v)
  ]

-- the assignments of `sys_ipc_can_send` to `*e`
abbrev pub delivered : (value from perm : ℕ) → Env → Env
delivered value from perm e = record e {
  env_ipc_perm = bit_or (bit_or perm pte_v) pte_r;
  env_ipc_recving = 0;
  env_ipc_value = value;
  env_ipc_from = from;
  env_tf = record e.env_tf { regs = update e.env_tf.regs 0 value };
}

-- the page of a message: mapped from `srcva` of the sender to `env_ipc_dstva` of the receiver
-- `e`. `none` lets the call go on; `some r` is the result that it returns with, and for a page
-- that is not there that is the NULL that `page_lookup` gave, 0.
unfoldable pub send_page : (e c srcva perm : ℕ) → Cmd Kernel (Option (Ret ℕ))
unfolding page_lookup page_insert
send_page e c srcva perm = if srcva == 0 then pure none else do
  src_pgdir ← gets (λ k. (k.envs c).env_pgdir)
  found ← in_mm (page_lookup src_pgdir srcva)
  elim found [
    | none ↦ pure (some (good 0))
    | some (pp, _) ↦ (do
      r ← gets (λ k. k.envs e)
      i ← in_mm_of (λ cur. page_insert cur r.env_pgdir pp r.env_ipc_dstva perm)
      elim i [ bad _ ↦ pure (some (bad inval)) | good _ ↦ pure none ])
  ]

-- the last statements of `sys_ipc_can_send`, with the fields `r` of the receiver
unfoldable pub wake_receiver : (fuel e : ℕ) → Env → Cmd Kernel (Ret ℕ)
unfolding write_user my_set_env_status
wake_receiver fuel e r = do
  in_mm (write_user r.env_pgdir r.env_ipc_arg_whom r.env_ipc_from)
  in_mm (write_user r.env_pgdir r.env_ipc_arg_perm r.env_ipc_perm)
  my_set_env_status fuel e env_runnable
  pure (good 0)

-- the end of `sys_ipc_can_send`: the message is written to the receiver, and it is woken
unfoldable pub deliver : (fuel e c value perm : ℕ) → Cmd Kernel (Ret ℕ)
unfolding wake_receiver
deliver fuel e c value perm = do
  from ← gets (λ k. (k.envs c).env_id)
  modify_env e (delivered value from perm)
  r ← gets (λ k. k.envs e)
  wake_receiver fuel e r

-- `sys_ipc_can_send`
unfoldable pub sys_ipc_can_send : (fuel envid value srcva perm : ℕ) → Cmd Kernel (Ret ℕ)
unfolding envid2env current send_page deliver
sys_ipc_can_send fuel envid value srcva perm = if leb utop srcva then pure (bad inval) else (do
  r ← envid2env envid false
  elim r [
    | bad _ ↦ pure (bad inval)
    | good e ↦ (do
      recving ← gets (λ k. (k.envs e).env_ipc_recving)
      if recving == 0 then pure (bad ipc_not_recv) else (do
        c ← current
        sent ← send_page e c srcva perm
        elim sent [ some result ↦ pure result | none ↦ deliver fuel e c value perm ]))
  ])
