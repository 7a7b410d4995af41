-- ===== src/Envs.antt =====
-- lib/env.c: identifiers of environments, their allocation, and the switch to one of them.
pub mod Ids
pub mod Init
pub mod Copy
pub mod Alloc
use jos_buaa_a20_porting.Prelude.{
  ℕ, zero, suc, ◌+◌, ◌-◌, ◌*◌, ◌/◌, ◌%◌, ◌^◌, Bool, true, false, not, ◌&&◌, ◌||◌, Option, none,
  some, ◌==◌, leb, ltb, bit_and, bit_or, if◌then◌else◌, Cmd, pure, stop, leave, panic, bad_pointer,
  modify, gets, done, ◌>>=◌, ◌>>◌,
}
use jos_buaa_a20_porting.Mmu.{word, utop, ustacktop, pdx, complement, paddr}
use jos_buaa_a20_porting.Queue
use jos_buaa_a20_porting.Queue.{update, insert_head}
use jos_buaa_a20_porting.Mm.{
  Mm, Error, Ret, good, bad, bad_env, no_free_env, bzero, inc_ref, kva_of_page, page_alloc,
}
use jos_buaa_a20_porting.Kernel.{
  Kernel, Env, Trapframe, env_free, env_not_runnable, nenv, envx, in_mm, set_env, modify_env,
  unlink_free,
}

-- `mkenvid`: the new identifier of the environment at index `e`
unfoldable pub mkenvid : ℕ → Cmd Kernel ℕ
mkenvid e k =
    let next = (k.next_env_id + 1) % word in
    done (bit_or (e * 2 ^ 8) (bit_and next 0xFF)) (record k { next_env_id = next })

-- the checks of `envid2env` on the environment `e` that the identifier names
unfoldable pub check_env : ℕ → ℕ → Bool → Cmd Kernel (Ret ℕ)
check_env envid e checkperm k =
    if (k.envs e).env_status == env_free || not (envid == 0) && not ((k.envs e).env_id == envid)
    then done (bad bad_env) k
    else if not checkperm
    then done (good e) k
    else elim k.curenv [
      | none ↦ stop bad_pointer k
      | some c ↦
          if not (e == c) && not ((k.envs e).env_parent_id == (k.envs c).env_id)
          then done (bad bad_env) k
          else done (good e) k
    ]

-- `envid2env`: the environment that it stores in `*penv`. With no current environment the
-- identifier 0 makes it read `curenv->env_status` through NULL.
unfoldable pub envid2env : ℕ → Bool → Cmd Kernel (Ret ℕ)
unfolding check_env
envid2env envid checkperm k =
    if envid == 0
    then elim k.curenv [ none ↦ stop bad_pointer k | some c ↦ check_env envid c checkperm k ]
    else check_env envid (envx envid) checkperm k

-- one round of the loop of `env_init`
unfoldable pub init_round : ℕ → Kernel → Kernel
init_round i k = record (set_env i (λ e. record e { env_id = 0; env_status = env_free }) k) {
  env_free_list = insert_head k.env_free_list i;
}

-- the loop of `env_init`: indices below `n`, downwards
unfoldable pub init_loop : ℕ → Kernel → Kernel
init_loop zero k = k
init_loop (suc i) k = init_loop i (init_round i k)

-- `env_init`
unfoldable pub env_init : Cmd Kernel (Unit {0})
env_init = modify λ k. init_loop nenv (record k { env_free_list = Queue.init k.env_free_list })

-- the byte at an address; words are little endian
unfoldable pub byte_at : (ℕ → ℕ) → ℕ → ℕ
byte_at mem a = mem (a - a % 4) / 2 ^ (8 * (a % 4)) % 256

-- a byte is written at an address
unfoldable pub put_byte : (ℕ → ℕ) → (a v : ℕ) → ℕ → ℕ
unfolding byte_at
put_byte mem a v =
    update mem (a - a % 4)
      (mem (a - a % 4) - byte_at mem a * 2 ^ (8 * (a % 4)) + v * 2 ^ (8 * (a % 4)))

-- the loop of `memcpy`
unfoldable pub copy_bytes : (ℕ → ℕ) → (src dst n : ℕ) → ℕ → ℕ
copy_bytes mem src dst zero = mem
copy_bytes mem src dst (suc n) =
    copy_bytes (put_byte mem dst (byte_at mem src)) (src + 1) (dst + 1) n

unfoldable pub bcopy : ℕ → ℕ → ℕ → Cmd Mm (Unit {0})
bcopy src dst n = modify λ s. record s { mem = copy_bytes s.mem src dst n }

-- `env_setup_vm`; it panics where there is no page, so it returns 0 whenever it returns
unfoldable pub env_setup_vm : ℕ → Cmd Kernel (Unit {0})
unfolding bzero bcopy inc_ref kva_of_page
env_setup_vm e = do
  r ← in_mm page_alloc
  elim r [
    | bad _ ↦ stop panic
    | good p ↦ (do
      in_mm (inc_ref p)
      pgdir ← in_mm (kva_of_page p)
      in_mm (bzero pgdir (4 * pdx utop))
      boot ← gets (λ k. k.boot_pgdir)
      in_mm (bcopy (boot + 4 * pdx utop) (pgdir + 4 * pdx utop) (4 * (4096 - pdx utop)))
      elim (paddr pgdir) [
        | none ↦ stop panic
        | some ttb ↦ modify_env e (λ r. record r { env_pgdir = pgdir; env_ttb = ttb })
      ])
  ]

-- the bits of `ori_cpsr` that `env_alloc` sets, from what `get_cpsr` reads
unfoldable pub user_cpsr : ℕ → ℕ
user_cpsr cpsr =
    bit_and (bit_or (bit_and cpsr (complement 0x1f)) (bit_and 0x10 (complement 0x80))) 0xFFFF

-- the assignments of `env_alloc` behind `env_setup_vm`
abbrev pub fresh_env : ℕ → ℕ → ℕ → Env → Env
fresh_env id parent_id cpsr e = record e {
  env_id = id;
  env_parent_id = parent_id;
  env_status = env_not_runnable;
  env_tf = record e.env_tf { ori_cpsr = user_cpsr cpsr; usr_sp = ustacktop };
}

-- `env_alloc`; `cpsr` is what the processor's status register holds
unfoldable pub env_alloc : (cpsr parent_id : ℕ) → Cmd Kernel (Ret ℕ)
unfolding env_setup_vm mkenvid unlink_free
env_alloc cpsr parent_id k = elim k.env_free_list.first [
  | none ↦ done (bad no_free_env) k
  | some e ↦
      (do
        env_setup_vm e
        id ← mkenvid e
        modify_env e (fresh_env id parent_id cpsr)
        unlink_free e
        pure (good e))
        k
]

-- `env_run`: save the registers of `curenv`, switch the address space, and go to user mode
abbrev pub save_current : Kernel → Kernel
save_current k = elim k.curenv [
  | none ↦ k
  | some c ↦ set_env c (λ r. record r { env_tf = k.exc_tf }) k
]

unfoldable pub env_run : {A : Type 0} → ℕ → Cmd Kernel A
env_run e = do
  modify save_current
  modify (λ k. record k { curenv = some e; m_context = (k.envs e).env_pgdir })
  leave
