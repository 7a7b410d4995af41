-- ===== src/Kernel.antt =====
-- The state of the kernel that its parts share: include/env.h, include/trap.h, and the globals of
-- lib/env.c, lib/sched.c and init/init.c. A `struct Env *` is its index in `envs`.
use jos_buaa_a20_porting.Prelude.{
  ℕ, ◌/◌, ◌^◌, Option, none, some, bit_and, Cmd, lift, stop, bad_pointer, done, modify,
}
use jos_buaa_a20_porting.Queue.{Links, update, remove}
use jos_buaa_a20_porting.Mm.{Mm}
use jos_buaa_a20_porting.Paging.{Running}

-- `struct Trapframe`
pub record Trapframe : Type 0 where
  pub usr_sp : ℕ
  pub usr_lr : ℕ
  pub ori_cpsr : ℕ
  pub regs : ℕ → ℕ
  pub exc_pc : ℕ

-- `struct Env`, less the two list entries, which stand in the lists of the state
pub record Env : Type 0 where
  pub env_tf : Trapframe
  pub env_id : ℕ
  pub env_parent_id : ℕ
  pub env_status : ℕ
  pub env_pgdir : ℕ
  pub env_ttb : ℕ
  pub env_pri : ℕ
  pub env_ipc_value : ℕ
  pub env_ipc_from : ℕ
  pub env_ipc_recving : ℕ
  pub env_ipc_dstva : ℕ
  pub env_ipc_perm : ℕ
  pub env_ipc_arg_whom : ℕ
  pub env_ipc_arg_perm : ℕ

abbrev pub env_free : ℕ
env_free = 0

abbrev pub env_runnable : ℕ
env_runnable = 1

abbrev pub env_not_runnable : ℕ
env_not_runnable = 2

abbrev pub nenv : ℕ
nenv = 1024

-- `ENVX`
unfoldable pub envx : ℕ → ℕ
envx envid = bit_and (envid / 2 ^ 8) 0x3FF

pub record Kernel : Type 0 where
  pub mm : Mm
  pub boot_pgdir : ℕ
  pub envs : ℕ → Env
  pub curenv : Option ℕ
  pub env_free_list : Links
  pub env_sched_list : Links
  pub next_env_id : ℕ
  -- the statics of `sched_yield`; `ts` is the bit pattern of an `int`
  pub iter : Option ℕ
  pub ts : ℕ
  pub m_context : ℕ
  -- the trap frames below `EXCSTACK` and at `KSTACKTOP`
  pub exc_tf : Trapframe
  pub kstack_tf : Trapframe

-- what `tlb_invalidate` reads of `curenv`
abbrev pub running : Kernel → Option Running
running k = elim k.curenv [
  | none ↦ none
  | some e ↦ some (record { pgdir = (k.envs e).env_pgdir; id = (k.envs e).env_id })
]

-- code of mm/pmap.c, run on the kernel's memory
abbrev pub in_mm : {A : Type 0} → Cmd Mm A → Cmd Kernel A
in_mm m k = lift (m k.mm) (λ s. record k { mm = s })

-- the same, for code that reads `curenv`
abbrev pub in_mm_of : {A : Type 0} → (Option Running → Cmd Mm A) → Cmd Kernel A
in_mm_of m k = lift (m (running k) k.mm) (λ s. record k { mm = s })

abbrev pub set_env : ℕ → (Env → Env) → Kernel → Kernel
set_env e f k = record k { envs = update k.envs e (f (k.envs e)) }

-- assignments to fields of `*e`
abbrev pub modify_env : ℕ → (Env → Env) → Cmd Kernel (Unit {0})
modify_env e f = modify (set_env e f)

-- `LIST_REMOVE(e, env_link)` and `LIST_REMOVE(e, env_sched_link)`
unfoldable pub unlink_free : ℕ → Cmd Kernel (Unit {0})
unlink_free e k = elim (remove k.env_free_list e) [
  | none ↦ stop bad_pointer k
  | some l ↦ done tt (record k { env_free_list = l })
]

unfoldable pub unlink_sched : ℕ → Cmd Kernel (Unit {0})
unlink_sched e k = elim (remove k.env_sched_list e) [
  | none ↦ stop bad_pointer k
  | some l ↦ done tt (record k { env_sched_list = l })
]
