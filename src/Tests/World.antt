-- ===== src/Tests/World.antt =====
-- A small machine: 64 pages, a page directory in page 0 with one page table in page 4, which maps
-- 0x1000 to page 5; pages 8 and 12 are free. Environment 1 runs, environment 2 waits for a
-- message.
use jos_buaa_a20_porting.Prelude.{
  ℕ, ◌+◌, ◌*◌, ◌<◌, ◌≡◌, ◌≢◌, refl, bit_and, true, false, some, [], ◌∷◌, arith, ◌==◌, if◌then◌else◌,
}
use jos_buaa_a20_porting.Queue.{Links, zeroed, insert_head}
use jos_buaa_a20_porting.Queue.Chain.{IsQueue}
use jos_buaa_a20_porting.Queue.Insert.{insert_head-IsQueue}
use jos_buaa_a20_porting.Mmu.{pte_v, is_section_va, pte_addr, kaddr, pa2page, pdx, ptx}
use jos_buaa_a20_porting.Mm.{Mm}
use jos_buaa_a20_porting.Mm.Alloc.{IsFreeList}
use jos_buaa_a20_porting.Paging.{pde_at, pte_at}
use jos_buaa_a20_porting.Paging.Walk.{HasTable}
use jos_buaa_a20_porting.Paging.Lookup.{Maps}
use jos_buaa_a20_porting.Kernel.{
  Kernel, Env, Trapframe, envx, env_free, env_runnable, env_not_runnable,
}
use jos_buaa_a20_porting.Envs.Ids.{Found}
use jos_buaa_a20_porting.Svc.Status.{IsSched}

abbrev pub root : ℕ
root = 0x80000000

abbrev pub table : ℕ
table = 0x80004000

abbrev pub words : ℕ → ℕ
words a = if a == 0x80000000 then 0x40004021 else if a == 0x80004004 then 0x4000542A else 0

abbrev pub refs : ℕ → ℕ
refs p = if p == 4 then 1 else if p == 5 then 1 else if p == 6 then 2 else 0

abbrev pub one_free : Links
one_free = insert_head zeroed 12

abbrev pub two_free : Links
two_free = insert_head one_free 8

abbrev pub machine : Mm
machine = record {
  npage = 64;
  freemem = 0x80008000;
  pp_ref = refs;
  page_free_list = two_free;
  mem = words;
  tlb = [];
}

pub one_free-IsQueue : IsQueue one_free (12 ∷ [])
one_free-IsQueue = insert_head-IsQueue zeroed 12 [] refl refl

pub two_free-IsQueue : IsQueue two_free (8 ∷ 12 ∷ [])
two_free-IsQueue = insert_head-IsQueue one_free 8 (12 ∷ []) one_free-IsQueue refl

pub machine-IsFreeList : IsFreeList machine (8 ∷ 12 ∷ [])
machine-IsFreeList = record {
  fits = omega arith;
  queue = two_free-IsQueue;
  within = λ p h. ground arith;
  unused = λ p h. ground arith;
}

-- 0x1000 is mapped to page 5; 0x2000 has the table and no page
pub mapped-Maps : Maps machine root 0x1000 table 5
unfolding is_section_va pdx ptx pte_addr kaddr pa2page
mapped-Maps = record {
  has_table = record { user = refl; table = refl; there = refl };
  valid = refl;
  page = refl;
}

pub empty-HasTable : HasTable machine root 0x2000 table
unfolding is_section_va pdx ptx pte_addr kaddr
empty-HasTable = record { user = refl; table = refl; there = refl }

pub empty_2 : (bit_and (machine.mem (pte_at table 0x2000)) pte_v == 0) ≡ true
unfolding ptx
empty_2 = refl

pub user_3 : is_section_va 0x300000 ≡ false
unfolding is_section_va
user_3 = refl

pub no_table : machine.mem (pde_at root 0x300000) ≡ 0
unfolding pdx
no_table = refl

pub far : pde_at root 0x300000 < 0x80000000 + 8 * 4096
unfolding pdx
far = omega arith

pub apart_1 : pte_at table 0x1000 ≢ pde_at root 0x1000
unfolding pdx ptx
apart_1 = ground arith

pub apart_2 : pte_at table 0x2000 ≢ pde_at root 0x2000
unfolding pdx ptx
apart_2 = ground arith

abbrev pub frame : Trapframe
frame = record { usr_sp = 0; usr_lr = 0; ori_cpsr = 0; regs = λ _. 0; exc_pc = 0 }

abbrev pub idle_env : Env
idle_env = record {
  env_tf = frame;
  env_id = 0;
  env_parent_id = 0;
  env_status = env_free;
  env_pgdir = 0;
  env_ttb = 0;
  env_pri = 0;
  env_ipc_value = 0;
  env_ipc_from = 0;
  env_ipc_recving = 0;
  env_ipc_dstva = 0;
  env_ipc_perm = 0;
  env_ipc_arg_whom = 0;
  env_ipc_arg_perm = 0;
}

abbrev pub env_table : ℕ → Env
env_table e =
    if e == 1
    then record idle_env {
      env_id = 257;
      env_status = env_runnable;
      env_pgdir = 0x80000000;
      env_ttb = 0x40000000;
      env_pri = 3;
    }
    else if e == 2
    then record idle_env {
      env_id = 514;
      env_parent_id = 257;
      env_status = env_not_runnable;
      env_pgdir = 0x80000000;
      env_ttb = 0x40000000;
      env_pri = 2;
      env_ipc_recving = 1;
      env_ipc_arg_whom = 0x1008;
    }
    else idle_env

abbrev pub ready : Links
ready = insert_head zeroed 1

abbrev pub free_envs : Links
free_envs = insert_head zeroed 3

abbrev pub kernel : Kernel
kernel = record {
  mm = machine;
  boot_pgdir = 0x80100000;
  envs = env_table;
  curenv = some 1;
  env_free_list = free_envs;
  env_sched_list = ready;
  next_env_id = 2;
  iter = some 1;
  ts = 2;
  m_context = 0x80000000;
  exc_tf = frame;
  kstack_tf = frame;
}

pub ready-IsQueue : IsQueue ready (1 ∷ [])
ready-IsQueue = insert_head-IsQueue zeroed 1 [] refl refl

pub free_envs-IsQueue : IsQueue free_envs (3 ∷ [])
free_envs-IsQueue = insert_head-IsQueue zeroed 3 [] refl refl

pub kernel-IsSched : IsSched kernel (1 ∷ [])
kernel-IsSched = record { queue = ready-IsQueue; members = λ q. ground arith }

pub runner-Found : Found kernel 0 1 false
runner-Found = record {
  used = ground arith;
  current = λ z. refl;
  named = λ nz. absurd (nz refl);
  allowed = λ p. ground arith;
}

pub waiter-Found : Found kernel 514 2 false
unfolding envx
waiter-Found = record {
  used = ground arith;
  current = λ z. ground arith;
  named = λ nz. (refl, refl);
  allowed = λ p. ground arith;
}
