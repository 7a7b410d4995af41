-- ===== src/Tests/Calls.antt =====
-- The calls on environments, on address spaces and between environments, on the small machine.
use jos_buaa_a20_porting.Prelude.{
  ℕ, ◌+◌, ◌-◌, ◌*◌, ◌%◌, ◌≤◌, ◌<◌, ◌≡◌, ◌≢◌, ◌↔◌, inl, inr, refl, true, false, none, some, [], ◌∷◌,
  arith, ◌==◌, if◌then◌else◌, done, left, halt, out_of_fuel, bit_and, bit_or, suc, ap,
}
use jos_buaa_a20_porting.Queue.{insert_head}
use jos_buaa_a20_porting.Queue.Chain.{has, erase, IsQueue}
use jos_buaa_a20_porting.Mmu.{
  word, by2pg, ulim, pdx, ptx, pte_v, pte_r, is_section_va, rounddown, pte_addr, kaddr, pa2page,
}
use jos_buaa_a20_porting.Mm.{good}
use jos_buaa_a20_porting.Mm.Alloc.{IsFreeList}
use jos_buaa_a20_porting.Paging.{pde_at, pte_at, page_lookup}
use jos_buaa_a20_porting.Paging.Walk.{HasTable}
use jos_buaa_a20_porting.Paging.Lookup.{Maps}
use jos_buaa_a20_porting.Paging.Insert.{MapsBefore, Inserted, entry_of}
use jos_buaa_a20_porting.Kernel.{Kernel, envx, env_free, env_runnable}
use jos_buaa_a20_porting.Envs.{envid2env, env_alloc}
use jos_buaa_a20_porting.Envs.Ids.{Found, envid2env-Found}
use jos_buaa_a20_porting.Envs.Alloc.{IsFresh, env_alloc-IsFresh}
use jos_buaa_a20_porting.Sched.{sched_yield}
use jos_buaa_a20_porting.Sched.Yield.{sched_yield-next, sched_yield-drain}
use jos_buaa_a20_porting.Sched.Turn.{turn, Follows}
use jos_buaa_a20_porting.Sched.Spin.{sched_yield_spins}
use jos_buaa_a20_porting.Svc.{my_set_env_status}
use jos_buaa_a20_porting.Svc.Status.{IsSched, Restatused, my_set_env_status-IsSched}
use jos_buaa_a20_porting.SvcMem.{sys_mem_alloc, sys_mem_map}
use jos_buaa_a20_porting.SvcMem.Share.{dir, sys_mem_map_shares}
use jos_buaa_a20_porting.SvcMem.Fresh.{sys_mem_alloc-fresh}
use jos_buaa_a20_porting.Ipc.{sys_ipc_can_send}
use jos_buaa_a20_porting.Ipc.Deliver.{IsTarget, written, Delivered, sys_ipc_can_send-Delivered}
use jos_buaa_a20_porting.Ipc.Page.{target, sys_ipc_can_send_page}
use jos_buaa_a20_porting.Teardown.{env_free_of}
use jos_buaa_a20_porting.Teardown.Empty.{IsBare, env_free_of-bare}
use jos_buaa_a20_porting.Tests.World.{
  env_table, two_free-IsQueue, root, table, machine, machine-IsFreeList, mapped-Maps,
  empty-HasTable, empty_2, apart_2, idle_env, kernel, ready-IsQueue, free_envs-IsQueue,
  kernel-IsSched, runner-Found, waiter-Found,
}

-- environment 2 waits for a page at 0x2000, and has given no pointers
abbrev quiet : Kernel
quiet = record kernel {
  envs = λ e.
      if e == 2
      then record (env_table 2) { env_ipc_arg_whom = 0; env_ipc_dstva = 0x2000 }
      else env_table e;
}

quiet-Found : Found quiet 514 2 false
unfolding envx
quiet-Found = record {
  used = ground arith;
  current = λ z. ground arith;
  named = λ nz. (refl, refl);
  allowed = λ p. ground arith;
}

quiet-IsSched : IsSched quiet (1 ∷ [])
quiet-IsSched = record { queue = ready-IsQueue; members = λ q. ground arith }

-- environment 1 with a directory of its own in page 16, and no user mapping
abbrev leaving : Kernel
leaving = record kernel {
  mm = record machine { pp_ref = λ p. if p == 16 then 1 else 0 };
  envs = λ e.
      if e == 1
      then record (env_table 1) { env_pgdir = 0x80010000; env_ttb = 0x40010000 }
      else idle_env;
}

leaving-IsBare : IsBare leaving.mm (leaving.envs 1).env_pgdir
leaving-IsBare i lt =
    let empty : leaving.mm.mem (0x80010000 + 4 * i) ≡ 0 = ground arith in
    ap (λ (w : ℕ). bit_and w pte_v) empty

own_page : pa2page 64 0x40010000 ≡ some 16
unfolding pa2page
own_page = refl

leaving-IsFreeList : IsFreeList leaving.mm (8 ∷ 12 ∷ [])
leaving-IsFreeList = record {
  fits = omega arith;
  queue = two_free-IsQueue;
  within = λ p h. ground arith;
  unused = λ p h. ground arith;
}

abbrev expired : Kernel
expired = record kernel { ts = 0 }

all_ready : (q : ℕ) → has q (1 ∷ []) ≡ true → (expired.envs q).env_status ≡ env_runnable
all_ready q h = ground arith

-- the running environment has left the list
abbrev gone : Kernel
gone = record kernel { iter = some 2 }

gone_next : Follows gone.env_sched_list 2 1 1
unfolding insert_head
gone_next = inr (refl, refl)

-- an environment that is free stands on the list
abbrev dead : Kernel
dead = record kernel { envs = λ _. idle_env }

none_ready : (q : ℕ) → has q (1 ∷ []) ≡ true → (dead.envs q).env_status ≢ env_runnable
none_ready q h = ground arith

source-Maps : Maps kernel.mm (dir kernel 1) (rounddown 0x1000 by2pg) table 5
unfolding rounddown
source-Maps = mapped-Maps

target-HasTable : HasTable kernel.mm (dir kernel 2) (rounddown 0x2000 by2pg) table
unfolding rounddown
target-HasTable = empty-HasTable

target_empty : MapsBefore kernel.mm (dir kernel 2) (rounddown 0x2000 by2pg) table none
unfolding rounddown
target_empty = empty_2

target_apart :
    pte_at table (rounddown 0x2000 by2pg) ≢ pde_at (dir kernel 2) (rounddown 0x2000 by2pg)
unfolding rounddown
target_apart = apart_2

outside_pte : pte_at table 0x2000 < ulim + 8 * 4096
unfolding ptx
outside_pte = omega arith

outside_pde : pde_at root 0x2000 < ulim + 8 * 4096
unfolding pdx
outside_pde = omega arith

at_1008 : Maps machine root 0x1008 table 5
unfolding is_section_va pdx ptx pte_addr kaddr pa2page
at_1008 = record {
  has_table = record { user = refl; table = refl; there = refl };
  valid = refl;
  page = refl;
}

to_whom : IsTarget kernel.mm (dir kernel 2) (kernel.envs 2).env_ipc_arg_whom (some 5)
to_whom = (ground arith, omega arith, omega arith, (table, at_1008))

envid2env-Found_example :
    (envid2env 514 false kernel ≡ done (good 2) kernel) ↔ Found kernel 514 2 false
envid2env-Found_example = envid2env-Found kernel 514 2 false

env_alloc-IsFresh_example :
    (k' : Kernel) × (env_alloc 0x13 257 kernel ≡ done (good 3) k')
    × IsQueue k'.env_free_list []
    × IsFreeList k'.mm (12 ∷ [])
    × IsFresh kernel k' 257 3 8
env_alloc-IsFresh_example =
    env_alloc-IsFresh kernel 0x13 257 3 8 [] (12 ∷ []) free_envs-IsQueue machine-IsFreeList
      (record { aligned = omega arith; apart = inr (omega arith); words = λ a. ground arith })

sched_yield-next_example :
    (k' : Kernel) × (sched_yield (suc 0) expired ≡ left k')
    × (k'.curenv ≡ some (turn expired.iter 1 []))
    × (k'.iter ≡ some (turn expired.iter 1 []))
    × (k'.ts ≡ ((expired.envs (turn expired.iter 1 [])).env_pri + word - 1) % word)
sched_yield-next_example = sched_yield-next 0 expired 1 [] ready-IsQueue refl all_ready refl

sched_yield-drain_example : (k' : Kernel) × (sched_yield 3 gone ≡ left k') × (k'.curenv ≡ some 1)
sched_yield-drain_example =
    sched_yield-drain 2 3 gone 1 1 2 [] ready-IsQueue refl (ground arith) gone_next refl refl
      (omega arith) (omega arith)

sched_yield_spins_example : sched_yield 5 dead ≡ halt out_of_fuel
sched_yield_spins_example = sched_yield_spins 5 dead 1 [] ready-IsQueue refl none_ready

my_set_env_status-IsSched_example :
    (k' : Kernel) × (my_set_env_status 0 2 env_runnable kernel ≡ done tt k')
    × Restatused kernel k' 2 env_runnable (1 ∷ [])
my_set_env_status-IsSched_example =
    my_set_env_status-IsSched 0 kernel 2 env_runnable (1 ∷ []) kernel-IsSched (inr refl) (inl refl)

sys_mem_map_shares_example :
    (k' : Kernel) × (sys_mem_map 0 0x1000 514 0x2000 0x42A kernel ≡ done (good 0) k')
    × (page_lookup (dir kernel 2) (rounddown 0x2000 by2pg) k'.mm
        ≡ done (some (5, pte_at table (rounddown 0x2000 by2pg))) k'.mm)
    × Inserted kernel.mm k'.mm (dir kernel 2) (rounddown 0x2000 by2pg) table 5 0x42A none
sys_mem_map_shares_example =
    sys_mem_map_shares kernel 0 0x1000 514 0x2000 0x42A 1 2 table table 5 none (omega arith)
      (omega arith) refl (omega arith) runner-Found waiter-Found source-Maps target-HasTable
      target_empty target_apart (omega arith) (omega arith)

sys_mem_alloc-fresh_example :
    (k' : Kernel) × (sys_mem_alloc 0 0x2000 0x42A kernel ≡ done (good 0) k')
    × (page_lookup (dir kernel 1) 0x2000 k'.mm ≡ done (some (8, pte_at table 0x2000)) k'.mm)
    × (k'.mm.mem (pte_at table 0x2000) ≡ entry_of 8 0x42A)
    × (k'.mm.pp_ref 8 ≡ 1)
    × ((a : ℕ) → ulim + 8 * 4096 ≤ a → a < ulim + 8 * 4096 + 4096 → k'.mm.mem a ≡ 0)
sys_mem_alloc-fresh_example =
    sys_mem_alloc-fresh kernel 0 0x2000 0x42A 1 table 8 (12 ∷ []) (omega arith) refl (omega arith)
      runner-Found machine-IsFreeList empty-HasTable empty_2 apart_2 (inl outside_pte)
      (inl outside_pde)

sys_ipc_can_send-Delivered_example :
    (k' : Kernel) × (sys_ipc_can_send 0 514 7 0 0 kernel ≡ done (good 0) k')
    × Delivered kernel k' 2 1 7 0
    × IsSched k' (2 ∷ (1 ∷ []))
    × (k'.mm
        ≡ written
            (written kernel.mm (some 5) (kernel.envs 2).env_ipc_arg_whom (kernel.envs 1).env_id)
            none
            (kernel.envs 2).env_ipc_arg_perm
            (bit_or (bit_or 0 pte_v) pte_r))
sys_ipc_can_send-Delivered_example =
    sys_ipc_can_send-Delivered 0 kernel 514 7 0 2 1 (1 ∷ []) (some 5) none waiter-Found refl
      kernel-IsSched refl (ground arith) to_whom refl

sys_ipc_can_send_page_example :
    (k' : Kernel) × (sys_ipc_can_send 0 514 7 0x1000 0x030 quiet ≡ done (good 0) k')
    × Delivered quiet k' 2 1 7 0x030
    × IsSched k' (2 ∷ (1 ∷ []))
    × Inserted quiet.mm k'.mm (dir quiet 2) (target quiet 2) table 5 0x030 none
sys_ipc_can_send_page_example =
    sys_ipc_can_send_page 0 quiet 514 7 0x1000 0x030 2 1 table table 5 none (1 ∷ []) (omega arith)
      (ground arith) (omega arith) quiet-Found refl quiet-IsSched refl (ground arith) refl refl
      mapped-Maps empty-HasTable empty_2 apart_2 (omega arith) (omega arith)

env_free_of-bare_example :
    (k' : Kernel) × (env_free_of 1 leaving ≡ done tt k')
    × IsFreeList k'.mm (16 ∷ (8 ∷ 12 ∷ []))
    × IsQueue k'.env_free_list (1 ∷ (3 ∷ []))
    × IsQueue k'.env_sched_list (erase 1 (1 ∷ []))
    × ((k'.envs 1).env_status ≡ env_free)
    × ((q : ℕ) → q ≢ 1 → k'.envs q ≡ leaving.envs q)
env_free_of-bare_example =
    env_free_of-bare leaving 1 16 (8 ∷ 12 ∷ []) (3 ∷ []) (1 ∷ []) leaving-IsBare own_page
      leaving-IsFreeList (omega arith) refl free_envs-IsQueue refl ready-IsQueue refl
