-- ===== src/SvcMem/Guards.antt =====
-- The arguments that the memory calls of lib/svc.c refuse before they touch anything.
use jos_buaa_a20_porting.Prelude.{ℕ, ◌≤◌, ◌<◌, ◌≡◌, arith, bit_and, done}
use jos_buaa_a20_porting.Mmu.{utop, pte_v}
use jos_buaa_a20_porting.Mm.{bad, unspecified, inval}
use jos_buaa_a20_porting.Kernel.{Kernel}
use jos_buaa_a20_porting.SvcMem.{sys_mem_alloc, sys_mem_map, sys_mem_unmap}
use jos_buaa_a20_porting.Ipc.{sys_ipc_recv, sys_ipc_can_send}

-- No system call maps, unmaps, sends or reads above the user's part of the address space: each
-- of them returns an error at once, and leaves the state of the kernel as it was. A call of
-- `sys_ipc_recv` returns without blocking.
pub calls_above_utop :
    (k : Kernel) (fuel envid envid' va va' perm value whom : ℕ)
    → utop ≤ va
    → (sys_mem_alloc envid va perm k ≡ done (bad unspecified) k)
      × (sys_mem_map envid va envid' va' perm k ≡ done (bad unspecified) k)
      × (sys_mem_map envid va' envid' va perm k ≡ done (bad unspecified) k)
      × (sys_mem_unmap envid va k ≡ done (bad inval) k)
      × (sys_ipc_recv fuel va whom perm k ≡ done tt k)
      × (sys_ipc_can_send fuel envid value va perm k ≡ done (bad inval) k)
unfolding sys_mem_alloc sys_mem_map sys_mem_unmap sys_ipc_recv sys_ipc_can_send
calls_above_utop k fuel envid envid' va va' perm value whom h =
    (ground arith, ground arith, ground arith, ground arith, ground arith, ground arith)

-- Below it, a mapping without `PTE_V` is refused, and changes nothing.
pub calls_without_valid :
    (k : Kernel) (envid envid' va va' perm : ℕ)
    → va < utop
    → va' < utop
    → bit_and perm pte_v ≡ 0
    → (sys_mem_alloc envid va perm k ≡ done (bad inval) k)
      × (sys_mem_map envid va envid' va' perm k ≡ done (bad inval) k)
unfolding sys_mem_alloc sys_mem_map
calls_without_valid k envid envid' va va' perm h h' z = (ground arith, ground arith)
