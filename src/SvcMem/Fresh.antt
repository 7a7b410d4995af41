-- ===== src/SvcMem/Fresh.antt =====
-- `sys_mem_alloc` of lib/svc.c: a fresh page, and what becomes of it where it cannot be mapped.
use jos_buaa_a20_porting.Prelude.{
  ℕ, ◌+◌, ◌*◌, ◌≤◌, ◌<◌, ◌≡◌, ◌≢◌, refl, false, true, none, some, List, [], ◌∷◌, arith, ◌==◌, done,
  bit_and,
}
use jos_buaa_a20_porting.Mmu.{utop, ulim, pte_v, is_section_va}
use jos_buaa_a20_porting.Mm.{Mm, good, bad, no_mem}
use jos_buaa_a20_porting.Mm.Alloc.{IsFreeList, allocated, page_alloc-eq, allocated-IsFreeList}
use jos_buaa_a20_porting.Paging.{
  pde_at, pte_at, page_lookup, page_insert, insert_fresh, tlb_operand,
}
use jos_buaa_a20_porting.Paging.Walk.{HasTable, walk_empty}
use jos_buaa_a20_porting.Paging.Create.{OutsidePage, pgdir_walk-no_mem}
use jos_buaa_a20_porting.Paging.Insert.{entry_of, page_insert-Inserted}
use jos_buaa_a20_porting.Kernel.{Kernel, running}
use jos_buaa_a20_porting.Envs.Ids.{Found, envid2env-Found}
use jos_buaa_a20_porting.SvcMem.{sys_mem_alloc}
use jos_buaa_a20_porting.SvcMem.Share.{dir}

-- `sys_mem_alloc` for any environment in use, the caller, its child or another one, at an address
-- below `UTOP` where the table is there and nothing is mapped, with permissions below 4096 with a
-- bit of `PTE_V`: the first free page is mapped at the address with the permissions asked for, all
-- its words are zero, and it has one reference. The entries on the way to the address lie outside
-- of that page and are not the same.
pub sys_mem_alloc-fresh :
    (k : Kernel) (envid va perm env t p : ℕ) (xs : List ℕ)
    → va < utop
    → (bit_and perm pte_v == 0) ≡ false
    → perm < 4096
    → Found k envid env false
    → IsFreeList k.mm (p ∷ xs)
    → HasTable k.mm (dir k env) va t
    → (bit_and (k.mm.mem (pte_at t va)) pte_v == 0) ≡ true
    → pte_at t va ≢ pde_at (dir k env) va
    → OutsidePage p (pte_at t va)
    → OutsidePage p (pde_at (dir k env) va)
    → (k' : Kernel) × (sys_mem_alloc envid va perm k ≡ done (good 0) k')
      × (page_lookup (dir k env) va k'.mm ≡ done (some (p, pte_at t va)) k'.mm)
      × (k'.mm.mem (pte_at t va) ≡ entry_of p perm)
      × (k'.mm.pp_ref p ≡ 1)
      × ((a : ℕ) → ulim + p * 4096 ≤ a → a < ulim + p * 4096 + 4096 → k'.mm.mem a ≡ 0)
unfolding sys_mem_alloc
sys_mem_alloc-fresh k envid va perm env t p xs lo valid small f v h fresh apart out out' =
    let u : Mm = allocated k.mm p in
    let hu : HasTable u (dir k env) va t = record {
      user = h.user;
      table = ground (arith, h.table);
      there = ground (arith, h.there);
    } in
    let (s', run, i) =
      page_insert-Inserted (running k) u (dir k env) va t p perm hu apart v.fits
        (v.within p (ground arith)) small none (ground arith) in
    (
      record k { mm = s' },
      ground (arith, (envid2env-Found k envid env false).1 f, page_alloc-eq k.mm p xs v, run),
      i.found,
      i.entry,
      ground (arith, i.counts p, v.unused p),
      λ a lo hi. ground (arith, i.elsewhere a),
    )

-- `sys_mem_alloc` of the last free page at an address that has no page table returns
-- `-E_NO_MEM`, and the page is lost: it is on the free list no more, and no one refers to it.
pub sys_mem_alloc-leaks :
    (k : Kernel) (envid va perm env p : ℕ)
    → va < utop
    → (bit_and perm pte_v == 0) ≡ false
    → Found k envid env false
    → IsFreeList k.mm (p ∷ [])
    → is_section_va va ≡ false
    → k.mm.mem (pde_at (dir k env) va) ≡ 0
    → OutsidePage p (pde_at (dir k env) va)
    → (k' : Kernel) × (sys_mem_alloc envid va perm k ≡ done (bad no_mem) k')
      × IsFreeList k'.mm []
      × (k'.mm.pp_ref p ≡ 0)
      × ((a : ℕ) → k'.mm.mem a ≡ (allocated k.mm p).mem a)
unfolding sys_mem_alloc page_insert insert_fresh
sys_mem_alloc-leaks k envid va perm env p lo valid f v user empty out =
    let u : Mm = allocated k.mm p in
    let u1 : Mm = record u { tlb = tlb_operand (running k) (dir k env) va ∷ u.tlb } in
    let w : IsFreeList u [] = allocated-IsFreeList k.mm p [] v in
    let w1 : IsFreeList u1 [] = record {
      fits = w.fits;
      queue = w.queue;
      within = w.within;
      unused = w.unused;
    } in
    let still : u.mem (pde_at (dir k env) va) ≡ 0 = ground arith in
    (
      record k { mm = u1 },
      ground (
        arith,
        (envid2env-Found k envid env false).1 f,
        page_alloc-eq k.mm p [] v,
        walk_empty u (dir k env) va user still,
        pgdir_walk-no_mem u1 (dir k env) va w1 user still,
      ),
      w1,
      v.unused p (ground arith),
      λ a. refl,
    )
