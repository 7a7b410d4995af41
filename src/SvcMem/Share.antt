-- ===== src/SvcMem/Share.antt =====
-- `sys_mem_alloc` and `sys_mem_map` of lib/svc.c: fresh and shared pages.
use jos_buaa_a20_porting.Prelude.{
  ℕ, ◌≤◌, ◌<◌, ◌≡◌, ◌≢◌, false, Option, some, arith, ◌==◌, done, bit_and,
}
use jos_buaa_a20_porting.Mmu.{by2pg, utop, pte_v, rounddown}
use jos_buaa_a20_porting.Mmu.Translate.{max_pages}
use jos_buaa_a20_porting.Mm.{good}
use jos_buaa_a20_porting.Paging.{pde_at, pte_at, page_lookup}
use jos_buaa_a20_porting.Paging.Walk.{HasTable}
use jos_buaa_a20_porting.Paging.Lookup.{Maps, page_lookup-Maps}
use jos_buaa_a20_porting.Paging.Insert.{MapsBefore, Inserted, page_insert-Inserted}
use jos_buaa_a20_porting.Kernel.{Kernel, running}
use jos_buaa_a20_porting.Envs.Ids.{Found, envid2env-Found}
use jos_buaa_a20_porting.SvcMem.{sys_mem_map}

-- the directory of the environment at index `e`
abbrev pub dir : Kernel → ℕ → ℕ
dir k e = (k.envs e).env_pgdir

-- `sys_mem_map` of a page that the source has: afterwards both addresses lead to that page, in the
-- source by the entry that was there, in the destination with the permissions asked for; only
-- the destination's entry changes. Both environments must be in use, whoever they are; the addresses
-- are below `UTOP`, and the permissions below 4096 with a bit of `PTE_V`; the destination must have
-- a page table for the address, and its entry must not be its own directory entry.
pub sys_mem_map_shares :
    (k : Kernel) (srcid srcva dstid dstva perm src dst ts td pp : ℕ) (before : Option ℕ)
    → srcva < utop
    → dstva < utop
    → (bit_and perm pte_v == 0) ≡ false
    → perm < 4096
    → Found k srcid src false
    → Found k dstid dst false
    → Maps k.mm (dir k src) (rounddown srcva by2pg) ts pp
    → HasTable k.mm (dir k dst) (rounddown dstva by2pg) td
    → MapsBefore k.mm (dir k dst) (rounddown dstva by2pg) td before
    → pte_at td (rounddown dstva by2pg) ≢ pde_at (dir k dst) (rounddown dstva by2pg)
    → k.mm.npage ≤ max_pages
    → pp < k.mm.npage
    → (k' : Kernel) × (sys_mem_map srcid srcva dstid dstva perm k ≡ done (good 0) k')
      × (page_lookup (dir k dst) (rounddown dstva by2pg) k'.mm
          ≡ done (some (pp, pte_at td (rounddown dstva by2pg))) k'.mm)
      × Inserted k.mm k'.mm (dir k dst) (rounddown dstva by2pg) td pp perm before
unfolding sys_mem_map
sys_mem_map_shares k srcid srcva dstid dstva perm src dst ts td pp before lo lo' valid small fs fd m
      h b apart fits inside =
    let (s', run, i) =
      page_insert-Inserted (running k) k.mm (dir k dst) (rounddown dstva by2pg) td pp perm h apart
        fits inside small before b in
    (
      record k { mm = s' },
      ground (
        arith,
        (envid2env-Found k srcid src false).1 fs,
        (envid2env-Found k dstid dst false).1 fd,
        page_lookup-Maps k.mm (dir k src) (rounddown srcva by2pg) ts pp m,
        run,
      ),
      i.found,
      i,
    )
