-- ===== src/SvcMem.antt =====
-- lib/svc.c: the system calls on address spaces.
pub mod Guards
pub mod Share
pub mod Fresh
use jos_buaa_a20_porting.Prelude.{
  ℕ, ◌+◌, ◌-◌, ◌^◌, bit_and, Bool, true, false, Option, none, some, ◌==◌, leb, if◌then◌else◌, Cmd,
  pure, gets, ◌>>=◌, ◌>>◌,
}
use jos_buaa_a20_porting.Mmu.{
  word, by2pg, utop, ulim, pte_v, pdx, ptx, pte_addr, pg_addr_offset, rounddown,
}
use jos_buaa_a20_porting.Mm.{Error, Ret, good, bad, unspecified, inval, page_alloc}
use jos_buaa_a20_porting.Paging.{
  load, kaddr_of, page_of, pde_at, pte_at, is_table, page_lookup, va2pa, page_insert, page_remove,
}
use jos_buaa_a20_porting.Kernel.{Kernel, in_mm, in_mm_of}
use jos_buaa_a20_porting.Envs.{envid2env}
use jos_buaa_a20_porting.Svc.{current}

-- the 0 that a call returns where its last step succeeds
abbrev pub zero_of : Ret (Unit {0}) → Ret ℕ
zero_of (bad e) = bad e
zero_of (good _) = good 0

-- `sys_mem_alloc`
unfoldable pub sys_mem_alloc : (envid va perm : ℕ) → Cmd Kernel (Ret ℕ)
unfolding envid2env page_alloc page_insert
sys_mem_alloc envid va perm =
    if leb utop va
    then pure (bad unspecified)
    else if bit_and perm pte_v == 0
    then pure (bad inval)
    else (do
      r ← envid2env envid false
      elim r [
        | bad e ↦ pure (bad e)
        | good env ↦ (do
          a ← in_mm page_alloc
          elim a [
            | bad e ↦ pure (bad e)
            | good pp ↦ (do
              pgdir ← gets (λ k. (k.envs env).env_pgdir)
              i ← in_mm_of (λ cur. page_insert cur pgdir pp va perm)
              pure (zero_of i))
          ])
      ])

-- `sys_mem_map` behind the checks of its arguments, from environment `srcenv` to `dstenv`
unfoldable pub map_page : (srcenv srcva dstenv dstva perm : ℕ) → Cmd Kernel (Ret ℕ)
unfolding page_lookup page_insert
map_page srcenv srcva dstenv dstva perm = do
  src_pgdir ← gets (λ k. (k.envs srcenv).env_pgdir)
  found ← in_mm (page_lookup src_pgdir (rounddown srcva by2pg))
  elim found [
    | none ↦ pure (bad unspecified)
    | some (pp, _) ↦ (do
      dst_pgdir ← gets (λ k. (k.envs dstenv).env_pgdir)
      i ← in_mm_of (λ cur. page_insert cur dst_pgdir pp (rounddown dstva by2pg) perm)
      pure (zero_of i))
  ]

-- `sys_mem_map`
unfoldable pub sys_mem_map : (srcid srcva dstid dstva perm : ℕ) → Cmd Kernel (Ret ℕ)
unfolding envid2env map_page
sys_mem_map srcid srcva dstid dstva perm =
    if leb utop srcva
    then pure (bad unspecified)
    else if leb utop dstva
    then pure (bad unspecified)
    else if bit_and perm pte_v == 0
    then pure (bad inval)
    else (do
      s ← envid2env srcid false
      elim s [
        | bad e ↦ pure (bad e)
        | good srcenv ↦ (do
          d ← envid2env dstid false
          elim d [ bad e ↦ pure (bad e) | good dstenv ↦ map_page srcenv srcva dstenv dstva perm ])
      ])

-- `sys_mem_unmap`
unfoldable pub sys_mem_unmap : (envid va : ℕ) → Cmd Kernel (Ret ℕ)
unfolding envid2env page_remove
sys_mem_unmap envid va = if leb utop va then pure (bad inval) else (do
  r ← envid2env envid true
  elim r [
    | bad e ↦ pure (bad e)
    | good env ↦ (do
      pgdir ← gets (λ k. (k.envs env).env_pgdir)
      in_mm_of (λ cur. page_remove cur pgdir va)
      pure (good 0))
  ])

-- `sys_va_perm`
unfoldable pub sys_va_perm : ℕ → Cmd Kernel (Ret ℕ)
unfolding current load kaddr_of
sys_va_perm va = if leb ulim va then pure (bad inval) else (do
  c ← current
  pgdir ← gets (λ k. (k.envs c).env_pgdir)
  pde ← in_mm (load (pde_at pgdir va))
  if is_table pde
      then (do
        pgtable ← in_mm (kaddr_of (pte_addr pde))
        entry ← in_mm (load (pte_at pgtable va))
        pure (good (pg_addr_offset entry)))
      else pure (good 0))

-- `sys_va_ref`; `pages + n` is never NULL, so the test behind `pa2page` does not fail
unfoldable pub sys_va_ref : ℕ → Cmd Kernel (Ret ℕ)
unfolding current va2pa page_of
sys_va_ref va = if leb ulim va then pure (bad inval) else (do
  c ← current
  pgdir ← gets (λ k. (k.envs c).env_pgdir)
  pa ← in_mm (va2pa pgdir va)
  if pa == word - 1
      then pure (good 0)
      else (do p ← in_mm (page_of pa); n ← gets (λ k. k.mm.pp_ref p); pure (good n)))
