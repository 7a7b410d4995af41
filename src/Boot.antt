-- ===== src/Boot.antt =====
-- mm/pmap.c: the directory that the kernel boots with, `armv7_vm_init`, and the page that `pageout`
-- gives to an address that was not mapped.
pub mod Direct
use jos_buaa_a20_porting.Prelude.{
  ℕ, zero, suc, ◌+◌, ◌-◌, ◌*◌, ◌/◌, ◌%◌, ◌^◌, Bool, true, false, leb, ◌==◌, if◌then◌else◌, Cmd,
  pure, stop, gets, modify, panic, ◌>>=◌, ◌>>◌, bit_and, bit_or,
}
use jos_buaa_a20_porting.Mmu.{
  by2pg, pdmap, drambase, dramsize, iovabase, iopabase, iopatop, ulim, pdx,
}
use jos_buaa_a20_porting.Queue.{update}
use jos_buaa_a20_porting.Mm.{Mm, Ret, good, bad, alloc, page_alloc, inc_ref}
use jos_buaa_a20_porting.Paging.{pde_at, page_insert}
use jos_buaa_a20_porting.Kernel.{Kernel, in_mm, in_mm_of, nenv}
use jos_buaa_a20_porting.Loader.{user_perm}

-- the attributes of a section for memory and of one for devices, and the base of a section of 16 MB
abbrev pub pde_super_section_c : ℕ
pde_super_section_c = 0x5040A

abbrev pub pde_section_dev : ℕ
pde_section_dev = 0x10406

abbrev pub super_section_base_mask : ℕ
super_section_base_mask = 0xFF000000

abbrev pub put : (a v : ℕ) → Mm → Mm
put a v s = record s { mem = update s.mem a v }

-- the loops of `init_boot_pgdir`, `n` rounds from `i` on
unfoldable pub clear_user : (pgdir n i : ℕ) → Mm → Mm
clear_user pgdir zero i s = s
clear_user pgdir (suc n) i s = clear_user pgdir n (i + pdmap) (put (pde_at pgdir i) 0 s)

unfoldable pub map_dram : (pgdir n i : ℕ) → Mm → Mm
map_dram pgdir zero i s = s
map_dram pgdir (suc n) i s = map_dram pgdir n (i + pdmap) (
    put (pde_at pgdir (i + ulim))
      (bit_or (bit_and (i + drambase) super_section_base_mask) pde_super_section_c) s)

unfoldable pub map_devices : (pgdir n i : ℕ) → Mm → Mm
map_devices pgdir zero i s = s
map_devices pgdir (suc n) i s =
    map_devices pgdir n (i + pdmap)
      (put (pde_at pgdir (i - iopabase + iovabase)) (bit_or i pde_section_dev) s)

-- `init_boot_pgdir`
unfoldable pub init_boot_pgdir : (pgdir : ℕ) → Cmd Mm (Unit {0})
init_boot_pgdir pgdir = modify λ s.
    map_devices pgdir ((iopatop - iopabase) / pdmap) iopabase
      (map_dram pgdir (dramsize / pdmap) 0 (clear_user pgdir (ulim / pdmap) 0 s))

-- the bytes of `struct Page` and of `struct Env`
module _ (page_bytes env_bytes : ℕ) where
  -- `armv7_vm_init`: the addresses of `pages` and `envs`
  unfoldable pub armv7_vm_init : Cmd Kernel (ℕ × ℕ)
  armv7_vm_init = do
    modify (λ k. record k { m_context = k.boot_pgdir })
    npage ← gets (λ k. k.mm.npage)
    pages ← in_mm (alloc (npage * page_bytes) by2pg true)
    envs ← in_mm (alloc (nenv * env_bytes) by2pg true)
    pure (pages, envs)

-- `pageout`
unfoldable pub pageout : (va : ℕ) → Cmd Kernel (Unit {0})
pageout va = if leb 0x80000000 va then stop panic else if pdx va == 0 then stop panic else (do
  r ← in_mm page_alloc
  elim r [
    | bad _ ↦ stop panic
    | good p ↦ (do
      in_mm (inc_ref p)
      pgdir ← gets (λ k. k.m_context)
      i ← in_mm_of (λ cur. page_insert cur pgdir p va user_perm)
      pure tt)
  ])
