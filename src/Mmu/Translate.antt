-- ===== src/Mmu/Translate.antt =====
-- Translations between kernel virtual addresses, physical addresses and pages.
use jos_buaa_a20_porting.Prelude.{ℕ, ◌+◌, ◌*◌, ◌≤◌, ◌<◌, ◌≡◌, some, arith}
use jos_buaa_a20_porting.Mmu.{ulim, drambase, paddr, kaddr, page2pa, pa2page, page2kva}

-- the most pages that the address space of the kernel holds, `DRAMSIZE >> PGSHIFT`
abbrev pub max_pages : ℕ
max_pages = 0x40000

module _ (npage : ℕ) (fits : npage ≤ max_pages) where
  pub page2kva_lem : (pp : ℕ) → pp < npage → page2kva npage pp ≡ some (ulim + pp * 4096)
  unfolding page2kva kaddr page2pa
  page2kva_lem pp h = ground arith

  -- `pa2page` finds the page of every address inside it.
  pub pa2page-page2pa :
      (pp offset : ℕ) → pp < npage → offset < 4096 → pa2page npage (page2pa pp + offset) ≡ some pp
  unfolding pa2page page2pa
  pa2page-page2pa pp offset h ho = ground arith

  -- `KADDR` of an address of the memory is defined, and `PADDR` takes it back.
  pub paddr-kaddr :
      (pa : ℕ)
      → drambase ≤ pa
      → pa < drambase + npage * 4096
      → (kva : ℕ) × (kaddr npage pa ≡ some kva) × (paddr kva ≡ some pa)
  unfolding kaddr paddr
  paddr-kaddr pa lo hi = (pa + 0x40000000, ground arith, ground arith)

  -- `KADDR` of an address inside a page is the same place of the page's kernel addresses.
  pub kaddr-page2kva :
      (pp offset : ℕ)
      → pp < npage
      → offset < 4096
      → kaddr npage (page2pa pp + offset) ≡ some (ulim + pp * 4096 + offset)
  unfolding kaddr page2pa
  kaddr-page2kva pp offset h ho = ground arith
