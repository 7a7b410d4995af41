-- ===== src/Paging.antt =====
-- mm/pmap.c: the two-level page tables. A page directory is the kernel virtual address of its
-- first word, and a `Pte *` is the address of the entry, `none` for NULL.
pub mod Walk
pub mod Create
pub mod Lookup
pub mod Remove
pub mod Insert
use jos_buaa_a20_porting.Prelude.{
  ℕ, ◌+◌, ◌-◌, ◌*◌, ◌/◌, ◌%◌, ◌^◌, bit_and, bit_or, Bool, true, false, Option, none, some, List,
  ◌∷◌, leb, ltb, ◌==◌, if◌then◌else◌, Cmd, pure, stop, panic, bad_pointer, modify, gets, ◌>>=◌,
  ◌>>◌,
}
use jos_buaa_a20_porting.Mmu.{
  word, by2pg, pde_section, pde_super_section, pde_page_table, pte_v, pte_r, pdx, ptx, rounddown,
  pte_addr, pg_addr_base, pg_addr_offset, kaddr, is_section_va, page2pa, pa2page,
}
use jos_buaa_a20_porting.Queue.{update}
use jos_buaa_a20_porting.Mm.{
  Mm, Ret, good, bad, inval, no_mem, inc_ref, kva_of_page, page_alloc, drop_ref,
}

-- what `tlb_invalidate` reads of `curenv`
pub record Running : Type 0 where
  pub pgdir : ℕ
  pub id : ℕ

unfoldable pub load : ℕ → Cmd Mm ℕ
load a = gets λ s. s.mem a

unfoldable pub store : ℕ → ℕ → Cmd Mm (Unit {0})
store a v = modify λ s. record s { mem = update s.mem a v }

-- `KADDR` and `pa2page`, with their panics
unfoldable pub kaddr_of : ℕ → Cmd Mm ℕ
kaddr_of pa s = elim (kaddr s.npage pa) [ none ↦ stop panic s | some kva ↦ pure kva s ]

unfoldable pub page_of : ℕ → Cmd Mm ℕ
page_of pa s = elim (pa2page s.npage pa) [ none ↦ stop panic s | some pp ↦ pure pp s ]

-- the entry of a page directory for an address, and that of a page table
abbrev pub pde_at : ℕ → ℕ → ℕ
pde_at pgdir va = pgdir + 4 * pdx va

abbrev pub pte_at : ℕ → ℕ → ℕ
pte_at pgtable va = pgtable + 4 * ptx va

abbrev pub is_table : ℕ → Bool
is_table pde = bit_and pde pde_page_table == pde_page_table

-- the branch of `pgdir_walk` that makes a page table
unfoldable pub create_table : ℕ → ℕ → Cmd Mm (Ret (Option ℕ))
unfolding load store kva_of_page inc_ref
create_table pgdir va = do
  r ← page_alloc
  elim r [
    | bad _ ↦ pure (bad no_mem)
    | good pp ↦ (do
      pgtable ← kva_of_page pp
      store (pde_at pgdir va) (bit_or (page2pa pp) pde_page_table)
      inc_ref pp
      pure (good (some (pte_at pgtable va))))
  ]

-- `pgdir_walk`: what it stores in `*ppte`, or the error. On `-E_NO_MEM` it stores NULL.
unfoldable pub pgdir_walk : ℕ → ℕ → Bool → Cmd Mm (Ret (Option ℕ))
unfolding load kaddr_of create_table
pgdir_walk pgdir va create = if is_section_va va then pure (bad inval) else do
  pde ← load (pde_at pgdir va)
  pgtable ← if pde == 0 then pure 0 else kaddr_of (pte_addr pde)
  if is_table pde
      then pure (good (some (pte_at pgtable va)))
      else if create
      then create_table pgdir va
      else pure (good none)

-- the pointer that the caller finds in `*ppte` after a walk whose result it does not test
abbrev pub walked : Ret (Option ℕ) → Option ℕ
walked (good p) = p
walked (bad _) = none

-- `page_lookup`: the page, with the entry that it stores in `*ppte`
unfoldable pub page_lookup : ℕ → ℕ → Cmd Mm (Option (ℕ × ℕ))
unfolding pgdir_walk load page_of
page_lookup pgdir va = if is_section_va va then pure none else do
  r ← pgdir_walk pgdir va false
  elim (walked r) [
    | none ↦ pure none
    | some pte ↦ (do
      entry ← load pte
      if bit_and entry pte_v == 0 then pure none else do pp ← page_of entry; pure (some (pp, pte)))
  ]

-- `va2pa`; `~0` is the answer for an address that is not mapped
unfoldable pub va2pa : ℕ → ℕ → Cmd Mm ℕ
unfolding load kaddr_of
va2pa pgdir va = do
  pde ← load (pde_at pgdir va)
  if bit_and pde pde_super_section == pde_super_section
      then pure (bit_or (bit_and pde 0xFF000000) (bit_and va 0xFFFFFF))
      else if bit_and pde pde_section == pde_section
      then pure (bit_or (bit_and pde 0xFFF00000) (bit_and va 0xFFFFF))
      else if is_table pde
      then (do
        p ← kaddr_of (pte_addr pde)
        entry ← load (pte_at p va)
        if bit_and entry pte_v == 0
            then pure (word - 1)
            else pure (bit_or (pg_addr_base entry) (pg_addr_offset va)))
      else pure (word - 1)

-- the operand of `tlb_invalidate`: the page, with the ASID where the directory is that of `curenv`
abbrev pub tlb_operand : Option Running → ℕ → ℕ → ℕ
tlb_operand none pgdir va = rounddown va by2pg
tlb_operand (some e) pgdir va =
    if e.pgdir == pgdir then bit_or (rounddown va by2pg) (bit_and e.id 0xFF) else rounddown va by2pg

module _ (curenv : Option Running) where
  -- `tlb_invalidate`
  unfoldable pub tlb_invalidate : ℕ → ℕ → Cmd Mm (Unit {0})
  tlb_invalidate pgdir va = modify λ s. record s { tlb = tlb_operand curenv pgdir va ∷ s.tlb }

  -- `page_remove`
  unfoldable pub page_remove : ℕ → ℕ → Cmd Mm (Unit {0})
  unfolding page_lookup drop_ref store tlb_invalidate
  page_remove pgdir va = if is_section_va va then pure tt else do
    found ← page_lookup pgdir va
    elim found [
      | none ↦ pure tt
      | some (pp, pte) ↦ (do drop_ref pp; store pte 0; tlb_invalidate pgdir va)
    ]

  -- the end of `page_insert`, behind the release of a page mapped before
  unfoldable pub insert_fresh : ℕ → ℕ → ℕ → ℕ → Cmd Mm (Ret (Unit {0}))
  unfolding tlb_invalidate pgdir_walk store inc_ref
  insert_fresh pgdir pp va perm = do
    tlb_invalidate pgdir va
    r ← pgdir_walk pgdir va true
    elim r [
      | bad e ↦ pure (bad e)
      | good none ↦ stop bad_pointer
      | good (some pte) ↦ (do store pte (bit_or (page2pa pp) perm); inc_ref pp; pure (good tt))
    ]

  -- `page_insert`
  unfoldable pub page_insert : ℕ → ℕ → ℕ → ℕ → Cmd Mm (Ret (Unit {0}))
  unfolding pgdir_walk load page_of page_remove tlb_invalidate store insert_fresh
  page_insert pgdir pp va perm = if is_section_va va then pure (bad inval) else do
    let entry_bits = bit_or perm pte_v
    r ← pgdir_walk pgdir va false
    elim (walked r) [
      | none ↦ insert_fresh pgdir pp va entry_bits
      | some pte ↦ (do
        entry ← load pte
        if bit_and entry pte_v == 0 then insert_fresh pgdir pp va entry_bits else do
          old ← page_of entry
          if old == pp
              then (do
                tlb_invalidate pgdir va
                store pte (bit_or (page2pa pp) entry_bits)
                pure (good tt))
              else (do page_remove pgdir va; insert_fresh pgdir pp va entry_bits))
    ]
