-- ===== src/Paging/Lookup.antt =====
-- `page_lookup` of mm/pmap.c against the entry of an address.
use jos_buaa_a20_porting.Prelude.{ℕ, ◌≡◌, true, false, none, some, arith, ◌==◌, done, bit_and}
use jos_buaa_a20_porting.Mmu.{pte_v, is_section_va, pa2page}
use jos_buaa_a20_porting.Mm.{Mm}
use jos_buaa_a20_porting.Paging.{pde_at, pte_at, page_lookup}
use jos_buaa_a20_porting.Paging.Walk.{HasTable, walk-HasTable, walk_empty}

-- The address `va` is mapped to page `pp` by the entry at `pte` of the table at `t`.
pub record Maps (s : Mm) (pgdir va t pp : ℕ) : Type 0 where
  pub has_table : HasTable s pgdir va t
  pub valid : (bit_and (s.mem (pte_at t va)) pte_v == 0) ≡ false
  pub page : pa2page s.npage (s.mem (pte_at t va)) ≡ some pp

-- `page_lookup` of a mapped address returns its page and the entry, and changes nothing.
pub page_lookup-Maps :
    (s : Mm) (pgdir va t pp : ℕ)
    → Maps s pgdir va t pp
    → page_lookup pgdir va s ≡ done (some (pp, pte_at t va)) s
unfolding page_lookup
page_lookup-Maps s pgdir va t pp m =
    ground (arith, walk-HasTable s pgdir va t false m.has_table, m.has_table.user, m.valid, m.page)

-- It returns NULL for an address of the kernel's sections.
pub page_lookup-section :
    (s : Mm) (pgdir va : ℕ) → is_section_va va ≡ true → page_lookup pgdir va s ≡ done none s
unfolding page_lookup
page_lookup-section s pgdir va h = ground arith

-- It returns NULL for an entry that is not valid.
pub page_lookup_invalid :
    (s : Mm) (pgdir va t : ℕ)
    → HasTable s pgdir va t
    → (bit_and (s.mem (pte_at t va)) pte_v == 0) ≡ true
    → page_lookup pgdir va s ≡ done none s
unfolding page_lookup
page_lookup_invalid s pgdir va t h i = ground (arith, walk-HasTable s pgdir va t false h, h.user)

-- It returns NULL where there is no page table.
pub page_lookup_empty :
    (s : Mm) (pgdir va : ℕ)
    → is_section_va va ≡ false
    → s.mem (pde_at pgdir va) ≡ 0
    → page_lookup pgdir va s ≡ done none s
unfolding page_lookup
page_lookup_empty s pgdir va user empty = ground (arith, walk_empty s pgdir va user empty)
