-- ===== src/Paging/Create.antt =====
-- `pgdir_walk` of mm/pmap.c where it makes a page table.
use jos_buaa_a20_porting.Prelude.{
  ℕ, ◌+◌, ◌*◌, ◌≤◌, ◌<◌, ◌≡◌, ◌⊎◌, true, false, some, List, [], ◌∷◌, arith, done, zero-bit_and,
}
use jos_buaa_a20_porting.Mmu.{ulim, pde_page_table, is_section_va}
use jos_buaa_a20_porting.Mmu.Fields.{ptx_lem}
use jos_buaa_a20_porting.Mm.{Mm, good, bad, no_mem}
use jos_buaa_a20_porting.Mm.Alloc.{IsFreeList, page_alloc-nil, allocated-IsFreeList}
use jos_buaa_a20_porting.Paging.{pde_at, pte_at, pgdir_walk}
use jos_buaa_a20_porting.Paging.Walk.{
  HasTable, with_table, walk-create-eq, entry-is_table, entry-pte_addr,
}

-- the address `a` lies outside page `p`
abbrev pub OutsidePage : ℕ → ℕ → Type 0
OutsidePage p a = (a < ulim + p * 4096) ⊎ (ulim + p * 4096 + 4096 ≤ a)

pub with_table-IsFreeList :
    (s : Mm) (pgdir va p : ℕ) (xs : List ℕ)
    → IsFreeList s (p ∷ xs)
    → IsFreeList (with_table s pgdir va p) xs
with_table-IsFreeList s pgdir va p xs v =
    let w = allocated-IsFreeList s p xs v in
    record {
      fits = w.fits;
      queue = w.queue;
      within = w.within;
      unused = λ q h. ground (arith, w.unused q h, v.queue.2);
    }

pub with_table-HasTable :
    (s : Mm) (pgdir va p : ℕ) (xs : List ℕ)
    → IsFreeList s (p ∷ xs)
    → is_section_va va ≡ false
    → HasTable (with_table s pgdir va p) pgdir va (ulim + p * 4096)
with_table-HasTable s pgdir va p xs v user = record {
  user = user;
  table = ground (arith, entry-is_table s.npage p v.fits (v.within p (ground arith)));
  there = ground (arith, entry-pte_addr s.npage p v.fits (v.within p (ground arith)));
}

-- A walk with `create` to an empty entry takes the first free page for a page table: the entry
-- leads to it, it is referenced once, its entries are all invalid, and it points at the entry for
-- the address. The directory must not lie in a page that is free.
pub pgdir_walk-create :
    (s : Mm) (pgdir va p : ℕ) (xs : List ℕ)
    → IsFreeList s (p ∷ xs)
    → is_section_va va ≡ false
    → s.mem (pde_at pgdir va) ≡ 0
    → OutsidePage p (pde_at pgdir va)
    → (s' : Mm) × (pgdir_walk pgdir va true s ≡ done (good (some (pte_at (ulim + p * 4096) va))) s')
      × HasTable s' pgdir va (ulim + p * 4096)
      × IsFreeList s' xs
      × (s'.pp_ref p ≡ 1)
      × ((w : ℕ) → s'.mem (pte_at (ulim + p * 4096) w) ≡ 0)
pgdir_walk-create s pgdir va p xs v user empty out = (
  with_table s pgdir va p,
  walk-create-eq s pgdir va p xs v user empty,
  with_table-HasTable s pgdir va p xs v user,
  with_table-IsFreeList s pgdir va p xs v,
  ground (arith, v.unused p),
  λ w. ground (arith, ptx_lem w),
)

-- With no free page it returns `-E_NO_MEM` and changes nothing.
pub pgdir_walk-no_mem :
    (s : Mm) (pgdir va : ℕ)
    → IsFreeList s []
    → is_section_va va ≡ false
    → s.mem (pde_at pgdir va) ≡ 0
    → pgdir_walk pgdir va true s ≡ done (bad no_mem) s
unfolding pgdir_walk
pgdir_walk-no_mem s pgdir va v user empty =
    ground (arith, page_alloc-nil s v, zero-bit_and pde_page_table)
