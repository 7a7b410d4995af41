-- ===== src/Paging/Walk.antt =====
-- `pgdir_walk` and `page_lookup` of mm/pmap.c on a directory entry that holds a page table, and
-- on one that is empty.
use jos_buaa_a20_porting.Prelude.{
  ℕ, ◌+◌, ◌*◌, ◌≤◌, ◌<◌, ◌≡◌, ap, ◌∙◌, inl, inr, Bool, true, false, none, some, List, ◌∷◌, arith,
  ◌==◌, Bool-cases, done, bit_and, bit_or, zero-bit_and,
}
use jos_buaa_a20_porting.Mmu.{
  ulim, pde_page_table, is_section_va, kaddr, pte_addr, page2pa, pa2page,
}
use jos_buaa_a20_porting.Mmu.Fields.{bit_or_page, bit_and_page, pte_addr_lem}
use jos_buaa_a20_porting.Mmu.Translate.{max_pages, pa2page-page2pa, kaddr-page2kva, page2kva_lem}
use jos_buaa_a20_porting.Queue.{update}
use jos_buaa_a20_porting.Mm.{Mm, good, inc16}
use jos_buaa_a20_porting.Mm.Alloc.{IsFreeList, allocated, page_alloc-eq}
use jos_buaa_a20_porting.Paging.{is_table, pde_at, pte_at, pgdir_walk}

-- The directory `pgdir` has a page table at `t` for the user address `va`.
pub record HasTable (s : Mm) (pgdir va t : ℕ) : Type 0 where
  pub user : is_section_va va ≡ false
  pub table : is_table (s.mem (pde_at pgdir va)) ≡ true
  pub there : kaddr s.npage (pte_addr (s.mem (pde_at pgdir va))) ≡ some t

is_table-ne_zero : (pde : ℕ) → is_table pde ≡ true → (pde == 0) ≡ false
is_table-ne_zero pde h = elim (Bool-cases (pde == 0)) [
  | inl e ↦ ground (arith, zero-bit_and pde_page_table)
  | inr e ↦ e
]

-- A walk to a page table that is there changes nothing.
pub walk-HasTable :
    (s : Mm) (pgdir va t : ℕ) (create : Bool)
    → HasTable s pgdir va t
    → pgdir_walk pgdir va create s ≡ done (good (some (pte_at t va))) s
unfolding pgdir_walk
walk-HasTable s pgdir va t create h =
    ground (arith, h.user, h.there, is_table-ne_zero (s.mem (pde_at pgdir va)) h.table)

-- A walk of an empty entry finds NULL.
pub walk_empty :
    (s : Mm) (pgdir va : ℕ)
    → is_section_va va ≡ false
    → s.mem (pde_at pgdir va) ≡ 0
    → pgdir_walk pgdir va false s ≡ done (good none) s
unfolding pgdir_walk
walk_empty s pgdir va user empty = ground (arith, zero-bit_and pde_page_table)

-- the entry that `pgdir_walk` makes for a new page table, and what it says
module _ (npage pp : ℕ) (fits : npage ≤ max_pages) (inside : pp < npage) where
  pub page2pa_lem : page2pa pp ≡ (pp + 0x40000) * 4096
  unfolding page2pa
  page2pa_lem = omega arith

  pub entry_lem : (perm : ℕ) → perm < 4096 → bit_or (page2pa pp) perm ≡ (pp + 0x40000) * 4096 + perm
  entry_lem perm h = ap (λ (t : ℕ). bit_or t perm) page2pa_lem ∙ bit_or_page (pp + 0x40000) perm h

  pub entry-is_table : is_table (bit_or (page2pa pp) pde_page_table) ≡ true
  entry-is_table =
      ap (λ (t : ℕ). bit_and t pde_page_table == pde_page_table)
        (entry_lem pde_page_table (omega arith))
      ∙ ap (λ (t : ℕ). t == pde_page_table)
          (bit_and_page (pp + 0x40000) pde_page_table pde_page_table (omega arith) (omega arith))

  pub entry-pte_addr :
      kaddr npage (pte_addr (bit_or (page2pa pp) pde_page_table)) ≡ some (ulim + pp * 4096)
  entry-pte_addr =
      ap (kaddr npage) address
      ∙ kaddr-page2kva npage fits pp 0 inside (omega arith)
      ∙ ap some (omega arith)
    where
      address : pte_addr (bit_or (page2pa pp) pde_page_table) ≡ page2pa pp + 0
      address =
          ap pte_addr (entry_lem pde_page_table (omega arith))
          ∙ pte_addr_lem ((pp + 0x40000) * 4096 + pde_page_table) (omega arith)
          ∙ omega (arith, page2pa_lem)

  -- an entry made for `pp` leads back to it, and has the permission bits that it was given
  pub entry-pa2page : (perm : ℕ) → perm < 4096 → pa2page npage (bit_or (page2pa pp) perm) ≡ some pp
  entry-pa2page perm h = ap (pa2page npage) same ∙ pa2page-page2pa npage fits pp perm inside h
    where
      same : bit_or (page2pa pp) perm ≡ page2pa pp + perm
      same = entry_lem perm h ∙ omega (arith, page2pa_lem)

  pub entry-bits :
      (perm m : ℕ) → perm < 4096 → m < 4096 → bit_and (bit_or (page2pa pp) perm) m ≡ bit_and perm m
  entry-bits perm m h hm =
      ap (λ (t : ℕ). bit_and t m) (entry_lem perm h) ∙ bit_and_page (pp + 0x40000) perm m h hm

-- the state after `pgdir_walk` has made a page table out of page `p`
abbrev pub with_table : Mm → ℕ → ℕ → ℕ → Mm
with_table s pgdir va p = record (allocated s p) {
  mem = update (allocated s p).mem (pde_at pgdir va) (bit_or (page2pa p) pde_page_table);
  pp_ref = update s.pp_ref p (inc16 (s.pp_ref p));
}

pub walk-create-eq :
    (s : Mm) (pgdir va p : ℕ) (xs : List ℕ)
    → IsFreeList s (p ∷ xs)
    → is_section_va va ≡ false
    → s.mem (pde_at pgdir va) ≡ 0
    → pgdir_walk pgdir va true s
      ≡ done (good (some (pte_at (ulim + p * 4096) va))) (with_table s pgdir va p)
unfolding pgdir_walk
walk-create-eq s pgdir va p xs v user empty = ground (
  arith,
  zero-bit_and pde_page_table,
  page_alloc-eq s p xs v,
  page2kva_lem s.npage v.fits p (v.within p (ground arith)),
)
