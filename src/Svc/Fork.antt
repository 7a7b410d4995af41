-- ===== src/Svc/Fork.antt =====
-- `sys_env_alloc` of lib/svc.c: what it does with a page of the parent.
use jos_buaa_a20_porting.Prelude.{
  ℕ, ◌%◌, ◌≤◌, ◌<◌, ◌≡◌, ◌≢◌, ◌∙◌, true, Option, none, some, arith, ◌==◌, done, bit_and,
}
use jos_buaa_a20_porting.Mmu.{pte_v, pa2page, pg_addr_base, pg_addr_offset}
use jos_buaa_a20_porting.Mmu.Fields.{pg_addr_offset_lem}
use jos_buaa_a20_porting.Mmu.Translate.{max_pages}
use jos_buaa_a20_porting.Mm.{Mm, good, inc16}
use jos_buaa_a20_porting.Paging.{Running, pde_at, pte_at, page_lookup, page_insert}
use jos_buaa_a20_porting.Paging.Walk.{HasTable}
use jos_buaa_a20_porting.Paging.Insert.{page_insert-Inserted}
use jos_buaa_a20_porting.Svc.{copy_entry}

copy_entry-page_insert :
    (curenv : Option Running) (dst_pgdir va entry p : ℕ) (s : Mm)
    → va % 4096 ≡ 0
    → pa2page s.npage (pg_addr_base entry) ≡ some p
    → copy_entry curenv dst_pgdir va entry s
      ≡ page_insert curenv dst_pgdir p va (pg_addr_offset entry) s
unfolding copy_entry
copy_entry-page_insert curenv dst_pgdir va entry p s aligned at =
    ground (arith, pg_addr_offset_lem va)

-- The inner loop of `sys_env_alloc` gives the child the parent's own page for a valid entry,
-- whatever its permissions: with a page table for the address in the child and nothing mapped there, the
-- child's address leads to page p of the entry, with one reference more, and no page is copied.
pub copy_entry_shares :
    (curenv : Option Running) (dst_pgdir va entry p t : ℕ) (s : Mm)
    → va % 4096 ≡ 0
    → pa2page s.npage (pg_addr_base entry) ≡ some p
    → HasTable s dst_pgdir va t
    → pte_at t va ≢ pde_at dst_pgdir va
    → s.npage ≤ max_pages
    → p < s.npage
    → (bit_and (s.mem (pte_at t va)) pte_v == 0) ≡ true
    → (s' : Mm) × (copy_entry curenv dst_pgdir va entry s ≡ done (good tt) s')
      × (page_lookup dst_pgdir va s' ≡ done (some (p, pte_at t va)) s')
      × (s'.pp_ref p ≡ inc16 (s.pp_ref p))
      × ((a : ℕ) → a ≢ pte_at t va → s'.mem a ≡ s.mem a)
copy_entry_shares curenv dst_pgdir va entry p t s aligned at h apart fits inside fresh =
    let small : pg_addr_offset entry < 4096 = omega (arith, pg_addr_offset_lem entry) in
    let (s', run, i) =
      page_insert-Inserted curenv s dst_pgdir va t p (pg_addr_offset entry) h apart fits inside
        small none fresh in
    (
      s',
      copy_entry-page_insert curenv dst_pgdir va entry p s aligned at ∙ run,
      i.found,
      ground (arith, i.counts p),
      i.elsewhere,
    )
