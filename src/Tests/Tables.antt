-- ===== src/Tests/Tables.antt =====
-- Page tables on the small machine.
use jos_buaa_a20_porting.Prelude.{
  ℕ, ◌+◌, ◌-◌, ◌*◌, ◌≡◌, ◌≢◌, inl, true, none, some, [], ◌∷◌, arith, ◌==◌, if◌then◌else◌, done,
}
use jos_buaa_a20_porting.Mmu.{ulim}
use jos_buaa_a20_porting.Mm.{Mm, good}
use jos_buaa_a20_porting.Mm.Alloc.{IsFreeList}
use jos_buaa_a20_porting.Paging.{
  pte_at, pgdir_walk, page_lookup, page_remove, page_insert, tlb_operand,
}
use jos_buaa_a20_porting.Paging.Walk.{HasTable}
use jos_buaa_a20_porting.Paging.Create.{pgdir_walk-create}
use jos_buaa_a20_porting.Paging.Remove.{page_remove-page_lookup}
use jos_buaa_a20_porting.Paging.Insert.{Inserted, page_insert-Inserted}
use jos_buaa_a20_porting.Tests.World.{
  root, table, machine, machine-IsFreeList, mapped-Maps, user_3, no_table, far, apart_1,
}

pgdir_walk-create_example :
    (s' : Mm) × (pgdir_walk root 0x300000 true machine
      ≡ done (good (some (pte_at (ulim + 8 * 4096) 0x300000))) s')
    × HasTable s' root 0x300000 (ulim + 8 * 4096)
    × IsFreeList s' (12 ∷ [])
    × (s'.pp_ref 8 ≡ 1)
    × ((w : ℕ) → s'.mem (pte_at (ulim + 8 * 4096) w) ≡ 0)
pgdir_walk-create_example =
    pgdir_walk-create machine root 0x300000 8 (12 ∷ []) machine-IsFreeList user_3 no_table (inl far)

page_remove-page_lookup_example :
    (s' : Mm) × (page_remove none root 0x1000 machine ≡ done tt s')
    × (page_lookup root 0x1000 s' ≡ done none s')
    × IsFreeList s' (if machine.pp_ref 5 == 1 then 5 ∷ (8 ∷ 12 ∷ []) else (8 ∷ 12 ∷ []))
    × (s'.pp_ref 5 ≡ machine.pp_ref 5 - 1)
    × ((q : ℕ) → q ≢ 5 → s'.pp_ref q ≡ machine.pp_ref q)
    × ((a : ℕ) → a ≢ pte_at table 0x1000 → s'.mem a ≡ machine.mem a)
    × (s'.tlb ≡ tlb_operand none root 0x1000 ∷ machine.tlb)
page_remove-page_lookup_example =
    page_remove-page_lookup none machine root 0x1000 table 5 (8 ∷ 12 ∷ []) mapped-Maps apart_1
      machine-IsFreeList (omega arith) (omega arith) (omega arith)

page_insert-Inserted_example :
    (s' : Mm) × (page_insert none root 6 0x1000 0x42A machine ≡ done (good tt) s')
    × Inserted machine s' root 0x1000 table 6 0x42A (some 5)
page_insert-Inserted_example =
    page_insert-Inserted none machine root 0x1000 table 6 0x42A mapped-Maps.has_table apart_1
      (omega arith) (omega arith) (omega arith) (some 5) mapped-Maps
