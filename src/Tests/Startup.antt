-- ===== src/Tests/Startup.antt =====
-- The start of the kernel and the loading of a binary on the small machine.
use jos_buaa_a20_porting.Prelude.{◌+◌, ◌%◌, ◌≡◌, inl, inr, none, [], ◌∷◌, arith, done}
use jos_buaa_a20_porting.Mmu.{by2pg, ulim, drambase, pdx, ptx, rounddown}
use jos_buaa_a20_porting.Mm.{Mm, good}
use jos_buaa_a20_porting.Paging.{va2pa}
use jos_buaa_a20_porting.Loader.{load_icode_mapper}
use jos_buaa_a20_porting.Loader.Segments.{IsRoom, Loaded, first_bytes, load_icode_mapper-Loaded}
use jos_buaa_a20_porting.Boot.{init_boot_pgdir}
use jos_buaa_a20_porting.Boot.Direct.{init_boot_pgdir-va2pa}
use jos_buaa_a20_porting.Tests.World.{
  root, table, machine, machine-IsFreeList, empty-HasTable, empty_2, apart_2,
}

room : IsRoom machine root (rounddown 0x2010 by2pg) table 8 (12 ∷ [])
unfolding rounddown pdx ptx
room = record {
  free = machine-IsFreeList;
  table = empty-HasTable;
  empty = empty_2;
  apart = apart_2;
  out = inl (omega arith);
  out' = inl (omega arith);
}

load_icode_mapper-Loaded_example :
    (s' : Mm) × (load_icode_mapper none root 0x2010 32 0x80020000 20 machine ≡ done (good tt) s')
    × Loaded machine s' root
        (rounddown 0x2010 by2pg)
        table
        8
        0x80020000
        (0x2010 % 4096)
        (first_bytes (0x2010 % 4096) 20)
load_icode_mapper-Loaded_example =
    load_icode_mapper-Loaded none machine root 0x2010 32 0x80020000 20 table 8 (12 ∷ [])
      (omega arith) (omega arith) (omega arith) (omega arith) room
      (record {
        place = omega arith;
        source = omega arith;
        size = omega arith;
        apart = inr (omega arith);
        words = λ a. ground arith;
      })

init_boot_pgdir-va2pa_example :
    (t : Mm) × (init_boot_pgdir root machine ≡ done tt t)
    × (va2pa root (ulim + 0x1234567) t ≡ done (drambase + 0x1234567) t)
init_boot_pgdir-va2pa_example = init_boot_pgdir-va2pa machine root 0x1234567 (omega arith)
