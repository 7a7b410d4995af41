-- ===== src/Mmu.antt =====
-- include/mmu.h, include/memlayout.h and the rounding macros of include/types.h: address
-- arithmetic on 32-bit words. A pointer is its address.
pub mod Fields
pub mod Translate
use jos_buaa_a20_porting.Prelude.{
  ℕ, ◌+◌, ◌-◌, ◌*◌, ◌/◌, ◌%◌, ◌^◌, bit_and, bit_or, Bool, Option, none, some, ◌&&◌, ◌||◌, not, leb,
  ltb, ◌==◌, if◌then◌else◌,
}

abbrev pub word : ℕ
word = 2 ^ 32

abbrev pub by2pg : ℕ
by2pg = 4096

abbrev pub pgshift : ℕ
pgshift = 12

abbrev pub pdshift : ℕ
pdshift = 20

-- `PDMAP`, bytes mapped by a page directory entry
abbrev pub pdmap : ℕ
pdmap = 1024 * 1024

abbrev pub drambase : ℕ
drambase = 0x40000000

abbrev pub dramsize : ℕ
dramsize = 0x40000000

abbrev pub ulim : ℕ
ulim = 0x80000000

abbrev pub iovabase : ℕ
iovabase = 0xC0000000

abbrev pub iopabase : ℕ
iopabase = 0x01C00000

abbrev pub iopatop : ℕ
iopatop = 0x01D00000

-- `UTOP`, that is `ULIM - 3 * PDMAP`
abbrev pub utop : ℕ
utop = 0x7FD00000

abbrev pub ustacktop : ℕ
ustacktop = utop - 2 * by2pg

abbrev pub kerntop : ℕ
kerntop = ulim + 8 * pdmap

abbrev pub pde_section : ℕ
pde_section = 0x10402

abbrev pub pde_super_section : ℕ
pde_super_section = 0x50402

abbrev pub pde_page_table : ℕ
pde_page_table = 0x21

abbrev pub pte_v : ℕ
pte_v = 0x42A

abbrev pub pte_r : ℕ
pte_r = 0x030

abbrev pub pte_library : ℕ
pte_library = 0x001

-- `PDX`, `PTX` and `PPN` of a virtual address
unfoldable pub pdx : ℕ → ℕ
pdx va = bit_and (va / 2 ^ pdshift) 0xFFF

unfoldable pub ptx : ℕ → ℕ
ptx va = bit_and (va / 2 ^ pgshift) 0xFF

abbrev pub ppn : ℕ → ℕ
ppn va = va / 2 ^ pgshift

-- `~x` on words
abbrev pub complement : ℕ → ℕ
complement x = word - 1 - x

-- `ROUND` and `ROUNDDOWN`
unfoldable pub round : ℕ → ℕ → ℕ
round a n = bit_and ((a + n - 1) % word) (complement (n - 1))

unfoldable pub rounddown : ℕ → ℕ → ℕ
rounddown a n = bit_and a (complement (n - 1))

-- `PTE_ADDR`, `PG_ADDR_BASE` and `PG_ADDR_OFFSET`
unfoldable pub pte_addr : ℕ → ℕ
pte_addr pte = bit_and pte 0xFFFFFC00

unfoldable pub pg_addr_base : ℕ → ℕ
pg_addr_base content = bit_and content 0xFFFFF000

unfoldable pub pg_addr_offset : ℕ → ℕ
pg_addr_offset va = bit_and va (complement 0xFFFFF000)

-- `PADDR`; `none` is the panic
unfoldable pub paddr : ℕ → Option ℕ
paddr kva =
    if ltb kva ulim
    then none
    else some
        (if ltb kva iovabase then kva - ulim + drambase else (kva - iovabase + iopabase) % word)

-- `KADDR` with `npage` pages of memory; `none` is the panic
unfoldable pub kaddr : ℕ → ℕ → Option ℕ
kaddr npage pa =
    if leb npage (ppn ((pa + word - drambase) % word))
    then none
    else some ((pa + word - drambase + ulim) % word)

-- the test that `pgdir_walk`, `page_insert`, `page_lookup` and `page_remove` begin with: an
-- address that the kernel's sections map
unfoldable pub is_section_va : ℕ → Bool
is_section_va va =
    leb ulim va && ltb va (ulim + dramsize)
    || leb iovabase va && ltb va (iovabase - iopabase + iopatop)

-- `page2pa`, `pa2page` and `page2kva` of include/pmap.h: a `struct Page *` is its index in `pages`
unfoldable pub page2pa : ℕ → ℕ
page2pa pp = (pp * 2 ^ pgshift + drambase) % word

unfoldable pub pa2page : ℕ → ℕ → Option ℕ
pa2page npage pa =
    if leb npage (ppn ((pa + word - drambase) % word))
    then none
    else some (ppn ((pa + word - drambase) % word))

unfoldable pub page2kva : ℕ → ℕ → Option ℕ
page2kva npage pp = kaddr npage (page2pa pp)
