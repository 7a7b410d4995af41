-- ===== src/Loader.antt =====
-- lib/env.c and lib/kernel_elfloader.c: a binary in the kernel's memory is loaded into the address
-- space of a new environment.
pub mod Segments
use jos_buaa_a20_porting.Prelude.{
  ℕ, zero, suc, ◌+◌, ◌-◌, ◌*◌, ◌/◌, ◌%◌, ◌^◌, Bool, true, false, not, ◌||◌, Option, none, some, leb,
  ltb, ◌==◌, if◌then◌else◌, min, Cmd, pure, stop, gets, modify, panic, bad_pointer, ◌>>=◌, ◌>>◌,
  bit_or,
}
use jos_buaa_a20_porting.Mmu.{word, by2pg, pte_v, pte_r, ustacktop, rounddown, pdx}
use jos_buaa_a20_porting.Queue.{insert_head}
use jos_buaa_a20_porting.Mm.{
  Mm, Error, Ret, good, bad, unspecified, no_mem, bzero, inc_ref, kva_of_page, page_alloc,
}
use jos_buaa_a20_porting.Paging.{Running, page_insert, pgdir_walk, walked, tlb_invalidate}
use jos_buaa_a20_porting.Kernel.{Kernel, Env, Trapframe, env_runnable, in_mm, in_mm_of, modify_env}
use jos_buaa_a20_porting.Envs.{bcopy, env_alloc}

abbrev pub user_perm : ℕ
user_perm = bit_or pte_v pte_r

-- a page of a segment: it is allocated, counted, zeroed, filled and mapped at `va`
unfoldable pub load_page :
    (curenv : Option Running)
    → (pgdir va : ℕ) → (fill : ℕ → Cmd Mm (Unit {0})) → Cmd Mm (Ret (Unit {0}))
load_page curenv pgdir va fill = do
  r ← page_alloc
  elim r [
    | bad e ↦ pure (bad e)
    | good p ↦ (do
      inc_ref p
      kva ← kva_of_page p
      bzero kva by2pg
      fill kva
      page_insert curenv pgdir p va user_perm)
  ]

-- the copies of step 1 of `load_icode_mapper`, in the round for offset `i`
abbrev pub fill_page : (offset bin bin_size i : ℕ) → (kva : ℕ) → Cmd Mm (Unit {0})
fill_page offset bin bin_size i kva =
    if i == 0
    then bcopy bin (kva + offset)
        (if leb (by2pg - offset) bin_size then by2pg - offset else bin_size)
    else bcopy (bin + i - offset) kva (if leb by2pg (bin_size - i) then by2pg else bin_size - i)

-- the rounds of the loops `for (; i < size; i += BY2PG)` from 0 on
abbrev pub pages_of : ℕ → ℕ
pages_of size = (size + by2pg - 1) / by2pg

module _ (curenv : Option Running) (pgdir va : ℕ) where
  abbrev pub offset_in : ℕ
  offset_in = va - rounddown va by2pg

  -- step 1, over `n` pages from offset `i` on
  unfoldable pub load_loop : (bin bin_size n i : ℕ) → Cmd Mm (Ret (Unit {0}))
  load_loop bin bin_size zero i = pure (good tt)
  load_loop bin bin_size (suc n) i = do
    r ← load_page curenv pgdir (va + i - offset_in) (fill_page offset_in bin bin_size i)
    elim r [ bad e ↦ pure (bad e) | good _ ↦ load_loop bin bin_size n (i + by2pg) ]

  -- step 2, over `n` pages from offset `i` on
  unfoldable pub zero_loop : (n i : ℕ) → Cmd Mm (Ret (Unit {0}))
  zero_loop zero i = pure (good tt)
  zero_loop (suc n) i = do
    r ← load_page curenv pgdir (va + i - offset_in) (λ kva. pure tt)
    elim r [ bad e ↦ pure (bad e) | good _ ↦ zero_loop n (i + by2pg) ]

  -- the two steps, of `n` and `m` pages
  unfoldable pub load_pages : (bin bin_size n m : ℕ) → Cmd Mm (Ret (Unit {0}))
  load_pages bin bin_size n m = do
    r ← load_loop bin bin_size n 0
    elim r [ bad e ↦ pure (bad e) | good _ ↦ zero_loop m (n * by2pg) ]

  -- `load_icode_mapper`
  unfoldable pub load_icode_mapper : (sgsize bin bin_size : ℕ) → Cmd Mm (Ret (Unit {0}))
  load_icode_mapper sgsize bin bin_size =
      load_pages bin bin_size (pages_of bin_size) (pages_of sgsize - pages_of bin_size)

-- fields of the ELF header and of a program header, as words of memory
abbrev pub is_elf_format : Mm → ℕ → Bool
is_elf_format s binary = s.mem binary == 0x464C457F

abbrev pub e_entry : Mm → ℕ → ℕ
e_entry s binary = s.mem (binary + 24)

abbrev pub e_phoff : Mm → ℕ → ℕ
e_phoff s binary = s.mem (binary + 28)

abbrev pub e_phentsize : Mm → ℕ → ℕ
e_phentsize s binary = s.mem (binary + 40) / 2 ^ 16

abbrev pub e_phnum : Mm → ℕ → ℕ
e_phnum s binary = s.mem (binary + 44) % 2 ^ 16

abbrev pub p_type : Mm → ℕ → ℕ
p_type s phdr = s.mem phdr

abbrev pub p_offset : Mm → ℕ → ℕ
p_offset s phdr = s.mem (phdr + 4)

abbrev pub p_vaddr : Mm → ℕ → ℕ
p_vaddr s phdr = s.mem (phdr + 8)

abbrev pub p_filesz : Mm → ℕ → ℕ
p_filesz s phdr = s.mem (phdr + 16)

abbrev pub p_memsz : Mm → ℕ → ℕ
p_memsz s phdr = s.mem (phdr + 20)

abbrev pub pt_load : ℕ
pt_load = 1

-- the round of `load_elf` for a program header
unfoldable pub load_segment :
    (curenv : Option Running) → (pgdir binary phdr : ℕ) → Cmd Mm (Ret (Unit {0}))
load_segment curenv pgdir binary phdr s =
    if p_type s phdr == pt_load
    then load_icode_mapper curenv pgdir (p_vaddr s phdr) (p_memsz s phdr) (binary + p_offset s phdr)
        (p_filesz s phdr) s
    else pure (good tt) s

-- the loop of `load_elf` over `n` program headers from `phdr` on
unfoldable pub load_segments :
    (curenv : Option Running) → (pgdir binary size n phdr : ℕ) → Cmd Mm (Ret (Unit {0}))
load_segments curenv pgdir binary size zero phdr = pure (good tt)
load_segments curenv pgdir binary size (suc n) phdr = do
  r ← load_segment curenv pgdir binary phdr
  elim r [ bad e ↦ pure (bad e) | good _ ↦ load_segments curenv pgdir binary size n (phdr + size) ]

-- `load_elf` with `load_icode_mapper`: the entry point that it stores in `*entry_point`
unfoldable pub load_elf : (curenv : Option Running) → (pgdir binary size : ℕ) → Cmd Mm (Ret ℕ)
load_elf curenv pgdir binary size s =
    if ltb size 4 || not (is_elf_format s binary)
    then pure (bad unspecified) s
    else (do
      r ←
          load_segments curenv pgdir binary (e_phentsize s binary) (e_phnum s binary)
            (binary + e_phoff s binary)
      elim r [ bad e ↦ pure (bad e) | good _ ↦ gets (λ s. good (e_entry s binary)) ])
        s

-- what `load_icode` takes for the entry point: its `r` is unsigned, so that the test of the result
-- never fails, and after an error the variable has what it had before, `junk`
abbrev pub entry_or : (junk : ℕ) → Ret ℕ → ℕ
entry_or junk (bad e) = junk
entry_or junk (good entry) = entry

-- `page_insert` of the page of the stack, which is NULL where there was none: without a page table
-- none can be made either, and otherwise the code goes through NULL
unfoldable pub insert_stack :
    (curenv : Option Running) → (pgdir : ℕ) → Ret ℕ → Cmd Mm (Ret (Unit {0}))
insert_stack curenv pgdir (good p) = page_insert curenv pgdir p (ustacktop - by2pg) user_perm
insert_stack curenv pgdir (bad e) = do
  r ← pgdir_walk pgdir (ustacktop - by2pg) true
  elim (walked r) [
    | some pte ↦ stop bad_pointer
    | none ↦ (do tlb_invalidate curenv pgdir (ustacktop - by2pg); pure (bad no_mem))
  ]

-- `load_icode`; it does not test whether it has a page for the stack
unfoldable pub load_icode : (e binary size junk : ℕ) → Cmd Kernel (Unit {0})
load_icode e binary size junk = do
  a ← in_mm page_alloc
  pgdir ← gets (λ k. (k.envs e).env_pgdir)
  i ← in_mm_of (λ cur. insert_stack cur pgdir a)
  r ← in_mm_of (λ cur. load_elf cur pgdir binary size)
  modify_env e (λ v. record v { env_status = env_runnable })
  modify (λ k. record k { env_sched_list = insert_head k.env_sched_list e })
  modify_env e (λ v. record v { env_tf = record v.env_tf { exc_pc = entry_or junk r } })

-- `env_create_priority`
unfoldable pub env_create_priority : (cpsr binary size priority junk : ℕ) → Cmd Kernel (Unit {0})
env_create_priority cpsr binary size priority junk = do
  a ← env_alloc cpsr 0
  elim a [
    | bad _ ↦ stop panic
    | good e ↦ (do
      modify_env e (λ v. record v { env_pri = priority })
      load_icode e binary size junk)
  ]

-- `env_create`
unfoldable pub env_create : (cpsr binary size junk : ℕ) → Cmd Kernel (Unit {0})
env_create cpsr binary size junk = env_create_priority cpsr binary size 1 junk
