-- ===== src/Mm.antt =====
-- mm/pmap.c: the page allocator, and the memory that the page tables live in.
-- Memory is a function from the kernel virtual address of a word to the word. A `struct Page *`
-- is an index into `pages`; `pp_ref` is a `u_short` and wraps.
pub mod Alloc
pub mod Init
pub mod Release
use jos_buaa_a20_porting.Prelude.{
  ℕ, zero, suc, ◌+◌, ◌-◌, ◌*◌, ◌/◌, ◌%◌, ◌^◌, Bool, ◌&&◌, Option, none, some, List, ◌∷◌, leb, ltb,
  ◌==◌, if◌then◌else◌, Cmd, pure, stop, panic, bad_pointer, modify, gets, ◌>>=◌, ◌>>◌,
}
use jos_buaa_a20_porting.Mmu.{word, by2pg, pgshift, dramsize, ulim, kerntop, round, page2kva}
use jos_buaa_a20_porting.Queue
use jos_buaa_a20_porting.Queue.{Links, update, insert_head, remove}

-- the error codes of include/error.h, which the functions return negated
pub data Error : Type 0 where
  unspecified bad_env inval no_mem no_free_env ipc_not_recv : Error
  no_disk max_open not_found bad_path file_exists not_exec : Error

-- what a function that returns `int` hands back: a value that is not negative, or an error
pub data Ret (A : Type 0) : Type 0 where
  good : A → Ret A
  bad : Error → Ret A

pub record Mm : Type 0 where
  pub npage : ℕ
  pub freemem : ℕ
  pub pp_ref : ℕ → ℕ
  pub page_free_list : Links
  pub mem : ℕ → ℕ
  -- the operands of the TLB invalidations issued, latest first
  pub tlb : List ℕ

abbrev pub inc16 : ℕ → ℕ
inc16 r = (r + 1) % 2 ^ 16

abbrev pub dec16 : ℕ → ℕ
dec16 r = (r + 2 ^ 16 - 1) % 2 ^ 16

abbrev pub clear_words : (ℕ → ℕ) → ℕ → ℕ → ℕ → ℕ
clear_words mem a n b = if leb a b && ltb b (a + n) then 0 else mem b

-- `bzero` of `n` bytes from `a` on
unfoldable pub bzero : ℕ → ℕ → Cmd Mm (Unit {0})
bzero a n = modify λ s. record s { mem = clear_words s.mem a n }

-- `++pp->pp_ref`
unfoldable pub inc_ref : ℕ → Cmd Mm (Unit {0})
inc_ref pp = modify λ s. record s { pp_ref = update s.pp_ref pp (inc16 (s.pp_ref pp)) }

-- `armv7_detect_memory`
unfoldable pub armv7_detect_memory : Cmd Mm (Unit {0})
armv7_detect_memory = modify λ s. record s { npage = dramsize / 2 ^ pgshift }

-- `alloc`, the allocator of the boot: `freemem` has moved when it panics
unfoldable pub alloc : ℕ → ℕ → Bool → Cmd Mm ℕ
unfolding bzero
alloc n align clear = do
  alloced_mem ← gets (λ s. round s.freemem align)
  modify (λ s. record s { freemem = (alloced_mem + n) % word })
  if clear then bzero alloced_mem n else pure tt
  freemem ← gets (λ s. s.freemem)
  if leb dramsize ((freemem + word - ulim) % word) then stop panic else pure alloced_mem

-- the loop of `page_init` over the pages below `freemem`, `n` rounds from page `i` on
unfoldable pub mark_used : ℕ → ℕ → Mm → Mm
mark_used zero i s = s
mark_used (suc n) i s = mark_used n (i + 1) (record s { pp_ref = update s.pp_ref i 1 })

-- one round of its loop over the other pages: every fourth page goes to the free list
unfoldable pub free_round : ℕ → Mm → Mm
free_round i s = record s {
  pp_ref = update s.pp_ref i 0;
  page_free_list = if i % 4 == 0 then insert_head s.page_free_list i else s.page_free_list;
}

unfoldable pub mark_free : ℕ → ℕ → Mm → Mm
mark_free zero i s = s
mark_free (suc n) i s = mark_free n (i + 1) (free_round i s)

-- `page_init`
unfoldable pub page_init : Cmd Mm (Unit {0})
unfolding mark_used mark_free free_round
page_init = modify λ s.
    let freemem = round s.freemem (by2pg * 4) in
    let l = (freemem + word - ulim) % word / 2 ^ pgshift in
    let s' : Mm = record s { page_free_list = Queue.init s.page_free_list; freemem = freemem } in
    mark_free (s.npage - l) l (mark_used l 0 s')

-- `page2kva`, with the panic of `KADDR`
unfoldable pub kva_of_page : ℕ → Cmd Mm ℕ
kva_of_page pp s = elim (page2kva s.npage pp) [ none ↦ stop panic s | some kva ↦ pure kva s ]

-- `LIST_REMOVE(pp, pp_link)`
unfoldable pub unlink_page : ℕ → Cmd Mm (Unit {0})
unlink_page pp s = elim (remove s.page_free_list pp) [
  | none ↦ stop bad_pointer s
  | some l ↦ pure tt (record s { page_free_list = l })
]

-- `page_alloc`: the page that it stores in `*pp`, or `-E_NO_MEM`
unfoldable pub page_alloc : Cmd Mm (Ret ℕ)
unfolding unlink_page kva_of_page bzero
page_alloc s = elim s.page_free_list.first [
  | none ↦ pure (bad no_mem) s
  | some pp ↦ (do unlink_page pp; kva ← kva_of_page pp; bzero kva by2pg; pure (good pp)) s
]

-- `page_free`; the last branch cannot be reached, since `pp_ref` is unsigned
unfoldable pub page_free : ℕ → Cmd Mm (Unit {0})
page_free pp s =
    if ltb 0 (s.pp_ref pp)
    then pure tt s
    else if s.pp_ref pp == 0
    then pure tt (record s { page_free_list = insert_head s.page_free_list pp })
    else stop panic s

-- `--pp->pp_ref` and the test after it, as `page_decref` and `page_remove` have them
unfoldable pub drop_ref : ℕ → Cmd Mm (Unit {0})
unfolding page_free
drop_ref pp s =
    let s' : Mm = record s { pp_ref = update s.pp_ref pp (dec16 (s.pp_ref pp)) } in
    if s'.pp_ref pp == 0 then page_free pp s' else pure tt s'

-- `page_decref` of a pointer that may be NULL
unfoldable pub page_decref : Option ℕ → Cmd Mm (Unit {0})
unfolding drop_ref
page_decref none = pure tt
page_decref (some pp) = drop_ref pp
