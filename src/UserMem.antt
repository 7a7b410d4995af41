-- ===== src/UserMem.antt =====
-- The memory of a user process as its library sees it: the system calls on its own address space
-- (user/syscall_lib.c), and the string routines of user/string.c.
-- A page of the address space is given by its number: its permissions, 0 where nothing is mapped,
-- and the frame that it leads to. Bytes stand at frame * 4096 + offset, so that two addresses may
-- be the same memory. The page of a file descriptor holds a `Filefd`, which stands by its frame, apart
-- from its bytes: the byte operations are those of the code on all other pages. A store to a byte,
-- or a copy of one, that the permissions of the page do not allow stops the process.
pub mod Copy
pub mod Strings
use jos_buaa_a20_porting.Prelude.{
  ℕ, zero, suc, ◌+◌, ◌-◌, ◌*◌, ◌/◌, ◌%◌, ◌^◌, Bool, true, false, not, ◌&&◌, Option, none, some,
  List, [], ◌∷◌, leb, ltb, ◌==◌, if◌then◌else◌, Cmd, pure, stop, bad_pointer, gets, modify, ◌>>=◌,
  ◌>>◌, bit_and, bit_or,
}
use jos_buaa_a20_porting.Mmu.{word, by2pg, utop, ulim, pte_v, pte_r}
use jos_buaa_a20_porting.Mm.{Error, Ret, good, bad, unspecified, inval, no_mem}
use jos_buaa_a20_porting.Queue.{update}
use jos_buaa_a20_porting.Server.{Filefd, blank_filefd}

pub record User : Type 0 where
  pub perm : ℕ → ℕ
  pub frame : ℕ → ℕ
  pub byte : ℕ → ℕ
  pub filefd : ℕ → Filefd
  pub fsipcbuf : ℕ → ℕ
  -- the pages for which the kernel has or can make a page table, and the frames that it can give
  pub can_map : ℕ → Bool
  pub spare : List ℕ
  -- the console: the characters that `syscall_getc` returns, and those printed, latest first
  pub typed : List ℕ
  pub printed : List ℕ

abbrev pub page : ℕ → ℕ
page va = va / by2pg

-- where the byte at an address is
abbrev pub cell : User → ℕ → ℕ
cell s va = s.frame (page va) * by2pg + va % by2pg

abbrev pub byte_at : User → ℕ → ℕ
byte_at s va = s.byte (cell s va)

abbrev pub set_byte : (va v : ℕ) → User → User
set_byte va v s = record s { byte = update s.byte (cell s va) v }

-- what the permissions allow to the process
abbrev pub can_read : User → ℕ → Bool
can_read s va = bit_and (s.perm (page va)) pte_v == pte_v

abbrev pub can_write : User → ℕ → Bool
can_write s va = can_read s va && bit_and (s.perm (page va)) pte_r == pte_r

-- `*p = v` and `*p = *q` on bytes
unfoldable pub store : (va v : ℕ) → Cmd User (Unit {0})
store va v s = if can_write s va then pure tt (set_byte va v s) else stop bad_pointer s

unfoldable pub copy_byte : (dst src : ℕ) → Cmd User (Unit {0})
copy_byte dst src s =
    if can_read s src && can_write s dst
    then pure tt (set_byte dst (byte_at s src) s)
    else stop bad_pointer s

-- `struct Filefd *` and `struct Fd *`
abbrev pub filefd_at : User → ℕ → Filefd
filefd_at s va = s.filefd (s.frame (page va))

abbrev pub set_filefd : (va : ℕ) → (Filefd → Filefd) → User → User
set_filefd va g s = record s { filefd = update s.filefd (s.frame (page va)) (g (filefd_at s va)) }

-- `syscall_va_perm` as the word that it returns
abbrev pub va_perm : User → ℕ → ℕ
va_perm s va = if leb ulim va then word - 3 else s.perm (page va)

-- whether an `int` is negative
abbrev pub is_minus : ℕ → Bool
is_minus n = leb (2 ^ 31) n

-- `syscall_mem_unmap(0, va)`
unfoldable pub mem_unmap : ℕ → Cmd User (Ret ℕ)
mem_unmap va s =
    if leb utop va
    then pure (bad inval) s
    else pure (good 0) (record s { perm = update s.perm (page va) 0 })

-- a page that leads to a frame
abbrev pub enter : (p f perm : ℕ) → User → User
enter p f perm s = record s {
  perm = update s.perm p (bit_or perm pte_v);
  frame = update s.frame p f;
}

-- `syscall_mem_map(0, src, 0, dst, perm)`
unfoldable pub mem_map : (src dst perm : ℕ) → Cmd User (Ret ℕ)
mem_map src dst perm s =
    if leb utop src
    then pure (bad unspecified) s
    else if leb utop dst
    then pure (bad unspecified) s
    else if bit_and perm pte_v == 0
    then pure (bad inval) s
    else if bit_and (s.perm (page src)) pte_v == 0
    then pure (bad unspecified) s
    else if not (s.can_map (page dst))
    then pure (bad no_mem) s
    else pure (good 0) (enter (page dst) (s.frame (page src)) perm s)

-- a new page: a frame of zeros
abbrev pub fresh_page : (va f perm : ℕ) → User → User
fresh_page va f perm s =
    let t : User = enter (page va) f perm s in
    record t {
      filefd = update s.filefd f blank_filefd;
      byte = λ a. if a / by2pg == f then 0 else s.byte a;
    }

-- `syscall_mem_alloc(0, va, perm)`
unfoldable pub mem_alloc : (va perm : ℕ) → Cmd User (Ret ℕ)
mem_alloc va perm s =
    if leb utop va
    then pure (bad unspecified) s
    else if bit_and perm pte_v == 0
    then pure (bad inval) s
    else elim s.spare [
      | [] ↦ pure (bad no_mem) s
      | f ∷ rest ↦
          let t : User = record s { spare = rest } in
          if s.can_map (page va)
          then pure (good 0) (fresh_page va f perm t)
          else pure (bad no_mem) t
    ]

-- `memcpy`, and `bcopy`, which calls it
unfoldable pub memcpy : (n dst src : ℕ) → Cmd User (Unit {0})
unfolding copy_byte
memcpy zero dst src = pure tt
memcpy (suc n) dst src = do copy_byte dst src; memcpy n ((dst + 1) % word) ((src + 1) % word)

abbrev pub bcopy : (src dst n : ℕ) → Cmd User (Unit {0})
bcopy src dst n = memcpy n dst src

-- `memset`
unfoldable pub memset : (n ptr v : ℕ) → Cmd User (Unit {0})
unfolding store
memset zero ptr v = pure tt
memset (suc n) ptr v = do store ptr (v % 256); memset n ((ptr + 1) % word) v

abbrev pub one_more : Option ℕ → Option ℕ
one_more none = none
one_more (some n) = some (n + 1)

-- `strlen`, `strchr` and `strcmp` on the bytes of memory, for strings that end within `n` bytes
unfoldable pub strlen : (n : ℕ) → User → ℕ → Option ℕ
strlen zero s p = none
strlen (suc n) s p =
    let rest = one_more (strlen n s ((p + 1) % word)) in if byte_at s p == 0 then some 0 else rest

unfoldable pub strchr : (n : ℕ) → User → (p c : ℕ) → Option (Option ℕ)
strchr zero s p c = none
strchr (suc n) s p c =
    let rest = strchr n s ((p + 1) % word) c in
    if byte_at s p == 0 then some none else if byte_at s p == c then some (some p) else rest

-- the result of `strcmp`: less, equal or greater
pub data Order : Type 0 where
  less same greater : Order

abbrev pub order : ℕ → ℕ → Order
order a b = if ltb a b then less else if ltb b a then greater else same

unfoldable pub strcmp : (n : ℕ) → User → (p q : ℕ) → Option Order
strcmp zero s p q = none
strcmp (suc n) s p q =
    let rest = strcmp n s ((p + 1) % word) ((q + 1) % word) in
    if not (byte_at s p == 0) && byte_at s p == byte_at s q
    then rest
    else some (order (byte_at s p) (byte_at s q))

-- `strcpy` of a string that ends within `n` bytes; `false` where it goes on
unfoldable pub strcpy : (n dst src : ℕ) → Cmd User Bool
unfolding copy_byte
strcpy zero dst src = pure false
strcpy (suc n) dst src = do
  c ← gets (λ s. byte_at s src)
  copy_byte dst src
  let rest = strcpy n ((dst + 1) % word) ((src + 1) % word)
  if c == 0 then pure true else rest
