-- ===== src/FdCalls.antt =====
-- user/fd.c: the calls on file descriptors, which go to the devices behind them; with the console
-- of user/console.c and what user/pipe.c has of pipes. The bodies of `piperead` and `pipewrite` are
-- not written in the source: they are parameters, like the file server.
pub mod Reading
pub mod Ends
pub mod Sharing
use jos_buaa_a20_porting.Prelude.{
  ℕ, zero, suc, ◌+◌, ◌-◌, ◌*◌, ◌/◌, ◌%◌, ◌^◌, Bool, true, false, not, ◌&&◌, ◌||◌, Option, none,
  some, List, [], ◌∷◌, leb, ltb, ◌==◌, if◌then◌else◌, min, Cmd, pure, stop, gets, modify, leave,
  panic, out_of_fuel, ◌>>=◌, ◌>>◌, bit_and, bit_or,
}
use jos_buaa_a20_porting.Mmu.{word, by2pg, pdmap, pte_v, pte_r, pte_library}
use jos_buaa_a20_porting.Mm.{Error, Ret, good, bad, inval}
use jos_buaa_a20_porting.Server.{Filefd, Fd, is_negative}
use jos_buaa_a20_porting.UserMem.{
  User, byte_at, store, filefd_at, set_filefd, va_perm, is_minus, mem_unmap, mem_map, mem_alloc,
}
use jos_buaa_a20_porting.Fds.{
  Device, file, cons, pipe, dev_id, dev_lookup, fd_lookup, fd_alloc, fd_close, fd2data, fd2num,
  index2fd, maxfd,
}
use jos_buaa_a20_porting.FileCalls.{
  Stat, file_read, file_write, file_stat, file_close, open_file, unmap_pages,
}

-- the first character that `syscall_getc` gives, and those behind it
abbrev pub next_char : List ℕ → Option (ℕ × List ℕ)
next_char [] = none
next_char (c ∷ cs) = if c == 0 then next_char cs else some (c, cs)

abbrev pub print_char : ℕ → User → User
print_char c s = record s { printed = c ∷ s.printed }

-- `cons_read` behind the loop that waits for a character
unfoldable pub cons_take : (vbuf c : ℕ) → Cmd User (Ret ℕ)
unfolding store
cons_take vbuf c = do
  modify (print_char (if c == 13 then 10 else c))
  if is_minus c
      then pure (good c)
      else if c == 4
      then pure (good 0)
      else do store vbuf (c % 256); pure (good 1)

-- `cons_read`; without a character it waits for ever
unfoldable pub cons_read : (fd vbuf n offset : ℕ) → Cmd User (Ret ℕ)
unfolding cons_take
cons_read fd vbuf n offset s = if n == 0 then pure (good 0) s else elim (next_char s.typed) [
  | none ↦ leave s
  | some (c, cs) ↦ cons_take vbuf c (record s { typed = cs })
]

-- `printf("%s", buf)` of the first `m` bytes from `va` on, which ends at a 0
unfoldable pub print_bytes : (m va : ℕ) → Cmd User (Unit {0})
print_bytes zero va s = pure tt s
print_bytes (suc m) va s =
    let rest = print_bytes m ((va + 1) % word) (print_char (byte_at s va) s) in
    if byte_at s va == 0 then pure tt s else rest

-- the loop of `cons_write`, in chunks of 127 bytes
unfoldable pub print_chunks : (rounds vbuf n tot : ℕ) → Cmd User (Unit {0})
unfolding print_bytes
print_chunks zero vbuf n tot = pure tt
print_chunks (suc rounds) vbuf n tot = do
  let m : ℕ = min (n - tot) 127
  print_bytes m ((vbuf + tot) % word)
  print_chunks rounds vbuf n (tot + m)

-- `cons_write`
unfoldable pub cons_write : (fd vbuf n offset : ℕ) → Cmd User (Ret ℕ)
unfolding print_chunks
cons_write fd vbuf n offset = do print_chunks ((n + 126) / 127) vbuf n 0; pure (good n)

-- `opencons` and `iscons`
unfoldable pub opencons : Cmd User (Ret ℕ)
unfolding fd_alloc mem_alloc fd2num
opencons = do
  a ← gets fd_alloc
  elim a [
    | bad e ↦ pure (bad e)
    | good fd ↦ (do
      r ← mem_alloc fd (bit_or (bit_or pte_v pte_r) pte_library)
      if is_negative r then pure r else do
        modify (
            set_filefd fd
              (λ f. record f { f_fd = record f.f_fd { fd_dev_id = dev_id cons; fd_omode = 2 } }))
        pure (good (fd2num fd)))
  ]

unfoldable pub iscons : (fdnum : ℕ) → User → Ret Bool
unfolding fd_lookup
iscons fdnum s = elim (fd_lookup fdnum s) [
  | bad e ↦ bad e
  | good fd ↦ good ((filefd_at s fd).f_fd.fd_dev_id == dev_id cons)
]

-- a word of memory, as `p_rpos` and `p_wpos` of a pipe
abbrev pub word_at : User → ℕ → ℕ
word_at s va =
    byte_at s va
    + 2 ^ 8 * byte_at s (va + 1)
    + 2 ^ 16 * byte_at s (va + 2)
    + 2 ^ 24 * byte_at s (va + 3)

-- `pipestat` and `pipeclose`
unfoldable pub pipestat : (fd : ℕ) → User → Stat → Stat
unfolding fd2data
pipestat fd s st = record st {
  st_name = 60 ∷ 112 ∷ 105 ∷ 112 ∷ 101 ∷ 62 ∷ [];
  st_size = (word_at s (fd2data fd + 4) + word - word_at s (fd2data fd)) % word;
  st_isdir = false;
  st_dev = dev_id pipe;
}

unfoldable pub pipeclose : (fd : ℕ) → Cmd User (Ret ℕ)
unfolding fd2data mem_unmap
pipeclose fd = do r ← mem_unmap (fd2data fd); pure (good 0)

-- `dev_stat` of a device; `cons_stat` sets the name only
abbrev pub dev_stat : Device → (fd : ℕ) → User → Stat → Stat
dev_stat file fd s st = file_stat fd s st
dev_stat cons fd s st = record st { st_name = 60 ∷ 99 ∷ 111 ∷ 110 ∷ 115 ∷ 62 ∷ [] }
dev_stat pipe fd s st = pipestat fd s st

-- the descriptor and its device, where a call finds both
unfoldable pub find_fd : (fdnum : ℕ) → User → Ret (ℕ × Device)
unfolding fd_lookup dev_lookup
find_fd fdnum s = elim (fd_lookup fdnum s) [
  | bad e ↦ bad e
  | good fd ↦ elim (dev_lookup (filefd_at s fd).f_fd.fd_dev_id) [
    | bad e ↦ bad e
    | good d ↦ good (fd, d)
  ]
]

abbrev pub set_offset : (offset : ℕ) → Filefd → Filefd
set_offset offset f = record f { f_fd = record f.f_fd { fd_offset = offset } }

-- `fd->fd_omode & O_ACCMODE`
abbrev pub access : User → ℕ → ℕ
access s fd = bit_and (filefd_at s fd).f_fd.fd_omode 3

abbrev pub offset_of : User → ℕ → ℕ
offset_of s fd = (filefd_at s fd).f_fd.fd_offset

-- `fd->fd_offset += r`
abbrev pub advance : (fd r : ℕ) → User → User
advance fd r s = set_filefd fd (set_offset ((offset_of s fd + r) % word)) s

-- `seek`
unfoldable pub seek : (fdnum offset : ℕ) → Cmd User (Ret ℕ)
unfolding fd_lookup
seek fdnum offset = do
  l ← gets (fd_lookup fdnum)
  elim l [
    | bad e ↦ pure (bad e)
    | good fd ↦ (do modify (set_filefd fd (set_offset offset)); pure (good 0))
  ]

-- `fstat`; the caller has `stat` set before it is called
unfoldable pub fstat : (fdnum : ℕ) → User → Ret Stat
unfolding find_fd pipestat file_stat
fstat fdnum s = elim (find_fd fdnum s) [
  | bad e ↦ bad e
  | good (fd, d) ↦
      good (
        dev_stat d fd s (record { st_name = []; st_size = 0; st_isdir = false; st_dev = dev_id d }))
]

-- the loop of `dup` over `n` pages of data from offset `i` on
unfoldable pub dup_pages : (ova nva n i : ℕ) → Cmd User (Ret ℕ)
unfolding mem_map
dup_pages ova nva zero i = pure (good 0)
dup_pages ova nva (suc n) i = do
  perm ← gets (λ s. va_perm s ((ova + i) % word))
  if is_minus perm then pure (bad inval) else do
    r ←
        (if bit_and perm pte_v == pte_v
          then mem_map ((ova + i) % word) ((nva + i) % word) perm
          else pure (good 0))
    if is_negative r then pure r else dup_pages ova nva n (i + by2pg)

-- the cleaning up of `dup`, which does not test the results
unfoldable pub undo_dup : (nva n i : ℕ) → Cmd User (Unit {0})
unfolding mem_unmap
undo_dup nva zero i = pure tt
undo_dup nva (suc n) i = do r ← mem_unmap ((nva + i) % word); undo_dup nva n (i + by2pg)

-- the end of `read`: the offset moves on, and a 0 is put behind the bytes
unfoldable pub read_end : (fd buf : ℕ) → Ret ℕ → Cmd User (Ret ℕ)
unfolding store
read_end fd buf (bad e) = pure (bad e)
read_end fd buf (good r) =
    if is_minus r
    then pure (good r)
    else do modify (advance fd r); store ((buf + r) % word) 0; pure (good r)

-- the end of `write`
unfoldable pub write_end : (fd : ℕ) → Ret ℕ → Cmd User (Ret ℕ)
write_end fd (bad e) = pure (bad e)
write_end fd (good r) =
    if is_minus r || r == 0 then pure (good r) else do modify (advance fd r); pure (good r)

-- what the loop of `readn` does after `read`: it returns an error, ends, or goes on
unfoldable pub readn_next : (again : ℕ → Cmd User (Ret ℕ)) → (tot : ℕ) → Ret ℕ → Cmd User (Ret ℕ)
readn_next again tot (bad e) = pure (bad e)
readn_next again tot (good m) =
    if is_minus m then pure (good m) else if m == 0 then pure (good tot) else again m

module _ (server : (req : ℕ) → (page : ℕ → ℕ) → (dstva : ℕ) → Cmd User (Ret ℕ × ℕ))
    (piperead pipewrite : (fd buf n offset : ℕ) → Cmd User (Ret ℕ)) where
  abbrev pub dev_read : Device → (fd buf n offset : ℕ) → Cmd User (Ret ℕ)
  dev_read file = file_read
  dev_read cons = cons_read
  dev_read pipe = piperead

  abbrev pub dev_write : Device → (fd buf n offset : ℕ) → Cmd User (Ret ℕ)
  dev_write file = file_write server
  dev_write cons = cons_write
  dev_write pipe = pipewrite

  abbrev pub dev_close : Device → (fd : ℕ) → Cmd User (Ret ℕ)
  dev_close file = file_close server
  dev_close cons = λ fd. pure (good 0)
  dev_close pipe = pipeclose

  -- `close`
  unfoldable pub close : (fdnum : ℕ) → Cmd User (Ret ℕ)
  close fdnum = do
    l ← gets (find_fd fdnum)
    elim l [ bad e ↦ pure (bad e) | good (fd, d) ↦ (do r ← dev_close d fd; fd_close fd; pure r) ]

  -- the loop of `close_all`
  unfoldable pub close_loop : (n i : ℕ) → Cmd User (Unit {0})
  unfolding close
  close_loop zero i = pure tt
  close_loop (suc n) i = do r ← close i; close_loop n (i + 1)

  -- `close_all`
  unfoldable pub close_all : Cmd User (Unit {0})
  unfolding close_loop
  close_all = close_loop maxfd 0

  -- `dup`
  unfoldable pub dup : (oldfdnum newfdnum : ℕ) → Cmd User (Ret ℕ)
  dup oldfdnum newfdnum = do
    l ← gets (fd_lookup oldfdnum)
    elim l [
      | bad e ↦ pure (bad e)
      | good oldfd ↦ (do
        c ← close newfdnum
        let newfd : ℕ = index2fd newfdnum
        r ← dup_pages (fd2data oldfd) (fd2data newfd) (pdmap / by2pg) 0
        perm ← gets (λ s. va_perm s oldfd)
        r' ← (if is_negative r then pure r else mem_map oldfd newfd perm)
        if is_negative r'
            then (do u ← mem_unmap newfd; undo_dup (fd2data newfd) (pdmap / by2pg) 0; pure r')
            else pure (good newfdnum))
    ]

  -- `read`
  unfoldable pub read : (fdnum buf n : ℕ) → Cmd User (Ret ℕ)
  unfolding find_fd
  read fdnum buf n = do
    l ← gets (find_fd fdnum)
    elim l [
      | bad e ↦ pure (bad e)
      | good (fd, d) ↦ (do
        mode ← gets (λ s. access s fd)
        offset ← gets (λ s. offset_of s fd)
        if mode == 1
            then pure (bad inval)
            else do r ← dev_read d fd buf n offset; read_end fd buf r)
    ]

  -- the loop of `readn`
  unfoldable pub readn_loop : (fuel fdnum buf n tot : ℕ) → Cmd User (Ret ℕ)
  unfolding read readn_next
  readn_loop zero fdnum buf n tot = stop out_of_fuel
  readn_loop (suc fuel) fdnum buf n tot = if not (ltb tot n) then pure (good tot) else do
    m ← read fdnum ((buf + tot) % word) (n - tot)
    readn_next (λ m. readn_loop fuel fdnum buf n (tot + m)) tot m

  -- `readn`
  unfoldable pub readn : (fdnum buf n : ℕ) → Cmd User (Ret ℕ)
  unfolding readn_loop
  readn fdnum buf n = readn_loop (n + 1) fdnum buf n 0

  -- `write`
  unfoldable pub write : (fdnum buf n : ℕ) → Cmd User (Ret ℕ)
  unfolding find_fd
  write fdnum buf n = do
    l ← gets (find_fd fdnum)
    elim l [
      | bad e ↦ pure (bad e)
      | good (fd, d) ↦ (do
        mode ← gets (λ s. access s fd)
        offset ← gets (λ s. offset_of s fd)
        if mode == 0 then pure (bad inval) else do r ← dev_write d fd buf n offset; write_end fd r)
    ]

  -- `stat`: its `int`, and what it stores in `*stat`
  unfoldable pub stat : (path : List ℕ) → Cmd User (Ret ℕ × Option Stat)
  unfolding open_file fstat close
  stat path = do
    fd ← open_file server path 0
    elim fd [
      | bad e ↦ pure (bad e, none)
      | good fdnum ↦ if is_minus fdnum then pure (good fdnum, none) else do
        r ← gets (fstat fdnum)
        c ← close fdnum
        elim r [ bad e ↦ pure (bad e, none) | good st ↦ pure (good 0, some st) ]
    ]
