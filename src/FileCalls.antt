-- ===== src/FileCalls.antt =====
-- user/fsipc.c and user/file.c: the requests to the file server, and the calls on files. The file
-- server is a parameter: for a request code, the page with the request and the address at which a
-- page is to come it gives the value of the answer and the permissions of the page. A path is the
-- list of its characters.
pub mod Encode
pub mod Served
pub mod Truncate
use jos_buaa_a20_porting.Prelude.{
  ℕ, zero, suc, ◌+◌, ◌-◌, ◌*◌, ◌/◌, ◌%◌, ◌^◌, Bool, true, false, not, ◌||◌, List, [], ◌∷◌, leb, ltb,
  ◌==◌, if◌then◌else◌, length, Cmd, pure, stop, gets, modify, panic, ◌>>=◌, ◌>>◌, bit_and,
}
use jos_buaa_a20_porting.Mmu.{word, by2pg, pte_v, round}
use jos_buaa_a20_porting.Mm.{Error, Ret, good, bad, inval, bad_path, no_disk}
use jos_buaa_a20_porting.Queue.{update}
use jos_buaa_a20_porting.Blocks.{File}
use jos_buaa_a20_porting.Server.{Filefd, Fd, maxpathlen, is_negative}
use jos_buaa_a20_porting.UserMem.{
  User, filefd_at, set_filefd, va_perm, is_minus, mem_unmap, bcopy, memcpy,
}
use jos_buaa_a20_porting.Fds.{fd_alloc, fd_lookup, fd_close, fd2data, fd2num, dev_id, file}

abbrev pub maxfilesize : ℕ
maxfilesize = 1024 * 4096

-- a word and a string in `fsipcbuf`
abbrev pub put_word : (i v : ℕ) → (ℕ → ℕ) → ℕ → ℕ
put_word i v buf =
    update
      (update (update (update buf i (v % 256)) (i + 1) (v / 2 ^ 8 % 256)) (i + 2)
        (v / 2 ^ 16 % 256))
      (i + 3) (v / 2 ^ 24 % 256)

unfoldable pub put_string : (i : ℕ) → List ℕ → (ℕ → ℕ) → ℕ → ℕ
put_string i [] buf = update buf i 0
put_string i (c ∷ path) buf = put_string (i + 1) path (update buf i c)

abbrev pub set_buf : ((ℕ → ℕ) → ℕ → ℕ) → User → User
set_buf g s = record s { fsipcbuf = g s.fsipcbuf }

-- the loops `for (i = 0; i < size; i += BY2PG)` have this many rounds
abbrev pub pages_of : ℕ → ℕ
pages_of size = (size + by2pg - 1) / by2pg

-- `struct Stat`, with the identifier of the device
pub record Stat : Type 0 where
  pub st_name : List ℕ
  pub st_size : ℕ
  pub st_isdir : Bool
  pub st_dev : ℕ

-- `file_read`: at most what is left of the file
unfoldable pub file_read : (fd buf n offset : ℕ) → Cmd User (Ret ℕ)
unfolding fd2data memcpy
file_read fd buf n offset = do
  size ← gets (λ s. (filefd_at s fd).f_file.f_size)
  let n' : ℕ = if ltb size ((offset + n) % word) then size - offset else n
  if ltb size offset
      then pure (good 0)
      else do bcopy ((fd2data fd + offset) % word) buf n'; pure (good n')

-- `file_stat`
unfoldable pub file_stat : (fd : ℕ) → User → Stat → Stat
file_stat fd s st =
    let f : File = (filefd_at s fd).f_file in
    record st { st_name = f.f_name; st_size = f.f_size; st_isdir = f.f_type == 1 }

-- the second loop of `file_close`, and the last one of `ftruncate`
unfoldable pub unmap_pages : (va n i : ℕ) → Cmd User (Ret ℕ)
unfolding mem_unmap
unmap_pages va zero i = pure (good 0)
unmap_pages va (suc n) i = do
  r ← mem_unmap ((va + i) % word)
  if is_negative r then pure r else unmap_pages va n ((i + by2pg) % word)

abbrev pub set_size : (size : ℕ) → Filefd → Filefd
set_size size f = record f { f_file = record f.f_file { f_size = size } }

module _ (server : (req : ℕ) → (page : ℕ → ℕ) → (dstva : ℕ) → Cmd User (Ret ℕ × ℕ)) where
  -- `fsipc`
  unfoldable pub fsipc : (type dstva : ℕ) → Cmd User (Ret ℕ × ℕ)
  fsipc type dstva = do buf ← gets (λ s. s.fsipcbuf); server type buf dstva

  -- a request whose page of an answer does not matter
  abbrev pub ask : (type : ℕ) → Cmd User (Ret ℕ)
  ask type = do (r, perm) ← fsipc type 0; pure r

  -- `fsipc_open`
  unfoldable pub fsipc_open : (path : List ℕ) → (omode fd : ℕ) → Cmd User (Ret ℕ)
  unfolding fsipc
  fsipc_open path omode fd = if leb maxpathlen (length path) then pure (bad bad_path) else do
    modify (set_buf (put_string 0 path))
    modify (set_buf (put_word maxpathlen omode))
    (r, perm) ← fsipc 1 fd
    pure r

  -- `fsipc_map`
  unfoldable pub fsipc_map : (fileid offset dstva : ℕ) → Cmd User (Ret ℕ)
  unfolding fsipc
  fsipc_map fileid offset dstva = do
    modify (set_buf (put_word 0 fileid))
    modify (set_buf (put_word 4 offset))
    (r, perm) ← fsipc 2 dstva
    if is_negative r
        then pure r
        else if bit_and perm pte_v == pte_v
        then pure (good 0)
        else stop panic

  -- `fsipc_set_size`
  unfoldable pub fsipc_set_size : (fileid size : ℕ) → Cmd User (Ret ℕ)
  unfolding fsipc
  fsipc_set_size fileid size = do
    modify (set_buf (put_word 0 fileid))
    modify (set_buf (put_word 4 size))
    ask 3

  -- `fsipc_close`
  unfoldable pub fsipc_close : (fileid : ℕ) → Cmd User (Ret ℕ)
  unfolding fsipc
  fsipc_close fileid = do modify (set_buf (put_word 0 fileid)); ask 4

  -- `fsipc_dirty`
  unfoldable pub fsipc_dirty : (fileid offset : ℕ) → Cmd User (Ret ℕ)
  unfolding fsipc
  fsipc_dirty fileid offset = do
    modify (set_buf (put_word 0 fileid))
    modify (set_buf (put_word 4 offset))
    ask 5

  -- `fsipc_remove`, and `remove`, which calls it
  unfoldable pub fsipc_remove : (path : List ℕ) → Cmd User (Ret ℕ)
  unfolding fsipc
  fsipc_remove path =
      if leb maxpathlen (length path)
      then pure (bad bad_path)
      else do modify (set_buf (put_string 0 path)); ask 6

  -- `fsipc_sync`, and `sync`, which calls it
  unfoldable pub fsipc_sync : Cmd User (Ret ℕ)
  unfolding fsipc
  fsipc_sync = ask 7

  -- a loop that maps `n` pages of a file from offset `i` on to the addresses behind `va`
  unfoldable pub map_pages : (fileid va n i : ℕ) → Cmd User (Ret ℕ)
  unfolding fsipc_map
  map_pages fileid va zero i = pure (good 0)
  map_pages fileid va (suc n) i = do
    r ← fsipc_map fileid i ((va + i) % word)
    if is_negative r then pure r else map_pages fileid va n ((i + by2pg) % word)

  -- `open`; where a page cannot be mapped the descriptor stays
  unfoldable pub open_file : (path : List ℕ) → (mode : ℕ) → Cmd User (Ret ℕ)
  unfolding fd_alloc fsipc_open fd_close map_pages fd2data fd2num
  open_file path mode = do
    a ← gets fd_alloc
    elim a [
      | bad e ↦ pure (bad e)
      | good fd ↦ (do
        r ← fsipc_open path mode fd
        if is_negative r then (do fd_close fd; pure r) else do
          ffd ← gets (λ s. filefd_at s fd)
          m ← map_pages ffd.f_fileid (fd2data fd) (pages_of ffd.f_file.f_size) 0
          if is_negative m then pure m else pure (good (fd2num fd)))
    ]

  -- the first loop of `file_close`: the server is told of every page
  unfoldable pub dirty_pages : (fileid n i : ℕ) → Cmd User (Unit {0})
  unfolding fsipc_dirty
  dirty_pages fileid zero i = pure tt
  dirty_pages fileid (suc n) i = do
    r ← fsipc_dirty fileid i
    dirty_pages fileid n ((i + by2pg) % word)

  -- `file_close`
  unfoldable pub file_close : (fd : ℕ) → Cmd User (Ret ℕ)
  unfolding fd2data dirty_pages unmap_pages fsipc_close
  file_close fd = do
    ffd ← gets (λ s. filefd_at s fd)
    let size : ℕ = ffd.f_file.f_size
    dirty_pages ffd.f_fileid (pages_of size) 0
    r ← fsipc_close ffd.f_fileid
    if is_negative r
        then pure r
        else if size == 0
        then pure (good 0)
        else unmap_pages (fd2data fd) (pages_of size) 0

  -- the end of `ftruncate`, behind the request: pages are mapped, or unmapped
  unfoldable pub resize : (fileid va oldsize size : ℕ) → Cmd User (Ret ℕ)
  unfolding map_pages unmap_pages fsipc_set_size
  resize fileid va oldsize size = do
    let old : ℕ = round oldsize by2pg
    let new : ℕ = round size by2pg
    m ← map_pages fileid va ((new - old) / by2pg) old
    if is_negative m then (do r ← fsipc_set_size fileid oldsize; pure m) else do
      u ← unmap_pages va ((old - new) / by2pg) new
      if is_negative u then stop panic else pure (good 0)

  -- `ftruncate`
  unfoldable pub ftruncate : (fdnum size : ℕ) → Cmd User (Ret ℕ)
  unfolding fd_lookup fd2data fsipc_set_size resize
  ftruncate fdnum size = if ltb maxfilesize size then pure (bad no_disk) else do
    l ← gets (fd_lookup fdnum)
    elim l [
      | bad e ↦ pure (bad e)
      | good fd ↦ (do
        f ← gets (λ s. filefd_at s fd)
        if not (f.f_fd.fd_dev_id == dev_id file) then pure (bad inval) else do
          modify (set_filefd fd (set_size size))
          r ← fsipc_set_size f.f_fileid size
          if is_negative r then pure r else resize f.f_fileid (fd2data fd) f.f_file.f_size size)
    ]

  -- `file_write`
  unfoldable pub file_write : (fd buf n offset : ℕ) → Cmd User (Ret ℕ)
  unfolding ftruncate fd2num fd2data memcpy
  file_write fd buf n offset = do
    let tot : ℕ = (offset + n) % word
    size ← gets (λ s. (filefd_at s fd).f_file.f_size)
    if ltb maxfilesize tot then pure (bad no_disk) else do
      r ← (if ltb size tot then ftruncate (fd2num fd) tot else pure (good 0))
      if is_negative r then pure r else do bcopy buf ((fd2data fd + offset) % word) n; pure (good n)

-- `read_map`: the address that it stores in `*blk`
unfoldable pub read_map : (fdnum offset : ℕ) → User → Ret ℕ
unfolding fd_lookup fd2data
read_map fdnum offset s = elim (fd_lookup fdnum s) [
  | bad e ↦ bad e
  | good fd ↦
      let va = (fd2data fd + offset) % word in
      if not ((filefd_at s fd).f_fd.fd_dev_id == dev_id file)
      then bad inval
      else if leb maxfilesize offset
      then bad no_disk
      else if va_perm s va == 0 || is_minus (va_perm s va)
      then bad no_disk
      else good va
]
