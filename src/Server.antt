-- ===== src/Server.antt =====
-- fs/serv.c: the table of open files, and the requests that the file server answers.
-- The server keeps the state of the file system and, for each entry of `opentab`, the page of
-- its `struct Filefd`, whose references the clients share. A message carries a page: its bytes,
-- from which the handlers take words and a path. An answer of `ipc_send` is recorded.
pub mod Entries
pub mod Fresh
pub mod Requests
pub mod Answers
pub mod Opening
pub mod Held
use jos_buaa_a20_porting.Prelude.{
  ℕ, zero, suc, ◌+◌, ◌-◌, ◌*◌, ◌/◌, ◌%◌, ◌^◌, Bool, true, false, not, ◌||◌, Option, none, some,
  List, [], ◌∷◌, leb, ltb, ◌==◌, if◌then◌else◌, Cmd, pure, stop, gets, modify, lift, panic,
  bad_pointer, ◌>>=◌, ◌>>◌, bit_and, bit_or,
}
use jos_buaa_a20_porting.Mmu.{word, by2pg, pte_v, pte_r, pte_library}
use jos_buaa_a20_porting.Mm.{Error, Ret, good, bad, no_mem, max_open, inval}
use jos_buaa_a20_porting.Queue.{update}
use jos_buaa_a20_porting.Blocks.{File, Fs, blank, by2blk, fs_sync}
use jos_buaa_a20_porting.Files.{nindirect, file_get_block, file_dirty, file_set_size, file_close}
use jos_buaa_a20_porting.Paths.{file_open, file_remove}

abbrev pub maxopen : ℕ
maxopen = 1024

abbrev pub fileva : ℕ
fileva = 0x60000000

abbrev pub maxpathlen : ℕ
maxpathlen = 1024

-- `struct Open`
pub record Open : Type 0 where
  pub o_file : Option ℕ
  pub o_fileid : ℕ
  pub o_mode : ℕ
  pub o_ff : ℕ

-- `struct Fd`, and `struct Filefd`, which starts with one
pub record Fd : Type 0 where
  pub fd_dev_id : ℕ
  pub fd_offset : ℕ
  pub fd_omode : ℕ

pub record Filefd : Type 0 where
  pub f_fd : Fd
  pub f_fileid : ℕ
  pub f_file : File

abbrev pub blank_fd : Fd
blank_fd = record { fd_dev_id = 0; fd_offset = 0; fd_omode = 0 }

abbrev pub blank_filefd : Filefd
blank_filefd = record { f_fd = blank_fd; f_fileid = 0; f_file = blank }

-- what `ipc_send` sends
pub record Answer : Type 0 where
  pub whom : ℕ
  pub value : Ret ℕ
  pub srcva : ℕ
  pub perm : ℕ

pub record Serv : Type 0 where
  pub fs : Fs
  pub opentab : ℕ → Open
  -- the references of the page at an address, 0 where there is none, and the `Filefd` in it
  pub refs : ℕ → ℕ
  pub filefd : ℕ → Filefd
  -- latest first
  pub answers : List Answer
  -- what the variable `o` of `serve_open` holds before it is set: the entry that it happens to point
  -- to, or none where it points to no entry and the write through it is taken to fault
  pub unset : Option ℕ

abbrev pub in_fs : {A : Type 0} → Cmd Fs A → Cmd Serv A
in_fs m s = lift (m s.fs) (λ t. record s { fs = t })

abbrev pub set_open : (i : ℕ) → (Open → Open) → Serv → Serv
set_open i g s = record s { opentab = update s.opentab i (g (s.opentab i)) }

-- `ipc_send`
abbrev pub ipc_send : (whom : ℕ) → (value : Ret ℕ) → (srcva perm : ℕ) → Cmd Serv (Unit {0})
ipc_send whom value srcva perm = modify λ s. record s {
  answers = record { whom = whom; value = value; srcva = srcva; perm = perm } ∷ s.answers;
}

-- the loop of `serve_init`
unfoldable pub init_open : (n i va : ℕ) → Cmd Serv (Unit {0})
init_open zero i va = pure tt
init_open (suc n) i va = do
  modify (set_open i (λ o. record o { o_fileid = i; o_ff = va }))
  init_open n (i + 1) ((va + by2pg) % word)

-- `serve_init`
unfoldable pub serve_init : Cmd Serv (Unit {0})
unfolding init_open
serve_init = init_open maxopen 0 fileva

-- `syscall_mem_alloc` of the page of an entry
unfoldable pub alloc_filefd : ℕ → Cmd Serv (Ret ℕ)
alloc_filefd va s = elim s.fs.room [
  | zero ↦ pure (bad no_mem) s
  | suc n ↦ pure (good 0) (record s { fs = record s.fs { room = n }; refs = update s.refs va 1 })
]

-- the case of one reference in `open_alloc`: the entry gets a new identifier, and its page is
-- cleared
unfoldable pub renew : ℕ → Cmd Serv (Ret ℕ)
renew i = do
  modify (set_open i (λ o. record o { o_fileid = (o.o_fileid + maxopen) % word }))
  modify (λ s. record s { filefd = update s.filefd (s.opentab i).o_ff blank_filefd })
  gets (λ s. good (s.opentab i).o_fileid)

-- the case of no page, which falls through to that of one reference
unfoldable pub renew_fresh : ℕ → Cmd Serv (Ret ℕ)
unfolding alloc_filefd renew
renew_fresh i = do
  va ← gets (λ s. (s.opentab i).o_ff)
  r ← alloc_filefd va
  elim r [ bad e ↦ pure (bad e) | good _ ↦ renew i ]

-- the loop of `open_alloc` over `n` entries from `i` on: the entry that it stores in `*o`, if
-- any, and the result
unfoldable pub alloc_open : (n i : ℕ) → Cmd Serv (Option ℕ × Ret ℕ)
unfolding renew renew_fresh
alloc_open zero i s = pure (none, bad max_open) s
alloc_open (suc n) i s =
    let ref = s.refs (s.opentab i).o_ff in
    let rest = alloc_open n (i + 1) s in
    if ref == 0
    then (do
      r ← renew_fresh i
      elim r [ bad e ↦ pure (none, bad e) | good id ↦ pure (some i, good id) ])
        s
    else if ref == 1
    then (do r ← renew i; pure (some i, r)) s
    else rest

-- `open_alloc`
unfoldable pub open_alloc : Cmd Serv (Option ℕ × Ret ℕ)
unfolding alloc_open
open_alloc = alloc_open maxopen 0

-- the test of `open_lookup`
abbrev pub is_invalid : Serv → ℕ → Bool
is_invalid s fileid =
    s.refs (s.opentab (fileid % maxopen)).o_ff == 1
    || not ((s.opentab (fileid % maxopen)).o_fileid == fileid)

-- `open_lookup`: the entry that it stores in `*po`
unfoldable pub open_lookup : (fileid : ℕ) → Cmd Serv (Ret ℕ)
open_lookup fileid s =
    if is_invalid s fileid then pure (bad inval) s else pure (good (fileid % maxopen)) s

-- the page of a request: a word of it, and the string from byte `i` on, which ends at a 0 or
-- within `n` bytes
abbrev pub req_word : (ℕ → ℕ) → ℕ → ℕ
req_word page i = page i + 2 ^ 8 * page (i + 1) + 2 ^ 16 * page (i + 2) + 2 ^ 24 * page (i + 3)

unfoldable pub req_string : (page : ℕ → ℕ) → (n i : ℕ) → List ℕ
req_string page zero i = []
req_string page (suc n) i = if page i == 0 then [] else page i ∷ req_string page n (i + 1)

-- the path that a handler copies, with the 0 that it puts at its end
abbrev pub req_path : (ℕ → ℕ) → List ℕ
req_path page = req_string page (maxpathlen - 1) 0

-- an `int` result is tested by `< 0`
abbrev pub is_negative : Ret ℕ → Bool
is_negative (bad e) = true
is_negative (good r) = leb (2 ^ 31) r

-- `if (r < 0) ipc_send(envid, r, 0, 0)`, with no return behind it
abbrev pub report : (whom : ℕ) → Ret ℕ → Cmd Serv (Unit {0})
report whom r = if is_negative r then ipc_send whom r 0 0 else pure tt

-- the `int` that a function returns which stores its value through a pointer
abbrev pub status : Ret ℕ → Ret ℕ
status (bad e) = bad e
status (good v) = good 0

abbrev pub shared_perm : ℕ
shared_perm = bit_or (bit_or pte_v pte_r) pte_library

-- the entry behind `o`, where `open_alloc` may not have set it
abbrev pub or_unset : Option ℕ → Option ℕ → Option ℕ
or_unset none unset = unset
or_unset (some i) unset = some i

-- the end of `serve_open`: `f` is NULL after an error
unfoldable pub fill_open :
    (whom : ℕ) → (o : Option ℕ) → (f : Ret ℕ) → (omode : ℕ) → Cmd Serv (Unit {0})
fill_open whom none f omode = stop bad_pointer
fill_open whom (some i) (bad e) omode = stop bad_pointer
fill_open whom (some i) (good f) omode = do
  modify (set_open i (λ o. record o { o_file = some f; o_mode = omode }))
  o ← gets (λ s. s.opentab i)
  modify (λ s. record s {
    filefd = update s.filefd o.o_ff (record {
      f_fd = record (s.filefd o.o_ff).f_fd { fd_omode = omode; fd_dev_id = 102 };
      f_fileid = o.o_fileid;
      f_file = s.fs.node f;
    });
  })
  ipc_send whom (good 0) o.o_ff shared_perm

-- `serve_open`
unfoldable pub serve_open : (whom : ℕ) → (page : ℕ → ℕ) → Cmd Serv (Unit {0})
serve_open whom page = do
  unset ← gets (λ s. s.unset)
  (o, r) ← open_alloc
  report whom r
  f ← in_fs (file_open (req_path page))
  report whom (status f)
  fill_open whom (or_unset o unset) f (req_word page maxpathlen)

-- the end of a handler: an error is sent back, or 0 with the page at an address
abbrev pub send_result :
    {A : Type 0} (whom : ℕ) → (srcva : A → ℕ) → (perm : ℕ) → Ret A → Cmd Serv (Unit {0})
send_result whom srcva perm (bad e) = ipc_send whom (bad e) 0 0
send_result whom srcva perm (good v) = ipc_send whom (good 0) (srcva v) perm

-- what a handler does with its file: `then_serve`, or `null` with the NULL of an entry that was
-- never opened
abbrev pub on_file :
    (null : Cmd Serv (Unit {0}))
    → (then_serve : ℕ → Cmd Serv (Unit {0})) → Option ℕ
    → Cmd Serv (Unit {0})
on_file null then_serve none = null
on_file null then_serve (some f) = then_serve f

-- a handler that looks its file up
abbrev pub with_file :
    (whom fileid : ℕ)
    → (null : Cmd Serv (Unit {0})) → (then_serve : ℕ → Cmd Serv (Unit {0})) → Cmd Serv (Unit {0})
with_file whom fileid null then_serve = do
  r ← open_lookup fileid
  elim r [
    | bad e ↦ ipc_send whom (bad e) 0 0
    | good i ↦ (do f ← gets (λ s. (s.opentab i).o_file); on_file null then_serve f)
  ]

-- `file_block_walk` of the NULL file refuses a number past the last block before it reads the file
abbrev pub null_block : (whom filebno : ℕ) → Cmd Serv (Unit {0})
null_block whom filebno =
    if leb nindirect filebno then ipc_send whom (bad inval) 0 0 else stop bad_pointer

-- `serve_map`
unfoldable pub serve_map : (whom : ℕ) → (page : ℕ → ℕ) → Cmd Serv (Unit {0})
unfolding open_lookup
serve_map whom page =
    with_file whom (req_word page 0) (null_block whom (req_word page 4 / by2blk)) λ f. do
      r ← in_fs (file_get_block f (req_word page 4 / by2blk))
      send_result whom (λ blk. blk) shared_perm r

-- `serve_set_size`
unfoldable pub serve_set_size : (whom : ℕ) → (page : ℕ → ℕ) → Cmd Serv (Unit {0})
unfolding open_lookup
serve_set_size whom page =
    with_file whom (req_word page 0) (stop bad_pointer)
      λ f. do r ← in_fs (file_set_size f (req_word page 4)); send_result whom (λ _. 0) 0 r

-- `serve_close`
unfoldable pub serve_close : (whom : ℕ) → (page : ℕ → ℕ) → Cmd Serv (Unit {0})
unfolding open_lookup
serve_close whom page =
    with_file whom (req_word page 0) (stop bad_pointer)
      λ f. do in_fs (file_close f); ipc_send whom (good 0) 0 0

-- `serve_remove`
unfoldable pub serve_remove : (whom : ℕ) → (page : ℕ → ℕ) → Cmd Serv (Unit {0})
serve_remove whom page = do r ← in_fs (file_remove (req_path page)); send_result whom (λ _. 0) 0 r

-- `serve_dirty`
unfoldable pub serve_dirty : (whom : ℕ) → (page : ℕ → ℕ) → Cmd Serv (Unit {0})
unfolding open_lookup
serve_dirty whom page =
    with_file whom (req_word page 0) (null_block whom (req_word page 4 / by2blk))
      λ f. do r ← in_fs (file_dirty f (req_word page 4)); send_result whom (λ _. 0) 0 r

-- `serve_sync`
unfoldable pub serve_sync : (whom : ℕ) → Cmd Serv (Unit {0})
serve_sync whom = do in_fs fs_sync; ipc_send whom (good 0) 0 0

-- what `ipc_recv` receives
pub record Message : Type 0 where
  pub req : ℕ
  pub whom : ℕ
  pub perm : ℕ
  pub page : ℕ → ℕ

-- the switch of `serve`
unfoldable pub dispatch : (req whom : ℕ) → (page : ℕ → ℕ) → Cmd Serv (Unit {0})
dispatch req whom page =
    if req == 1
    then serve_open whom page
    else if req == 2
    then serve_map whom page
    else if req == 3
    then serve_set_size whom page
    else if req == 4
    then serve_close whom page
    else if req == 5
    then serve_dirty whom page
    else if req == 6
    then serve_remove whom page
    else if req == 7
    then serve_sync whom
    else pure tt

-- a round of `serve`, for one message
unfoldable pub serve_round : Message → Cmd Serv (Unit {0})
unfolding dispatch
serve_round m = if bit_and m.perm pte_v == 0 then pure tt else dispatch m.req m.whom m.page

-- `serve` over the messages that come
unfoldable pub serve : List Message → Cmd Serv (Unit {0})
unfolding serve_round
serve [] = pure tt
serve (m ∷ ms) = do serve_round m; serve ms
