-- ===== src/Tests/Serving.antt =====
-- The file server with one file held by a client, and messages that it gets.
use jos_buaa_a20_porting.Prelude.{
  List, and_then, pure, ℕ, ◌+◌, ◌*◌, ◌<◌, ◌≡◌, refl, true, false, Option, none, some, [], ◌∷◌,
  arith, ◌==◌, if◌then◌else◌, done, halt, bad_pointer,
}
use jos_buaa_a20_porting.Queue.{update}
use jos_buaa_a20_porting.Mmu.{pte_v}
use jos_buaa_a20_porting.Mm.{Ret, good, bad, inval}
use jos_buaa_a20_porting.Blocks.{Fs, s_nblocks, in_block, fs_sync}
use jos_buaa_a20_porting.Blocks.Start.{check_write_block}
use jos_buaa_a20_porting.Blocks.Smash.{check_write_block-restores}
use jos_buaa_a20_porting.Blocks.Sync.{is_pending, fs_sync-Synced}
use jos_buaa_a20_porting.Paths.{root, file_open, walk_path, walk_names}
use jos_buaa_a20_porting.Server.{
  Serv, Message, blank_filefd, shared_perm, open_alloc, alloc_open, renew, renew_fresh,
  alloc_filefd, open_lookup, serve_map, serve_set_size, serve_close, serve_dirty, dispatch,
  serve_round, req_path, req_string, req_word,
}
use jos_buaa_a20_porting.Server.Fresh.{HasIds, Opened, open_alloc-Opened}
use jos_buaa_a20_porting.Server.{serve}
use jos_buaa_a20_porting.Server.Answers.{receivers, senders, serve-Answered}
use jos_buaa_a20_porting.Server.Opening.{refused_or_null, never_opened-halts}
use jos_buaa_a20_porting.Server.Held.{request, here, next, held_file_found}
use jos_buaa_a20_porting.FileCalls.{fsipc_open}
use jos_buaa_a20_porting.FileCalls.Served.{opening, fsipc_open-serve_round}
use jos_buaa_a20_porting.Tests.Files.{server}
use jos_buaa_a20_porting.Tests.Users.{mute, user}

-- as `serve_init` leaves it, but that a client has the page of entry 0
abbrev serv : Serv
serv = record {
  fs = server;
  opentab = λ i. record { o_file = none; o_fileid = i; o_mode = 0; o_ff = 0x60000000 + i * 4096 };
  refs = λ a. if a == 0x60000000 then 2 else 0;
  filefd = λ _. blank_filefd;
  answers = [];
  unset = none;
}

serv-HasIds : HasIds serv
serv-HasIds = record { ids = λ i hi. omega arith; pages = λ i hi. refl }

-- pages that hold the identifiers 2000 and 5 and no path
abbrev two_thousand : ℕ → ℕ
two_thousand i = if i == 0 then 208 else if i == 1 then 7 else 0

abbrev five : ℕ → ℕ
five i = if i == 0 then 5 else 0

abbrev no_name : ℕ → ℕ
no_name i = 0

-- a request to close a file that is not open
abbrev closing : Message
closing = record { req = 4; whom = 9; perm = pte_v; page = two_thousand }

abbrev refused : Serv
refused = record serv { answers = record { whom = 9; value = bad inval; srcva = 0; perm = 0 } ∷ [] }

closing_runs : serve_round closing serv ≡ done tt refused
unfolding serve_round dispatch serve_close open_lookup
closing_runs = refl

-- the server after `open_alloc`
abbrev opened : Serv
opened = record serv {
  fs = record server { room = 9 };
  opentab = update serv.opentab 1 (record (serv.opentab 1) { o_fileid = 1025 });
  refs = update serv.refs 0x60001000 1;
  filefd = update serv.filefd 0x60001000 blank_filefd;
}

allocation : open_alloc serv ≡ done (some 1, good 1025) opened
unfolding open_alloc alloc_open renew renew_fresh alloc_filefd
allocation = refl

found : file_open (req_path no_name) opened.fs ≡ done (good root) opened.fs
unfolding file_open walk_path req_string walk_names
found = refl

-- a disk block in memory that is not yet on the disk
abbrev edited : Fs
edited = record server { dirty = λ b. b == 2 }

held_file_found_example :
    (open_lookup (serv.opentab 0).o_fileid refused ≡ done (good 0) refused)
    × (refused.opentab 0 ≡ serv.opentab 0)
held_file_found_example =
    held_file_found serv refused 0 (omega arith) serv-HasIds
      (next here (omega arith) (λ e. cc) (request closing closing_runs)) (omega arith)

open_alloc-Opened_example :
    (x : Option ℕ × Ret ℕ) × (t : Serv) × (open_alloc serv ≡ done x t) × Opened serv x t
open_alloc-Opened_example = open_alloc-Opened serv serv-HasIds

never_opened-halts_example :
    (serve_set_size 9 five serv ≡ halt bad_pointer)
    × (serve_close 9 five serv ≡ halt bad_pointer)
    × (serve_map 9 five serv ≡ refused_or_null serv 9 (req_word five 4))
    × (serve_dirty 9 five serv ≡ refused_or_null serv 9 (req_word five 4))
never_opened-halts_example = never_opened-halts serv 9 five (omega arith) refl refl refl

fs_sync-Synced_example :
    (t : Fs) × (fs_sync edited ≡ done tt t)
    × (t.mem ≡ edited.mem)
    × (t.node ≡ edited.node)
    × ((b : ℕ) → b < s_nblocks edited → is_pending t b ≡ false)
    × ((b a : ℕ)
        → b < s_nblocks edited
        → is_pending edited b ≡ true
        → in_block b a ≡ true
        → (t.disk_mem a ≡ edited.mem a) × (t.disk_node a ≡ edited.node a))
    × ((a : ℕ)
        → ((b : ℕ) → b < s_nblocks edited → is_pending edited b ≡ true → in_block b a ≡ false)
        → (t.disk_mem a ≡ edited.disk_mem a) × (t.disk_node a ≡ edited.disk_node a))
fs_sync-Synced_example = fs_sync-Synced edited refl

root_there : file_open [] opened.fs ≡ done (good root) opened.fs
unfolding file_open walk_path walk_names
root_there = refl

fsipc_open-serve_round_example :
    (page : ℕ → ℕ) × (v : Serv) × (fsipc_open mute [] 2 0x5FF01000 user
      ≡ and_then (mute 1 page 0x5FF01000 (record user { fsipcbuf = page })) (λ r. pure r.0))
    × (serve_round (opening 9 pte_v page) serv ≡ done tt v)
    × (v.answers
        ≡ record { whom = 9; value = good 0; srcva = (opened.opentab 1).o_ff; perm = shared_perm }
          ∷ opened.answers)
    × ((v.opentab 1).o_file ≡ some root)
    × ((v.filefd (opened.opentab 1).o_ff).f_fileid ≡ 1025)
    × ((v.filefd (opened.opentab 1).o_ff).f_fd.fd_omode ≡ 2)
    × ((v.filefd (opened.opentab 1).o_ff).f_file ≡ opened.fs.node root)
fsipc_open-serve_round_example =
    fsipc_open-serve_round mute user [] 2 0x5FF01000 9 pte_v serv opened 1 1025 root opened.fs
      (omega arith) tt (omega arith) (ground arith) allocation (omega arith) refl root_there

-- the server before its start, with the super block read
abbrev starting : Fs
starting = record server { bitmap = false; mapped = λ b. b == 1 }

check_write_block-restores_example :
    (t : Fs) × (check_write_block starting ≡ done tt t)
    × (t.super ≡ true)
    × ((a : ℕ)
        → in_block 1 a ≡ true
        → (t.mem a ≡ starting.mem a)
          × (t.node a ≡ starting.node a)
          × (t.disk_mem a ≡ starting.mem a)
          × (t.disk_node a ≡ starting.node a))
    × ((a : ℕ)
        → in_block 1 a ≡ false
        → (t.disk_mem a ≡ starting.disk_mem a) × (t.disk_node a ≡ starting.disk_node a))
    × ((a : ℕ)
        → in_block 0 a ≡ false
        → in_block 1 a ≡ false
        → (t.mem a ≡ starting.mem a) × (t.node a ≡ starting.node a))
check_write_block-restores_example = check_write_block-restores starting 9 refl refl refl refl

-- the same request twice
abbrev both : List Message
both = closing ∷ closing ∷ []

abbrev refused_twice : Serv
refused_twice = record refused {
  answers = record { whom = 9; value = bad inval; srcva = 0; perm = 0 } ∷ refused.answers;
}

both_run : serve both serv ≡ done tt refused_twice
unfolding serve serve_round dispatch serve_close open_lookup
both_run = refl

serve-Answered_example :
    (refused_twice.opentab ≡ serv.opentab)
    × (receivers refused_twice.answers ≡ senders both (receivers serv.answers))
serve-Answered_example =
    serve-Answered both serv refused_twice
      ((ground arith, omega arith, omega arith), ((ground arith, omega arith, omega arith), tt))
      both_run
