-- ===== src/Tests/Users.antt =====
-- A process that has a file of 100 bytes open as descriptor 0, and the string "a" at two addresses.
use jos_buaa_a20_porting.Prelude.{
  ℕ, ◌+◌, ◌-◌, ◌*◌, ◌%◌, ◌^◌, ◌≤◌, ◌<◌, ◌≡◌, ◌⊎◌, inl, inr, refl, true, some, List, [], ◌∷◌, arith,
  ◌==◌, if◌then◌else◌, done, length, Cmd, pure,
}
use jos_buaa_a20_porting.Mmu.{word, by2pg, pdmap}
use jos_buaa_a20_porting.Mm.{Error, Ret, good, bad, inval}
use jos_buaa_a20_porting.Blocks.{blank}
use jos_buaa_a20_porting.Server.{Filefd, blank_filefd}
use jos_buaa_a20_porting.UserMem.{User, page, byte_at, strlen, strcmp}
use jos_buaa_a20_porting.UserMem.Copy.{IsApart, CanCopy, CanStore}
use jos_buaa_a20_porting.UserMem.Strings.{string_at, compare_strings, strcmp-compare_strings}
use jos_buaa_a20_porting.Pipes.{open_pipe}
use jos_buaa_a20_porting.Pipes.Failing.{SamePerms, open_pipe-Undone}
use jos_buaa_a20_porting.Fds.{fdtable, fd_lookup, fd2num, fd2data, index2fd}
use jos_buaa_a20_porting.Fds.Table.{fd_lookup-negative}
use jos_buaa_a20_porting.FileCalls.{read_map}
use jos_buaa_a20_porting.FileCalls.Truncate.{size_at, readable, read_map-overlap}
use jos_buaa_a20_porting.FdCalls.{offset_of, find_fd, read, write, seek, dup}
use jos_buaa_a20_porting.FdCalls.Reading.{IsOpen, ReadOutcome, read-file, write-seek-read}
use jos_buaa_a20_porting.FdCalls.Sharing.{is_whole, data_page, dup-shares}

-- a server that answers 0 to all, and pipes that are at their end
abbrev pub mute : (req : ℕ) → (page : ℕ → ℕ) → (dstva : ℕ) → Cmd User (Ret ℕ × ℕ)
mute req page dstva = pure (good 0, 0)

abbrev empty_pipe : (fd buf n offset : ℕ) → Cmd User (Ret ℕ)
empty_pipe fd buf n offset = pure (good 0)

abbrev a_file : Filefd
a_file = record blank_filefd {
  f_fd = record { fd_dev_id = 102; fd_offset = 0; fd_omode = 2 };
  f_fileid = 1024;
  f_file = record blank { f_size = 100 };
}

abbrev pub user : User
user = record {
  perm = λ p.
      if p == 0x5FF00
      then 0x43A
      else if p == 0x60000
      then 0x43A
      else if p == 0x400
      then 0x43A
      else 0;
  frame = λ p. p;
  byte = λ a. if a == 0x400000 then 97 else if a == 0x400800 then 97 else 0;
  filefd = λ f. if f == 0x5FF00 then a_file else blank_filefd;
  fsipcbuf = λ _. 0;
  can_map = λ _. true;
  spare = [];
  typed = [];
  printed = [];
}

-- the same with a file open as descriptor 1, and with all pages mapped
abbrev two_files : User
two_files = record user {
  perm = λ p. if p == 0x5FF01 then 0x43A else user.perm p;
  filefd = λ f. if f == 0x5FF01 then a_file else user.filefd f;
}

abbrev full : User
full = record user { perm = λ _. 0x43A }

-- "a"
abbrev a_name : List ℕ
a_name = 97 ∷ []

opened : IsOpen user 0 0x5FF00000
unfolding fd_lookup
opened = record { found = refl; is_file = refl; mode = refl }

found_0 : fd_lookup 0 user ≡ good (index2fd 0)
unfolding fd_lookup
found_0 = refl

not_found_1 : find_fd 1 user ≡ bad inval
unfolding find_fd fd_lookup
not_found_1 = refl

both_found :
    (fd_lookup 0 two_files ≡ good (index2fd 0)) × (fd_lookup 1 two_files ≡ good (index2fd 1))
unfolding fd_lookup
both_found = (refl, refl)

small_perm : (p : ℕ) → user.perm p < 2 ^ 31
small_perm p = ground arith

-- memory that is mapped to itself
user-IsApart :
    (n dst src : ℕ)
    → dst + n < word
    → src + n < word
    → (dst + n ≤ src) ⊎ (src + n ≤ dst)
    → IsApart user n dst src
user-IsApart n dst src hd hs apart = record {
  fits_dst = hd;
  fits_src = hs;
  other = λ i j hi hj. ground (arith, apart);
  once = λ i j lt hj. ground arith;
}

-- and whose pages are mapped, and none of a descriptor
user-CanCopy :
    (n dst src : ℕ)
    → ((i : ℕ) → i < n → (page (dst + i) ≡ 0x400) ⊎ (page (dst + i) ≡ 0x60000))
    → ((i : ℕ) → i < n → (page (src + i) ≡ 0x400) ⊎ (page (src + i) ≡ 0x60000))
    → CanCopy user n dst src
user-CanCopy n dst src hd hs = record {
  readable = λ i lt. ground (arith, hs i lt);
  writable = λ i lt. ground (arith, hd i lt);
  beside = λ i k lt hk. (ground (arith, hd i lt), ground (arith, hs i lt));
}

data-CanCopy : CanCopy user 3 ((fd2data 0x5FF00000 + offset_of user 0x5FF00000) % word) 0x400000
unfolding fd2data fd2num
data-CanCopy =
    user-CanCopy 3 0x60000000 0x400000 (λ i lt. inr (omega arith)) (λ i lt. inl (omega arith))

buffer-CanCopy : CanCopy user 3 0x400900 ((fd2data 0x5FF00000 + offset_of user 0x5FF00000) % word)
unfolding fd2data fd2num
buffer-CanCopy =
    user-CanCopy 3 0x400900 0x60000000 (λ i lt. inl (omega arith)) (λ i lt. inr (omega arith))

last-CanStore : CanStore user 0x400903
last-CanStore = record { allowed = refl; beside = λ k lt. ground arith }

data-IsApart : IsApart user 3 ((fd2data 0x5FF00000 + offset_of user 0x5FF00000) % word) 0x400000
unfolding fd2data fd2num
data-IsApart = user-IsApart 3 0x60000000 0x400000 (omega arith) (omega arith) (inr (omega arith))

buffer-IsApart : IsApart user 4 0x400900 ((fd2data 0x5FF00000 + offset_of user 0x5FF00000) % word)
unfolding fd2data fd2num
buffer-IsApart = user-IsApart 4 0x400900 0x60000000 (omega arith) (omega arith) (inl (omega arith))

a_there : string_at 4 user 0x400000 ≡ some a_name
unfolding string_at
a_there = refl

a_there_too : string_at 4 user 0x400800 ≡ some a_name
unfolding string_at
a_there_too = refl

write-seek-read_example :
    (t u v : User) × (write mute empty_pipe empty_pipe 0 0x400000 3 user ≡ done (good 3) t)
    × (seek 0 (offset_of user 0x5FF00000) t ≡ done (good 0) u)
    × (read mute empty_pipe empty_pipe 0 0x400900 3 u ≡ done (good 3) v)
    × ((i : ℕ) → i < 3 → byte_at v (0x400900 + i) ≡ byte_at user (0x400000 + i))
write-seek-read_example =
    write-seek-read mute empty_pipe empty_pipe user 0 0x5FF00000 0x400000 0x400900 3 opened
      (omega arith) (omega arith) (omega arith) data-IsApart data-CanCopy buffer-IsApart
      buffer-CanCopy last-CanStore

read-file_example :
    ReadOutcome mute empty_pipe empty_pipe user 0 0x5FF00000 0x400900 3
      (offset_of user 0x5FF00000)
      (readable (size_at user 0x5FF00000) (offset_of user 0x5FF00000) 3)
read-file_example =
    read-file mute empty_pipe empty_pipe user 0 0x5FF00000 0x400900 3 opened (omega arith)
      (omega arith) buffer-IsApart buffer-CanCopy last-CanStore

dup-shares_example :
    (t : User) × (dup mute empty_pipe empty_pipe 0 1 user ≡ done (good 1) t)
    × ((j : ℕ)
        → j < 256
        → is_whole user (data_page 0 + j) ≡ true
        → t.frame (data_page 1 + j) ≡ t.frame (data_page 0 + j))
    × ((offset : ℕ)
        → (u : User) × (seek 1 offset t ≡ done (good 0) u) × (offset_of u (index2fd 0) ≡ offset))
dup-shares_example =
    dup-shares mute empty_pipe empty_pipe user 0 1 inval (omega arith) (omega arith)
      (λ e. absurd (omega (arith, e))) found_0 (omega arith) refl not_found_1 refl
      (λ j lt. small_perm (0x60000 + j)) (λ j lt. refl)

read_map-overlap_example : read_map 0 (pdmap + 0) two_files ≡ read_map (0 + 1) 0 two_files
read_map-overlap_example =
    read_map-overlap two_files 0 0 (omega arith) (omega arith) both_found.0 both_found.1 refl refl

fd_lookup-negative_example : fd_lookup (word - 1) full ≡ good (fdtable - 1 * by2pg)
fd_lookup-negative_example = fd_lookup-negative full 1 (omega arith) (omega arith) (ground arith)

strcmp-compare_strings_example :
    (strlen 4 user 0x400000 ≡ some (length a_name))
    × (strcmp 4 user 0x400000 0x400800 ≡ some (compare_strings a_name a_name))
strcmp-compare_strings_example =
    strcmp-compare_strings 4 user 0x400000 0x400800 a_name a_name a_there a_there_too

-- one frame left: the second descriptor of a pipe gets no page
abbrev scarce : User
scarce = record user { spare = 7 ∷ [] }

open_pipe-Undone_example :
    (r : Ret (ℕ × ℕ)) × (t : User) × (open_pipe scarce ≡ done r t)
    × ((e : Error) → r ≡ bad e → SamePerms scarce t)
open_pipe-Undone_example = open_pipe-Undone scarce (λ k lt free. ground (arith, free))
