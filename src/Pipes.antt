-- ===== src/Pipes.antt =====
-- `pipe` of user/pipe.c: two descriptors whose data are one page. The rest of that file is not
-- finished in the source, but for what FdCalls has of it.
pub mod Failing
use jos_buaa_a20_porting.Prelude.{
  ℕ, Cmd, pure, gets, modify, ◌>>=◌, ◌>>◌, if◌then◌else◌, bit_or, leb, ◌^◌, Bool, true,
}
use jos_buaa_a20_porting.Mmu.{pte_v, pte_r, pte_library}
use jos_buaa_a20_porting.Mm.{Error, Ret, good, bad}
use jos_buaa_a20_porting.Server.{Filefd, Fd, is_negative, shared_perm}
use jos_buaa_a20_porting.UserMem.{User, set_filefd, mem_alloc, mem_map, mem_unmap}
use jos_buaa_a20_porting.Fds.{dev_id, pipe, fd_alloc, fd2data, fd2num}

-- `fd_alloc` and `syscall_mem_alloc` of the page that it gives
abbrev pub keep_fd : (fd : ℕ) → Ret ℕ → Ret ℕ
keep_fd fd (bad e) = bad e
keep_fd fd (good v) = good fd

unfoldable pub alloc_fd_page : Ret ℕ → Cmd User (Ret ℕ)
unfolding mem_alloc
alloc_fd_page (bad e) = pure (bad e)
alloc_fd_page (good fd) = do r ← mem_alloc fd shared_perm; pure (keep_fd fd r)

unfoldable pub alloc_end : Cmd User (Ret ℕ)
unfolding fd_alloc alloc_fd_page
alloc_end = do a ← gets fd_alloc; alloc_fd_page a

-- the labels: the pages of the descriptors given are unmapped, and the error is returned
abbrev pub fail1 : {A : Type 0} (fd : ℕ) → Error → Cmd User (Ret A)
fail1 fd e = do u ← mem_unmap fd; pure (bad e)

abbrev pub fail2 : {A : Type 0} (fd0 fd1 : ℕ) → Error → Cmd User (Ret A)
fail2 fd0 fd1 e = do u ← mem_unmap fd1; fail1 fd0 e

-- the page of the pipe is in the data of the first end; in those of the second one as well
unfoldable pub map_second : (fd0 fd1 : ℕ) → Ret ℕ → Cmd User (Ret ℕ)
unfolding mem_unmap
map_second fd0 fd1 (bad e) = fail1 (fd2data fd0) e
map_second fd0 fd1 (good v) = pure (good v)

unfoldable pub share_page : (fd0 fd1 : ℕ) → Ret ℕ → Cmd User (Ret ℕ)
unfolding mem_map fd2data map_second
share_page fd0 fd1 (bad e) = pure (bad e)
share_page fd0 fd1 (good v) = do
  m ← mem_map (fd2data fd0) (fd2data fd1) shared_perm
  map_second fd0 fd1 m

abbrev pub set_end : (omode : ℕ) → Filefd → Filefd
set_end omode f = record f { f_fd = record f.f_fd { fd_dev_id = dev_id pipe; fd_omode = omode } }

-- `pipe` behind the sharing of the page, behind the second descriptor, and behind the first one
unfoldable pub set_ends : (fd0 fd1 : ℕ) → Ret ℕ → Cmd User (Ret (ℕ × ℕ))
unfolding mem_unmap fd2num
set_ends fd0 fd1 (bad e) = fail2 fd0 fd1 e
set_ends fd0 fd1 (good v) = do
  modify (set_filefd fd0 (set_end 0))
  modify (set_filefd fd1 (set_end 1))
  pure (good (fd2num fd0, fd2num fd1))

unfoldable pub second_end : (fd0 : ℕ) → Ret ℕ → Cmd User (Ret (ℕ × ℕ))
unfolding mem_alloc mem_unmap share_page set_ends
second_end fd0 (bad e) = fail1 fd0 e
second_end fd0 (good fd1) = do
  a ← mem_alloc (fd2data fd0) shared_perm
  r ← share_page fd0 fd1 a
  set_ends fd0 fd1 r

unfoldable pub first_end : Ret ℕ → Cmd User (Ret (ℕ × ℕ))
unfolding alloc_end second_end
first_end (bad e) = pure (bad e)
first_end (good fd0) = do b ← alloc_end; second_end fd0 b

-- `pipe`: the two numbers that it stores in `pfd`
unfoldable pub open_pipe : Cmd User (Ret (ℕ × ℕ))
unfolding alloc_end first_end
open_pipe = do a ← alloc_end; first_end a
