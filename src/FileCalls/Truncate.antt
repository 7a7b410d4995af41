-- ===== src/FileCalls/Truncate.antt =====
-- The size and the data of an open file in user/file.c: what `file_read` copies, what a failed
-- `ftruncate` leaves behind, and where the data of two descriptors meet.
use jos_buaa_a20_porting.Prelude.{
  ℕ, ◌+◌, ◌-◌, ◌/◌, ◌%◌, ◌≤◌, ◌<◌, ◌≡◌, refl, ap, ◌∙◌, sym, false, not, ◌||◌, arith, ◌==◌, leb, ltb,
  min, Bool-cases, inl, inr, if◌then◌else◌, Cmd, pure, done, ◌>>◌, Returns-done,
}
use jos_buaa_a20_porting.Mmu.{word, pdmap}
use jos_buaa_a20_porting.Mm.{Error, Ret, good, bad, no_disk}
use jos_buaa_a20_porting.UserMem.{User, filefd_at, set_filefd, memcpy, bcopy, va_perm, is_minus}
use jos_buaa_a20_porting.UserMem.Copy.{IsApart, CanCopy, Copied, memcpy-Copied}
use jos_buaa_a20_porting.Fds.{fd_lookup, fd2data, fd2num, index2fd, index2data, dev_id, file}
use jos_buaa_a20_porting.FileCalls.{
  maxfilesize, file_read, ftruncate, set_size, fsipc_set_size, read_map,
}

abbrev pub size_at : User → ℕ → ℕ
size_at s fd = (filefd_at s fd).f_file.f_size

-- how many of `n` bytes from `offset` on a file of `size` bytes has
abbrev pub readable : (size offset n : ℕ) → ℕ
readable size offset n = min n (size - offset)

pub file_read_lem :
    (s : User) (fd buf n offset : ℕ)
    → offset + n < word
    → offset ≤ size_at s fd
    → file_read fd buf n offset s
      ≡ (do
        bcopy ((fd2data fd + offset) % word) buf (readable (size_at s fd) offset n)
        pure (good (readable (size_at s fd) offset n)))
          s
unfolding file_read
file_read_lem s fd buf n offset small le =
    let sum : (offset + n) % word ≡ offset + n = omega arith in
    let inside : ltb (size_at s fd) offset ≡ false = ground arith in
    elim (Bool-cases (ltb (size_at s fd) (offset + n))) [
      | inl more ↦
          let m : readable (size_at s fd) offset n ≡ size_at s fd - offset = ground (arith, more) in
          rw inside (rw sum (rw more (rw m refl)))
      | inr all ↦
          let m : readable (size_at s fd) offset n ≡ n = ground (arith, all) in
          rw inside (rw sum (rw all (rw m refl)))
    ]

-- `file_read` at an offset within the file, where offset and count do not overflow and the buffer
-- does not overlap the data and the permissions allow the copy, returns the number of bytes that the file still has, up to the count,
-- and copies these bytes of the file to the buffer and changes no other byte.
pub file_read-Copied :
    (s : User) (fd buf n offset : ℕ)
    → offset + n < word
    → offset ≤ size_at s fd
    → IsApart s (readable (size_at s fd) offset n) buf ((fd2data fd + offset) % word)
    → CanCopy s (readable (size_at s fd) offset n) buf ((fd2data fd + offset) % word)
    → (t : User) × (file_read fd buf n offset s ≡ done (good (readable (size_at s fd) offset n)) t)
      × Copied (readable (size_at s fd) offset n) buf ((fd2data fd + offset) % word) s t
file_read-Copied s fd buf n offset small le apart can =
    let m : ℕ = readable (size_at s fd) offset n in
    let src : ℕ = (fd2data fd + offset) % word in
    let (u, t, run, c) =
      Returns-done (λ _. Copied m buf src s) (memcpy m buf src s)
        (memcpy-Copied m buf src s apart can) in
    (t, file_read_lem s fd buf n offset small le ∙ rw run refl, c)

-- Where the server refuses the new size, `ftruncate` returns the error but the descriptor keeps the
-- new size, if the answer has not changed it: the process sees a size that the file does not have.
pub ftruncate-keeps_size :
    (server : (req : ℕ) → (page : ℕ → ℕ) → (dstva : ℕ) → Cmd User (Ret ℕ × ℕ)) (s t : User)
    (fdnum size fd : ℕ) (e : Error)
    → size ≤ maxfilesize
    → fd_lookup fdnum s ≡ good fd
    → (filefd_at s fd).f_fd.fd_dev_id ≡ dev_id file
    → fsipc_set_size server (filefd_at s fd).f_fileid size (set_filefd fd (set_size size) s)
      ≡ done (bad e) t
    → filefd_at t fd ≡ filefd_at (set_filefd fd (set_size size) s) fd
    → (ftruncate server fdnum size s ≡ done (bad e) t) × (size_at t fd ≡ size)
unfolding ftruncate
ftruncate-keeps_size server s t fdnum size fd e le found is_file refused same =
    let fits : ltb maxfilesize size ≡ false = ground arith in
    let dev : not ((filefd_at s fd).f_fd.fd_dev_id == dev_id file) ≡ false =
      ground (arith, is_file) in
    (rw fits (rw found (rw dev (rw refused refl))), ap (λ f. f.f_file.f_size) same ∙ ground arith)

pub fd2data-index2fd : (i : ℕ) → i < 32 → fd2data (index2fd i) ≡ index2data i
unfolding fd2data fd2num
fd2data-index2fd i lt =
    let num : (index2fd i + word - 0x5FF00000) % word / 4096 ≡ i = omega arith in ap index2data num

-- `read_map` behind its tests, at the address
abbrev mapped_at : User → ℕ → Ret ℕ
mapped_at s va = if va_perm s va == 0 || is_minus (va_perm s va) then bad no_disk else good va

read_map_lem :
    (s : User) (n fd offset : ℕ)
    → fd_lookup n s ≡ good fd
    → (filefd_at s fd).f_fd.fd_dev_id ≡ dev_id file
    → offset < maxfilesize
    → read_map n offset s ≡ mapped_at s ((fd2data fd + offset) % word)
unfolding read_map
read_map_lem s n fd offset found is_file small =
    let dev : not ((filefd_at s fd).f_fd.fd_dev_id == dev_id file) ≡ false =
      ground (arith, is_file) in
    let below : leb maxfilesize offset ≡ false = ground (arith, small) in
    rw (found, read_map) (rw dev (rw below refl))

-- The data area of a descriptor has 1 MB but a file may have 4 MB: the bytes of a file behind the
-- first 1 MB are at the addresses of the data of the next descriptor.
pub read_map-overlap :
    (s : User) (i k : ℕ)
    → i + 1 < 32
    → k + pdmap < maxfilesize
    → fd_lookup i s ≡ good (index2fd i)
    → fd_lookup (i + 1) s ≡ good (index2fd (i + 1))
    → (filefd_at s (index2fd i)).f_fd.fd_dev_id ≡ dev_id file
    → (filefd_at s (index2fd (i + 1))).f_fd.fd_dev_id ≡ dev_id file
    → read_map i (pdmap + k) s ≡ read_map (i + 1) k s
read_map-overlap s i k lt small found found' is_file is_file' =
    let area : fd2data (index2fd i) ≡ index2data i = fd2data-index2fd i (omega arith) in
    let area' : fd2data (index2fd (i + 1)) ≡ index2data (i + 1) = fd2data-index2fd (i + 1) lt in
    let at : (index2data i + (pdmap + k)) % word ≡ (index2data (i + 1) + k) % word = omega arith in
    read_map_lem s i (index2fd i) (pdmap + k) found is_file (omega arith)
    ∙ ap (mapped_at s) (
        ap (λ (a : ℕ). (a + (pdmap + k)) % word) area
        ∙ at
        ∙ ap (λ (a : ℕ). (a + k) % word) (sym area'))
    ∙ sym (read_map_lem s (i + 1) (index2fd (i + 1)) k found' is_file' (omega arith))
