-- ===== src/FdCalls/Reading.antt =====
-- `read`, `write` and `seek` of user/fd.c on an open file.
use jos_buaa_a20_porting.Prelude.{
  ℕ, ◌+◌, ◌%◌, ◌^◌, ◌≤◌, ◌<◌, ◌≡◌, ◌≢◌, refl, ap, ◌∙◌, sym, false, ◌||◌, arith, ◌==◌, ltb, Cmd, Run,
  pure, and_then, done, ◌>>◌, Returns-done,
}
use mathlib.Core.Path.{subst}
use jos_buaa_a20_porting.Mmu.{word}
use jos_buaa_a20_porting.Queue.{update}
use jos_buaa_a20_porting.Mm.{Ret, good}
use jos_buaa_a20_porting.UserMem.{
  User, cell, byte_at, filefd_at, set_filefd, memcpy, bcopy, is_minus,
}
use jos_buaa_a20_porting.UserMem.Copy.{IsApart, CanCopy, CanStore, Copied, memcpy-Copied}
use jos_buaa_a20_porting.Fds.{fd_lookup, fd2data, dev_id, file, dev_lookup}
use jos_buaa_a20_porting.FileCalls.{maxfilesize, file_read, file_write}
use jos_buaa_a20_porting.FileCalls.Truncate.{size_at, readable, file_read_lem}
use jos_buaa_a20_porting.FdCalls.{
  find_fd, set_offset, access, offset_of, read, read_end, write, write_end, seek,
}

-- descriptor `fdnum` is that of a file open for reading and writing, and `fd` is its page
pub record IsOpen (s : User) (fdnum fd : ℕ) : Type 0 where
  pub found : fd_lookup fdnum s ≡ good fd
  pub is_file : (filefd_at s fd).f_fd.fd_dev_id ≡ dev_id file
  pub mode : access s fd ≡ 2

find_fd_lem : {s : User} {fdnum fd : ℕ} → IsOpen s fdnum fd → find_fd fdnum s ≡ good (fd, file)
unfolding find_fd dev_lookup
find_fd_lem o = rw (o.found, find_fd) (rw o.is_file refl)

-- only the memory and the offset have changed
abbrev moved : (s : User) (fd : ℕ) (b : ℕ → ℕ) (offset : ℕ) → User
moved s fd b offset = set_filefd fd (set_offset offset) (record s { byte = b })

moved-IsOpen :
    {s : User} {fdnum fd : ℕ} (b : ℕ → ℕ) (offset : ℕ)
    → IsOpen s fdnum fd
    → IsOpen (moved s fd b offset) fdnum fd
unfolding fd_lookup
moved-IsOpen b offset o = record {
  found = o.found;
  is_file = ground (arith, o.is_file);
  mode = ground (arith, o.mode);
}

-- A copy as a change of the bytes.
pub memcpy_bytes :
    (n dst src : ℕ) (s : User)
    → IsApart s n dst src
    → CanCopy s n dst src
    → (b : ℕ → ℕ) × (memcpy n dst src s ≡ done tt (record s { byte = b }))
      × ((i : ℕ) → i < n → b (cell s (dst + i)) ≡ byte_at s (src + i))
      × ((a : ℕ) → ((i : ℕ) → i < n → cell s (dst + i) ≢ a) → b a ≡ s.byte a)
memcpy_bytes n dst src s h can =
    let (u, t, run, c) =
      Returns-done (λ _. Copied n dst src s) (memcpy n dst src s)
        (memcpy-Copied n dst src s h can) in
    (t.byte, run ∙ ap (done tt) c.rest_same, c.copied, c.others)

IsApart-shorter : {s : User} {n dst src : ℕ} → IsApart s (n + 1) dst src → IsApart s n dst src
IsApart-shorter h = record {
  fits_dst = omega (arith, h.fits_dst);
  fits_src = omega (arith, h.fits_src);
  other = λ i j hi hj. h.other i j (omega arith) (omega arith);
  once = λ i j lt hj. h.once i j lt (omega arith);
}

module _ (server : (req : ℕ) → (page : ℕ → ℕ) → (dstva : ℕ) → Cmd User (Ret ℕ × ℕ))
    (piperead pipewrite : (fd buf n offset : ℕ) → Cmd User (Ret ℕ)) where
  read_lem :
      (s : User) (fdnum fd buf n : ℕ) (r : Run User (Ret ℕ))
      → IsOpen s fdnum fd
      → file_read fd buf n (offset_of s fd) s ≡ r
      → read server piperead pipewrite fdnum buf n s ≡ and_then r (read_end fd buf)
  unfolding read
  read_lem s fdnum fd buf n r o run =
      let mode : (access s fd == 1) ≡ false = ground (arith, o.mode) in
      rw (find_fd_lem o) (rw mode (rw run refl))

  -- what `read` of `n` bytes comes to where it reads `m` bytes from `off` on
  abbrev pub ReadOutcome : (s : User) (fdnum fd buf n off m : ℕ) → Type 0
  ReadOutcome s fdnum fd buf n off m =
      (t : User) × (read server piperead pipewrite fdnum buf n s ≡ done (good m) t)
      × IsOpen t fdnum fd
      × (offset_of t fd ≡ off + m)
      × ((i : ℕ) → i < m → byte_at t (buf + i) ≡ byte_at s ((fd2data fd + off) % word + i))
      × (byte_at t (buf + m) ≡ 0)

  -- `read` from a file, at an offset within it, of a count that does not overflow, into a buffer
  -- that does not overlap the data: it returns the number of bytes that the file still has, up to
  -- the count; these bytes are in the buffer, with a 0 behind them, and the offset has moved on by
  -- their number. The buffer must have room for that 0 as well; the pages of the data and of the
  -- buffer must be mapped and no descriptor's, and the buffer's be writable.
  pub read-file :
      (s : User) (fdnum fd buf n : ℕ)
      → IsOpen s fdnum fd
      → offset_of s fd + n < 2 ^ 31
      → offset_of s fd ≤ size_at s fd
      → IsApart s
          (readable (size_at s fd) (offset_of s fd) n + 1)
          buf
          ((fd2data fd + offset_of s fd) % word)
      → CanCopy s
          (readable (size_at s fd) (offset_of s fd) n)
          buf
          ((fd2data fd + offset_of s fd) % word)
      → CanStore s (buf + readable (size_at s fd) (offset_of s fd) n)
      → ReadOutcome s fdnum fd buf n (offset_of s fd) (readable (size_at s fd) (offset_of s fd) n)
  unfolding read_end
  read-file s fdnum fd buf n o small le apart can room =
      let off : ℕ = offset_of s fd in
      let m : ℕ = readable (size_at s fd) off n in
      let src : ℕ = (fd2data fd + off) % word in
      let (b, run, copied, others) = memcpy_bytes m buf src s (IsApart-shorter apart) can in
      let fewer : m < 2 ^ 31 = ground arith in
      let plus : is_minus m ≡ false = ground (arith, fewer) in
      let last : (buf + m) % word ≡ buf + m = omega (arith, apart.fits_dst) in
      let total : off + m < 2 ^ 31 = ground arith in
      let sum : (off + m) % word ≡ off + m = omega (arith, total) in
      let end : read_end fd buf (good m) (record s { byte = b })
          ≡ done (good m) (moved s fd (update b (cell s (buf + m)) 0) (off + m)) =
        rw plus (rw last (rw sum (rw room.allowed refl))) in
      (
        moved s fd (update b (cell s (buf + m)) 0) (off + m),
        read_lem s fdnum fd buf n (done (good m) (record s { byte = b })) o
              (file_read_lem s fd buf n off (omega (arith, small)) le ∙ rw run refl)
            ∙ end,
        moved-IsOpen (update b (cell s (buf + m)) 0) (off + m) o,
        ground arith,
        λ i lt.
            let apart_cells : cell s (buf + i) ≢ cell s (buf + m) =
              apart.once i m lt (omega arith) in
            ground (arith, apart_cells, copied i lt),
        ground arith,
      )

  file_write_lem :
      (s : User) (fd buf n off : ℕ)
      → off + n ≤ size_at s fd
      → size_at s fd ≤ maxfilesize
      → file_write server fd buf n off s
        ≡ (do bcopy buf ((fd2data fd + off) % word) n; pure (good n)) s
  unfolding file_write
  file_write_lem s fd buf n off inside most =
      let sum : (off + n) % word ≡ off + n = omega arith in
      let fits : ltb maxfilesize (off + n) ≡ false = ground (arith, inside, most) in
      let same : ltb (size_at s fd) (off + n) ≡ false = ground (arith, inside) in
      rw sum (rw fits (rw same refl))

  -- a `write` within the file, from memory that does not overlap its data
  write-file :
      (s : User) (fdnum fd buf n : ℕ)
      → IsOpen s fdnum fd
      → 0 < n
      → offset_of s fd + n ≤ size_at s fd
      → size_at s fd ≤ maxfilesize
      → IsApart s n ((fd2data fd + offset_of s fd) % word) buf
      → CanCopy s n ((fd2data fd + offset_of s fd) % word) buf
      → (b : ℕ → ℕ) × (write server piperead pipewrite fdnum buf n s
          ≡ done (good n) (moved s fd b (offset_of s fd + n)))
        × ((i : ℕ)
            → i < n
            → b (cell s ((fd2data fd + offset_of s fd) % word + i)) ≡ byte_at s (buf + i))
  unfolding write write_end
  write-file s fdnum fd buf n o some inside most apart can =
      let off : ℕ = offset_of s fd in
      let (b, run, copied, others) = memcpy_bytes n ((fd2data fd + off) % word) buf s apart can in
      let mode : (access s fd == 0) ≡ false = ground (arith, o.mode) in
      let go : is_minus n || n == 0 ≡ false = ground (arith, some, inside, most) in
      let sum : (off + n) % word ≡ off + n = omega (arith, inside, most) in
      let dev : file_write server fd buf n off s ≡ done (good n) (record s { byte = b }) =
        file_write_lem s fd buf n off inside most ∙ rw run refl in
      (b, rw (find_fd_lem o) (rw mode (rw dev (rw go (rw sum refl)))), copied)

  seek_lem :
      (s : User) (fdnum fd off : ℕ)
      → fd_lookup fdnum s ≡ good fd
      → seek fdnum off s ≡ done (good 0) (set_filefd fd (set_offset off) s)
  unfolding seek
  seek_lem s fdnum fd off found = rw found refl

  -- What is written to an open file within its size, from memory apart from its data, is read again
  -- after a `seek` back to where it was written, into a buffer with room for one more byte, where
  -- the pages of the buffers and of the data are mapped and no descriptor's, and those written to
  -- can be written.
  pub write-seek-read :
      (s : User) (fdnum fd buf buf' n : ℕ)
      → IsOpen s fdnum fd
      → 0 < n
      → offset_of s fd + n ≤ size_at s fd
      → size_at s fd ≤ maxfilesize
      → IsApart s n ((fd2data fd + offset_of s fd) % word) buf
      → CanCopy s n ((fd2data fd + offset_of s fd) % word) buf
      → IsApart s (n + 1) buf' ((fd2data fd + offset_of s fd) % word)
      → CanCopy s n buf' ((fd2data fd + offset_of s fd) % word)
      → CanStore s (buf' + n)
      → (t u v : User) × (write server piperead pipewrite fdnum buf n s ≡ done (good n) t)
        × (seek fdnum (offset_of s fd) t ≡ done (good 0) u)
        × (read server piperead pipewrite fdnum buf' n u ≡ done (good n) v)
        × ((i : ℕ) → i < n → byte_at v (buf' + i) ≡ byte_at s (buf + i))
  write-seek-read s fdnum fd buf buf' n o some inside most apart can apart' can' room =
      let off : ℕ = offset_of s fd in
      let (b, wrote, copied) = write-file s fdnum fd buf n o some inside most apart can in
      let t : User = moved s fd b (off + n) in
      let u : User = set_filefd fd (set_offset off) t in
      let ot : IsOpen t fdnum fd = moved-IsOpen b (off + n) o in
      let ou : IsOpen u fdnum fd = moved-IsOpen b off ot in
      let at : offset_of u fd ≡ off = ground arith in
      let size : size_at u fd ≡ size_at s fd = ground arith in
      let m : readable (size_at u fd) (offset_of u fd) n ≡ n = ground (arith, at, size, inside) in
      let apart_u : IsApart u (n + 1) buf' ((fd2data fd + off) % word) = record {
        fits_dst = apart'.fits_dst;
        fits_src = apart'.fits_src;
        other = apart'.other;
        once = apart'.once;
      } in
      let can_u : CanCopy u n buf' ((fd2data fd + off) % word) = record {
        readable = can'.readable;
        writable = can'.writable;
        beside = can'.beside;
      } in
      let room_u : CanStore u (buf' + n) = record {
        allowed = room.allowed;
        beside = room.beside;
      } in
      let can_by_count =
        subst (λ (k : ℕ). CanCopy u k buf' ((fd2data fd + off) % word)) (sym m) can_u in
      let can_by_offset =
        subst
          (λ (o' : ℕ).
            CanCopy u (readable (size_at u fd) (offset_of u fd) n) buf' ((fd2data fd + o') % word))
          (sym at) can_by_count in
      let by_count =
        subst (λ (k : ℕ). IsApart u (k + 1) buf' ((fd2data fd + off) % word)) (sym m) apart_u in
      let by_offset =
        subst
          (λ (o' : ℕ).
            IsApart u (readable (size_at u fd) (offset_of u fd) n + 1) buf'
              ((fd2data fd + o') % word))
          (sym at) by_count in
      let outcome =
        read-file u fdnum fd buf' n ou (ground (arith, at, inside, most))
          (ground (arith, at, size, inside)) by_offset can_by_offset
          (subst (λ (k : ℕ). CanStore u (buf' + k)) (sym m) room_u) in
      let (v, ran, ov, offset, bytes, end) =
        subst (λ (o' : ℕ). ReadOutcome u fdnum fd buf' n o' n) at
          (subst (λ (k : ℕ). ReadOutcome u fdnum fd buf' n (offset_of u fd) k) m outcome) in
      (t, u, v, wrote, seek_lem t fdnum fd off ot.found, ran, λ i lt. bytes i lt ∙ copied i lt)
