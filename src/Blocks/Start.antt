-- ===== src/Blocks/Start.antt =====
-- The start of the file server in fs/fs.c: the super block and the bitmap are read and checked, and
-- `check_write_block` smashes the super block on the disk and puts it back.
use jos_buaa_a20_porting.Prelude.{
  ℕ, zero, suc, ◌+◌, ◌-◌, ◌*◌, ◌/◌, ◌%◌, ◌^◌, Bool, true, false, not, ◌&&◌, ltb, ◌==◌,
  if◌then◌else◌, Cmd, pure, stop, gets, modify, panic, ◌>>=◌, ◌>>◌,
}
use jos_buaa_a20_porting.Queue.{update}
use jos_buaa_a20_porting.Blocks.{
  Fs, by2blk, fs_magic, place, s_magic, s_nblocks, in_block, diskaddr, block_is_mapped,
  block_is_free, read_block, write_block,
}

abbrev pub diskmax : ℕ
diskmax = 8 * 1024 * 1024

-- `assert`
abbrev pub assert : Bool → Cmd Fs (Unit {0})
assert b = if b then pure tt else stop panic

-- `read_super`
unfoldable pub read_super : Cmd Fs (Unit {0})
unfolding read_block
read_super = do
  blk ← read_block 1
  modify (λ s. record s { super = true })
  magic ← gets s_magic
  if not (magic == fs_magic) then stop panic else do
    nblocks ← gets s_nblocks
    if ltb (diskmax / by2blk) nblocks then stop panic else pure tt

-- `bcopy` of a block to the place of another one
abbrev pub copy_block : (from to : ℕ) → Fs → Fs
copy_block from to s = record s {
  mem = λ a. if in_block to a then s.mem (place from + (a - place to)) else s.mem a;
  node = λ a. if in_block to a then s.node (place from + (a - place to)) else s.node a;
}

-- `strcpy` of "OOPS!\n" to the place of block 1: a word and three bytes of the next one
abbrev pub oops_low : ℕ
oops_low = 0x53504F4F

abbrev pub oops_high : ℕ
oops_high = 0x0A21

abbrev pub smash : Fs → Fs
smash s = record s {
  mem = λ a.
      if a == place 1
      then oops_low
      else if a == place 1 + 4
      then s.mem a / 2 ^ 24 * 2 ^ 24 + oops_high
      else s.mem a;
}

-- the comparison of the place of block 1 with "OOPS!\n"
abbrev pub is_smashed : Fs → Bool
is_smashed s = s.mem (place 1) == oops_low && s.mem (place 1 + 4) % 2 ^ 24 == oops_high

-- `syscall_mem_unmap` of a block
abbrev pub drop_page : ℕ → Fs → Fs
drop_page b s = record s { mapped = update s.mapped b false; room = s.room + 1 }

-- `check_write_block`
unfoldable pub check_write_block : Cmd Fs (Unit {0})
unfolding read_block write_block block_is_mapped diskaddr
check_write_block = do
  modify (λ s. record s { super = false })
  b0 ← read_block 0
  modify (copy_block 1 0)
  modify smash
  write_block 1
  m ← block_is_mapped 1
  assert m
  va ← diskaddr 1
  modify (drop_page 1)
  m' ← block_is_mapped 1
  assert (not m')
  b1 ← read_block 1
  ok ← gets is_smashed
  assert ok
  modify (copy_block 0 1)
  write_block 1
  modify (λ s. record s { super = true })

-- the first loop of `read_bitmap`, which reads the blocks, and the last one, which checks that they
-- are in use
unfoldable pub read_loop : (n i : ℕ) → Cmd Fs (Unit {0})
unfolding read_block
read_loop zero i = pure tt
read_loop (suc n) i = do blk ← read_block (i + 2); read_loop n (i + 1)

unfoldable pub used_loop : (n i : ℕ) → Cmd Fs (Unit {0})
unfolding block_is_free
used_loop zero i = pure tt
used_loop (suc n) i = do free ← block_is_free (i + 2); assert (not free); used_loop n (i + 1)

-- `read_bitmap`
unfoldable pub read_bitmap : Cmd Fs (Unit {0})
unfolding read_loop used_loop diskaddr block_is_free
read_bitmap = do
  nbitmap ← gets (λ s. s_nblocks s / (by2blk * 8) + 1)
  read_loop nbitmap 0
  va ← diskaddr 2
  modify (λ s. record s { bitmap = true })
  free0 ← block_is_free 0
  assert (not free0)
  free1 ← block_is_free 1
  assert (not free1)
  used_loop nbitmap 0

-- `fs_init`
unfoldable pub fs_init : Cmd Fs (Unit {0})
unfolding read_super check_write_block read_bitmap
fs_init = do
  read_super
  check_write_block
  read_bitmap
  modify (λ s. record s { dirty = λ b. false })
