-- ===== src/Blocks.antt =====
-- fs/fs.c: the blocks of the disk, their cache in the memory of the file server, and the bitmap.
-- A block has its place in memory at `DISKMAP`; `mapped` says whether there is a page there. The
-- memory and the disk hold words by address, and file nodes (`struct File`) apart from them; an
-- address of the disk is that of the same word in the cache. `room` is how many more pages the
-- kernel gives to `syscall_mem_alloc`.
pub mod Bitmap
pub mod Sync
pub mod Start
pub mod Smash
use jos_buaa_a20_porting.Prelude.{
  ℕ, zero, suc, ◌+◌, ◌-◌, ◌*◌, ◌/◌, ◌%◌, ◌^◌, bit_and, Bool, true, false, not, ◌&&◌, ◌||◌, Option,
  none, some, List, [], leb, ltb, ◌==◌, if◌then◌else◌, Cmd, pure, stop, gets, modify, panic,
  bad_pointer, ◌>>=◌, ◌>>◌,
}
use jos_buaa_a20_porting.Mmu.{word, by2pg, complement}
use jos_buaa_a20_porting.Mm.{Error, Ret, good, bad, no_mem, no_disk}
use jos_buaa_a20_porting.Queue.{update}

-- `struct File`
pub record File : Type 0 where
  pub f_name : List ℕ
  pub f_size : ℕ
  pub f_type : ℕ
  pub f_direct : ℕ → ℕ
  pub f_indirect : ℕ
  pub f_dir : Option ℕ

pub record Fs : Type 0 where
  -- whether `super` and `bitmap` point at their blocks
  pub super : Bool
  pub bitmap : Bool
  pub mapped : ℕ → Bool
  pub dirty : ℕ → Bool
  pub mem : ℕ → ℕ
  pub node : ℕ → File
  pub disk_mem : ℕ → ℕ
  pub disk_node : ℕ → File
  pub room : ℕ

abbrev pub diskmap : ℕ
diskmap = 0x10000000

abbrev pub by2blk : ℕ
by2blk = 4096

abbrev pub fs_magic : ℕ
fs_magic = 0x68286097

-- the place of a block in memory
abbrev pub place : ℕ → ℕ
place blockno = (diskmap + blockno * by2blk) % word

-- `super->s_magic` and `super->s_nblocks`
abbrev pub s_magic : Fs → ℕ
s_magic s = s.mem (place 1)

abbrev pub s_nblocks : Fs → ℕ
s_nblocks s = s.mem (place 1 + 4)

-- `super && blockno >= super->s_nblocks`
abbrev pub is_beyond : Fs → ℕ → Bool
is_beyond s blockno = s.super && leb (s_nblocks s) blockno

-- `diskaddr`
unfoldable pub diskaddr : ℕ → Cmd Fs ℕ
diskaddr blockno s = if is_beyond s blockno then stop panic s else pure (place blockno) s

-- `block_is_mapped`, its result as a test
unfoldable pub block_is_mapped : ℕ → Cmd Fs Bool
unfolding diskaddr
block_is_mapped blockno = do va ← diskaddr blockno; gets (λ s. s.mapped blockno)

-- `block_is_dirty`
unfoldable pub block_is_dirty : ℕ → Cmd Fs Bool
unfolding diskaddr
block_is_dirty blockno = do va ← diskaddr blockno; gets (λ s. s.mapped blockno && s.dirty blockno)

abbrev pub in_block : (blockno a : ℕ) → Bool
in_block blockno a = leb (place blockno) a && ltb a (place blockno + by2blk)

-- `f` with the addresses of a block taken from `g`
abbrev pub take_block {ℓ} : {A : Type ℓ} → (blockno : ℕ) → (f g : ℕ → A) → ℕ → A
take_block blockno f g a = if in_block blockno a then g a else f a

abbrev pub blank : File
blank = record {
  f_name = [];
  f_size = 0;
  f_type = 0;
  f_direct = λ _. 0;
  f_indirect = 0;
  f_dir = none;
}

-- `syscall_mem_alloc` at the place of a block: a page of zeros
unfoldable pub alloc_page_for : ℕ → Cmd Fs (Ret ℕ)
alloc_page_for blockno s = elim s.room [
  | zero ↦ pure (bad no_mem) s
  | suc n ↦ pure (good 0) (record s {
    room = n;
    mapped = update s.mapped blockno true;
    mem = take_block blockno s.mem (λ _. 0);
    node = take_block blockno s.node (λ _. blank);
  })
]

-- `map_block`
unfoldable pub map_block : ℕ → Cmd Fs (Ret ℕ)
unfolding block_is_mapped diskaddr alloc_page_for
map_block blockno = do
  m ← block_is_mapped blockno
  if m then pure (good 0) else do va ← diskaddr blockno; alloc_page_for blockno

-- the word of the bitmap for a block, and the bit in it
abbrev pub bitmap_word : ℕ → ℕ
bitmap_word blockno = place 2 + 4 * (blockno / 32)

abbrev pub bitmap_bit : ℕ → ℕ
bitmap_bit blockno = 2 ^ (blockno % 32)

-- the test of the bit: a set bit says that the block is free
abbrev pub is_free_bit : Fs → ℕ → Bool
is_free_bit s blockno = not (bit_and (s.mem (bitmap_word blockno)) (bitmap_bit blockno) == 0)

-- `bitmap[blockno / 32] &= ~(1 << (blockno % 32))`
abbrev pub clear_bit : ℕ → Fs → Fs
clear_bit blockno s = record s {
  mem =
      update s.mem (bitmap_word blockno)
        (bit_and (s.mem (bitmap_word blockno)) (complement (bitmap_bit blockno)));
}

-- `block_is_free`
unfoldable pub block_is_free : ℕ → Cmd Fs Bool
block_is_free blockno s =
    if not s.super || leb (s_nblocks s) blockno
    then pure false s
    else if not s.bitmap
    then stop bad_pointer s
    else pure (is_free_bit s blockno) s

-- `free_block`
unfoldable pub free_block : ℕ → Cmd Fs (Unit {0})
free_block blockno s =
    if blockno == 0
    then stop panic s
    else if not s.bitmap
    then stop bad_pointer s
    else pure tt (clear_bit blockno s)

-- `unmap_block`
unfoldable pub unmap_block : ℕ → Cmd Fs (Unit {0})
unfolding block_is_mapped block_is_free block_is_dirty diskaddr
unmap_block blockno = do
  m ← block_is_mapped blockno
  if not m then pure tt else do
    free ← block_is_free blockno
    dirty ← block_is_dirty blockno
    if not free && dirty then stop panic else do
      va ← diskaddr blockno
      modify (λ s. record s { mapped = update s.mapped blockno false; room = s.room + 1 })

-- `ide_read` of a block to its place
unfoldable pub ide_read : ℕ → Cmd Fs (Unit {0})
ide_read blockno = modify λ s. record s {
  mem = take_block blockno s.mem s.disk_mem;
  node = take_block blockno s.node s.disk_node;
}

-- `ide_write` of a block from its place
unfoldable pub ide_write : ℕ → Cmd Fs (Unit {0})
ide_write blockno = modify λ s. record s {
  disk_mem = take_block blockno s.disk_mem s.mem;
  disk_node = take_block blockno s.disk_node s.node;
}

-- the branch of `read_block` for a block that is not in memory; it does not test the result of
-- `syscall_mem_alloc`, and without a page the copy goes to an address that is not mapped
unfoldable pub load_block : ℕ → Cmd Fs (Unit {0})
unfolding alloc_page_for ide_read
load_block blockno = do
  r ← alloc_page_for blockno
  elim r [ bad _ ↦ stop bad_pointer | good _ ↦ ide_read blockno ]

-- `block_is_free` behind `bitmap &&`
unfoldable pub is_known_free : ℕ → Cmd Fs Bool
unfolding block_is_free
is_known_free blockno s = if s.bitmap then block_is_free blockno s else pure false s

-- `read_block`: the address that it stores in `*blk`
unfoldable pub read_block : ℕ → Cmd Fs ℕ
unfolding is_known_free diskaddr block_is_mapped load_block
read_block blockno = do
  va ← diskaddr blockno
  free ← is_known_free blockno
  if free
      then stop panic
      else do m ← block_is_mapped blockno; if m then pure tt else load_block blockno; pure va

-- `write_block`
unfoldable pub write_block : ℕ → Cmd Fs (Unit {0})
unfolding block_is_mapped diskaddr ide_write
write_block blockno = do
  m ← block_is_mapped blockno
  if not m then stop panic else do
    va ← diskaddr blockno
    ide_write blockno
    modify (λ s. record s { dirty = update s.dirty blockno false })

-- the loop of `alloc_block_num` over `n` blocks from `blockno` on
unfoldable pub find_free : (n blockno : ℕ) → Cmd Fs (Ret ℕ)
unfolding write_block
find_free zero blockno s = pure (bad no_disk) s
find_free (suc n) blockno s =
    let rest = find_free n (blockno + 1) s in
    if is_free_bit s blockno
    then (do modify (clear_bit blockno); write_block (blockno / (by2blk * 8)); pure (good blockno))
        s
    else rest

-- `alloc_block_num`
unfoldable pub alloc_block_num : Cmd Fs (Ret ℕ)
unfolding find_free
alloc_block_num s =
    if not s.super || not s.bitmap && ltb 3 (s_nblocks s)
    then stop bad_pointer s
    else find_free (s_nblocks s - 3) 3 s

-- `alloc_block`
unfoldable pub alloc_block : Cmd Fs (Ret ℕ)
unfolding alloc_block_num map_block free_block
alloc_block = do
  r ← alloc_block_num
  elim r [
    | bad e ↦ pure (bad e)
    | good bno ↦ (do
      m ← map_block bno
      elim m [ bad e ↦ (do free_block bno; pure (bad e)) | good _ ↦ pure (good bno) ])
  ]

-- the loop of `fs_sync`
unfoldable pub sync_loop : (n i : ℕ) → Cmd Fs (Unit {0})
unfolding block_is_dirty write_block
sync_loop zero i = pure tt
sync_loop (suc n) i = do
  d ← block_is_dirty i
  if d then write_block i else pure tt
  sync_loop n (i + 1)

-- `fs_sync`
unfoldable pub fs_sync : Cmd Fs (Unit {0})
unfolding sync_loop
fs_sync s = if not s.super then stop bad_pointer s else sync_loop (s_nblocks s) 0 s
