-- ===== src/Files.antt =====
-- fs/fs.c: the blocks of a file, its size, and its way to the disk. A `struct File *` is the
-- address of the node; a pointer to a block number is a direct slot of a node, or the address of
-- a word of an indirect block.
pub mod Slots
use jos_buaa_a20_porting.Prelude.{
  ℕ, zero, suc, ◌+◌, ◌-◌, ◌*◌, ◌/◌, Bool, true, false, Option, none, some, leb, ltb, ◌==◌,
  if◌then◌else◌, Cmd, pure, stop, gets, modify, panic, bad_pointer, ◌>>=◌, ◌>>◌,
}
use jos_buaa_a20_porting.Queue.{update}
use jos_buaa_a20_porting.Mm.{Error, Ret, good, bad, not_found, inval}
use jos_buaa_a20_porting.Blocks.{
  File, Fs, by2blk, alloc_block, read_block, free_block, block_is_dirty, write_block,
}

abbrev pub ndirect : ℕ
ndirect = 10

abbrev pub nindirect : ℕ
nindirect = 1024

-- a `u_int *` to a block number
pub data Slot : Type 0 where
  direct : (f i : ℕ) → Slot
  indirect : (a : ℕ) → Slot

-- `*ptr`, and an assignment to it
unfoldable pub slot_value : Fs → Slot → ℕ
slot_value s (direct f i) = (s.node f).f_direct i
slot_value s (indirect a) = s.mem a

abbrev pub set_node : (f : ℕ) → (File → File) → Fs → Fs
set_node f g s = record s { node = update s.node f (g (s.node f)) }

unfoldable pub set_slot : Slot → ℕ → Fs → Fs
set_slot (direct f i) v s = set_node f (λ n. record n { f_direct = update n.f_direct i v }) s
set_slot (indirect a) v s = record s { mem = update s.mem a v }

-- the indirect block of `f` is read, and the pointer is to its word
unfoldable pub indirect_slot : (f filebno : ℕ) → Cmd Fs (Ret Slot)
unfolding read_block
indirect_slot f filebno = do
  b ← gets (λ s. (s.node f).f_indirect)
  blk ← read_block b
  pure (good (indirect (blk + 4 * filebno)))

-- `file_block_walk`: what it stores in `*ppdiskbno`
unfoldable pub file_block_walk : (f filebno : ℕ) → (alloc : Bool) → Cmd Fs (Ret Slot)
unfolding alloc_block indirect_slot
file_block_walk f filebno alloc =
    if ltb filebno ndirect
    then pure (good (direct f filebno))
    else if ltb filebno nindirect
    then (do
      b ← gets (λ s. (s.node f).f_indirect)
      if b == 0
          then if alloc
            then (do
              r ← alloc_block
              elim r [
                | bad e ↦ pure (bad e)
                | good n ↦ (do
                  modify (set_node f (λ o. record o { f_indirect = n }))
                  indirect_slot f filebno)
              ])
            else pure (bad not_found)
          else indirect_slot f filebno)
    else pure (bad inval)

-- the end of `file_map_block`, at the slot that the walk has found
unfoldable pub map_slot : Slot → (alloc : Bool) → Cmd Fs (Ret ℕ)
unfolding slot_value set_slot alloc_block
map_slot ptr alloc = do
  v ← gets (λ s. slot_value s ptr)
  if v == 0
      then if alloc
        then (do
          r ← alloc_block
          elim r [ bad e ↦ pure (bad e) | good n ↦ (do modify (set_slot ptr n); pure (good n)) ])
        else pure (bad not_found)
      else pure (good v)

-- `file_map_block`: the block number that it stores in `*diskbno`
unfoldable pub file_map_block : (f filebno : ℕ) → (alloc : Bool) → Cmd Fs (Ret ℕ)
unfolding file_block_walk map_slot
file_map_block f filebno alloc = do
  r ← file_block_walk f filebno alloc
  elim r [ bad e ↦ pure (bad e) | good ptr ↦ map_slot ptr alloc ]

-- `file_clear_block`
unfoldable pub file_clear_block : (f filebno : ℕ) → Cmd Fs (Ret (Unit {0}))
unfolding file_block_walk slot_value set_slot free_block
file_clear_block f filebno = do
  r ← file_block_walk f filebno false
  elim r [
    | bad e ↦ pure (bad e)
    | good ptr ↦ (do
      v ← gets (λ s. slot_value s ptr)
      if v == 0 then pure (good tt) else do free_block v; modify (set_slot ptr 0); pure (good tt))
  ]

-- `file_get_block`: the address that it stores in `*blk`
unfoldable pub file_get_block : (f filebno : ℕ) → Cmd Fs (Ret ℕ)
unfolding file_map_block read_block
file_get_block f filebno = do
  r ← file_map_block f filebno true
  elim r [ bad e ↦ pure (bad e) | good diskbno ↦ (do blk ← read_block diskbno; pure (good blk)) ]

-- `file_dirty`; the flag is that of the block at the address that it got
unfoldable pub file_dirty : (f offset : ℕ) → Cmd Fs (Ret (Unit {0}))
unfolding file_map_block read_block
file_dirty f offset = do
  r ← file_map_block f (offset / by2blk) true
  elim r [
    | bad e ↦ pure (bad e)
    | good diskbno ↦ (do
      blk ← read_block diskbno
      modify (λ s. record s { dirty = update s.dirty diskbno true })
      pure (good tt))
  ]

-- the loops of `file_truncate`; it does not test the results
unfoldable pub clear_loop : (f n bno : ℕ) → Cmd Fs (Unit {0})
unfolding file_clear_block
clear_loop f zero bno = pure tt
clear_loop f (suc n) bno = do file_clear_block f bno; clear_loop f n (bno + 1)

-- `file_truncate`
unfoldable pub file_truncate : (f newsize : ℕ) → Cmd Fs (Unit {0})
unfolding clear_loop
file_truncate f newsize = do
  old_nblocks ← gets (λ s. (s.node f).f_size / by2blk + 1)
  let new_nblocks : ℕ = if newsize == 0 then 0 else newsize / by2blk + 1
  if leb new_nblocks ndirect
      then modify (set_node f (λ n. record n { f_indirect = 0 }))
      else pure tt
  clear_loop f (old_nblocks - new_nblocks) new_nblocks
  modify (set_node f (λ n. record n { f_size = newsize }))

-- the loop of `file_flush`
unfoldable pub flush_loop : (f n bno : ℕ) → Cmd Fs (Unit {0})
unfolding file_map_block block_is_dirty write_block
flush_loop f zero bno = pure tt
flush_loop f (suc n) bno = do
  r ← file_map_block f bno false
  elim r [
    | bad e ↦ pure tt
    | good diskno ↦ (do d ← block_is_dirty diskno; if d then write_block diskno else pure tt)
  ]
  flush_loop f n (bno + 1)

-- `file_flush`
unfoldable pub file_flush : ℕ → Cmd Fs (Unit {0})
unfolding flush_loop
file_flush f = do nblocks ← gets (λ s. (s.node f).f_size / by2blk + 1); flush_loop f nblocks 0

-- `if (f->f_dir) file_flush(f->f_dir)`
unfoldable pub flush_dir : ℕ → Cmd Fs (Unit {0})
unfolding file_flush
flush_dir f = do
  d ← gets (λ s. (s.node f).f_dir)
  elim d [ none ↦ pure tt | some dir ↦ file_flush dir ]

-- `file_set_size`
unfoldable pub file_set_size : (f newsize : ℕ) → Cmd Fs (Ret ℕ)
unfolding file_truncate flush_dir
file_set_size f newsize = do
  size ← gets (λ s. (s.node f).f_size)
  if ltb newsize size then file_truncate f newsize else pure tt
  modify (set_node f (λ n. record n { f_size = newsize }))
  flush_dir f
  pure (good 0)

-- `file_close`
unfoldable pub file_close : ℕ → Cmd Fs (Unit {0})
unfolding file_flush flush_dir
file_close f = do file_flush f; flush_dir f
