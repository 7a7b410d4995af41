-- ===== src/Files/Slots.antt =====
-- The block of a file that `file_map_block` of fs/fs.c gives, and gives again.
use jos_buaa_a20_porting.Prelude.{ℕ, ◌<◌, ◌≡◌, ◌≢◌, true, false, arith, ◌==◌, if◌then◌else◌, done}
use jos_buaa_a20_porting.Mm.{good, bad, not_found}
use jos_buaa_a20_porting.Blocks.{Fs, alloc_block}
use jos_buaa_a20_porting.Files.{direct, set_slot, file_map_block}

-- `file_map_block` of one of the first ten blocks, without `alloc`: the number in its slot, or
-- `-E_NOT_FOUND` where that is 0; nothing changes.
pub map_direct :
    (s : Fs) (f i : ℕ)
    → i < 10
    → file_map_block f i false s
      ≡ done (if (s.node f).f_direct i == 0 then bad not_found else good ((s.node f).f_direct i)) s
unfolding file_map_block
map_direct s f i h = ground arith

-- With `alloc`, a block that is not there is allocated; the same block is found there afterwards,
-- and the other slots of the file are as the allocation left them.
pub file_map_block_again :
    (s s1 : Fs) (f i n : ℕ)
    → i < 10
    → (s.node f).f_direct i ≡ 0
    → alloc_block s ≡ done (good n) s1
    → n ≢ 0
    → (s' : Fs) × (file_map_block f i true s ≡ done (good n) s')
      × (file_map_block f i false s' ≡ done (good n) s')
      × ((j : ℕ) → j ≢ i → (s'.node f).f_direct j ≡ (s1.node f).f_direct j)
unfolding file_map_block set_slot
file_map_block_again s s1 f i n h empty run nz =
    let s' : Fs = set_slot (direct f i) n s1 in
    let there : (s'.node f).f_direct i ≡ n = ground arith in
    (s', ground arith, ground (arith, map_direct s' f i h, there), λ j ne. ground arith)
