-- ===== src/Tests/Files.antt =====
-- A file server with a disk of 64 blocks, of which block 3 is free.
use jos_buaa_a20_porting.Prelude.{
  ℕ, ◌≡◌, ◌≢◌, refl, true, false, arith, ◌==◌, ltb, if◌then◌else◌, done, Run, left, halt,
}
use jos_buaa_a20_porting.Mm.{Ret, good}
use jos_buaa_a20_porting.Blocks.{
  Fs, blank, in_block, is_free_bit, block_is_free, free_block, alloc_block_num, alloc_block,
  find_free, write_block,
}
use jos_buaa_a20_porting.Blocks.Bitmap.{free_block_marks_used, alloc_block_num-first}

abbrev disk : ℕ → ℕ
disk a =
    if a == 0x10001000
    then 0x68286097
    else if a == 0x10001004
    then 64
    else if a == 0x10002000
    then 8
    else 0

abbrev pub server : Fs
server = record {
  super = true;
  bitmap = true;
  mapped = λ b. ltb b 3;
  dirty = λ _. false;
  mem = disk;
  node = λ _. blank;
  disk_mem = disk;
  disk_node = λ _. blank;
  room = 10;
}

bit_3 : is_free_bit server 3 ≡ true
bit_3 = refl

abbrev state_of : Run Fs (Ret ℕ) → Fs
state_of (done r s) = s
state_of (left s) = s
state_of (halt e) = server

abbrev allocated_3 : Fs
allocated_3 = state_of (alloc_block server)

allocation : alloc_block server ≡ done (good 3) allocated_3
unfolding alloc_block alloc_block_num find_free write_block
allocation = refl

free_block_marks_used_example :
    (s' : Fs) × (free_block 5 server ≡ done tt s')
    × (is_free_bit s' 5 ≡ false)
    × ((c : ℕ) → c ≢ 5 → is_free_bit s' c ≡ is_free_bit server c)
    × (block_is_free 5 s' ≡ done false s')
free_block_marks_used_example = free_block_marks_used server 5 (ground arith) refl

alloc_block_num-first_example :
    (s' : Fs) × (alloc_block_num server ≡ done (good 3) s')
    × (is_free_bit s' 3 ≡ false)
    × ((c : ℕ) → c ≢ 3 → is_free_bit s' c ≡ is_free_bit server c)
    × ((a : ℕ) → in_block 0 a ≡ false → s'.disk_mem a ≡ server.disk_mem a)
alloc_block_num-first_example =
    alloc_block_num-first server 3 refl refl refl (omega arith) (omega arith) (omega arith)
      (λ c lo hi. absurd (omega arith)) bit_3
