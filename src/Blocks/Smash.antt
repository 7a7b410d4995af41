-- ===== src/Blocks/Smash.antt =====
-- `check_write_block` of fs/fs.c: the super block survives the test of the disk.
use jos_buaa_a20_porting.Prelude.{
  ℕ, suc, ◌+◌, ◌-◌, ◌≤◌, ◌<◌, ◌≡◌, refl, ap, true, false, arith, ◌==◌, done, and_then, modify,
}
use jos_buaa_a20_porting.Queue.{update}
use jos_buaa_a20_porting.Blocks.{Fs, blank, place, in_block, take_block, read_block, write_block}
use jos_buaa_a20_porting.Blocks.Start.{copy_block, smash, is_smashed, drop_page, check_write_block}

-- `read_block` of a block that is not in memory, before the super block and the bitmap are there
abbrev loaded : (b n : ℕ) → Fs → Fs
loaded b n s = record s {
  room = n;
  mapped = update s.mapped b true;
  mem = take_block b (take_block b s.mem (λ _. 0)) s.disk_mem;
  node = take_block b (take_block b s.node (λ _. blank)) s.disk_node;
}

read_block_lem :
    (b n : ℕ) (s : Fs)
    → s.super ≡ false
    → s.bitmap ≡ false
    → s.mapped b ≡ false
    → s.room ≡ suc n
    → read_block b s ≡ done (place b) (loaded b n s)
unfolding read_block
read_block_lem b n s sup bit map room = rw sup (rw bit (rw map (rw room refl)))

-- the state behind `write_block`
abbrev flushed : (b : ℕ) → Fs → Fs
flushed b s = record s {
  disk_mem = take_block b s.disk_mem s.mem;
  disk_node = take_block b s.disk_node s.node;
  dirty = update s.dirty b false;
}

flushed_lem :
    (b : ℕ) (s : Fs) → s.super ≡ false → s.mapped b ≡ true → write_block b s ≡ done tt (flushed b s)
unfolding write_block
flushed_lem b s sup map = rw sup (rw map refl)

-- the states of `check_write_block`: block 0 has the super block, and block 1 is smashed; this is
-- on the disk, and read from it; the super block is back
abbrev smashed : ℕ → Fs → Fs
smashed n s = smash (copy_block 1 0 (loaded 0 n (record s { super = false })))

abbrev reread : ℕ → Fs → Fs
reread n s = loaded 1 n (drop_page 1 (flushed 1 (smashed n s)))

abbrev restored : ℕ → Fs → Fs
restored n s = record (flushed 1 (copy_block 0 1 (reread n s))) { super = true }

reread-is_smashed : (n : ℕ) (s : Fs) → is_smashed (reread n s) ≡ true
reread-is_smashed n s = ground arith

restored_lem :
    (n : ℕ) (s : Fs)
    → s.bitmap ≡ false
    → s.mapped 0 ≡ false
    → s.mapped 1 ≡ true
    → s.room ≡ suc n
    → check_write_block s ≡ done tt (restored n s)
unfolding check_write_block
restored_lem n s bit zero_out one_in room =
    let first = read_block_lem 0 n (record s { super = false }) refl bit zero_out room in
    let wrote = flushed_lem 1 (smashed n s) refl one_in in
    let again =
      read_block_lem 1 n (drop_page 1 (flushed 1 (smashed n s))) refl bit refl (omega arith) in
    let last = flushed_lem 1 (copy_block 0 1 (reread n s)) refl refl in
    rw first (
      rw wrote (
        rw one_in (
          rw again (
            rw (reread-is_smashed n s)
              (ap (λ r. and_then r (λ _. modify (λ (u : Fs). record u { super = true }))) last)))))

-- the address in block 0 for one in block 1
abbrev copy_of : ℕ → ℕ
copy_of a = place 0 + (a - place 1)

copy_of_lem :
    (a : ℕ)
    → in_block 1 a ≡ true
    → (in_block 1 (copy_of a) ≡ false)
      × (in_block 0 (copy_of a) ≡ true)
      × (in_block 0 a ≡ false)
      × (place 1 + (copy_of a - place 0) ≡ a)
      × ((copy_of a == place 1) ≡ false)
      × ((copy_of a == place 1 + 4) ≡ false)
copy_of_lem a h =
    let lo : place 1 ≤ a = ground (arith, h) in
    let hi : a < place 1 + 4096 = ground (arith, h) in
    (
      ground (arith, lo, hi),
      ground (arith, lo, hi),
      ground (arith, lo),
      omega (arith, lo),
      ground (arith, hi),
      ground (arith, hi),
    )

restored_mem : (n : ℕ) (s : Fs) (a : ℕ) → in_block 1 a ≡ true → (restored n s).mem a ≡ s.mem a
restored_mem n s a inside =
    let (out1, in0, out0, back, ne, ne') = copy_of_lem a inside in
    rw inside (rw out1 (rw ne (rw ne' (rw in0 (rw back (rw out0 refl))))))

restored_node : (n : ℕ) (s : Fs) (a : ℕ) → in_block 1 a ≡ true → (restored n s).node a ≡ s.node a
restored_node n s a inside =
    let (out1, in0, out0, back, ne, ne') = copy_of_lem a inside in
    rw inside (rw out1 (rw in0 (rw back (rw out0 refl))))

-- `check_write_block`, with the super block in memory, block 0 not, and a page left for it, returns,
-- and then the super block is in memory as it was, and on the disk as in memory; no other block of
-- the disk has changed, nor any of memory but block 0.
pub check_write_block-restores :
    (s : Fs) (n : ℕ)
    → s.bitmap ≡ false
    → s.mapped 0 ≡ false
    → s.mapped 1 ≡ true
    → s.room ≡ suc n
    → (t : Fs) × (check_write_block s ≡ done tt t)
      × (t.super ≡ true)
      × ((a : ℕ)
          → in_block 1 a ≡ true
          → (t.mem a ≡ s.mem a)
            × (t.node a ≡ s.node a)
            × (t.disk_mem a ≡ s.mem a)
            × (t.disk_node a ≡ s.node a))
      × ((a : ℕ)
          → in_block 1 a ≡ false
          → (t.disk_mem a ≡ s.disk_mem a) × (t.disk_node a ≡ s.disk_node a))
      × ((a : ℕ)
          → in_block 0 a ≡ false
          → in_block 1 a ≡ false
          → (t.mem a ≡ s.mem a) × (t.node a ≡ s.node a))
check_write_block-restores s n bit zero_out one_in room = (
  restored n s,
  restored_lem n s bit zero_out one_in room,
  refl,
  λ a inside.
      let m = restored_mem n s a inside in
      let v = restored_node n s a inside in
      (m, v, rw inside (rw inside at m), rw inside (rw inside at v)),
  λ a out. (rw out refl, rw out refl),
  λ a out0 out1.
      let ne : (a == place 1) ≡ false = ground (arith, out1) in
      let ne' : (a == place 1 + 4) ≡ false = ground (arith, out1) in
      (rw out1 (rw ne (rw ne' (rw out0 refl))), rw out1 (rw out0 refl)),
)
