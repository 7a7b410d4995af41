-- ===== src/Blocks/Sync.antt =====
-- `fs_sync` of fs/fs.c: the dirty blocks get to the disk.
use jos_buaa_a20_porting.Prelude.{
  ℕ, zero, suc, ◌+◌, ◌≤◌, ◌<◌, ◌≡◌, refl, ap, ◌∙◌, Bool, true, false, ◌&&◌, arith, ◌==◌, Bool-cases,
  inl, inr, if◌then◌else◌, done, Returns, Returns-mono, Returns-done,
}
use jos_buaa_a20_porting.Queue.{update}
use jos_buaa_a20_porting.Blocks.{
  Fs, s_nblocks, in_block, take_block, block_is_dirty, write_block, sync_loop, fs_sync,
}

abbrev pub is_pending : Fs → ℕ → Bool
is_pending s b = s.mapped b && s.dirty b

-- `t` is `s` with the pending ones among the `n` blocks from `i` on written to the disk
pub record Synced (n i : ℕ) (s t : Fs) : Type 0 where
  pub same_mem : t.mem ≡ s.mem
  pub same_node : t.node ≡ s.node
  pub same_mapped : t.mapped ≡ s.mapped
  pub no_pending : (b : ℕ) → i ≤ b → b < i + n → is_pending t b ≡ false
  pub other_dirty : (b : ℕ) → b < i → t.dirty b ≡ s.dirty b
  pub on_disk :
      (b a : ℕ)
      → i ≤ b
      → b < i + n
      → is_pending s b ≡ true
      → in_block b a ≡ true
      → (t.disk_mem a ≡ s.mem a) × (t.disk_node a ≡ s.node a)
  pub untouched :
      (a : ℕ)
      → ((b : ℕ) → i ≤ b → b < i + n → is_pending s b ≡ true → in_block b a ≡ false)
      → (t.disk_mem a ≡ s.disk_mem a) × (t.disk_node a ≡ s.disk_node a)
  pub still_there :
      (a : ℕ)
      → s.disk_mem a ≡ s.mem a
      → s.disk_node a ≡ s.node a
      → (t.disk_mem a ≡ s.mem a) × (t.disk_node a ≡ s.node a)

-- a round of the loop
abbrev written : ℕ → Fs → Fs
written b s =
    if is_pending s b
    then record s {
      disk_mem = take_block b s.disk_mem s.mem;
      disk_node = take_block b s.disk_node s.node;
      dirty = update s.dirty b false;
    }
    else s

-- `write_block` of a block of the disk that is in memory
pub write_block_lem :
    (b : ℕ) (s : Fs)
    → b < s_nblocks s
    → s.mapped b ≡ true
    → write_block b s
      ≡ done tt (record s {
        disk_mem = take_block b s.disk_mem s.mem;
        disk_node = take_block b s.disk_node s.node;
        dirty = update s.dirty b false;
      })
unfolding write_block
write_block_lem b s lt here = ground arith

pub block_is_dirty_lem :
    (b : ℕ) (s : Fs) → b < s_nblocks s → block_is_dirty b s ≡ done (is_pending s b) s
unfolding block_is_dirty
block_is_dirty_lem b s lt = ground arith

sync_round :
    (n i : ℕ) (s : Fs) → i < s_nblocks s → sync_loop (suc n) i s ≡ sync_loop n (i + 1) (written i s)
unfolding sync_loop
sync_round n i s lt = elim (Bool-cases (is_pending s i)) [
  | inl pending ↦
      let here : s.mapped i ≡ true = ground (arith, pending) in
      rw (block_is_dirty_lem i s lt) (rw pending (rw (write_block_lem i s lt here) refl))
  | inr not_pending ↦ rw (block_is_dirty_lem i s lt) (rw not_pending refl)
]

from_pending :
    (n i : ℕ) (s t : Fs)
    → is_pending s i ≡ true
    → Synced n
        (i + 1)
        (record s {
          disk_mem = take_block i s.disk_mem s.mem;
          disk_node = take_block i s.disk_node s.node;
          dirty = update s.dirty i false;
        })
        t
    → Synced (suc n) i s t
from_pending n i s t pending h = record {
  same_mem = h.same_mem;
  same_node = h.same_node;
  same_mapped = h.same_mapped;
  no_pending = λ b lo hi. elim (Bool-cases (i == b)) [
    | inl here ↦ ground (arith, here, h.other_dirty b)
    | inr later ↦ h.no_pending b (ground (arith, later)) (omega arith)
  ];
  other_dirty = λ b lt. ground (arith, h.other_dirty b);
  on_disk = λ b a lo hi p inside. elim (Bool-cases (i == b)) [
    | inl here ↦
        let at : in_block i a ≡ true = ground (arith, here, inside) in
        h.still_there a (rw at refl) (rw at refl)
    | inr later ↦
        h.on_disk b a (ground (arith, later)) (omega arith) (ground (arith, later, p)) inside
  ];
  untouched = λ a clean.
      let away : in_block i a ≡ false = clean i (omega arith) (omega arith) pending in
      let (m, n) =
        h.untouched a (λ b lo hi p. clean b (omega arith) (omega arith) (ground (arith, p))) in
      (m ∙ rw away refl, n ∙ rw away refl);
  still_there = λ a em en. elim (Bool-cases (in_block i a)) [
    | inl inside ↦ h.still_there a (rw inside refl) (rw inside refl)
    | inr away ↦ h.still_there a (rw away em) (rw away en)
  ];
}

from_clean :
    (n i : ℕ) (s t : Fs) → is_pending s i ≡ false → Synced n (i + 1) s t → Synced (suc n) i s t
from_clean n i s t clean_here h = record {
  same_mem = h.same_mem;
  same_node = h.same_node;
  same_mapped = h.same_mapped;
  no_pending = λ b lo hi. elim (Bool-cases (i == b)) [
    | inl here ↦
        ground (arith, here, clean_here, h.other_dirty b, ap (λ (m : ℕ → Bool). m b) h.same_mapped)
    | inr later ↦ h.no_pending b (ground (arith, later)) (omega arith)
  ];
  other_dirty = λ b lt. h.other_dirty b (omega arith);
  on_disk = λ b a lo hi p inside. elim (Bool-cases (i == b)) [
    | inl here ↦ ground (arith, here, clean_here, p)
    | inr later ↦ h.on_disk b a (ground (arith, later)) (omega arith) p inside
  ];
  untouched = λ a clean. h.untouched a (λ b lo hi p. clean b (omega arith) (omega arith) p);
  still_there = h.still_there;
}

-- A round and then the others.
written-Synced : (n i : ℕ) (s t : Fs) → Synced n (i + 1) (written i s) t → Synced (suc n) i s t
written-Synced n i s t h = elim (Bool-cases (is_pending s i)) [
  | inl pending ↦ from_pending n i s t pending (rw pending at h)
  | inr not_pending ↦ from_clean n i s t not_pending (rw not_pending at h)
]

sync_loop-Synced :
    (n i : ℕ) (s : Fs) → i + n ≤ s_nblocks s → Returns (λ _. Synced n i s) (sync_loop n i s)
unfolding sync_loop
sync_loop-Synced zero i s le = record {
  same_mem = refl;
  same_node = refl;
  same_mapped = refl;
  no_pending = λ b lo hi. absurd (omega arith);
  other_dirty = λ b lt. refl;
  on_disk = λ b a lo hi p inside. absurd (omega arith);
  untouched = λ a clean. (refl, refl);
  still_there = λ a em en. (em, en);
}
sync_loop-Synced (suc n) i s le =
    let size : s_nblocks (written i s) ≡ s_nblocks s = ground arith in
    rw (sync_round n i s (omega arith)) (
      Returns-mono (λ _. Synced n (i + 1) (written i s)) (λ _. Synced (suc n) i s)
        (sync_loop n (i + 1) (written i s))
        (sync_loop-Synced n (i + 1) (written i s) (omega (arith, size)))
        (λ _ t. written-Synced n i s t))

fs_sync_lem : (s : Fs) → s.super ≡ true → fs_sync s ≡ sync_loop (s_nblocks s) 0 s
unfolding fs_sync
fs_sync_lem s sup = ground arith

-- `fs_sync` returns, and then no block of the disk that is in memory is dirty; the words and nodes
-- of each block that was in memory and dirty are on the disk as they are in memory, all other words
-- and nodes of the disk are as before, and memory has not changed.
pub fs_sync-Synced :
    (s : Fs)
    → s.super ≡ true
    → (t : Fs) × (fs_sync s ≡ done tt t)
      × (t.mem ≡ s.mem)
      × (t.node ≡ s.node)
      × ((b : ℕ) → b < s_nblocks s → is_pending t b ≡ false)
      × ((b a : ℕ)
          → b < s_nblocks s
          → is_pending s b ≡ true
          → in_block b a ≡ true
          → (t.disk_mem a ≡ s.mem a) × (t.disk_node a ≡ s.node a))
      × ((a : ℕ)
          → ((b : ℕ) → b < s_nblocks s → is_pending s b ≡ true → in_block b a ≡ false)
          → (t.disk_mem a ≡ s.disk_mem a) × (t.disk_node a ≡ s.disk_node a))
fs_sync-Synced s sup =
    let (u, t, run, h) =
      Returns-done (λ _. Synced (s_nblocks s) 0 s) (sync_loop (s_nblocks s) 0 s)
        (sync_loop-Synced (s_nblocks s) 0 s (omega arith)) in
    (
      t,
      fs_sync_lem s sup ∙ run,
      h.same_mem,
      h.same_node,
      λ b lt. h.no_pending b (omega arith) (omega arith),
      λ b a lt p inside. h.on_disk b a (omega arith) (omega arith) p inside,
      λ a clean. h.untouched a (λ b lo hi p. clean b (omega arith) p),
    )
