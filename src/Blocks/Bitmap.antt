-- ===== src/Blocks/Bitmap.antt =====
-- The bitmap of fs/fs.c: what clearing a bit does, and the allocation of a block.
use jos_buaa_a20_porting.Prelude.{
  ℕ, zero, suc, ◌+◌, ◌-◌, ◌*◌, ◌/◌, ◌%◌, ◌^◌, ◌≤◌, ◌<◌, ◌≡◌, ◌≢◌, refl, ◌∙◌, ap, sym, Bool, true,
  false, not, ◌&&◌, arith, ◌==◌, ==_iff, Bool-cases, inl, inr, if◌then◌else◌, done, bit_and,
  bit_and_parts, bit_and_low, bit_and-zero, bit_and_digit,
}
use native.Mathlib.Nat.{one-le-pow, div-add-mod', mod-lt}
use jos_buaa_a20_porting.Mmu.{complement}
use jos_buaa_a20_porting.Mm.{good}
use jos_buaa_a20_porting.Queue.{update}
use jos_buaa_a20_porting.Blocks.{
  Fs, s_nblocks, in_block, bitmap_word, is_free_bit, clear_bit, block_is_free, free_block,
  find_free, alloc_block_num, write_block, take_block,
}

-- digit `k` of a word
abbrev pub digit_at : ℕ → ℕ → ℕ
digit_at k w = w / 2 ^ k % 2

-- the word with a single digit picks that digit
pick : (k w : ℕ) → bit_and w (2 ^ k) ≡ digit_at k w * 2 ^ k
pick k w =
    let pos : 1 ≤ 2 ^ k = one-le-pow k 2 (omega arith) in
    let one : 1 * 2 ^ k + 0 ≡ 2 ^ k = omega arith in
    omega (
      arith,
      ap (λ (x : ℕ). bit_and x (2 ^ k)) (div-add-mod' w (2 ^ k)),
      ap (λ (m : ℕ). bit_and (w / 2 ^ k * 2 ^ k + w % 2 ^ k) m) one,
      bit_and_parts k (w / 2 ^ k) (w % 2 ^ k) 1 0 (mod-lt w pos) (omega (arith, pos)),
      ap (λ (x : ℕ). x * 2 ^ k) (bit_and_low 1 (w / 2 ^ k)),
      bit_and-zero (w % 2 ^ k),
    )

-- a test on every number below a bound
abbrev holds_below : ℕ → (ℕ → Bool) → Bool
holds_below zero p = true
holds_below (suc n) p = p n && holds_below n p

holds_below-at : (n : ℕ) (p : ℕ → Bool) (i : ℕ) → holds_below n p ≡ true → i < n → p i ≡ true
holds_below-at zero p i h lt = absurd (omega arith)
holds_below-at (suc n) p i h lt = elim (Bool-cases (i == n)) [
  | inl last ↦ let here : p i ≡ p n = ap p ((==_iff i n).0 last) in ground (arith, here)
  | inr before ↦ holds_below-at n p i (ground arith) (ground arith)
]

-- the digits of the mask that clears digit `k`
mask_digits :
    (k j : ℕ) → k < 32 → j < 32 → digit_at j (complement (2 ^ k)) ≡ (if j == k then 0 else 1)
mask_digits k j hk hj = (==_iff _ _).0 (
    holds_below-at 32 (λ j'. digit_at j' (complement (2 ^ k)) == (if j' == k then 0 else 1)) j
      (holds_below-at 32
        (λ k'.
          holds_below 32 (λ j'. digit_at j' (complement (2 ^ k')) == (if j' == k' then 0 else 1)))
        k refl hk)
      hj)

cleared_digit :
    (w k j : ℕ)
    → k < 32
    → j < 32
    → digit_at j (bit_and w (complement (2 ^ k))) ≡ (if j == k then 0 else digit_at j w)
cleared_digit w k j hk hj =
    ground (arith, bit_and_digit j w (complement (2 ^ k)), mask_digits k j hk hj)

-- The bit of a block in the bitmap, as a digit.
is_free_bit_lem :
    (s : Fs) (b : ℕ) → is_free_bit s b ≡ not (digit_at (b % 32) (s.mem (bitmap_word b)) == 0)
is_free_bit_lem s b =
    let pos : 1 ≤ 2 ^ (b % 32) = one-le-pow (b % 32) 2 (omega arith) in
    elim (Bool-cases (digit_at (b % 32) (s.mem (bitmap_word b)) == 0)) [
      | inl z ↦
          let none_there : digit_at (b % 32) (s.mem (bitmap_word b)) ≡ 0 = (==_iff _ _).0 z in
          let v : bit_and (s.mem (bitmap_word b)) (2 ^ (b % 32)) ≡ 0 * 2 ^ (b % 32) =
            pick (b % 32) (s.mem (bitmap_word b)) ∙ ap (λ (d : ℕ). d * 2 ^ (b % 32)) none_there in
          ground (arith, v)
      | inr nz ↦
          let one_there : digit_at (b % 32) (s.mem (bitmap_word b)) ≡ 1 = ground arith in
          let v : bit_and (s.mem (bitmap_word b)) (2 ^ (b % 32)) ≡ 1 * 2 ^ (b % 32) =
            pick (b % 32) (s.mem (bitmap_word b)) ∙ ap (λ (d : ℕ). d * 2 ^ (b % 32)) one_there in
          ground (arith, v)
    ]

-- Clearing the bit of a block marks it as used, and no other block.
pub is_free_bit-clear_bit :
    (s : Fs) (b c : ℕ) → is_free_bit (clear_bit b s) c ≡ (if c == b then false else is_free_bit s c)
is_free_bit-clear_bit s b c =
    let w : ℕ = s.mem (bitmap_word b) in
    let cleared = cleared_digit w (b % 32) (c % 32) (omega arith) (omega arith) in
    elim (Bool-cases (c / 32 == b / 32)) [
      | inl same ↦
          let at : bitmap_word c ≡ bitmap_word b = ground arith in
          let now : (clear_bit b s).mem (bitmap_word c) ≡ bit_and w (complement (2 ^ (b % 32))) =
            ground arith in
          let was : s.mem (bitmap_word c) ≡ w = ap s.mem at in
          let index : (c % 32 == b % 32) ≡ (c == b) = ground arith in
          let d : digit_at (c % 32) ((clear_bit b s).mem (bitmap_word c))
              ≡ (if c % 32 == b % 32 then 0 else digit_at (c % 32) w) =
            ap (digit_at (c % 32)) now ∙ cleared in
          let e : digit_at (c % 32) (s.mem (bitmap_word c)) ≡ digit_at (c % 32) w =
            ap (digit_at (c % 32)) was in
          elim (Bool-cases (c == b)) [
            | inl here ↦
                let zero_there : digit_at (c % 32) ((clear_bit b s).mem (bitmap_word c)) ≡ 0 =
                  d ∙ ground arith in
                is_free_bit_lem (clear_bit b s) c
                ∙ ap (λ (x : ℕ). not (x == 0)) zero_there
                ∙ ground arith
            | inr not_here ↦
                let kept : digit_at (c % 32) ((clear_bit b s).mem (bitmap_word c))
                    ≡ digit_at (c % 32) (s.mem (bitmap_word c)) =
                  d ∙ ground arith in
                is_free_bit_lem (clear_bit b s) c
                ∙ ap (λ (x : ℕ). not (x == 0)) kept
                ∙ sym (is_free_bit_lem s c)
                ∙ ground arith
          ]
      | inr other ↦
          let elsewhere : (clear_bit b s).mem (bitmap_word c) ≡ s.mem (bitmap_word c) =
            ground arith in
          is_free_bit_lem (clear_bit b s) c
          ∙ ap (λ (x : ℕ). not (digit_at (c % 32) x == 0)) elsewhere
          ∙ sym (is_free_bit_lem s c)
          ∙ ground arith
    ]

-- `free_block` of a block marks it as used, whether it was free or not: `block_is_free` says
-- no afterwards, and its answer on every other block is as before. A freed block is not allocated
-- again.
pub free_block_marks_used :
    (s : Fs) (b : ℕ)
    → b ≢ 0
    → s.bitmap ≡ true
    → (s' : Fs) × (free_block b s ≡ done tt s')
      × (is_free_bit s' b ≡ false)
      × ((c : ℕ) → c ≢ b → is_free_bit s' c ≡ is_free_bit s c)
      × (block_is_free b s' ≡ done false s')
unfolding free_block block_is_free
free_block_marks_used s b nz loaded = (
  clear_bit b s,
  ground arith,
  ground (arith, is_free_bit-clear_bit s b b),
  λ c ne. ground (arith, is_free_bit-clear_bit s b c),
  ground (arith, is_free_bit-clear_bit s b b),
)

-- the state after `alloc_block_num` has taken block `j`: the block that it writes is block 0
abbrev pub taken : ℕ → Fs → Fs
taken j s =
    let t : Fs = clear_bit j s in
    record t {
      disk_mem = take_block 0 t.disk_mem t.mem;
      disk_node = take_block 0 t.disk_node t.node;
      dirty = update t.dirty 0 false;
    }

write_zero :
    (t : Fs)
    → 0 < s_nblocks t
    → t.mapped 0 ≡ true
    → write_block 0 t
      ≡ done tt (record t {
        disk_mem = take_block 0 t.disk_mem t.mem;
        disk_node = take_block 0 t.disk_node t.node;
        dirty = update t.dirty 0 false;
      })
unfolding write_block
write_zero t some_block cached = ground arith

-- The step of the loop at a free block.
take_free :
    (n j : ℕ) (s : Fs)
    → is_free_bit s j ≡ true
    → j < 32768
    → 0 < s_nblocks s
    → s.mapped 0 ≡ true
    → find_free (suc n) j s ≡ done (good j) (taken j s)
unfolding find_free
take_free n j s free small some_block cached =
    let index : j / 32768 ≡ 0 = omega arith in
    let size : s_nblocks (clear_bit j s) ≡ s_nblocks s = ground arith in
    let run : write_block (j / 32768) (clear_bit j s) ≡ done tt (taken j s) =
      ap (λ (b : ℕ). write_block b (clear_bit j s)) index
      ∙ write_zero (clear_bit j s) (omega (arith, size, some_block)) cached in
    rw free (rw run refl)

find_first :
    (n i j : ℕ) (s : Fs)
    → i ≤ j
    → j < i + n
    → ((c : ℕ) → i ≤ c → c < j → is_free_bit s c ≡ false)
    → is_free_bit s j ≡ true
    → j < 32768
    → 0 < s_nblocks s
    → s.mapped 0 ≡ true
    → find_free n i s ≡ done (good j) (taken j s)
unfolding find_free
find_first zero i j s le lt used free small some_block cached = absurd (omega arith)
find_first (suc n) i j s le lt used free small some_block cached = elim (Bool-cases (i == j)) [
  | inl here ↦
      let same : i ≡ j = (==_iff i j).0 here in
      ap (λ (b : ℕ). find_free (suc n) b s) same ∙ take_free n j s free small some_block cached
  | inr before ↦
      let no : is_free_bit s i ≡ false = used i (omega arith) (ground arith) in
      let rest : find_free n (i + 1) s ≡ done (good j) (taken j s) =
        find_first n (i + 1) j s (ground arith) (omega arith) (λ c lo hi. used c (omega arith) hi)
          free small some_block cached in
      rw no rest
]

-- With the super block and the bitmap loaded and block 0 in memory, and where the first free block
-- from block 3 on is block `j` below 32768: `alloc_block_num` takes `j`, and marks it as used and no
-- other; but it does not write the bitmap to the disk, where `j` stays free: every word of the disk
-- outside block 0 is as before. (For `j` from 32768 on it would write block `j / 32768`.)
pub alloc_block_num-first :
    (s : Fs) (j : ℕ)
    → s.super ≡ true
    → s.bitmap ≡ true
    → s.mapped 0 ≡ true
    → 3 ≤ j
    → j < s_nblocks s
    → j < 32768
    → ((c : ℕ) → 3 ≤ c → c < j → is_free_bit s c ≡ false)
    → is_free_bit s j ≡ true
    → (s' : Fs) × (alloc_block_num s ≡ done (good j) s')
      × (is_free_bit s' j ≡ false)
      × ((c : ℕ) → c ≢ j → is_free_bit s' c ≡ is_free_bit s c)
      × ((a : ℕ) → in_block 0 a ≡ false → s'.disk_mem a ≡ s.disk_mem a)
unfolding alloc_block_num
alloc_block_num-first s j sup loaded cached lo hi small used free = (
  taken j s,
  ground (
    arith,
    find_first (s_nblocks s - 3) 3 j s (omega arith) (omega arith) used free small (omega arith)
        cached,
  ),
  ground (arith, is_free_bit-clear_bit s j j),
  λ c ne. ground (arith, is_free_bit-clear_bit s j c),
  λ a out. ground (arith, out),
)
