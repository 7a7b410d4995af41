-- ===== src/Fds/Table.antt =====
-- The table of descriptors of user/fd.c: the one that `fd_alloc` gives, and those that `fd_lookup`
-- accepts.
use jos_buaa_a20_porting.Prelude.{
  ℕ, zero, suc, ◌+◌, ◌-◌, ◌*◌, ◌/◌, ◌^◌, ◌≤◌, ◌<◌, ◌≡◌, ◌≢◌, refl, ap, ◌∙◌, true, arith, ◌==◌,
  Bool-cases, inl, inr, bit_and,
}
use jos_buaa_a20_porting.Mmu.{word, by2pg, pdmap, pte_v}
use jos_buaa_a20_porting.Mm.{Ret, good, bad, max_open}
use jos_buaa_a20_porting.UserMem.{User, va_perm, is_minus}
use jos_buaa_a20_porting.Fds.{
  maxfd, filebase, fdtable, index2fd, alloc_fd, fd_alloc, fd_lookup, fd2num, fd2data, num2fd,
}

-- what a search over `n` descriptors from `i` on gives
abbrev pub FirstFree : (s : User) (n i : ℕ) → Ret ℕ → Type 0
FirstFree s n i (bad e) =
    (e ≡ max_open) × ((j : ℕ) → i ≤ j → j < i + n → va_perm s (index2fd j) ≢ 0)
FirstFree s n i (good va) =
    (k : ℕ) × (va ≡ index2fd k)
    × (i ≤ k)
    × (k < i + n)
    × (va_perm s (index2fd k) ≡ 0)
    × ((j : ℕ) → i ≤ j → j < k → va_perm s (index2fd j) ≢ 0)

widen :
    (s : User) (n i : ℕ) (r : Ret ℕ)
    → va_perm s (index2fd i) ≢ 0
    → FirstFree s n (i + 1) r
    → FirstFree s (suc n) i r
widen s n i (bad e) used (full, all) = (
  full,
  λ j lo hi. elim (Bool-cases (i == j)) [
    | inl here ↦ λ z. used (ap (λ (x : ℕ). va_perm s (index2fd x)) (ground (arith, here)) ∙ z)
    | inr later ↦ all j (ground (arith, later)) (omega arith)
  ],
)
widen s n i (good va) used (k, at, lo, hi, free, before) = (
  k,
  at,
  omega arith,
  omega arith,
  free,
  λ j ge lt. elim (Bool-cases (i == j)) [
    | inl here ↦ λ z. used (ap (λ (x : ℕ). va_perm s (index2fd x)) (ground (arith, here)) ∙ z)
    | inr later ↦ before j (ground (arith, later)) lt
  ],
)

alloc_fd-FirstFree : (s : User) (n i : ℕ) → FirstFree s n i (alloc_fd n i s)
unfolding alloc_fd
alloc_fd-FirstFree s zero i = (refl, λ j lo hi. absurd (omega arith))
alloc_fd-FirstFree s (suc n) i = elim (Bool-cases (va_perm s (index2fd i) == 0)) [
  | inl free ↦
      rw free
        (i, refl, omega arith, omega arith, ground (arith, free), λ j lo hi. absurd (omega arith))
  | inr used ↦
      rw used
        (widen s n i (alloc_fd n (i + 1) s) (ground (arith, used)) (alloc_fd-FirstFree s n (i + 1)))
]

-- `fd_alloc` gives the page of the lowest descriptor below 31 that has none, or reports that all of
-- these are in use; descriptor 31 is never given.
pub fd_alloc-FirstFree : (s : User) → FirstFree s 31 0 (fd_alloc s)
unfolding fd_alloc
fd_alloc-FirstFree s = alloc_fd-FirstFree s 31 0

-- A descriptor is the number of its page, and its data are at an address of its own: the numbers
-- and addresses of the 32 descriptors are mapped back and forth, and no two of their data areas or
-- pages overlap.
pub fd2num-num2fd :
    (i j : ℕ)
    → i < maxfd
    → j < i
    → (fd2num (num2fd i) ≡ i)
      × (num2fd i ≡ index2fd i)
      × (fd2data (num2fd i) ≡ filebase + i * pdmap)
      × (num2fd j + by2pg ≤ num2fd i)
      × (num2fd i + by2pg ≤ filebase)
      × (fd2data (num2fd j) + pdmap ≤ fd2data (num2fd i))
unfolding fd2num num2fd fd2data
fd2num-num2fd i j hi hj =
    (omega arith, omega arith, omega arith, omega arith, omega arith, omega arith)

-- `fd_lookup` tests a descriptor for the upper bound only: a negative one is looked up in front of
-- the table, and the page there, if there is one, is taken for a descriptor.
pub fd_lookup-negative :
    (s : User) (n : ℕ)
    → 0 < n
    → n ≤ 2 ^ 16
    → bit_and (s.perm ((fdtable - n * by2pg) / by2pg)) pte_v ≢ 0
    → fd_lookup (word - n) s ≡ good (fdtable - n * by2pg)
unfolding fd_lookup
fd_lookup-negative s n pos small there =
    let minus : is_minus (word - n) ≡ true = ground arith in
    let at : index2fd (word - n) ≡ fdtable - n * by2pg = omega arith in
    let perm : va_perm s (fdtable - n * by2pg) ≡ s.perm ((fdtable - n * by2pg) / by2pg) =
      ground arith in
    rw minus (rw at (rw perm (ground (arith, there))))
