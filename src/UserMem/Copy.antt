-- ===== src/UserMem/Copy.antt =====
-- `memcpy`, `strcpy` and `strcmp` of user/string.c.
use jos_buaa_a20_porting.Prelude.{
  ℕ, zero, suc, ◌+◌, ◌%◌, ◌<◌, ◌≡◌, ◌≢◌, refl, ap, ◌∙◌, sym, true, done, arith, Returns,
  Returns-mono,
}
use jos_buaa_a20_porting.Mmu.{word}
use jos_buaa_a20_porting.UserMem.{
  User, page, cell, byte_at, set_byte, can_read, can_write, copy_byte, memcpy,
}

-- the cells of `n` bytes from `dst` on are not those of `n` bytes from `src` on, nor twice the same
pub record IsApart (s : User) (n dst src : ℕ) : Type 0 where
  pub fits_dst : dst + n < word
  pub fits_src : src + n < word
  pub other : (i j : ℕ) → i < n → j < n → cell s (dst + i) ≢ cell s (src + j)
  pub once : (i j : ℕ) → i < j → j < n → cell s (dst + i) ≢ cell s (dst + j)

-- the page of descriptor `k`
abbrev pub fd_page : ℕ → ℕ
fd_page k = 0x5FF00 + k

-- the `n` bytes can be read and written, and none of them is in the page of a descriptor
pub record CanCopy (s : User) (n dst src : ℕ) : Type 0 where
  pub readable : (i : ℕ) → i < n → can_read s (src + i) ≡ true
  pub writable : (i : ℕ) → i < n → can_write s (dst + i) ≡ true
  pub beside :
      (i k : ℕ)
      → i < n
      → k < 32
      → (s.frame (page (dst + i)) ≢ s.frame (fd_page k))
        × (s.frame (page (src + i)) ≢ s.frame (fd_page k))

-- a byte that can be written, in no descriptor's page
pub record CanStore (s : User) (va : ℕ) : Type 0 where
  pub allowed : can_write s va ≡ true
  pub beside : (k : ℕ) → k < 32 → s.frame (page va) ≢ s.frame (fd_page k)

-- `t` is `s` after a copy: only bytes have changed, and only those copied
pub record Copied (n dst src : ℕ) (s t : User) : Type 0 where
  pub rest_same : t ≡ record s { byte = t.byte }
  pub copied : (i : ℕ) → i < n → t.byte (cell s (dst + i)) ≡ byte_at s (src + i)
  pub others : (a : ℕ) → ((i : ℕ) → i < n → cell s (dst + i) ≢ a) → t.byte a ≡ s.byte a

shift : (a i : ℕ) → a + 1 + i ≡ a + suc i
shift a i = omega arith

start : (a : ℕ) → a + 0 ≡ a
start a = omega arith

IsApart-step :
    (n dst src : ℕ) (s : User)
    → IsApart s (suc n) dst src
    → IsApart (set_byte dst (byte_at s src) s) n (dst + 1) (src + 1)
IsApart-step n dst src s h = record {
  fits_dst = omega (arith, h.fits_dst);
  fits_src = omega (arith, h.fits_src);
  other = λ i j hi hj e.
      h.other (suc i) (suc j) (omega arith) (omega arith)
        (ap (cell s) (sym (shift dst i)) ∙ e ∙ ap (cell s) (shift src j));
  once = λ i j lt hj e.
      h.once (suc i) (suc j) (omega arith) (omega arith)
        (ap (cell s) (sym (shift dst i)) ∙ e ∙ ap (cell s) (shift dst j));
}

CanCopy-step :
    (n dst src : ℕ) (s : User)
    → CanCopy s (suc n) dst src
    → CanCopy (set_byte dst (byte_at s src) s) n (dst + 1) (src + 1)
CanCopy-step n dst src s c = record {
  readable = λ i lt. ap (can_read s) (shift src i) ∙ c.readable (suc i) (omega arith);
  writable = λ i lt. ap (can_write s) (shift dst i) ∙ c.writable (suc i) (omega arith);
  beside = λ i k lt hk.
      let b = c.beside (suc i) k (omega arith) hk in
      (
        λ e. b.0 (ap (λ (a : ℕ). s.frame (page a)) (sym (shift dst i)) ∙ e),
        λ e. b.1 (ap (λ (a : ℕ). s.frame (page a)) (sym (shift src i)) ∙ e),
      );
}

-- the first byte of a copy
copy_first :
    (n dst src : ℕ) (s : User)
    → CanCopy s (suc n) dst src
    → copy_byte dst src s ≡ done tt (set_byte dst (byte_at s src) s)
unfolding copy_byte
copy_first n dst src s c =
    let from : can_read s src ≡ true =
      ap (can_read s) (sym (start src)) ∙ c.readable 0 (omega arith) in
    let to : can_write s dst ≡ true =
      ap (can_write s) (sym (start dst)) ∙ c.writable 0 (omega arith) in
    rw from (rw to refl)

Copied-step :
    (n dst src : ℕ) (s t : User)
    → IsApart s (suc n) dst src
    → Copied n (dst + 1) (src + 1) (set_byte dst (byte_at s src) s) t
    → Copied (suc n) dst src s t
Copied-step n dst src s t h c = record {
  rest_same = c.rest_same;
  copied = at;
  others = λ a ne.
      let first : cell s dst ≢ a = λ e. ne 0 (omega arith) (ap (cell s) (start dst) ∙ e) in
      let kept : (set_byte dst (byte_at s src) s).byte a ≡ s.byte a = ground (arith, first) in
      c.others a (λ i lt e. ne (suc i) (omega arith) (ap (cell s) (sym (shift dst i)) ∙ e)) ∙ kept;
}
  where
    apart_from_first : (i : ℕ) → i < n → cell s (dst + 1 + i) ≢ cell s dst
    apart_from_first i lt e =
        h.once 0 (suc i) (omega arith) (omega arith)
          (ap (cell s) (start dst) ∙ sym e ∙ ap (cell s) (shift dst i))

    at : (i : ℕ) → i < suc n → t.byte (cell s (dst + i)) ≡ byte_at s (src + i)
    at zero lt =
        let written : (set_byte dst (byte_at s src) s).byte (cell s dst) ≡ byte_at s src =
          ground arith in
        ap (λ (a : ℕ). t.byte (cell s a)) (start dst)
        ∙ c.others (cell s dst) apart_from_first
        ∙ written
        ∙ ap (byte_at s) (sym (start src))
    at (suc i) lt =
        let away : cell s (src + suc i) ≢ cell s dst =
          λ e. h.other 0 (suc i) (omega arith) lt (ap (cell s) (start dst) ∙ sym e) in
        let kept : byte_at (set_byte dst (byte_at s src) s) (src + suc i)
            ≡ byte_at s (src + suc i) =
          ground (arith, away) in
        ap (λ (a : ℕ). t.byte (cell s a)) (sym (shift dst i))
        ∙ c.copied i (omega arith)
        ∙ ap (byte_at (set_byte dst (byte_at s src) s)) (shift src i)
        ∙ kept

-- `memcpy` between memory that does not overlap, with every byte of the destination in a cell of
-- its own, where the permissions allow it.
pub memcpy-Copied :
    (n dst src : ℕ) (s : User)
    → IsApart s n dst src
    → CanCopy s n dst src
    → Returns (λ _. Copied n dst src s) (memcpy n dst src s)
unfolding memcpy
memcpy-Copied zero dst src s h c = record {
  rest_same = refl;
  copied = λ i lt. absurd (omega arith);
  others = λ a ne. refl;
}
memcpy-Copied (suc n) dst src s h c =
    let d1 : (dst + 1) % word ≡ dst + 1 = omega (arith, h.fits_dst) in
    let s1 : (src + 1) % word ≡ src + 1 = omega (arith, h.fits_src) in
    rw (copy_first n dst src s c) (
      rw d1 (
        rw s1 (
          Returns-mono (λ _. Copied n (dst + 1) (src + 1) (set_byte dst (byte_at s src) s))
            (λ _. Copied (suc n) dst src s)
            (memcpy n (dst + 1) (src + 1) (set_byte dst (byte_at s src) s))
            (memcpy-Copied n (dst + 1) (src + 1) (set_byte dst (byte_at s src) s)
              (IsApart-step n dst src s h) (CanCopy-step n dst src s c))
            (λ _ t. Copied-step n dst src s t h))))
