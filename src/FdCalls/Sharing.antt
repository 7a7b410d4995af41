-- ===== src/FdCalls/Sharing.antt =====
-- `dup` of user/fd.c: two descriptors share one offset and the pages of the data.
use jos_buaa_a20_porting.Prelude.{
  ℕ, zero, suc, ◌+◌, ◌-◌, ◌*◌, ◌%◌, ◌^◌, ◌≤◌, ◌<◌, ◌≡◌, ◌≢◌, refl, ap, ◌∙◌, sym, Bool, true, false,
  arith, ◌==◌, leb, Bool-cases, inl, inr, ◌⊎◌, if◌then◌else◌, Cmd, done, Returns, Returns-done,
  Returns-mono, bit_and, bit_or, bit_and-bit_or_self,
}
use jos_buaa_a20_porting.Mmu.{word, by2pg, pte_v, utop, ulim}
use jos_buaa_a20_porting.Mm.{Error, Ret, good, bad}
use jos_buaa_a20_porting.UserMem.{User, page, enter, set_filefd, va_perm, is_minus, mem_map}
use jos_buaa_a20_porting.Fds.{fd_lookup, fd2data, index2fd}
use jos_buaa_a20_porting.FileCalls.Truncate.{fd2data-index2fd}
use jos_buaa_a20_porting.FdCalls.{find_fd, set_offset, offset_of, dup_pages, close, dup, seek}

-- whether `dup` copies the mapping of a page
abbrev pub is_whole : User → ℕ → Bool
is_whole s p = bit_and (s.perm p) pte_v == pte_v

-- a round of the loop, from page `p` to page `q`
abbrev mapped : (p q : ℕ) → User → User
mapped p q s = if is_whole s p then enter q (s.frame p) (s.perm p) s else s

mem_map_lem :
    (src dst perm : ℕ) (s : User)
    → src < utop
    → dst < utop
    → (bit_and perm pte_v == pte_v) ≡ true
    → (bit_and (s.perm (page src)) pte_v == pte_v) ≡ true
    → s.can_map (page dst) ≡ true
    → mem_map src dst perm s ≡ done (good 0) (enter (page dst) (s.frame (page src)) perm s)
unfolding mem_map
mem_map_lem src dst perm s a b whole there can =
    let p : (bit_and perm pte_v == 0) ≡ false = ground (arith, whole) in
    let q : (bit_and (s.perm (page src)) pte_v == 0) ≡ false = ground (arith, there) in
    let a' : leb utop src ≡ false = ground (arith, a) in
    let b' : leb utop dst ≡ false = ground (arith, b) in rw a' (rw b' (rw p (rw q (rw can refl))))

dup_round :
    (ova nva n i : ℕ) (s : User)
    → ova + i < utop
    → nva + i < utop
    → s.perm (page (ova + i)) < 2 ^ 31
    → s.can_map (page (nva + i)) ≡ true
    → dup_pages ova nva (suc n) i s
      ≡ dup_pages ova nva n (i + by2pg) (mapped (page (ova + i)) (page (nva + i)) s)
unfolding dup_pages
dup_round ova nva n i s a b small can =
    let a' : (ova + i) % word ≡ ova + i = omega (arith, a) in
    let b' : (nva + i) % word ≡ nva + i = omega (arith, b) in
    let perm : va_perm s (ova + i) ≡ s.perm (page (ova + i)) = ground (arith, a) in
    let plus : is_minus (s.perm (page (ova + i))) ≡ false = ground (arith, small) in
    elim (Bool-cases (is_whole s (page (ova + i)))) [
      | inl whole ↦
          let run =
            mem_map_lem (ova + i) (nva + i) (s.perm (page (ova + i))) s a b whole whole can in
          rw a' (rw b' (rw perm (rw plus (rw whole (rw run refl)))))
      | inr not_whole ↦ rw a' (rw b' (rw perm (rw plus (rw not_whole refl))))
    ]

-- The loop in terms of page numbers: `n` pages from `k` on, those of the old data from page `pa`
-- and those of the new from page `pb`, which are apart; the kernel maps each of them.
record IsDupable (s : User) (pa pb n k : ℕ) : Type 0 where
  below : (pa + k + n ≤ 2 ^ 19 - 2 ^ 10) × (pb + k + n ≤ 2 ^ 19 - 2 ^ 10)
  apart : (pa + k + n ≤ pb) ⊎ (pb + k + n ≤ pa)
  small : (j : ℕ) → k ≤ j → j < k + n → s.perm (pa + j) < 2 ^ 31
  can : (j : ℕ) → k ≤ j → j < k + n → s.can_map (pb + j) ≡ true

record Shared (pa pb n k : ℕ) (s t : User) : Type 0 where
  same : t ≡ record s { frame = t.frame; perm = t.perm }
  shared :
      (j : ℕ) → k ≤ j → j < k + n → is_whole s (pa + j) ≡ true → t.frame (pb + j) ≡ s.frame (pa + j)
  others :
      (p : ℕ) → (p < pb + k) ⊎ (pb + k + n ≤ p) → (t.frame p ≡ s.frame p) × (t.perm p ≡ s.perm p)

-- a round changes the page of the new data only
mapped_other :
    (p q x : ℕ) (s : User)
    → x ≢ q
    → ((mapped p q s).frame x ≡ s.frame x) × ((mapped p q s).perm x ≡ s.perm x)
mapped_other p q x s ne = elim (Bool-cases (is_whole s p)) [
  | inl whole ↦ rw whole (ground (arith, ne), ground (arith, ne))
  | inr not_whole ↦ rw not_whole (refl, refl)
]

mapped_same :
    (p q : ℕ) (s : User)
    → mapped p q s ≡ record s { frame = (mapped p q s).frame; perm = (mapped p q s).perm }
mapped_same p q s = elim (Bool-cases (is_whole s p)) [
  | inl whole ↦ rw whole refl
  | inr not_whole ↦ rw not_whole refl
]

mapped_can : (p q : ℕ) (s : User) → (mapped p q s).can_map ≡ s.can_map
mapped_can p q s = ap (λ (u : User). u.can_map) (mapped_same p q s)

IsDupable-step :
    (s : User) (pa pb n k : ℕ)
    → IsDupable s pa pb (suc n) k
    → IsDupable (mapped (pa + k) (pb + k) s) pa pb n (k + 1)
IsDupable-step s pa pb n k h = record {
  below = omega (arith, h.below.0, h.below.1);
  apart = ground (arith, h.apart);
  small = λ j lo hi.
      let kept : (mapped (pa + k) (pb + k) s).perm (pa + j) ≡ s.perm (pa + j) =
        (mapped_other (pa + k) (pb + k) (pa + j) s (ground (arith, h.apart))).1 in
      omega (arith, kept, h.small j (omega arith) (omega arith));
  can = λ j lo hi.
      ap (λ (c : ℕ → Bool). c (pb + j)) (mapped_can (pa + k) (pb + k) s)
      ∙ h.can j (omega arith) (omega arith);
}

Shared-step :
    (s t : User) (pa pb n k : ℕ)
    → IsDupable s pa pb (suc n) k
    → Shared pa pb n (k + 1) (mapped (pa + k) (pb + k) s) t
    → Shared pa pb (suc n) k s t
Shared-step s t pa pb n k h c = record {
  same =
      c.same
      ∙ ap (λ (u : User). record u { frame = t.frame; perm = t.perm })
          (mapped_same (pa + k) (pb + k) s);
  shared = λ j lo hi whole. elim (Bool-cases (k == j)) [
    | inl here ↦
        let at : k ≡ j = ground (arith, here) in
        let now : is_whole s (pa + k) ≡ true = ap (λ (x : ℕ). is_whole s (pa + x)) at ∙ whole in
        let set : (mapped (pa + k) (pb + k) s).frame (pb + k) ≡ s.frame (pa + k) =
          rw now (ground arith) in
        ap (λ (x : ℕ). t.frame (pb + x)) (sym at)
        ∙ (c.others (pb + k) (inl (omega arith))).0
        ∙ set
        ∙ ap (λ (x : ℕ). s.frame (pa + x)) at
    | inr later ↦
        let away : pa + j ≢ pb + k = ground (arith, h.apart, lo, hi) in
        let kept = mapped_other (pa + k) (pb + k) (pa + j) s away in
        let whole' : is_whole (mapped (pa + k) (pb + k) s) (pa + j) ≡ true =
          ap (λ (x : ℕ). bit_and x pte_v == pte_v) kept.1 ∙ whole in
        c.shared j (ground (arith, lo, later)) (omega arith) whole' ∙ kept.0
  ];
  others = λ p out.
      let away : p ≢ pb + k = ground (arith, out) in
      let kept = mapped_other (pa + k) (pb + k) p s away in
      let (f, m) = c.others p (ground (arith, out)) in (f ∙ kept.0, m ∙ kept.1);
}

dup_pages_zero : (a b i : ℕ) (s : User) → dup_pages a b 0 i s ≡ done (good 0) s
unfolding dup_pages
dup_pages_zero a b i s = refl

dup_pages_step :
    (n k pa pb : ℕ) (s : User)
    → IsDupable s pa pb (suc n) k
    → dup_pages (pa * by2pg) (pb * by2pg) (suc n) (k * by2pg) s
      ≡ dup_pages (pa * by2pg) (pb * by2pg) n ((k + 1) * by2pg) (mapped (pa + k) (pb + k) s)
dup_pages_step n k pa pb s h =
    let at : page (pa * by2pg + k * by2pg) ≡ pa + k = omega arith in
    let at' : page (pb * by2pg + k * by2pg) ≡ pb + k = omega arith in
    let next : k * by2pg + by2pg ≡ (k + 1) * by2pg = omega arith in
    let small : s.perm (page (pa * by2pg + k * by2pg)) < 2 ^ 31 =
      rw at (h.small k (omega arith) (omega arith)) in
    let can : s.can_map (page (pb * by2pg + k * by2pg)) ≡ true =
      ap s.can_map at' ∙ h.can k (omega arith) (omega arith) in
    dup_round (pa * by2pg) (pb * by2pg) n (k * by2pg) s (omega (arith, h.below.0))
      (omega (arith, h.below.1)) small can
    ∙ ap
        (λ (i : ℕ).
          dup_pages (pa * by2pg) (pb * by2pg) n i
            (mapped (page (pa * by2pg + k * by2pg)) (page (pb * by2pg + k * by2pg)) s))
        next
    ∙ ap
        (λ (p : ℕ).
          dup_pages (pa * by2pg) (pb * by2pg) n ((k + 1) * by2pg)
            (mapped p (page (pb * by2pg + k * by2pg)) s))
        at
    ∙ ap (λ (q : ℕ). dup_pages (pa * by2pg) (pb * by2pg) n ((k + 1) * by2pg) (mapped (pa + k) q s))
        at'

dup_pages-Shared :
    (n k pa pb : ℕ) (s : User)
    → IsDupable s pa pb n k
    → Returns
        (λ r t. (r ≡ good 0) × Shared pa pb n k s t)
        (dup_pages (pa * by2pg) (pb * by2pg) n (k * by2pg) s)
dup_pages-Shared zero k pa pb s h = rw (dup_pages_zero (pa * by2pg) (pb * by2pg) (k * by2pg) s) (
  refl,
  record {
    same = refl;
    shared = λ j lo hi whole. absurd (omega arith);
    others = λ p out. (refl, refl);
  },
)
dup_pages-Shared (suc n) k pa pb s h = rw (dup_pages_step n k pa pb s h) (
    Returns-mono (λ r t. (r ≡ good 0) × Shared pa pb n (k + 1) (mapped (pa + k) (pb + k) s) t)
      (λ r t. (r ≡ good 0) × Shared pa pb (suc n) k s t)
      (dup_pages (pa * by2pg) (pb * by2pg) n ((k + 1) * by2pg) (mapped (pa + k) (pb + k) s))
      (dup_pages-Shared n (k + 1) pa pb (mapped (pa + k) (pb + k) s) (IsDupable-step s pa pb n k h))
      (λ r t c. (c.0, Shared-step s t pa pb n k h c.1)))

-- the first page of the data of a descriptor, and the page of the descriptor itself
abbrev pub data_page : ℕ → ℕ
data_page i = 0x60000 + i * 256

abbrev pub fd_page : ℕ → ℕ
fd_page i = 0x5FF00 + i

-- the page of a descriptor that `dup` has mapped is found
fd_page-perm :
    (t : User) (old new : ℕ)
    → (enter (fd_page new) (t.frame (fd_page old)) (t.perm (fd_page old)) t).perm (fd_page new)
      ≡ bit_or (t.perm (fd_page old)) pte_v
fd_page-perm t old new = ground arith

va_perm_page : (t : User) (va p : ℕ) → va < ulim → page va ≡ p → va_perm t va ≡ t.perm p
va_perm_page t va p lt at = rw (← at) (ground (arith, lt))

fd_lookup_lem :
    (v : User) (n : ℕ)
    → leb 32 n ≡ false
    → (bit_and (va_perm v (index2fd n)) pte_v == 0) ≡ false
    → fd_lookup n v ≡ good (index2fd n)
unfolding fd_lookup
fd_lookup_lem v n inside there = elim (Bool-cases (is_minus n)) [
  | inl minus ↦ rw minus (rw there refl)
  | inr plus ↦ rw plus (rw inside (rw there refl))
]

seek_new :
    (v : User) (new offset x : ℕ)
    → new < 32
    → v.perm (fd_page new) ≡ bit_or x pte_v
    → seek new offset v ≡ done (good 0) (set_filefd (index2fd new) (set_offset offset) v)
unfolding seek
seek_new v new offset x lt at =
    let inside : leb 32 new ≡ false = ground (arith, lt) in
    let perm : va_perm v (index2fd new) ≡ bit_or x pte_v =
      va_perm_page v (index2fd new) (fd_page new) (omega arith) (omega arith) ∙ at in
    let there : (bit_and (bit_or x pte_v) pte_v == 0) ≡ false =
      ground (arith, bit_and-bit_or_self x pte_v) in
    let found : fd_lookup new v ≡ good (index2fd new) =
      fd_lookup_lem v new inside (rw perm there) in
    rw found refl

module _ (server : (req : ℕ) → (page : ℕ → ℕ) → (dstva : ℕ) → Cmd User (Ret ℕ × ℕ))
    (piperead pipewrite : (fd buf n offset : ℕ) → Cmd User (Ret ℕ)) where
  dup_lem :
      (s t : User) (old new : ℕ) (e : Error)
      → old < 32
      → new < 32
      → fd_lookup old s ≡ good (index2fd old)
      → find_fd new s ≡ bad e
      → dup_pages (data_page old * by2pg) (data_page new * by2pg) 256 (0 * by2pg) s
        ≡ done (good 0) t
      → is_whole t (fd_page old) ≡ true
      → t.perm (fd_page old) < 2 ^ 31
      → t.can_map (fd_page new) ≡ true
      → dup server piperead pipewrite old new s
        ≡ done (good new) (enter (fd_page new) (t.frame (fd_page old)) (t.perm (fd_page old)) t)
  unfolding dup close
  dup_lem s t old new e lo ln found closed pages whole small can =
      let data_old : fd2data (index2fd old) ≡ data_page old * by2pg =
        fd2data-index2fd old lo ∙ omega arith in
      let data_new : fd2data (index2fd new) ≡ data_page new * by2pg =
        fd2data-index2fd new ln ∙ omega arith in
      let at : page (index2fd old) ≡ fd_page old = omega arith in
      let at' : page (index2fd new) ≡ fd_page new = omega arith in
      let perm : va_perm t (index2fd old) ≡ t.perm (fd_page old) =
        va_perm_page t (index2fd old) (fd_page old) (omega arith) at in
      let map : mem_map (index2fd old) (index2fd new) (t.perm (fd_page old)) t
          ≡ done (good 0) (
              enter (page (index2fd new)) (t.frame (page (index2fd old))) (t.perm (fd_page old))
                t) =
        mem_map_lem (index2fd old) (index2fd new) (t.perm (fd_page old)) t (omega arith)
          (omega arith) whole (ap (λ (p : ℕ). bit_and (t.perm p) pte_v == pte_v) at ∙ whole)
          (ap t.can_map at' ∙ can) in
      let area : dup_pages (fd2data (index2fd old)) (fd2data (index2fd new)) 256 0 s
          ≡ done (good 0) t =
        rw data_old (rw data_new pages) in
      let none_open : close server piperead pipewrite new s ≡ done (bad e) s = rw closed refl in
      rw found (rw none_open (rw area (rw perm (rw map (rw at (rw at' refl))))))

  -- `dup` of a descriptor to a number that is not in use, where the kernel can map the page of the
  -- descriptor and all 256 of data, and no permissions of the old pages are negative as an `int`: it
  -- returns the new number; every page of data that the old descriptor has is the same memory for
  -- the new one; and the two have one offset: after a `seek` on the new one the old one has the
  -- offset that was set.
  pub dup-shares :
      (s : User) (old new : ℕ) (e : Error)
      → old < 32
      → new < 32
      → old ≢ new
      → fd_lookup old s ≡ good (index2fd old)
      → s.perm (fd_page old) < 2 ^ 31
      → is_whole s (fd_page old) ≡ true
      → find_fd new s ≡ bad e
      → s.can_map (fd_page new) ≡ true
      → ((j : ℕ) → j < 256 → s.perm (data_page old + j) < 2 ^ 31)
      → ((j : ℕ) → j < 256 → s.can_map (data_page new + j) ≡ true)
      → (t : User) × (dup server piperead pipewrite old new s ≡ done (good new) t)
        × ((j : ℕ)
            → j < 256
            → is_whole s (data_page old + j) ≡ true
            → t.frame (data_page new + j) ≡ t.frame (data_page old + j))
        × ((offset : ℕ)
            → (u : User) × (seek new offset t ≡ done (good 0) u)
              × (offset_of u (index2fd old) ≡ offset))
  dup-shares s old new e lo ln ne found small whole closed can smalls cans =
      let h : IsDupable s (data_page old) (data_page new) 256 0 = record {
        below = omega arith;
        apart = ground (arith, ne);
        small = λ j ge lt. smalls j (omega arith);
        can = λ j ge lt. cans j (omega arith);
      } in
      let (r, t, run, (ok, c)) =
        Returns-done (λ r t. (r ≡ good 0) × Shared (data_page old) (data_page new) 256 0 s t)
          (dup_pages (data_page old * by2pg) (data_page new * by2pg) 256 (0 * by2pg) s)
          (dup_pages-Shared 256 0 (data_page old) (data_page new) s h) in
      let perm : t.perm (fd_page old) ≡ s.perm (fd_page old) =
        (c.others (fd_page old) (inl (omega arith))).1 in
      let done_pages : dup_pages (data_page old * by2pg) (data_page new * by2pg) 256 (0 * by2pg) s
          ≡ done (good 0) t =
        run ∙ ap (λ (x : Ret ℕ). done x t) ok in
      let whole_t : is_whole t (fd_page old) ≡ true =
        ap (λ (x : ℕ). bit_and x pte_v == pte_v) perm ∙ whole in
      let small_t : t.perm (fd_page old) < 2 ^ 31 = omega (arith, perm, small) in
      let can_t : t.can_map (fd_page new) ≡ true =
        ap (λ (u : User). u.can_map (fd_page new)) c.same ∙ can in
      let v : User = enter (fd_page new) (t.frame (fd_page old)) (t.perm (fd_page old)) t in
      (
        v,
        dup_lem s t old new e lo ln found closed done_pages whole_t small_t can_t,
        λ j lt there.
            let kept : v.frame (data_page new + j) ≡ t.frame (data_page new + j) = ground arith in
            let kept' : v.frame (data_page old + j) ≡ t.frame (data_page old + j) = ground arith in
            kept
            ∙ c.shared j (omega arith) (omega arith) there
            ∙ sym (kept' ∙ (c.others (data_page old + j) (ground (arith, ne))).0),
        λ offset. (
          set_filefd (index2fd new) (set_offset offset) v,
          seek_new v new offset (t.perm (fd_page old)) ln (fd_page-perm t old new),
          ground arith,
        ),
      )
