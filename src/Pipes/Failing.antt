-- ===== src/Pipes/Failing.antt =====
-- `pipe` of user/pipe.c where it fails: what it has mapped is unmapped again.
use jos_buaa_a20_porting.Prelude.{
  ℕ, ◌+◌, ◌*◌, ◌<◌, ◌≡◌, ◌≢◌, refl, ap, ◌∙◌, sym, arith, Bool, true, false, not, ◌==◌, leb,
  Bool-cases, inl, inr, if◌then◌else◌, List, [], ◌∷◌, done, Run, pure, Returns, Returns-done,
  Returns-and_then, bit_and,
}
use jos_buaa_a20_porting.Mmu.{utop, pte_v}
use jos_buaa_a20_porting.Mm.{Error, Ret, good, bad, no_mem}
use jos_buaa_a20_porting.Queue.{update}
use jos_buaa_a20_porting.Server.{shared_perm}
use jos_buaa_a20_porting.UserMem.{User, page, va_perm, fresh_page, mem_alloc, mem_map, mem_unmap}
use jos_buaa_a20_porting.Fds.{index2fd, index2data, fd_alloc, fd2data}
use jos_buaa_a20_porting.Fds.Table.{FirstFree, fd_alloc-FirstFree}
use jos_buaa_a20_porting.FileCalls.Truncate.{fd2data-index2fd}
use mathlib.Core.Path.{subst}
use jos_buaa_a20_porting.Pipes.{
  keep_fd, alloc_fd_page, alloc_end, fail1, fail2, map_second, share_page, set_ends, second_end,
  first_end, open_pipe,
}

-- the pages that are mapped are the same, for all but one page
abbrev pub SamePerms : User → User → Type 0
SamePerms s t = (p : ℕ) → t.perm p ≡ s.perm p

abbrev SameBut : ℕ → User → User → Type 0
SameBut q s t = (p : ℕ) → p ≢ q → t.perm p ≡ s.perm p

-- an operation that maps a page, or fails and maps none
abbrev MapsAt : ℕ → User → Ret ℕ → User → Type 0
MapsAt q s (bad e) t = SamePerms s t
MapsAt q s (good v) t = SameBut q s t

mem_alloc-MapsAt : (va : ℕ) (s : User) → Returns (MapsAt (page va) s) (mem_alloc va shared_perm s)
unfolding mem_alloc
mem_alloc-MapsAt va s = elim (Bool-cases (leb utop va)) [
  | inl high ↦ rw high (λ p. refl)
  | inr low ↦ rw low (by_spare s.spare)
]
  where
    by_spare :
        (fs : List ℕ)
        → Returns (MapsAt (page va) s) (
            (elim fs [
              | [] ↦ pure (bad no_mem) s
              | f ∷ rest ↦
                  let t : User = record s { spare = rest } in
                  if s.can_map (page va)
                  then pure (good 0) (fresh_page va f shared_perm t)
                  else pure (bad no_mem) t
            ]))
    by_spare [] = λ p. refl
    by_spare (f ∷ rest) = elim (Bool-cases (s.can_map (page va))) [
      | inl can ↦ rw can (λ p ne. ground (arith, ne))
      | inr not_can ↦ rw not_can (λ p. refl)
    ]

mem_unmap_lem :
    (va : ℕ) (s : User)
    → va < utop
    → mem_unmap va s ≡ done (good 0) (record s { perm = update s.perm (page va) 0 })
unfolding mem_unmap
mem_unmap_lem va s lt = ground (arith, lt)

-- a page that was not mapped, and is not again
unmapped :
    (q : ℕ) (s t : User)
    → s.perm q ≡ 0
    → SameBut q s t
    → SamePerms s (record t { perm = update t.perm q 0 })
unmapped q s t z h p = elim (Bool-cases (p == q)) [
  | inl here ↦ let at : p ≡ q = ground (arith, here) in ground (arith, at, ap s.perm at, z)
  | inr other ↦ ground (arith, other, h p)
]

-- the page of a descriptor and the first one of its data
fd_page_lem :
    (s : User) (k : ℕ)
    → k < 31
    → (index2fd k < utop)
      × (page (index2fd k) ≡ 0x5FF00 + k)
      × (va_perm s (index2fd k) ≡ s.perm (0x5FF00 + k))
fd_page_lem s k lt =
    let at : page (index2fd k) ≡ 0x5FF00 + k = omega arith in
    let low : index2fd k < utop = omega arith in (low, at, rw (← at) (ground (arith, low)))

data_page_lem :
    (k : ℕ)
    → k < 31
    → (fd2data (index2fd k) < utop) × (page (fd2data (index2fd k)) ≡ 0x60000 + k * 256)
data_page_lem k lt =
    let at : fd2data (index2fd k) ≡ index2data k = fd2data-index2fd k (omega arith) in
    (omega (arith, at), omega (arith, at))

-- `alloc_end` fails and maps nothing, or maps the page of a descriptor that had none
abbrev Opened : User → Ret ℕ → User → Type 0
Opened s (bad e) t = SamePerms s t
Opened s (good fd) t =
    (k : ℕ) × (fd ≡ index2fd k) × (k < 31) × (s.perm (0x5FF00 + k) ≡ 0) × SameBut (0x5FF00 + k) s t

alloc_fd_page-Opened :
    (s : User) (a : Ret ℕ) → FirstFree s 31 0 a → Returns (Opened s) (alloc_fd_page a s)
unfolding alloc_fd_page
alloc_fd_page-Opened s (bad e) h = λ p. refl
alloc_fd_page-Opened s (good fd) (k, at, lo, hi, free, before) =
    let (low, place, perm) = fd_page_lem s k hi in
    let there : page fd ≡ 0x5FF00 + k = ap page at ∙ place in
    Returns-and_then (MapsAt (0x5FF00 + k) s) (Opened s) (mem_alloc fd shared_perm s) _
      (subst (λ q. Returns (MapsAt q s) (mem_alloc fd shared_perm s)) there (mem_alloc-MapsAt fd s))
      kept
  where
    kept : (r : Ret ℕ) (t : User) → MapsAt (0x5FF00 + k) s r t → Opened s (keep_fd fd r) t
    kept (bad e) t h = h
    kept (good v) t h = (k, at, hi, sym (fd_page_lem s k hi).2 ∙ free, h)

alloc_end-Opened : (s : User) → Returns (Opened s) (alloc_end s)
unfolding alloc_end
alloc_end-Opened s = alloc_fd_page-Opened s (fd_alloc s) (fd_alloc-FirstFree s)

-- a run that, where it fails, has left the mapped pages as they were in `s`
abbrev pub Undone : {A : Type 0} → User → Ret A → User → Type 0
Undone s (bad e) t = SamePerms s t
Undone s (good v) t = Unit

either :
    {A B : Type 0} (P : B → A → Type 0) (b : Bool) (r r' : Run A B)
    → Returns P r
    → Returns P r'
    → Returns P (if b then r else r')
either P true r r' h h' = h
either P false r r' h h' = h'

mem_map-Undone : (src dst perm : ℕ) (s : User) → Returns (Undone s) (mem_map src dst perm s)
unfolding mem_map
mem_map-Undone src dst perm s =
    either (Undone s) (leb utop src) _ _ (λ p. refl)
      (either (Undone s) (leb utop dst) _ _ (λ p. refl)
        (either (Undone s) (bit_and perm pte_v == 0) _ _ (λ p. refl)
          (either (Undone s) (bit_and (s.perm (page src)) pte_v == 0) _ _ (λ p. refl)
            (either (Undone s) (not (s.can_map (page dst))) _ _ (λ p. refl) tt))))

-- unmapping a page that was not mapped in `s`, and that is the only one that has changed
fail1-Undone :
    (A : Type 0) (s t : User) (fd q : ℕ) (e : Error)
    → fd < utop
    → page fd ≡ q
    → s.perm q ≡ 0
    → SameBut q s t
    → Returns (Undone {A = A} s) (fail1 fd e t)
fail1-Undone A s t fd q e low at free h =
    rw (mem_unmap_lem fd t low) (rw at (unmapped q s t free h))

-- the same for the pages of two descriptors
fail2-Undone :
    (A : Type 0) (s t : User) (i j : ℕ) (e : Error)
    → i < 31
    → j < 31
    → s.perm (0x5FF00 + i) ≡ 0
    → s.perm (0x5FF00 + j) ≡ 0
    → ((p : ℕ) → p ≢ 0x5FF00 + i → p ≢ 0x5FF00 + j → t.perm p ≡ s.perm p)
    → Returns (Undone {A = A} s) (fail2 (index2fd i) (index2fd j) e t)
fail2-Undone A s t i j e hi hj fi fj h =
    let (low, at, perm) = fd_page_lem s i hi in
    let (low', at', perm') = fd_page_lem s j hj in
    rw (mem_unmap_lem (index2fd j) t low') (
      rw at' (
        fail1-Undone A s (record t { perm = update t.perm (0x5FF00 + j) 0 }) (index2fd i)
          (0x5FF00 + i) e low at fi only))
  where
    only : SameBut (0x5FF00 + i) s (record t { perm = update t.perm (0x5FF00 + j) 0 })
    only p ne = elim (Bool-cases (p == 0x5FF00 + j)) [
      | inl here ↦
          let at : p ≡ 0x5FF00 + j = ground (arith, here) in ground (arith, at, ap s.perm at, fj)
      | inr other ↦ ground (arith, other, h p ne)
    ]

-- behind the allocation of its page, the sharing fails with no page mapped
share_page-Undone :
    (k fd1 : ℕ) (s : User) (a : Ret ℕ) (t : User)
    → k < 31
    → s.perm (0x60000 + k * 256) ≡ 0
    → MapsAt (0x60000 + k * 256) s a t
    → Returns (Undone s) (share_page (index2fd k) fd1 a t)
unfolding share_page map_second
share_page-Undone k fd1 s (bad e) t lt free h = h
share_page-Undone k fd1 s (good v) t lt free h =
    Returns-and_then (Undone t) (Undone s)
      (mem_map (fd2data (index2fd k)) (fd2data fd1) shared_perm t) _
      (mem_map-Undone (fd2data (index2fd k)) (fd2data fd1) shared_perm t) mapped
  where
    mapped :
        (r : Ret ℕ) (u : User) → Undone t r u → Returns (Undone s) (map_second (index2fd k) fd1 r u)
    mapped (bad e) u same =
        let (low, at) = data_page_lem k lt in
        fail1-Undone ℕ s u (fd2data (index2fd k)) (0x60000 + k * 256) e low at free
          (λ p ne. same p ∙ h p ne)
    mapped (good w) u same = tt

second_end-Undone :
    (s t : User) (i : ℕ) (b : Ret ℕ) (u : User)
    → i < 31
    → s.perm (0x5FF00 + i) ≡ 0
    → s.perm (0x60000 + i * 256) ≡ 0
    → SameBut (0x5FF00 + i) s t
    → Opened t b u
    → Returns (Undone s) (second_end (index2fd i) b u)
unfolding second_end set_ends
second_end-Undone s t i (bad e) u hi free no_data one same =
    let (low, at, perm) = fd_page_lem s i hi in
    fail1-Undone (ℕ × ℕ) s u (index2fd i) (0x5FF00 + i) e low at free (λ p ne. same p ∙ one p ne)
second_end-Undone s t i (good fd1) u hi free no_data one (j, at, hj, free', two) =
    let (low, there) = data_page_lem i hi in
    Returns-and_then (MapsAt (0x60000 + i * 256) u) (Undone s)
      (mem_alloc (fd2data (index2fd i)) shared_perm u) _
      (subst (λ q. Returns (MapsAt q u) (mem_alloc (fd2data (index2fd i)) shared_perm u)) there
        (mem_alloc-MapsAt (fd2data (index2fd i)) u))
      (λ a v h.
        Returns-and_then (Undone u) (Undone s) (share_page (index2fd i) fd1 a v) _
          (share_page-Undone i fd1 u a v hi no_data_u h) ends)
  where
    both : (p : ℕ) → p ≢ 0x5FF00 + i → p ≢ 0x5FF00 + j → u.perm p ≡ s.perm p
    both p ni nj = two p nj ∙ one p ni

    no_data_u : u.perm (0x60000 + i * 256) ≡ 0
    no_data_u =
        both (0x60000 + i * 256) (λ e. absurd (omega arith)) (λ e. absurd (omega arith)) ∙ no_data

    free_j : s.perm (0x5FF00 + j) ≡ 0
    free_j = elim (Bool-cases (j == i)) [
      | inl here ↦ ap (λ (x : ℕ). s.perm (0x5FF00 + x)) (ground (arith, here)) ∙ free
      | inr other ↦ sym (one (0x5FF00 + j) (ground (arith, other))) ∙ free'
    ]

    ends :
        (r : Ret ℕ) (v : User) → Undone u r v → Returns (Undone s) (set_ends (index2fd i) fd1 r v)
    ends (bad e) v same =
        rw at (fail2-Undone (ℕ × ℕ) s v i j e hi hj free free_j (λ p ni nj. same p ∙ both p ni nj))
    ends (good w) v same = tt

first_end-Undone :
    (s : User) (a : Ret ℕ) (t : User)
    → ((k : ℕ) → k < 31 → s.perm (0x5FF00 + k) ≡ 0 → s.perm (0x60000 + k * 256) ≡ 0)
    → Opened s a t
    → Returns (Undone s) (first_end a t)
unfolding first_end
first_end-Undone s (bad e) t tidy same = same
first_end-Undone s (good fd0) t tidy (i, at, hi, free, one) = rw at (
    Returns-and_then (Opened t) (Undone s) (alloc_end t) _ (alloc_end-Opened t)
      (λ b u h. second_end-Undone s t i b u hi free (tidy i hi free) one h))

-- `pipe` returns; and where it returns an error, whatever failed, the same pages are mapped with the
-- same permissions as before, if no descriptor that is not in use has a first page of data.
pub open_pipe-Undone :
    (s : User)
    → ((k : ℕ) → k < 31 → s.perm (0x5FF00 + k) ≡ 0 → s.perm (0x60000 + k * 256) ≡ 0)
    → (r : Ret (ℕ × ℕ)) × (t : User) × (open_pipe s ≡ done r t)
      × ((e : Error) → r ≡ bad e → SamePerms s t)
unfolding open_pipe
open_pipe-Undone s tidy =
    let run : Returns (Undone s) (open_pipe s) =
      Returns-and_then (Opened s) (Undone s) (alloc_end s) _ (alloc_end-Opened s)
        (λ a t h. first_end-Undone s a t tidy h) in
    let (r, t, ran, h) = Returns-done (Undone s) (open_pipe s) run in
    (r, t, ran, λ e is_bad. subst (λ x. Undone s x t) is_bad h)
