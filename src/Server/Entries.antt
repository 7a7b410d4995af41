-- ===== src/Server/Entries.antt =====
-- The table of open files of fs/serv.c: which entry `open_alloc` gives, and its identifiers.
use jos_buaa_a20_porting.Prelude.{
  ℕ, zero, suc, ◌+◌, ◌%◌, ◌≤◌, ◌<◌, ◌≡◌, ◌≢◌, refl, arith, Option, none, some, Bool-cases, inl, inr,
  ◌==◌, Returns, pure, ◌>>=◌, Returns-mono,
}
use jos_buaa_a20_porting.Mmu.{word}
use jos_buaa_a20_porting.Mm.{Ret, good, bad}
use jos_buaa_a20_porting.Server.{
  Serv, blank_filefd, maxopen, renew, renew_fresh, alloc_filefd, alloc_open,
}

abbrev pub next_id : ℕ → ℕ
next_id id = (id + maxopen) % word

-- the references of the page of an entry
abbrev pub refs_of : Serv → ℕ → ℕ
refs_of s i = s.refs (s.opentab i).o_ff

-- `t` is `s` with the entry `k`, whose page had no other reference, given its next identifier
pub record Renewed (s : Serv) (k : ℕ) (t : Serv) : Type 0 where
  pub unused : refs_of s k ≤ 1
  pub entry : t.opentab k ≡ record (s.opentab k) { o_fileid = next_id (s.opentab k).o_fileid }
  pub others : (j : ℕ) → j ≢ k → t.opentab j ≡ s.opentab j
  pub held : t.refs (s.opentab k).o_ff ≡ 1
  pub other_refs : (a : ℕ) → a ≢ (s.opentab k).o_ff → t.refs a ≡ s.refs a
  pub cleared : t.filefd (s.opentab k).o_ff ≡ blank_filefd
  pub answers : t.answers ≡ s.answers

renewed :
    (s : Serv) (k : ℕ)
    → refs_of s k ≡ 1
    → Returns (λ r t. (r ≡ good (next_id (s.opentab k).o_fileid)) × Renewed s k t) (renew k s)
unfolding renew
renewed s k h = (
  ground arith,
  record {
    unused = omega (arith, h);
    entry = ground arith;
    others = λ j ne. ground arith;
    held = h;
    other_refs = λ a ne. refl;
    cleared = ground arith;
    answers = refl;
  },
)

-- The outcome of a search from entry `i` over `n` entries: nothing changes without an entry, and
-- the entry is the first one whose page has at most one reference.
abbrev pub Allocated : (s : Serv) (n i : ℕ) → Option ℕ × Ret ℕ → Serv → Type 0
Allocated s n i (none, bad e) t = t ≡ s
Allocated s n i (none, good id) t = ⊥
Allocated s n i (some k, r) t =
    (i ≤ k)
    × (k < i + n)
    × ((j : ℕ) → i ≤ j → j < k → 2 ≤ refs_of s j)
    × (r ≡ good (next_id (s.opentab k).o_fileid))
    × Renewed s k t

renew_fresh-Allocated :
    (s : Serv) (n i : ℕ)
    → refs_of s i ≡ 0
    → Returns (Allocated s (suc n) i) (
        (do
          r ← renew_fresh i
          elim r [ bad e ↦ pure (none, bad e) | good id ↦ pure (some i, good id) ])
          s)
unfolding renew_fresh alloc_filefd renew
renew_fresh-Allocated s n i h = by_room s.fs.room refl
  where
    by_room :
        (m : ℕ)
        → s.fs.room ≡ m
        → Returns (Allocated s (suc n) i) (
            (do
              r ← renew_fresh i
              elim r [ bad e ↦ pure (none, bad e) | good id ↦ pure (some i, good id) ])
              s)
    by_room zero e = rw e refl
    by_room (suc m) e = rw e (
      omega arith,
      omega arith,
      λ j lo hi. absurd (omega arith),
      ground arith,
      record {
        unused = omega (arith, h);
        entry = ground arith;
        others = λ j ne. ground arith;
        held = ground arith;
        other_refs = λ a ne. ground arith;
        cleared = ground arith;
        answers = refl;
      },
    )

widen :
    (s : Serv) (n i : ℕ) (r : Option ℕ × Ret ℕ) (t : Serv)
    → 2 ≤ refs_of s i
    → Allocated s n (i + 1) r t
    → Allocated s (suc n) i r t
widen s n i (none, bad e) t two h = h
widen s n i (none, good id) t two h = h
widen s n i (some k, r) t two (lo, hi, before, id, new) = (
  omega arith,
  omega arith,
  λ j ge lt. elim (Bool-cases (i == j)) [
    | inl here ↦ ground (arith, two, here)
    | inr later ↦ before j (ground (arith, later)) lt
  ],
  id,
  new,
)

pub alloc_open-Allocated : (s : Serv) (n i : ℕ) → Returns (Allocated s n i) (alloc_open n i s)
unfolding alloc_open
alloc_open-Allocated s zero i = refl
alloc_open-Allocated s (suc n) i = elim (Bool-cases (refs_of s i == 0)) [
  | inl none_there ↦ rw none_there (renew_fresh-Allocated s n i (ground (arith, none_there)))
  | inr some_there ↦ rw some_there elim (Bool-cases (refs_of s i == 1)) [
    | inl one ↦ rw one (
        let (id, new) = renewed s i (ground (arith, one)) in
        (omega arith, omega arith, λ j lo hi. absurd (omega arith), id, new))
    | inr more ↦ rw more (
        Returns-mono (Allocated s n (i + 1)) (Allocated s (suc n) i) (alloc_open n (i + 1) s)
          (alloc_open-Allocated s n (i + 1))
          (λ r t h. widen s n i r t (ground (arith, some_there, more)) h))
  ]
]
