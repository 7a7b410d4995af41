-- ===== src/Server/Fresh.antt =====
-- `open_alloc` of fs/serv.c: the identifier that it gives is that of no entry, and the table stays
-- well formed.
use jos_buaa_a20_porting.Prelude.{
  ℕ, zero, suc, ◌+◌, ◌*◌, ◌%◌, ◌≤◌, ◌<◌, ◌≡◌, ◌≢◌, refl, ap, ◌∙◌, arith, Option, none, some,
  Bool-cases, inl, inr, ◌==◌, done, Returns, Returns-done, Returns-mono, sym,
}
use jos_buaa_a20_porting.Mmu.{word, by2pg}
use jos_buaa_a20_porting.Mm.{Ret, good, bad}
use jos_buaa_a20_porting.Server.{
  Open, Serv, maxopen, fileva, alloc_open, open_alloc, init_open, serve_init, set_open,
}
use jos_buaa_a20_porting.Server.Entries.{next_id, refs_of, Renewed, Allocated, alloc_open-Allocated}

-- what `serve_init` sets up: the low bits of an identifier are the index of its entry, and each
-- entry has a page of its own
pub record HasIds (s : Serv) : Type 0 where
  pub ids : (i : ℕ) → i < maxopen → (s.opentab i).o_fileid % maxopen ≡ i
  pub pages : (i : ℕ) → i < maxopen → (s.opentab i).o_ff ≡ fileva + i * by2pg

pub Renewed-HasIds : {s t : Serv} {k : ℕ} → k < maxopen → HasIds s → Renewed s k t → HasIds t
Renewed-HasIds {s} {t} {k} lt h new = record {
  ids = λ i hi. elim (Bool-cases (i == k)) [
    | inl here ↦
        let at : i ≡ k = ground arith in
        let e : (t.opentab i).o_fileid ≡ next_id (s.opentab k).o_fileid =
          ap (λ (j : ℕ). (t.opentab j).o_fileid) at ∙ ap (λ (o : Open). o.o_fileid) new.entry in
        omega (arith, at, e, h.ids k lt)
    | inr other ↦
        ap (λ (o : Open). o.o_fileid % maxopen) (new.others i (ground (arith, other))) ∙ h.ids i hi
  ];
  pages = λ i hi. elim (Bool-cases (i == k)) [
    | inl here ↦
        let at : i ≡ k = ground arith in
        ap (λ (j : ℕ). (t.opentab j).o_ff) at
        ∙ ap (λ (o : Open). o.o_ff) new.entry
        ∙ omega (arith, at, h.pages k lt)
    | inr other ↦ ap (λ (o : Open). o.o_ff) (new.others i (ground (arith, other))) ∙ h.pages i hi
  ];
}

-- The next identifier of an entry is not the present one of any entry.
pub next_id-ne :
    {s : Serv} (k j : ℕ)
    → k < maxopen
    → j < maxopen
    → HasIds s
    → next_id (s.opentab k).o_fileid ≢ (s.opentab j).o_fileid
next_id-ne {s} k j hk hj h = elim (Bool-cases (j == k)) [
  | inl here ↦ λ e.
      let at : (s.opentab j).o_fileid ≡ (s.opentab k).o_fileid =
        ap (λ (x : ℕ). (s.opentab x).o_fileid) (ground (arith, here)) in
      absurd (omega (arith, e, at))
  | inr other ↦ λ e. absurd (ground (arith, other, next_id_low, h.ids k hk, h.ids j hj, e))
]
  where
    next_id_low : next_id (s.opentab k).o_fileid % maxopen ≡ (s.opentab k).o_fileid % maxopen
    next_id_low = omega arith

-- how `open_alloc` ends: with a full table or no memory nothing changes, otherwise the entry has an
-- identifier of its own
abbrev pub Opened : Serv → Option ℕ × Ret ℕ → Serv → Type 0
Opened s (none, bad e) t = t ≡ s
Opened s (none, good id) t = ⊥
Opened s (some k, r) t =
    (k < maxopen)
    × (refs_of s k ≤ 1)
    × ((j : ℕ) → j < k → 2 ≤ refs_of s j)
    × (r ≡ good (t.opentab k).o_fileid)
    × ((j : ℕ) → j < maxopen → (t.opentab k).o_fileid ≢ (s.opentab j).o_fileid)
    × (refs_of t k ≡ 1)
    × ((j : ℕ) → j ≢ k → t.opentab j ≡ s.opentab j)
    × HasIds t

Allocated-Opened :
    {s : Serv} (x : Option ℕ × Ret ℕ) (t : Serv)
    → HasIds s
    → Allocated s maxopen 0 x t
    → Opened s x t
Allocated-Opened (none, bad e) t h a = a
Allocated-Opened (none, good id) t h a = a
Allocated-Opened {s} (some k, r) t h (lo, hi, before, id, new) =
    let at : (t.opentab k).o_fileid ≡ next_id (s.opentab k).o_fileid =
      ap (λ (o : Open). o.o_fileid) new.entry in
    (
      hi,
      new.unused,
      λ j lt. before j (omega arith) lt,
      ground (arith, id, at),
      λ j hj e. next_id-ne k j hi hj h (sym at ∙ e),
      ap t.refs (ap (λ (o : Open). o.o_ff) new.entry) ∙ new.held,
      new.others,
      Renewed-HasIds hi h new,
    )

-- `open_alloc` on a well-formed table ends. It either reports an error and changes nothing, or
-- gives the first entry whose page has at most one reference, with an identifier that no entry had
-- before; the page then has one reference, the other entries are as before, and the table is well
-- formed.
pub open_alloc-Opened :
    (s : Serv)
    → HasIds s
    → (x : Option ℕ × Ret ℕ) × (t : Serv) × (open_alloc s ≡ done x t) × Opened s x t
unfolding open_alloc
open_alloc-Opened s h = Returns-done (Opened s) (alloc_open maxopen 0 s) (
    Returns-mono (Allocated s maxopen 0) (Opened s) (alloc_open maxopen 0 s)
      (alloc_open-Allocated s maxopen 0) (λ x t a. Allocated-Opened x t h a))

-- the entries from `i` on that the loop of `serve_init` has set up, and those that it has not
abbrev Laid : (s : Serv) (n i : ℕ) → Serv → Type 0
Laid s n i t =
    ((j : ℕ)
      → i ≤ j
      → j < i + n
      → ((t.opentab j).o_fileid ≡ j) × ((t.opentab j).o_ff ≡ fileva + j * by2pg))
    × ((j : ℕ) → j < i → t.opentab j ≡ s.opentab j)

init_open-Laid :
    (n i : ℕ) (s : Serv)
    → i + n ≤ maxopen
    → Returns (λ u. Laid s n i) (init_open n i (fileva + i * by2pg) s)
unfolding init_open
init_open-Laid zero i s le = (λ j lo hi. absurd (omega arith), λ j lt. refl)
init_open-Laid (suc n) i s le =
    let s1 : Serv = set_open i (λ o. record o { o_fileid = i; o_ff = fileva + i * by2pg }) s in
    let next : (fileva + i * by2pg + by2pg) % word ≡ fileva + (i + 1) * by2pg = omega arith in
    rw next (
      Returns-mono (λ u. Laid s1 n (i + 1)) (λ u. Laid s (suc n) i)
        (init_open n (i + 1) (fileva + (i + 1) * by2pg) s1)
        (init_open-Laid n (i + 1) s1 (omega arith))
        (λ u t h. (
          λ j lo hi. elim (Bool-cases (i == j)) [
            | inl here ↦
                let at : i ≡ j = ground (arith, here) in
                let e : t.opentab j ≡ s1.opentab j = h.1 j (omega arith) in
                (
                  ap (λ (o : Open). o.o_fileid) e ∙ ground (arith, at),
                  ap (λ (o : Open). o.o_ff) e ∙ ground (arith, at),
                )
            | inr later ↦ h.0 j (ground (arith, later)) (omega arith)
          ],
          λ j lt. h.1 j (omega arith) ∙ ground arith,
        )))

-- `serve_init` makes the table well formed.
pub serve_init-HasIds : (s : Serv) → (t : Serv) × (serve_init s ≡ done tt t) × HasIds t
unfolding serve_init
serve_init-HasIds s =
    let (u, t, run, h) =
      Returns-done (λ u. Laid s maxopen 0) (init_open maxopen 0 fileva s)
        (init_open-Laid maxopen 0 s (omega arith)) in
    (
      t,
      run,
      record {
        ids = λ i hi. omega (arith, (h.0 i (omega arith) hi).0);
        pages = λ i hi. (h.0 i (omega arith) hi).1;
      },
    )
