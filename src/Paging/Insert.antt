-- ===== src/Paging/Insert.antt =====
-- `page_insert` of mm/pmap.c where the page table is there: what it maps, and what it counts.
use jos_buaa_a20_porting.Prelude.{
  ℕ, ◌≤◌, ◌<◌, ◌≡◌, ◌≢◌, refl, true, false, Option, none, some, ◌∷◌, arith, ◌==◌, Bool-cases, done,
  bit_and, bit_or, bit_and-bit_or_self, bit_or-lt, inl, inr, if◌then◌else◌, ==_iff,
}
use mathlib.Core.Path.{subst}
use jos_buaa_a20_porting.Mmu.{pte_v, page2pa}
use jos_buaa_a20_porting.Mmu.Translate.{max_pages}
use jos_buaa_a20_porting.Queue.{update}
use jos_buaa_a20_porting.Mm.{Mm, good, inc16, dec16}
use jos_buaa_a20_porting.Paging.{
  Running, pde_at, pte_at, tlb_operand, page_lookup, insert_fresh, page_insert,
}
use jos_buaa_a20_porting.Paging.Walk.{HasTable, walk-HasTable, entry-pa2page, entry-bits}
use jos_buaa_a20_porting.Paging.Lookup.{Maps, page_lookup-Maps}
use jos_buaa_a20_porting.Paging.Remove.{
  unmapped, mem-released, npage-released, pp_ref-released, page_remove-eq, unmapped-HasTable,
}

-- the entry that `page_insert` writes
abbrev pub entry_of : ℕ → ℕ → ℕ
entry_of pp perm = bit_or (page2pa pp) (bit_or perm pte_v)

-- the state after the entry at `pte` is written, with the counts `refs`
abbrev pub mapped : Mm → ℕ → ℕ → ℕ → ℕ → (ℕ → ℕ) → Mm
mapped s pte pp perm operand refs = record s {
  mem = update s.mem pte (entry_of pp perm);
  pp_ref = refs;
  tlb = operand ∷ s.tlb;
}

insert_fresh-eq :
    (curenv : Option Running) (s : Mm) (pgdir va t pp perm : ℕ)
    → HasTable s pgdir va t
    → insert_fresh curenv pgdir pp va (bit_or perm pte_v) s
      ≡ done (good tt) (
          mapped s
            (pte_at t va)
            pp
            perm
            (tlb_operand curenv pgdir va)
            (update s.pp_ref pp (inc16 (s.pp_ref pp))))
unfolding insert_fresh
insert_fresh-eq curenv s pgdir va t pp perm h =
    let operand = tlb_operand curenv pgdir va in
    let s' : Mm = record s { tlb = operand ∷ s.tlb } in
    let h' : HasTable s' pgdir va t = record { user = h.user; table = h.table; there = h.there } in
    ground (arith, walk-HasTable s' pgdir va t true h')

-- What `page_insert` has written maps the page.
mapped-Maps :
    (s : Mm) (pgdir va t pp perm operand : ℕ) (refs : ℕ → ℕ)
    → HasTable s pgdir va t
    → pte_at t va ≢ pde_at pgdir va
    → s.npage ≤ max_pages
    → pp < s.npage
    → perm < 4096
    → Maps (mapped s (pte_at t va) pp perm operand refs) pgdir va t pp
mapped-Maps s pgdir va t pp perm operand refs h apart fits inside small = record {
  has_table = record {
    user = h.user;
    table = ground (arith, h.table);
    there = ground (arith, h.there);
  };
  valid = ground (
    arith,
    entry-bits s.npage pp fits inside (bit_or perm pte_v) pte_v bits (omega arith),
    bit_and-bit_or_self perm pte_v,
  );
  page = ground (arith, entry-pa2page s.npage pp fits inside (bit_or perm pte_v) bits);
}
  where
    bits : bit_or perm pte_v < 4096
    bits = bit_or-lt 12 perm pte_v small (omega arith)

module _ (curenv : Option Running) (s : Mm) (pgdir va t pp perm : ℕ)
    (h : HasTable s pgdir va t) where
  -- where nothing is mapped: one more reference
  pub page_insert-fresh-eq :
      (bit_and (s.mem (pte_at t va)) pte_v == 0) ≡ true
      → page_insert curenv pgdir pp va perm s
        ≡ done (good tt) (
            mapped s
              (pte_at t va)
              pp
              perm
              (tlb_operand curenv pgdir va)
              (update s.pp_ref pp (inc16 (s.pp_ref pp))))
  unfolding page_insert
  page_insert-fresh-eq i = ground (
    arith,
    walk-HasTable s pgdir va t false h,
    h.user,
    insert_fresh-eq curenv s pgdir va t pp perm h,
  )

  -- where the page itself is mapped: only the permissions change
  pub page_insert-same-eq :
      Maps s pgdir va t pp
      → page_insert curenv pgdir pp va perm s
        ≡ done (good tt) (mapped s (pte_at t va) pp perm (tlb_operand curenv pgdir va) s.pp_ref)
  unfolding page_insert
  page_insert-same-eq m =
      ground (arith, walk-HasTable s pgdir va t false h, h.user, m.valid, m.page)

  -- where another page is mapped: that page is released first
  pub page_insert-other-eq :
      (old : ℕ)
      → Maps s pgdir va t old
      → pte_at t va ≢ pde_at pgdir va
      → (old == pp) ≡ false
      → let u = unmapped s (pte_at t va) old (tlb_operand curenv pgdir va) in
        page_insert curenv pgdir pp va perm s
        ≡ done (good tt) (
            mapped u
              (pte_at t va)
              pp
              perm
              (tlb_operand curenv pgdir va)
              (update u.pp_ref pp (inc16 (u.pp_ref pp))))
  unfolding page_insert
  page_insert-other-eq old m apart ne =
      let operand = tlb_operand curenv pgdir va in
      let u : Mm = unmapped s (pte_at t va) old operand in
      ground (
        arith,
        walk-HasTable s pgdir va t false h,
        h.user,
        m.valid,
        m.page,
        page_remove-eq curenv s pgdir va t old m,
        insert_fresh-eq curenv u pgdir va t pp perm
            (unmapped-HasTable curenv s pgdir va t old m apart),
      )

-- what the entry for the address maps beforehand
abbrev pub MapsBefore : Mm → ℕ → ℕ → ℕ → Option ℕ → Type 0
MapsBefore s pgdir va t none = (bit_and (s.mem (pte_at t va)) pte_v == 0) ≡ true
MapsBefore s pgdir va t (some old) = Maps s pgdir va t old

-- the reference counts after page `pp` takes the place of what was mapped
abbrev pub counts_after : Option ℕ → ℕ → (ℕ → ℕ) → ℕ → ℕ
counts_after none pp refs = update refs pp (inc16 (refs pp))
counts_after (some old) pp refs =
    let r = update refs old (dec16 (refs old)) in
    if old == pp then refs else update r pp (inc16 (r pp))

-- what `page_insert` leaves
pub record Inserted (s s' : Mm) (pgdir va t pp perm : ℕ) (before : Option ℕ) : Type 0 where
  pub found : page_lookup pgdir va s' ≡ done (some (pp, pte_at t va)) s'
  pub entry : s'.mem (pte_at t va) ≡ entry_of pp perm
  pub elsewhere : (a : ℕ) → a ≢ pte_at t va → s'.mem a ≡ s.mem a
  pub counts : (q : ℕ) → s'.pp_ref q ≡ counts_after before pp s.pp_ref q

module _ (curenv : Option Running) (s : Mm) (pgdir va t pp perm : ℕ) (h : HasTable s pgdir va t)
    (apart : pte_at t va ≢ pde_at pgdir va) (fits : s.npage ≤ max_pages) (inside : pp < s.npage)
    (small : perm < 4096) where
  abbrev operand : ℕ
  operand = tlb_operand curenv pgdir va

  mapped-Inserted :
      (u : Mm) (refs : ℕ → ℕ) (before : Option ℕ)
      → HasTable u pgdir va t
      → u.npage ≡ s.npage
      → ((a : ℕ) → a ≢ pte_at t va → u.mem a ≡ s.mem a)
      → ((q : ℕ) → refs q ≡ counts_after before pp s.pp_ref q)
      → Inserted s (mapped u (pte_at t va) pp perm operand refs) pgdir va t pp perm before
  mapped-Inserted u refs before hu same frame counts = record {
    found =
        page_lookup-Maps (mapped u (pte_at t va) pp perm operand refs) pgdir va t pp (
          mapped-Maps u pgdir va t pp perm operand refs hu apart (omega arith) (omega arith) small);
    entry = ground arith;
    elsewhere = λ a ne. ground (arith, frame a ne);
    counts = counts;
  }

  -- `page_insert` where the page table is there, whatever the entry held before: it succeeds;
  -- `page_lookup` then finds the page, with the permissions asked for and `PTE_V`; no other word
  -- changes; and the counts are those of one reference moved to `pp` from the page mapped before.
  pub page_insert-Inserted :
      (before : Option ℕ)
      → MapsBefore s pgdir va t before
      → (s' : Mm) × (page_insert curenv pgdir pp va perm s ≡ done (good tt) s')
        × Inserted s s' pgdir va t pp perm before
  page_insert-Inserted none i = (
    mapped s (pte_at t va) pp perm operand (update s.pp_ref pp (inc16 (s.pp_ref pp))),
    page_insert-fresh-eq curenv s pgdir va t pp perm h i,
    mapped-Inserted s _ none h refl (λ a ne. refl) (λ q. refl),
  )
  page_insert-Inserted (some old) m = elim (Bool-cases (old == pp)) [
    | inl same ↦ (
      mapped s (pte_at t va) pp perm operand s.pp_ref,
      page_insert-same-eq curenv s pgdir va t pp perm h
          (subst (Maps s pgdir va t) ((==_iff old pp).0 same) m),
      mapped-Inserted s s.pp_ref (some old) h refl (λ a ne. refl) (λ q. ground arith),
    )
    | inr other ↦
        let u : Mm = unmapped s (pte_at t va) old operand in
        (
          mapped u (pte_at t va) pp perm operand (update u.pp_ref pp (inc16 (u.pp_ref pp))),
          page_insert-other-eq curenv s pgdir va t pp perm h old m apart other,
          mapped-Inserted u (update u.pp_ref pp (inc16 (u.pp_ref pp))) (some old)
              (unmapped-HasTable curenv s pgdir va t old m apart) (npage-released s old)
              (λ a ne. ground (arith, mem-released s old))
              (λ q. ground (arith, pp_ref-released s old q, pp_ref-released s old pp)),
        )
  ]
