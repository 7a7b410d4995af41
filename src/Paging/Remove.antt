-- ===== src/Paging/Remove.antt =====
-- `page_remove` of mm/pmap.c: the mapping goes, the page's count falls, and the TLB entry is
-- invalidated.
use jos_buaa_a20_porting.Prelude.{
  ℕ, ◌-◌, ◌^◌, ◌<◌, ◌≡◌, ◌≢◌, false, Option, none, List, ◌∷◌, arith, ◌==◌, Bool-cases, done,
  zero-bit_and, if◌then◌else◌, inl, inr,
}
use mathlib.Core.Path.{subst}
use jos_buaa_a20_porting.Mmu.{pte_v}
use jos_buaa_a20_porting.Queue.{update}
use jos_buaa_a20_porting.Queue.Chain.{has}
use jos_buaa_a20_porting.Mm.{Mm, dec16, drop_ref}
use jos_buaa_a20_porting.Mm.Alloc.{IsFreeList, freed, page_free-eq, freed-IsFreeList}
use jos_buaa_a20_porting.Mm.Release.{dropped, dropped-IsFreeList, not-has_of_ref}
use jos_buaa_a20_porting.Paging.{Running, pde_at, pte_at, tlb_operand, page_lookup, page_remove}
use jos_buaa_a20_porting.Paging.Walk.{HasTable}
use jos_buaa_a20_porting.Paging.Lookup.{Maps, page_lookup-Maps, page_lookup_invalid}

-- the state after one reference to page `pp` is dropped
abbrev pub released : Mm → ℕ → Mm
released s pp = if dec16 (s.pp_ref pp) == 0 then freed (dropped s pp) pp else dropped s pp

pub drop_ref-eq : (s : Mm) (pp : ℕ) → drop_ref pp s ≡ done tt (released s pp)
unfolding drop_ref
drop_ref-eq s pp = ground (arith, page_free-eq (dropped s pp) pp)

pub mem-released : (s : Mm) (pp : ℕ) → (released s pp).mem ≡ s.mem
mem-released s pp = ground arith

pub npage-released : (s : Mm) (pp : ℕ) → (released s pp).npage ≡ s.npage
npage-released s pp = ground arith

pub tlb-released : (s : Mm) (pp : ℕ) → (released s pp).tlb ≡ s.tlb
tlb-released s pp = ground arith

pub pp_ref-released :
    (s : Mm) (pp q : ℕ) → (released s pp).pp_ref q ≡ update s.pp_ref pp (dec16 (s.pp_ref pp)) q
pp_ref-released s pp q = ground arith

pub released-IsFreeList :
    (s : Mm) (pp : ℕ) (xs : List ℕ)
    → IsFreeList s xs
    → pp < s.npage
    → 0 < s.pp_ref pp
    → s.pp_ref pp < 2 ^ 16
    → IsFreeList (released s pp) (if s.pp_ref pp == 1 then pp ∷ xs else xs)
released-IsFreeList s pp xs v inside pos small =
    let out : has pp xs ≡ false = not-has_of_ref s pp xs v pos in
    let w = dropped-IsFreeList s pp xs v out in
    elim (Bool-cases (s.pp_ref pp == 1)) [
      | inl last ↦
          let e : freed (dropped s pp) pp ≡ released s pp = ground arith in
          rw last (
            subst (λ r. IsFreeList r (pp ∷ xs)) e
              (freed-IsFreeList (dropped s pp) pp xs w inside out (ground arith)))
      | inr more ↦
          let e : dropped s pp ≡ released s pp = ground arith in
          rw more (subst (λ r. IsFreeList r xs) e w)
    ]

-- the state after `page_remove` of the entry at `pte`, which maps page `pp`
abbrev pub unmapped : Mm → ℕ → ℕ → ℕ → Mm
unmapped s pte pp operand = record (released s pp) {
  mem = update (released s pp).mem pte 0;
  tlb = operand ∷ (released s pp).tlb;
}

module _ (curenv : Option Running) (s : Mm) (pgdir va t pp : ℕ) (m : Maps s pgdir va t pp) where
  pub page_remove-eq :
      page_remove curenv pgdir va s
      ≡ done tt (unmapped s (pte_at t va) pp (tlb_operand curenv pgdir va))
  unfolding page_remove
  page_remove-eq =
      ground (arith, page_lookup-Maps s pgdir va t pp m, m.has_table.user, drop_ref-eq s pp)

  -- the page table stays where it is, unless the entry is its own directory entry
  pub unmapped-HasTable :
      pte_at t va ≢ pde_at pgdir va
      → HasTable (unmapped s (pte_at t va) pp (tlb_operand curenv pgdir va)) pgdir va t
  unmapped-HasTable apart = record {
    user = m.has_table.user;
    table = ground (arith, mem-released s pp, m.has_table.table);
    there = ground (arith, mem-released s pp, npage-released s pp, m.has_table.there);
  }

-- `page_remove` of a mapped address: afterwards `page_lookup` finds nothing there, the page has
-- one reference less and is free if that was the last, the TLB entry of the address is
-- invalidated, and no word but the entry changes. The entry must not be its own directory entry.
pub page_remove-page_lookup :
    (curenv : Option Running) (s : Mm) (pgdir va t pp : ℕ) (xs : List ℕ)
    → Maps s pgdir va t pp
    → pte_at t va ≢ pde_at pgdir va
    → IsFreeList s xs
    → pp < s.npage
    → 0 < s.pp_ref pp
    → s.pp_ref pp < 2 ^ 16
    → (s' : Mm) × (page_remove curenv pgdir va s ≡ done tt s')
      × (page_lookup pgdir va s' ≡ done none s')
      × IsFreeList s' (if s.pp_ref pp == 1 then pp ∷ xs else xs)
      × (s'.pp_ref pp ≡ s.pp_ref pp - 1)
      × ((q : ℕ) → q ≢ pp → s'.pp_ref q ≡ s.pp_ref q)
      × ((a : ℕ) → a ≢ pte_at t va → s'.mem a ≡ s.mem a)
      × (s'.tlb ≡ tlb_operand curenv pgdir va ∷ s.tlb)
page_remove-page_lookup curenv s pgdir va t pp xs m apart v inside pos small =
    let operand = tlb_operand curenv pgdir va in
    let w = released-IsFreeList s pp xs v inside pos small in
    (
      unmapped s (pte_at t va) pp operand,
      page_remove-eq curenv s pgdir va t pp m,
      page_lookup_invalid (unmapped s (pte_at t va) pp operand) pgdir va t
          (unmapped-HasTable curenv s pgdir va t pp m apart) (ground (arith, zero-bit_and pte_v)),
      record { fits = w.fits; queue = w.queue; within = w.within; unused = w.unused },
      ground (arith, pp_ref-released s pp pp),
      λ q ne. ground (arith, pp_ref-released s pp q),
      λ a ne. ground (arith, mem-released s pp),
      ground (arith, tlb-released s pp),
    )
