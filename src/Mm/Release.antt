-- ===== src/Mm/Release.antt =====
-- Reference counts of mm/pmap.c: the last release of a page gives it back to the allocator.
use jos_buaa_a20_porting.Prelude.{
  ℕ, ◌-◌, ◌^◌, ◌<◌, ◌≡◌, ◌≢◌, refl, inl, inr, false, some, List, ◌∷◌, arith, ◌==◌, Bool-cases, done,
  ◌>>◌, if◌then◌else◌,
}
use jos_buaa_a20_porting.Queue.{update}
use jos_buaa_a20_porting.Queue.Chain.{has}
use jos_buaa_a20_porting.Mm.{Mm, good, dec16, page_alloc, page_free, page_decref}
use jos_buaa_a20_porting.Mm.Alloc.{
  IsFreeList, allocated, page_alloc-eq, allocated-IsFreeList, freed, page_free-eq, freed-IsFreeList,
}

-- the state after `--pp->pp_ref`
abbrev pub dropped : Mm → ℕ → Mm
dropped s p = record s { pp_ref = update s.pp_ref p (dec16 (s.pp_ref p)) }

-- a referenced page is not free
pub not-has_of_ref :
    (s : Mm) (p : ℕ) (xs : List ℕ) → IsFreeList s xs → 0 < s.pp_ref p → has p xs ≡ false
not-has_of_ref s p xs v h = elim (Bool-cases (has p xs)) [
  | inl i ↦ absurd (omega (arith, v.unused p i))
  | inr o ↦ o
]

pub dropped-IsFreeList :
    (s : Mm) (p : ℕ) (xs : List ℕ)
    → IsFreeList s xs
    → has p xs ≡ false
    → IsFreeList (dropped s p) xs
dropped-IsFreeList s p xs v out = record {
  fits = v.fits;
  queue = v.queue;
  within = v.within;
  unused = λ q h. ground (arith, v.unused q);
}

-- `page_decref` of a page with `r` references, 0 < r < 65536, leaves r - 1; at the last one the
-- page comes to the front of the free list, and otherwise the list is as it was. No other count
-- changes.
pub page_decref-IsFreeList :
    (s : Mm) (p : ℕ) (xs : List ℕ)
    → IsFreeList s xs
    → p < s.npage
    → 0 < s.pp_ref p
    → s.pp_ref p < 2 ^ 16
    → (s' : Mm) × (page_decref (some p) s ≡ done tt s')
      × IsFreeList s' (if s.pp_ref p == 1 then p ∷ xs else xs)
      × (s'.pp_ref p ≡ s.pp_ref p - 1)
      × ((q : ℕ) → q ≢ p → s'.pp_ref q ≡ s.pp_ref q)
      × (s'.mem ≡ s.mem)
unfolding page_decref
page_decref-IsFreeList s p xs v inside pos small =
    let out : has p xs ≡ false = not-has_of_ref s p xs v pos in
    elim (Bool-cases (s.pp_ref p == 1)) [
      | inl last ↦ rw last (
        freed (dropped s p) p,
        ground (arith, page_free-eq (dropped s p) p),
        freed-IsFreeList (dropped s p) p xs (dropped-IsFreeList s p xs v out) inside out
            (ground arith),
        ground arith,
        λ q ne. ground arith,
        refl,
      )
      | inr more ↦ rw more (
        dropped s p,
        ground arith,
        dropped-IsFreeList s p xs v out,
        ground arith,
        λ q ne. ground arith,
        refl,
      )
    ]

-- A page that is freed is the next one to be allocated.
pub page_free-page_alloc :
    (s : Mm) (p : ℕ) (xs : List ℕ)
    → IsFreeList s xs
    → p < s.npage
    → has p xs ≡ false
    → s.pp_ref p ≡ 0
    → (s' : Mm) × ((page_free p >> page_alloc) s ≡ done (good p) s') × IsFreeList s' xs
page_free-page_alloc s p xs v inside out unused =
    let w = freed-IsFreeList s p xs v inside out unused in
    (
      allocated (freed s p) p,
      ground (arith, page_free-eq s p unused, page_alloc-eq (freed s p) p xs w),
      allocated-IsFreeList (freed s p) p xs w,
    )
