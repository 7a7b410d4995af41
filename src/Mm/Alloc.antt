-- ===== src/Mm/Alloc.antt =====
-- The page allocator of mm/pmap.c against the list of its free pages.
use jos_buaa_a20_porting.Prelude.{
  ℕ, ◌+◌, ◌*◌, ◌≤◌, ◌<◌, ◌≡◌, ◌⊎◌, inl, inr, refl, true, false, List, [], ◌∷◌, arith, ◌==◌, ==_iff,
  Bool-cases, done, if◌then◌else◌,
}
use jos_buaa_a20_porting.Mmu.{ulim, by2pg}
use jos_buaa_a20_porting.Mmu.Translate.{max_pages, page2kva_lem}
use jos_buaa_a20_porting.Queue.{insert_head}
use jos_buaa_a20_porting.Queue.Chain.{has, IsQueue}
use jos_buaa_a20_porting.Queue.Insert.{insert_head-IsQueue}
use jos_buaa_a20_porting.Queue.Remove.{removed, remove-eq-removed, removed-IsQueue}
use jos_buaa_a20_porting.Mm.{Mm, good, bad, no_mem, clear_words, page_alloc, page_free}

-- The free list holds the distinct pages `xs`, each of them inside the memory and unreferenced.
pub record IsFreeList (s : Mm) (xs : List ℕ) : Type 0 where
  pub fits : s.npage ≤ max_pages
  pub queue : IsQueue s.page_free_list xs
  pub within : (p : ℕ) → has p xs ≡ true → p < s.npage
  pub unused : (p : ℕ) → has p xs ≡ true → s.pp_ref p ≡ 0

-- what `page_alloc` leaves when the first free page is `p`
abbrev pub allocated : Mm → ℕ → Mm
allocated s p = record s {
  page_free_list = removed s.page_free_list p;
  mem = clear_words s.mem (ulim + p * 4096) by2pg;
}

-- The step of `page_alloc` as an equation.
pub page_alloc-eq :
    (s : Mm) (p : ℕ) (xs : List ℕ)
    → IsFreeList s (p ∷ xs)
    → page_alloc s ≡ done (good p) (allocated s p)
unfolding page_alloc
page_alloc-eq s p xs v = ground (
  arith,
  remove-eq-removed s.page_free_list (p ∷ xs) p v.queue (ground arith),
  page2kva_lem s.npage v.fits p (v.within p (ground arith)),
)

pub allocated-IsFreeList :
    (s : Mm) (p : ℕ) (xs : List ℕ) → IsFreeList s (p ∷ xs) → IsFreeList (allocated s p) xs
allocated-IsFreeList s p xs v = record {
  fits = v.fits;
  queue = ground (arith, removed-IsQueue s.page_free_list (p ∷ xs) p v.queue);
  within = λ q h. v.within q (ground arith);
  unused = λ q h. v.unused q (ground arith);
}

-- `page_alloc` with free pages: it returns the first of them, zeroes its `BY2PG` bytes and no
-- other word, takes it off the free list for good, and leaves every `pp_ref` alone.
pub page_alloc-cons :
    (s : Mm) (p : ℕ) (xs : List ℕ)
    → IsFreeList s (p ∷ xs)
    → (s' : Mm) × (page_alloc s ≡ done (good p) s')
      × IsFreeList s' xs
      × (has p xs ≡ false)
      × ((a : ℕ) → ulim + p * 4096 ≤ a → a < ulim + p * 4096 + 4096 → s'.mem a ≡ 0)
      × ((a : ℕ) → (a < ulim + p * 4096) ⊎ (ulim + p * 4096 + 4096 ≤ a) → s'.mem a ≡ s.mem a)
      × (s'.pp_ref ≡ s.pp_ref)
page_alloc-cons s p xs v = (
  allocated s p,
  page_alloc-eq s p xs v,
  allocated-IsFreeList s p xs v,
  v.queue.2,
  λ a lo hi. ground arith,
  λ a out. ground arith,
  refl,
)

-- `page_alloc` with no free page returns `-E_NO_MEM` and changes nothing.
pub page_alloc-nil : (s : Mm) → IsFreeList s [] → page_alloc s ≡ done (bad no_mem) s
unfolding page_alloc
page_alloc-nil s v = ground (arith, v.queue)

abbrev pub freed : Mm → ℕ → Mm
freed s p = record s { page_free_list = insert_head s.page_free_list p }

pub page_free-eq : (s : Mm) (p : ℕ) → s.pp_ref p ≡ 0 → page_free p s ≡ done tt (freed s p)
unfolding page_free
page_free-eq s p h = ground arith

pub freed-IsFreeList :
    (s : Mm) (p : ℕ) (xs : List ℕ)
    → IsFreeList s xs
    → p < s.npage
    → has p xs ≡ false
    → s.pp_ref p ≡ 0
    → IsFreeList (freed s p) (p ∷ xs)
freed-IsFreeList s p xs v inside out h = record {
  fits = v.fits;
  queue = insert_head-IsQueue s.page_free_list p xs v.queue out;
  within = λ q i. ground (arith, v.within q);
  unused = λ q i. ground (arith, v.unused q);
}

-- `page_free` of a page outside the free list: a page still referenced stays as it is, and any
-- other comes to the front of the free list.
pub page_free-IsFreeList :
    (s : Mm) (p : ℕ) (xs : List ℕ)
    → IsFreeList s xs
    → p < s.npage
    → has p xs ≡ false
    → (s' : Mm) × (page_free p s ≡ done tt s')
      × IsFreeList s' (if s.pp_ref p == 0 then p ∷ xs else xs)
      × (s'.pp_ref ≡ s.pp_ref)
      × (s'.mem ≡ s.mem)
unfolding page_free
page_free-IsFreeList s p xs v inside out = elim (Bool-cases (s.pp_ref p == 0)) [
  | inl zero_ref ↦
      let unused : s.pp_ref p ≡ 0 = (==_iff _ _).0 zero_ref in
      rw zero_ref (
        freed s p,
        ground (arith, page_free-eq s p unused),
        freed-IsFreeList s p xs v inside out unused,
        refl,
        refl,
      )
  | inr referenced ↦ rw referenced (s, ground arith, v, refl, refl)
]
