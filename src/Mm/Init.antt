-- ===== src/Mm/Init.antt =====
-- `page_init` of mm/pmap.c: which pages are free when the kernel has started.
use jos_buaa_a20_porting.Prelude.{
  ℕ, zero, suc, ◌+◌, ◌-◌, ◌*◌, ◌/◌, ◌%◌, ◌^◌, ◌≤◌, ◌<◌, ◌≡◌, refl, inl, inr, ◌&&◌, List, [], ◌∷◌,
  arith, ltb, leb, ◌==◌, Bool-cases, done, if◌then◌else◌,
}
use mathlib.Core.Path.{subst}
use jos_buaa_a20_porting.Mmu.{ulim, by2pg, pgshift, round, word}
use jos_buaa_a20_porting.Mmu.Translate.{max_pages}
use jos_buaa_a20_porting.Queue
use jos_buaa_a20_porting.Queue.{update, Links, insert_head}
use jos_buaa_a20_porting.Queue.Chain.{has, IsQueue}
use jos_buaa_a20_porting.Queue.Insert.{insert_head-IsQueue}
use jos_buaa_a20_porting.Mm.{Mm, mark_used, mark_free, free_round, page_init}
use jos_buaa_a20_porting.Mm.Alloc.{IsFreeList}

mark_used-list : (n i : ℕ) (s : Mm) → (mark_used n i s).page_free_list ≡ s.page_free_list
unfolding mark_used
mark_used-list zero i s = refl
mark_used-list (suc n) i s = mark_used-list n (i + 1) _

mark_used-npage : (n i : ℕ) (s : Mm) → (mark_used n i s).npage ≡ s.npage
unfolding mark_used
mark_used-npage zero i s = refl
mark_used-npage (suc n) i s = mark_used-npage n (i + 1) _

mark_used-pp_ref :
    (n i : ℕ) (s : Mm) (q : ℕ)
    → (mark_used n i s).pp_ref q ≡ (if leb i q && ltb q (i + n) then 1 else s.pp_ref q)
unfolding mark_used
mark_used-pp_ref zero i s q = ground arith
mark_used-pp_ref (suc n) i s q =
    ground (arith, mark_used-pp_ref n (i + 1) (record s { pp_ref = update s.pp_ref i 1 }) q)

-- What the loop over the free pages keeps: the pages freed so far are the multiples of four from
-- `l` up to `i`, in a proper list, and every page from `l` up to `i` is unreferenced.
record Freed (l i : ℕ) (s : Mm) (xs : List ℕ) : Type 0 where
  queue : IsQueue s.page_free_list xs
  members : (q : ℕ) → has q xs ≡ (leb l q && (ltb q i && (q % 4 == 0)))
  unused : (q : ℕ) → l ≤ q → q < i → s.pp_ref q ≡ 0

free_round-list :
    (i : ℕ) (s : Mm)
    → (free_round i s).page_free_list
      ≡ (if i % 4 == 0 then insert_head s.page_free_list i else s.page_free_list)
unfolding free_round
free_round-list i s = refl

free_round-pp_ref : (i : ℕ) (s : Mm) → (free_round i s).pp_ref ≡ update s.pp_ref i 0
unfolding free_round
free_round-pp_ref i s = refl

free_round-Freed :
    (l i : ℕ) (s : Mm) (xs : List ℕ)
    → l ≤ i
    → Freed l i s xs
    → (ys : List ℕ) × Freed l (i + 1) (free_round i s) ys
unfolding free_round
free_round-Freed l i s xs below f = elim (Bool-cases (i % 4 == 0)) [
  | inl fourth ↦ (
    i ∷ xs,
    record {
      queue =
          subst (λ l. IsQueue l (i ∷ xs)) (ground (arith, free_round-list i s))
            (insert_head-IsQueue s.page_free_list i xs f.queue (ground (arith, f.members i)));
      members = λ q. ground (arith, f.members q);
      unused = λ q lo hi. ground (arith, f.unused q);
    },
  )
  | inr other ↦ (
    xs,
    record {
      queue = subst (λ l. IsQueue l xs) (ground (arith, free_round-list i s)) f.queue;
      members = λ q. ground (arith, f.members q);
      unused = λ q lo hi. ground (arith, f.unused q);
    },
  )
]

mark_free-Freed :
    (l n i : ℕ) (s : Mm) (xs : List ℕ)
    → l ≤ i
    → Freed l i s xs
    → (ys : List ℕ) × Freed l (i + n) (mark_free n i s) ys
unfolding mark_free
mark_free-Freed l zero i s xs below f =
    let e : i ≡ i + zero = omega arith in (xs, subst (λ j. Freed l j s xs) e f)
mark_free-Freed l (suc n) i s xs below f =
    let (ys, g) = free_round-Freed l i s xs below f in
    let (zs, h) = mark_free-Freed l n (i + 1) (free_round i s) ys (omega arith) g in
    let e : i + 1 + n ≡ i + suc n = omega arith in
    (zs, subst (λ j. Freed l j (mark_free n (i + 1) (free_round i s)) zs) e h)

mark_free-npage : (n i : ℕ) (s : Mm) → (mark_free n i s).npage ≡ s.npage
unfolding mark_free free_round
mark_free-npage zero i s = refl
mark_free-npage (suc n) i s = mark_free-npage n (i + 1) (free_round i s)

mark_free-below : (n i : ℕ) (s : Mm) (q : ℕ) → q < i → (mark_free n i s).pp_ref q ≡ s.pp_ref q
unfolding mark_free
mark_free-below zero i s q h = refl
mark_free-below (suc n) i s q h =
    ground (arith, mark_free-below n (i + 1) (free_round i s) q, free_round-pp_ref i s)

-- the first page behind what the boot has allocated, as `page_init` computes it
abbrev pub first_free : Mm → ℕ
first_free s = (round s.freemem (by2pg * 4) + word - ulim) % word / 2 ^ pgshift

-- After `page_init` the free list holds every fourth page from the first one behind `freemem` up
-- to `npage`, once each and unreferenced, and each page below `freemem` has one reference.
pub page_init-IsFreeList :
    (s : Mm)
    → s.npage ≤ max_pages
    → first_free s ≤ s.npage
    → (s' : Mm) × (xs : List ℕ) × (page_init s ≡ done tt s')
      × IsFreeList s' xs
      × ((q : ℕ) → has q xs ≡ (leb (first_free s) q && (ltb q s.npage && (q % 4 == 0))))
      × ((q : ℕ) → q < first_free s → s'.pp_ref q ≡ 1)
unfolding page_init
page_init-IsFreeList s fits room =
    let l = first_free s in
    let t : Mm = record s {
      page_free_list = Queue.init s.page_free_list;
      freemem = round s.freemem (by2pg * 4);
    } in
    let u : Mm = mark_used l 0 t in
    let start : Freed l l u [] = record {
      queue = ground (arith, mark_used-list l 0 t);
      members = λ q. ground arith;
      unused = λ q lo hi. absurd (omega arith);
    } in
    let (xs, f) = mark_free-Freed l (s.npage - l) l u [] (omega arith) start in
    (
      mark_free (s.npage - l) l u,
      xs,
      refl,
      record {
        fits = rw (mark_free-npage (s.npage - l) l u, mark_used-npage l 0 t) fits;
        queue = f.queue;
        within = λ q h.
            ground (arith, f.members q, mark_free-npage (s.npage - l) l u, mark_used-npage l 0 t);
        unused = λ q h. ground (arith, f.members q, f.unused q);
      },
      λ q. ground (arith, f.members q),
      λ q h. ground (arith, mark_free-below (s.npage - l) l u q h, mark_used-pp_ref l 0 t q),
    )
