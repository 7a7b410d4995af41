-- ===== src/Loader/Segments.antt =====
-- `load_icode_mapper` of lib/env.c on a segment of at most a page.
use jos_buaa_a20_porting.Prelude.{
  ℕ, ◌+◌, ◌-◌, ◌*◌, ◌/◌, ◌%◌, ◌≤◌, ◌<◌, ◌≡◌, ◌≢◌, refl, ap, sym, ◌∙◌, true, ◌&&◌, Option, none,
  some, List, ◌∷◌, arith, ◌==◌, leb, ltb, ◌⊎◌, if◌then◌else◌, Cmd, done, bit_and, ◌>>◌,
}
use jos_buaa_a20_porting.Mmu.{word, by2pg, ulim, pte_v, rounddown, kaddr, pte_addr}
use jos_buaa_a20_porting.Mmu.Fields.{rounddown_page}
use jos_buaa_a20_porting.Mmu.Translate.{max_pages, page2kva_lem}
use jos_buaa_a20_porting.Queue.{update}
use jos_buaa_a20_porting.Mm.{Mm, good, inc16, inc_ref, kva_of_page, bzero, clear_words}
use jos_buaa_a20_porting.Mm.Alloc.{IsFreeList, allocated, page_alloc-eq}
use jos_buaa_a20_porting.Paging.{Running, pde_at, pte_at, page_lookup, page_insert, is_table}
use jos_buaa_a20_porting.Paging.Walk.{HasTable}
use jos_buaa_a20_porting.Paging.Create.{OutsidePage}
use jos_buaa_a20_porting.Paging.Insert.{page_insert-Inserted}
use jos_buaa_a20_porting.Envs.{bcopy, copy_bytes}
use jos_buaa_a20_porting.Envs.Copy.{AreWords, copy_words, copy_bytes-copy_words}
use jos_buaa_a20_porting.Loader.{
  user_perm, load_page, fill_page, load_loop, zero_loop, pages_of, load_pages, load_icode_mapper,
  offset_in,
}

-- A page can be mapped at `va`: a first free page `p`, and a table with nothing mapped there, whose
-- words are outside of the page.
pub record IsRoom (s : Mm) (pgdir va t p : ℕ) (xs : List ℕ) : Type 0 where
  pub free : IsFreeList s (p ∷ xs)
  pub table : HasTable s pgdir va t
  pub empty : (bit_and (s.mem (pte_at t va)) pte_v == 0) ≡ true
  pub apart : pte_at t va ≢ pde_at pgdir va
  pub out : OutsidePage p (pte_at t va)
  pub out' : OutsidePage p (pde_at pgdir va)

kva_lem :
    (u : Mm) (p : ℕ)
    → u.npage ≤ max_pages
    → p < u.npage
    → kva_of_page p u ≡ done (ulim + p * 4096) u
unfolding kva_of_page
kva_lem u p fits inside = ground (arith, page2kva_lem u.npage fits p inside)

-- the page after it is allocated, counted and zeroed again
abbrev zeroed_page : (s : Mm) (p : ℕ) → Mm
zeroed_page s p =
    let u : Mm = allocated s p in
    record u {
      pp_ref = update s.pp_ref p (inc16 (s.pp_ref p));
      mem = clear_words u.mem (ulim + p * 4096) by2pg;
    }

load_page-eq :
    (curenv : Option Running) (s : Mm) (pgdir va p : ℕ) (xs : List ℕ) (fill : ℕ → Cmd Mm (Unit {0}))
    → IsFreeList s (p ∷ xs)
    → load_page curenv pgdir va fill s
      ≡ (do fill (ulim + p * 4096); page_insert curenv pgdir p va user_perm) (zeroed_page s p)
unfolding load_page inc_ref bzero
load_page-eq curenv s pgdir va p xs fill v =
    let u : Mm = allocated s p in
    let counted : Mm = record u { pp_ref = update s.pp_ref p (inc16 (s.pp_ref p)) } in
    rw (page_alloc-eq s p xs v) (rw (kva_lem counted p v.fits (v.within p (ground arith))) refl)

-- the same with the words of the segment in place
abbrev filled : (s : Mm) (p src d n : ℕ) → Mm
filled s p src d n = record (zeroed_page s p) {
  mem = copy_words (zeroed_page s p).mem src (ulim + p * 4096 + d) n;
}

-- A binary of whole words, for an address `va` of a word, that lies outside of page `p`, in a memory
-- of words.
pub record IsSource (s : Mm) (p va bin bin_size : ℕ) : Type 0 where
  pub place : va % 4 ≡ 0
  pub source : bin % 4 ≡ 0
  pub size : bin_size % 4 ≡ 0
  pub apart : (bin + bin_size ≤ ulim + p * 4096) ⊎ (ulim + p * 4096 + 4096 ≤ bin)
  pub words : AreWords s.mem

-- What is loaded: the page is found at the address, it has two references, it holds the words of the
-- `n` bytes of the segment from `d` on, and zeros otherwise; nothing is loaded elsewhere: all other
-- words but the page's table entry and all other counts are as they were.
pub record Loaded (s s' : Mm) (pgdir va t p src d n : ℕ) : Type 0 where
  pub found : page_lookup pgdir va s' ≡ done (some (p, pte_at t va)) s'
  pub count : s'.pp_ref p ≡ 2
  pub words : (a : ℕ) → a % 4 ≡ 0 → a < n → s'.mem (ulim + p * 4096 + d + a) ≡ s.mem (src + a)
  pub zeros : (a : ℕ) → a < 4096 → (a < d) ⊎ (d + n ≤ a) → s'.mem (ulim + p * 4096 + a) ≡ 0
  pub elsewhere : (a : ℕ) → a ≢ pte_at t va → OutsidePage p a → s'.mem a ≡ s.mem a
  pub counts : (q : ℕ) → q ≢ p → s'.pp_ref q ≡ s.pp_ref q

copy-inside :
    (mem : ℕ → ℕ) (src dst n a : ℕ)
    → dst % 4 ≡ 0
    → a % 4 ≡ 0
    → a < n
    → copy_words mem src dst n (dst + a) ≡ mem (src + a)
copy-inside mem src dst n a hd on lt =
    let whole : ((dst + a) % 4 == 0) ≡ true = ground (arith, hd, on) in
    let back : dst + a - dst ≡ a = omega arith in
    let inside : (leb dst (dst + a) && ltb (dst + a) (dst + n)) ≡ true = ground (arith, lt) in
    rw whole (rw inside (rw back refl))

filled-Loaded :
    (curenv : Option Running) (s : Mm) (pgdir va t p src d n : ℕ) (xs : List ℕ)
    → IsRoom s pgdir va t p xs
    → d + n ≤ 4096
    → d % 4 ≡ 0
    → ((a : ℕ) → a < n → OutsidePage p (src + a))
    → (s' : Mm) × (page_insert curenv pgdir p va user_perm (filled s p src d n) ≡ done (good tt) s')
      × Loaded s s' pgdir va t p src d n
filled-Loaded curenv s pgdir va t p src d n xs r fits hd outside =
    let u : Mm = filled s p src d n in
    let at_pte : u.mem (pte_at t va) ≡ s.mem (pte_at t va) = ground (arith, r.out) in
    let at_pde : u.mem (pde_at pgdir va) ≡ s.mem (pde_at pgdir va) = ground (arith, r.out') in
    let h : HasTable u pgdir va t = record {
      user = r.table.user;
      table = ap is_table at_pde ∙ r.table.table;
      there = ap (λ (e : ℕ). kaddr s.npage (pte_addr e)) at_pde ∙ r.table.there;
    } in
    let empty : (bit_and (u.mem (pte_at t va)) pte_v == 0) ≡ true =
      ap (λ (e : ℕ). bit_and e pte_v == 0) at_pte ∙ r.empty in
    let (s', run, i) =
      page_insert-Inserted curenv u pgdir va t p user_perm h r.apart r.free.fits
        (r.free.within p (ground arith)) (omega arith) none empty in
    (
      s',
      run,
      record {
        found = i.found;
        count = i.counts p ∙ ground (arith, r.free.unused p);
        words = λ a on lt.
            let away : ulim + p * 4096 + d + a ≢ pte_at t va = ground (arith, r.out) in
            let put : u.mem (ulim + p * 4096 + d + a) ≡ (zeroed_page s p).mem (src + a) =
              copy-inside (zeroed_page s p).mem src (ulim + p * 4096 + d) n a (omega (arith, hd)) on
                lt in
            let same : (zeroed_page s p).mem (src + a) ≡ s.mem (src + a) =
              ground (arith, outside a lt) in
            i.elsewhere (ulim + p * 4096 + d + a) away ∙ put ∙ same;
        zeros = λ a lt out.
            let away : ulim + p * 4096 + a ≢ pte_at t va = ground (arith, r.out) in
            let kept : u.mem (ulim + p * 4096 + a) ≡ 0 = ground (arith, out) in
            i.elsewhere (ulim + p * 4096 + a) away ∙ kept;
        elsewhere = λ a ne out.
            let kept : u.mem a ≡ s.mem a = ground (arith, out, fits) in i.elsewhere a ne ∙ kept;
        counts = λ q ne. i.counts q ∙ ground (arith, ne);
      },
    )

-- how many bytes of a segment are loaded to its first page
abbrev pub first_bytes : (offset bin_size : ℕ) → ℕ
first_bytes offset bin_size = if leb (by2pg - offset) bin_size then by2pg - offset else bin_size

first_page :
    (curenv : Option Running) (pgdir va sgsize bin bin_size : ℕ) (s s' : Mm)
    → 0 < bin_size
    → bin_size ≤ 4096
    → sgsize ≤ 4096
    → load_page curenv pgdir
        (va + 0 - offset_in curenv pgdir va)
        (fill_page (offset_in curenv pgdir va) bin bin_size 0)
        s
      ≡ done (good tt) s'
    → load_icode_mapper curenv pgdir va sgsize bin bin_size s ≡ done (good tt) s'
unfolding load_icode_mapper load_pages load_loop zero_loop
first_page curenv pgdir va sgsize bin bin_size s s' pos small few run =
    let one : pages_of bin_size ≡ 1 = omega arith in
    let left : pages_of sgsize - pages_of bin_size ≡ 0 = omega arith in
    ap (λ (m : ℕ). load_pages curenv pgdir va bin bin_size (pages_of bin_size) m s) left
    ∙ ap (λ (n : ℕ). load_pages curenv pgdir va bin bin_size n 0 s) one
    ∙ rw run refl

offset_lem : (va : ℕ) → va < word → va - rounddown va by2pg ≡ va % 4096
offset_lem va h = omega (arith, rounddown_page va h)

start_lem : (va : ℕ) → va < word → va + 0 - (va - rounddown va by2pg) ≡ rounddown va by2pg
start_lem va h = omega (arith, rounddown_page va h)

-- the page of the segment
only_page :
    (curenv : Option Running) (s s' : Mm) (pgdir va0 va p bin bin_size offset offset' : ℕ)
    (xs : List ℕ)
    → IsFreeList s (p ∷ xs)
    → va ≡ va0
    → offset ≡ offset'
    → copy_bytes
        (zeroed_page s p).mem
        bin
        (ulim + p * 4096 + offset')
        (first_bytes offset' bin_size)
      ≡ (filled s p bin offset' (first_bytes offset' bin_size)).mem
    → page_insert curenv pgdir p va0 user_perm
        (filled s p bin offset' (first_bytes offset' bin_size))
      ≡ done (good tt) s'
    → load_page curenv pgdir va (fill_page offset bin bin_size 0) s ≡ done (good tt) s'
unfolding bcopy
only_page curenv s s' pgdir va0 va p bin bin_size offset offset' xs v at same copied run = rw at (
    rw same (
      rw (load_page-eq curenv s pgdir va0 p xs (fill_page offset' bin bin_size 0) v)
        (rw copied (rw run refl))))

-- the copy to the page
copied_words :
    (s : Mm) (p va bin bin_size : ℕ)
    → IsSource s p va bin bin_size
    → bin_size ≤ 4096
    → copy_bytes
        (zeroed_page s p).mem
        bin
        (ulim + p * 4096 + va % 4096)
        (first_bytes (va % 4096) bin_size)
      ≡ (filled s p bin (va % 4096) (first_bytes (va % 4096) bin_size)).mem
copied_words s p va bin bin_size b small =
    let n : ℕ = first_bytes (va % 4096) bin_size in
    let less : n ≤ bin_size = ground arith in
    let fits : va % 4096 + n ≤ 4096 = ground (arith, small) in
    let digits : va % 4096 % 4 ≡ 0 = omega (arith, b.place) in
    let whole : n % 4 ≡ 0 = ground (arith, b.size, digits) in
    let all : 4 * (n / 4) ≡ n = omega (arith, whole) in
    let dst : ℕ = ulim + p * 4096 + va % 4096 in
    let apart : (bin + 4 * (n / 4) ≤ dst) ⊎ (dst + 4 * (n / 4) ≤ bin) =
      ground (arith, b.apart, less, fits, all) in
    ap (copy_bytes (zeroed_page s p).mem bin dst) (sym all)
    ∙ copy_bytes-copy_words (n / 4) (zeroed_page s p).mem bin dst b.source (omega (arith, digits))
        apart (λ a. ground (arith, b.words a))
    ∙ ap (copy_words (zeroed_page s p).mem bin dst) all

-- A segment of whole words, of at least one and at most a page, at the address of a word, in the
-- kernel's memory outside of the first free page, is loaded to that page: the page is found at the
-- page of its address, where nothing was mapped and a table is there, with two references where
-- one would be right, and holds the words of the segment up to the end of the page, at their
-- offset, and zeros otherwise. What reaches past the end of the page is not loaded: all words
-- outside the page but its table entry, and all other counts, are as they were.
pub load_icode_mapper-Loaded :
    (curenv : Option Running) (s : Mm) (pgdir va sgsize bin bin_size t p : ℕ) (xs : List ℕ)
    → va < word
    → 0 < bin_size
    → bin_size ≤ 4096
    → sgsize ≤ 4096
    → IsRoom s pgdir (rounddown va by2pg) t p xs
    → IsSource s p va bin bin_size
    → (s' : Mm) × (load_icode_mapper curenv pgdir va sgsize bin bin_size s ≡ done (good tt) s')
      × Loaded s s' pgdir
          (rounddown va by2pg)
          t
          p
          bin
          (va % 4096)
          (first_bytes (va % 4096) bin_size)
load_icode_mapper-Loaded curenv s pgdir va sgsize bin bin_size t p xs in_word pos small few r b =
    let off : offset_in curenv pgdir va ≡ va % 4096 = offset_lem va in_word in
    let start : va + 0 - offset_in curenv pgdir va ≡ rounddown va by2pg = start_lem va in_word in
    let n : ℕ = first_bytes (va % 4096) bin_size in
    let fits : va % 4096 + n ≤ 4096 = ground (arith, small) in
    let (s', run, loaded) =
      filled-Loaded curenv s pgdir (rounddown va by2pg) t p bin (va % 4096) n xs r fits
        (omega (arith, b.place)) (λ a lt. ground (arith, lt, b.apart)) in
    (
      s',
      first_page curenv pgdir va sgsize bin bin_size s s' pos small few (
          only_page curenv s s' pgdir (rounddown va by2pg) (va + 0 - offset_in curenv pgdir va) p
            bin bin_size (offset_in curenv pgdir va) (va % 4096) xs r.free start off
            (copied_words s p va bin bin_size b small) run),
      loaded,
    )
