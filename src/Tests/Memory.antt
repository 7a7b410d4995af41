-- ===== src/Tests/Memory.antt =====
-- The lists and the page allocator on the small machine.
use jos_buaa_a20_porting.Prelude.{
  ℕ, ◌+◌, ◌*◌, ◌%◌, ◌≤◌, ◌<◌, ◌≡◌, ◌⊎◌, refl, false, ◌&&◌, some, List, [], ◌∷◌, arith, ◌==◌, leb,
  ltb, done,
}
use jos_buaa_a20_porting.Queue.{Links, remove}
use jos_buaa_a20_porting.Queue.Chain.{has, erase, IsQueue}
use jos_buaa_a20_porting.Queue.Remove.{remove-IsQueue}
use jos_buaa_a20_porting.Mmu.{ulim, round}
use jos_buaa_a20_porting.Mm.{Mm, good, page_alloc, page_init}
use jos_buaa_a20_porting.Mm.Alloc.{IsFreeList, page_alloc-cons}
use jos_buaa_a20_porting.Mm.Init.{first_free, page_init-IsFreeList}
use jos_buaa_a20_porting.Tests.World.{machine, two_free, two_free-IsQueue, machine-IsFreeList}

booted : first_free machine ≤ 64
unfolding round
booted = omega arith

remove-IsQueue_example :
    (l' : Links) × (remove two_free 12 ≡ some l') × IsQueue l' (erase 12 (8 ∷ 12 ∷ []))
remove-IsQueue_example = remove-IsQueue two_free (8 ∷ 12 ∷ []) 12 two_free-IsQueue refl

page_alloc-cons_example :
    (s' : Mm) × (page_alloc machine ≡ done (good 8) s')
    × IsFreeList s' (12 ∷ [])
    × (has 8 (12 ∷ []) ≡ false)
    × ((a : ℕ) → ulim + 8 * 4096 ≤ a → a < ulim + 8 * 4096 + 4096 → s'.mem a ≡ 0)
    × ((a : ℕ) → (a < ulim + 8 * 4096) ⊎ (ulim + 8 * 4096 + 4096 ≤ a) → s'.mem a ≡ machine.mem a)
    × (s'.pp_ref ≡ machine.pp_ref)
page_alloc-cons_example = page_alloc-cons machine 8 (12 ∷ []) machine-IsFreeList

page_init-IsFreeList_example :
    (s' : Mm) × (xs : List ℕ) × (page_init machine ≡ done tt s')
    × IsFreeList s' xs
    × ((q : ℕ) → has q xs ≡ (leb (first_free machine) q && (ltb q machine.npage && (q % 4 == 0))))
    × ((q : ℕ) → q < first_free machine → s'.pp_ref q ≡ 1)
page_init-IsFreeList_example = page_init-IsFreeList machine (omega arith) booted
