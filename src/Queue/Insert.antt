-- ===== src/Queue/Insert.antt =====
-- Insertion into a linked list of include/queue.h.
use jos_buaa_a20_porting.Prelude.{ℕ, ◌≡◌, refl, true, false, List, [], ◌∷◌, arith, ◌==◌}
use jos_buaa_a20_porting.Queue.{at, Links, insert_head}
use jos_buaa_a20_porting.Queue.Chain.{has, IsQueue, Chain-frame}

-- `LIST_INSERT_HEAD` of an element that is not in the list puts it in front of the others.
pub insert_head-IsQueue :
    (l : Links) (e : ℕ) (xs : List ℕ)
    → IsQueue l xs
    → has e xs ≡ false
    → IsQueue (insert_head l e) (e ∷ xs)
unfolding insert_head
insert_head-IsQueue l e [] q out = ground arith
insert_head-IsQueue l e (x ∷ xs) q out = (
  refl,
  ground arith,
  out,
  (
    ground arith,
    ground arith,
    q.2,
    ground (
      arith,
      Chain-frame l (insert_head l e) (at x) (l.next x) xs
          (λ y h. (ground (arith, ne y h), ground (arith, ne y h))) q.3,
    ),
  ),
)
  where
    ne : (y : ℕ) → has y xs ≡ true → ((y == e) ≡ false) × ((y == x) ≡ false)
    ne y h = (ground arith, ground arith)
