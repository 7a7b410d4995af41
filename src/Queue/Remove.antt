-- ===== src/Queue/Remove.antt =====
-- Removal of an element from a linked list of include/queue.h.
use jos_buaa_a20_porting.Prelude.{
  ℕ, ◌≡◌, ◌≢◌, refl, inl, inr, Bool, true, false, Option, none, some, List, [], ◌∷◌, arith, ◌==◌,
  Bool-cases, Option-cases, ◌∙◌, sym, if◌then◌else◌,
}
use mathlib.Core.Path.{subst}
use jos_buaa_a20_porting.Queue.{Prev, null, head, at, Links, update, set_prev_of, remove}
use jos_buaa_a20_porting.Queue.Chain.{
  has, erase, Chain, IsQueue, Chain-frame, Chain-prev, Chain-next, not-has-erase,
}

abbrev stands_at : Prev → List ℕ → Bool
stands_at null xs = false
stands_at head xs = true
stands_at (at w) xs = if has w xs then false else true

-- the links after `LIST_REMOVE`
abbrev pub removed : Links → ℕ → Links
removed l e = record {
  first = elim (l.prev e) [ head ↦ l.next e | _ ↦ l.first ];
  next = elim (l.prev e) [ at w ↦ update l.next w (l.next e) | _ ↦ l.next ];
  prev = set_prev_of (l.next e) (l.prev e) l.prev;
}

abbrev starts : Option ℕ → ℕ → Bool
starts none e = false
starts (some x) e = x == e

-- Removal of the first element: what follows it takes its place.
removed-first :
    (l : Links) (p : Prev) (e : ℕ) (xs : List ℕ)
    → Chain l p (some e) (e ∷ xs)
    → stands_at p xs ≡ true
    → Chain (removed l e) p (l.next e) xs
removed-first l p e [] c out = c.3
removed-first l p e (y ∷ xs) c out = (
  c.3.0,
  ground arith,
  c.3.2,
  ground (
    arith,
    Chain-frame l (removed l e) (at y) (l.next y) xs
        (λ z h. (ground (arith, ne z h), ground (arith, ne z h))) c.3.3,
  ),
)
  where
    ne : (z : ℕ) → has z xs ≡ true → (z == y) ≡ false
    ne z h = ground arith

-- The pointer in the element before the removed one is relinked; any other is as it was.
removed-next :
    (l : Links) (x e : ℕ) (xs : List ℕ)
    → Chain l (at x) (l.next x) xs
    → has x xs ≡ false
    → has e xs ≡ true
    → (removed l e).next x ≡ (if starts (l.next x) e then l.next e else l.next x)
removed-next l x e [] c out h = cc
removed-next l x e (y ∷ ys) c out h = elim (Chain-prev l (at x) (l.next x) (y ∷ ys) e c h) [
  | inl (q, r) ↦ ground arith
  | inr (w, q, i) ↦ ground arith
]

removed-prev :
    (l : Links) (p : Prev) (o : Option ℕ) (x e : ℕ) (xs : List ℕ)
    → Chain l p o xs
    → has x xs ≡ false
    → has e xs ≡ true
    → (removed l e).prev x ≡ l.prev x
removed-prev l p o x e xs c out h = elim (Option-cases (l.next e)) [
  | inl last ↦ rw last
  | inr (z, follows) ↦ rw follows (ground (arith, Chain-next l p o xs e z c h follows))
]

-- Removal relinks the pointer that leads to `e`; the rest of the chain is as before.
removed-Chain :
    (l : Links) (p : Prev) (o : Option ℕ) (xs : List ℕ) (e : ℕ)
    → Chain l p o xs
    → stands_at p xs ≡ true
    → has e xs ≡ true
    → Chain (removed l e) p (if starts o e then l.next e else o) (erase e xs)
removed-Chain l p o [] e c out h = cc
removed-Chain l p o (x ∷ xs) e c out h = elim (Bool-cases (e == x)) [
  | inl here ↦ ground (arith, removed-first l p e xs (ground arith) (ground arith))
  | inr there ↦ rw there (
    ground arith,
    removed-prev l (at x) (l.next x) x e xs c.3 c.2 (ground arith) ∙ c.1,
    not-has-erase x e xs c.2,
    subst (λ q. Chain (removed l e) (at x) q (erase e xs))
        (sym (removed-next l x e xs c.3 c.2 (ground arith)))
        (removed-Chain l (at x) (l.next x) xs e c.3 (ground arith) (ground arith)),
  )
]

removed-head :
    (l : Links) (xs : List ℕ) (e : ℕ)
    → IsQueue l xs
    → has e xs ≡ true
    → (removed l e).first ≡ (if starts l.first e then l.next e else l.first)
removed-head l [] e q h = cc
removed-head l (y ∷ ys) e q h = elim (Chain-prev l head l.first (y ∷ ys) e q h) [
  | inl (p, r) ↦ ground arith
  | inr (w, p, i) ↦ ground arith
]

next-ne_self :
    (l : Links) (p : Prev) (o : Option ℕ) (xs : List ℕ) (e : ℕ)
    → Chain l p o xs
    → has e xs ≡ true
    → l.next e ≢ some e
next-ne_self l p o [] e c h n = cc
next-ne_self l p o (x ∷ []) e c h n = ground arith
next-ne_self l p o (x ∷ y ∷ xs) e c h n =
    ground (arith, next-ne_self l (at x) (l.next x) (y ∷ xs) e c.3)

pub remove-eq-removed :
    (l : Links) (xs : List ℕ) (e : ℕ)
    → IsQueue l xs
    → has e xs ≡ true
    → remove l e ≡ some (removed l e)
unfolding remove
remove-eq-removed l xs e q h =
    let apart : l.next e ≢ some e = next-ne_self l head l.first xs e q h in
    elim (Chain-prev l head l.first xs e q h) [
      | inl (p, r) ↦ ground arith
      | inr (w, p, i) ↦ ground arith
    ]

pub removed-IsQueue :
    (l : Links) (xs : List ℕ) (e : ℕ)
    → IsQueue l xs
    → has e xs ≡ true
    → IsQueue (removed l e) (erase e xs)
removed-IsQueue l xs e q h =
    subst (λ o. Chain (removed l e) head o (erase e xs)) (sym (removed-head l xs e q h))
      (removed-Chain l head l.first xs e q refl h)

-- `LIST_REMOVE` of an element of a list writes through no bad pointer, and leaves the list of
-- the others, in their order.
pub remove-IsQueue :
    (l : Links) (xs : List ℕ) (e : ℕ)
    → IsQueue l xs
    → has e xs ≡ true
    → (l' : Links) × (remove l e ≡ some l') × IsQueue l' (erase e xs)
remove-IsQueue l xs e q h = (removed l e, remove-eq-removed l xs e q h, removed-IsQueue l xs e q h)

erase-Chain :
    (l : Links) (p : Prev) (o : Option ℕ) (xs : List ℕ) (e : ℕ)
    → Chain l p o xs
    → has e (erase e xs) ≡ false
erase-Chain l p o [] e c = refl
erase-Chain l p o (x ∷ xs) e c = ground (arith, erase-Chain l (at x) (l.next x) xs e c.3)

-- The elements of a list are distinct, so an erased one is gone, and any other stays.
pub has-erase_self : (e : ℕ) (l : Links) (xs : List ℕ) → IsQueue l xs → has e (erase e xs) ≡ false
has-erase_self e l xs q = erase-Chain l head l.first xs e q

pub has-erase_ne : (q e : ℕ) (xs : List ℕ) → (q == e) ≡ false → has q (erase e xs) ≡ has q xs
has-erase_ne q e [] h = refl
has-erase_ne q e (x ∷ xs) h = ground (arith, has-erase_ne q e xs)
