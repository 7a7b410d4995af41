-- ===== src/Queue/Chain.antt =====
-- What a linked list of include/queue.h holds: `next` leads through the elements, and each
-- `prev` points back at the pointer that leads to it.
use jos_buaa_a20_porting.Prelude.{
  ℕ, ◌≡◌, refl, ◌⊎◌, inl, inr, Bool, true, false, ◌||◌, Option, none, some, List, [], ◌∷◌, arith,
  ◌==◌, ==_iff, Bool-cases, if◌then◌else◌,
}
use jos_buaa_a20_porting.Queue.{Prev, head, at, Links}

abbrev pub has : ℕ → List ℕ → Bool
has a [] = false
has a (x ∷ xs) = (a == x) || has a xs

abbrev pub erase : ℕ → List ℕ → List ℕ
erase a [] = []
erase a (x ∷ xs) = if a == x then xs else x ∷ erase a xs

-- from the pointer `o`, kept at `p`, the links lead through the distinct elements `xs`
abbrev pub Chain : Links → Prev → Option ℕ → List ℕ → Type 0
Chain l p o [] = o ≡ none
Chain l p o (x ∷ xs) =
    (o ≡ some x) × (l.prev x ≡ p) × (has x xs ≡ false) × Chain l (at x) (l.next x) xs

abbrev pub IsQueue : Links → List ℕ → Type 0
IsQueue l xs = Chain l head l.first xs

-- A chain survives any change that spares the links of its own elements.
pub Chain-frame :
    (l m : Links) (p : Prev) (o : Option ℕ) (xs : List ℕ)
    → ((x : ℕ) → has x xs ≡ true → (m.next x ≡ l.next x) × (m.prev x ≡ l.prev x))
    → Chain l p o xs
    → Chain m p o xs
Chain-frame l m p o [] same c = c
Chain-frame l m p o (x ∷ xs) same c = (
  c.0,
  ground (arith, same x),
  c.2,
  ground (arith, same x, Chain-frame l m (at x) (l.next x) xs (λ y h. same y (ground arith)) c.3),
)

-- An element of a chain is pointed at from the chain's start, or from another element.
pub Chain-prev :
    (l : Links) (p : Prev) (o : Option ℕ) (xs : List ℕ) (e : ℕ)
    → Chain l p o xs
    → has e xs ≡ true
    → ((l.prev e ≡ p) × (o ≡ some e)) ⊎ ((w : ℕ) × (l.prev e ≡ at w) × (has w xs ≡ true))
Chain-prev l p o [] e c h = cc
Chain-prev l p o (x ∷ xs) e c h = elim (Bool-cases (e == x)) [
  | inl here ↦ let same : e ≡ x = (==_iff e x).0 here in inl (rw same (c.1), rw same (c.0))
  | inr there ↦ elim (Chain-prev l (at x) (l.next x) xs e c.3 (ground arith)) [
    | inl (q, _) ↦ inr (x, q, ground arith)
    | inr (w, q, i) ↦ inr (w, q, ground arith)
  ]
]

-- What follows an element is an element too.
pub Chain-next :
    (l : Links) (p : Prev) (o : Option ℕ) (xs : List ℕ) (e y : ℕ)
    → Chain l p o xs
    → has e xs ≡ true
    → l.next e ≡ some y
    → has y xs ≡ true
Chain-next l p o [] e y c h n = cc
Chain-next l p o (x ∷ []) e y c h n = ground arith
Chain-next l p o (x ∷ z ∷ xs) e y c h n =
    ground (arith, Chain-next l (at x) (l.next x) (z ∷ xs) e y c.3)

pub not-has-erase : (a e : ℕ) (xs : List ℕ) → has a xs ≡ false → has a (erase e xs) ≡ false
not-has-erase a e [] h = refl
not-has-erase a e (x ∷ xs) h = ground (arith, not-has-erase a e xs)
