-- ===== src/Sched/Turn.antt =====
-- The order in which `sched_yield` of lib/sched.c takes the environments, on the list as a sequence.
use jos_buaa_a20_porting.Prelude.{
  ℕ, ◌≡◌, refl, ap, sym, ◌∙◌, true, arith, ◌==◌, if◌then◌else◌, ◌⊎◌, inl, inr, Bool-cases, Option,
  none, some, Option-cases, List, [], ◌∷◌,
}
use jos_buaa_a20_porting.Queue.{Prev, head, at, Links}
use jos_buaa_a20_porting.Queue.Chain.{has, Chain, IsQueue}
use jos_buaa_a20_porting.Kernel.{Kernel}
use jos_buaa_a20_porting.Sched.{advance}
use jos_buaa_a20_porting.Sched.Spin.{InList}

-- The environment whose turn comes on a list with `x` in front: the one behind `c` on `ys`, or `x`
-- where `c` is the last one.
abbrev pub behind : (x c : ℕ) → (ys : List ℕ) → ℕ
behind x c [] = x
behind x c (y ∷ []) = x
behind x c (y ∷ z ∷ zs) = if c == y then z else behind x c (z ∷ zs)

-- the turn after `iter`: without one it is that of the first
abbrev pub turn : Option ℕ → (x : ℕ) → (xs : List ℕ) → ℕ
turn none x xs = x
turn (some c) x xs = behind x c (x ∷ xs)

-- an element, or `f` where there is none
abbrev first_of : Option ℕ → Option ℕ → Option ℕ
first_of none f = f
first_of (some e) f = some e

-- the link of an element leads to the one behind it; after the last one `x` is next
next-behind :
    (l : Links) (p : Prev) (o : Option ℕ) (x c : ℕ) (ys : List ℕ)
    → Chain l p o ys
    → has c ys ≡ true
    → first_of (l.next c) (some x) ≡ some (behind x c ys)
next-behind l p o x c [] q h = cc
next-behind l p o x c (y ∷ []) q h =
    let same : c ≡ y = ground (arith, h) in
    let last : l.next c ≡ none = ap l.next same ∙ q.3 in rw last refl
next-behind l p o x c (y ∷ z ∷ zs) q h = elim (Bool-cases (c == y)) [
  | inl here ↦
      let same : c ≡ y = ground (arith, here) in
      let link : l.next c ≡ some z = ap l.next same ∙ q.3.0 in rw here (rw link refl)
  | inr there ↦
      rw there (next-behind l (at y) (l.next y) x c (z ∷ zs) q.3 (ground (arith, there, h)))
]

-- `LIST_NEXT` of `c` and what `sched_yield` makes of it
advance_link :
    (k : Kernel) (c : ℕ)
    → k.iter ≡ some c
    → advance k ≡ first_of (k.env_sched_list.next c) k.env_sched_list.first
unfolding advance
advance_link k c now = elim (Option-cases (k.env_sched_list.next c)) [
  | inl none_behind ↦ rw now (rw none_behind refl)
  | inr (e, link) ↦ rw now (rw link refl)
]

-- `sched_yield` moves to the environment whose turn comes.
pub advance-turn :
    (k : Kernel) (x : ℕ) (xs : List ℕ)
    → IsQueue k.env_sched_list (x ∷ xs)
    → InList k.iter (x ∷ xs)
    → advance k ≡ some (turn k.iter x xs)
unfolding advance
advance-turn k x xs q i = by_iter k.iter refl i
  where
    by_iter : (o : Option ℕ) → k.iter ≡ o → InList o (x ∷ xs) → advance k ≡ some (turn o x xs)
    by_iter none now inside = rw now q.0
    by_iter (some c) now inside =
        advance_link k c now
        ∙ ap (first_of (k.env_sched_list.next c)) q.0
        ∙ next-behind k.env_sched_list head k.env_sched_list.first x c (x ∷ xs) q inside

-- the link of `c`, on the list or from when it was there, leads to `e`, or is NULL and `e` is the
-- first element `x`
abbrev pub Follows : Links → (c x e : ℕ) → Type 0
Follows l c x e = (l.next c ≡ some e) ⊎ ((l.next c ≡ none) × (e ≡ x))

pub advance-Follows :
    (k : Kernel) (x e c : ℕ) (xs : List ℕ)
    → IsQueue k.env_sched_list (x ∷ xs)
    → k.iter ≡ some c
    → Follows k.env_sched_list c x e
    → advance k ≡ some e
advance-Follows k x e c xs q now (inl link) = advance_link k c now ∙ rw link refl
advance-Follows k x e c xs q now (inr (end, first)) =
    advance_link k c now ∙ rw end (q.0 ∙ ap some (sym first))

pub some-injective : (a b : ℕ) → some a ≡ some b → a ≡ b
some-injective a b h = cc
