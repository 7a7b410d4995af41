-- ===== src/Paths/Names.antt =====
-- The names of a path of fs/fs.c: no name is empty or has a slash in it, and slashes at its ends
-- or in a row make no difference.
use jos_buaa_a20_porting.Prelude.{
  ℕ, ◌≡◌, refl, ap, ◌∙◌, Bool, true, false, ◌&&◌, not, List, [], ◌∷◌, ◌++◌, arith, ◌==◌, Bool-cases,
  inl, inr,
}
use jos_buaa_a20_porting.Paths.{slash, push, split, names}

-- neither empty nor with a slash in it
abbrev pub is_plain_name : List ℕ → Bool
is_plain_name [] = true
is_plain_name (c ∷ s) = not (c == slash) && is_plain_name s

abbrev pub are_names : List (List ℕ) → Bool
are_names [] = true
are_names ([] ∷ rest) = false
are_names ((c ∷ name) ∷ rest) = is_plain_name (c ∷ name) && are_names rest

push-are_names :
    (name : List ℕ) (rest : List (List ℕ))
    → is_plain_name name ≡ true
    → are_names rest ≡ true
    → are_names (push name rest) ≡ true
push-are_names [] rest h g = g
push-are_names (c ∷ name) rest h g = ground arith

split-are_names :
    (path : List ℕ) → (is_plain_name (split path).0 ≡ true) × (are_names (split path).1 ≡ true)
split-are_names [] = (refl, refl)
split-are_names (c ∷ s) =
    let (plain, rest) = split-are_names s in
    elim (Bool-cases (c == slash)) [
      | inl at ↦ rw at (refl, push-are_names (split s).0 (split s).1 plain rest)
      | inr other ↦ rw other (ground (arith, other, plain), rest)
    ]

push-append : (name : List ℕ) (xs ys : List (List ℕ)) → push name (xs ++ ys) ≡ push name xs ++ ys
push-append [] xs ys = refl
push-append (c ∷ name) xs ys = refl

split-append : (p q : List ℕ) → split (p ++ slash ∷ q) ≡ ((split p).0, (split p).1 ++ names q)
split-append [] q = refl
split-append (c ∷ p) q = elim (Bool-cases (c == slash)) [
  | inl at ↦
      let cut : split (p ++ slash ∷ q) ≡ ((split p).0, (split p).1 ++ names q) = split-append p q in
      let step : push (split (p ++ slash ∷ q)).0 (split (p ++ slash ∷ q)).1
          ≡ push (split p).0 (split p).1 ++ names q =
        ap (λ (x : List ℕ × List (List ℕ)). push x.0 x.1) cut
        ∙ push-append (split p).0 (split p).1 (names q) in
      rw at (ap (λ (t : List (List ℕ)). ([], t)) step)
  | inr other ↦ rw other (ap (λ (x : List ℕ × List (List ℕ)). (c ∷ x.0, x.1)) (split-append p q))
]

-- The names of a path are not empty and have no slash in them, and those of two paths with a slash
-- between them are the names of the one and then of the other: slashes at the ends of a path, and
-- more than one in a row, make no difference.
pub names-append :
    (p q : List ℕ) → (are_names (names p) ≡ true) × (names (p ++ slash ∷ q) ≡ names p ++ names q)
names-append p q =
    let (plain, rest) = split-are_names p in
    (
      push-are_names (split p).0 (split p).1 plain rest,
      ap (λ (x : List ℕ × List (List ℕ)). push x.0 x.1) (split-append p q)
          ∙ push-append (split p).0 (split p).1 (names q),
    )
