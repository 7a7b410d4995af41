-- ===== src/UserMem/Strings.antt =====
-- `strlen`, `strcmp` and `strcpy` of user/string.c against lists of characters.
use jos_buaa_a20_porting.Prelude.{
  ℕ, zero, suc, ◌+◌, ◌%◌, ◌≡◌, ◌≢◌, refl, arith, ◌==◌, Bool-cases, inl, inr, ◌⊎◌, if◌then◌else◌,
  Option, none, some, List, [], ◌∷◌, length,
}
use jos_buaa_a20_porting.Mmu.{word}
use jos_buaa_a20_porting.UserMem.{User, byte_at, strlen, strcmp, order, Order, less, same, greater}

-- the string at an address, if it ends within `n` bytes
abbrev pub cons_to : ℕ → Option (List ℕ) → Option (List ℕ)
cons_to c none = none
cons_to c (some cs) = some (c ∷ cs)

unfoldable pub string_at : (n : ℕ) → User → ℕ → Option (List ℕ)
string_at zero s p = none
string_at (suc n) s p =
    let rest = cons_to (byte_at s p) (string_at n s ((p + 1) % word)) in
    if byte_at s p == 0 then some [] else rest

-- the order of strings: at the first character that differs, a longer one behind
abbrev pub compare_strings : List ℕ → List ℕ → Order
compare_strings [] [] = same
compare_strings [] (d ∷ ds) = less
compare_strings (c ∷ cs) [] = greater
compare_strings (c ∷ cs) (d ∷ ds) = if c == d then compare_strings cs ds else order c d

cons_to-some :
    (c : ℕ) (o : Option (List ℕ)) (xs : List ℕ)
    → cons_to c o ≡ some xs
    → (cs : List ℕ) × (o ≡ some cs) × (xs ≡ c ∷ cs)
cons_to-some c none xs h = cc
cons_to-some c (some cs) xs h = (cs, refl, cc)

no_string : (s : User) (p : ℕ) (xs : List ℕ) → string_at 0 s p ≢ some xs
unfolding string_at
no_string s p xs h = cc

-- a string is empty, or has a first character
string_at-cases :
    (n : ℕ) (s : User) (p : ℕ) (xs : List ℕ)
    → string_at (suc n) s p ≡ some xs
    → ((byte_at s p ≡ 0) × (xs ≡ []))
      ⊎ ((byte_at s p ≢ 0)
          × ((cs : List ℕ) × (string_at n s ((p + 1) % word) ≡ some cs) × (xs ≡ byte_at s p ∷ cs)))
unfolding string_at
string_at-cases n s p xs h = elim (Bool-cases (byte_at s p == 0)) [
  | inl end ↦ let e : some [] ≡ some xs = rw end at h in inl (ground (arith, end), cc)
  | inr more ↦ inr (
    ground (arith, more),
    cons_to-some (byte_at s p) (string_at n s ((p + 1) % word)) xs (rw more at h),
  )
]

strlen_lem :
    (n : ℕ) (s : User) (p : ℕ) (xs : List ℕ)
    → string_at n s p ≡ some xs
    → strlen n s p ≡ some (length xs)
unfolding strlen
strlen_lem zero s p xs h = absurd (no_string s p xs h)
strlen_lem (suc n) s p xs h = elim (string_at-cases n s p xs h) [
  | inl (z, e) ↦ rw e (ground (arith, z))
  | inr (nz, (cs, tail, e)) ↦ rw e (ground (arith, nz, strlen_lem n s ((p + 1) % word) cs tail))
]

strcmp_lem :
    (n : ℕ) (s : User) (p q : ℕ) (xs ys : List ℕ)
    → string_at n s p ≡ some xs
    → string_at n s q ≡ some ys
    → strcmp n s p q ≡ some (compare_strings xs ys)
unfolding strcmp
strcmp_lem zero s p q xs ys hp hq = absurd (no_string s p xs hp)
strcmp_lem (suc n) s p q xs ys hp hq = elim (string_at-cases n s p xs hp) [
  | inl (z, e) ↦ elim (string_at-cases n s q ys hq) [
    | inl (z', e') ↦ rw e (rw e' (ground (arith, z, z')))
    | inr (nz', (ds, tail', e')) ↦ rw e (rw e' (ground (arith, z, nz')))
  ]
  | inr (nz, (cs, tail, e)) ↦ elim (string_at-cases n s q ys hq) [
    | inl (z', e') ↦ rw e (rw e' (ground (arith, nz, z')))
    | inr (nz', (ds, tail', e')) ↦ rw e (
        rw e' (
          ground
            (arith, nz, nz', strcmp_lem n s ((p + 1) % word) ((q + 1) % word) cs ds tail tail')))
  ]
]

-- Where both strings end within `n` bytes, `strlen` is the length of the list of characters, and
-- `strcmp` tells the order of the two lists.
pub strcmp-compare_strings :
    (n : ℕ) (s : User) (p q : ℕ) (xs ys : List ℕ)
    → string_at n s p ≡ some xs
    → string_at n s q ≡ some ys
    → (strlen n s p ≡ some (length xs)) × (strcmp n s p q ≡ some (compare_strings xs ys))
strcmp-compare_strings n s p q xs ys hp hq =
    (strlen_lem n s p xs hp, strcmp_lem n s p q xs ys hp hq)
