-- ===== src/Format/Scan.antt =====
-- What the loops of `lp_Print` of lib/print.c leave of a format: never more than there was, and no
-- wider numbers.
use jos_buaa_a20_porting.Prelude.{
  ℕ, ◌+◌, ◌-◌, ◌*◌, ◌≤◌, List, [], ◌∷◌, arith, ◌==◌, length, Bool-cases, inl, inr,
}
use jos_buaa_a20_porting.Print.{lp_max_buf, percent}
use jos_buaa_a20_porting.Format.{
  scan_text, scan_number, scan_flag, scan_prec, scan_directive, is_digit,
}

-- no run of digits in a format is a number that exceeds the buffer
abbrev pub IsNarrow : List ℕ → Type 0
IsNarrow [] = Unit {0}
IsNarrow (c ∷ s) = ((scan_number 0 (c ∷ s)).0 ≤ lp_max_buf) × IsNarrow s

pub scan_text-length : (s : List ℕ) → length (scan_text s).1 ≤ length s
scan_text-length [] = omega arith
scan_text-length (c ∷ s) = ground (arith, scan_text-length s)

IsNarrow-number : (s : List ℕ) → IsNarrow s → (scan_number 0 s).0 ≤ lp_max_buf
IsNarrow-number [] h = omega arith
IsNarrow-number (c ∷ s) (here, _) = here

-- a rest of a narrow format is narrow
pub scan_text-IsNarrow : (s : List ℕ) → IsNarrow s → IsNarrow (scan_text s).1
scan_text-IsNarrow [] h = tt
scan_text-IsNarrow (c ∷ s) (here, h) = elim (Bool-cases (c == percent)) [
  | inl stops ↦ rw stops (here, h)
  | inr goes_on ↦ rw goes_on (scan_text-IsNarrow s h)
]

scan_number-IsNarrow : (n : ℕ) (s : List ℕ) → IsNarrow s → IsNarrow (scan_number n s).1
scan_number-IsNarrow n [] h = tt
scan_number-IsNarrow n (c ∷ s) (here, h) = elim (Bool-cases (is_digit c)) [
  | inl digit ↦ rw digit (scan_number-IsNarrow (10 * n + (c - 48)) s h)
  | inr other ↦ rw other (here, h)
]

scan_flag-IsNarrow : (f : ℕ) (s : List ℕ) → IsNarrow s → IsNarrow (scan_flag f s).1
scan_flag-IsNarrow f [] h = tt
scan_flag-IsNarrow f (c ∷ s) (here, h) = elim (Bool-cases (c == f)) [
  | inl it ↦ rw it h
  | inr other ↦ rw other (here, h)
]

scan_prec-IsNarrow : (s : List ℕ) → IsNarrow s → IsNarrow (scan_prec s).1
scan_prec-IsNarrow [] h = tt
scan_prec-IsNarrow (c ∷ s) (here, h) = elim (Bool-cases (is_digit c)) [
  | inl digit ↦ rw digit (scan_number-IsNarrow (10 * 0 + (c - 48)) s h)
  | inr other ↦ rw other (here, h)
]

pub scan_directive-IsNarrow :
    (s : List ℕ)
    → IsNarrow s
    → ((scan_directive s).0.width ≤ lp_max_buf) × IsNarrow (scan_directive s).1
unfolding scan_directive
scan_directive-IsNarrow s h =
    let s1 : List ℕ = (scan_flag 108 s).1 in
    let h1 : IsNarrow s1 = scan_flag-IsNarrow 108 s h in
    let s2 : List ℕ = (scan_flag 45 s1).1 in
    let h2 : IsNarrow s2 = scan_flag-IsNarrow 45 s1 h1 in
    let s3 : List ℕ = (scan_flag 48 s2).1 in
    let h3 : IsNarrow s3 = scan_flag-IsNarrow 48 s2 h2 in
    let s4 : List ℕ = (scan_number 0 s3).1 in
    let h4 : IsNarrow s4 = scan_number-IsNarrow 0 s3 h3 in
    let s5 : List ℕ = (scan_flag 46 s4).1 in
    let h5 : IsNarrow s5 = scan_flag-IsNarrow 46 s4 h4 in
    let width : (scan_number 0 s3).0 ≤ lp_max_buf = IsNarrow-number s3 h3 in
    elim (Bool-cases (scan_flag 46 s4).0) [
      | inl point ↦ (width, rw point (scan_prec-IsNarrow s5 h5))
      | inr no_point ↦ (width, rw no_point h5)
    ]

pub scan_text-short : (s : List ℕ) → length (scan_text s).0 ≤ length s
scan_text-short [] = omega arith
scan_text-short (c ∷ s) = ground (arith, scan_text-short s)

scan_number-length : (n : ℕ) (s : List ℕ) → length (scan_number n s).1 ≤ length s
scan_number-length n [] = omega arith
scan_number-length n (c ∷ s) = ground (arith, scan_number-length (10 * n + (c - 48)) s)

scan_flag-length : (f : ℕ) (s : List ℕ) → length (scan_flag f s).1 ≤ length s
scan_flag-length f [] = omega arith
scan_flag-length f (c ∷ s) = ground arith

scan_prec-length : (s : List ℕ) → length (scan_prec s).1 ≤ length s
scan_prec-length [] = omega arith
scan_prec-length (c ∷ s) = ground (arith, scan_number-length 0 (c ∷ s))

pub scan_directive-length : (s : List ℕ) → length (scan_directive s).1 ≤ length s
unfolding scan_directive
scan_directive-length s =
    let s1 : List ℕ = (scan_flag 108 s).1 in
    let s2 : List ℕ = (scan_flag 45 s1).1 in
    let s3 : List ℕ = (scan_flag 48 s2).1 in
    let s4 : List ℕ = (scan_number 0 s3).1 in
    let s5 : List ℕ = (scan_flag 46 s4).1 in
    let rest : length s5 ≤ length s = omega (
      arith,
      scan_flag-length 108 s,
      scan_flag-length 45 s1,
      scan_flag-length 48 s2,
      scan_number-length 0 s3,
      scan_flag-length 46 s4,
    ) in
    elim (Bool-cases (scan_flag 46 s4).0) [
      | inl point ↦ rw point (omega (arith, scan_prec-length s5, rest))
      | inr no_point ↦ rw no_point rest
    ]
