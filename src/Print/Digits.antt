-- ===== src/Print/Digits.antt =====
-- The digits that the `do` loop of `PrintNum` in lib/print.c writes, and the numbers they denote.
use jos_buaa_a20_porting.Prelude.{
  ℕ, zero, suc, ◌+◌, ◌-◌, ◌*◌, ◌/◌, ◌%◌, ◌^◌, ◌≤◌, ◌<◌, ◌≡◌, ◌≢◌, refl, ◌∙◌, ap, inl, inr, Bool,
  some, arith, leb, ◌==◌, if◌then◌else◌, Bool-cases, ==_iff,
}
use mathlib.Core.Path.{ap₂}
use jos_buaa_a20_porting.Queue.{update}
use jos_buaa_a20_porting.Print.{Buffer, digit_char, put_digits}

-- the bases that `lp_Print` asks for
pub data Radix : Type 0 where
  bin oct dec hex : Radix

abbrev pub radix : Radix → ℕ
radix bin = 2
radix oct = 8
radix dec = 10
radix hex = 16

-- the value of a digit's character
abbrev pub digit_of : ℕ → ℕ
digit_of c = if leb c 57 then c - 48 else if leb c 90 then c - 55 else c - 87

-- the number that `n` characters from `i` on denote, the least significant first
abbrev pub value_from : (base : ℕ) → Buffer → (i n : ℕ) → ℕ
value_from base buf i zero = 0
value_from base buf i (suc n) = digit_of (buf i) + base * value_from base buf (i + 1) n

-- the number that the `n` characters before `e` denote, the most significant first
abbrev pub value_before : (base : ℕ) → Buffer → (e n : ℕ) → ℕ
value_before base buf e zero = 0
value_before base buf e (suc n) = digit_of (buf (e - 1)) + base * value_before base buf (e - 1) n

digit_of-digit_char :
    (r : Radix) (upcase : Bool) (u : ℕ) → digit_of (digit_char upcase (u % radix r)) ≡ u % radix r
digit_of-digit_char bin up u = ground arith
digit_of-digit_char oct up u = ground arith
digit_of-digit_char dec up u = ground arith
digit_of-digit_char hex up u = ground arith

radix-divide : (r : Radix) (u : ℕ) → u % radix r + radix r * (u / radix r) ≡ u
radix-divide bin u = omega arith
radix-divide oct u = omega arith
radix-divide dec u = omega arith
radix-divide hex u = omega arith

radix-smaller : (r : Radix) (u n : ℕ) → u < 2 * n → u / radix r < n
radix-smaller bin u n h = omega arith
radix-smaller oct u n h = omega arith
radix-smaller dec u n h = omega arith
radix-smaller hex u n h = omega arith

pub value_from-ext :
    (base : ℕ) (buf buf' : Buffer) (i n : ℕ)
    → ((j : ℕ) → i ≤ j → buf' j ≡ buf j)
    → value_from base buf' i n ≡ value_from base buf i n
value_from-ext base buf buf' i zero h = refl
value_from-ext base buf buf' i (suc n) h =
    ap₂ (λ (c v : ℕ). digit_of c + base * v) (h i (omega arith))
      (value_from-ext base buf buf' (i + 1) n (λ j le. h j (omega arith)))

-- what the loop leaves: `n` digits from `p` on that denote `u`, and nothing before them changed
pub record Digits (base : ℕ) (buf buf' : Buffer) (p n u : ℕ) : Type 0 where
  pub some_digit : 1 ≤ n
  pub value : value_from base buf' p n ≡ u
  pub before : (j : ℕ) → j < p → buf' j ≡ buf j

first_digit :
    (r : Radix) (upcase : Bool) (buf buf' : Buffer) (p n u : ℕ)
    → buf' p ≡ digit_char upcase (u % radix r)
    → value_from (radix r) buf' (p + 1) n ≡ u / radix r
    → value_from (radix r) buf' p (suc n) ≡ u
first_digit r up buf buf' p n u here rest =
    ap₂ (λ (c v : ℕ). digit_of c + radix r * v) here rest
    ∙ ap (λ (d : ℕ). d + radix r * (u / radix r)) (digit_of-digit_char r up u)
    ∙ radix-divide r u

-- the conclusion about the loop: the buffer and the count that it returns
abbrev pub LoopDigits : (fuel : ℕ) (r : Radix) (upcase : Bool) (buf : Buffer) (p u : ℕ) → Type 0
LoopDigits fuel r up buf p u =
    (buf' : Buffer) × (n : ℕ) × (put_digits fuel (radix r) up buf p u ≡ some (buf', p + n))
    × (n ≤ fuel)
    × Digits (radix r) buf buf' p n u

last_digit :
    (fuel : ℕ) (r : Radix) (upcase : Bool) (buf : Buffer) (p u : ℕ)
    → u / radix r ≡ 0
    → LoopDigits (suc fuel) r upcase buf p u
unfolding put_digits
last_digit fuel r up buf p u last = (
  update buf p (digit_char up (u % radix r)),
  1,
  ground arith,
  omega arith,
  record {
    some_digit = omega arith;
    value =
        first_digit r up buf (update buf p (digit_char up (u % radix r))) p 0 u (ground arith)
          (ground arith);
    before = λ j lt. ground arith;
  },
)

more_digits :
    (fuel : ℕ) (r : Radix) (upcase : Bool) (buf : Buffer) (p u : ℕ)
    → u / radix r ≢ 0
    → LoopDigits fuel r upcase
        (update buf p (digit_char upcase (u % radix r)))
        (p + 1)
        (u / radix r)
    → LoopDigits (suc fuel) r upcase buf p u
unfolding put_digits
more_digits fuel r up buf p u more (buf', n, run, few, d) = (
  buf',
  suc n,
  ground arith,
  omega (arith, few),
  record {
    some_digit = omega arith;
    value = first_digit r up buf buf' p n u (ground (arith, d.before p)) d.value;
    before = λ j lt. ground (arith, d.before j);
  },
)

-- The loop writes at most as many digits as it has fuel, of a number below the power of two.
pub put_digits-Digits :
    (fuel : ℕ) (r : Radix) (upcase : Bool) (buf : Buffer) (p u : ℕ)
    → u < 2 ^ suc fuel
    → LoopDigits (suc fuel) r upcase buf p u
put_digits-Digits zero r up buf p u h =
    last_digit 0 r up buf p u (omega (arith, radix-smaller r u 1 (omega arith)))
put_digits-Digits (suc f) r up buf p u h = elim (Bool-cases (u / radix r == 0)) [
  | inl last ↦ last_digit (suc f) r up buf p u ((==_iff _ _).0 last)
  | inr more ↦ more_digits (suc f) r up buf p u (ground arith) (
      put_digits-Digits f r up (update buf p (digit_char up (u % radix r))) (p + 1) (u / radix r)
        (radix-smaller r u (2 ^ suc f) (omega (arith, h))))
]
