-- ===== src/Print/Number.antt =====
-- `PrintNum` of lib/print.c: what stands in the buffer when it returns.
use jos_buaa_a20_porting.Prelude.{
  ℕ, zero, suc, ◌+◌, ◌-◌, ◌*◌, ◌≤◌, ◌<◌, ◌≡◌, ◌≢◌, refl, ◌∙◌, ap, ◌⊎◌, inl, inr, Bool, true, false,
  not, ◌&&◌, some, arith, leb, ltb, ◌==◌, if◌then◌else◌, Bool-cases, leb→le,
}
use mathlib.Core.Path.{ap₂}
use jos_buaa_a20_porting.Mmu.{word}
use jos_buaa_a20_porting.Queue.{update}
use jos_buaa_a20_porting.Print.{
  Buffer, minus, space, digit_zero, pad_number, reverse_loop, lay_out, print_num,
}
use jos_buaa_a20_porting.Print.Loops.{fill_lem, reverse_loop_lem}
use jos_buaa_a20_porting.Print.Digits.{
  Radix, radix, digit_of, value_from, value_before, put_digits-Digits,
}

-- The digits before `e` are those from `i` on, turned round.
turned_value :
    (base : ℕ) (buf buf' : Buffer) (i e n : ℕ)
    → n ≤ e
    → ((j : ℕ) → j < n → buf' (e - 1 - j) ≡ buf (i + j))
    → value_before base buf' e n ≡ value_from base buf i n
turned_value base buf buf' i e zero le h = refl
turned_value base buf buf' i e (suc n) le h =
    ap₂ (λ (c v : ℕ). digit_of c + base * v) first
      (turned_value base buf buf' (i + 1) (e - 1) n (omega arith) rest)
  where
    first : buf' (e - 1) ≡ buf i
    first =
        let a : e - 1 - 0 ≡ e - 1 = omega arith in
        let b : i + 0 ≡ i = omega arith in ground (arith, h 0, ap buf' a, ap buf b)

    rest : (j : ℕ) → j < n → buf' (e - 1 - 1 - j) ≡ buf (i + 1 + j)
    rest j lt =
        let a : e - 1 - suc j ≡ e - 1 - 1 - j = omega arith in
        let b : i + suc j ≡ i + 1 + j = omega arith in
        ground (arith, h (suc j), ap buf' a, ap buf b)

-- the characters of `n` digits with their sign
abbrev pub signed_len : ℕ → Bool → ℕ
signed_len n neg = if neg then n + 1 else n

-- where the digits end, and where the sign stands, among `len` characters
abbrev pub digits_end : (ladjust neg : Bool) → (len n : ℕ) → ℕ
digits_end ladjust neg len n = if ladjust then signed_len n neg else len

abbrev pub sign_place : (ladjust : Bool) → (padc len n : ℕ) → ℕ
sign_place ladjust padc len n = if ladjust then 0 else if padc == digit_zero then 0 else len - n - 1

-- The `len` characters are a number of `n` digits that denote `u`, behind a sign if it is
-- negative, on the side and with the padding that the format asks for.
pub record Shown (base : ℕ) (buf : Buffer) (len u : ℕ) (neg : Bool) (width : ℕ) (ladjust : Bool)
    (padc n : ℕ) : Type 0 where
  pub some_digit : 1 ≤ n
  pub long_enough : len ≡ (if ltb width (signed_len n neg) then signed_len n neg else width)
  pub value : value_before base buf (digits_end ladjust neg len n) n ≡ u
  pub signed : neg ≡ true → buf (sign_place ladjust padc len n) ≡ minus
  pub padding :
      (j : ℕ)
      → j < len
      → (j + n < digits_end ladjust neg len n) ⊎ (digits_end ladjust neg len n ≤ j)
      → (neg ≡ true → j ≢ sign_place ladjust padc len n)
      → buf j ≡ (if ladjust then space else padc)

-- where `pad_number` puts the sign
abbrev place : (ladjust : Bool) → (pad len p : ℕ) → ℕ
place ladjust pad len p = if not ladjust && pad == digit_zero then len - 1 else p

module _ (buf : Buffer) (p : ℕ) (neg : Bool) (len : ℕ) (ladjust : Bool) (pad : ℕ)
    (fits : signed_len p neg ≤ len) where
  pad_number-digit : (j : ℕ) → j < p → pad_number buf p neg len ladjust pad j ≡ buf j
  unfolding pad_number
  pad_number-digit j lt = ground (
    arith,
    fill_lem (update buf p minus) (p + 1 - 1) (len - (p + 1)) pad j,
    fill_lem (update buf p minus) (p + 1) (len - (p + 1)) pad j,
    fill_lem buf p (len - p) pad j,
  )

  pad_number-sign :
      neg ≡ true → pad_number buf p neg len ladjust pad (place ladjust pad len p) ≡ minus
  unfolding pad_number
  pad_number-sign h = ground (arith, fill_lem (update buf p minus) (p + 1) (len - (p + 1)) pad p)

  pad_number-pad :
      (j : ℕ)
      → p ≤ j
      → j < len
      → (neg ≡ true → j ≢ place ladjust pad len p)
      → pad_number buf p neg len ladjust pad j ≡ pad
  unfolding pad_number
  pad_number-pad j le lt ne = ground (
    arith,
    fill_lem (update buf p minus) (p + 1 - 1) (len - (p + 1)) pad j,
    fill_lem (update buf p minus) (p + 1) (len - (p + 1)) pad j,
    fill_lem buf p (len - p) pad j,
  )

-- the length that `lay_out` settles on, and the position that its reversal ends at
abbrev number_len : ℕ → Bool → ℕ → ℕ
number_len p neg width = if ltb width (signed_len p neg) then signed_len p neg else width

abbrev last_place : (ladjust neg : Bool) → (len p : ℕ) → ℕ
last_place ladjust neg len p = if ladjust then signed_len p neg - 1 else len - 1

reversed_at :
    (len end : ℕ) (buf : Buffer) (j : ℕ)
    → end ≤ len
    → reverse_loop len 0 end buf j ≡ (if leb j end then buf (end - j) else buf j)
reversed_at len end buf j h = ground (arith, reverse_loop_lem len 0 end buf j)

last_place-le :
    (p : ℕ) (neg : Bool) (width : ℕ) (ladjust : Bool)
    → last_place ladjust neg (number_len p neg width) p ≤ number_len p neg width
last_place-le p neg width true = ground arith
last_place-le p neg width false = ground arith

module _ (buf : Buffer) (p width : ℕ) (ladjust : Bool) (padc : ℕ) where
  -- what stands in the buffer before the reversal
  abbrev before_reversal : Bool → Buffer
  before_reversal neg =
      pad_number buf p neg (number_len p neg width) ladjust (if ladjust then space else padc)

  lay_out-eq :
      (neg : Bool)
      → lay_out buf p neg width ladjust padc ≡ (
        reverse_loop
            (number_len p neg width)
            0
            (last_place ladjust neg (number_len p neg width) p)
            (before_reversal neg),
        number_len p neg width,
      )
  unfolding lay_out
  lay_out-eq true = refl
  lay_out-eq false = refl

  abbrev after_reversal : Bool → Buffer
  after_reversal neg =
      reverse_loop (number_len p neg width) 0 (last_place ladjust neg (number_len p neg width) p)
        (before_reversal neg)

  after_reversal_at :
      (neg : Bool) (j : ℕ)
      → after_reversal neg j ≡ (
          if leb j (last_place ladjust neg (number_len p neg width) p)
          then before_reversal neg (last_place ladjust neg (number_len p neg width) p - j)
          else before_reversal neg j)
  after_reversal_at neg j =
      reversed_at (number_len p neg width) (last_place ladjust neg (number_len p neg width) p)
        (before_reversal neg) j (last_place-le p neg width ladjust)

-- the reversal of a padded number, for any length that has room for it
module _ (buf : Buffer) (p : ℕ) (neg : Bool) (len : ℕ) (ladjust : Bool) (padc : ℕ) (final : Buffer)
    (some_digit : 1 ≤ p) (fits : signed_len p neg ≤ len)
    (turned : (j : ℕ)
      → final j ≡ (
          if leb j (last_place ladjust neg len p)
          then pad_number buf p neg len ladjust
              (if ladjust then space else padc)
              (last_place ladjust neg len p - j)
          else pad_number buf p neg len ladjust (if ladjust then space else padc) j)) where
  abbrev pad : ℕ
  pad = if ladjust then space else padc

  abbrev end : ℕ
  end = last_place ladjust neg len p

  abbrev padded : Buffer
  padded = pad_number buf p neg len ladjust pad

  -- a position that the reversal fills from `j`
  final_at : (q j : ℕ) → q ≤ end → end - q ≡ j → final q ≡ padded j
  final_at q j le e = ground (arith, turned q, ap padded e)

  final-digit : (j : ℕ) → j < p → final (digits_end ladjust neg len p - 1 - j) ≡ buf (0 + j)
  final-digit j lt =
      final_at (digits_end ladjust neg len p - 1 - j) j (ground arith) (ground arith)
      ∙ pad_number-digit buf p neg len ladjust pad fits j lt
      ∙ ap buf (omega arith)

  final-sign : neg ≡ true → final (sign_place ladjust padc len p) ≡ minus
  final-sign h =
      final_at (sign_place ladjust padc len p) (place ladjust pad len p) (ground arith)
        (ground arith)
      ∙ pad_number-sign buf p neg len ladjust pad fits h

  final-pad :
      (j : ℕ)
      → j < len
      → (j + p < digits_end ladjust neg len p) ⊎ (digits_end ladjust neg len p ≤ j)
      → (neg ≡ true → j ≢ sign_place ladjust padc len p)
      → final j ≡ pad
  final-pad j lt out ne = elim (Bool-cases (leb j end)) [
    | inl inside ↦
        final_at j (end - j) (leb→le j end inside) refl
        ∙ pad_number-pad buf p neg len ladjust pad fits (end - j) (ground arith) (ground arith)
            (λ h. ground (arith, ne h))
    | inr beyond ↦
        let same : final j ≡ padded j = ground (arith, turned j) in
        same ∙ pad_number-pad buf p neg len ladjust pad fits j (ground arith) lt (λ h. ground arith)
  ]

-- The end of `PrintNum` shows the number whose digits stand in the buffer in reverse.
pub lay_out-Shown :
    (base : ℕ) (buf : Buffer) (p u : ℕ) (neg : Bool) (width : ℕ) (ladjust : Bool) (padc : ℕ)
    → 1 ≤ p
    → value_from base buf 0 p ≡ u
    → Shown base
        (after_reversal buf p width ladjust padc neg)
        (number_len p neg width)
        u
        neg
        width
        ladjust
        padc
        p
lay_out-Shown base buf p u neg width ladjust padc some_digit value =
    let len : ℕ = number_len p neg width in
    let pad : ℕ = if ladjust then space else padc in
    let fits : signed_len p neg ≤ len = ground arith in
    let final : Buffer = after_reversal buf p width ladjust padc neg in
    let turned = after_reversal_at buf p width ladjust padc neg in
    record {
      some_digit = some_digit;
      long_enough = refl;
      value =
          turned_value base buf final 0 (digits_end ladjust neg len p) p (ground arith)
            (final-digit buf p neg len ladjust padc final some_digit fits turned)
          ∙ value;
      signed = final-sign buf p neg len ladjust padc final some_digit fits turned;
      padding = final-pad buf p neg len ladjust padc final some_digit fits turned;
    }

-- `PrintNum` of a word in base 2, 8, 10 or 16 returns, with the number's digits (at most 32),
-- its sign and its padding in the buffer as the format asks for: the digits, read from the left,
-- denote the number.
pub print_num-Shown :
    (r : Radix) (buf : Buffer) (u : ℕ) (neg : Bool) (width : ℕ) (ladjust : Bool) (padc : ℕ)
    (upcase : Bool)
    → u < word
    → (buf' : Buffer) × (len : ℕ) × (n : ℕ) × (print_num buf u
          (radix r)
          neg
          width
          ladjust
          padc
          upcase
        ≡ some (buf', len))
      × (n ≤ 32)
      × Shown (radix r) buf' len u neg width ladjust padc n
unfolding print_num
print_num-Shown r buf u neg width ladjust padc up small =
    let (digits, n, run, few, d) = put_digits-Digits 31 r up buf 0 u small in
    let at_n : 0 + n ≡ n = omega arith in
    (
      after_reversal digits n width ladjust padc neg,
      number_len n neg width,
      n,
      ground (arith, run, lay_out-eq digits n width ladjust padc neg, at_n),
      few,
      lay_out-Shown (radix r) digits n u neg width ladjust padc d.some_digit d.value,
    )
