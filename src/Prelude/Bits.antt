-- ===== src/Prelude/Bits.antt =====
-- `&` and `|` on numbers: the law of their lowest digit, and words read as a high and a low part.
use Prim.Native.Nat.{ℕ, zero, suc, ◌+◌, ◌-◌, ◌*◌, ◌/◌, ◌%◌, ◌^◌, ◌≤◌, ◌<◌, min, max}
use Prim.Native.Nat.{bit_and, bit_or, digits, bit_and-bitwise, bit_or-bitwise}
use mathlib.Core.Path.{◌≡◌, refl, ap, ◌∙◌, sym}
use native.Mathlib.Omega.{arith}
use native.Mathlib.Nat.{pow-suc, one-le-pow, div-add-mod', mod-lt, div-div-eq-div-mul}

-- Any fuel from `a` on gives the digits that `a` itself gives.
stable :
    (rest : ℕ → ℕ) (op : ℕ → ℕ → ℕ) (bound n a b : ℕ)
    → a ≤ bound
    → a ≤ n
    → digits rest op n a b ≡ digits rest op a a b
stable rest op bound zero zero b s h = refl
stable rest op bound (suc n) zero b s h = refl
stable rest op bound zero (suc a) b s h = absurd (omega arith)
stable rest op zero (suc n) (suc a) b s h = absurd (omega arith)
stable rest op (suc bound) (suc n) (suc a) b s h =
    let half : ℕ = suc a / 2 in
    let from_n = stable rest op bound n half (b / 2) (omega arith) (omega arith) in
    let from_a = stable rest op bound a half (b / 2) (omega arith) (omega arith) in
    omega (arith, from_n, from_a)

-- the law of the lowest digit
abbrev IsBitwise : (bit op : ℕ → ℕ → ℕ) → Type 0
IsBitwise bit op = (a b : ℕ) → bit a b ≡ bit (a / 2) (b / 2) * 2 + op (a % 2) (b % 2)

pub zero-bit_and : (b : ℕ) → bit_and 0 b ≡ 0
zero-bit_and b = bit_and-bitwise 0 b

pub zero-bit_or : (b : ℕ) → bit_or 0 b ≡ b
zero-bit_or b = bit_or-bitwise 0 b

pub bit_and-IsBitwise : IsBitwise bit_and min
bit_and-IsBitwise zero b = omega (arith, zero-bit_and (b / 2), zero-bit_and b)
bit_and-IsBitwise (suc n) b =
    let half : ℕ = suc n / 2 in
    let canonical = stable (λ _. 0) min n n half (b / 2) (omega arith) (omega arith) in
    omega (arith, canonical, bit_and-bitwise half (b / 2), bit_and-bitwise (suc n) b)

pub bit_or-IsBitwise : IsBitwise bit_or max
bit_or-IsBitwise zero b = omega (arith, zero-bit_or (b / 2), zero-bit_or b)
bit_or-IsBitwise (suc n) b =
    let half : ℕ = suc n / 2 in
    let canonical = stable (λ c. c) max n n half (b / 2) (omega arith) (omega arith) in
    omega (arith, canonical, bit_or-bitwise half (b / 2), bit_or-bitwise (suc n) b)

double_scale : (k q : ℕ) → q * 2 ^ suc k ≡ q * 2 ^ k + q * 2 ^ k
double_scale k q = omega (arith, ap (λ (p : ℕ). q * p) (pow-suc 2 k))

-- what holds of every operation with such a law
module _ (bit op : ℕ → ℕ → ℕ) (law : IsBitwise bit op) where
  -- Against 0 it is the function that takes the digits one by one in the same way.
  against_zero :
      (g : ℕ → ℕ)
      → bit 0 0 ≡ g 0
      → ((a : ℕ) → g a ≡ g (a / 2) * 2 + op (a % 2) 0)
      → (n a : ℕ) → a ≤ n
      → bit a 0 ≡ g a
  against_zero g start same n zero h = start
  against_zero g start same zero (suc a) h = absurd (omega arith)
  against_zero g start same (suc n) (suc a) h =
      omega
        (arith, law (suc a) 0, same (suc a), against_zero g start same n (suc a / 2) (omega arith))

  module _ (none : bit 0 0 ≡ 0) (digit : (x y : ℕ) → x < 2 → y < 2 → op x y < 2) where
    -- It acts on the digits above the lowest `k` and on those apart.
    parts :
        (k a b c d : ℕ)
        → b < 2 ^ k
        → d < 2 ^ k
        → bit (a * 2 ^ k + b) (c * 2 ^ k + d) ≡ bit a c * 2 ^ k + bit b d
    parts zero a b c d hb hd =
        let low_b : b ≡ 0 = omega arith in
        let low_d : d ≡ 0 = omega arith in
        let whole_a : a * 2 ^ zero + b ≡ a = omega arith in
        let whole_c : c * 2 ^ zero + d ≡ c = omega arith in
        rw (whole_a, whole_c, low_b, low_d) (omega (arith, none))
    parts (suc k) a b c d hb hd =
        let two : 2 ^ suc k ≡ 2 * 2 ^ k = omega (arith, pow-suc 2 k) in
        ground (
          arith,
          law (a * 2 ^ suc k + b) (c * 2 ^ suc k + d),
          law b d,
          double_scale k a,
          double_scale k c,
          double_scale k (bit a c),
          parts k a (b / 2) c (d / 2) (omega (arith, two)) (omega (arith, two)),
        )

    -- Its result has no more digits than its arguments.
    within : (k a d : ℕ) → a < 2 ^ k → d < 2 ^ k → bit a d < 2 ^ k
    within zero a d ha hd =
        let only_a : a ≡ 0 = omega arith in
        let only_d : d ≡ 0 = omega arith in rw (only_a, only_d) (omega (arith, none))
    within (suc k) a d ha hd =
        let two : 2 ^ suc k ≡ 2 * 2 ^ k = omega (arith, pow-suc 2 k) in
        let rest = within k (a / 2) (d / 2) (omega (arith, two)) (omega (arith, two)) in
        omega (arith, law a d, two, rest, digit (a % 2) (d % 2) (omega arith) (omega arith))

min_digit : (x y : ℕ) → x < 2 → y < 2 → min x y < 2
min_digit x y hx hy = omega arith

max_digit : (x y : ℕ) → x < 2 → y < 2 → max x y < 2
max_digit x y hx hy = omega arith

pub bit_and-zero : (a : ℕ) → bit_and a 0 ≡ 0
bit_and-zero a =
    against_zero bit_and min bit_and-IsBitwise (λ _. 0) refl (λ x. omega arith) a a (omega arith)

pub bit_or-zero : (a : ℕ) → bit_or a 0 ≡ a
bit_or-zero a =
    against_zero bit_or max bit_or-IsBitwise (λ x. x) refl (λ x. omega arith) a a (omega arith)

pub bit_and_parts :
    (k a b c d : ℕ)
    → b < 2 ^ k
    → d < 2 ^ k
    → bit_and (a * 2 ^ k + b) (c * 2 ^ k + d) ≡ bit_and a c * 2 ^ k + bit_and b d
bit_and_parts = parts bit_and min bit_and-IsBitwise refl min_digit

pub bit_or_parts :
    (k a b c d : ℕ)
    → b < 2 ^ k
    → d < 2 ^ k
    → bit_or (a * 2 ^ k + b) (c * 2 ^ k + d) ≡ bit_or a c * 2 ^ k + bit_or b d
bit_or_parts = parts bit_or max bit_or-IsBitwise refl max_digit

pub bit_or-lt : (k a d : ℕ) → a < 2 ^ k → d < 2 ^ k → bit_or a d < 2 ^ k
bit_or-lt = within bit_or max bit_or-IsBitwise refl max_digit

-- `&` has no more digits than its mask.
pub bit_and-lt : (k a d : ℕ) → d < 2 ^ k → bit_and a d < 2 ^ k
bit_and-lt zero a d h = let only : d ≡ 0 = omega arith in rw only (omega (arith, bit_and-zero a))
bit_and-lt (suc k) a d h =
    let two : 2 ^ suc k ≡ 2 * 2 ^ k = omega (arith, pow-suc 2 k) in
    let rest = bit_and-lt k (a / 2) (d / 2) (omega (arith, two)) in
    omega (arith, bit_and-IsBitwise a d, two, rest)

two_pow_pos : (k : ℕ) → 1 ≤ 2 ^ k
two_pow_pos k = one-le-pow k 2 (omega arith)

-- A mask of `k` ones keeps a number below `2 ^ k`.
full_mask : (k r : ℕ) → r < 2 ^ k → bit_and r (2 ^ k - 1) ≡ r
full_mask zero r h = let only : r ≡ 0 = omega arith in rw only refl
full_mask (suc k) r h =
    let two : 2 ^ suc k ≡ 2 * 2 ^ k = omega (arith, pow-suc 2 k) in
    let half : (2 ^ suc k - 1) / 2 ≡ 2 ^ k - 1 = omega (arith, two, two_pow_pos k) in
    let rest = full_mask k (r / 2) (omega (arith, two)) in
    omega (
      arith,
      bit_and-IsBitwise r (2 ^ suc k - 1),
      ap (λ (m : ℕ). bit_and (r / 2) m) half,
      rest,
      two,
      two_pow_pos k,
    )

-- It takes the remainder by `2 ^ k`.
pub bit_and_low : (k a : ℕ) → bit_and a (2 ^ k - 1) ≡ a % 2 ^ k
bit_and_low k a =
    let q : ℕ = a / 2 ^ k in
    let r : ℕ = a % 2 ^ k in
    let mask : ℕ = 2 ^ k - 1 in
    let small : r < 2 ^ k = mod-lt a (two_pow_pos k) in
    let no_high : 0 * 2 ^ k + mask ≡ mask = omega arith in
    omega (
      arith,
      ap (λ (x : ℕ). bit_and x mask) (div-add-mod' a (2 ^ k)),
      ap (λ (m : ℕ). bit_and (q * 2 ^ k + r) m) no_high,
      bit_and_parts k q r 0 mask small (omega (arith, two_pow_pos k)),
      full_mask k r small,
      ap (λ (x : ℕ). x * 2 ^ k) (bit_and-zero q),
    )

-- `(a | b) & b` is `b`.
absorb : (bound a b : ℕ) → b ≤ bound → bit_and (bit_or a b) b ≡ b
absorb bound a zero h = bit_and-zero (bit_or a 0)
absorb zero a (suc b) h = absurd (omega arith)
absorb (suc bound) a (suc b) h =
    let half : bit_or a (suc b) / 2 ≡ bit_or (a / 2) (suc b / 2) =
      omega (arith, bit_or-IsBitwise a (suc b)) in
    omega (
      arith,
      bit_or-IsBitwise a (suc b),
      bit_and-IsBitwise (bit_or a (suc b)) (suc b),
      ap (λ (x : ℕ). bit_and x (suc b / 2)) half,
      absorb bound (a / 2) (suc b / 2) (omega arith),
    )

pub bit_and-bit_or_self : (a b : ℕ) → bit_and (bit_or a b) b ≡ b
bit_and-bit_or_self a b = absorb b a b (omega arith)

halve : (k x : ℕ) → x / 2 ^ suc k ≡ x / 2 / 2 ^ k
halve k x =
    let two : 2 ^ suc k ≡ 2 * 2 ^ k = omega (arith, pow-suc 2 k) in
    ap (λ (p : ℕ). x / p) two ∙ sym (div-div-eq-div-mul x 2 (2 ^ k))

-- A digit of `a & b` is the smaller of the two digits.
pub bit_and_digit : (k a b : ℕ) → bit_and a b / 2 ^ k % 2 ≡ min (a / 2 ^ k % 2) (b / 2 ^ k % 2)
bit_and_digit zero a b = omega (arith, bit_and-IsBitwise a b)
bit_and_digit (suc k) a b =
    let half : bit_and a b / 2 ≡ bit_and (a / 2) (b / 2) = omega (arith, bit_and-IsBitwise a b) in
    omega (
      arith,
      halve k (bit_and a b),
      halve k a,
      halve k b,
      ap (λ (x : ℕ). x / 2 ^ k) half,
      bit_and_digit k (a / 2) (b / 2),
    )
